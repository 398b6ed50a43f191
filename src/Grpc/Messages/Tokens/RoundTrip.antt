-- ===== src/Grpc/Messages/Tokens/RoundTrip.antt =====
-- The messages about tokens come back as they were sent, and a request that names too many resources
-- is refused.
use narra_leaf_team.Common.{
  ℕ, zero, suc, ◌≤◌, ◌<◌, ◌≡◌, refl, subst, none, some, List, [], ◌∷◌, ◌++◌, map, arith, length,
  All, All-left, map-append,
}
use narra_leaf_team.Data.Bytes.{Bytes}
use narra_leaf_team.Grpc.Protobuf.{
  ℤ, pos, negsuc, as_uint64, ok, max_safe_integer, err, too_many_resource_ids,
}
use narra_leaf_team.Grpc.Protobuf.Fields.{integer, delimited, IsField, IsWritable}
use narra_leaf_team.Grpc.Messages.{finished, as_int64}
use narra_leaf_team.Grpc.Messages.Decoding.{
  Takes-bytes, Takes-message, Takes-varint, Refuses-delimited, Refuses-finished,
}
use narra_leaf_team.Grpc.Messages.Carrying.{
  IsShort, Carries, Carries-append, Carries-one, Carries-unless_empty, Carries-each,
  Carries-finished,
}
use narra_leaf_team.Grpc.Messages.Tokens.{
  UserToken, no_token, write_expires_at, write_user_token, on_user_token, read_user_token,
  ExchangeExternalTokenForUserTokenRequest, encode_exchange_external_token_request,
  on_exchange_external_token_request, decode_exchange_external_token_request, encode_token_response,
  on_token_response, decode_token_response, encode_multiresource_token_request,
  on_multiresource_token_request, decode_multiresource_token_request,
}

-- A whole number that is kept exactly.
abbrev pub IsSafeInteger : ℤ → Type 0
IsSafeInteger (pos n) = n ≤ max_safe_integer
IsSafeInteger (negsuc n) = n < max_safe_integer

as_int64-as_uint64 : (n : ℤ) → IsSafeInteger n → as_int64 (as_uint64 n) ≡ n
unfolding as_int64 as_uint64
as_int64-as_uint64 (pos n) h = ground arith
as_int64-as_uint64 (negsuc n) h = ground arith

pub record IsSmallToken (value : UserToken) : Type 0 where
  pub token_short : IsShort value.user_token
  pub expiry_safe : IsSafeInteger value.expires_at
  pub id_short : IsShort value.user_id
  pub name_short : IsShort value.user_name

sent_expires_at :
    (n : ℤ) (s : UserToken)
    → IsSafeInteger n
    → Carries on_user_token
        (record s { expires_at = pos 0 })
        (integer 2 n ∷ [])
        (record s { expires_at = n })
unfolding on_user_token
sent_expires_at n s h =
    let bare : UserToken = record s { expires_at = pos 0 } in
    let keep : ℕ → UserToken = λ m. record s { expires_at = as_int64 m } in
    subst (λ (m : ℤ). Carries on_user_token bare (integer 2 n ∷ []) (record s { expires_at = m }))
      (as_int64-as_uint64 n h)
      (Carries-one on_user_token (integer 2 n) bare (keep (as_uint64 n)) (omega arith, omega arith)
        (Takes-varint on_user_token 2 n bare keep (omega arith, omega arith) (λ b. refl)))

Carries-expires_at :
    (n : ℤ) (s : UserToken)
    → IsSafeInteger n
    → Carries on_user_token
        (record s { expires_at = pos 0 })
        (write_expires_at n)
        (record s { expires_at = n })
unfolding write_expires_at
Carries-expires_at (pos zero) s h = record { writable = tt; runs = refl }
Carries-expires_at (pos (suc n)) s h = sent_expires_at (pos (suc n)) s h
Carries-expires_at (negsuc n) s h = sent_expires_at (negsuc n) s h

read-write_user_token :
    (value : UserToken)
    → IsSmallToken value
    → read_user_token (finished (write_user_token value)) ≡ ok value
unfolding read_user_token write_user_token on_user_token
read-write_user_token value h =
    let h' = on_user_token in
    let s1 : UserToken = record no_token { user_token = value.user_token } in
    let s2 : UserToken = record s1 { expires_at = value.expires_at } in
    let s3 : UserToken = record s2 { user_id = value.user_id } in
    Carries-finished h' (
      Carries-append h'
        (Carries-unless_empty h' 1 value.user_token no_token
          (λ v. record no_token { user_token = v }) refl (omega arith, omega arith) h.token_short
          (Takes-bytes h' 1 value.user_token no_token _ (omega arith, omega arith) h.token_short
            (λ b. refl)))
        (Carries-append h' (Carries-expires_at value.expires_at s1 h.expiry_safe) (
          Carries-append h'
            (Carries-unless_empty h' 3 value.user_id s2 (λ v. record s2 { user_id = v }) refl
              (omega arith, omega arith) h.id_short
              (Takes-bytes h' 3 value.user_id s2 _ (omega arith, omega arith) h.id_short
                (λ b. refl)))
            (Carries-unless_empty h' 4 value.user_name s3 (λ v. record s3 { user_name = v }) refl
              (omega arith, omega arith) h.name_short
              (Takes-bytes h' 4 value.user_name s3 _ (omega arith, omega arith) h.name_short
                (λ b. refl))))))

-- A token of short texts, whose expiry is a safe integer, in a message short enough, comes back from
-- either of the responses as it was sent.
pub decode-encode_token_response :
    (token : UserToken)
    → IsSmallToken token
    → IsShort (finished (write_user_token token))
    → decode_token_response (encode_token_response (some token)) ≡ ok (some token)
unfolding decode_token_response encode_token_response on_token_response
decode-encode_token_response token h few = Carries-finished on_token_response (
    Carries-one on_token_response (delimited 1 (finished (write_user_token token))) none
      (some token) ((omega arith, omega arith), few)
      (Takes-message on_token_response 1 (finished (write_user_token token)) token none
        read_user_token some (omega arith, omega arith) few (read-write_user_token token h)
        (λ b. refl)))

pub decode-encode_exchange_external_token_request :
    (value : ExchangeExternalTokenForUserTokenRequest)
    → IsShort value.external_token
    → IsShort value.token_type
    → decode_exchange_external_token_request (encode_exchange_external_token_request value)
      ≡ ok value
unfolding decode_exchange_external_token_request encode_exchange_external_token_request
    on_exchange_external_token_request
decode-encode_exchange_external_token_request value h k =
    let h' = on_exchange_external_token_request in
    let start : ExchangeExternalTokenForUserTokenRequest = record {
      external_token = [];
      token_type = [];
    } in
    let s1 : ExchangeExternalTokenForUserTokenRequest = record start {
      external_token = value.external_token;
    } in
    Carries-finished h' (
      Carries-append h'
        (Carries-unless_empty h' 1 value.external_token start
          (λ v. record start { external_token = v }) refl (omega arith, omega arith) h
          (Takes-bytes h' 1 value.external_token start _ (omega arith, omega arith) h (λ b. refl)))
        (Carries-unless_empty h' 2 value.token_type s1 (λ v. record s1 { token_type = v }) refl
          (omega arith, omega arith) k
          (Takes-bytes h' 2 value.token_type s1 _ (omega arith, omega arith) k (λ b. refl))))

IsField-one : IsField 1
IsField-one = (omega arith, omega arith)

-- The ids of a request come back where they are no more than one request may name.
pub decode-encode_multiresource_token_request :
    (ids : List Bytes)
    → All IsShort ids
    → length ids ≤ 64
    → decode_multiresource_token_request (encode_multiresource_token_request ids) ≡ ok ids
unfolding decode_multiresource_token_request encode_multiresource_token_request
    on_multiresource_token_request
decode-encode_multiresource_token_request ids h few =
    Carries-finished on_multiresource_token_request (
      Carries-each on_multiresource_token_request (delimited 1) IsShort 64 (λ xs. xs) [] ids
        (λ ys a l p. (
          ((omega arith, omega arith), p),
          Takes-bytes on_multiresource_token_request 1 a ys (λ v. ys ++ (v ∷ []))
              (omega arith, omega arith) p (λ b. ground (arith, l)),
        ))
        h (omega (arith, few)))

IsWritable-ids : (ids : List Bytes) → All IsShort ids → All IsWritable (map (delimited 1) ids)
IsWritable-ids [] h = tt
IsWritable-ids (id ∷ ids) h = ((IsField-one, h.0), IsWritable-ids ids h.1)

-- A request that names one resource more than it may is refused, whatever more it names.
pub decode_multiresource_token_request_refuses :
    (ids more : List Bytes) (id : Bytes)
    → All IsShort (ids ++ (id ∷ more))
    → length ids ≡ 64
    → decode_multiresource_token_request (encode_multiresource_token_request (ids ++ (id ∷ more)))
      ≡ err too_many_resource_ids
unfolding decode_multiresource_token_request encode_multiresource_token_request
    on_multiresource_token_request
decode_multiresource_token_request_refuses ids more id h few =
    let h' = on_multiresource_token_request in
    let fields = map (delimited 1) in
    let sent =
      Carries-each h' (delimited 1) IsShort 64 (λ xs. xs) [] ids
        (λ ys a l p. (
          (IsField-one, p),
          Takes-bytes h' 1 a ys (λ v. ys ++ (v ∷ [])) IsField-one p (λ b. ground (arith, l)),
        ))
        (All-left IsShort ids (id ∷ more) h) (omega (arith, few)) in
    rw map-append (
      Refuses-finished h' (fields ids) (fields more) (delimited 1 id) [] ids too_many_resource_ids
        (subst (All IsWritable) (map-append (delimited 1) ids (id ∷ more))
          (IsWritable-ids (ids ++ (id ∷ more)) h))
        sent.runs
        (Refuses-delimited h' 1 id ids too_many_resource_ids IsField-one
          (λ b. ground (arith, few))))
