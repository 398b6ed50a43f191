-- ===== src/Grpc/Messages/Permissions/Lookup.antt =====
-- The questions that look permissions up come back as they were sent.
use narra_leaf_team.Common.{
  ℕ, ◌<◌, ◌^◌, ◌≡◌, refl, subst, Option, none, some, [], ◌∷◌, arith, length, All,
}
use narra_leaf_team.Data.Bytes.{Bytes}
use narra_leaf_team.Grpc.Protobuf.{ℤ, pos, negsuc, as_uint64, ok}
use narra_leaf_team.Grpc.Protobuf.Fields.{integer}
use narra_leaf_team.Grpc.Messages.{as_int32}
use narra_leaf_team.Grpc.Messages.Decoding.{Takes-bytes, Takes-varint}
use narra_leaf_team.Grpc.Messages.Carrying.{
  IsShort, Carries, Carries-append, Carries-one, Carries-unless_empty, Carries-if_there,
  Carries-finished,
}
use narra_leaf_team.Grpc.Messages.Permissions.{
  LookupUserPermissionsRequest, write_page_size, encode_lookup_user_permissions_request,
  on_lookup_user_permissions_request, decode_lookup_user_permissions_request,
  LookupUserPermissionsResponse, encode_lookup_user_permissions_response,
  on_lookup_user_permissions_response, decode_lookup_user_permissions_response,
}
use narra_leaf_team.Grpc.Messages.Permissions.RoundTrip.{
  IsSmall, IsField-one, IsField-two, Carries-permissions,
}

-- A page size fits the 32 bits of its field.
abbrev pub FitsInt32 : ℤ → Type 0
FitsInt32 (pos n) = n < 2 ^ 31
FitsInt32 (negsuc n) = n < 2 ^ 31

as_int32-as_uint64 : (n : ℤ) → FitsInt32 n → as_int32 (as_uint64 n) ≡ n
unfolding as_int32 as_uint64
as_int32-as_uint64 (pos n) h = ground arith
as_int32-as_uint64 (negsuc n) h = ground arith

pub record IsSmallLookup (value : LookupUserPermissionsRequest) : Type 0 where
  pub filter_short : IsShort value.resource_filter
  pub context_short : (v : Bytes) → value.context_filter ≡ some v → IsShort v
  pub size_fits : (n : ℤ) → value.page_size ≡ some n → FitsInt32 n
  pub token_short : (v : Bytes) → value.page_token ≡ some v → IsShort v

pub decode-encode_lookup_user_permissions_request :
    (value : LookupUserPermissionsRequest)
    → IsSmallLookup value
    → decode_lookup_user_permissions_request (encode_lookup_user_permissions_request value)
      ≡ ok value
unfolding decode_lookup_user_permissions_request encode_lookup_user_permissions_request
    on_lookup_user_permissions_request write_page_size
decode-encode_lookup_user_permissions_request value h =
    let h' = on_lookup_user_permissions_request in
    let start : LookupUserPermissionsRequest = record {
      resource_filter = [];
      context_filter = none;
      page_size = none;
      page_token = none;
    } in
    let with_filter : LookupUserPermissionsRequest = record start {
      resource_filter = value.resource_filter;
    } in
    let with_context : LookupUserPermissionsRequest = record with_filter {
      context_filter = value.context_filter;
    } in
    let with_size : LookupUserPermissionsRequest = record with_context {
      page_size = value.page_size;
    } in
    Carries-finished h' (
      Carries-append h'
        (Carries-unless_empty h' 1 value.resource_filter start
          (λ v. record start { resource_filter = v }) refl IsField-one h.filter_short
          (Takes-bytes h' 1 value.resource_filter start _ IsField-one h.filter_short (λ b. refl)))
        (Carries-append h'
          (Carries-if_there h' 2 value.context_filter
            (λ o. record with_filter { context_filter = o }) IsField-two
            (λ v e. (
              h.context_short v e,
              Takes-bytes h' 2 v with_filter _ IsField-two (h.context_short v e) (λ b. refl),
            )))
          (Carries-append h' (page value.page_size h.size_fits with_context) (
            Carries-if_there h' 4 value.page_token (λ o. record with_size { page_token = o })
              (omega arith, omega arith)
              (λ v e. (
                h.token_short v e,
                Takes-bytes h' 4 v with_size _ (omega arith, omega arith) (h.token_short v e)
                    (λ b. refl),
              ))))))
  where
    page :
        (o : Option ℤ)
        → ((n : ℤ) → o ≡ some n → FitsInt32 n)
        → (s : LookupUserPermissionsRequest)
        → Carries on_lookup_user_permissions_request
            (record s { page_size = none })
            (write_page_size o)
            (record s { page_size = o })
    page none k s = record { writable = tt; runs = refl }
    page (some n) k s =
        let bare : LookupUserPermissionsRequest = record s { page_size = none } in
        let keep : ℕ → LookupUserPermissionsRequest =
          λ m. record s { page_size = some (as_int32 m) } in
        let back = as_int32-as_uint64 n (k n refl) in
        subst
          (λ (m : ℤ).
            Carries on_lookup_user_permissions_request bare (integer 3 n ∷ [])
              (record s { page_size = some m }))
          back
          (Carries-one on_lookup_user_permissions_request (integer 3 n) bare (keep (as_uint64 n))
            (omega arith, omega arith)
            (Takes-varint on_lookup_user_permissions_request 3 n bare keep
              (omega arith, omega arith) (λ b. refl)))

pub decode-encode_lookup_user_permissions_response :
    (value : LookupUserPermissionsResponse)
    → All IsSmall value.permissions
    → ((v : Bytes) → value.next_page_token ≡ some v → IsShort v)
    → decode_lookup_user_permissions_response (encode_lookup_user_permissions_response value)
      ≡ ok value
unfolding decode_lookup_user_permissions_response encode_lookup_user_permissions_response
    on_lookup_user_permissions_response
decode-encode_lookup_user_permissions_response value h k =
    let h' = on_lookup_user_permissions_response in
    let listed : LookupUserPermissionsResponse = record {
      permissions = value.permissions;
      next_page_token = none;
    } in
    Carries-finished h' (
      Carries-append h'
        (Carries-permissions h' 1 (length value.permissions)
          (λ xs. record { permissions = xs; next_page_token = none }) [] value.permissions
          IsField-one (λ ys b. refl) h (omega arith))
        (Carries-if_there h' 2 value.next_page_token (λ o. record listed { next_page_token = o })
          IsField-two
          (λ v e. (k v e, Takes-bytes h' 2 v listed _ IsField-two (k v e) (λ b. refl)))))
