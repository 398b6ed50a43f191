-- ===== src/Grpc/Messages/Tokens.antt =====
-- src/grpc/messages.ts: the exchange of tokens, and the health check.
pub mod RoundTrip
use narra_leaf_team.Common.{
  ℕ, zero, Bool, true, false, Option, none, some, List, [], ◌∷◌, ◌++◌, ◌==◌, if◌then◌else◌, length,
}
use narra_leaf_team.Data.Bytes.{Bytes}
use narra_leaf_team.Grpc.Protobuf.{ℤ, pos, negsuc, FieldTag, Result, ok, err, too_many_resource_ids}
use narra_leaf_team.Grpc.Protobuf.Fields.{Field, integer, delimited}
use narra_leaf_team.Grpc.Messages.{
  maximum_resource_ids, finished, unless_empty, each, is_delimited, is_varint, Handled, take_bytes,
  take_varint, take_message, read_all, as_int64,
}

pub record UserToken : Type 0 where
  pub user_token : Bytes
  pub expires_at : ℤ
  pub user_id : Bytes
  pub user_name : Bytes

unfoldable pub write_expires_at : ℤ → List Field
write_expires_at (pos zero) = []
write_expires_at n = integer 2 n ∷ []

unfoldable pub write_user_token : UserToken → List Field
write_user_token value =
    unless_empty 1 value.user_token
    ++ (write_expires_at value.expires_at
        ++ (unless_empty 3 value.user_id ++ unless_empty 4 value.user_name))

abbrev pub no_token : UserToken
no_token = record { user_token = []; expires_at = pos 0; user_id = []; user_name = [] }

unfoldable pub on_user_token : UserToken → FieldTag → Bytes → Handled UserToken
on_user_token s tag bytes =
    if is_delimited tag 1
    then take_bytes (λ v. record s { user_token = v }) bytes
    else if is_varint tag 2
    then take_varint (λ n. record s { expires_at = as_int64 n }) bytes
    else if is_delimited tag 3
    then take_bytes (λ v. record s { user_id = v }) bytes
    else if is_delimited tag 4
    then take_bytes (λ v. record s { user_name = v }) bytes
    else ok none

unfoldable pub read_user_token : Bytes → Result UserToken
read_user_token = read_all on_user_token no_token

pub record ExchangeExternalTokenForUserTokenRequest : Type 0 where
  pub external_token : Bytes
  pub token_type : Bytes

unfoldable pub encode_exchange_external_token_request :
    ExchangeExternalTokenForUserTokenRequest → Bytes
encode_exchange_external_token_request value =
    finished (unless_empty 1 value.external_token ++ unless_empty 2 value.token_type)

unfoldable pub on_exchange_external_token_request :
    ExchangeExternalTokenForUserTokenRequest
    → FieldTag
    → Bytes
    → Handled ExchangeExternalTokenForUserTokenRequest
on_exchange_external_token_request s tag bytes =
    if is_delimited tag 1
    then take_bytes (λ v. record s { external_token = v }) bytes
    else if is_delimited tag 2
    then take_bytes (λ v. record s { token_type = v }) bytes
    else ok none

unfoldable pub decode_exchange_external_token_request :
    Bytes → Result ExchangeExternalTokenForUserTokenRequest
decode_exchange_external_token_request =
    read_all on_exchange_external_token_request (record { external_token = []; token_type = [] })

-- The two responses are a message of one optional field, a user token.
unfoldable pub encode_token_response : Option UserToken → Bytes
encode_token_response none = finished []
encode_token_response (some token) = finished (delimited 1 (finished (write_user_token token)) ∷ [])

unfoldable pub on_token_response : Option UserToken → FieldTag → Bytes → Handled (Option UserToken)
on_token_response s tag bytes =
    if is_delimited tag 1 then take_message read_user_token some bytes else ok none

unfoldable pub decode_token_response : Bytes → Result (Option UserToken)
decode_token_response = read_all on_token_response none

-- `ExchangeUserTokenForMultiresourceTokenRequest` is its list of ids.
unfoldable pub encode_multiresource_token_request : List Bytes → Bytes
encode_multiresource_token_request resource_ids = finished (each 1 resource_ids)

unfoldable pub on_multiresource_token_request : List Bytes → FieldTag → Bytes → Handled (List Bytes)
on_multiresource_token_request s tag bytes =
    if is_delimited tag 1
    then (if length s == maximum_resource_ids
        then err too_many_resource_ids
        else take_bytes (λ v. s ++ (v ∷ [])) bytes)
    else ok none

unfoldable pub decode_multiresource_token_request : Bytes → Result (List Bytes)
decode_multiresource_token_request = read_all on_multiresource_token_request []

unfoldable pub encode_health_check_response : Bytes → Bytes
encode_health_check_response status = finished (unless_empty 1 status)
