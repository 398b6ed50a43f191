-- ===== src/Grpc/Messages/Tests.antt =====
-- Messages at concrete inputs.
use narra_leaf_team.Common.{
  ℕ, zero, suc, ◌≡◌, refl, subst, Option, none, some, List, [], ◌∷◌, ◌++◌, arith, All, lt_wf,
}
use narra_leaf_team.Data.Bytes.{Bytes}
use narra_leaf_team.Grpc.Protobuf
use narra_leaf_team.Grpc.Protobuf.{pos, negsuc, ok, err, too_many_resource_ids, max_safe_integer}
use narra_leaf_team.Grpc.Messages.{finished}
use narra_leaf_team.Grpc.Protobuf.Fields
use narra_leaf_team.Grpc.Protobuf.Fields.{write_fields}
use narra_leaf_team.Grpc.Messages.Carrying.{IsShort}
use narra_leaf_team.Grpc.Messages.Permissions.{
  ResourcePermission, write_target_user, encode_check_user_permission_request,
  decode_check_user_permission_request,
}
use narra_leaf_team.Grpc.Messages.Permissions.RoundTrip.{
  decode-encode_check_user_permission_request,
}
use narra_leaf_team.Grpc.Messages.Tokens.{
  UserToken, write_user_token, write_expires_at, encode_token_response, decode_token_response,
  encode_multiresource_token_request, decode_multiresource_token_request,
}
use narra_leaf_team.Grpc.Messages.Tokens.RoundTrip.{
  decode-encode_token_response, decode_multiresource_token_request_refuses,
}
use narra_leaf_team.Grpc.Messages.Repositories.{
  Repository, no_repository, write_created, write_repository, encode_repository_response,
  decode_repository_response,
}
use narra_leaf_team.Grpc.Messages.Repositories.RoundTrip.{decode-encode_repository_response}

abbrev word : Bytes
word = 97 ∷ 98 ∷ []

abbrev permission : ResourcePermission
permission = record { resource_id = word; permission = word ∷ (99 ∷ []) ∷ [] }

abbrev Held : (Bytes → Type 0) → Option Bytes → Type 0
Held P none = Unit {0}
Held P (some v) = P v

of_some : (P : Bytes → Type 0) (v : Bytes) → P v → (w : Bytes) → some v ≡ some w → P w
of_some P v p w e = subst (Held P) e p

user_small : IsShort (finished (write_target_user word))
unfolding write_target_user finished write_fields Fields.write_field Protobuf.new_writer
    Protobuf.write_bytes Protobuf.write_varint Protobuf.write_tag Protobuf.finish Protobuf.varint
    Protobuf.varint_loop Protobuf.as_uint64 lt_wf native.Mathlib.Decide.dec_lt
user_small = omega arith

abbrev token : UserToken
token = record { user_token = word; expires_at = negsuc 4; user_id = []; user_name = word }

token_small : IsShort (finished (write_user_token token))
unfolding write_user_token write_expires_at finished write_fields Fields.write_field
    Protobuf.new_writer Protobuf.write_bytes Protobuf.write_varint Protobuf.write_tag
    Protobuf.finish Protobuf.varint Protobuf.varint_loop Protobuf.as_uint64 lt_wf
    native.Mathlib.Decide.dec_lt
token_small = omega arith

decode-encode_check_user_permission_request_example :
    decode_check_user_permission_request (
      encode_check_user_permission_request
        (record { resource_ids = word ∷ []; target_user = some word }))
    ≡ ok (record { resource_ids = word ∷ []; target_user = some word })
decode-encode_check_user_permission_request_example =
    decode-encode_check_user_permission_request
      (record { resource_ids = word ∷ []; target_user = some word })
      (record {
        ids_short = (omega arith, tt);
        ids_few = omega arith;
        user_short = λ token e.
            of_some (λ v. IsShort v × IsShort (finished (write_target_user v))) word
              (omega arith, user_small) token e;
      })

decode-encode_token_response_example :
    decode_token_response (
      encode_token_response (
        some (record { user_token = word; expires_at = negsuc 4; user_id = []; user_name = word })))
    ≡ ok
        (some (record { user_token = word; expires_at = negsuc 4; user_id = []; user_name = word }))
decode-encode_token_response_example =
    decode-encode_token_response
      (record { user_token = word; expires_at = negsuc 4; user_id = []; user_name = word })
      (record {
        token_short = omega arith;
        expiry_safe = omega arith;
        id_short = omega arith;
        name_short = omega arith;
      })
      token_small

abbrev copies : ℕ → List Bytes
copies zero = []
copies (suc n) = word ∷ copies n

copies-IsShort : (n : ℕ) (xs : List Bytes) → All IsShort xs → All IsShort (copies n ++ xs)
copies-IsShort zero xs h = h
copies-IsShort (suc n) xs h = (omega arith, copies-IsShort n xs h)

decode_multiresource_token_request_refuses_example :
    decode_multiresource_token_request
      (encode_multiresource_token_request (copies 64 ++ (word ∷ word ∷ [])))
    ≡ err too_many_resource_ids
decode_multiresource_token_request_refuses_example =
    decode_multiresource_token_request_refuses (copies 64) (word ∷ []) word
      (copies-IsShort 64 (word ∷ word ∷ []) (omega arith, (omega arith, tt))) refl

abbrev repository : Repository
repository = record no_repository { id = word; name = word; created = 5 }

repository_small : IsShort (finished (write_repository repository))
unfolding write_repository write_created finished write_fields Fields.write_field
    Protobuf.new_writer Protobuf.write_bytes Protobuf.write_varint Protobuf.write_tag
    Protobuf.finish Protobuf.varint Protobuf.varint_loop Protobuf.as_uint64 lt_wf
    native.Mathlib.Decide.dec_lt
repository_small = omega arith

decode-encode_repository_response_example :
    decode_repository_response (encode_repository_response repository) ≡ ok (some repository)
decode-encode_repository_response_example =
    decode-encode_repository_response repository
      (record {
        id_short = omega arith;
        name_short = omega arith;
        description_short = omega arith;
        default_branch_id_short = omega arith;
        default_branch_name_short = omega arith;
        creator_short = omega arith;
        metadata_short = omega arith;
        created_small = omega arith;
      })
      repository_small
