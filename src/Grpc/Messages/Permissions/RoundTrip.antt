-- ===== src/Grpc/Messages/Permissions/RoundTrip.antt =====
-- The questions about permissions and their answers come back as they were sent.
use narra_leaf_team.Common.{
  ℕ, ◌+◌, ◌≤◌, ◌≡◌, refl, Option, none, some, List, [], ◌∷◌, ◌++◌, map, arith, length, All,
}
use narra_leaf_team.Data.Bytes.{Bytes}
use narra_leaf_team.Grpc.Protobuf.{ok, FieldTag, wire_delimited}
use narra_leaf_team.Grpc.Protobuf.Fields.{delimited, IsField}
use narra_leaf_team.Grpc.Messages.{finished, take_message, read_all, Handled}
use narra_leaf_team.Grpc.Messages.Decoding.{Takes-bytes, Takes-message}
use narra_leaf_team.Grpc.Messages.Carrying.{
  IsShort, Carries, Carries-append, Carries-one, Carries-unless_empty, Carries-each,
  Carries-finished,
}
use narra_leaf_team.Grpc.Messages.Permissions.{
  ResourcePermission, write_resource_permission, on_resource_permission, read_resource_permission,
  permission_field, CheckUserPermissionRequest, write_target_user, on_target_user,
  encode_check_user_permission_request, on_check_user_permission_request,
  decode_check_user_permission_request, CheckUserPermissionResponse,
  encode_check_user_permission_response, on_check_user_permission_response,
  decode_check_user_permission_response,
}

pub IsField-one : IsField 1
IsField-one = (omega arith, omega arith)

pub IsField-two : IsField 2
IsField-two = (omega arith, omega arith)

-- The parts of a permission are short enough, and so is the whole of it.
pub record IsSmall (value : ResourcePermission) : Type 0 where
  pub id_short : IsShort value.resource_id
  pub permission_short : All IsShort value.permission
  pub whole_short : IsShort (finished (write_resource_permission value))

read-write_resource_permission :
    (value : ResourcePermission)
    → IsSmall value
    → read_resource_permission (finished (write_resource_permission value)) ≡ ok value
unfolding read_resource_permission write_resource_permission on_resource_permission
read-write_resource_permission value h =
    let h' = on_resource_permission in
    let at : List Bytes → ResourcePermission =
      λ xs. record { resource_id = value.resource_id; permission = xs } in
    Carries-finished h' (
      Carries-append h'
        (Carries-unless_empty h' 1 value.resource_id _
          (λ v. record { resource_id = v; permission = [] }) refl IsField-one h.id_short
          (Takes-bytes h' 1 value.resource_id _ _ IsField-one h.id_short (λ b. refl)))
        (Carries-each h' (delimited 2) IsShort (length value.permission) at [] value.permission
          (λ ys a l p. ((IsField-two, p), Takes-bytes h' 2 a (at ys) _ IsField-two p (λ b. refl)))
          h.permission_short (omega arith)))

pub Carries-permissions :
    {S : Type 0} (on_field : S → FieldTag → Bytes → Handled S) (field limit : ℕ)
    (at : List ResourcePermission → S) (xs items : List ResourcePermission)
    → IsField field
    → ((ys : List ResourcePermission) (bytes : Bytes)
        → on_field (at ys) (record { field = field; wire_type = wire_delimited }) bytes
          ≡ take_message read_resource_permission (λ a. at (ys ++ (a ∷ []))) bytes)
    → All IsSmall items
    → length xs + length items ≤ limit
    → Carries on_field (at xs) (map (permission_field field) items) (at (xs ++ items))
unfolding permission_field
Carries-permissions on_field field limit at xs items h taken small few =
    Carries-each on_field (permission_field field) IsSmall limit at xs items
      (λ ys a l p. (
        (h, p.whole_short),
        Takes-message on_field field (finished (write_resource_permission a)) a (at ys)
            read_resource_permission (λ b. at (ys ++ (b ∷ []))) h p.whole_short
            (read-write_resource_permission a p) (taken ys),
      ))
      small few

-- A request that names no more resources than one may.
pub record IsSmallRequest (value : CheckUserPermissionRequest) : Type 0 where
  pub ids_short : All IsShort value.resource_ids
  pub ids_few : length value.resource_ids ≤ 64
  pub user_short :
      (token : Bytes)
      → value.target_user ≡ some token
      → IsShort token × IsShort (finished (write_target_user token))

target_user_lem :
    (token : Bytes)
    → IsShort token
    → read_all on_target_user [] (finished (write_target_user token)) ≡ ok token
unfolding on_target_user write_target_user
target_user_lem token h = Carries-finished on_target_user (
    Carries-one on_target_user (delimited 1 token) [] token (IsField-one, h)
      (Takes-bytes on_target_user 1 token [] (λ v. v) IsField-one h (λ b. refl)))

-- A question that names no more resources than one may, in short texts, comes back as it was sent:
-- its resources in their order, and whom it is about where it says so.
pub decode-encode_check_user_permission_request :
    (value : CheckUserPermissionRequest)
    → IsSmallRequest value
    → decode_check_user_permission_request (encode_check_user_permission_request value) ≡ ok value
unfolding decode_check_user_permission_request encode_check_user_permission_request
    on_check_user_permission_request
decode-encode_check_user_permission_request value h =
    let h' = on_check_user_permission_request in
    let ids : List Bytes → CheckUserPermissionRequest =
      λ xs. record { resource_ids = xs; target_user = none } in
    Carries-finished h' (
      Carries-append h'
        (Carries-each h' (delimited 1) IsShort 64 ids [] value.resource_ids
          (λ ys a l p. (
            (IsField-one, p),
            Takes-bytes h' 1 a (ids ys) (λ v. ids (ys ++ (v ∷ []))) IsField-one p
                (λ b. ground (arith, l)),
          ))
          h.ids_short (omega (arith, h.ids_few)))
        (target value.target_user h.user_short value.resource_ids))
  where
    target :
        (o : Option Bytes)
        → ((token : Bytes)
            → o ≡ some token
            → IsShort token × IsShort (finished (write_target_user token)))
        → (ids : List Bytes)
        → Carries on_check_user_permission_request
            (record { resource_ids = ids; target_user = none })
            (elim o [
              | none ↦ []
              | some token ↦ delimited 2 (finished (write_target_user token)) ∷ []
            ])
            (record { resource_ids = ids; target_user = o })
    target none k ids = record { writable = tt; runs = refl }
    target (some token) k ids =
        let short = k token refl in
        let body = finished (write_target_user token) in
        let start : CheckUserPermissionRequest = record {
          resource_ids = ids;
          target_user = none;
        } in
        Carries-one on_check_user_permission_request (delimited 2 body) start _
          (IsField-two, short.1)
          (Takes-message on_check_user_permission_request 2 body token start
            (read_all on_target_user []) (λ user. record start { target_user = some user })
            IsField-two short.1 (target_user_lem token short.0) (λ b. refl))

pub decode-encode_check_user_permission_response :
    (value : CheckUserPermissionResponse)
    → All IsSmall value.allowed
    → All IsSmall value.denied
    → decode_check_user_permission_response (encode_check_user_permission_response value) ≡ ok value
unfolding decode_check_user_permission_response encode_check_user_permission_response
    on_check_user_permission_response
decode-encode_check_user_permission_response value h k =
    let h' = on_check_user_permission_response in
    let first : List ResourcePermission → CheckUserPermissionResponse =
      λ xs. record { allowed = xs; denied = [] } in
    let second : List ResourcePermission → CheckUserPermissionResponse =
      λ xs. record { allowed = value.allowed; denied = xs } in
    Carries-finished h' (
      Carries-append h'
        (Carries-permissions h' 1 (length value.allowed) first [] value.allowed IsField-one
          (λ ys b. refl) h (omega arith))
        (Carries-permissions h' 2 (length value.denied) second [] value.denied IsField-two
          (λ ys b. refl) k (omega arith)))
