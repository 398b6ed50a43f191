-- ===== src/Grpc/Messages/Permissions.antt =====
-- src/grpc/messages.ts: the questions about permissions, and their answers.
pub mod RoundTrip
pub mod Lookup
use narra_leaf_team.Common.{
  ℕ, Bool, true, false, Option, none, some, List, [], ◌∷◌, ◌++◌, map, ◌==◌, if◌then◌else◌, length,
  Text,
}
use narra_leaf_team.Data.Bytes.{Bytes}
use narra_leaf_team.Grpc.Protobuf.{ℤ, FieldTag, Result, ok, err, too_many_resource_ids}
use narra_leaf_team.Grpc.Protobuf.Fields.{Field, integer, delimited}
use narra_leaf_team.Grpc.Messages.{
  maximum_resource_ids, finished, unless_empty, if_there, each, is_delimited, is_varint, Handled,
  take_bytes, take_varint, take_message, read_all, as_int32,
}

pub record ResourcePermission : Type 0 where
  pub resource_id : Bytes
  pub permission : List Bytes

unfoldable pub write_resource_permission : ResourcePermission → List Field
write_resource_permission value = unless_empty 1 value.resource_id ++ each 2 value.permission

unfoldable pub on_resource_permission :
    ResourcePermission → FieldTag → Bytes → Handled ResourcePermission
on_resource_permission s tag bytes =
    if is_delimited tag 1
    then take_bytes (λ v. record s { resource_id = v }) bytes
    else if is_delimited tag 2
    then take_bytes (λ v. record s { permission = s.permission ++ (v ∷ []) }) bytes
    else ok none

unfoldable pub read_resource_permission : Bytes → Result ResourcePermission
read_resource_permission =
    read_all on_resource_permission (record { resource_id = []; permission = [] })

-- The user of a question, where it names one, stands as the token.
pub record CheckUserPermissionRequest : Type 0 where
  pub resource_ids : List Bytes
  pub target_user : Option Bytes

-- The fields of the message about the target user.
unfoldable pub write_target_user : Bytes → List Field
write_target_user user_token = delimited 1 user_token ∷ []

unfoldable pub encode_check_user_permission_request : CheckUserPermissionRequest → Bytes
encode_check_user_permission_request value = finished (
    each 1 value.resource_ids ++ elim value.target_user [
      | none ↦ []
      | some user_token ↦ delimited 2 (finished (write_target_user user_token)) ∷ []
    ])

unfoldable pub on_target_user : Bytes → FieldTag → Bytes → Handled Bytes
on_target_user s tag bytes = if is_delimited tag 1 then take_bytes (λ v. v) bytes else ok none

unfoldable pub on_check_user_permission_request :
    CheckUserPermissionRequest → FieldTag → Bytes → Handled CheckUserPermissionRequest
on_check_user_permission_request s tag bytes =
    if is_delimited tag 1
    then (if length s.resource_ids == maximum_resource_ids
        then err too_many_resource_ids
        else take_bytes (λ v. record s { resource_ids = s.resource_ids ++ (v ∷ []) }) bytes)
    else if is_delimited tag 2
    then take_message (read_all on_target_user []) (λ user. record s { target_user = some user })
        bytes
    else ok none

unfoldable pub decode_check_user_permission_request : Bytes → Result CheckUserPermissionRequest
decode_check_user_permission_request =
    read_all on_check_user_permission_request (record { resource_ids = []; target_user = none })

pub record CheckUserPermissionResponse : Type 0 where
  pub allowed : List ResourcePermission
  pub denied : List ResourcePermission

-- `writer.message(field, writeResourcePermission(value))`.
unfoldable pub permission_field : ℕ → ResourcePermission → Field
permission_field field value = delimited field (finished (write_resource_permission value))

unfoldable pub encode_check_user_permission_response : CheckUserPermissionResponse → Bytes
encode_check_user_permission_response value =
    finished (map (permission_field 1) value.allowed ++ map (permission_field 2) value.denied)

unfoldable pub on_check_user_permission_response :
    CheckUserPermissionResponse → FieldTag → Bytes → Handled CheckUserPermissionResponse
on_check_user_permission_response s tag bytes =
    if is_delimited tag 1
    then take_message read_resource_permission (λ a. record s { allowed = s.allowed ++ (a ∷ []) })
        bytes
    else if is_delimited tag 2
    then take_message read_resource_permission (λ a. record s { denied = s.denied ++ (a ∷ []) })
        bytes
    else ok none

unfoldable pub decode_check_user_permission_response : Bytes → Result CheckUserPermissionResponse
decode_check_user_permission_response =
    read_all on_check_user_permission_response (record { allowed = []; denied = [] })

pub record LookupUserPermissionsRequest : Type 0 where
  pub resource_filter : Bytes
  pub context_filter : Option Bytes
  pub page_size : Option ℤ
  pub page_token : Option Bytes

unfoldable pub write_page_size : Option ℤ → List Field
write_page_size none = []
write_page_size (some n) = integer 3 n ∷ []

unfoldable pub encode_lookup_user_permissions_request : LookupUserPermissionsRequest → Bytes
encode_lookup_user_permissions_request value = finished (
    unless_empty 1 value.resource_filter
    ++ (if_there 2 value.context_filter
        ++ (write_page_size value.page_size ++ if_there 4 value.page_token)))

unfoldable pub on_lookup_user_permissions_request :
    LookupUserPermissionsRequest → FieldTag → Bytes → Handled LookupUserPermissionsRequest
on_lookup_user_permissions_request s tag bytes =
    if is_delimited tag 1
    then take_bytes (λ v. record s { resource_filter = v }) bytes
    else if is_delimited tag 2
    then take_bytes (λ v. record s { context_filter = some v }) bytes
    else if is_varint tag 3
    then take_varint (λ n. record s { page_size = some (as_int32 n) }) bytes
    else if is_delimited tag 4
    then take_bytes (λ v. record s { page_token = some v }) bytes
    else ok none

unfoldable pub decode_lookup_user_permissions_request : Bytes → Result LookupUserPermissionsRequest
decode_lookup_user_permissions_request =
    read_all on_lookup_user_permissions_request
      (record { resource_filter = []; context_filter = none; page_size = none; page_token = none })

pub record LookupUserPermissionsResponse : Type 0 where
  pub permissions : List ResourcePermission
  pub next_page_token : Option Bytes

unfoldable pub encode_lookup_user_permissions_response : LookupUserPermissionsResponse → Bytes
encode_lookup_user_permissions_response value =
    finished (map (permission_field 1) value.permissions ++ if_there 2 value.next_page_token)

unfoldable pub on_lookup_user_permissions_response :
    LookupUserPermissionsResponse → FieldTag → Bytes → Handled LookupUserPermissionsResponse
on_lookup_user_permissions_response s tag bytes =
    if is_delimited tag 1
    then take_message read_resource_permission
        (λ a. record s { permissions = s.permissions ++ (a ∷ []) }) bytes
    else if is_delimited tag 2
    then take_bytes (λ v. record s { next_page_token = some v }) bytes
    else ok none

unfoldable pub decode_lookup_user_permissions_response :
    Bytes → Result LookupUserPermissionsResponse
decode_lookup_user_permissions_response =
    read_all on_lookup_user_permissions_response
      (record { permissions = []; next_page_token = none })
