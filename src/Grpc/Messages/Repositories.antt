-- ===== src/Grpc/Messages/Repositories.antt =====
-- src/grpc/messages.ts: the resources of the permission service, and the repositories of loreserver.
pub mod RoundTrip
use narra_leaf_team.Common.{
  ℕ, zero, Bool, true, false, Option, none, some, List, [], ◌∷◌, ◌++◌, ◌==◌, if◌then◌else◌,
}
use narra_leaf_team.Data.Bytes.{Bytes}
use narra_leaf_team.Grpc.Protobuf.{ℤ, pos, FieldTag, Result, ok, err}
use narra_leaf_team.Grpc.Protobuf.Fields.{Field, integer, delimited}
use narra_leaf_team.Grpc.Messages.{
  finished, unless_empty, if_there, is_delimited, is_varint, Handled, take_bytes, take_number,
  take_message, read_all,
}

pub record CreateResourceRequest : Type 0 where
  pub resource_id : Bytes
  pub resource_name : Bytes

unfoldable pub encode_create_resource_request : CreateResourceRequest → Bytes
encode_create_resource_request value =
    finished (unless_empty 1 value.resource_id ++ unless_empty 2 value.resource_name)

unfoldable pub on_create_resource_request :
    CreateResourceRequest → FieldTag → Bytes → Handled CreateResourceRequest
on_create_resource_request s tag bytes =
    if is_delimited tag 1
    then take_bytes (λ v. record s { resource_id = v }) bytes
    else if is_delimited tag 2
    then take_bytes (λ v. record s { resource_name = v }) bytes
    else ok none

unfoldable pub decode_create_resource_request : Bytes → Result CreateResourceRequest
decode_create_resource_request =
    read_all on_create_resource_request (record { resource_id = []; resource_name = [] })

-- `DeleteResourceRequest` is its id.
unfoldable pub encode_delete_resource_request : Bytes → Bytes
encode_delete_resource_request resource_id = finished (unless_empty 1 resource_id)

unfoldable pub on_delete_resource_request : Bytes → FieldTag → Bytes → Handled Bytes
on_delete_resource_request s tag bytes =
    if is_delimited tag 1 then take_bytes (λ v. v) bytes else ok none

unfoldable pub decode_delete_resource_request : Bytes → Result Bytes
decode_delete_resource_request = read_all on_delete_resource_request []

pub record Repository : Type 0 where
  pub id : Bytes
  pub name : Bytes
  pub description : Bytes
  pub default_branch_id : Bytes
  pub default_branch_name : Bytes
  pub creator : Bytes
  pub created : ℕ
  pub metadata : Bytes

unfoldable pub write_created : ℕ → List Field
write_created zero = []
write_created n = integer 7 (pos n) ∷ []

unfoldable pub write_repository : Repository → List Field
write_repository value =
    unless_empty 1 value.id
    ++ (unless_empty 2 value.name
        ++ (unless_empty 3 value.description
            ++ (unless_empty 4 value.default_branch_id
                ++ (unless_empty 5 value.default_branch_name
                    ++ (unless_empty 6 value.creator
                        ++ (write_created value.created ++ unless_empty 8 value.metadata))))))

abbrev pub no_repository : Repository
no_repository = record {
  id = [];
  name = [];
  description = [];
  default_branch_id = [];
  default_branch_name = [];
  creator = [];
  created = 0;
  metadata = [];
}

unfoldable pub on_repository : Repository → FieldTag → Bytes → Handled Repository
on_repository s tag bytes =
    if is_delimited tag 1
    then take_bytes (λ v. record s { id = v }) bytes
    else if is_delimited tag 2
    then take_bytes (λ v. record s { name = v }) bytes
    else if is_delimited tag 3
    then take_bytes (λ v. record s { description = v }) bytes
    else if is_delimited tag 4
    then take_bytes (λ v. record s { default_branch_id = v }) bytes
    else if is_delimited tag 5
    then take_bytes (λ v. record s { default_branch_name = v }) bytes
    else if is_delimited tag 6
    then take_bytes (λ v. record s { creator = v }) bytes
    else if is_delimited tag 8
    then take_bytes (λ v. record s { metadata = v }) bytes
    else if is_varint tag 7
    then take_number (λ n. record s { created = n }) bytes
    else ok none

unfoldable pub read_repository : Bytes → Result Repository
read_repository = read_all on_repository no_repository

pub record RepositoryCreateRequest : Type 0 where
  pub id : Bytes
  pub name : Bytes
  pub description : Bytes
  pub default_branch_id : Bytes
  pub default_branch_name : Bytes
  pub creator : Option Bytes

unfoldable pub encode_repository_create_request : RepositoryCreateRequest → Bytes
encode_repository_create_request value = finished (
    unless_empty 1 value.id
    ++ (unless_empty 2 value.name
        ++ (unless_empty 3 value.description
            ++ (unless_empty 4 value.default_branch_id
                ++ (unless_empty 5 value.default_branch_name ++ if_there 6 value.creator)))))

unfoldable pub on_repository_create_request :
    RepositoryCreateRequest → FieldTag → Bytes → Handled RepositoryCreateRequest
on_repository_create_request s tag bytes =
    if is_delimited tag 1
    then take_bytes (λ v. record s { id = v }) bytes
    else if is_delimited tag 2
    then take_bytes (λ v. record s { name = v }) bytes
    else if is_delimited tag 3
    then take_bytes (λ v. record s { description = v }) bytes
    else if is_delimited tag 4
    then take_bytes (λ v. record s { default_branch_id = v }) bytes
    else if is_delimited tag 5
    then take_bytes (λ v. record s { default_branch_name = v }) bytes
    else if is_delimited tag 6
    then take_bytes (λ v. record s { creator = some v }) bytes
    else ok none

abbrev pub no_create_request : RepositoryCreateRequest
no_create_request = record {
  id = [];
  name = [];
  description = [];
  default_branch_id = [];
  default_branch_name = [];
  creator = none;
}

unfoldable pub decode_repository_create_request : Bytes → Result RepositoryCreateRequest
decode_repository_create_request = read_all on_repository_create_request no_create_request

pub data RepositoryQuery : Type 0 where
  by_id : Bytes → RepositoryQuery
  by_name : Bytes → RepositoryQuery

unfoldable pub encode_repository_get_request : RepositoryQuery → Bytes
encode_repository_get_request (by_id id) = finished (delimited 1 id ∷ [])
encode_repository_get_request (by_name name) = finished (delimited 2 name ∷ [])

unfoldable pub on_repository_get_request :
    Option RepositoryQuery → FieldTag → Bytes → Handled (Option RepositoryQuery)
on_repository_get_request s tag bytes =
    if is_delimited tag 1
    then take_bytes (λ v. some (by_id v)) bytes
    else if is_delimited tag 2
    then take_bytes (λ v. some (by_name v)) bytes
    else ok none

unfoldable pub decode_repository_get_request : Bytes → Result (Option RepositoryQuery)
decode_repository_get_request = read_all on_repository_get_request none

unfoldable pub encode_repository_response : Repository → Bytes
encode_repository_response repository =
    finished (delimited 1 (finished (write_repository repository)) ∷ [])

unfoldable pub on_repository_response :
    Option Repository → FieldTag → Bytes → Handled (Option Repository)
on_repository_response s tag bytes =
    if is_delimited tag 1 then take_message read_repository some bytes else ok none

unfoldable pub decode_repository_response : Bytes → Result (Option Repository)
decode_repository_response = read_all on_repository_response none
