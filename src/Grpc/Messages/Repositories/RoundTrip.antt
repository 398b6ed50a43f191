-- ===== src/Grpc/Messages/Repositories/RoundTrip.antt =====
-- The messages about repositories come back as they were sent.
use narra_leaf_team.Common.{ℕ, zero, suc, ◌≤◌, ◌≡◌, refl, subst, none, some, [], ◌∷◌, arith}
use narra_leaf_team.Data.Bytes.{Bytes}
use narra_leaf_team.Grpc.Protobuf.{pos, as_uint64, ok, max_safe_integer}
use narra_leaf_team.Grpc.Protobuf.Fields.{integer, delimited}
use narra_leaf_team.Grpc.Messages.{finished}
use narra_leaf_team.Grpc.Messages.Decoding.{Takes-bytes, Takes-message, Takes-number}
use narra_leaf_team.Grpc.Messages.Carrying.{
  IsShort, Carries, Carries-append, Carries-one, Carries-bytes, Carries-if_there, Carries-finished,
}
use narra_leaf_team.Grpc.Messages.Repositories.{
  CreateResourceRequest, encode_create_resource_request, on_create_resource_request,
  decode_create_resource_request, encode_delete_resource_request, on_delete_resource_request,
  decode_delete_resource_request, Repository, write_created, write_repository, no_repository,
  on_repository, read_repository, RepositoryCreateRequest, encode_repository_create_request,
  on_repository_create_request, no_create_request, decode_repository_create_request,
  RepositoryQuery, by_id, by_name, encode_repository_get_request, on_repository_get_request,
  decode_repository_get_request, encode_repository_response, on_repository_response,
  decode_repository_response,
}

-- The strings of a repository are short enough, and the time of its creation is a number that is kept exactly.
pub record IsSmallRepository (value : Repository) : Type 0 where
  pub id_short : IsShort value.id
  pub name_short : IsShort value.name
  pub description_short : IsShort value.description
  pub default_branch_id_short : IsShort value.default_branch_id
  pub default_branch_name_short : IsShort value.default_branch_name
  pub creator_short : IsShort value.creator
  pub metadata_short : IsShort value.metadata
  pub created_small : value.created ≤ max_safe_integer

Carries-created :
    (n : ℕ) (s : Repository)
    → n ≤ max_safe_integer
    → Carries on_repository (record s { created = 0 }) (write_created n) (record s { created = n })
unfolding write_created on_repository
Carries-created zero s h = record { writable = tt; runs = refl }
Carries-created (suc n) s h =
    let bare : Repository = record s { created = 0 } in
    let keep : ℕ → Repository = λ m. record s { created = m } in
    let back : as_uint64 (pos (suc n)) ≡ suc n = unfold as_uint64 in ground (arith, h) in
    subst (λ (m : ℕ). Carries on_repository bare (integer 7 (pos (suc n)) ∷ []) (keep m)) back
      (Carries-one on_repository (integer 7 (pos (suc n))) bare (keep (as_uint64 (pos (suc n))))
        (omega arith, omega arith)
        (Takes-number on_repository 7 (pos (suc n)) bare keep (omega arith, omega arith)
          (omega (arith, back, h)) (λ b. refl)))

read-write_repository :
    (value : Repository)
    → IsSmallRepository value
    → read_repository (finished (write_repository value)) ≡ ok value
unfolding read_repository write_repository on_repository
read-write_repository value h =
    let h' = on_repository in
    let s1 : Repository = record no_repository { id = value.id } in
    let s2 : Repository = record s1 { name = value.name } in
    let s3 : Repository = record s2 { description = value.description } in
    let s4 : Repository = record s3 { default_branch_id = value.default_branch_id } in
    let s5 : Repository = record s4 { default_branch_name = value.default_branch_name } in
    let s6 : Repository = record s5 { creator = value.creator } in
    let s7 : Repository = record s6 { created = value.created } in
    Carries-finished h' (
      Carries-append h'
        (Carries-bytes h' 1 value.id no_repository (λ v. record no_repository { id = v }) refl
          (omega arith, omega arith) h.id_short (λ b. refl))
        (Carries-append h'
          (Carries-bytes h' 2 value.name s1 (λ v. record s1 { name = v }) refl
            (omega arith, omega arith) h.name_short (λ b. refl))
          (Carries-append h'
            (Carries-bytes h' 3 value.description s2 (λ v. record s2 { description = v }) refl
              (omega arith, omega arith) h.description_short (λ b. refl))
            (Carries-append h'
              (Carries-bytes h' 4 value.default_branch_id s3
                (λ v. record s3 { default_branch_id = v }) refl (omega arith, omega arith)
                h.default_branch_id_short (λ b. refl))
              (Carries-append h'
                (Carries-bytes h' 5 value.default_branch_name s4
                  (λ v. record s4 { default_branch_name = v }) refl (omega arith, omega arith)
                  h.default_branch_name_short (λ b. refl))
                (Carries-append h'
                  (Carries-bytes h' 6 value.creator s5 (λ v. record s5 { creator = v }) refl
                    (omega arith, omega arith) h.creator_short (λ b. refl))
                  (Carries-append h' (Carries-created value.created s6 h.created_small) (
                    Carries-bytes h' 8 value.metadata s7 (λ v. record s7 { metadata = v }) refl
                      (omega arith, omega arith) h.metadata_short (λ b. refl)))))))))

-- A repository of short fields comes back from the answer that carries it, whatever of it is empty.
pub decode-encode_repository_response :
    (repository : Repository)
    → IsSmallRepository repository
    → IsShort (finished (write_repository repository))
    → decode_repository_response (encode_repository_response repository) ≡ ok (some repository)
unfolding decode_repository_response encode_repository_response on_repository_response
decode-encode_repository_response repository h few =
    let body = finished (write_repository repository) in
    Carries-finished on_repository_response (
      Carries-one on_repository_response (delimited 1 body) none (some repository)
        ((omega arith, omega arith), few)
        (Takes-message on_repository_response 1 body repository none read_repository some
          (omega arith, omega arith) few (read-write_repository repository h) (λ b. refl)))

pub record IsSmallCreate (value : RepositoryCreateRequest) : Type 0 where
  pub id_short : IsShort value.id
  pub name_short : IsShort value.name
  pub description_short : IsShort value.description
  pub default_branch_id_short : IsShort value.default_branch_id
  pub default_branch_name_short : IsShort value.default_branch_name
  pub creator_short : (v : Bytes) → value.creator ≡ some v → IsShort v

pub decode-encode_repository_create_request :
    (value : RepositoryCreateRequest)
    → IsSmallCreate value
    → decode_repository_create_request (encode_repository_create_request value) ≡ ok value
unfolding decode_repository_create_request encode_repository_create_request
    on_repository_create_request
decode-encode_repository_create_request value h =
    let h' = on_repository_create_request in
    let s1 : RepositoryCreateRequest = record no_create_request { id = value.id } in
    let s2 : RepositoryCreateRequest = record s1 { name = value.name } in
    let s3 : RepositoryCreateRequest = record s2 { description = value.description } in
    let s4 : RepositoryCreateRequest = record s3 { default_branch_id = value.default_branch_id } in
    let s5 : RepositoryCreateRequest = record s4 {
      default_branch_name = value.default_branch_name;
    } in
    Carries-finished h' (
      Carries-append h'
        (Carries-bytes h' 1 value.id no_create_request (λ v. record no_create_request { id = v })
          refl (omega arith, omega arith) h.id_short (λ b. refl))
        (Carries-append h'
          (Carries-bytes h' 2 value.name s1 (λ v. record s1 { name = v }) refl
            (omega arith, omega arith) h.name_short (λ b. refl))
          (Carries-append h'
            (Carries-bytes h' 3 value.description s2 (λ v. record s2 { description = v }) refl
              (omega arith, omega arith) h.description_short (λ b. refl))
            (Carries-append h'
              (Carries-bytes h' 4 value.default_branch_id s3
                (λ v. record s3 { default_branch_id = v }) refl (omega arith, omega arith)
                h.default_branch_id_short (λ b. refl))
              (Carries-append h'
                (Carries-bytes h' 5 value.default_branch_name s4
                  (λ v. record s4 { default_branch_name = v }) refl (omega arith, omega arith)
                  h.default_branch_name_short (λ b. refl))
                (Carries-if_there h' 6 value.creator (λ o. record s5 { creator = o })
                  (omega arith, omega arith)
                  (λ v e. (
                    h.creator_short v e,
                    Takes-bytes h' 6 v s5 (λ w. record s5 { creator = some w })
                        (omega arith, omega arith) (h.creator_short v e) (λ b. refl),
                  ))))))))

pub decode-encode_create_resource_request :
    (value : CreateResourceRequest)
    → IsShort value.resource_id
    → IsShort value.resource_name
    → decode_create_resource_request (encode_create_resource_request value) ≡ ok value
unfolding decode_create_resource_request encode_create_resource_request on_create_resource_request
decode-encode_create_resource_request value h k =
    let h' = on_create_resource_request in
    let start : CreateResourceRequest = record { resource_id = []; resource_name = [] } in
    let s1 : CreateResourceRequest = record start { resource_id = value.resource_id } in
    Carries-finished h' (
      Carries-append h'
        (Carries-bytes h' 1 value.resource_id start (λ v. record start { resource_id = v }) refl
          (omega arith, omega arith) h (λ b. refl))
        (Carries-bytes h' 2 value.resource_name s1 (λ v. record s1 { resource_name = v }) refl
          (omega arith, omega arith) k (λ b. refl)))

pub decode-encode_delete_resource_request :
    (id : Bytes)
    → IsShort id
    → decode_delete_resource_request (encode_delete_resource_request id) ≡ ok id
unfolding decode_delete_resource_request encode_delete_resource_request on_delete_resource_request
decode-encode_delete_resource_request id h = Carries-finished on_delete_resource_request (
    Carries-bytes on_delete_resource_request 1 id [] (λ v. v) refl (omega arith, omega arith) h
      (λ b. refl))

-- What a question about a repository names.
abbrev pub query_text : RepositoryQuery → Bytes
query_text (by_id id) = id
query_text (by_name name) = name

pub decode-encode_repository_get_request :
    (query : RepositoryQuery)
    → IsShort (query_text query)
    → decode_repository_get_request (encode_repository_get_request query) ≡ ok (some query)
unfolding decode_repository_get_request encode_repository_get_request on_repository_get_request
decode-encode_repository_get_request (by_id id) h = Carries-finished on_repository_get_request (
    Carries-one on_repository_get_request (delimited 1 id) none (some (by_id id))
      ((omega arith, omega arith), h)
      (Takes-bytes on_repository_get_request 1 id none (λ v. some (by_id v))
        (omega arith, omega arith) h (λ b. refl)))
decode-encode_repository_get_request (by_name name) h = Carries-finished on_repository_get_request (
    Carries-one on_repository_get_request (delimited 2 name) none (some (by_name name))
      ((omega arith, omega arith), h)
      (Takes-bytes on_repository_get_request 2 name none (λ v. some (by_name v))
        (omega arith, omega arith) h (λ b. refl)))
