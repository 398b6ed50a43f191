-- ===== src/Team/Collaboration.antt =====
-- src/team/collaboration.ts: what a deployment that is closed to collaboration refuses. The stored
-- setting and whether the caller is an operator are arguments, and the sentences are left out.
use narra_leaf_team.Common.{
  ◌≡◌, ◌↔◌, ◌⊎◌, refl, Bool, true, false, ◌&&◌, not, List, [], ◌∷◌, if◌then◌else◌, Text, codes,
  arith,
}
use narra_leaf_team.Data.TextSet
use narra_leaf_team.Data.TextSet.{TextSet, has-delete}
use narra_leaf_team.Team.Topics.{includes}

abbrev pub coordination_capabilities : List Text
coordination_capabilities =
    codes "comments" ∷ codes "clients" ∷ codes "live" ∷ codes "overlay" ∷ codes "blobs" ∷ []

abbrev pub kept_for_operators : List Text
kept_for_operators =
    codes "projects.list"
    ∷ codes "projects.get"
    ∷ codes "projects.history"
    ∷ codes "projects.create"
    ∷ codes "projects.forget"
    ∷ codes "members.list"
    ∷ []

pub data CollaborationVerdict : Type 0 where
  allowed refused : CollaborationVerdict

pub record TeamMethod : Type 0 where
  pub name : Text
  pub capability : Text

-- The loop of `withoutCoordination` over the capabilities that go.
unfoldable pub delete_all : List Text → TextSet → TextSet
delete_all [] kept = kept
delete_all (capability ∷ rest) kept = delete_all rest (TextSet.delete capability kept)

unfoldable pub without_coordination : TextSet → TextSet
without_coordination capabilities = delete_all coordination_capabilities capabilities

unfoldable pub judge_collaboration : Bool → Bool → TeamMethod → CollaborationVerdict
judge_collaboration is_open is_operator method =
    if is_open
    then allowed
    else if includes coordination_capabilities method.capability
    then refused
    else if includes kept_for_operators method.name && not is_operator
    then refused
    else allowed

unfoldable pub judge_blob_route : Bool → CollaborationVerdict
judge_blob_route is_open = if is_open then allowed else refused

has-delete_all :
    (cs : List Text) (kept : TextSet) (c : Text)
    → TextSet.has c (delete_all cs kept) ≡ not (includes cs c) && TextSet.has c kept
unfolding delete_all includes
has-delete_all [] kept c = refl
has-delete_all (d ∷ cs) kept c =
    ground (arith, has-delete_all cs (TextSet.delete d kept) c, has-delete d c kept)

-- On a deployment that is closed to collaboration, what is announced and what is served agree: a method
-- is refused to an operator exactly where its capability, announced while the deployment was open, no
-- longer is, and the methods that are the operators' own are refused to everybody else besides.
pub judge_collaboration_lem :
    (announced : TextSet) (method : TeamMethod)
    → TextSet.has method.capability announced ≡ true
    → ((judge_collaboration false true method ≡ refused)
        ↔ (TextSet.has method.capability (without_coordination announced) ≡ false))
      × ((judge_collaboration false false method ≡ refused) ↔ (
          (TextSet.has method.capability (without_coordination announced) ≡ false)
          ⊎ (includes kept_for_operators method.name ≡ true)))
unfolding judge_collaboration without_coordination
judge_collaboration_lem announced method h =
    let gone = has-delete_all coordination_capabilities announced method.capability in
    ground (arith, gone, h)
