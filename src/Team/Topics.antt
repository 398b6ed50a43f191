-- ===== src/Team/Topics.antt =====
-- src/team/topics.ts: whether a session may subscribe to a topic. Whether the caller is an operator, and
-- which projects are registered, are answers of other parts of the server; a build without live
-- sessions has no presence.
pub mod Judgement
use narra_leaf_team.Common.{
  ℕ, Bool, true, false, not, Option, none, some, List, [], ◌∷◌, ◌==◌, if◌then◌else◌, length, drop,
  is_some, Text, codes, text_eq, starts_with,
}
use narra_leaf_team.Team.Presence.State.{TeamPresence}
use narra_leaf_team.Team.Presence.Rooms.{live_session}

-- Why a topic is unknown is a sentence, which is left out.
pub data TopicVerdict : Type 0 where
  allowed unknown refused : TopicVerdict

abbrev pub topic_projects : Text
topic_projects = codes "projects"

abbrev pub project_prefix : Text
project_prefix = codes "project:"

abbrev pub project_suffixes : List Text
project_suffixes = [] ∷ codes "/threads" ∷ codes "/overlay" ∷ codes "/clients" ∷ codes "/live" ∷ []

abbrev pub live_prefix : Text
live_prefix = codes "live:"

abbrev pub admin_prefix : Text
admin_prefix = codes "admin/"

abbrev pub admin_topics : List Text
admin_topics =
    codes "admin/users" ∷ codes "admin/settings" ∷ codes "admin/keys" ∷ codes "admin/refusals" ∷ []

unfoldable pub includes : List Text → Text → Bool
includes [] t = false
includes (u ∷ us) t = if text_eq u t then true else includes us t

unfoldable pub is_admin_topic : Text → Bool
is_admin_topic topic = starts_with admin_prefix topic

-- The id in front of the first separator, and the suffix from it on.
unfoldable pub split_topic : Text → Text × Text
split_topic [] = ([], [])
split_topic (c ∷ s) =
    let (id, suffix) = split_topic s in if c == 0x2f then ([], c ∷ s) else (c ∷ id, suffix)

unfoldable pub judge_topic : Bool → (Text → Bool) → Option TeamPresence → Text → TopicVerdict
judge_topic is_operator is_project presence topic =
    let room : Bool = elim presence [
      | none ↦ false
      | some p ↦ is_some (live_session (drop (length live_prefix) topic) p)
    ] in
    let (project_id, suffix) = split_topic (drop (length project_prefix) topic) in
    if text_eq topic topic_projects
    then allowed
    else if is_admin_topic topic
    then (if not (includes admin_topics topic)
        then unknown
        else if not is_operator
        then refused
        else allowed)
    else if starts_with live_prefix topic
    then (if room then allowed else unknown)
    else if starts_with project_prefix topic
    then (if not (includes project_suffixes suffix)
        then unknown
        else if is_project project_id
        then allowed
        else unknown)
    else unknown
