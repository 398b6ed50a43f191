-- ===== src/Team/Session/Tests.antt =====
-- A session at concrete inputs.
use narra_leaf_team.Common.{
  ◌≤◌, ◌≡◌, ◌↔◌, ◌⊎◌, refl, Bool, true, false, some, List, [], ◌∷◌, arith, Text, codes, starts_with,
  text_eq,
}
use narra_leaf_team.Data.TextSet
use narra_leaf_team.Team.Hub
use narra_leaf_team.Team.Topics.{includes, is_admin_topic}
use narra_leaf_team.Team.Presence.State.{empty}
use narra_leaf_team.Team.Collaboration
use narra_leaf_team.Team.Collaboration.{
  TeamMethod, judge_collaboration, without_coordination, kept_for_operators,
  judge_collaboration_lem,
}
use narra_leaf_team.Team.Session.{
  closing, dropped, started, TeamSession, Surroundings, call, subscribes,
}
use narra_leaf_team.Team.Session.Handlers.{
  Occurrence, receives, revalidates, room_is, fresh_session, session_run, open_session,
  connection_lost, occur, answer,
}
use narra_leaf_team.Team.Session.Keeping.{IsBounded, closings, drops, as_number}
use narra_leaf_team.Team.Session.Bounds.{session_run-IsBounded}
use narra_leaf_team.Team.Session.Opening.{IsStranded, all_go_on, session_run-IsStranded}
use narra_leaf_team.Team.Session.Withdrawal.{
  Cleared, revalidating, identified-Cleared, answer_after_end,
}

abbrev method : TeamMethod
method = record { name = codes "clients.announce"; capability = codes "clients" }

abbrev around : Bool → Surroundings
around is_operator = record {
  caller = some is_operator;
  is_project = λ _. true;
  methods = λ _. some method;
  collaboration_open = true;
}

abbrev users : Text
users = codes "admin/users"

abbrev history : List Occurrence
history =
    receives (around true) (subscribes 1 (some users))
    ∷ room_is 0
    ∷ receives (around false) (call 2 (some (codes "clients.announce")))
    ∷ []

session_run-IsBounded_example :
    IsBounded 64 ((session_run false (codes "s") 9 Hub.new empty history).0)
    × (closings ((session_run false (codes "s") 9 Hub.new empty history).1) ≤ 1)
    × (drops ((session_run false (codes "s") 9 Hub.new empty history).1)
        ≡ as_number ((session_run false (codes "s") 9 Hub.new empty history).0.over))
session_run-IsBounded_example =
    session_run-IsBounded false (codes "s") 9 Hub.new empty history opened
  where
    opened : (open_session false (codes "s") 9 Hub.new empty).0.ended ≡ false
    opened = unfold open_session in refl

session_run-IsStranded_example :
    IsStranded
      ((session_run false (codes "s") 0 Hub.new empty (connection_lost ∷ room_is 9 ∷ [])).0)
    × ((session_run false (codes "s") 0 Hub.new empty (connection_lost ∷ room_is 9 ∷ [])).1
        ≡ closing 1008 ∷ [])
unfolding open_session all_go_on
session_run-IsStranded_example =
    session_run-IsStranded false (codes "s") 0 Hub.new empty (connection_lost ∷ room_is 9 ∷ []) refl
      refl

abbrev holding : TeamSession
holding = record (fresh_session false (codes "s") 0 Hub.new empty) { topics = users ∷ [] }

identified-Cleared_example : Cleared ((occur (revalidates (around false)) holding).1)
identified-Cleared_example =
    identified-Cleared (around false) holding (revalidates (around false)) (revalidating refl) refl

users_admin : is_admin_topic users ≡ true
unfolding is_admin_topic starts_with
users_admin = refl

answer_after_end_example :
    (answer (around false) 2 (some (codes "clients.announce")) holding).2
    ≡ closing 1008 ∷ dropped ∷ started 2 (codes "clients.announce") ∷ []
answer_after_end_example =
    answer_after_end (around false) holding 2 (codes "clients.announce") users method refl refl refl
      refl users_admin (omega arith) refl refl refl

judge_collaboration_lem_example :
    ((judge_collaboration false true method ≡ Collaboration.refused)
      ↔ (TextSet.has (codes "clients") (without_coordination (codes "clients" ∷ [])) ≡ false))
    × ((judge_collaboration false false method ≡ Collaboration.refused) ↔ (
        (TextSet.has (codes "clients") (without_coordination (codes "clients" ∷ [])) ≡ false)
        ⊎ (includes kept_for_operators (codes "clients.announce") ≡ true)))
judge_collaboration_lem_example = judge_collaboration_lem (codes "clients" ∷ []) method announced
  where
    announced : TextSet.has (codes "clients") (codes "clients" ∷ []) ≡ true
    announced = unfold TextSet.has text_eq in refl
