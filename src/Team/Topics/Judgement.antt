-- ===== src/Team/Topics/Judgement.antt =====
-- What src/team/topics.ts answers for the topics that the server publishes on.
use narra_leaf_team.Common.{
  ℕ, ◌≡◌, ◌≢◌, refl, Bool, true, false, Option, some, [], ◌∷◌, ◌++◌, All, arith, if◌then◌else◌,
  is_some, Text, codes, text_eq, text_eq_iff, starts_with,
}
use narra_leaf_team.Team.Presence.State.{
  TeamPresence, project_clients_topic, project_live_topic, live_topic,
}
use narra_leaf_team.Team.Presence.Rooms.{live_session}
use narra_leaf_team.Team.Topics.{
  topic_projects, allowed, unknown, judge_topic, split_topic, is_admin_topic, includes,
}

-- An id has no separator in it.
abbrev pub HasNoSlash : Text → Type 0
HasNoSlash id = All (λ (c : ℕ). c ≢ 0x2f) id

split_topic-append : (id s : Text) → HasNoSlash id → split_topic (id ++ (0x2f ∷ s)) ≡ (id, 0x2f ∷ s)
unfolding split_topic
split_topic-append [] s h = refl
split_topic-append (c ∷ id) s h = ground (arith, split_topic-append id s h.1, h.0)

starts_with_nil : (s : Text) → starts_with [] s ≡ true
unfolding starts_with text_eq
starts_with_nil [] = refl
starts_with_nil (c ∷ s) = refl

-- The topics that the presence publishes on can be subscribed to exactly where they are about something:
-- the topic of a room while there is a room of that id, and the two topics of a project while there
-- is a project of that id, whoever asks.
pub judge_topic_lem :
    (is_operator : Bool) (is_project : Text → Bool) (p : TeamPresence) (room project : Text)
    → HasNoSlash project
    → (judge_topic is_operator is_project (some p) (live_topic room)
        ≡ (if is_some (live_session room p) then allowed else unknown))
      × (judge_topic is_operator is_project (some p) (project_clients_topic project)
          ≡ (if is_project project then allowed else unknown))
      × (judge_topic is_operator is_project (some p) (project_live_topic project)
          ≡ (if is_project project then allowed else unknown))
unfolding judge_topic live_topic project_clients_topic project_live_topic is_admin_topic includes
    starts_with text_eq
judge_topic_lem is_operator is_project p room project h =
    let clients = split_topic-append project (codes "clients") h in
    let live = split_topic-append project (codes "live") h in
    (
      ground (arith, starts_with_nil room),
      ground (arith, starts_with_nil (project ++ codes "/clients"), clients),
      ground (arith, starts_with_nil (project ++ codes "/live"), live),
    )

-- The topics of the server itself are for operators: nobody else is allowed a topic under that prefix.
pub admin_topics_lem :
    (is_project : Text → Bool) (presence : Option TeamPresence) (topic : Text)
    → is_admin_topic topic ≡ true
    → judge_topic false is_project presence topic ≢ allowed
unfolding judge_topic
admin_topics_lem is_project presence topic h e =
    ground (arith, h, e, text_eq_iff topic topic_projects, not_projects)
  where
    not_projects : is_admin_topic topic_projects ≡ false
    not_projects = unfold is_admin_topic starts_with in refl
