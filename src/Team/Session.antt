-- ===== src/Team/Session.antt =====
-- src/team/session.ts: one connection of a Studio, over the hub, the presence and its WebSocket. What the
-- WebSocket does with a frame is in here as far as the session sees it: it drops the frame once it has
-- ended, and ends where more is queued than it will hold. How many more frames that is, is an argument.
-- The sentences are left out, and so is what a result carries.
pub mod Handlers
pub mod Keeping
pub mod Bounds
pub mod Withdrawal
pub mod Opening
mod Tests
use narra_leaf_team.Common.{
  ℕ, zero, suc, ◌+◌, ◌-◌, ◌≡◌, Bool, true, false, not, Option, none, some, List, [], ◌∷◌, ◌++◌, leb,
  if◌then◌else◌, Text, text_eq,
}
use narra_leaf_team.Data.Map.{Map}
use narra_leaf_team.Data.TextSet
use narra_leaf_team.Data.TextSet.{TextSet}
use narra_leaf_team.Team.Hub
use narra_leaf_team.Team.Hub.{Hub, sequence_of}
use narra_leaf_team.Team.Live.{
  TeamErrorCode, bad_params, unknown_method, not_found, unavailable, unauthenticated, internal,
}
use narra_leaf_team.Team.Presence.State.{TeamPresence}
use narra_leaf_team.Team.Presence.Instances.{drop_connection}
use narra_leaf_team.Team.Topics
use narra_leaf_team.Team.Topics.{judge_topic, is_admin_topic}
use narra_leaf_team.Team.Collaboration
use narra_leaf_team.Team.Collaboration.{TeamMethod, judge_collaboration}

abbrev pub in_flight_limit : ℕ
in_flight_limit = 64

abbrev pub subscription_limit : ℕ
subscription_limit = 64

pub data ServerFrame : Type 0 where
  hello : ServerFrame
  result : ℕ → ServerFrame
  error : ℕ → TeamErrorCode → ServerFrame
  subscribed : ℕ → Text → ℕ → ServerFrame
  event : Text → ℕ → ServerFrame
  withdrawn : Text → ℕ → ServerFrame
  bye : TeamErrorCode → ServerFrame

-- What a session does outside itself, in order.
pub data Effect : Type 0 where
  sent : ServerFrame → Effect
  closing : ℕ → Effect
  dropped : Effect
  started : ℕ → Text → Effect

-- A frame of a client, as far as it can be read: the types of its fields are checked where the source
-- checks them.
pub data Incoming : Type 0 where
  not_json not_object no_id : Incoming
  call : ℕ → Option Text → Incoming
  subscribes : ℕ → Option Text → Incoming
  unsubscribes : ℕ → Option Text → Incoming
  unknown_kind : ℕ → Incoming

-- What the rest of the server answers while a frame is handled: who the token of the session is now, if
-- anybody (an operator or not), the projects, the methods and the setting.
pub record Surroundings : Type 0 where
  pub caller : Option Bool
  pub is_project : Text → Bool
  pub methods : Text → Option TeamMethod
  pub collaboration_open : Bool

-- A session, and what it shares with the others. `room` is how many more frames its connection takes
-- before its backlog is over the limit.
pub record TeamSession : Type 0 where
  pub id : Text
  pub topics : TextSet
  pub in_flight : ℕ
  pub over : Bool
  pub ended : Bool
  pub room : ℕ
  pub hub : Hub
  pub presence : TeamPresence

-- A part of a handler: what it answers, what it leaves and what it does.
abbrev pub Run : Type 0 → Type 0
Run A = TeamSession → A × TeamSession × List Effect

infixl 20 ◌>>=◌
abbrev pub ◌>>=◌ : {A B : Type 0} → Run A → (A → Run B) → Run B
(m >>= f) s = let r = m s in let r' = f r.0 r.1 in (r'.0, r'.1, r.2 ++ r'.2)

abbrev pub done : {A : Type 0} → A → Run A
done a s = (a, s, [])

abbrev pub close_code_for : TeamErrorCode → ℕ
close_code_for bad_params = 1002
close_code_for unauthenticated = 1008
close_code_for TeamErrorCode.refused = 1008
close_code_for _ = 1000

-- `closed`: the listener of the connection's end.
unfoldable pub closed : Run (Unit {0})
closed s = if s.over then (tt, s, []) else (
  tt,
  record s {
    over = true;
    topics = [];
    hub = Hub.remove s.id s.hub;
    presence = drop_connection s.id s.presence;
  },
  dropped ∷ [],
)

-- `connection.close`: it ends the connection, which calls `closed`.
unfoldable pub close_connection : ℕ → Run (Unit {0})
unfolding closed
close_connection code s =
    let r = closed (record s { ended = true }) in
    if s.ended then (tt, s, []) else (tt, r.1, closing code ∷ r.2)

unfoldable pub send : ServerFrame → Run (Unit {0})
unfolding close_connection
send frame s =
    let full = close_connection 1008 s in
    if s.ended
    then (tt, s, [])
    else elim s.room [ zero ↦ full | suc n ↦ (tt, record s { room = n }, sent frame ∷ []) ]

unfoldable pub say_bye : TeamErrorCode → Run (Unit {0})
unfolding send close_connection closed
say_bye code = do _ ← send (bye code); _ ← close_connection (close_code_for code); closed

unfoldable pub fail : ℕ → TeamErrorCode → Run (Unit {0})
unfolding send
fail id code = send (error id code)

unfoldable pub delete_topic : Text → Run (Unit {0})
delete_topic topic s = (tt, record s { topics = TextSet.delete topic s.topics }, [])

abbrev pub seq_now : Text → TeamSession → ℕ
seq_now topic s = sequence_of s.hub topic

unfoldable pub withdraw_topic : Text → Run (Unit {0})
unfolding send delete_topic
withdraw_topic topic = do _ ← delete_topic topic; λ s. send (withdrawn topic (seq_now topic s)) s

-- The loop of `withdrawManagement`, over the topics as they were.
unfoldable pub withdraw_topics : List Text → Run (Unit {0})
unfolding withdraw_topic
withdraw_topics [] = done tt
withdraw_topics (topic ∷ topics) =
    if is_admin_topic topic
    then (withdraw_topic topic >>= λ _. withdraw_topics topics)
    else withdraw_topics topics

unfoldable pub withdraw_management : Bool → Run (Unit {0})
unfolding withdraw_topics
withdraw_management is_operator s = if is_operator then (tt, s, []) else withdraw_topics s.topics s

unfoldable pub identify : Surroundings → Run (Option Bool)
unfolding withdraw_management say_bye
identify around = elim around.caller [
  | none ↦ (say_bye unauthenticated >>= λ _. done none)
  | some is_operator ↦ (withdraw_management is_operator >>= λ _. done (some is_operator))
]
