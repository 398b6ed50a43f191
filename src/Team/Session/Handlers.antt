-- ===== src/Team/Session/Handlers.antt =====
-- src/team/session.ts: the handlers of what arrives at a session, and its history.
use narra_leaf_team.Common.{
  zero, suc, ℕ, ◌+◌, ◌-◌, Bool, true, false, Option, none, some, List, [], ◌∷◌, ◌++◌, leb,
  if◌then◌else◌, Text,
}
use narra_leaf_team.Data.Map.{Map}
use narra_leaf_team.Data.TextSet
use narra_leaf_team.Data.TextSet.{TextSet}
use narra_leaf_team.Team.Hub
use narra_leaf_team.Team.Hub.{Hub, sequence_of}
use narra_leaf_team.Team.Live.{
  TeamErrorCode, bad_params, unknown_method, not_found, unavailable, internal,
}
use narra_leaf_team.Team.Presence.State.{TeamPresence}
use narra_leaf_team.Team.Topics
use narra_leaf_team.Team.Topics.{judge_topic, is_admin_topic}
use narra_leaf_team.Team.Collaboration
use narra_leaf_team.Team.Collaboration.{TeamMethod, judge_collaboration}
use narra_leaf_team.Team.Session.{
  ServerFrame, sent, closing, in_flight_limit, subscription_limit, Effect, Incoming, Surroundings,
  TeamSession, Run, ◌>>=◌, done, closed, send, say_bye, fail, delete_topic, seq_now, identify,
  hello, result, subscribed, event, started, not_json, not_object, no_id, call, subscribes,
  unsubscribes, unknown_kind,
}

unfoldable pub acknowledge : ℕ → Text → Run (Unit {0})
unfolding send
acknowledge id topic s = send (subscribed id topic (seq_now topic s)) s

unfoldable pub add_topic : Text → Run (Unit {0})
add_topic topic s = (tt, record s { topics = TextSet.add topic s.topics }, [])

-- `subscribe` behind the check that the topic is no empty text.
unfoldable pub subscribe_to : Surroundings → ℕ → Text → Bool → Run (Unit {0})
unfolding acknowledge add_topic fail
subscribe_to around id topic is_operator s =
    if TextSet.has topic s.topics
    then acknowledge id topic s
    else if leb subscription_limit (TextSet.size s.topics)
    then fail id TeamErrorCode.refused s
    else elim (judge_topic is_operator around.is_project (some s.presence) topic) [
      | Topics.allowed ↦ (add_topic topic >>= λ _. acknowledge id topic) s
      | Topics.unknown ↦ fail id not_found s
      | Topics.refused ↦ fail id TeamErrorCode.refused s
    ]

abbrev pub is_empty : Text → Bool
is_empty [] = true
is_empty (c ∷ s) = false

abbrev pub with_caller : Option Bool → (Bool → Run (Unit {0})) → Run (Unit {0})
with_caller none next = done tt
with_caller (some is_operator) next = next is_operator

unfoldable pub subscribe : Surroundings → ℕ → Option Text → Run (Unit {0})
unfolding subscribe_to identify fail
subscribe around id none = fail id bad_params
subscribe around id (some topic) =
    if is_empty topic
    then fail id bad_params
    else (identify around >>= λ caller.
        with_caller caller (λ is_operator. subscribe_to around id topic is_operator))

unfoldable pub unsubscribe : ℕ → Option Text → Run (Unit {0})
unfolding fail delete_topic send
unsubscribe id none = fail id bad_params
unsubscribe id (some topic) = do _ ← delete_topic topic; send (result id)

-- The handler begins; what it answers comes later, by `settle`.
unfoldable pub start : ℕ → TeamMethod → Run (Unit {0})
start id method s = (tt, record s { in_flight = s.in_flight + 1 }, started id method.name ∷ [])

unfoldable pub serve : Surroundings → ℕ → TeamMethod → Bool → Run (Unit {0})
unfolding start fail
serve around id method is_operator =
    elim (judge_collaboration around.collaboration_open is_operator method) [
      | Collaboration.refused ↦ fail id TeamErrorCode.refused
      | Collaboration.allowed ↦ start id method
    ]

unfoldable pub answer : Surroundings → ℕ → Option Text → Run (Unit {0})
unfolding identify serve say_bye fail
answer around id none = fail id bad_params
answer around id (some name) = elim (around.methods name) [
  | none ↦ fail id unknown_method
  | some method ↦ λ s.
      if leb in_flight_limit s.in_flight
      then say_bye TeamErrorCode.refused s
      else (identify around >>= λ caller.
            with_caller caller (λ is_operator. serve around id method is_operator))
          s
]

-- What a handler comes to: a value, an error of its own, or anything else.
pub data Outcome : Type 0 where
  value : Outcome
  method_error : TeamErrorCode → Outcome
  fault : Outcome

unfoldable pub answer_outcome : ℕ → Outcome → Run (Unit {0})
unfolding send fail
answer_outcome id value = send (result id)
answer_outcome id (method_error code) = fail id code
answer_outcome id fault = fail id internal

unfoldable pub settled : Run (Unit {0})
settled s = (tt, record s { in_flight = s.in_flight - 1 }, [])

unfoldable pub settle : ℕ → Outcome → Run (Unit {0})
unfolding answer_outcome settled
settle id outcome = do _ ← answer_outcome id outcome; settled

unfoldable pub receive : Surroundings → Incoming → Run (Unit {0})
unfolding answer subscribe unsubscribe say_bye
receive around not_json = say_bye bad_params
receive around not_object = say_bye bad_params
receive around no_id = say_bye bad_params
receive around (call id method) = answer around id method
receive around (subscribes id topic) = subscribe around id topic
receive around (unsubscribes id topic) = unsubscribe id topic
receive around (unknown_kind id) = say_bye bad_params

-- The timer.
unfoldable pub revalidate : Surroundings → Run (Unit {0})
unfolding identify
revalidate around = identify around >>= λ caller. done tt

-- What the hub calls.
unfoldable pub wants : TeamSession → Text → Bool
wants s topic = TextSet.has topic s.topics

unfoldable pub deliver : Text → ℕ → Run (Unit {0})
unfolding send
deliver topic seq = send (event topic seq)

-- `end`.
unfoldable pub end_session : Run (Unit {0})
unfolding say_bye
end_session = say_bye unavailable

-- The connection that ended by itself.
unfoldable pub connection_ends : Run (Unit {0})
unfolding closed
connection_ends s = if s.ended then (tt, s, []) else closed (record s { ended = true })

-- What may happen to a session. A message reaches it only while its connection is open, and its timer
-- runs only while it is not over. What the others do changes the sequences and the presence.
pub data Occurrence : Type 0 where
  receives : Surroundings → Incoming → Occurrence
  revalidates : Surroundings → Occurrence
  settles : ℕ → Outcome → Occurrence
  delivers : Text → ℕ → Occurrence
  ends connection_lost : Occurrence
  room_is : ℕ → Occurrence
  others_act : Map ℕ → TeamPresence → Occurrence

unfoldable pub set_room : ℕ → Run (Unit {0})
set_room n s = (tt, record s { room = n }, [])

unfoldable pub set_shared : Map ℕ → TeamPresence → Run (Unit {0})
set_shared sequences presence s =
    (tt, record s { hub = record (s.hub) { sequences = sequences }; presence = presence }, [])

unfoldable pub occur : Occurrence → Run (Unit {0})
unfolding receive revalidate settle deliver end_session connection_ends set_room set_shared
occur (receives around frame) s = if s.ended then (tt, s, []) else receive around frame s
occur (revalidates around) s = if s.over then (tt, s, []) else revalidate around s
occur (settles id outcome) s = settle id outcome s
occur (delivers topic seq) s = deliver topic seq s
occur ends s = end_session s
occur connection_lost s = connection_ends s
occur (room_is n) s = set_room n s
occur (others_act sequences presence) s = set_shared sequences presence s

unfoldable pub run : List Occurrence → Run (Unit {0})
unfolding occur
run [] = done tt
run (o ∷ os) = do _ ← occur o; run os

-- The fields of a session as the constructor sets them, on a connection that may have ended before: its
-- first frames are read ahead of the session.
abbrev pub fresh_session : Bool → Text → ℕ → Hub → TeamPresence → TeamSession
fresh_session ended id room hub presence = record {
  id = id;
  topics = [];
  in_flight = 0;
  over = false;
  ended = ended;
  room = room;
  hub = Hub.add id hub;
  presence = presence;
}

-- `send` within the constructor. The listener of the connection's end knows of no session until the
-- constructor is left, so a connection that ends here does not call `closed`.
unfoldable pub send_unheard : ServerFrame → Run (Unit {0})
send_unheard frame s = if s.ended then (tt, s, []) else elim s.room [
  | zero ↦ (tt, record s { ended = true }, closing 1008 ∷ [])
  | suc n ↦ (tt, record s { room = n }, sent frame ∷ [])
]

-- The constructor.
unfoldable pub open_session : Bool → Text → ℕ → Hub → TeamPresence → TeamSession × List Effect
unfolding send_unheard
open_session ended id room hub presence =
    let r = send_unheard hello (fresh_session ended id room hub presence) in (r.1, r.2)

-- A session from its opening on.
unfoldable pub session_run :
    Bool → Text → ℕ → Hub → TeamPresence → List Occurrence → TeamSession × List Effect
unfolding open_session run
session_run ended id room hub presence os =
    let (s, opening) = open_session ended id room hub presence in
    let r = run os s in (r.1, opening ++ r.2)
