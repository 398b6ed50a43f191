-- ===== src/Team/Session/Bounds.antt =====
-- What bounds a session over any history, and that it ends once.
use narra_leaf_team.Common.{
  ℕ, ◌≤◌, ◌<◌, ◌≡◌, refl, ap, Bool, true, false, zero, suc, Option, none, some, List, [], ◌∷◌,
  if◌then◌else◌, leb, arith, Text, text_eq_refl, by_branches,
}
use narra_leaf_team.Data.TextSet
use narra_leaf_team.Data.TextSet.{has-add, size-add-le}
use narra_leaf_team.Team.Hub
use narra_leaf_team.Team.Hub.{Hub}
use narra_leaf_team.Team.Live.{
  TeamErrorCode, bad_params, unknown_method, not_found, unavailable, internal,
}
use narra_leaf_team.Team.Presence.State.{TeamPresence}
use narra_leaf_team.Team.Topics
use narra_leaf_team.Team.Topics.{TopicVerdict, judge_topic}
use narra_leaf_team.Team.Collaboration
use narra_leaf_team.Team.Collaboration.{TeamMethod, CollaborationVerdict, judge_collaboration}
use narra_leaf_team.Team.Session.{
  TeamSession, Run, ◌>>=◌, done, closed, send, say_bye, result, fail, Surroundings, Incoming,
  delete_topic, identify, event, not_json, not_object, no_id, call, subscribes, unsubscribes,
  unknown_kind, in_flight_limit, subscription_limit,
}
use narra_leaf_team.Team.Session.Handlers.{
  acknowledge, add_topic, subscribe_to, is_empty, with_caller, subscribe, unsubscribe, start, serve,
  answer, Outcome, answer_outcome, value, method_error, fault, settled, settle, receive, revalidate,
  deliver, end_session, connection_ends, Occurrence, receives, revalidates, settles, delivers, ends,
  connection_lost, room_is, others_act, occur, run, open_session, session_run, fresh_session,
  send_unheard,
}
use narra_leaf_team.Team.Session.Keeping.{
  as_number, closings, drops, closings-append, drops-append, IsBounded, Holds, Keeps, Keeps->>=,
  Keeps-done, Keeps-send, Keeps-fail, Keeps-set, Keeps-delete_topic, Keeps-start, Keeps-settled,
  Keeps-set_room, Keeps-set_shared, Keeps-say_bye, Keeps-acknowledge, Keeps-identify, out_of_hub,
  Balance-still, Balance-trans,
}

IsBounded-le : (k l : ℕ) (s : TeamSession) → k ≤ l → IsBounded k s → IsBounded l s
IsBounded-le k l s h b = record {
  with_connection = b.with_connection;
  topics_few = b.topics_few;
  calls_few = omega (arith, b.calls_few);
  in_hub = b.in_hub;
}

Keeps-le : {A : Type 0} (k l n : ℕ) (m : Run A) → l ≤ n → Keeps k m l → Keeps k m n
Keeps-le k l n m h keeps s b = (IsBounded-le l n ((m s).1) h ((keeps s b).0), (keeps s b).1)

Keeps-add_topic :
    (k : ℕ) (topic : Text) (s : TeamSession)
    → IsBounded k s
    → TextSet.size s.topics < 64
    → Holds k s (add_topic topic s)
unfolding add_topic
Keeps-add_topic k topic s b h =
    Keeps-set k s _ refl refl refl (omega (arith, size-add-le topic s.topics, h)) b.calls_few k b []
      refl refl

Keeps-subscribe_to :
    (k : ℕ) (around : Surroundings) (id : ℕ) (topic : Text) (is_operator : Bool)
    → Keeps k (subscribe_to around id topic is_operator) k
unfolding subscribe_to
Keeps-subscribe_to k around id topic is_operator s b =
    by_branches (Holds k s) (TextSet.has topic s.topics) _ _ (λ e. Keeps-acknowledge k id topic s b)
      (λ e.
        by_branches (Holds k s) (leb subscription_limit (TextSet.size s.topics)) _ _
          (λ full. Keeps-fail k id TeamErrorCode.refused s b)
          (λ few.
            judged (judge_topic is_operator around.is_project (some s.presence) topic)
              (ground (arith, few))))
  where
    judged :
        (v : TopicVerdict)
        → TextSet.size s.topics < 64
        → Holds {A = Unit {0}} k s (elim v [
          | Topics.allowed ↦ (add_topic topic >>= λ _. acknowledge id topic) s
          | Topics.unknown ↦ fail id not_found s
          | Topics.refused ↦ fail id TeamErrorCode.refused s
        ])
    judged Topics.allowed few =
        let (b', e) = Keeps-add_topic k topic s b few in
        let s' = (add_topic topic s).1 in
        let (b'', e') = Keeps-acknowledge k id topic s' b' in
        (
          b'',
          Balance-trans s s' (acknowledge id topic s').1 (add_topic topic s).2
              (acknowledge id topic s').2 e e',
        )
    judged Topics.unknown few = Keeps-fail k id not_found s b
    judged Topics.refused few = Keeps-fail k id TeamErrorCode.refused s b

Keeps-with_caller :
    (k l : ℕ) (caller : Option Bool) (next : Bool → Run (Unit {0}))
    → k ≤ l
    → ((o : Bool) → Keeps k (next o) l)
    → Keeps k (with_caller caller next) l
Keeps-with_caller k l none next h j = Keeps-le k k l (done tt) h (Keeps-done k tt)
Keeps-with_caller k l (some o) next h j = j o

Keeps-subscribe :
    (k : ℕ) (around : Surroundings) (id : ℕ) (topic : Option Text)
    → Keeps k (subscribe around id topic) k
unfolding subscribe
Keeps-subscribe k around id none = Keeps-fail k id bad_params
Keeps-subscribe k around id (some topic) =
    by_branches (λ (m : Run (Unit {0})). Keeps k m k) (is_empty topic) _ _
      (λ e. Keeps-fail k id bad_params)
      (λ e.
        Keeps->>= k k k (identify around) (λ c. with_caller c (λ o. subscribe_to around id topic o))
          (Keeps-identify k around)
          (λ c.
            Keeps-with_caller k k c (λ o. subscribe_to around id topic o) (omega arith)
              (λ o. Keeps-subscribe_to k around id topic o)))

Keeps-unsubscribe : (k id : ℕ) (topic : Option Text) → Keeps k (unsubscribe id topic) k
unfolding unsubscribe
Keeps-unsubscribe k id none = Keeps-fail k id bad_params
Keeps-unsubscribe k id (some topic) =
    Keeps->>= k k k (delete_topic topic) (λ _. send (result id)) (Keeps-delete_topic k topic)
      (λ _. Keeps-send k (result id))

Keeps-serve :
    (around : Surroundings) (id : ℕ) (method : TeamMethod) (o : Bool)
    → Keeps 63 (serve around id method o) 64
unfolding serve
Keeps-serve around id method o =
    elim (judge_collaboration around.collaboration_open o method)
      as (λ v.
        Keeps {A = Unit {0}} 63
          (elim v [
            | Collaboration.refused ↦ fail id TeamErrorCode.refused
            | Collaboration.allowed ↦ start id method
          ])
          64) [
            | Collaboration.refused ↦
                Keeps-le 63 63 64 (fail id TeamErrorCode.refused) (omega arith)
                  (Keeps-fail 63 id TeamErrorCode.refused)
            | Collaboration.allowed ↦ Keeps-start 63 id method
          ]

Keeps-answer :
    (around : Surroundings) (id : ℕ) (name : Option Text) → Keeps 64 (answer around id name) 64
unfolding answer
Keeps-answer around id none = Keeps-fail 64 id bad_params
Keeps-answer around id (some name) =
    elim (around.methods name)
      as (λ m.
        Keeps {A = Unit {0}} 64
          (elim m [
            | none ↦ fail id unknown_method
            | some method ↦ λ s.
                if leb in_flight_limit s.in_flight
                then say_bye TeamErrorCode.refused s
                else (identify around >>= λ caller.
                      with_caller caller (λ o. serve around id method o))
                    s
          ])
          64) [
            | none ↦ Keeps-fail 64 id unknown_method
            | some method ↦ λ s b.
                by_branches (Holds 64 s) (leb in_flight_limit s.in_flight) _ _
                  (λ e. Keeps-say_bye 64 TeamErrorCode.refused s b)
                  (λ e.
                    Keeps->>= 63 63 64 (identify around)
                      (λ c. with_caller c (λ o. serve around id method o))
                      (Keeps-identify 63 around)
                      (λ c.
                        Keeps-with_caller 63 64 c (λ o. serve around id method o) (omega arith)
                          (λ o. Keeps-serve around id method o))
                      s
                      (record {
                        with_connection = b.with_connection;
                        topics_few = b.topics_few;
                        calls_few = ground (arith, e);
                        in_hub = b.in_hub;
                      }))
          ]

Keeps-answer_outcome : (k id : ℕ) (outcome : Outcome) → Keeps k (answer_outcome id outcome) k
unfolding answer_outcome
Keeps-answer_outcome k id value = Keeps-send k (result id)
Keeps-answer_outcome k id (method_error code) = Keeps-fail k id code
Keeps-answer_outcome k id fault = Keeps-fail k id internal

Keeps-settle : (k id : ℕ) (outcome : Outcome) → Keeps k (settle id outcome) k
unfolding settle
Keeps-settle k id outcome =
    Keeps->>= k k k (answer_outcome id outcome) (λ _. settled) (Keeps-answer_outcome k id outcome)
      (λ _. Keeps-settled k)

Keeps-receive : (around : Surroundings) (frame : Incoming) → Keeps 64 (receive around frame) 64
unfolding receive
Keeps-receive around not_json = Keeps-say_bye 64 bad_params
Keeps-receive around not_object = Keeps-say_bye 64 bad_params
Keeps-receive around no_id = Keeps-say_bye 64 bad_params
Keeps-receive around (call id name) = Keeps-answer around id name
Keeps-receive around (subscribes id topic) = Keeps-subscribe 64 around id topic
Keeps-receive around (unsubscribes id topic) = Keeps-unsubscribe 64 id topic
Keeps-receive around (unknown_kind id) = Keeps-say_bye 64 bad_params

Keeps-revalidate : (k : ℕ) (around : Surroundings) → Keeps k (revalidate around) k
unfolding revalidate
Keeps-revalidate k around =
    Keeps->>= {B = Unit {0}} k k k (identify around) (λ _. done tt) (Keeps-identify k around)
      (λ _. Keeps-done {A = Unit {0}} k tt)

Keeps-connection_ends : (k : ℕ) → Keeps k connection_ends k
unfolding connection_ends closed
Keeps-connection_ends k s b =
    by_branches (Holds k s) s.ended _ _ (λ e. (b, Balance-still s))
      (λ e.
        by_branches (Holds k s) s.over _ _ (λ o. absurd (ground (arith, e, o, b.with_connection)))
          (λ o. (
            record {
              with_connection = refl;
              topics_few = omega arith;
              calls_few = b.calls_few;
              in_hub = out_of_hub s.id s.hub;
            },
            record {
              closes = omega (arith, ap as_number e);
              drops_once = omega (arith, ap as_number o);
            },
          )))

Keeps-occur : (o : Occurrence) → Keeps 64 (occur o) 64
unfolding occur deliver end_session
Keeps-occur (receives around frame) s b =
    by_branches (Holds 64 s) s.ended _ _ (λ e. (b, Balance-still s))
      (λ e. Keeps-receive around frame s b)
Keeps-occur (revalidates around) s b =
    by_branches (Holds 64 s) s.over _ _ (λ e. (b, Balance-still s))
      (λ e. Keeps-revalidate 64 around s b)
Keeps-occur (settles id outcome) s b = Keeps-settle 64 id outcome s b
Keeps-occur (delivers topic seq) s b = Keeps-send 64 (event topic seq) s b
Keeps-occur ends s b = Keeps-say_bye 64 unavailable s b
Keeps-occur connection_lost s b = Keeps-connection_ends 64 s b
Keeps-occur (room_is n) s b = Keeps-set_room 64 n s b
Keeps-occur (others_act m p) s b = Keeps-set_shared 64 m p s b

Keeps-run : (os : List Occurrence) → Keeps 64 (run os) 64
unfolding run
Keeps-run [] = Keeps-done 64 tt
Keeps-run (o ∷ os) = Keeps->>= 64 64 64 (occur o) (λ _. run os) (Keeps-occur o) (λ _. Keeps-run os)

fresh-IsBounded :
    (id : Text) (room : ℕ) (hub : Hub) (presence : TeamPresence)
    → IsBounded 64 (fresh_session false id room hub presence)
unfolding Hub.add
fresh-IsBounded id room hub presence = record {
  with_connection = refl;
  topics_few = omega arith;
  calls_few = omega arith;
  in_hub = ground (arith, has-add id id hub.sessions, text_eq_refl id);
}

-- What the constructor leaves, where the connection is open behind it.
opened-IsBounded :
    (ended : Bool) (id : Text) (room : ℕ) (hub : Hub) (presence : TeamPresence)
    → (open_session ended id room hub presence).0.ended ≡ false
    → IsBounded 64 ((open_session ended id room hub presence).0)
      × (closings ((open_session ended id room hub presence).1) ≡ 0)
      × (drops ((open_session ended id room hub presence).1) ≡ 0)
      × ((open_session ended id room hub presence).0.over ≡ false)
unfolding open_session send_unheard
opened-IsBounded true id room hub presence h = cc
opened-IsBounded false id zero hub presence h = cc
opened-IsBounded false id (suc room) hub presence h =
    (fresh-IsBounded id room hub presence, refl, refl, refl)

-- After any history of a session whose connection was still open when its constructor was left: it holds
-- at most sixty-four topics and has at most sixty-four calls in flight, it is over exactly if its
-- connection has ended and is in the hub exactly if not, its connection was closed at most once, and the
-- presence has dropped it once if it is over and not at all otherwise.
pub session_run-IsBounded :
    (ended : Bool) (id : Text) (room : ℕ) (hub : Hub) (presence : TeamPresence)
    (os : List Occurrence)
    → (open_session ended id room hub presence).0.ended ≡ false
    → IsBounded 64 ((session_run ended id room hub presence os).0)
      × (closings ((session_run ended id room hub presence os).1) ≤ 1)
      × (drops ((session_run ended id room hub presence os).1)
          ≡ as_number ((session_run ended id room hub presence os).0.over))
unfolding session_run
session_run-IsBounded ended id room hub presence os h =
    let opening = open_session ended id room hub presence in
    let (b, c, d, o) = opened-IsBounded ended id room hub presence h in
    let r = run os opening.0 in
    let (b', e') = Keeps-run os opening.0 b in
    (
      b',
      omega (arith, closings-append opening.1 r.2, c, e'.closes, at_most_one r.1.ended),
      omega (arith, drops-append opening.1 r.2, d, e'.drops_once, ap as_number o),
    )
  where
    at_most_one : (b : Bool) → as_number b ≤ 1
    at_most_one true = omega arith
    at_most_one false = omega arith
