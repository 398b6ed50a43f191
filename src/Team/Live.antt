-- ===== src/Team/Live.antt =====
-- src/team/methods/live.ts and src/team/methods/clients.ts: what a call does with the presence, after
-- its parameters have been read as texts. `done` carries the state that the call leaves; a refusal
-- leaves the state as it was.
pub mod Inversion
pub mod Validity
pub mod Histories
pub mod Waiting
pub mod Access
use narra_leaf_team.Common.{
  ℕ, ◌*◌, Bool, true, false, not, Option, none, some, List, [], ◌∷◌, ltb, Text, if◌then◌else◌,
  length, is_some,
}
use narra_leaf_team.Data.Map
use narra_leaf_team.Team.Presence.State.{
  TeamClientInstance, InstanceAnnouncement, TeamLiveJoinRule, TeamLiveSession, TeamLiveMessage,
  TeamPresence, PresenceError, no_such_live_session, live_join_needs_asking, wrong_live_code,
  too_many_live_sessions, too_many_instances, instance_taken, Result, ok, err, out_of_draws,
}
use narra_leaf_team.Team.Presence.Rooms
use narra_leaf_team.Team.Presence.Rooms.{OpenInput}
use narra_leaf_team.Team.Presence.Instances
use mathlib.Core.Option

-- The codes of the refusals that these methods make.
pub data TeamErrorCode : Type 0 where
  unknown_method bad_params not_found refused conflict unavailable unauthenticated internal :
      TeamErrorCode

-- `no_draw` is no outcome of the program: see `out_of_draws`.
pub data Reply {ℓ} (A : Type ℓ) : Type ℓ where
  done : A → TeamPresence → Reply A
  failed : TeamErrorCode → Reply A
  no_draw : Reply A

infixl 5 ◌>>=◌
abbrev pub ◌>>=◌ {ℓ κ} : {A : Type ℓ} {B : Type κ} → Reply A → (A → Reply B) → Reply B
done a p >>= f = f a
failed c >>= f = failed c
no_draw >>= f = no_draw

-- `translate`: an error of the presence that is no refusal of these methods becomes `internal` where
-- the session answers the call.
abbrev pub translate : PresenceError → TeamErrorCode
translate no_such_live_session = not_found
translate wrong_live_code = refused
translate live_join_needs_asking = refused
translate too_many_live_sessions = refused
translate too_many_instances = internal
translate instance_taken = internal

abbrev pub settle {ℓ} : {A : Type ℓ} → Result (A × TeamPresence) → Reply A
settle (ok (a, p)) = done a p
settle (err e) = failed (translate e)
settle out_of_draws = no_draw

-- `callingInstance`, and `room` and `byCode`.
unfoldable pub calling_instance : Text → Text → TeamPresence → Reply TeamClientInstance
unfolding Instances.instance_on
calling_instance connection project p = elim (Instances.instance_on connection project p) [
  | none ↦ failed refused
  | some inst ↦ done inst p
]

unfoldable pub room : Text → TeamPresence → Reply TeamLiveSession
unfolding Rooms.live_session
room id p = elim (Rooms.live_session id p) [
  | none ↦ failed not_found
  | some session ↦ done session p
]

unfoldable pub by_code : Text → TeamPresence → Reply Text
unfolding Rooms.live_by_code
by_code code p = elim (Rooms.live_by_code code p) [
  | none ↦ failed not_found
  | some session ↦ done session.id p
]

-- `is_project` is the question to the registry of projects.
unfoldable pub live_list : (Text → Bool) → Text → Text → TeamPresence → Reply (List TeamLiveSession)
live_list is_project connection project p =
    if not (is_project project)
    then failed not_found
    else done
        (Rooms.live project
          (Option.map (λ (i : TeamClientInstance). i.id)
            (Instances.instance_on connection project p))
          p)
        p

abbrev pub opened : Result (TeamLiveSession × Text × TeamPresence) → Reply (TeamLiveSession × Text)
opened (ok (v, code, p)) = done (v, code) p
opened (err e) = failed (translate e)
opened out_of_draws = no_draw

unfoldable pub live_open :
    (Text → Bool)
    → ℕ
    → Text
    → List ℕ
    → Text
    → OpenInput
    → TeamPresence
    → Reply (TeamLiveSession × Text)
unfolding calling_instance
live_open is_project now uuid draws connection input p =
    if not (is_project input.project) then failed not_found else do
      inst ← calling_instance connection input.project p
      opened (Rooms.open_room now uuid draws inst input p)

unfoldable pub join_named : ℕ → Text → Option Text → TeamPresence → Text → Reply TeamLiveSession
unfolding calling_instance room
join_named now connection code p id = do
  seen ← room id p
  inst ← calling_instance connection seen.project p
  settle (Rooms.join now inst id code p)

-- The room is named by its code, where one is given, and by its id otherwise.
unfoldable pub live_join : ℕ → Text → Text → Option Text → TeamPresence → Reply TeamLiveSession
unfolding by_code join_named
live_join now connection session code p =
    elim code [ none ↦ done session p | some c ↦ by_code c p ] >>= join_named now connection code p

-- `live.byCode` resolves no caller: it answers whoever was read the code.
unfoldable pub live_by_code : Text → TeamPresence → Reply TeamLiveSession
live_by_code code p = elim (Rooms.live_by_code code p) [
  | none ↦ failed not_found
  | some session ↦ done session p
]

-- An answer of false is a refusal: the room belongs to whoever opened it.
abbrev pub owned : Result (Bool × TeamPresence) → Reply (Unit {0})
owned (ok (true, p)) = done tt p
owned (ok (false, p)) = failed refused
owned (err e) = failed (translate e)
owned out_of_draws = no_draw

unfoldable pub live_rule : Text → Text → TeamLiveJoinRule → TeamPresence → Reply (Unit {0})
unfolding calling_instance room
live_rule connection id rule p = do
  seen ← room id p
  inst ← calling_instance connection seen.project p
  owned (Rooms.set_rule inst.id id rule p)

unfoldable pub live_request_join : ℕ → Text → Text → TeamPresence → Reply TeamLiveSession
unfolding calling_instance room
live_request_join now connection id p = do
  seen ← room id p
  inst ← calling_instance connection seen.project p
  settle (Rooms.request now inst id p)

unfoldable pub live_answer_join : ℕ → Text → Text → Text → Bool → TeamPresence → Reply (Unit {0})
unfolding calling_instance room
live_answer_join now connection id asked admit p = do
  seen ← room id p
  inst ← calling_instance connection seen.project p
  owned (Rooms.answer now inst.id id asked admit p)

unfoldable pub live_leave : Text → Text → TeamPresence → Reply (Unit {0})
live_leave connection id p = elim (Rooms.live_session id p) [
  | none ↦ done tt p
  | some seen ↦ elim (Instances.instance_on connection seen.project p) [
    | none ↦ done tt p
    | some inst ↦ done tt (Rooms.leave inst.id id p)
  ]
]

unfoldable pub live_close : Text → Text → TeamPresence → Reply (Unit {0})
unfolding calling_instance room
live_close connection id p = do
  seen ← room id p
  inst ← calling_instance connection seen.project p
  owned (Rooms.close inst.id id p)

abbrev live_payload_limit : ℕ
live_payload_limit = 16 * 1024

-- The payload is `none` where the call names none, and otherwise the bytes of its JSON.
unfoldable pub payload_of : Option (List ℕ) → TeamPresence → Reply (List ℕ)
payload_of none p = failed bad_params
payload_of (some encoded) p =
    if ltb live_payload_limit (length encoded) then failed bad_params else done encoded p

unfoldable pub live_say : ℕ → Text → Text → Option (List ℕ) → TeamPresence → Reply (Unit {0})
unfolding calling_instance room payload_of
live_say now connection id payload p = do
  seen ← room id p
  inst ← calling_instance connection seen.project p
  if not (Rooms.is_member id inst.id p) then failed refused else do
    encoded ← payload_of payload p
    done tt (
        Rooms.say id
          (record {
            session = id;
            sender = inst.id;
            account = inst.account;
            at = now;
            payload = encoded;
          })
          p)

-- A collision of ids is a conflict and not a want of authority.
unfoldable pub clients_announce :
    (Text → Bool) → ℕ → Text → Text → InstanceAnnouncement → TeamPresence → Reply TeamClientInstance
clients_announce is_project now connection account what p =
    if elim what.project [ none ↦ false | some q ↦ not (is_project q) ]
    then failed not_found
    else elim (Instances.announce now connection account what p) [
      | ok (v, q) ↦ done v q
      | err too_many_instances ↦ failed refused
      | err instance_taken ↦ failed conflict
      | err _ ↦ failed internal
      | out_of_draws ↦ no_draw
    ]

unfoldable pub clients_withdraw : Text → Text → TeamPresence → Reply (Unit {0})
clients_withdraw connection project p = done tt (Instances.withdraw connection project p)

unfoldable pub clients_list : Option Text → TeamPresence → List TeamClientInstance
clients_list project p = Instances.clients project p
