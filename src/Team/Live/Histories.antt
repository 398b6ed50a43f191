-- ===== src/Team/Live/Histories.antt =====
-- Every history of calls and of closing connections, and what holds after each.
use narra_leaf_team.Common.{ℕ, ◌≡◌, sym, subst, Bool, Option, none, List, arith, Text, inl, inr}
use narra_leaf_team.Data.Map
use narra_leaf_team.Data.Map.{Map}
use narra_leaf_team.Data.TextSet
use narra_leaf_team.Team.Presence.State.{
  TeamClientInstance, InstanceAnnouncement, TeamLiveJoinRule, TeamLiveSession, TeamPresence, empty,
}
use narra_leaf_team.Team.Presence.Rooms
use narra_leaf_team.Team.Presence.Rooms.{OpenInput, opened_entry, count_open, taken_codes}
use narra_leaf_team.Team.Presence.Instances.{drop_connection, held_by}
use narra_leaf_team.Team.Presence.Changes
use narra_leaf_team.Team.Presence.Changes.{SameInstances}
use narra_leaf_team.Team.Presence.RoomSteps
use narra_leaf_team.Team.Presence.RoomSteps.{IsKeyed}
use narra_leaf_team.Team.Presence.Closing.{Withdrawn, withdraw-Withdrawn, drop_connection-Withdrawn}
use narra_leaf_team.Team.Live.Inversion.{
  live_join_ran, live_rule_ran, live_request_join_ran, live_answer_join_ran, live_close_ran,
  live_leave_ran, live_say_ran, live_open_ran, clients_announce_ran,
}
use narra_leaf_team.Team.Live.{
  done, live_open, live_join, live_rule, live_request_join, live_answer_join, live_leave,
  live_close, live_say, clients_announce, clients_withdraw,
}
use narra_leaf_team.Team.Live.Validity.{
  IsValid, evolved, withdrawn, caller-IsHere, announced-IsValid, caller, room_opened-IsValid,
  said-IsValid,
}

-- One call that is answered, or a connection closing. The id of a new room is one that no room has:
-- it is a random UUID.
pub data Step (is_project : Text → Bool) (p q : TeamPresence) : Type 0 where
  announces :
      (now : ℕ) (connection account : Text) (what : InstanceAnnouncement) (v : TeamClientInstance)
      → clients_announce is_project now connection account what p ≡ done v q
      → Step is_project p q
  withdraws :
      (connection project : Text)
      → clients_withdraw connection project p ≡ done tt q
      → Step is_project p q
  drops : (connection : Text) → drop_connection connection p ≡ q → Step is_project p q
  opens :
      (now : ℕ) (uuid : Text) (draws : List ℕ) (connection : Text) (input : OpenInput)
      (v : TeamLiveSession × Text)
      → Map.get uuid p.sessions ≡ none
      → live_open is_project now uuid draws connection input p ≡ done v q
      → Step is_project p q
  joins :
      (now : ℕ) (connection session : Text) (code : Option Text) (v : TeamLiveSession)
      → live_join now connection session code p ≡ done v q
      → Step is_project p q
  rules :
      (connection id : Text) (rule : TeamLiveJoinRule)
      → live_rule connection id rule p ≡ done tt q
      → Step is_project p q
  requests :
      (now : ℕ) (connection id : Text) (v : TeamLiveSession)
      → live_request_join now connection id p ≡ done v q
      → Step is_project p q
  answers :
      (now : ℕ) (connection id asked : Text) (admit : Bool)
      → live_answer_join now connection id asked admit p ≡ done tt q
      → Step is_project p q
  leaves : (connection id : Text) → live_leave connection id p ≡ done tt q → Step is_project p q
  closes : (connection id : Text) → live_close connection id p ≡ done tt q → Step is_project p q
  says :
      (now : ℕ) (connection id : Text) (payload : Option (List ℕ))
      → live_say now connection id payload p ≡ done tt q
      → Step is_project p q

pub data Reach (is_project : Text → Bool) (p : TeamPresence) : TeamPresence → Type 0 where
  begins : Reach is_project p p
  next : {q r : TeamPresence} → Reach is_project p q → Step is_project q r → Reach is_project p r

-- Every answered call and every closing connection keeps what holds of the presence: the maps of
-- connections and installations are in step, every room has its opener in it and names announced
-- installations under their own accounts, no two rooms have one code, and no project has more rooms
-- than the limit.
pub Step-IsValid :
    (is_project : Text → Bool) (p q : TeamPresence) → Step is_project p q → IsValid p → IsValid q
Step-IsValid is_project p q (announces now c account what v h) o =
    announced-IsValid now c account what p v q
      (clients_announce_ran is_project now c account what p h) o
Step-IsValid is_project p q (withdraws c project h) o =
    withdrawn p q
      (unfold clients_withdraw in
        subst (Withdrawn p) (ground arith) (withdraw-Withdrawn c project p o.holds o.in_order))
      o
Step-IsValid is_project p q (drops c h) o =
    withdrawn p q (subst (Withdrawn p) h (drop_connection-Withdrawn c p o.holds o.in_order)) o
Step-IsValid is_project p q (opens now uuid draws c input v new h) o =
    let (there, i, on, ran) = live_open_ran is_project now uuid draws c input p v h in
    room_opened-IsValid now uuid draws i input p v.0 v.1 q new
      (caller-IsHere now c input.project p i o.holds on) ran o
Step-IsValid is_project p q (joins now c session code v h) o =
    let (id, i, called, ran) = live_join_ran now c session code p h in
    evolved p q (Changes.join_cases now i id code p ran).0
      (RoomSteps.join-Evolves now i id code p o.in_order.in_keyed (caller now c p i o.holds called)
        ran)
      o
Step-IsValid is_project p q (rules c id rule h) o =
    let (i, called, ran) = live_rule_ran c id rule p h in
    evolved p q (Changes.set_rule_cases i.id id rule p ran).0
      (RoomSteps.set_rule-Evolves i.id id rule p o.in_order.in_keyed ran) o
Step-IsValid is_project p q (requests now c id v h) o =
    let (i, called, ran) = live_request_join_ran now c id p h in
    evolved p q (Changes.request_cases now i id p ran).0
      (RoomSteps.request-Evolves now i id p o.in_order.in_keyed (caller now c p i o.holds called)
        ran)
      o
Step-IsValid is_project p q (answers now c id asked admit h) o =
    let (i, called, ran) = live_answer_join_ran now c id asked admit p h in
    evolved p q (Changes.answer_cases now i.id id asked admit p ran).0
      (RoomSteps.answer-Evolves now i.id id asked admit p o.in_order.in_keyed ran) o
Step-IsValid is_project p q (leaves c id h) o = elim (live_leave_ran c id p h) [
  | inl same ↦ subst IsValid (sym same) o
  | inr (i, ran) ↦ subst IsValid (sym ran) (
      evolved p (Rooms.leave i.id id p) (Changes.leave_cases i.id id p).0
        (RoomSteps.leave-Evolves i.id id p o.in_order.in_keyed) o)
]
Step-IsValid is_project p q (closes c id h) o =
    let (i, called, ran) = live_close_ran c id p h in
    evolved p q (Changes.close_cases i.id id p ran).0 (RoomSteps.close-Evolves i.id id p ran) o
Step-IsValid is_project p q (says now c id payload h) o =
    let (i, called, encoded, e, few, held, ran) = live_say_ran now c id payload p h in
    subst IsValid (sym ran) (said-IsValid id _ p o)

empty-IsValid : IsValid empty
unfolding empty held_by count_open Map.get TextSet.has
empty-IsValid = record {
  holds = record {
    held_here = λ c i h. absurd (ground arith);
    here_held = λ i e h. absurd (ground arith);
    entry_id = λ i e h. absurd (ground arith);
    held_bound = λ c. omega arith;
  };
  in_order = record {
    in_keyed = λ k s h. absurd (ground arith);
    in_rooms = λ k s h. absurd (ground arith);
  };
  codes_differ = λ j k s t h. absurd (ground arith);
  bounded = λ q. omega arith;
}

-- After any history of answered calls and closing connections, on a server that starts with nobody
-- connected, the presence is valid: what `Step-IsValid` keeps holds of it.
pub Reach-IsValid :
    (is_project : Text → Bool) {p : TeamPresence} → Reach is_project empty p → IsValid p
Reach-IsValid is_project begins = empty-IsValid
Reach-IsValid is_project (next {q = q} {r = r} h s) =
    Step-IsValid is_project q r s (Reach-IsValid is_project h)
