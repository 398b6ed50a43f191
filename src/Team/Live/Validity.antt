-- ===== src/Team/Live/Validity.antt =====
-- What holds of the presence between two calls, and how each kind of change keeps it.
use narra_leaf_team.Common.{
  ℕ, ◌<◌, ◌≡◌, refl, sym, subst, false, none, some, List, arith, Text, text_eq_iff, inl, inr,
}
use narra_leaf_team.Data.Map
use narra_leaf_team.Data.Map.{Map}
use narra_leaf_team.Data.TextSet
use narra_leaf_team.Team.Presence.State.{
  TeamClientInstance, InstanceAnnouncement, InstanceEntry, TeamLiveSession, TeamLiveMessage,
  LiveEntry, TeamPresence, ok, member_of, live_session_limit,
}
use narra_leaf_team.Team.Presence.Rooms
use narra_leaf_team.Team.Presence.Rooms.{OpenInput, opened_entry, count_open, taken_codes}
use narra_leaf_team.Team.Presence.Instances.{announce, instance_on, held_by}
use narra_leaf_team.Team.Presence.Evolution.{IsHere, RoomOk, Evolves, stays, get-set_cases}
use narra_leaf_team.Team.Presence.Changes.{SameInstances}
use narra_leaf_team.Team.Presence.RoomSteps.{IsKeyed}
use narra_leaf_team.Team.Presence.Registry.{
  AllRooms, CodesDiffer, IsBounded, Evolves-AllRooms, Evolves-Steady, count_open-set_new,
}
use narra_leaf_team.Team.Presence.Codes.{open_room_cases, opened-RoomOk, taken_codes-has}
use narra_leaf_team.Team.Presence.Holding.{Holds, announce_cases, announce-Holds, announce-AllRooms}
use narra_leaf_team.Team.Presence.Leaving.{instance_on_lem}
use narra_leaf_team.Team.Presence.Closing.{InOrder, Withdrawn}
use narra_leaf_team.Team.Live.Inversion.{Caller}

-- What holds of the presence between two calls.
pub record IsValid (p : TeamPresence) : Type 0 where
  pub holds : Holds p
  pub in_order : InOrder p
  pub codes_differ : CodesDiffer p.sessions
  pub bounded : IsBounded p.sessions

-- Other rooms over the same installations.
other_rooms :
    (p q : TeamPresence)
    → SameInstances p q
    → IsKeyed q.sessions
    → AllRooms p.instances q.sessions
    → CodesDiffer q.sessions
    → IsBounded q.sessions
    → IsValid p
    → IsValid q
unfolding held_by
other_rooms p q f keyed rooms codes bounds v = record {
  holds = record {
    held_here = λ c i h.
        let (x, g, a) = v.holds.held_here c i (ground (arith, f.same_connections)) in
        (x, ground (arith, g, f.same_instances), a);
    here_held =
        λ i x g. ground (arith, v.holds.here_held i x, f.same_connections, f.same_instances);
    entry_id = λ i x g. v.holds.entry_id i x (ground (arith, f.same_instances));
    held_bound = λ c. ground (arith, v.holds.held_bound c, f.same_connections);
  };
  in_order = record {
    in_keyed = keyed;
    in_rooms = subst (λ m. AllRooms m q.sessions) (sym f.same_instances) rooms;
  };
  codes_differ = codes;
  bounded = bounds;
}

-- A change of rooms in steps, with the installations left alone.
pub evolved :
    (p q : TeamPresence)
    → SameInstances p q
    → Evolves p.instances p.sessions q.sessions
    → IsValid p
    → IsValid q
evolved p q f e v =
    other_rooms p q f ((Evolves-Steady e).keyed_still v.in_order.in_keyed)
      (Evolves-AllRooms e v.in_order.in_rooms) ((Evolves-Steady e).codes_still v.codes_differ)
      ((Evolves-Steady e).bounded_still v.bounded) v

pub withdrawn : (p q : TeamPresence) → Withdrawn p q → IsValid p → IsValid q
withdrawn p q w v = record {
  holds = w.still_holds;
  in_order = w.still_in_order;
  codes_differ = w.still_steady.codes_still v.codes_differ;
  bounded = w.still_steady.bounded_still v.bounded;
}

-- The installation that a call is made by is here, whenever the call is made.
pub caller-IsHere :
    (now : ℕ) (connection project : Text) (p : TeamPresence) (i : TeamClientInstance)
    → Holds p
    → instance_on connection project p ≡ some i
    → IsHere p.instances i.id (member_of i now)
unfolding member_of
caller-IsHere now connection project p i o h =
    let (e, g, same, c, d) = instance_on_lem connection project p i o h in
    (e, g, ground (arith, same))

pub announced-IsValid :
    (now : ℕ) (connection account : Text) (what : InstanceAnnouncement) (p : TeamPresence)
    (v : TeamClientInstance) (q : TeamPresence)
    → announce now connection account what p ≡ ok (v, q)
    → IsValid p
    → IsValid q
announced-IsValid now connection account what p v q h o =
    let rooms = (announce_cases now connection account what p h).3 in
    record {
      holds = announce-Holds now connection account what p h o.holds;
      in_order = record {
        in_keyed = subst IsKeyed (sym rooms) o.in_order.in_keyed;
        in_rooms = announce-AllRooms now connection account what p h o.in_order.in_rooms;
      };
      codes_differ = subst CodesDiffer (sym rooms) o.codes_differ;
      bounded = subst IsBounded (sym rooms) o.bounded;
    }

-- A new room under a new id, with a code that no room has, in a project that has room for it.
opened-CodesDiffer :
    (m : Map LiveEntry) (k : Text) (s : LiveEntry)
    → TextSet.has s.code (taken_codes (Map.values m)) ≡ false
    → CodesDiffer m
    → CodesDiffer (Map.set k s m)
opened-CodesDiffer m k s free h i j u v f g c = elim (get-set_cases k i s u m f) [
  | inl (ki, su) ↦ elim (get-set_cases k j s v m g) [
    | inl (kj, sv) ↦ cc
    | inr old ↦ absurd (ground (arith, taken_codes-has m j v old))
  ]
  | inr old ↦ elim (get-set_cases k j s v m g) [
    | inl (kj, sv) ↦ absurd (ground (arith, taken_codes-has m i u old))
    | inr old' ↦ h i j u v old old' c
  ]
]

opened-IsBounded :
    (m : Map LiveEntry) (k : Text) (s : LiveEntry)
    → Map.get k m ≡ none
    → count_open s.project (Map.values m) < live_session_limit
    → IsBounded m
    → IsBounded (Map.set k s m)
opened-IsBounded m k s new room h q =
    ground (arith, count_open-set_new q k s m new, h q, text_eq_iff s.project q)

added-IsKeyed :
    (m : Map LiveEntry) (k : Text) (s : LiveEntry) → s.id ≡ k → IsKeyed m → IsKeyed (Map.set k s m)
added-IsKeyed m k s e h j t f = elim (get-set_cases k j s t m f) [
  | inl (kj, st) ↦ ground arith
  | inr old ↦ h j t old
]

added_rooms :
    (insts : Map InstanceEntry) (m : Map LiveEntry) (k : Text) (s : LiveEntry)
    → RoomOk insts s
    → AllRooms insts m
    → AllRooms insts (Map.set k s m)
added_rooms insts m k s o h j t f = elim (get-set_cases k j s t m f) [
  | inl (kj, st) ↦ subst (RoomOk insts) st o
  | inr old ↦ h j t old
]

pub caller :
    (now : ℕ) (connection : Text) (p : TeamPresence) (i : TeamClientInstance)
    → Holds p
    → Caller connection p i
    → IsHere p.instances i.id (member_of i now)
caller now connection p i o (project, h) = caller-IsHere now connection project p i o h

pub room_opened-IsValid :
    (now : ℕ) (uuid : Text) (draws : List ℕ) (i : TeamClientInstance) (input : OpenInput)
    (p : TeamPresence) (v : TeamLiveSession) (c : Text) (q : TeamPresence)
    → Map.get uuid p.sessions ≡ none
    → IsHere p.instances i.id (member_of i now)
    → Rooms.open_room now uuid draws i input p ≡ ok (v, c, q)
    → IsValid p
    → IsValid q
room_opened-IsValid now uuid draws i input p v c q new here h o =
    let (same, rooms, free, few) = open_room_cases now uuid draws i input p h in
    let s = opened_entry now uuid c i input in
    other_rooms p q same
      (subst IsKeyed (sym rooms)
        (added-IsKeyed p.sessions uuid s (unfold opened_entry in refl) o.in_order.in_keyed))
      (subst (AllRooms p.instances) (sym rooms) (
        added_rooms p.instances p.sessions uuid s
          (opened-RoomOk p.instances now uuid c i input here) o.in_order.in_rooms))
      (subst CodesDiffer (sym rooms)
        (opened-CodesDiffer p.sessions uuid s (unfold opened_entry in free) o.codes_differ))
      (subst IsBounded (sym rooms)
        (opened-IsBounded p.sessions uuid s new (unfold opened_entry in few) o.bounded))
      o

pub said-IsValid :
    (id : Text) (m : TeamLiveMessage) (p : TeamPresence) → IsValid p → IsValid (Rooms.say id m p)
unfolding Rooms.say
said-IsValid id m p o =
    evolved p (Rooms.say id m p) (record { same_instances = refl; same_connections = refl }) stays o
