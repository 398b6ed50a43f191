-- ===== src/Team/Presence/Leaving.antt =====
-- `retire`, `withdraw` and `dropConnection` keep what holds of the installations and of the rooms.
use narra_leaf_team.Common.{
  ◌≡◌, ◌∙◌, ◌⊎◌, inl, inr, true, false, none, some, arith, Text, text_eq_iff, text_eq_refl, List,
  [], ◌∷◌, Option-cases,
}
use narra_leaf_team.Data.Map
use narra_leaf_team.Data.Map.{Map}
use narra_leaf_team.Data.TextSet
use narra_leaf_team.Team.Presence.State.{InstanceEntry, TeamClientInstance, LiveEntry, TeamPresence}
use narra_leaf_team.Team.Presence.Instances.{
  clear_rooms, retire, withdraw, held_by, instance_on, find_on, let_go,
}
use narra_leaf_team.Team.Presence.Evolution.{RoomOk, Evolves}
use narra_leaf_team.Team.Presence.RoomSteps.{IsKeyed}
use narra_leaf_team.Team.Presence.Registry.{AllRooms, Evolves-AllRooms}
use narra_leaf_team.Team.Presence.Departure.{
  clear_rooms-Evolves, clear_rooms-SameInstances, clear_rooms-IsClear_after, IsClear,
}
use narra_leaf_team.Team.Presence.Holding.{Holds}

-- The state in which `retire` walks the rooms.
abbrev gone : Text → TeamPresence → TeamPresence
gone id p = record p { instances = Map.delete id p.instances }

-- Retiring an announced installation: what is left of the state.
pub record Retired (id : Text) (p q : TeamPresence) : Type 0 where
  pub instances_left : (j : Text) → Map.get j q.instances ≡ Map.get j (Map.delete id p.instances)
  pub connections_left : q.by_connection ≡ p.by_connection
  pub rooms_left : Evolves p.instances p.sessions q.sessions
  pub rooms_clear : (k : Text) → IsClear id q.sessions k

retire-some :
    (id : Text) (e : InstanceEntry) (p : TeamPresence)
    → Map.get id p.instances ≡ some e
    → let q = clear_rooms id (Map.keys p.sessions) (gone id p) in
      ((retire id p).instances ≡ q.instances)
      × ((retire id p).by_connection ≡ q.by_connection)
      × ((retire id p).sessions ≡ q.sessions)
unfolding retire
retire-some id e p f = ground arith

pub retire-Retired :
    (id : Text) (e : InstanceEntry) (p : TeamPresence)
    → IsKeyed p.sessions
    → Map.get id p.instances ≡ some e
    → Retired id p (retire id p)
retire-Retired id e p h f =
    let (insts, conns, rooms) = retire-some id e p f in
    let frame = clear_rooms-SameInstances id (Map.keys p.sessions) (gone id p) in
    record {
      instances_left = λ j. ground (arith, frame.same_instances);
      connections_left = conns ∙ frame.same_connections;
      rooms_left =
          rw rooms (clear_rooms-Evolves p.instances id (Map.keys p.sessions) (gone id p) h);
      rooms_clear = λ k s g. clear_rooms-IsClear_after id (gone id p) k h s (ground arith);
    }

-- A room that an installation is not in does without it.
RoomOk-delete :
    (insts insts' : Map InstanceEntry) (id : Text) (s : LiveEntry)
    → ((j : Text) → Map.get j insts' ≡ Map.get j (Map.delete id insts))
    → (Map.has id s.members ≡ false) × (Map.has id s.requests ≡ false)
    → RoomOk insts s
    → RoomOk insts' s
RoomOk-delete insts insts' id s left clear o = record {
  opener_in = o.opener_in;
  opener_account = λ e f.
      o.opener_account e
        (ground (arith, left s.opened_by_instance, Map.get-delete id s.opened_by_instance insts));
  members_here = λ j m f.
      let (e, g, a) = o.members_here j m f in
      (
        e,
        ground (
          arith,
          g,
          left j,
          Map.get-delete id j insts,
          text_eq_iff id j,
          Map.has-get_iff id s.members,
          clear,
        ),
        a,
      );
  requests_here = λ j m f.
      let (e, g, a) = o.requests_here j m f in
      (
        e,
        ground (
          arith,
          g,
          left j,
          Map.get-delete id j insts,
          text_eq_iff id j,
          Map.has-get_iff id s.requests,
          clear,
        ),
        a,
      );
}

pub Retired-AllRooms :
    (id : Text) (p q : TeamPresence)
    → Retired id p q
    → AllRooms p.instances p.sessions
    → AllRooms q.instances q.sessions
Retired-AllRooms id p q r h = λ k s e.
    RoomOk-delete p.instances q.instances id s r.instances_left (r.rooms_clear k s e)
      (Evolves-AllRooms r.rooms_left h k s e)

-- One round of the loop of `instanceOn`.
find_on_step :
    (insts : Map InstanceEntry) (project id : Text) (ids : List Text) (v : TeamClientInstance)
    → find_on insts project (id ∷ ids) ≡ some v
    → (find_on insts project ids ≡ some v)
      ⊎ ((e : InstanceEntry) × (Map.get id insts ≡ some e)
          × (e.instance_ ≡ v)
          × (v.project ≡ some project))
unfolding find_on
find_on_step insts project id ids v h = elim (Option-cases (Map.get id insts)) [
  | inl e ↦ ground arith
  | inr (entry, e) ↦ elim (Option-cases entry.instance_.project) [
    | inl none_open ↦ ground arith
    | inr (q, open_one) ↦ ground (arith, text_eq_iff q project)
  ]
]

find_on_lem :
    (insts : Map InstanceEntry) (project : Text) (ids : List Text) (v : TeamClientInstance)
    → find_on insts project ids ≡ some v
    → (i : Text) × (e : InstanceEntry) × (TextSet.has i ids ≡ true)
      × (Map.get i insts ≡ some e)
      × (e.instance_ ≡ v)
      × (v.project ≡ some project)
unfolding TextSet.has
find_on_lem insts project [] v h = absurd (unfold find_on in ground arith)
find_on_lem insts project (id ∷ ids) v h = elim (find_on_step insts project id ids v h) [
  | inl later ↦
      let (i, e, a, b, c, d) = find_on_lem insts project ids v later in
      (i, e, ground (arith, a), b, c, d)
  | inr (e, b, c, d) ↦ (id, e, ground (arith, text_eq_refl id), b, c, d)
]

-- Where the maps are in step, what `instanceOn` answers is announced, held by the connection, and has
-- the project open.
pub instance_on_lem :
    (connection project : Text) (p : TeamPresence) (v : TeamClientInstance)
    → Holds p
    → instance_on connection project p ≡ some v
    → (e : InstanceEntry) × (Map.get v.id p.instances ≡ some e)
      × (e.instance_ ≡ v)
      × (e.connection ≡ connection)
      × (v.project ≡ some project)
unfolding instance_on
instance_on_lem connection project p v o h =
    let (i, e, a, b, c, d) = find_on_lem p.instances project (held_by connection p) v h in
    let named = o.entry_id i e b in
    let (e', b', held) = o.held_here connection i a in
    (e, ground (arith, b, c, named), c, ground (arith, b, b', held), d)

pub withdraw-some :
    (connection project : Text) (p : TeamPresence) (v : TeamClientInstance)
    → instance_on connection project p ≡ some v
    → withdraw connection project p
      ≡ retire v.id (record p { by_connection = let_go connection v.id p.by_connection })
unfolding withdraw
withdraw-some connection project p v h = ground arith

pub withdraw-none :
    (connection project : Text) (p : TeamPresence)
    → instance_on connection project p ≡ none
    → withdraw connection project p ≡ p
unfolding withdraw
withdraw-none connection project p h = ground arith
