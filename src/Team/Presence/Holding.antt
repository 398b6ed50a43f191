-- ===== src/Team/Presence/Holding.antt =====
-- Which connection holds which installation, and that announcing keeps the two maps in step.
use narra_leaf_team.Common.{
  ℕ, ◌≤◌, ◌<◌, ◌≡◌, refl, ◌∙◌, ◌⊎◌, inl, inr, Bool, true, false, not, ◌&&◌, ◌||◌, Option, none,
  some, arith, Text, text_eq, text_eq_iff, text_eq_cases, [], if◌then◌else◌, Option-cases,
}
use narra_leaf_team.Data.Map
use narra_leaf_team.Data.Map.{Map}
use narra_leaf_team.Data.TextSet
use narra_leaf_team.Data.TextSet.{TextSet}
use narra_leaf_team.Team.Presence.State.{
  InstanceEntry, InstanceAnnouncement, TeamClientInstance, LiveEntry, TeamLiveMember, TeamPresence,
  ok, instances_per_connection,
}
use narra_leaf_team.Team.Presence.Instances.{announce, announced, moved, let_go, held_by, is_taken}
use narra_leaf_team.Team.Presence.Evolution.{IsHere, RoomOk}
use narra_leaf_team.Team.Presence.Registry.{AllRooms}
use mathlib.Core.Option

-- The ids of the map of connections and the entries of the map of instances name each other, within
-- the limit of a connection.
pub record Holds (p : TeamPresence) : Type 0 where
  pub held_here :
      (c i : Text)
      → TextSet.has i (held_by c p) ≡ true
      → (e : InstanceEntry) × (Map.get i p.instances ≡ some e) × (e.connection ≡ c)
  pub here_held :
      (i : Text) (e : InstanceEntry)
      → Map.get i p.instances ≡ some e
      → TextSet.has i (held_by e.connection p) ≡ true
  pub entry_id :
      (i : Text) (e : InstanceEntry) → Map.get i p.instances ≡ some e → e.instance_.id ≡ i
  pub held_bound : (c : Text) → TextSet.size (held_by c p) ≤ instances_per_connection

pub announce_cases :
    (now : ℕ) (connection account : Text) (what : InstanceAnnouncement) (p : TeamPresence)
    {v : TeamClientInstance} {q : TeamPresence}
    → announce now connection account what p ≡ ok (v, q)
    → (v ≡ announced now connection account what (Map.get what.id p.instances))
      × (q.instances
          ≡ Map.set what.id (record { connection = connection; instance_ = v }) p.instances)
      × (q.by_connection
          ≡ Map.set connection
              (TextSet.add what.id (held_by connection p))
              (moved (Map.get what.id p.instances) connection what.id p.by_connection))
      × (q.sessions ≡ p.sessions)
      × (is_taken (Map.get what.id p.instances) account ≡ false)
      × ((TextSet.has what.id (held_by connection p) ≡ true)
          ⊎ (TextSet.size (held_by connection p) < instances_per_connection))
unfolding announce
announce_cases now connection account what p h = ground arith

-- What a connection holds in a map of connections.
abbrev pub held_in : Text → Map TextSet → TextSet
held_in c m = Option.get_or (Map.get c m) []

pub held_in-let_go :
    (c j k id : Text) (m : Map TextSet)
    → TextSet.has j (held_in c (let_go k id m))
      ≡ (not (text_eq k c && text_eq id j) && TextSet.has j (held_in c m))
unfolding let_go TextSet.has
held_in-let_go c j k id m = elim (Option-cases (Map.get k m)) [
  | inl e ↦ ground (arith, text_eq_iff k c)
  | inr (held, e) ↦ ground (
    arith,
    Map.get-set k c (TextSet.delete id held) m,
    text_eq_iff k c,
    TextSet.has-delete id j held,
  )
]

pub size-let_go :
    (c k id : Text) (m : Map TextSet)
    → TextSet.size (held_in c (let_go k id m)) ≤ TextSet.size (held_in c m)
unfolding let_go
size-let_go c k id m = elim (Option-cases (Map.get k m)) [
  | inl e ↦ ground arith
  | inr (held, e) ↦ ground (
    arith,
    Map.get-set k c (TextSet.delete id held) m,
    text_eq_iff k c,
    TextSet.size-delete-le id held,
  )
]

-- The map of connections that `announce` writes.
abbrev holding : Option InstanceEntry → Text → Text → Map TextSet → Map TextSet
holding previous connection id m =
    Map.set connection (TextSet.add id (held_in connection m)) (moved previous connection id m)

abbrev releases : Option InstanceEntry → Text → Text → Bool
releases none connection c = false
releases (some e) connection c = not (text_eq e.connection connection) && text_eq e.connection c

-- What a connection holds afterwards: the announcing one holds the id too, and the one that held it
-- before does not.
held_in-holding :
    (previous : Option InstanceEntry) (connection id c j : Text) (m : Map TextSet)
    → TextSet.has j (held_in c (holding previous connection id m)) ≡ (
        if text_eq connection c
        then text_eq id j || TextSet.has j (held_in c m)
        else not (releases previous connection c && text_eq id j) && TextSet.has j (held_in c m))
unfolding moved
held_in-holding none connection id c j m = ground (
  arith,
  Map.get-set connection c (TextSet.add id (held_in connection m)) m,
  text_eq_iff connection c,
  TextSet.has-add id j (held_in connection m),
)
held_in-holding (some e) connection id c j m = ground (
  arith,
  Map.get-set connection c (TextSet.add id (held_in connection m)) (moved (some e) connection id m),
  text_eq_iff connection c,
  TextSet.has-add id j (held_in connection m),
  held_in-let_go c j e.connection id m,
)

size-holding :
    (previous : Option InstanceEntry) (connection id c : Text) (m : Map TextSet)
    → (TextSet.has id (held_in connection m) ≡ true)
      ⊎ (TextSet.size (held_in connection m) < instances_per_connection)
    → ((d : Text) → TextSet.size (held_in d m) ≤ instances_per_connection)
    → TextSet.size (held_in c (holding previous connection id m)) ≤ instances_per_connection
unfolding moved
size-holding none connection id c m room bound = ground (
  arith,
  Map.get-set connection c (TextSet.add id (held_in connection m)) m,
  bound c,
  bound connection,
  TextSet.size-add id (held_in connection m),
  TextSet.size-add-le id (held_in connection m),
)
size-holding (some e) connection id c m room bound = ground (
  arith,
  Map.get-set connection c (TextSet.add id (held_in connection m)) (moved (some e) connection id m),
  bound c,
  bound connection,
  TextSet.size-add id (held_in connection m),
  TextSet.size-add-le id (held_in connection m),
  size-let_go c e.connection id m,
)

-- Only the announcing connection holds the id afterwards.
announcing :
    (previous : Option InstanceEntry) (entry : InstanceEntry) (p : TeamPresence) (c id j : Text)
    → previous ≡ Map.get id p.instances
    → Holds p
    → id ≡ j
    → TextSet.has j (held_in c (holding previous entry.connection id p.by_connection)) ≡ true
    → entry.connection ≡ c
unfolding held_by
announcing previous entry p c id j same o here held =
    let now_held = held_in-holding previous entry.connection id c j p.by_connection in
    elim (text_eq_cases entry.connection c) [
      | inl (e, b) ↦ e
      | inr (other, b) ↦
          let was : TextSet.has j (held_in c p.by_connection) ≡ true = ground (arith, now_held) in
          let old = o.held_here c j was in
          absurd (
            ground (
              arith,
              now_held,
              old.1,
              old.2,
              text_eq_iff id j,
              text_eq_iff c c,
              text_eq_iff c entry.connection,
            ))
    ]

announced_held :
    (previous : Option InstanceEntry) (entry : InstanceEntry) (p q : TeamPresence) (c id j : Text)
    → q.instances ≡ Map.set id entry p.instances
    → q.by_connection ≡ holding previous entry.connection id p.by_connection
    → previous ≡ Map.get id p.instances
    → Holds p
    → TextSet.has j (held_by c q) ≡ true
    → (e : InstanceEntry) × (Map.get j q.instances ≡ some e) × (e.connection ≡ c)
unfolding held_by
announced_held previous entry p q c id j insts conns same o held =
    let now_held = held_in-holding previous entry.connection id c j p.by_connection in
    elim (text_eq_cases id j) [
      | inl (here, b) ↦ (
        entry,
        ground (arith, Map.get-set id j entry p.instances),
        announcing previous entry p c id j same o here (ground arith),
      )
      | inr (other, b) ↦
          let was : TextSet.has j (held_in c p.by_connection) ≡ true = ground (arith, now_held) in
          let old = o.held_here c j was in
          (old.0, ground (arith, Map.get-set id j entry p.instances, old.1), old.2)
    ]

-- Announcing keeps the two maps in step.
pub announce-Holds :
    (now : ℕ) (connection account : Text) (what : InstanceAnnouncement) (p : TeamPresence)
    {v : TeamClientInstance} {q : TeamPresence}
    → announce now connection account what p ≡ ok (v, q)
    → Holds p
    → Holds q
unfolding held_by announced
announce-Holds now connection account what p {v} {q} h o =
    let (same, insts, conns, rooms, mine, room) = announce_cases now connection account what p h in
    let previous = Map.get what.id p.instances in
    let entry : InstanceEntry = record { connection = connection; instance_ = v } in
    record {
      held_here = λ c j held. announced_held previous entry p q c what.id j insts conns refl o held;
      here_held = λ i e f. ground (
        arith,
        Map.get-set what.id i entry p.instances,
        text_eq_iff what.id i,
        text_eq_iff connection e.connection,
        held_in-holding previous connection what.id e.connection i p.by_connection,
        o.here_held i e,
      );
      entry_id = λ i e f.
          ground
            (arith, Map.get-set what.id i entry p.instances, text_eq_iff what.id i, o.entry_id i e);
      held_bound = λ c.
          rw conns (size-holding previous connection what.id c p.by_connection room o.held_bound);
    }

-- An entry that was there is there under the same account.
abbrev Keeps : Map InstanceEntry → Map InstanceEntry → Type 0
Keeps insts insts' =
    (i : Text) (e : InstanceEntry)
    → Map.get i insts ≡ some e
    → (f : InstanceEntry) × (Map.get i insts' ≡ some f)
      × (f.instance_.account ≡ e.instance_.account)

same_account :
    (now : ℕ) (connection account : Text) (what : InstanceAnnouncement) (p : TeamPresence)
    (v : TeamClientInstance) (q : TeamPresence)
    → v ≡ announced now connection account what (Map.get what.id p.instances)
    → q.instances ≡ Map.set what.id (record { connection = connection; instance_ = v }) p.instances
    → is_taken (Map.get what.id p.instances) account ≡ false
    → Keeps p.instances q.instances
unfolding announced
same_account now connection account what p v q same insts mine i e f =
    let entry : InstanceEntry = record { connection = connection; instance_ = v } in
    elim (text_eq_cases what.id i) [
      | inl (here, b) ↦ (
        entry,
        ground (arith, Map.get-set what.id i entry p.instances),
        ground (arith, text_eq_iff e.instance_.account account),
      )
      | inr (other, b) ↦ (e, ground (arith, Map.get-set what.id i entry p.instances), refl)
    ]

kept-IsHere :
    (insts insts' : Map InstanceEntry) (i : Text) (m : TeamLiveMember)
    → Keeps insts insts'
    → IsHere insts i m
    → IsHere insts' i m
kept-IsHere insts insts' i m keep (e, f, a) = let (e', f', a') = keep i e f in (e', f', a' ∙ a)

kept_opener :
    (insts insts' : Map InstanceEntry) (s : LiveEntry)
    → Keeps insts insts'
    → RoomOk insts s
    → (e : InstanceEntry) → Map.get s.opened_by_instance insts' ≡ some e
    → e.instance_.account ≡ s.opened_by
kept_opener insts insts' s keep o e f =
    elim (Option-cases (Map.get s.opened_by_instance s.members)) [
      | inl out ↦
          absurd (ground (arith, Map.has-get_iff s.opened_by_instance s.members, o.opener_in))
      | inr (m, held) ↦
          let (old, g, a) = o.members_here s.opened_by_instance m held in
          let (new, g', a') = keep s.opened_by_instance old g in
          ground (arith, g', a', f, o.opener_account old g)
    ]

kept_room :
    (insts insts' : Map InstanceEntry) (s : LiveEntry)
    → Keeps insts insts'
    → RoomOk insts s
    → RoomOk insts' s
kept_room insts insts' s keep o = record {
  opener_in = o.opener_in;
  opener_account = λ e f. kept_opener insts insts' s keep o e f;
  members_here = λ i m f. kept-IsHere insts insts' i m keep (o.members_here i m f);
  requests_here = λ i m f. kept-IsHere insts insts' i m keep (o.requests_here i m f);
}

-- Announcing keeps every room in order: an installation stays the account's that holds it.
pub announce-AllRooms :
    (now : ℕ) (connection account : Text) (what : InstanceAnnouncement) (p : TeamPresence)
    {v : TeamClientInstance} {q : TeamPresence}
    → announce now connection account what p ≡ ok (v, q)
    → AllRooms p.instances p.sessions
    → AllRooms q.instances q.sessions
announce-AllRooms now connection account what p {v} {q} h rooms_ok =
    let (same, insts, conns, rooms, mine, room) = announce_cases now connection account what p h in
    λ k s e.
      kept_room p.instances q.instances s
        (λ i f g. same_account now connection account what p v q same insts mine i f g)
        (rooms_ok k s (ground arith))
