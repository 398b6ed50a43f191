-- ===== src/Team/Presence/Closing.antt =====
-- A window withdrawing and a connection closing, as a whole.
use narra_leaf_team.Common.{
  ◌≡◌, refl, ◌∙◌, ◌⊎◌, inl, inr, Bool, true, false, ◌&&◌, Option, none, some, arith, Text, text_eq,
  text_eq_iff, List, [], ◌∷◌, if◌then◌else◌, Option-cases, Bool-cases,
}
use narra_leaf_team.Data.Map
use narra_leaf_team.Data.Map.{Map}
use narra_leaf_team.Data.TextSet
use narra_leaf_team.Team.Presence.State.{InstanceEntry, TeamPresence}
use narra_leaf_team.Team.Presence.Instances.{
  retire, withdraw, drop_ids, drop_connection, held_by, instance_on, let_go,
}
use narra_leaf_team.Team.Presence.RoomSteps.{IsKeyed}
use narra_leaf_team.Team.Presence.Registry.{
  AllRooms, Steady, Evolves-Steady, Steady-refl, Steady-trans,
}
use narra_leaf_team.Team.Presence.Holding.{Holds, held_in, held_in-let_go, size-let_go}
use narra_leaf_team.Team.Presence.Leaving.{
  Retired, retire-Retired, Retired-AllRooms, instance_on_lem, withdraw-some, withdraw-none,
}

-- The part of the state that the loops keep.
pub record InOrder (p : TeamPresence) : Type 0 where
  pub in_keyed : IsKeyed p.sessions
  pub in_rooms : AllRooms p.instances p.sessions

pub Retired-InOrder : (id : Text) (p q : TeamPresence) → Retired id p q → InOrder p → InOrder q
Retired-InOrder id p q r o = record {
  in_keyed = (Evolves-Steady r.rooms_left).keyed_still o.in_keyed;
  in_rooms = Retired-AllRooms id p q r o.in_rooms;
}

-- Once the connection has let the id go and the installation is retired, the maps are in step.
let_go-Holds :
    (c i : Text) (e : InstanceEntry) (p q : TeamPresence)
    → Map.get i p.instances ≡ some e
    → e.connection ≡ c
    → q.by_connection ≡ let_go c i p.by_connection
    → ((j : Text) → Map.get j q.instances ≡ Map.get j (Map.delete i p.instances))
    → Holds p
    → Holds q
unfolding held_by
let_go-Holds c i e p q here mine conns left o = record {
  held_here = λ d j held.
      let was : TextSet.has j (held_in d p.by_connection) ≡ true =
        ground (arith, held_in-let_go d j c i p.by_connection) in
      let (f, g, a) = o.held_here d j was in
      (
        f,
        ground (
          arith,
          g,
          a,
          left j,
          Map.get-delete i j p.instances,
          held_in-let_go d j c i p.by_connection,
          text_eq_iff i j,
          text_eq_iff c d,
        ),
        a,
      );
  here_held = λ j f g. ground (
    arith,
    left j,
    Map.get-delete i j p.instances,
    held_in-let_go f.connection j c i p.by_connection,
    o.here_held j f,
  );
  entry_id = λ j f g. o.entry_id j f (ground (arith, left j, Map.get-delete i j p.instances));
  held_bound = λ d. ground (arith, size-let_go d c i p.by_connection, o.held_bound d);
}

-- What a window closing leaves: nothing of its installation, and everything else.
pub record Withdrawn (p q : TeamPresence) : Type 0 where
  pub still_holds : Holds q
  pub still_in_order : InOrder q
  pub still_steady : Steady p.sessions q.sessions

pub withdraw-Withdrawn :
    (connection project : Text) (p : TeamPresence)
    → Holds p
    → InOrder p
    → Withdrawn p (withdraw connection project p)
withdraw-Withdrawn connection project p o r =
    elim (Option-cases (instance_on connection project p)) [
      | inl absent ↦
          rw (withdraw-none connection project p absent)
            (record { still_holds = o; still_in_order = r; still_steady = Steady-refl p.sessions })
      | inr (v, found) ↦
          let (e, here, same, mine, open_one) = instance_on_lem connection project p v o found in
          let p' : TeamPresence = record p {
            by_connection = let_go connection v.id p.by_connection;
          } in
          let gone = retire-Retired v.id e p' r.in_keyed here in
          rw (withdraw-some connection project p v found) (record {
            still_holds =
                let_go-Holds connection v.id e p (retire v.id p') here mine gone.connections_left
                  gone.instances_left o;
            still_in_order =
                Retired-InOrder v.id p' (retire v.id p') gone
                  (record { in_keyed = r.in_keyed; in_rooms = r.in_rooms });
            still_steady = Evolves-Steady gone.rooms_left;
          })
    ]

abbrev pub is_on : Text → Option InstanceEntry → Bool
is_on c none = false
is_on c (some e) = text_eq e.connection c

-- The state after the loop of `dropConnection` over `ids`.
pub record Dropped (c : Text) (ids : List Text) (p q : TeamPresence) : Type 0 where
  pub dropped_instances :
      (j : Text)
      → Map.get j q.instances ≡ (
          if TextSet.has j ids && is_on c (Map.get j p.instances)
          then none
          else Map.get j p.instances)
  pub dropped_connections : q.by_connection ≡ p.by_connection
  pub dropped_in_order : InOrder q
  pub dropped_steady : Steady p.sessions q.sessions

-- One round: what the connection no longer holds is left alone.
drop_ids_step :
    (c id : Text) (ids : List Text) (p : TeamPresence)
    → ((is_on c (Map.get id p.instances) ≡ false) × (drop_ids c (id ∷ ids) p ≡ drop_ids c ids p))
      ⊎ ((e : InstanceEntry) × (Map.get id p.instances ≡ some e)
          × (is_on c (Map.get id p.instances) ≡ true)
          × (drop_ids c (id ∷ ids) p ≡ drop_ids c ids (retire id p)))
unfolding drop_ids
drop_ids_step c id ids p = elim (Option-cases (Map.get id p.instances)) [
  | inl e ↦ inl (ground arith, ground arith)
  | inr (f, e) ↦ elim (Bool-cases (text_eq f.connection c)) [
    | inr other ↦ inl (ground arith, ground arith)
    | inl here ↦ inr (f, e, ground arith, ground arith)
  ]
]

dropped_skip :
    (c id j : Text) (ids : List Text) (p q : TeamPresence)
    → is_on c (Map.get id p.instances) ≡ false
    → Map.get j q.instances ≡ (
        if TextSet.has j ids && is_on c (Map.get j p.instances)
        then none
        else Map.get j p.instances)
    → Map.get j q.instances ≡ (
        if TextSet.has j (id ∷ ids) && is_on c (Map.get j p.instances)
        then none
        else Map.get j p.instances)
unfolding TextSet.has
dropped_skip c id j ids p q other d = ground (arith, text_eq_iff id j)

dropped_take :
    (c id j : Text) (ids : List Text) (p r q : TeamPresence)
    → is_on c (Map.get id p.instances) ≡ true
    → Map.get j r.instances ≡ Map.get j (Map.delete id p.instances)
    → Map.get j q.instances ≡ (
        if TextSet.has j ids && is_on c (Map.get j r.instances)
        then none
        else Map.get j r.instances)
    → Map.get j q.instances ≡ (
        if TextSet.has j (id ∷ ids) && is_on c (Map.get j p.instances)
        then none
        else Map.get j p.instances)
unfolding TextSet.has
dropped_take c id j ids p r q mine left d =
    ground (arith, text_eq_iff id j, Map.get-delete id j p.instances)

drop_ids-Dropped :
    (c : Text) (ids : List Text) (p : TeamPresence) → InOrder p → Dropped c ids p (drop_ids c ids p)
drop_ids-Dropped c [] p o =
    unfold drop_ids TextSet.has in
    record {
      dropped_instances = λ j. refl;
      dropped_connections = refl;
      dropped_in_order = o;
      dropped_steady = Steady-refl p.sessions;
    }
drop_ids-Dropped c (id ∷ ids) p o = elim (drop_ids_step c id ids p) [
  | inl (other, w) ↦
      let d = drop_ids-Dropped c ids p o in
      rw w (record {
        dropped_instances =
            λ j. dropped_skip c id j ids p (drop_ids c ids p) other (d.dropped_instances j);
        dropped_connections = d.dropped_connections;
        dropped_in_order = d.dropped_in_order;
        dropped_steady = d.dropped_steady;
      })
  | inr (e, found, mine, w) ↦
      let r = retire-Retired id e p o.in_keyed found in
      let d = drop_ids-Dropped c ids (retire id p) (Retired-InOrder id p (retire id p) r o) in
      rw w (record {
        dropped_instances = λ j.
            dropped_take c id j ids p (retire id p) (drop_ids c ids (retire id p)) mine
              (r.instances_left j) (d.dropped_instances j);
        dropped_connections = d.dropped_connections ∙ r.connections_left;
        dropped_in_order = d.dropped_in_order;
        dropped_steady = Steady-trans (Evolves-Steady r.rooms_left) d.dropped_steady;
      })
]

-- Where the maps are in step and the rooms are in order, a connection that closes takes its
-- installations with it, and leaves the entry of every other as it was.
pub drop_connection-instances :
    (c j : Text) (p : TeamPresence)
    → Holds p
    → InOrder p
    → Map.get j (drop_connection c p).instances
      ≡ (if is_on c (Map.get j p.instances) then none else Map.get j p.instances)
unfolding drop_connection
drop_connection-instances c j p o r =
    let p' : TeamPresence = record p { by_connection = Map.delete c p.by_connection } in
    let d =
      drop_ids-Dropped c (held_by c p) p'
        (record { in_keyed = r.in_keyed; in_rooms = r.in_rooms }) in
    elim (Option-cases (Map.get j p.instances)) [
      | inl e ↦ ground (arith, d.dropped_instances j)
      | inr (f, e) ↦
          ground (arith, d.dropped_instances j, o.here_held j f e, text_eq_iff f.connection c)
    ]

dropped-Holds :
    (c : Text) (p q : TeamPresence)
    → Holds p
    → q.by_connection ≡ Map.delete c p.by_connection
    → ((j : Text)
        → Map.get j q.instances
          ≡ (if is_on c (Map.get j p.instances) then none else Map.get j p.instances))
    → Holds q
unfolding held_by TextSet.has
dropped-Holds c p q o conns left = record {
  held_here = λ d j held.
      let was : TextSet.has j (held_in d p.by_connection) ≡ true =
        ground (arith, Map.get-delete c d p.by_connection) in
      let (f, g, a) = o.held_here d j was in
      (
        f,
        ground (
          arith,
          g,
          a,
          left j,
          Map.get-delete c d p.by_connection,
          text_eq_iff f.connection c,
          text_eq_iff c d,
        ),
        a,
      );
  here_held = λ j f g. ground (
    arith,
    left j,
    Map.get-delete c f.connection p.by_connection,
    text_eq_iff f.connection c,
    text_eq_iff c f.connection,
    o.here_held j f,
  );
  entry_id = λ j f g. o.entry_id j f (ground (arith, left j));
  held_bound = λ d. ground (arith, Map.get-delete c d p.by_connection, o.held_bound d);
}

pub drop_connection-Withdrawn :
    (c : Text) (p : TeamPresence) → Holds p → InOrder p → Withdrawn p (drop_connection c p)
drop_connection-Withdrawn c p o r =
    let p' : TeamPresence = record p { by_connection = Map.delete c p.by_connection } in
    let d : Dropped c (held_by c p) p' (drop_connection c p) =
      unfold drop_connection in
      drop_ids-Dropped c (held_by c p) p'
        (record { in_keyed = r.in_keyed; in_rooms = r.in_rooms }) in
    record {
      still_holds =
          dropped-Holds c p (drop_connection c p) o d.dropped_connections
            (λ j. drop_connection-instances c j p o r);
      still_in_order = d.dropped_in_order;
      still_steady = d.dropped_steady;
    }
