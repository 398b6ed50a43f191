-- ===== src/Team/Presence/Registry.antt =====
-- What holds of all the rooms of a server together, and that the steps of Evolution keep it.
use narra_leaf_team.Common.{
  ◌+◌, ◌≤◌, ◌≡◌, inl, inr, none, some, arith, Text, text_eq, [], ◌∷◌, if◌then◌else◌, subst,
}
use narra_leaf_team.Data.Map
use narra_leaf_team.Data.Map.{Map}
use narra_leaf_team.Team.Presence.State.{InstanceEntry, LiveEntry, live_session_limit}
use narra_leaf_team.Team.Presence.Rooms.{count_open}
use narra_leaf_team.Team.Presence.Evolution.{RoomOk, Evolves, stays, goes, changes, get-set_cases}
use narra_leaf_team.Team.Presence.RoomSteps.{IsKeyed, Evolves-IsKeyed}

abbrev pub AllRooms : Map InstanceEntry → Map LiveEntry → Type 0
AllRooms insts m = (k : Text) (s : LiveEntry) → Map.get k m ≡ some s → RoomOk insts s

pub Evolves-AllRooms :
    {insts : Map InstanceEntry} {m n : Map LiveEntry}
    → Evolves insts m n
    → AllRooms insts m
    → AllRooms insts n
Evolves-AllRooms stays h = h
Evolves-AllRooms (goes {n = n} k b) h =
    λ j s e. Evolves-AllRooms b h j s (ground (arith, Map.get-delete k j n))
Evolves-AllRooms {insts} (changes {n = n} k s t b e r o) h = λ j u f.
    elim (get-set_cases k j t u n f) [
      | inl (same, w) ↦ subst (RoomOk insts) w (o (Evolves-AllRooms b h k s e))
      | inr old ↦ Evolves-AllRooms b h j u old
    ]

-- No two rooms answer to one code.
abbrev pub CodesDiffer : Map LiveEntry → Type 0
CodesDiffer m =
    (j k : Text) (s t : LiveEntry)
    → Map.get j m ≡ some s
    → Map.get k m ≡ some t
    → s.code ≡ t.code
    → j ≡ k

pub Evolves-CodesDiffer :
    {insts : Map InstanceEntry} {m n : Map LiveEntry}
    → Evolves insts m n
    → CodesDiffer m
    → CodesDiffer n
Evolves-CodesDiffer stays h = h
Evolves-CodesDiffer (goes {n = n} k b) h = λ i j s t e f.
    Evolves-CodesDiffer b h i j s t (ground (arith, Map.get-delete k i n))
      (ground (arith, Map.get-delete k j n))
Evolves-CodesDiffer (changes {n = n} k s t b e r o) h = λ i j u v f g c.
    let ih = Evolves-CodesDiffer b h in
    elim (get-set_cases k i t u n f) [
      | inl (ki, tu) ↦ elim (get-set_cases k j t v n g) [
        | inl (kj, tv) ↦ cc
        | inr old ↦ ih i j s v (ground arith) old (ground (arith, r.same_code))
      ]
      | inr old ↦ elim (get-set_cases k j t v n g) [
        | inl (kj, tv) ↦ ih i j u s old (ground arith) (ground (arith, r.same_code))
        | inr old' ↦ ih i j u v old old' c
      ]
    ]

-- No project has more rooms than the limit.
abbrev pub IsBounded : Map LiveEntry → Type 0
IsBounded m = (q : Text) → count_open q (Map.values m) ≤ live_session_limit

count_open-delete :
    (q k : Text) (m : Map LiveEntry)
    → count_open q (Map.values (Map.delete k m)) ≤ count_open q (Map.values m)
unfolding count_open Map.delete
count_open-delete q k [] = omega arith
count_open-delete q k ((j, s) ∷ m) = ground (arith, count_open-delete q k m)

count_open-set :
    (q k : Text) (s t : LiveEntry) (m : Map LiveEntry)
    → Map.get k m ≡ some s
    → t.project ≡ s.project
    → count_open q (Map.values (Map.set k t m)) ≡ count_open q (Map.values m)
unfolding count_open Map.set Map.get
count_open-set q k s t [] e r = cc
count_open-set q k s t ((j, u) ∷ m) e r = ground (arith, count_open-set q k s t m)

pub count_open-set_new :
    (q k : Text) (t : LiveEntry) (m : Map LiveEntry)
    → Map.get k m ≡ none
    → count_open q (Map.values (Map.set k t m))
      ≡ count_open q (Map.values m) + (if text_eq t.project q then 1 else 0)
unfolding count_open Map.set Map.get
count_open-set_new q k t [] e = omega arith
count_open-set_new q k t ((j, u) ∷ m) e = ground (arith, count_open-set_new q k t m)

pub Evolves-IsBounded :
    {insts : Map InstanceEntry} {m n : Map LiveEntry}
    → Evolves insts m n
    → IsBounded m
    → IsBounded n
Evolves-IsBounded stays h = h
Evolves-IsBounded (goes {n = n} k b) h =
    λ q. omega (arith, count_open-delete q k n, Evolves-IsBounded b h q)
Evolves-IsBounded (changes {n = n} k s t b e r o) h =
    λ q. omega (arith, count_open-set q k s t n e r.same_project, Evolves-IsBounded b h q)

-- A change of the rooms after which they are still kept under their ids, under different codes and
-- within the limit.
pub record Steady (m n : Map LiveEntry) : Type 0 where
  pub keyed_still : IsKeyed m → IsKeyed n
  pub codes_still : CodesDiffer m → CodesDiffer n
  pub bounded_still : IsBounded m → IsBounded n

pub Evolves-Steady :
    {insts : Map InstanceEntry} {m n : Map LiveEntry} → Evolves insts m n → Steady m n
Evolves-Steady e = record {
  keyed_still = Evolves-IsKeyed e;
  codes_still = Evolves-CodesDiffer e;
  bounded_still = Evolves-IsBounded e;
}

pub Steady-refl : (m : Map LiveEntry) → Steady m m
Steady-refl m = record { keyed_still = λ h. h; codes_still = λ h. h; bounded_still = λ h. h }

pub Steady-trans : {l m n : Map LiveEntry} → Steady l m → Steady m n → Steady l n
Steady-trans a b = record {
  keyed_still = λ h. b.keyed_still (a.keyed_still h);
  codes_still = λ h. b.codes_still (a.codes_still h);
  bounded_still = λ h. b.bounded_still (a.bounded_still h);
}
