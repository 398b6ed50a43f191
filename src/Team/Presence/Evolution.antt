-- ===== src/Team/Presence/Evolution.antt =====
-- How the map of rooms changes under every method but `open`, in steps: a room goes, or it is
-- written back under its id with what was settled when it opened.
use narra_leaf_team.Common.{
  ◌≡◌, ◌⊎◌, inl, inr, true, false, some, arith, Text, text_eq, text_eq_iff,
}
use narra_leaf_team.Data.Map
use narra_leaf_team.Data.Map.{Map}
use narra_leaf_team.Team.Presence.State.{InstanceEntry, TeamLiveMember, LiveEntry}

-- An entry of a roster is an announced installation, under the account that announced it.
abbrev pub IsHere : Map InstanceEntry → Text → TeamLiveMember → Type 0
IsHere instances i m =
    (e : InstanceEntry) × (Map.get i instances ≡ some e) × (e.instance_.account ≡ m.account)

-- A room whose opener is in it, and whose roster and requests name announced installations.
pub record RoomOk (instances : Map InstanceEntry) (s : LiveEntry) : Type 0 where
  pub opener_in : Map.has s.opened_by_instance s.members ≡ true
  pub opener_account :
      (e : InstanceEntry)
      → Map.get s.opened_by_instance instances ≡ some e
      → e.instance_.account ≡ s.opened_by
  pub members_here :
      (i : Text) (m : TeamLiveMember) → Map.get i s.members ≡ some m → IsHere instances i m
  pub requests_here :
      (i : Text) (m : TeamLiveMember) → Map.get i s.requests ≡ some m → IsHere instances i m

-- The fields of a room that are settled when it opens.
pub record SameRoom (s t : LiveEntry) : Type 0 where
  pub same_id : t.id ≡ s.id
  pub same_project : t.project ≡ s.project
  pub same_code : t.code ≡ s.code
  pub same_opener : t.opened_by_instance ≡ s.opened_by_instance
  pub same_account : t.opened_by ≡ s.opened_by

pub data Evolves (instances : Map InstanceEntry) (m : Map LiveEntry) : Map LiveEntry → Type 0 where
  stays : Evolves instances m m
  goes :
      {n : Map LiveEntry} (k : Text) → Evolves instances m n → Evolves instances m (Map.delete k n)
  changes :
      {n : Map LiveEntry} (k : Text) (s t : LiveEntry)
      → Evolves instances m n
      → Map.get k n ≡ some s
      → SameRoom s t
      → (RoomOk instances s → RoomOk instances t)
      → Evolves instances m (Map.set k t n)

pub Evolves-trans :
    {instances : Map InstanceEntry} {l m n : Map LiveEntry}
    → Evolves instances l m
    → Evolves instances m n
    → Evolves instances l n
Evolves-trans a stays = a
Evolves-trans a (goes k b) = goes k (Evolves-trans a b)
Evolves-trans a (changes k s t b e r o) = changes k s t (Evolves-trans a b) e r o

-- Taking one out of the roster who is not the opener keeps a room in order.
pub without_member :
    (instances : Map InstanceEntry) (s : LiveEntry) (i : Text)
    → text_eq s.opened_by_instance i ≡ false
    → RoomOk instances s
    → RoomOk instances (record s { members = Map.delete i s.members })
without_member instances s i h o = record {
  opener_in = ground (
    arith,
    Map.has-get_iff s.opened_by_instance (Map.delete i s.members),
    Map.has-get_iff s.opened_by_instance s.members,
    Map.get-delete i s.opened_by_instance s.members,
    text_eq_iff i s.opened_by_instance,
    text_eq_iff s.opened_by_instance i,
    o.opener_in,
  );
  opener_account = o.opener_account;
  members_here = λ j m e. o.members_here j m (ground (arith, Map.get-delete i j s.members));
  requests_here = o.requests_here;
}

pub without_request :
    (instances : Map InstanceEntry) (s : LiveEntry) (i : Text)
    → RoomOk instances s
    → RoomOk instances (record s { requests = Map.delete i s.requests })
without_request instances s i o = record {
  opener_in = o.opener_in;
  opener_account = o.opener_account;
  members_here = o.members_here;
  requests_here = λ j m e. o.requests_here j m (ground (arith, Map.get-delete i j s.requests));
}

-- What a written map finds is the value written, or what it found before.
pub get-set_cases {ℓ} :
    {V : Type ℓ} (k j : Text) (v w : V) (m : Map V)
    → Map.get j (Map.set k v m) ≡ some w
    → ((k ≡ j) × (v ≡ w)) ⊎ (Map.get j m ≡ some w)
get-set_cases k j v w m e = ground (arith, Map.get-set k j v m, text_eq_iff k j)

pub with_member :
    (instances : Map InstanceEntry) (s : LiveEntry) (i : Text) (n : TeamLiveMember)
    → IsHere instances i n
    → RoomOk instances s
    → RoomOk instances (record s { members = Map.set i n s.members })
with_member instances s i n here o = record {
  opener_in = ground (
    arith,
    Map.has-get_iff s.opened_by_instance (Map.set i n s.members),
    Map.has-get_iff s.opened_by_instance s.members,
    Map.get-set i s.opened_by_instance n s.members,
    o.opener_in,
  );
  opener_account = o.opener_account;
  members_here = λ j m e. elim (get-set_cases i j n m s.members e) [
    | inl (same, eq) ↦ (here.0, ground arith, ground arith)
    | inr old ↦ o.members_here j m old
  ];
  requests_here = o.requests_here;
}

pub with_request :
    (instances : Map InstanceEntry) (s : LiveEntry) (i : Text) (n : TeamLiveMember)
    → IsHere instances i n
    → RoomOk instances s
    → RoomOk instances (record s { requests = Map.set i n s.requests })
with_request instances s i n here o = record {
  opener_in = o.opener_in;
  opener_account = o.opener_account;
  members_here = o.members_here;
  requests_here = λ j m e. elim (get-set_cases i j n m s.requests e) [
    | inl (same, eq) ↦ (here.0, ground arith, ground arith)
    | inr old ↦ o.requests_here j m old
  ];
}
