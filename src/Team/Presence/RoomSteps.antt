-- ===== src/Team/Presence/RoomSteps.antt =====
-- Every method on a room is a run of the steps of Evolution.
use narra_leaf_team.Common.{
  ℕ, ◌≡◌, refl, sym, inl, inr, Bool, Option, some, arith, Text, text_eq_iff, subst,
}
use narra_leaf_team.Data.Map
use narra_leaf_team.Data.Map.{Map}
use narra_leaf_team.Team.Presence.State.{
  TeamClientInstance, InstanceEntry, TeamLiveMember, LiveEntry, TeamLiveSession, TeamLiveJoinRule,
  TeamPresence, ok, member_of,
}
use narra_leaf_team.Team.Presence.Rooms.{part, set_rule, join, request, answer, leave, close}
use narra_leaf_team.Team.Presence.Evolution.{
  IsHere, RoomOk, SameRoom, Evolves, stays, goes, changes, without_member, without_request,
  with_member, with_request,
}
use narra_leaf_team.Team.Presence.Changes.{
  without, part_cases, join_cases, request_cases, set_rule_cases, answer_cases, close_cases,
  leave_cases,
}

-- Rooms are kept under their ids.
abbrev pub IsKeyed : Map LiveEntry → Type 0
IsKeyed m = (k : Text) (s : LiveEntry) → Map.get k m ≡ some s → s.id ≡ k

pub same_room :
    (s t : LiveEntry)
    → t.id ≡ s.id
    → t.project ≡ s.project
    → t.code ≡ s.code
    → t.opened_by_instance ≡ s.opened_by_instance
    → t.opened_by ≡ s.opened_by
    → SameRoom s t
same_room s t a b c d e = record {
  same_id = a;
  same_project = b;
  same_code = c;
  same_opener = d;
  same_account = e;
}

-- One room written back under its id.
pub rewritten :
    (insts : Map InstanceEntry) (m : Map LiveEntry) (s t : LiveEntry)
    → Map.get s.id m ≡ some s
    → SameRoom s t
    → (RoomOk insts s → RoomOk insts t)
    → Evolves insts m (Map.set s.id t m)
rewritten insts m s t e r o = changes s.id s t stays e r o

pub part-Evolves :
    (insts : Map InstanceEntry) (s : LiveEntry) (i : Text) (p : TeamPresence)
    → Map.get s.id p.sessions ≡ some s
    → Evolves insts p.sessions (part s i p).sessions
part-Evolves insts s i p e = elim (part_cases s i p) [
  | inl (out, same) ↦ rw same stays
  | inr (inl ended) ↦ rw ended (goes s.id stays)
  | inr (inr (other, parted)) ↦ rw parted (
      rewritten insts p.sessions s (without i s) e
        (same_room s (without i s) refl refl refl refl refl) (without_member insts s i other))
]

-- A room found under an id is found under its own.
pub keyed :
    (m : Map LiveEntry) (k : Text) (s : LiveEntry)
    → IsKeyed m
    → Map.get k m ≡ some s
    → Map.get s.id m ≡ some s
keyed m k s h e = subst (λ j. Map.get j m ≡ some s) (sym (h k s e)) e

pub join-Evolves :
    (now : ℕ) (inst : TeamClientInstance) (id : Text) (code : Option Text) (p : TeamPresence)
    {v : TeamLiveSession} {q : TeamPresence}
    → IsKeyed p.sessions
    → IsHere p.instances inst.id (member_of inst now)
    → join now inst id code p ≡ ok (v, q)
    → Evolves p.instances p.sessions q.sessions
join-Evolves now inst id code p k here h = elim (join_cases now inst id code p h).1 [
  | inl same ↦ rw same stays
  | inr (s, e, w) ↦ rw w (
      rewritten p.instances p.sessions s _ (keyed p.sessions id s k e)
        (same_room s _ refl refl refl refl refl)
        (with_member p.instances s inst.id (member_of inst now) here))
]

pub request-Evolves :
    (now : ℕ) (inst : TeamClientInstance) (id : Text) (p : TeamPresence) {v : TeamLiveSession}
    {q : TeamPresence}
    → IsKeyed p.sessions
    → IsHere p.instances inst.id (member_of inst now)
    → request now inst id p ≡ ok (v, q)
    → Evolves p.instances p.sessions q.sessions
request-Evolves now inst id p k here h = elim (request_cases now inst id p h).1 [
  | inl same ↦ rw same stays
  | inr (s, e, w) ↦ rw w (
      rewritten p.instances p.sessions s _ (keyed p.sessions id s k e)
        (same_room s _ refl refl refl refl refl)
        (with_request p.instances s inst.id (member_of inst now) here))
]

pub set_rule-Evolves :
    (inst id : Text) (rule : TeamLiveJoinRule) (p : TeamPresence) {b : Bool} {q : TeamPresence}
    → IsKeyed p.sessions
    → set_rule inst id rule p ≡ ok (b, q)
    → Evolves p.instances p.sessions q.sessions
set_rule-Evolves inst id rule p k h = elim (set_rule_cases inst id rule p h).1 [
  | inl same ↦ rw same stays
  | inr (s, e, w) ↦ rw w (
      rewritten p.instances p.sessions s (record s { rule = rule }) (keyed p.sessions id s k e)
        (same_room s _ refl refl refl refl refl)
        (λ o. record {
          opener_in = o.opener_in;
          opener_account = o.opener_account;
          members_here = o.members_here;
          requests_here = o.requests_here;
        }))
]

-- A member let in keeps the account under which it asked.
admitted :
    (insts : Map InstanceEntry) (s : LiveEntry) (i : Text) (m : TeamLiveMember) (now : ℕ)
    → Map.get i s.requests ≡ some m
    → RoomOk insts s
    → RoomOk insts (record s {
      requests = Map.delete i s.requests;
      members = Map.set i (record m { joined_at = now }) s.members;
    })
admitted insts s i m now e o =
    let here = o.requests_here i m e in
    let here' : IsHere insts i (record m { joined_at = now }) = (here.0, here.1, here.2) in
    without_request insts _ i (with_member insts s i _ here' o)

pub answer-Evolves :
    (now : ℕ) (opener id i : Text) (admit : Bool) (p : TeamPresence) {b : Bool} {q : TeamPresence}
    → IsKeyed p.sessions
    → answer now opener id i admit p ≡ ok (b, q)
    → Evolves p.instances p.sessions q.sessions
answer-Evolves now opener id i admit p k h = elim (answer_cases now opener id i admit p h).1 [
  | inl same ↦ rw same stays
  | inr (s, m, e, asked, inl w) ↦ rw w (
      rewritten p.instances p.sessions s _ (keyed p.sessions id s k e)
        (same_room s _ refl refl refl refl refl) (without_request p.instances s i))
  | inr (s, m, e, asked, inr w) ↦ rw w (
      rewritten p.instances p.sessions s _ (keyed p.sessions id s k e)
        (same_room s _ refl refl refl refl refl) (admitted p.instances s i m now asked))
]

pub close-Evolves :
    (inst id : Text) (p : TeamPresence) {b : Bool} {q : TeamPresence}
    → close inst id p ≡ ok (b, q)
    → Evolves p.instances p.sessions q.sessions
close-Evolves inst id p h = elim (close_cases inst id p h).1 [
  | inl same ↦ rw same stays
  | inr (s, e, w) ↦ rw w (goes s.id stays)
]

pub leave-Evolves :
    (inst id : Text) (p : TeamPresence)
    → IsKeyed p.sessions
    → Evolves p.instances p.sessions (leave inst id p).sessions
leave-Evolves inst id p k = elim (leave_cases inst id p).1 [
  | inl same ↦ rw same stays
  | inr (s, e, w) ↦ rw w (part-Evolves p.instances s inst p (keyed p.sessions id s k e))
]

pub Evolves-IsKeyed :
    {insts : Map InstanceEntry} {m n : Map LiveEntry} → Evolves insts m n → IsKeyed m → IsKeyed n
Evolves-IsKeyed stays h = h
Evolves-IsKeyed (goes {n = n} k b) h =
    λ j s e. Evolves-IsKeyed b h j s (ground (arith, Map.get-delete k j n))
Evolves-IsKeyed (changes {n = n} k s t b e r o) h = λ j u f. ground (
  arith,
  Map.get-set k j t n,
  text_eq_iff k j,
  Evolves-IsKeyed b h j u,
  Evolves-IsKeyed b h k s,
  r.same_id,
)
