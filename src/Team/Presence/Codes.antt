-- ===== src/Team/Presence/Codes.antt =====
-- Minting the code of a room, and opening one.
use narra_leaf_team.Common.{
  ℕ, ◌<◌, ◌≡◌, ◌⊎◌, inl, inr, true, false, some, arith, Text, text_eq_iff, text_eq_refl, List, [],
  ◌∷◌, Bool-cases,
}
use narra_leaf_team.Data.Map
use narra_leaf_team.Data.Map.{Map}
use narra_leaf_team.Data.TextSet
use narra_leaf_team.Data.TextSet.{TextSet}
use narra_leaf_team.Team.Presence.State.{
  InstanceEntry, TeamClientInstance, LiveEntry, TeamLiveSession, TeamPresence, ok,
  live_session_limit, member_of,
}
use narra_leaf_team.Team.Presence.Rooms.{
  four_digits, taken_codes, draw_code, mint_code, OpenInput, opened_entry, open_room, count_open,
}
use narra_leaf_team.Team.Presence.Evolution.{IsHere, RoomOk}
use narra_leaf_team.Team.Presence.Changes.{SameInstances}

-- Below ten thousand, four digits say which number it is.
four_digits_inj : (m n : ℕ) → m < 10000 → n < 10000 → four_digits m ≡ four_digits n → m ≡ n
unfolding four_digits
four_digits_inj m n hm hn e = ground arith

pub taken_codes-has :
    (m : Map LiveEntry) (k : Text) (s : LiveEntry)
    → Map.get k m ≡ some s
    → TextSet.has s.code (taken_codes (Map.values m)) ≡ true
unfolding taken_codes Map.get
taken_codes-has [] k s e = cc
taken_codes-has ((j, t) ∷ m) k s e = ground (
  arith,
  TextSet.has-add t.code s.code (taken_codes (Map.values m)),
  text_eq_refl s.code,
  taken_codes-has m k s,
)

draw_code-fresh :
    (taken : TextSet) (draws : List ℕ) (c : Text)
    → draw_code taken draws ≡ ok c
    → TextSet.has c taken ≡ false
unfolding draw_code
draw_code-fresh taken [] c h = cc
draw_code-fresh taken (n ∷ draws) c h = ground (arith, draw_code-fresh taken draws c)

-- Whether a number is among the draws.
abbrev pub Drawn : ℕ → List ℕ → Type 0
Drawn n [] = ⊥
Drawn n (m ∷ ms) = (m ≡ n) ⊎ Drawn n ms

draw_code_total :
    (taken : TextSet) (n : ℕ) (draws : List ℕ)
    → TextSet.has (four_digits n) taken ≡ false
    → Drawn n draws
    → (c : Text) × (draw_code taken draws ≡ ok c)
unfolding draw_code
draw_code_total taken n [] h d = absurd d
draw_code_total taken n (m ∷ draws) h d = elim (Bool-cases (TextSet.has (four_digits m) taken)) [
  | inr free ↦ (four_digits m, rw free)
  | inl held ↦ elim d [
    | inl e ↦ absurd (ground arith)
    | inr later ↦ rw held (draw_code_total taken n draws h later)
  ]
]

-- Draws in which every number below ten thousand stands.
abbrev pub Exhausts : List ℕ → Type 0
Exhausts draws = (n : ℕ) → n < 10000 → Drawn n draws

-- While fewer than ten thousand codes are in use, the loop of `mintCode` ends with a code that no room
-- has, as soon as its draws have been through every number below ten thousand.
pub mint_code_total :
    (p : TeamPresence) (draws : List ℕ)
    → TextSet.size (taken_codes (Map.values p.sessions)) < 10000
    → Exhausts draws
    → (c : Text) × (mint_code draws p ≡ ok c)
      × (TextSet.has c (taken_codes (Map.values p.sessions)) ≡ false)
unfolding mint_code
mint_code_total p draws h all =
    let taken = taken_codes (Map.values p.sessions) in
    let (n, below, free) = TextSet.outside four_digits 10000 taken four_digits_inj h in
    let (c, drawn) = draw_code_total taken n draws free (all n below) in
    (c, ground (arith, drawn), draw_code-fresh taken draws c drawn)

-- A room that `open` answers is stored under its id over the same installations, its code is one that no
-- room had, and its project had fewer rooms than the limit before.
pub open_room_cases :
    (now : ℕ) (uuid : Text) (draws : List ℕ) (inst : TeamClientInstance) (input : OpenInput)
    (p : TeamPresence) {v : TeamLiveSession} {c : Text} {q : TeamPresence}
    → open_room now uuid draws inst input p ≡ ok (v, c, q)
    → SameInstances p q
      × (q.sessions ≡ Map.set uuid (opened_entry now uuid c inst input) p.sessions)
      × (TextSet.has c (taken_codes (Map.values p.sessions)) ≡ false)
      × (count_open input.project (Map.values p.sessions) < live_session_limit)
unfolding open_room
open_room_cases now uuid draws inst input p {c = c} h =
    ground (arith, draw_code-fresh (taken_codes (Map.values p.sessions)) draws c)

pub opened-RoomOk :
    (insts : Map InstanceEntry) (now : ℕ) (uuid c : Text) (inst : TeamClientInstance)
    (input : OpenInput)
    → IsHere insts inst.id (member_of inst now)
    → RoomOk insts (opened_entry now uuid c inst input)
unfolding opened_entry member_of Map.get Map.has
opened-RoomOk insts now uuid c inst input here = record {
  opener_in = ground (arith, text_eq_refl inst.id);
  opener_account = λ e f. ground arith;
  members_here = λ i m e. (here.0, ground (arith, text_eq_iff inst.id i), ground arith);
  requests_here = λ i m e. cc;
}
