-- ===== src/Team/Hub/Rounds.antt =====
-- The loop of `publish`: it comes by every session, and out.
use narra_leaf_team.Common.{
  ℕ, ◌+◌, ◌≡◌, refl, ap, ◌∙◌, Bool, false, none, some, List, [], ◌∷◌, map, arith, if◌then◌else◌,
  length, Text, text_eq_iff, text_eq_refl, Option-cases, inl, inr,
}
use narra_leaf_team.Data.TextSet
use narra_leaf_team.Data.TextSet.{TextSet, Distinct}
use narra_leaf_team.Data.Map
use narra_leaf_team.Team.Hub.{
  Hub, Loop, Publishing, publishes, advances, sequence_of, next_session, publish, visit, advance,
  step, run,
}

-- How many sessions a walk has not come by.
left_over : TextSet → List Text → ℕ
left_over visited [] = 0
left_over visited (i ∷ ids) = (if TextSet.has i visited then 0 else 1) + left_over visited ids

left_over-none :
    (visited : TextSet) (ids : List Text)
    → next_session visited ids ≡ none
    → left_over visited ids ≡ 0
unfolding left_over next_session
left_over-none visited [] h = refl
left_over-none visited (i ∷ ids) h = ground (arith, h, left_over-none visited ids)

left_over-absent :
    (i : Text) (visited : TextSet) (ids : List Text)
    → TextSet.has i ids ≡ false
    → left_over (TextSet.add i visited) ids ≡ left_over visited ids
unfolding left_over TextSet.has
left_over-absent i visited [] h = refl
left_over-absent i visited (j ∷ ids) h = ground (
  arith,
  h,
  text_eq_iff i j,
  text_eq_iff j i,
  TextSet.has-add i j visited,
  left_over-absent i visited ids,
)

left_over-add :
    (i : Text) (visited : TextSet) (ids : List Text)
    → Distinct ids
    → next_session visited ids ≡ some i
    → left_over visited ids ≡ left_over (TextSet.add i visited) ids + 1
unfolding left_over next_session
left_over-add i visited [] d h = cc
left_over-add i visited (j ∷ ids) d h = ground (
  arith,
  h,
  d,
  text_eq_refl i,
  text_eq_iff i j,
  TextSet.has-add i j visited,
  left_over-absent i visited ids,
  left_over-add i visited ids,
)

left_over-nil : (ids : List Text) → left_over [] ids ≡ length ids
unfolding left_over TextSet.has
left_over-nil [] = refl
left_over-nil (i ∷ ids) = omega (arith, left_over-nil ids)

module _ {ℓ} {P : Type ℓ} where
  rounds_lem :
      (bs : List Bool) (h : Hub) (l : Loop P) (ls : List (Loop P))
      → Distinct h.sessions
      → length bs ≡ left_over l.visited h.sessions + 1
      → (run (record { hub = h; loops = l ∷ ls }) (map advances bs)).0
        ≡ record { hub = h; loops = ls }
  unfolding run step advance visit
  rounds_lem [] h l ls d n = absurd (omega (arith, n))
  rounds_lem (b ∷ []) h l ls d n = elim (Option-cases (next_session l.visited h.sessions)) [
    | inl e ↦ ground (arith, e)
    | inr (i, e) ↦ absurd (omega (arith, n, left_over-add i l.visited h.sessions d e))
  ]
  rounds_lem (b ∷ c ∷ bs) h l ls d n = elim (Option-cases (next_session l.visited h.sessions)) [
    | inl e ↦ absurd (omega (arith, n, left_over-none l.visited h.sessions e))
    | inr (i, e) ↦
        let l' : Loop P = record l { visited = TextSet.add i l.visited } in
        let one : (advance b h (l ∷ ls)).0 ≡ record { hub = h; loops = l' ∷ ls } =
          ground (arith, e) in
        ap (λ (s : Publishing P). (run s (map advances (c ∷ bs))).0) one
        ∙ rounds_lem (c ∷ bs) h l' ls d (omega (arith, n, left_over-add i l.visited h.sessions d e))
  ]

  -- A publication comes back: where nothing else comes in between, its loop is left after one round for each
  -- session and one more, whatever the sessions want. The publications around it are as they were, and
  -- so are the sessions, and the number of its topic is one higher.
  pub publish_comes_back :
      (topic : Text) (payload : P) (h : Publishing P) (bs : List Bool)
      → Distinct h.hub.sessions
      → length bs ≡ TextSet.size h.hub.sessions + 1
      → ((run h (publishes topic payload ∷ map advances bs)).0.loops ≡ h.loops)
        × ((run h (publishes topic payload ∷ map advances bs)).0.hub.sessions ≡ h.hub.sessions)
        × (sequence_of (run h (publishes topic payload ∷ map advances bs)).0.hub topic
            ≡ sequence_of h.hub topic + 1)
  unfolding run step publish sequence_of
  publish_comes_back topic payload h bs d n =
      let seq = sequence_of h.hub topic + 1 in
      let l : Loop P = record { topic = topic; seq = seq; payload = payload; visited = [] } in
      let m : Hub = record (h.hub) { sequences = Map.set topic seq h.hub.sequences } in
      let all = rounds_lem bs m l h.loops d (omega (arith, n, left_over-nil h.hub.sessions)) in
      (
        ap (λ (r : Publishing P). r.loops) all,
        ap (λ (r : Publishing P). r.hub.sessions) all,
        ap (λ (r : Publishing P). sequence_of r.hub topic) all
            ∙ ground (arith, Map.get-set topic topic seq h.hub.sequences, text_eq_refl topic),
      )
