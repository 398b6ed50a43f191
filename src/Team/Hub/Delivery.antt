-- ===== src/Team/Hub/Delivery.antt =====
-- What one subscriber is handed over a history of the hub, in which a publication may begin while another
-- is still being handed round.
use narra_leaf_team.Common.{
  ℕ, ◌+◌, ◌≤◌, ◌≡◌, refl, sym, ap, ◌∙◌, Bool, true, false, ◌&&◌, not, none, some, List, [], ◌∷◌,
  ◌++◌, arith, if◌then◌else◌, ltb, leb, ◌==◌, Text, text_eq, text_eq_iff, Option-cases, inl, inr,
}
use narra_leaf_team.Data.TextSet
use narra_leaf_team.Data.TextSet.{TextSet}
use narra_leaf_team.Team.Hub.{
  Hub, HubCall, deliver, end, Loop, Publishing, HubStep, adds, removes, publishes, advances,
  forgets, ends, clears, sequence_of, next_session, publish, visit, advance, forget_visit, step,
  run,
}
use narra_leaf_team.Team.Hub.Sequence.{sequence_of-step, published, forgotten, hub-advance}

-- Whether a number lies above the first of two and not above the second.
abbrev pub within : ℕ → ℕ → ℕ → ℕ
within a b n = if ltb a n && leb n b then 1 else 0

within-split : (a b c n : ℕ) → a ≤ b → b ≤ c → within a b n + within b c n ≡ within a c n
within-split a b c n h k = ground (arith, h, k)

next-none :
    (id : Text) (visited ids : TextSet)
    → next_session visited ids ≡ none
    → TextSet.has id ids ≡ true
    → TextSet.has id visited ≡ true
unfolding next_session TextSet.has
next-none id visited [] h k = absurd (ground (arith, k))
next-none id visited (i ∷ ids) h k =
    ground (arith, h, k, text_eq_iff i id, next-none id visited ids)

next-some :
    (i : Text) (visited ids : TextSet)
    → next_session visited ids ≡ some i
    → TextSet.has i visited ≡ false
unfolding next_session
next-some i visited [] h = cc
next-some i visited (j ∷ ids) h = ground (arith, h, next-some i visited ids)

module _ {ℓ} {P : Type ℓ} where
  -- How often one session was handed the event of one number on a topic.
  unfoldable pub heard : Text → Text → ℕ → List (HubCall P) → ℕ
  heard id t n [] = 0
  heard id t n (deliver i u m p ∷ cs) =
      (if text_eq i id && (text_eq u t && (m == n)) then 1 else 0) + heard id t n cs
  heard id t n (end i m ∷ cs) = heard id t n cs

  -- How many loops have that event still to hand to that session.
  unfoldable pub waiting : Text → Text → ℕ → List (Loop P) → ℕ
  waiting id t n [] = 0
  waiting id t n (l ∷ ls) =
      (if text_eq l.topic t && ((l.seq == n) && not (TextSet.has id l.visited)) then 1 else 0)
      + waiting id t n ls

  -- What the innermost loop does next for one session and one topic is to ask it.
  unfoldable pub is_turn : Text → Text → Hub → List (Loop P) → Bool
  is_turn id t h [] = false
  is_turn id t h (l ∷ ls) =
      text_eq l.topic t
      && elim (next_session l.visited h.sessions) [ none ↦ false | some i ↦ text_eq i id ]

  -- A step that leaves the session in the hub and the topic counted; asked, the session wants it.
  unfoldable pub keeps : Text → Text → Publishing P → HubStep P → Bool
  unfolding is_turn
  keeps id t h (removes i) = not (text_eq i id)
  keeps id t h (forgets u) = not (text_eq u t)
  keeps id t h clears = false
  keeps id t h (advances wants) = if is_turn id t h.hub h.loops then wants else true
  keeps id t h _ = true

  unfoldable pub all_keep : Text → Text → Publishing P → List (HubStep P) → Bool
  unfolding keeps
  all_keep id t h [] = true
  all_keep id t h (s ∷ ss) = keeps id t h s && all_keep id t (step h s).0 ss

  heard-append :
      (id t : Text) (n : ℕ) (cs ds : List (HubCall P))
      → heard id t n (cs ++ ds) ≡ heard id t n cs + heard id t n ds
  unfolding heard
  heard-append id t n [] ds = omega arith
  heard-append id t n (deliver i u m p ∷ cs) ds = omega (arith, heard-append id t n cs ds)
  heard-append id t n (end i m ∷ cs) ds = heard-append id t n cs ds

  waiting-forget_visit :
      (i id t : Text) (n : ℕ) (ls : List (Loop P))
      → text_eq i id ≡ false
      → waiting id t n (forget_visit i ls) ≡ waiting id t n ls
  unfolding waiting forget_visit
  waiting-forget_visit i id t n [] h = refl
  waiting-forget_visit i id t n (l ∷ ls) h =
      ground (arith, h, TextSet.has-delete i id l.visited, waiting-forget_visit i id t n ls h)

  -- One round of a loop: what it hands over, it no longer has to.
  advance-heard :
      (id t : Text) (n : ℕ) (wants : Bool) (h : Hub) (ls : List (Loop P))
      → TextSet.has id h.sessions ≡ true
      → (if is_turn id t h ls then wants else true) ≡ true
      → heard id t n (advance wants h ls).1 + waiting id t n (advance wants h ls).0.loops
        ≡ waiting id t n ls
  unfolding advance visit heard waiting is_turn
  advance-heard id t n wants h [] there k = refl
  advance-heard id t n wants h (l ∷ ls) there k =
      elim (Option-cases (next_session l.visited h.sessions)) [
        | inl e ↦ ground (arith, e, next-none id l.visited h.sessions e there)
        | inr (i, e) ↦ ground (
          arith,
          e,
          k,
          text_eq_iff i id,
          TextSet.has-add i id l.visited,
          next-some i l.visited h.sessions e,
        )
      ]

  step-there :
      (id t : Text) (h : Publishing P) (s : HubStep P)
      → keeps id t h s ≡ true
      → TextSet.has id h.hub.sessions ≡ true
      → TextSet.has id (step h s).0.hub.sessions ≡ true
  unfolding step keeps
  step-there id t h (adds i) k o = ground (arith, o, TextSet.has-add i id h.hub.sessions)
  step-there id t h (removes i) k o = ground (arith, k, o, TextSet.has-delete i id h.hub.sessions)
  step-there id t h (publishes u p) k o = unfold publish in o
  step-there id t h (advances b) k o =
      ap (λ (m : Hub). TextSet.has id m.sessions) (hub-advance b h.hub h.loops) ∙ o
  step-there id t h (forgets u) k o = o
  step-there id t h (ends m i) k o = o
  step-there id t h clears k o = cc

  -- One step hands over, or leaves to the loops, what they had and what it publishes.
  step-heard :
      (id t : Text) (n : ℕ) (h : Publishing P) (s : HubStep P)
      → keeps id t h s ≡ true
      → TextSet.has id h.hub.sessions ≡ true
      → heard id t n (step h s).1 + waiting id t n (step h s).0.loops
        ≡ waiting id t n h.loops
          + within (sequence_of h.hub t) (sequence_of h.hub t + published t (s ∷ [])) n
  unfolding step keeps heard published
  step-heard id t n h (adds i) k o = ground arith
  step-heard id t n h (removes i) k o = ground (arith, k, waiting-forget_visit i id t n h.loops)
  step-heard id t n h (publishes u p) k o =
      unfold publish waiting TextSet.has in ground (arith, text_eq_iff u t)
  step-heard id t n h (advances b) k o = ground (arith, advance-heard id t n b h.hub h.loops o k)
  step-heard id t n h (forgets u) k o = ground arith
  step-heard id t n h (ends m i) k o = ground arith
  step-heard id t n h clears k o = cc

  keeps-counted :
      (id t : Text) (h : Publishing P) (s : HubStep P)
      → keeps id t h s ≡ true
      → forgotten t (s ∷ []) ≡ false
  unfolding keeps forgotten
  keeps-counted id t h (forgets u) k = ground (arith, k)
  keeps-counted id t h _ k = refl

  -- The same of a history, from any loops to any loops.
  run-heard :
      (id t : Text) (n : ℕ) (h : Publishing P) (ss : List (HubStep P))
      → all_keep id t h ss ≡ true
      → TextSet.has id h.hub.sessions ≡ true
      → (sequence_of h.hub t ≤ sequence_of (run h ss).0.hub t)
        × (heard id t n (run h ss).1 + waiting id t n (run h ss).0.loops
            ≡ waiting id t n h.loops
              + within (sequence_of h.hub t) (sequence_of (run h ss).0.hub t) n)
  unfolding run all_keep
  run-heard id t n h [] k o = (omega arith, unfold heard in ground arith)
  run-heard id t n h (s ∷ ss) k o =
      let k1 : keeps id t h s ≡ true = ground (arith, k) in
      let k2 : all_keep id t (step h s).0 ss ≡ true = ground (arith, k) in
      let (up, rest) = run-heard id t n (step h s).0 ss k2 (step-there id t h s k1 o) in
      let counted = sequence_of-step t h s (keeps-counted id t h s k1) in
      let one = step-heard id t n h s k1 o in
      let split = heard-append id t n (step h s).1 (run (step h s).0 ss).1 in
      let whole : within (sequence_of h.hub t) (sequence_of (step h s).0.hub t) n
            + within (sequence_of (step h s).0.hub t) (sequence_of (run (step h s).0 ss).0.hub t) n
          ≡ within (sequence_of h.hub t) (sequence_of (run (step h s).0 ss).0.hub t) n =
        within-split (sequence_of h.hub t) (sequence_of (step h s).0.hub t)
          (sequence_of (run (step h s).0 ss).0.hub t) n (omega (arith, counted)) up in
      let one' =
        one
        ∙ ap (λ (m : ℕ). waiting id t n h.loops + within (sequence_of h.hub t) m n) (sym counted) in
      (omega (arith, up, counted), omega (arith, split, whole, one', rest))

  -- From no publication under way to none under way: a session that stays in the hub, and wants the
  -- topic whenever it is asked, is handed each of the events that were numbered on it in between
  -- exactly once and no other, over a history that does not forget the topic, in whatever way the
  -- publications begin in the middle of one another. Which of two such comes first is left open.
  pub heard-run :
      (id t : Text) (n : ℕ) (h : Publishing P) (ss : List (HubStep P))
      → all_keep id t h ss ≡ true
      → TextSet.has id h.hub.sessions ≡ true
      → h.loops ≡ []
      → (run h ss).0.loops ≡ []
      → heard id t n (run h ss).1 ≡ within (sequence_of h.hub t) (sequence_of (run h ss).0.hub t) n
  heard-run id t n h ss k o begin over =
      let (up, all) = run-heard id t n h ss k o in
      let before : waiting id t n h.loops ≡ 0 =
        ap (waiting id t n) begin ∙ (unfold waiting in refl) in
      let after : waiting id t n (run h ss).0.loops ≡ 0 =
        ap (waiting id t n) over ∙ (unfold waiting in refl) in
      omega (arith, all, before, after)
