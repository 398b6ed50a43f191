-- ===== src/Team/Hub/Sequence.antt =====
-- The sequence of a topic over any history of the hub.
use narra_leaf_team.Common.{
  ℕ, ◌+◌, ◌≡◌, refl, ap, Bool, Option, none, some, true, false, List, [], ◌∷◌, arith, if◌then◌else◌,
  Text, text_eq, text_eq_iff,
}
use narra_leaf_team.Data.Map
use narra_leaf_team.Team.Hub.{
  Hub, HubStep, Publishing, adds, removes, publishes, advances, forgets, ends, clears, Loop, visit,
  advance, next_session, sequence_of, step, run,
}

module _ {ℓ} {P : Type ℓ} where
  -- How often a history publishes on a topic.
  unfoldable pub published : Text → List (HubStep P) → ℕ
  published t [] = 0
  published t (publishes u p ∷ ss) = (if text_eq u t then 1 else 0) + published t ss
  published t (_ ∷ ss) = published t ss

  -- Whether a history forgets a topic.
  unfoldable pub forgotten : Text → List (HubStep P) → Bool
  forgotten t [] = false
  forgotten t (forgets u ∷ ss) = if text_eq u t then true else forgotten t ss
  forgotten t (_ ∷ ss) = forgotten t ss

  pub hub-advance : (b : Bool) (h : Hub) (ls : List (Loop P)) → (advance b h ls).0.hub ≡ h
  unfolding advance visit
  hub-advance b h [] = refl
  hub-advance b h (l ∷ ls) = hub-visit (next_session l.visited h.sessions)
    where
      hub-visit : (o : Option Text) → (visit b l ls h o).0.hub ≡ h
      hub-visit none = refl
      hub-visit (some id) = refl

  pub sequence_of-step :
      (t : Text) (h : Publishing P) (s : HubStep P)
      → forgotten t (s ∷ []) ≡ false
      → sequence_of (step h s).0.hub t ≡ sequence_of h.hub t + published t (s ∷ [])
  unfolding step sequence_of published forgotten
  sequence_of-step t h (adds id) n = omega arith
  sequence_of-step t h (removes id) n = omega arith
  sequence_of-step t h (publishes u p) n =
      ground (arith, Map.get-set u t (sequence_of h.hub u + 1) h.hub.sequences, text_eq_iff u t)
  sequence_of-step t h (advances b) n =
      ground (arith, ap (λ (m : Hub). sequence_of m t) (hub-advance b h.hub h.loops))
  sequence_of-step t h (forgets u) n = ground (arith, Map.get-delete u t h.hub.sequences)
  sequence_of-step t h (ends m id) n = omega arith
  sequence_of-step t h clears n = omega arith

  published-cons :
      (t : Text) (s : HubStep P) (ss : List (HubStep P))
      → published t (s ∷ ss) ≡ published t (s ∷ []) + published t ss
  unfolding published
  published-cons t (publishes u p) ss = omega arith
  published-cons t _ ss = omega arith

  pub forgotten-cons :
      (t : Text) (s : HubStep P) (ss : List (HubStep P))
      → forgotten t (s ∷ ss) ≡ false
      → (forgotten t (s ∷ []) ≡ false) × (forgotten t ss ≡ false)
  unfolding forgotten
  forgotten-cons t (forgets u) ss h = ground arith
  forgotten-cons t _ ss h = ground arith

  -- Over any history that does not forget the topic, its sequence grows by exactly the number of
  -- times that the history publishes on it, whoever joins, leaves or
  -- listens, and whatever is published while a publication is being handed round.
  pub sequence_of-run :
      (t : Text) (h : Publishing P) (ss : List (HubStep P))
      → forgotten t ss ≡ false
      → sequence_of (run h ss).0.hub t ≡ sequence_of h.hub t + published t ss
  unfolding run
  sequence_of-run t h [] n = unfold published in omega arith
  sequence_of-run t h (s ∷ ss) n = omega (
    arith,
    published-cons t s ss,
    sequence_of-step t h s (forgotten-cons t s ss n).0,
    sequence_of-run t (step h s).0 ss (forgotten-cons t s ss n).1,
  )
