-- ===== src/Common/Texts.antt =====
-- A JavaScript string as the list of its UTF-16 code units.
use Prim.Native.Char.{code}
use Prim.Native.Nat.{ℕ}
use Prim.Native.String.{String}
use mathlib.Core.Path.{◌≡◌, refl}
use mathlib.Core.Logic.{◌↔◌, ◌⊎◌, inl, inr}
use mathlib.Core.Bool.{Bool, true, false, ◌&&◌, ◌||◌}
use mathlib.Core.List.{List, [], ◌∷◌}
use native.Mathlib.Omega.{arith}
use narra_leaf_team.Common.Tests.{◌==◌, ltb}

abbrev pub Text : Type 0
Text = List ℕ

-- The code units of an ASCII literal.
abbrev pub codes : String → Text
codes String.[] = []
codes (String.◌∷◌ c s) = code c ∷ codes s

-- `===` on strings.
unfoldable pub text_eq : Text → Text → Bool
text_eq [] [] = true
text_eq [] (d ∷ t) = false
text_eq (c ∷ s) [] = false
text_eq (c ∷ s) (d ∷ t) = c == d && text_eq s t

pub text_eq_iff : (s t : Text) → (text_eq s t ≡ true) ↔ (s ≡ t)
unfolding text_eq
text_eq_iff [] [] = (λ e. refl, λ e. refl)
text_eq_iff [] (d ∷ t) = (λ e. cc, λ e. cc)
text_eq_iff (c ∷ s) [] = (λ e. cc, λ e. cc)
text_eq_iff (c ∷ s) (d ∷ t) = ground (arith, text_eq_iff s t)

pub text_eq_refl : (s : Text) → text_eq s s ≡ true
text_eq_refl s = (text_eq_iff s s).1 refl

-- Two texts are equal or not, with the test's value.
pub text_eq_cases :
    (s t : Text) → ((s ≡ t) × (text_eq s t ≡ true)) ⊎ ((¬ (s ≡ t)) × (text_eq s t ≡ false))
text_eq_cases s t = go (text_eq s t) refl
  where
    go :
        (b : Bool)
        → text_eq s t ≡ b
        → ((s ≡ t) × (text_eq s t ≡ true)) ⊎ ((¬ (s ≡ t)) × (text_eq s t ≡ false))
    go true e = inl ((text_eq_iff s t).0 e, e)
    go false e = inr (λ p. cc ((text_eq_iff s t).1 p), e)

-- `String.prototype.startsWith`.
unfoldable pub starts_with : Text → Text → Bool
starts_with p [] = text_eq p []
starts_with [] (c ∷ s) = true
starts_with (d ∷ p) (c ∷ s) = d == c && starts_with p s

-- The order of texts by their code units.
unfoldable pub text_lt : Text → Text → Bool
text_lt s [] = false
text_lt [] (d ∷ t) = true
text_lt (c ∷ s) (d ∷ t) = ltb c d || (c == d && text_lt s t)

pub text_lt_irreflexive : (s : Text) → text_lt s s ≡ false
unfolding text_lt
text_lt_irreflexive [] = refl
text_lt_irreflexive (c ∷ s) = ground (arith, text_lt_irreflexive s)

pub text_lt_trans : (s t u : Text) → text_lt s t ≡ true → text_lt t u ≡ true → text_lt s u ≡ true
unfolding text_lt
text_lt_trans s [] u h k = cc
text_lt_trans s (d ∷ t) [] h k = cc
text_lt_trans [] (d ∷ t) (e ∷ u) h k = refl
text_lt_trans (c ∷ s) (d ∷ t) (e ∷ u) h k = grind (arith, text_lt_trans s t u)

pub text_lt_linear : (s t : Text) → ¬ (s ≡ t) → text_lt s t ≡ false → text_lt t s ≡ true
unfolding text_lt
text_lt_linear [] [] h k = absurd (h refl)
text_lt_linear (c ∷ s) [] h k = refl
text_lt_linear [] (d ∷ t) h k = cc
text_lt_linear (c ∷ s) (d ∷ t) h k = grind (arith, text_lt_linear s t)
