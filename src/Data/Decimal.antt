-- ===== src/Data/Decimal.antt =====
-- `String(n)` of a whole number, and the number that decimal digits spell.
use mathlib.Core.Logic.{dite, dif_pos}
use mathlib.Core.WellFounded.{Acc}
use native.Mathlib.Bridge.{le_prop}
use native.Mathlib.Decide.{dec_lt}
use narra_leaf_team.Common.{
  ℕ, zero, suc, ◌+◌, ◌-◌, ◌*◌, ◌/◌, ◌%◌, ◌<◌, ◌≤◌, ◌≡◌, ◌≢◌, refl, sym, ap, ◌∙◌, Bool, ◌&&◌, Option,
  none, some, [], ◌∷◌, ◌++◌, if◌then◌else◌, leb, arith, All, All-append, append_there, lt_wf, Text,
  append_assoc, append-nil,
}

pub tenth_shrinks : (v : ℕ) → 0 < v / 10 → v / 10 < v
tenth_shrinks v h = omega arith

unfoldable pub digits : (n : ℕ) → Acc ◌<◌ n → Text
digits n (Acc.intro _ smaller) =
    dite (dec_lt 0 (n / 10))
      (λ more. digits (n / 10) (smaller _ (tenth_shrinks n more)) ++ ((b'0' + n % 10) ∷ []))
      (λ _. (b'0' + n % 10) ∷ [])

unfoldable pub decimal : ℕ → Text
unfolding digits lt_wf
decimal n = digits n (lt_wf.apply n)

abbrev pub is_digit : ℕ → Bool
is_digit c = leb b'0' c && leb c (b'0' + 9)

unfoldable pub read_digits : ℕ → Text → Option ℕ
read_digits v [] = some v
read_digits v (c ∷ cs) =
    let rest = read_digits (v * 10 + (c - b'0')) cs in if is_digit c then rest else none

-- The number that a text of decimal digits spells.
unfoldable pub read_decimal : Text → Option ℕ
unfolding read_digits
read_decimal [] = none
read_decimal (c ∷ cs) = read_digits 0 (c ∷ cs)

digits_last : (n : ℕ) (a : Acc ◌<◌ n) → n < 10 → digits n a ≡ (b'0' + n) ∷ []
unfolding digits
digits_last n (Acc.intro _ smaller) h = ground arith

digits_more :
    (n : ℕ) (a : Acc ◌<◌ n)
    → 10 ≤ n
    → (a' : Acc ◌<◌ (n / 10)) × (digits n a ≡ digits (n / 10) a' ++ ((b'0' + n % 10) ∷ []))
unfolding digits
digits_more n (Acc.intro _ smaller) h =
    let p : 0 < n / 10 = omega arith in
    (smaller (n / 10) (tenth_shrinks n p), rw (dif_pos _ le_prop p) refl)

digit_step :
    (v d : ℕ) (cs : Text) → d < 10 → read_digits v ((b'0' + d) ∷ cs) ≡ read_digits (v * 10 + d) cs
unfolding read_digits
digit_step v d cs h = ground arith

digits_below :
    (P : ℕ → Type 0)
    → ((d : ℕ) → d < 10 → P (b'0' + d))
    → (k n : ℕ) (a : Acc ◌<◌ n) → n < k
    → All P (digits n a)
digits_below P h zero n a l = absurd (omega arith)
digits_below P h (suc k) n a l = elim (dec_lt n 10) [
  | yes small ↦ rw (digits_last n a small) (h n small, tt)
  | no large ↦
      let (a', e) = digits_more n a (omega arith) in
      let last = h (n % 10) (omega arith) in
      rw e (
        All-append P (digits (n / 10) a') ((b'0' + n % 10) ∷ [])
          (digits_below P h k (n / 10) a' (omega arith)) (last, tt))
]

-- What every digit is, holds of all that is printed.
pub All-decimal : (P : ℕ → Type 0) → ((d : ℕ) → d < 10 → P (b'0' + d)) → (n : ℕ) → All P (decimal n)
unfolding decimal
All-decimal P h n = digits_below P h (suc n) n (lt_wf.apply n) (omega arith)

read_digits-digits :
    (k n : ℕ) (a : Acc ◌<◌ n) (cs : Text)
    → n < k
    → read_digits 0 (digits n a ++ cs) ≡ read_digits n cs
read_digits-digits zero n a cs l = absurd (omega arith)
read_digits-digits (suc k) n a cs l = elim (dec_lt n 10) [
  | yes small ↦
      rw (digits_last n a small)
        (digit_step 0 n cs small ∙ ap (λ (v : ℕ). read_digits v cs) (omega arith))
  | no large ↦
      let (a', e) = digits_more n a (omega arith) in
      let tail = (b'0' + n % 10) ∷ cs in
      let whole : n / 10 * 10 + n % 10 ≡ n = omega arith in
      rw e (
        ap (read_digits 0) (append_assoc (digits (n / 10) a') ((b'0' + n % 10) ∷ []) cs)
        ∙ read_digits-digits k (n / 10) a' tail (omega arith)
        ∙ digit_step (n / 10) (n % 10) cs (omega arith)
        ∙ ap (λ (v : ℕ). read_digits v cs) whole)
]

digits_there : (n : ℕ) (a : Acc ◌<◌ n) → digits n a ≢ []
digits_there n a e = elim (dec_lt n 10) [
  | yes small ↦ let last = digits_last n a small in cc
  | no large ↦
      let (a', p) = digits_more n a (omega arith) in
      append_there (digits (n / 10) a') (b'0' + n % 10) (sym p ∙ e)
]

read_decimal-some : (t : Text) (n : ℕ) → t ≢ [] → read_digits 0 t ≡ some n → read_decimal t ≡ some n
unfolding read_decimal
read_decimal-some [] n h e = absurd (h refl)
read_decimal-some (c ∷ t) n h e = e

-- A number that was printed is read back.
pub read_decimal-decimal : (n : ℕ) → read_decimal (decimal n) ≡ some n
unfolding decimal
read_decimal-decimal n =
    let read = read_digits-digits (suc n) n (lt_wf.apply n) [] (omega arith) in
    read_decimal-some (decimal n) n (digits_there n (lt_wf.apply n))
      (unfold read_digits in ap (read_digits 0) (sym (append-nil (decimal n))) ∙ read)
