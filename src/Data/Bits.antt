-- ===== src/Data/Bits.antt =====
-- `|` on numbers that share no bit is `+`, which is what shifting into place relies on; `&` with a
-- mask of ones is a remainder.
use Prim.Native.Nat.{max, min, bit_or, bit_and, digits, bit_or-bitwise, bit_and-bitwise}
use native.Mathlib.Nat.{pow-suc}
use narra_leaf_team.Common.{
  ℕ, zero, suc, ◌+◌, ◌*◌, ◌/◌, ◌%◌, ◌^◌, ◌≤◌, ◌<◌, ◌≡◌, refl, sym, ap, ◌∙◌, arith,
}

-- A native operation by its binary digits: `pad` is what it does once the left number has run out,
-- and `bit` what it does to two digits.
module _ (pad : ℕ → ℕ) (bit : ℕ → ℕ → ℕ) where
  ran_out : (rounds y : ℕ) → digits pad bit rounds 0 y ≡ pad y
  ran_out zero y = refl
  ran_out (suc rounds) y = refl

  -- Rounds beyond the left number change nothing.
  more_rounds : (x y r s : ℕ) → x ≤ r → x ≤ s → digits pad bit r x y ≡ digits pad bit s x y
  more_rounds zero y r s _ _ = ran_out r y ∙ sym (ran_out s y)
  more_rounds (suc x) y zero s h _ = absurd (omega (arith, h))
  more_rounds (suc x) y (suc r) zero _ h = absurd (omega (arith, h))
  more_rounds (suc x) y (suc r) (suc s) h k =
      let rest = more_rounds (suc x / 2) (y / 2) r s (omega arith) (omega arith) in
      ap (λ (t : ℕ). t * 2 + bit (suc x % 2) (y % 2)) rest

  -- The lowest digit apart.
  lowest_digit :
      (f : ℕ → ℕ → ℕ) (by_digits : (x y : ℕ) → f x y ≡ digits pad bit x x y) (x y : ℕ)
      → f (suc x) y ≡ f (suc x / 2) (y / 2) * 2 + bit (suc x % 2) (y % 2)
  lowest_digit f by_digits x y =
      let half = suc x / 2 in
      by_digits (suc x) y
      ∙ ap (λ (t : ℕ). t * 2 + bit (suc x % 2) (y % 2))
          (more_rounds half (y / 2) x half (omega arith) (omega arith)
            ∙ sym (by_digits half (y / 2)))

or_zero : (y : ℕ) → bit_or 0 y ≡ y
or_zero y = bit_or-bitwise 0 y

or_lowest : (x y : ℕ) → bit_or x y ≡ bit_or (x / 2) (y / 2) * 2 + max (x % 2) (y % 2)
or_lowest zero y = ground (arith, or_zero y, or_zero (y / 2))
or_lowest (suc x) y = lowest_digit (λ t. t) max bit_or bit_or-bitwise x y

and_lowest : (x y : ℕ) → bit_and x y ≡ bit_and (x / 2) (y / 2) * 2 + min (x % 2) (y % 2)
and_lowest zero y = ground (arith, bit_and-bitwise 0 y, bit_and-bitwise 0 (y / 2))
and_lowest (suc x) y = lowest_digit (λ t. 0) min bit_and bit_and-bitwise x y

pub pow_step : (s : ℕ) → 2 ^ suc s ≡ 2 * 2 ^ s
pow_step s = omega (arith, pow-suc 2 s)

-- A number below 2 ^ s and a multiple of 2 ^ s.
pub bit_or_disjoint : (s v w : ℕ) → v < 2 ^ s → bit_or v (w * 2 ^ s) ≡ v + w * 2 ^ s
bit_or_disjoint zero v w h = let e : v ≡ 0 = omega arith in ground (arith, or_zero (w * 2 ^ 0))
bit_or_disjoint (suc s) v w h =
    let high = w * 2 ^ s in
    let even : w * 2 ^ suc s ≡ high * 2 = omega (arith, ap (λ (t : ℕ). w * t) (pow_step s)) in
    let halved : high * 2 / 2 ≡ high = omega arith in
    let below = bit_or_disjoint s (v / 2) w (omega (arith, pow_step s)) in
    rw even (or_lowest v (high * 2) ∙ rw halved (omega (arith, below)))

-- The mask of one digit, by the size of the number.
and_none : (size x : ℕ) → x ≤ size → bit_and x 0 ≡ 0
and_none zero x h =
    omega (arith, and_lowest x 0, bit_and-bitwise 0 0, ap (λ (t : ℕ). bit_and t 0) (x_zero x h))
  where
    x_zero : (y : ℕ) → y ≤ 0 → y ≡ 0
    x_zero y k = omega arith
and_none (suc size) zero h = refl
and_none (suc size) (suc x) h =
    let smaller = and_none size (suc x / 2) (omega arith) in
    ground (arith, and_lowest (suc x) 0, smaller)

bit_and_three : (x : ℕ) → bit_and x 3 ≡ x % 4
bit_and_three x =
    let quarter = x / 2 / 2 in
    omega (arith, and_lowest x 3, and_lowest (x / 2) 1, and_none quarter quarter (omega arith))

pub bit_and_seven : (x : ℕ) → bit_and x 7 ≡ x % 8
bit_and_seven x = omega (arith, bit_and_three (x / 2), and_lowest x 7)

-- The mask of seven ones.
pub bit_and_septet : (x : ℕ) → bit_and x 127 ≡ x % 128
bit_and_septet x =
    let top : bit_and (x / 2 / 2) 31 ≡ x / 2 / 2 % 32 = omega (
      arith,
      bit_and_seven (x / 2 / 2 / 2 / 2),
      and_lowest (x / 2 / 2) 31,
      and_lowest (x / 2 / 2 / 2) 15,
    ) in
    omega (arith, top, and_lowest x 127, and_lowest (x / 2) 63)
