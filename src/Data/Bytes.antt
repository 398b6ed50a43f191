-- ===== src/Data/Bytes.antt =====
-- Bytes and the bit operations on them as arithmetic, for the codecs. A `Buffer` is a list of numbers
-- below 256.
use Prim.Native.Nat.{bit_and, bit_or}
use narra_leaf_team.Common.{
  ℕ, zero, suc, ◌+◌, ◌*◌, ◌/◌, ◌%◌, ◌^◌, ◌<◌, ◌≡◌, refl, Bool, true, ◌&&◌, arith, List, [], ◌∷◌,
  ◌==◌,
}

abbrev pub IsByte : ℕ → Type 0
IsByte b = b < 256

abbrev pub Bytes : Type 0
Bytes = List ℕ

-- Two functions agree below a bound: a table that is checked by evaluation.
module _ (f g : ℕ → ℕ) where
  agree_below : ℕ → Bool
  agree_below zero = true
  agree_below (suc n) = f n == g n && agree_below n

  agree_below_lem : (n : ℕ) → agree_below n ≡ true → (i : ℕ) → i < n → f i ≡ g i
  unfolding agree_below
  agree_below_lem zero e i h = absurd (omega arith)
  agree_below_lem (suc n) e i h = ground (arith, agree_below_lem n (ground arith) i)

pub low_seven : (b : ℕ) → b < 256 → bit_and b 0x7f ≡ b % 128
unfolding agree_below
low_seven = agree_below_lem _ _ 256 refl

pub top_bit : (b : ℕ) → b < 256 → bit_and b 0x80 ≡ b / 128 * 128
unfolding agree_below
top_bit = agree_below_lem _ _ 256 refl

pub set_top_bit : (b : ℕ) → b < 128 → bit_or b 0x80 ≡ b + 128
unfolding agree_below
set_top_bit = agree_below_lem _ _ 128 refl

pub low_four : (b : ℕ) → b < 256 → bit_and b 0x0f ≡ b % 16
unfolding agree_below
low_four = agree_below_lem _ _ 256 refl

pub reserved_bits : (b : ℕ) → b < 256 → bit_and b 0x70 ≡ b / 16 % 8 * 16
unfolding agree_below
reserved_bits = agree_below_lem _ _ 256 refl

-- `writeUInt32BE` and `readUInt32BE`.
unfoldable pub write_uint32_be : ℕ → Bytes
write_uint32_be n = (n / 2 ^ 24 % 256) ∷ (n / 2 ^ 16 % 256) ∷ (n / 2 ^ 8 % 256) ∷ (n % 256) ∷ []

unfoldable pub read_uint32_be : ℕ → ℕ → ℕ → ℕ → ℕ
read_uint32_be a b c d = a * 2 ^ 24 + b * 2 ^ 16 + c * 2 ^ 8 + d

pub uint32_be :
    (n : ℕ)
    → n < 2 ^ 32
    → read_uint32_be (n / 2 ^ 24 % 256) (n / 2 ^ 16 % 256) (n / 2 ^ 8 % 256) (n % 256) ≡ n
unfolding read_uint32_be
uint32_be n h = omega arith
