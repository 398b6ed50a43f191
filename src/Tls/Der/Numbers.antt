-- ===== src/Tls/Der/Numbers.antt =====
-- An unsigned number keeps its value, stays positive and takes no byte too many.
use Prim.Native.Nat.{bit_and}
use narra_leaf_team.Common.{
  ℕ, ◌+◌, ◌*◌, ◌≤◌, ◌<◌, ◌≡◌, ◌≢◌, inl, inr, refl, ap, ◌∙◌, [], ◌∷◌, ◌==◌, arith, length, All,
  Bool-cases, some,
}
use narra_leaf_team.Data.Bytes.{Bytes, top_bit}
use narra_leaf_team.Tls.Der.{ok, trimmed, unsigned_content, unsigned_integer, tag_integer}
use narra_leaf_team.Tls.Der.Lengths.{from_bytes, read_tlv, maximum_content}
use narra_leaf_team.Tls.Der.Values.{value_bytes, tlv-value_bytes, read_tlv-value_bytes}

-- Two's complement with the sign of a positive number, in the fewest bytes: the first bit is clear, and a
-- leading zero stands only before a byte whose first bit is set.
abbrev pub IsMinimal : Bytes → Type 0
IsMinimal [] = ⊥
IsMinimal (b ∷ []) = b < 128
IsMinimal (b ∷ c ∷ bytes) = (b < 128) × (b ≡ 0 → 128 ≤ c)

from_bytes-trimmed : (bytes : Bytes) → from_bytes 0 (trimmed bytes) ≡ from_bytes 0 bytes
unfolding trimmed
from_bytes-trimmed [] = refl
from_bytes-trimmed (b ∷ []) = refl
from_bytes-trimmed (b ∷ c ∷ bytes) = elim (Bool-cases (b == 0)) [
  | inl e ↦
      let zeroed : b ≡ 0 = ground (arith, e) in
      let same : c ≡ (0 * 256 + b) * 256 + c = omega (arith, zeroed) in
      ground (arith, e, from_bytes-trimmed (c ∷ bytes), ap (λ (v : ℕ). from_bytes v bytes) same)
  | inr e ↦ rw e refl
]

-- What is left of the bytes begins with a zero only where it is all.
abbrev pub IsTrimmed : Bytes → Type 0
IsTrimmed [] = Unit {0}
IsTrimmed (b ∷ []) = Unit {0}
IsTrimmed (b ∷ c ∷ bytes) = b ≢ 0

trimmed-IsTrimmed : (bytes : Bytes) → IsTrimmed (trimmed bytes)
unfolding trimmed
trimmed-IsTrimmed [] = tt
trimmed-IsTrimmed (b ∷ []) = tt
trimmed-IsTrimmed (b ∷ c ∷ bytes) = elim (Bool-cases (b == 0)) [
  | inl e ↦ rw e (trimmed-IsTrimmed (c ∷ bytes))
  | inr e ↦ rw e (λ z. ground (arith, e, z))
]

All-trimmed : (bytes : Bytes) → All (λ b. b < 256) bytes → All (λ b. b < 256) (trimmed bytes)
unfolding trimmed
All-trimmed [] h = tt
All-trimmed (b ∷ []) h = h
All-trimmed (b ∷ c ∷ bytes) h = elim (Bool-cases (b == 0)) [
  | inl e ↦ rw e (All-trimmed (c ∷ bytes) h.1)
  | inr e ↦ rw e h
]

length-trimmed : (bytes : Bytes) → length (trimmed bytes) ≤ length bytes
unfolding trimmed
length-trimmed [] = omega arith
length-trimmed (b ∷ []) = omega arith
length-trimmed (b ∷ c ∷ bytes) = ground (arith, length-trimmed (c ∷ bytes))

-- What the content of a number comes to, from the bytes that are left of it.
unsigned_content_lem :
    (bytes : Bytes)
    → IsTrimmed bytes
    → All (λ b. b < 256) bytes
    → IsMinimal (unsigned_content bytes)
      × (from_bytes 0 (unsigned_content bytes) ≡ from_bytes 0 bytes)
      × (length (unsigned_content bytes) ≤ length bytes + 1)
unfolding unsigned_content
unsigned_content_lem [] t h = (omega arith, omega arith, omega arith)
unsigned_content_lem (b ∷ bytes) t h = elim (Bool-cases (bit_and b 0x80 == 0)) [
  | inl e ↦
      let low : b < 128 = ground (arith, e, top_bit b h.0) in
      rw e (minimal b bytes t low, refl, omega arith)
  | inr e ↦
      let high : 128 ≤ b = ground (arith, e, top_bit b h.0) in
      let same : (0 * 256 + 0) * 256 + b ≡ 0 * 256 + b = omega arith in
      rw e ((omega arith, λ z. high), ap (λ (v : ℕ). from_bytes v bytes) same, omega arith)
]
  where
    minimal : (b : ℕ) (bytes : Bytes) → IsTrimmed (b ∷ bytes) → b < 128 → IsMinimal (b ∷ bytes)
    minimal b [] t low = low
    minimal b (c ∷ bytes) t low = (low, λ z. absurd (t z))

-- Bytes that spell an unsigned number, however many zeroes they begin with, are written as an integer
-- that a reader of definite lengths finds, of the same number, with the sign of a positive one and in
-- the fewest bytes.
pub unsigned_integer_lem :
    (bytes : Bytes)
    → All (λ b. b < 256) bytes
    → length bytes < maximum_content
    → (encoded content : Bytes) × (unsigned_integer bytes ≡ ok encoded)
      × (read_tlv encoded ≡ some (tag_integer, content, []))
      × IsMinimal content
      × (from_bytes 0 content ≡ from_bytes 0 bytes)
unfolding unsigned_integer
unsigned_integer_lem bytes h few =
    let kept = trimmed bytes in
    let content = unsigned_content kept in
    let (minimal, value, size) =
      unsigned_content_lem kept (trimmed-IsTrimmed bytes) (All-trimmed bytes h) in
    let short : length content ≤ maximum_content = omega (arith, size, few, length-trimmed bytes) in
    (
      value_bytes (tag_integer, content),
      content,
      tlv-value_bytes (tag_integer, content) (omega arith, short),
      read_tlv-value_bytes (tag_integer, content) (omega arith, short),
      minimal,
      value ∙ from_bytes-trimmed bytes,
    )
