-- ===== src/Tls/Der/Lengths.antt =====
-- Reading back a tag, a length and a content, as a reader of definite lengths does.
use mathlib.Core.Logic.{dif_pos}
use mathlib.Core.WellFounded.{Acc}
use native.Mathlib.Bridge.{le_prop}
use native.Mathlib.Decide.{dec_lt}
use Prim.Native.Nat.{bit_or}
use narra_leaf_team.Common.{
  ℕ, zero, suc, ◌+◌, ◌-◌, ◌*◌, ◌/◌, ◌%◌, ◌<◌, ◌≤◌, ◌^◌, ◌≡◌, refl, ap, ◌∙◌, Option, none, some, [],
  ◌∷◌, ◌++◌, if◌then◌else◌, ltb, leb, arith, lt_wf, length, take, drop, length-append, take-append,
  drop-append,
}
use narra_leaf_team.Data.Bytes.{Bytes, set_top_bit}
use narra_leaf_team.Tls.Der.{byte_shrinks, length_bytes, encode_length}

-- The number that bytes spell, the most significant first.
abbrev pub from_bytes : ℕ → Bytes → ℕ
from_bytes v [] = v
from_bytes v (b ∷ bytes) = from_bytes (v * 256 + b) bytes

-- The first `n` bytes and the rest, where there are so many.
abbrev pub cut : ℕ → Bytes → Option (Bytes × Bytes)
cut n bytes = if leb n (length bytes) then some (take n bytes, drop n bytes) else none

unfoldable pub read_length : Bytes → Option (ℕ × Bytes)
read_length [] = none
read_length (b ∷ bytes) =
    if ltb b 0x80
    then some (b, bytes)
    else elim (cut (b - 0x80) bytes) [ none ↦ none | some r ↦ some (from_bytes 0 r.0, r.1) ]

unfoldable pub read_tlv : Bytes → Option (ℕ × Bytes × Bytes)
read_tlv [] = none
read_tlv (tag ∷ bytes) = elim (read_length bytes) [
  | none ↦ none
  | some l ↦ elim (cut l.0 l.1) [ none ↦ none | some r ↦ some (tag, r.0, r.1) ]
]

pub cut-append : (xs ys : Bytes) → cut (length xs) (xs ++ ys) ≡ some (xs, ys)
cut-append xs ys = ground (arith, length-append xs ys, take-append xs ys, drop-append xs ys)

length_bytes_none : (n : ℕ) (a : Acc ◌<◌ n) → n ≡ 0 → length_bytes n a ≡ []
unfolding length_bytes
length_bytes_none n (Acc.intro _ smaller) h = ground arith

length_bytes_more :
    (n : ℕ) (a : Acc ◌<◌ n)
    → 0 < n
    → (a' : Acc ◌<◌ (n / 256)) × (length_bytes n a ≡ length_bytes (n / 256) a' ++ ((n % 256) ∷ []))
unfolding length_bytes
length_bytes_more n (Acc.intro _ smaller) h =
    (smaller (n / 256) (byte_shrinks n h), rw (dif_pos _ le_prop h) refl)

from_bytes-append :
    (v : ℕ) (xs ys : Bytes) → from_bytes v (xs ++ ys) ≡ from_bytes (from_bytes v xs) ys
from_bytes-append v [] ys = refl
from_bytes-append v (x ∷ xs) ys = from_bytes-append (v * 256 + x) xs ys

from_bytes-length_bytes : (k n : ℕ) (a : Acc ◌<◌ n) → n < k → from_bytes 0 (length_bytes n a) ≡ n
from_bytes-length_bytes zero n a h = absurd (omega arith)
from_bytes-length_bytes (suc k) n a h = elim (dec_lt 0 n) [
  | no nothing ↦ rw (length_bytes_none n a (omega arith)) (omega arith)
  | yes more ↦
      let (a', e) = length_bytes_more n a more in
      let rest = from_bytes-length_bytes k (n / 256) a' (omega (arith, byte_shrinks n more)) in
      ap (from_bytes 0) e
      ∙ from_bytes-append 0 (length_bytes (n / 256) a') ((n % 256) ∷ [])
      ∙ omega (arith, rest)
]

length-length_bytes : (k n : ℕ) (a : Acc ◌<◌ n) → n < 256 ^ k → length (length_bytes n a) ≤ k
length-length_bytes zero n a h = rw (length_bytes_none n a (omega arith)) (omega arith)
length-length_bytes (suc k) n a h = elim (dec_lt 0 n) [
  | no nothing ↦ rw (length_bytes_none n a (omega arith)) (omega arith)
  | yes more ↦
      let (a', e) = length_bytes_more n a more in
      let rest = length-length_bytes k (n / 256) a' (omega arith) in
      omega (arith, ap length e, length-append (length_bytes (n / 256) a') ((n % 256) ∷ []), rest)
]

-- The longest content: no buffer of the program is near it.
abbrev pub maximum_content : ℕ
maximum_content = 9007199254740991

pub read_length-encode_length :
    (n : ℕ) (rest : Bytes)
    → n ≤ maximum_content
    → read_length (encode_length n ++ rest) ≡ some (n, rest)
unfolding read_length encode_length
read_length-encode_length n rest h =
    let bytes = length_bytes n (lt_wf.apply n) in
    let few = length-length_bytes 7 n (lt_wf.apply n) (omega arith) in
    let top : bit_or (length bytes) 0x80 ≡ length bytes + 128 =
      set_top_bit (length bytes) (omega (arith, few)) in
    ground (
      arith,
      top,
      cut-append bytes rest,
      from_bytes-length_bytes (suc n) n (lt_wf.apply n) (omega arith),
    )

pub read_tlv-bytes :
    (tag : ℕ) (content rest : Bytes)
    → length content ≤ maximum_content
    → read_tlv (tag ∷ (encode_length (length content) ++ (content ++ rest)))
      ≡ some (tag, content, rest)
unfolding read_tlv
read_tlv-bytes tag content rest h =
    ground (
      arith,
      read_length-encode_length (length content) (content ++ rest) h,
      cut-append content rest,
    )
