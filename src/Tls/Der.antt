-- ===== src/Tls/Der.antt =====
-- src/tls/der.ts: writing ASN.1 in the Distinguished Encoding Rules. A text stands as its bytes, and what
-- the encoder asks of a date is an argument.
pub mod Lengths
pub mod Values
pub mod Numbers
pub mod Identifiers
mod Tests
use mathlib.Core.Logic.{dite}
use mathlib.Core.WellFounded.{Acc}
use native.Mathlib.Decide.{dec_lt}
use Prim.Native.Nat.{bit_or, bit_and}
use narra_leaf_team.Common.{
  ℕ, zero, suc, ◌+◌, ◌-◌, ◌*◌, ◌/◌, ◌%◌, ◌<◌, ◌≤◌, Bool, true, false, ◌&&◌, ◌||◌, not, Option, none,
  some, List, [], ◌∷◌, ◌++◌, if◌then◌else◌, ltb, leb, ◌==◌, arith, lt_wf, length,
}
use narra_leaf_team.Data.Bytes.{Bytes}

-- `UnencodableValueError`, by what could not be written. `inexact_arcs` is no outcome of the program: it
-- stands for an arc that its numbers do not hold exactly.
pub data DerError : Type 0 where
  bad_tag bad_bits bad_arcs inexact_arcs bad_text bad_time : DerError

pub data Result (A : Type 0) : Type 0 where
  ok : A → Result A
  err : DerError → Result A

abbrev pub tag_boolean : ℕ
tag_boolean = 0x01

abbrev pub tag_integer : ℕ
tag_integer = 0x02

abbrev pub tag_bit_string : ℕ
tag_bit_string = 0x03

abbrev pub tag_octet_string : ℕ
tag_octet_string = 0x04

abbrev pub tag_null : ℕ
tag_null = 0x05

abbrev pub tag_object_identifier : ℕ
tag_object_identifier = 0x06

abbrev pub tag_utf8_string : ℕ
tag_utf8_string = 0x0c

abbrev pub tag_ia5_string : ℕ
tag_ia5_string = 0x16

abbrev pub tag_utc_time : ℕ
tag_utc_time = 0x17

abbrev pub tag_generalized_time : ℕ
tag_generalized_time = 0x18

abbrev pub tag_sequence : ℕ
tag_sequence = 0x30

abbrev pub tag_set : ℕ
tag_set = 0x31

pub byte_shrinks : (v : ℕ) → 0 < v → v / 256 < v
byte_shrinks v h = omega arith

-- The loop of `encodeLength`: `bytes.unshift(remaining % 256)` while something remains.
unfoldable pub length_bytes : (remaining : ℕ) → Acc ◌<◌ remaining → Bytes
length_bytes remaining (Acc.intro _ smaller) =
    dite (dec_lt 0 remaining)
      (λ more.
        length_bytes (remaining / 256) (smaller _ (byte_shrinks remaining more))
        ++ ((remaining % 256) ∷ []))
      (λ _. [])

unfoldable pub encode_length : ℕ → Bytes
unfolding length_bytes lt_wf
encode_length n =
    let bytes = length_bytes n (lt_wf.apply n) in
    if ltb n 0x80 then n ∷ [] else bit_or (length bytes) 0x80 ∷ bytes

unfoldable pub tlv : ℕ → Bytes → Result Bytes
unfolding encode_length
tlv tag content =
    if ltb 0xff tag then err bad_tag else ok (tag ∷ (encode_length (length content) ++ content))

unfoldable pub boolean : Bool → Result Bytes
unfolding tlv
boolean value = tlv tag_boolean ((if value then 0xff else 0x00) ∷ [])

-- The loop over the leading zeroes, which leaves the last byte.
unfoldable pub trimmed : Bytes → Bytes
trimmed [] = []
trimmed (b ∷ []) = b ∷ []
trimmed (b ∷ c ∷ bytes) = let rest = trimmed (c ∷ bytes) in if b == 0 then rest else b ∷ c ∷ bytes

unfoldable pub unsigned_content : Bytes → Bytes
unsigned_content [] = 0 ∷ []
unsigned_content (first ∷ rest) = if bit_and first 0x80 == 0 then first ∷ rest else 0 ∷ first ∷ rest

unfoldable pub unsigned_integer : Bytes → Result Bytes
unfolding trimmed unsigned_content tlv
unsigned_integer bytes = tlv tag_integer (unsigned_content (trimmed bytes))

unfoldable pub null_value : Result Bytes
unfolding tlv
null_value = tlv tag_null []

unfoldable pub octet_string : Bytes → Result Bytes
unfolding tlv
octet_string bytes = tlv tag_octet_string bytes

abbrev pub is_empty : Bytes → Bool
is_empty [] = true
is_empty (b ∷ bytes) = false

unfoldable pub bit_string : Bytes → ℕ → Result Bytes
unfolding tlv
bit_string bytes unused_bits =
    if ltb 7 unused_bits
    then err bad_bits
    else if is_empty bytes && not (unused_bits == 0)
    then err bad_bits
    else tlv tag_bit_string (unused_bits ∷ bytes)

unfoldable pub concat : List Bytes → Bytes
concat [] = []
concat (value ∷ values) = value ++ concat values

unfoldable pub sequence : List Bytes → Result Bytes
unfolding concat tlv
sequence values = tlv tag_sequence (concat values)

unfoldable pub set : List Bytes → Result Bytes
unfolding concat tlv
set values = tlv tag_set (concat values)

unfoldable pub explicit : ℕ → Bytes → Result Bytes
unfolding tlv
explicit tag_number value =
    if ltb 30 tag_number then err bad_tag else tlv (bit_or 0xa0 tag_number) value

unfoldable pub implicit : ℕ → Bytes → Bool → Result Bytes
unfolding tlv
implicit tag_number content constructed =
    if ltb 30 tag_number
    then err bad_tag
    else tlv (bit_or (bit_or 0x80 (if constructed then 0x20 else 0x00)) tag_number) content

-- `Buffer.from(text, "utf8")` of a text that stands as its bytes.
unfoldable pub utf8_string : Bytes → Result Bytes
unfolding tlv
utf8_string text = tlv tag_utf8_string text

unfoldable pub ia5_bytes : Bytes → Result Bytes
ia5_bytes [] = ok []
ia5_bytes (c ∷ text) =
    let rest = ia5_bytes text in
    if ltb 0x7f c then err bad_text else elim rest [ err e ↦ err e | ok bytes ↦ ok (c ∷ bytes) ]

unfoldable pub ia5_string : Bytes → Result Bytes
unfolding ia5_bytes tlv
ia5_string text = elim (ia5_bytes text) [ err e ↦ err e | ok bytes ↦ tlv tag_ia5_string bytes ]

unfoldable pub two_digits : ℕ → Bytes
two_digits n = (b'0' + n / 10 % 10) ∷ (b'0' + n % 10) ∷ []

unfoldable pub four_digits : ℕ → Bytes
four_digits n = (b'0' + n / 1000 % 10) ∷ (b'0' + n / 100 % 10) ∷ two_digits (n % 100)

-- What is asked of a `Date`, in UTC; the month counts from zero.
pub record Date : Type 0 where
  pub year : ℕ
  pub month : ℕ
  pub day : ℕ
  pub hours : ℕ
  pub minutes : ℕ
  pub seconds : ℕ

unfoldable pub time_body : Date → Bytes
unfolding two_digits
time_body d =
    two_digits (d.month + 1)
    ++ (two_digits d.day
        ++ (two_digits d.hours ++ (two_digits d.minutes ++ (two_digits d.seconds ++ (b'Z' ∷ [])))))

unfoldable pub time : Date → Result Bytes
unfolding time_body four_digits tlv
time d =
    if leb 1950 d.year && leb d.year 2049
    then tlv tag_utc_time (two_digits (d.year % 100) ++ time_body d)
    else if ltb 9999 d.year
    then err bad_time
    else tlv tag_generalized_time (four_digits d.year ++ time_body d)
