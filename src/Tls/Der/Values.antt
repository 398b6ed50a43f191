-- ===== src/Tls/Der/Values.antt =====
-- A series of values in a sequence, read back.
use narra_leaf_team.Common.{
  ℕ, zero, suc, ◌≤◌, ◌≡◌, refl, sym, ap, ◌∙◌, Option, none, some, List, [], ◌∷◌, ◌++◌, map, arith,
  length, All, append_assoc, append-nil,
}
use narra_leaf_team.Data.Bytes.{Bytes}
use narra_leaf_team.Tls.Der.{ok, encode_length, tlv, concat, sequence, tag_sequence}
use narra_leaf_team.Tls.Der.Lengths.{read_tlv, read_tlv-bytes, maximum_content}

-- One value after the other, to the end; the fuel is a bound on how many there are.
unfoldable pub read_values : ℕ → Bytes → Option (List (ℕ × Bytes))
read_values fuel [] = some []
read_values zero (b ∷ bytes) = none
read_values (suc fuel) (b ∷ bytes) = elim (read_tlv (b ∷ bytes)) [
  | none ↦ none
  | some v ↦ elim (read_values fuel v.2) [ none ↦ none | some vs ↦ some ((v.0, v.1) ∷ vs) ]
]

-- A tag of one byte over a content that is not too long, and its encoding.
abbrev pub IsValue : ℕ × Bytes → Type 0
IsValue v = (v.0 ≤ 0xff) × (length (v.1) ≤ maximum_content)

abbrev pub value_bytes : ℕ × Bytes → Bytes
value_bytes v = v.0 ∷ (encode_length (length (v.1)) ++ v.1)

pub tlv-value_bytes : (v : ℕ × Bytes) → IsValue v → tlv (v.0) (v.1) ≡ ok (value_bytes v)
unfolding tlv
tlv-value_bytes v h = let small = h.0 in ground (arith, small)

pub read_tlv-value_bytes :
    (v : ℕ × Bytes) → IsValue v → read_tlv (value_bytes v) ≡ some (v.0, v.1, [])
read_tlv-value_bytes v h =
    ap (λ (b : Bytes). read_tlv (v.0 ∷ (encode_length (length (v.1)) ++ b)))
      (sym (append-nil (v.1)))
    ∙ read_tlv-bytes (v.0) (v.1) [] h.1

read_values_step :
    (fuel b : ℕ) (bytes : Bytes) (v : ℕ × Bytes) (rest : Bytes) (vs : List (ℕ × Bytes))
    → read_tlv (b ∷ bytes) ≡ some (v.0, v.1, rest)
    → read_values fuel rest ≡ some vs
    → read_values (suc fuel) (b ∷ bytes) ≡ some (v ∷ vs)
unfolding read_values
read_values_step fuel b bytes v rest vs one more = ground (arith, one, more)

read_values-concat :
    (vs : List (ℕ × Bytes)) (fuel : ℕ)
    → All IsValue vs
    → length vs ≤ fuel
    → read_values fuel (concat (map value_bytes vs)) ≡ some vs
unfolding concat
read_values-concat [] fuel h l = unfold read_values in refl
read_values-concat (v ∷ vs) zero h l = absurd (omega arith)
read_values-concat (v ∷ vs) (suc fuel) h l =
    let rest = concat (map value_bytes vs) in
    let one : read_tlv (value_bytes v ++ rest) ≡ some (v.0, v.1, rest) =
      ap read_tlv (ap (◌∷◌ (v.0)) (append_assoc (encode_length (length (v.1))) (v.1) rest))
      ∙ read_tlv-bytes (v.0) (v.1) rest (h.0.1) in
    let more = read_values-concat vs fuel h.1 (omega arith) in
    read_values_step fuel (v.0) (encode_length (length (v.1)) ++ v.1 ++ rest) v rest vs one more

-- Values with tags of one byte, whose contents are not too long, put together in a sequence that is not
-- too long: a reader of definite lengths finds the sequence and nothing behind it, and in its content
-- the same tags and contents in their order, and nothing more. It reads as many values as there are.
pub read-sequence :
    (vs : List (ℕ × Bytes))
    → All IsValue vs
    → length (concat (map value_bytes vs)) ≤ maximum_content
    → (bytes body : Bytes) × (sequence (map value_bytes vs) ≡ ok bytes)
      × (read_tlv bytes ≡ some (tag_sequence, body, []))
      × (read_values (length vs) body ≡ some vs)
unfolding sequence
read-sequence vs h few =
    let body = concat (map value_bytes vs) in
    (
      value_bytes (tag_sequence, body),
      body,
      tlv-value_bytes (tag_sequence, body) (omega arith, few),
      read_tlv-value_bytes (tag_sequence, body) (omega arith, few),
      read_values-concat vs (length vs) h (omega arith),
    )
