-- ===== src/Tls/Der/Tests.antt =====
-- Values of a certificate at concrete inputs.
use narra_leaf_team.Common.{
  ℕ, ◌+◌, ◌*◌, ◌≤◌, ◌≡◌, some, List, [], ◌∷◌, map, arith, length, All, lt_wf,
}
use narra_leaf_team.Data.Bytes.{Bytes}
use narra_leaf_team.Tls.Der.{
  ok, concat, encode_length, sequence, unsigned_integer, tag_sequence, tag_integer,
  tag_object_identifier,
}
use narra_leaf_team.Tls.Der.Identifiers.{septets, with_bits, base128, arcs_bytes, identifier_of}
use narra_leaf_team.Tls.Der.Identifiers.RoundTrip.{read_arcs, split_first, identifier_of_lem}
use narra_leaf_team.Tls.Der.Lengths.{from_bytes, read_tlv, maximum_content}
use narra_leaf_team.Tls.Der.Values.{IsValue, value_bytes, read_values, read-sequence}
use narra_leaf_team.Tls.Der.Numbers.{IsMinimal, unsigned_integer_lem}

abbrev fields : List (ℕ × Bytes)
fields = (0x02, 5 ∷ []) ∷ (0x05, []) ∷ (0x04, 1 ∷ 2 ∷ []) ∷ []

fields-IsValue : All IsValue fields
fields-IsValue =
    ((omega arith, omega arith), ((omega arith, omega arith), ((omega arith, omega arith), tt)))

fields_short : length (concat (map value_bytes fields)) ≤ maximum_content
unfolding concat encode_length
fields_short = omega arith

read-sequence_example :
    (bytes body : Bytes) × (sequence (map value_bytes fields) ≡ ok bytes)
    × (read_tlv bytes ≡ some (tag_sequence, body, []))
    × (read_values 3 body ≡ some fields)
read-sequence_example = read-sequence fields fields-IsValue fields_short

unsigned_integer_lem_example :
    (encoded content : Bytes) × (unsigned_integer (0 ∷ 0 ∷ 200 ∷ 1 ∷ []) ≡ ok encoded)
    × (read_tlv encoded ≡ some (tag_integer, content, []))
    × IsMinimal content
    × (from_bytes 0 content ≡ 51201)
unsigned_integer_lem_example =
    unsigned_integer_lem (0 ∷ 0 ∷ 200 ∷ 1 ∷ [])
      (omega arith, (omega arith, (omega arith, (omega arith, tt)))) (omega arith)

-- sha256WithRSAEncryption.
abbrev algorithm : List ℕ
algorithm = 113549 ∷ 1 ∷ 1 ∷ 11 ∷ []

algorithm_short : length (arcs_bytes ((1 * 40 + 2) ∷ 840 ∷ algorithm)) ≤ maximum_content
unfolding arcs_bytes base128 septets with_bits lt_wf native.Mathlib.Decide.dec_lt
algorithm_short = omega arith

identifier_of_lem_example :
    (encoded content : Bytes) × (numbers : List ℕ) × (identifier_of (1 ∷ 2 ∷ 840 ∷ algorithm)
      ≡ ok encoded)
    × (read_tlv encoded ≡ some (tag_object_identifier, content, []))
    × (read_arcs 6 content ≡ some numbers)
    × (split_first numbers ≡ 1 ∷ 2 ∷ 840 ∷ algorithm)
identifier_of_lem_example =
    identifier_of_lem 1 2 (840 ∷ algorithm) (omega arith) (λ h. omega arith)
      (omega arith, (omega arith, (omega arith, (omega arith, (omega arith, (omega arith, tt))))))
      algorithm_short
