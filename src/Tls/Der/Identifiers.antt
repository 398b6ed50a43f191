-- ===== src/Tls/Der/Identifiers.antt =====
-- src/tls/der.ts: object identifiers. The program's numbers are exact up to the largest safe integer, and
-- of an identifier with a larger one nothing is said here.
pub mod RoundTrip
use mathlib.Core.Logic.{dite}
use mathlib.Core.WellFounded.{Acc}
use native.Mathlib.Decide.{dec_lt}
use Prim.Native.Nat.{bit_and, bit_or}
use narra_leaf_team.Common.{
  ℕ, zero, suc, ◌+◌, ◌*◌, ◌/◌, ◌<◌, Bool, true, false, ◌&&◌, Option, none, some, List, [], ◌∷◌,
  ◌++◌, if◌then◌else◌, ltb, leb, not, ◌==◌, arith, lt_wf, Text,
}
use narra_leaf_team.Data.Bytes.{Bytes}
use narra_leaf_team.Data.Decimal.{read_decimal}
use narra_leaf_team.Tls.Der.{Result, ok, err, bad_arcs, inexact_arcs, tag_object_identifier, tlv}

pub septet_shrinks : (v : ℕ) → 0 < v / 128 → v / 128 < v
septet_shrinks v h = omega arith

-- The `do … while (remaining > 0)` loop of `appendBase128`.
unfoldable pub septets : (remaining : ℕ) → Acc ◌<◌ remaining → Bytes
septets remaining (Acc.intro _ smaller) =
    dite (dec_lt 0 (remaining / 128))
      (λ more.
        septets (remaining / 128) (smaller _ (septet_shrinks remaining more))
        ++ ((bit_and remaining 0x7f) ∷ []))
      (λ _. (bit_and remaining 0x7f) ∷ [])

-- Its second loop: the top bit on all but the last.
unfoldable pub with_bits : Bytes → Bytes
with_bits [] = []
with_bits (septet ∷ []) = septet ∷ []
with_bits (septet ∷ next ∷ rest) = bit_or septet 0x80 ∷ with_bits (next ∷ rest)

unfoldable pub base128 : ℕ → Bytes
unfolding septets with_bits lt_wf
base128 value = with_bits (septets value (lt_wf.apply value))

unfoldable pub arcs_bytes : List ℕ → Bytes
unfolding base128
arcs_bytes [] = []
arcs_bytes (arc ∷ arcs) = base128 arc ++ arcs_bytes arcs

abbrev pub largest_exact : ℕ
largest_exact = 9007199254740991

unfoldable pub are_exact : List ℕ → Bool
are_exact [] = true
are_exact (n ∷ ns) = leb n largest_exact && are_exact ns

-- `objectIdentifier` from the checks of the arcs on.
unfoldable pub identifier_of : List ℕ → Result Bytes
unfolding arcs_bytes tlv are_exact
identifier_of [] = err bad_arcs
identifier_of (first ∷ []) = err bad_arcs
identifier_of (first ∷ second ∷ arcs) =
    if ltb 2 first
    then err bad_arcs
    else if ltb first 2 && ltb 39 second
    then err bad_arcs
    else if not (are_exact ((first * 40 + second) ∷ arcs))
    then err inexact_arcs
    else tlv tag_object_identifier (arcs_bytes ((first * 40 + second) ∷ arcs))

-- `oid.split(".")`.
unfoldable pub split_dots : Text → List Text
split_dots [] = [] ∷ []
split_dots (c ∷ s) =
    let rest = split_dots s in
    if c == b'.'
    then [] ∷ rest
    else elim rest [ [] ↦ (c ∷ []) ∷ [] | ◌∷◌ part parts ↦ (c ∷ part) ∷ parts ]

-- The arcs that the parts spell, none where one of them is not a number.
unfoldable pub read_parts : List Text → Option (List ℕ)
read_parts [] = some []
read_parts (part ∷ parts) = elim (read_decimal part) [
  | none ↦ none
  | some arc ↦ elim (read_parts parts) [ none ↦ none | some arcs ↦ some (arc ∷ arcs) ]
]

unfoldable pub object_identifier : Text → Result Bytes
unfolding identifier_of split_dots read_parts
object_identifier oid = elim (read_parts (split_dots oid)) [
  | none ↦ err bad_arcs
  | some arcs ↦ identifier_of arcs
]
