-- ===== src/Tls/Der/Identifiers/RoundTrip.antt =====
-- The arcs of an object identifier, read back.
use mathlib.Core.Logic.{dif_pos}
use mathlib.Core.WellFounded.{Acc}
use native.Mathlib.Bridge.{le_prop}
use native.Mathlib.Decide.{dec_lt}
use narra_leaf_team.Common.{
  ℕ, zero, suc, ◌+◌, ◌-◌, ◌*◌, ◌/◌, ◌%◌, ◌<◌, ◌≤◌, ◌≡◌, ◌≢◌, refl, ap, ◌∙◌, Option, none, some,
  true, List, [], ◌∷◌, ◌++◌, if◌then◌else◌, ltb, arith, lt_wf, length, All, All-append,
  append_there,
}
use narra_leaf_team.Data.Bytes.{Bytes, set_top_bit}
use narra_leaf_team.Data.Bits.{bit_and_septet}
use narra_leaf_team.Tls.Der.{ok, tag_object_identifier}
use narra_leaf_team.Tls.Der.Lengths.{read_tlv, maximum_content}
use narra_leaf_team.Tls.Der.Values.{value_bytes, tlv-value_bytes, read_tlv-value_bytes}
use narra_leaf_team.Tls.Der.Identifiers.{
  septet_shrinks, septets, with_bits, base128, arcs_bytes, largest_exact, are_exact, identifier_of,
}

-- A number of seven bits to a byte, the most significant first.
unfoldable pub read_base128 : ℕ → Bytes → Option (ℕ × Bytes)
read_base128 v [] = none
read_base128 v (b ∷ bytes) =
    let rest = read_base128 (v * 128 + (b - 128)) bytes in
    if ltb b 128 then some (v * 128 + b, bytes) else rest

unfoldable pub read_arcs : ℕ → Bytes → Option (List ℕ)
read_arcs fuel [] = some []
read_arcs zero (b ∷ bytes) = none
read_arcs (suc fuel) (b ∷ bytes) = elim (read_base128 0 (b ∷ bytes)) [
  | none ↦ none
  | some r ↦ elim (read_arcs fuel (r.1)) [ none ↦ none | some arcs ↦ some (r.0 ∷ arcs) ]
]

-- The two arcs that share a number.
abbrev pub split_first : List ℕ → List ℕ
split_first [] = []
split_first (n ∷ arcs) = if ltb n 80 then n / 40 ∷ n % 40 ∷ arcs else 2 ∷ (n - 80) ∷ arcs

fold128 : ℕ → Bytes → ℕ
fold128 v [] = v
fold128 v (s ∷ ss) = fold128 (v * 128 + s) ss

fold128-append : (v : ℕ) (xs : Bytes) (d : ℕ) → fold128 v (xs ++ (d ∷ [])) ≡ fold128 v xs * 128 + d
unfolding fold128
fold128-append v [] d = refl
fold128-append v (x ∷ xs) d = fold128-append (v * 128 + x) xs d

read_base128-with_bits :
    (v : ℕ) (ss cs : Bytes)
    → ss ≢ []
    → All (λ s. s < 128) ss
    → read_base128 v (with_bits ss ++ cs) ≡ some (fold128 v ss, cs)
unfolding read_base128 with_bits fold128
read_base128-with_bits v [] cs h k = absurd (h refl)
read_base128-with_bits v (s ∷ []) cs h k = ground (arith, k.0)
read_base128-with_bits v (s ∷ t ∷ ss) cs h k =
    let top = set_top_bit s k.0 in
    let rest = read_base128-with_bits (v * 128 + s) (t ∷ ss) cs (λ e. cc) k.1 in
    ground (arith, top, rest, k.0)

septets_last : (n : ℕ) (a : Acc ◌<◌ n) → n < 128 → septets n a ≡ n ∷ []
unfolding septets
septets_last n (Acc.intro _ smaller) h = ground (arith, bit_and_septet n)

septets_more :
    (n : ℕ) (a : Acc ◌<◌ n)
    → 128 ≤ n
    → (a' : Acc ◌<◌ (n / 128)) × (septets n a ≡ septets (n / 128) a' ++ ((n % 128) ∷ []))
unfolding septets
septets_more n (Acc.intro _ smaller) h =
    let p : 0 < n / 128 = omega arith in
    (smaller (n / 128) (septet_shrinks n p), rw (dif_pos _ le_prop p) (rw bit_and_septet refl))

septets_lem :
    (k n : ℕ) (a : Acc ◌<◌ n)
    → n < k
    → (septets n a ≢ []) × All (λ s. s < 128) (septets n a) × (fold128 0 (septets n a) ≡ n)
septets_lem zero n a h = absurd (omega arith)
septets_lem (suc k) n a h = elim (dec_lt n 128) [
  | yes small ↦
      rw (septets_last n a small) ((λ e. cc), ((small, tt)), unfold fold128 in omega arith)
  | no large ↦
      let (a', e) = septets_more n a (omega arith) in
      let (there, low, value) = septets_lem k (n / 128) a' (omega arith) in
      let d = n % 128 in
      rw e (
        append_there (septets (n / 128) a') d,
        All-append (λ s. s < 128) (septets (n / 128) a') (d ∷ []) low (omega arith, tt),
        fold128-append 0 (septets (n / 128) a') d ∙ omega (arith, value),
      )
]

read_base128-base128 : (n : ℕ) (cs : Bytes) → read_base128 0 (base128 n ++ cs) ≡ some (n, cs)
unfolding base128
read_base128-base128 n cs =
    let ss = septets n (lt_wf.apply n) in
    let (there, low, value) = septets_lem (suc n) n (lt_wf.apply n) (omega arith) in
    read_base128-with_bits 0 ss cs there low ∙ ap (λ (m : ℕ). some (m, cs)) value

read_arcs_step :
    (fuel : ℕ) (bytes rest : Bytes) (n : ℕ) (arcs : List ℕ)
    → read_base128 0 bytes ≡ some (n, rest)
    → read_arcs fuel rest ≡ some arcs
    → read_arcs (suc fuel) bytes ≡ some (n ∷ arcs)
unfolding read_arcs
read_arcs_step fuel [] rest n arcs h k = absurd (unfold read_base128 in ground (arith, h))
read_arcs_step fuel (b ∷ bytes) rest n arcs h k = ground (arith, h, k)

read_arcs-arcs_bytes :
    (arcs : List ℕ) (fuel : ℕ) → length arcs ≤ fuel → read_arcs fuel (arcs_bytes arcs) ≡ some arcs
unfolding arcs_bytes read_arcs
read_arcs-arcs_bytes [] fuel l = refl
read_arcs-arcs_bytes (arc ∷ arcs) zero l = absurd (omega arith)
read_arcs-arcs_bytes (arc ∷ arcs) (suc fuel) l =
    read_arcs_step fuel (base128 arc ++ arcs_bytes arcs) (arcs_bytes arcs) arc arcs
      (read_base128-base128 arc (arcs_bytes arcs)) (read_arcs-arcs_bytes arcs fuel (omega arith))

are_exact_lem : (ns : List ℕ) → All (λ n. n ≤ largest_exact) ns → are_exact ns ≡ true
unfolding are_exact
are_exact_lem [] h = refl
are_exact_lem (n ∷ ns) h = ground (arith, h.0, are_exact_lem ns h.1)

split_first_lem :
    (first second : ℕ) (arcs : List ℕ)
    → first ≤ 2
    → (first < 2 → second ≤ 39)
    → split_first ((first * 40 + second) ∷ arcs) ≡ first ∷ second ∷ arcs
split_first_lem first second arcs h k = elim (dec_lt first 2) [
  | yes low ↦
      let small = k low in
      let n = first * 40 + second in
      let below : n < 80 = omega (arith, small, low) in
      let one : n / 40 ≡ first = omega (arith, small) in
      let two : n % 40 ≡ second = omega (arith, small) in ground (arith, below, one, two)
  | no high ↦
      let top : first ≡ 2 = omega (arith, h, high) in
      let two : first * 40 + second - 80 ≡ second = omega (arith, top) in ground (arith, top, two)
]

-- An identifier whose first arc is 0, 1 or 2 and whose second is below forty under the first two, whose
-- arcs, and forty times the first and the second, are safe integers, and whose content is not too long, is
-- written so that a reader finds all of its arcs again, in order.
pub identifier_of_lem :
    (first second : ℕ) (arcs : List ℕ)
    → first ≤ 2
    → (first < 2 → second ≤ 39)
    → All (λ n. n ≤ largest_exact) ((first * 40 + second) ∷ arcs)
    → length (arcs_bytes ((first * 40 + second) ∷ arcs)) ≤ maximum_content
    → (encoded content : Bytes) × (numbers : List ℕ) × (identifier_of (first ∷ second ∷ arcs)
        ≡ ok encoded)
      × (read_tlv encoded ≡ some (tag_object_identifier, content, []))
      × (read_arcs (length arcs + 1) content ≡ some numbers)
      × (split_first numbers ≡ first ∷ second ∷ arcs)
unfolding identifier_of
identifier_of_lem first second arcs h k exact few =
    let numbers = (first * 40 + second) ∷ arcs in
    let content = arcs_bytes numbers in
    let written = tlv-value_bytes (tag_object_identifier, content) (omega arith, few) in
    (
      value_bytes (tag_object_identifier, content),
      content,
      numbers,
      ground (arith, h, k, are_exact_lem numbers exact, written),
      read_tlv-value_bytes (tag_object_identifier, content) (omega arith, few),
      read_arcs-arcs_bytes numbers (length arcs + 1) (omega arith),
      split_first_lem first second arcs h k,
    )
