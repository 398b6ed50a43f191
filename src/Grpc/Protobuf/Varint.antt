-- ===== src/Grpc/Protobuf/Varint.antt =====
-- Varints: what is written is read back, whatever follows, and what reading takes.
use Prim.Native.Nat.{bit_and, bit_or}
use narra_leaf_team.Common.{
  ℕ, zero, suc, ◌+◌, ◌*◌, ◌/◌, ◌%◌, ◌^◌, ◌≤◌, ◌<◌, ◌≡◌, ap, ◌∙◌, [], ◌∷◌, ◌++◌, arith, length,
  lt_wf,
}
use narra_leaf_team.Data.Bytes.{Bytes, low_seven, top_bit, set_top_bit}
use narra_leaf_team.Data.Bits.{bit_or_disjoint, bit_and_septet, pow_step}
use narra_leaf_team.Grpc.Protobuf.{
  ℤ, pos, negsuc, as_uint64, varint_loop, shift_shrinks, varint, read_varint_loop, read_varint, ok,
}
use mathlib.Core.WellFounded.{Acc}
use mathlib.Core.Logic.{dif_pos}
use native.Mathlib.Bridge.{le_prop}
use native.Mathlib.Decide.{dec_lt}
use native.Mathlib.Nat.{div-add-mod}
use native.Mathlib.Numerals.{towards_suc}

shift_seven : (s : ℕ) → 2 ^ (s + 7) ≡ 128 * 2 ^ s
shift_seven s = simp towards_suc (
    omega (
      arith,
      pow_step s,
      pow_step (suc s),
      pow_step (suc (suc s)),
      pow_step (suc (suc (suc s))),
      pow_step (suc (suc (suc (suc s)))),
      pow_step (suc (suc (suc (suc (suc s))))),
      pow_step (suc (suc (suc (suc (suc (suc s)))))),
    ))

-- A number in place is its lowest septet in place and the rest seven places up.
split_septet : (v s : ℕ) → v * 2 ^ s ≡ v % 128 * 2 ^ s + v / 128 * 2 ^ (s + 7)
split_septet v s = omega (
  arith,
  ap (λ (t : ℕ). t * 2 ^ s) (div-add-mod v 128),
  ap (λ (t : ℕ). v / 128 * t) (shift_seven s),
)

-- A round on a byte that ends the number.
read_last :
    (rounds w value shift : ℕ) (rest : Bytes)
    → w < 128
    → value < 2 ^ shift
    → value + w * 2 ^ shift < 2 ^ 64
    → read_varint_loop (suc rounds) value shift (w ∷ rest) ≡ ok (value + w * 2 ^ shift, rest)
unfolding read_varint_loop
read_last rounds w value shift rest hw hv fits =
    ground (arith, low_seven w, top_bit w, bit_or_disjoint shift value w)

-- A round on a byte that another one follows.
read_inner :
    (rounds w value shift : ℕ) (rest : Bytes)
    → w < 128
    → value < 2 ^ shift
    → read_varint_loop (suc rounds) value shift ((w + 128) ∷ rest)
      ≡ read_varint_loop rounds (value + w * 2 ^ shift) (shift + 7) rest
unfolding read_varint_loop
read_inner rounds w value shift rest hw hv =
    ground (arith, low_seven (w + 128), top_bit (w + 128), bit_or_disjoint shift value w)

-- The bytes that the loop writes, one round at a time.
varint_loop_last : (v : ℕ) (w : Acc ◌<◌ v) → v < 128 → varint_loop v w ≡ v ∷ []
unfolding varint_loop
varint_loop_last v (Acc.intro _ smaller) h = ground (arith, bit_and_septet v)

varint_loop_more :
    (v : ℕ) (w : Acc ◌<◌ v)
    → 128 ≤ v
    → (w' : Acc ◌<◌ (v / 128)) × (varint_loop v w ≡ (v % 128 + 128) ∷ varint_loop (v / 128) w')
unfolding varint_loop
varint_loop_more v (Acc.intro _ smaller) h =
    let p : 0 < v / 128 = omega arith in
    let top : bit_or (bit_and v 0x7f) 0x80 ≡ v % 128 + 128 =
      rw bit_and_septet (set_top_bit (v % 128) (omega arith)) in
    (smaller (v / 128) (shift_shrinks v p), rw (dif_pos _ le_prop p) (rw top))

rounds_left : (rounds v : ℕ) → 128 ≤ v → v < 128 ^ suc rounds → 0 < rounds
rounds_left zero v h hv = absurd (omega arith)
rounds_left (suc rounds) v h hv = omega arith

still_below :
    (shift value g : ℕ) → g < 128 → value < 2 ^ shift → value + g * 2 ^ shift < 2 ^ (shift + 7)
still_below shift value g hg hv = grind (arith, shift_seven shift)

read-varint_loop :
    (rounds v value shift : ℕ) (w : Acc ◌<◌ v) (rest : Bytes)
    → v < 128 ^ rounds
    → 0 < rounds
    → value < 2 ^ shift
    → value + v * 2 ^ shift < 2 ^ 64
    → read_varint_loop rounds value shift (varint_loop v w ++ rest)
      ≡ ok (value + v * 2 ^ shift, rest)
read-varint_loop zero v value shift w rest hv hr hs fits = absurd (omega arith)
read-varint_loop (suc rounds) v value shift w rest hv hr hs fits = elim (dec_lt v 128) [
  | yes small ↦ rw (varint_loop_last v w small) (read_last rounds v value shift rest small hs fits)
  | no large ↦
      let (w', e) = varint_loop_more v w (omega arith) in
      let g : v % 128 < 128 = omega arith in
      let below : value + v % 128 * 2 ^ shift < 2 ^ (shift + 7) =
        still_below shift value (v % 128) g hs in
      let split = split_septet v shift in
      rw e (
        read_inner rounds (v % 128) value shift (varint_loop (v / 128) w' ++ rest) g hs
        ∙ read-varint_loop rounds (v / 128) (value + v % 128 * 2 ^ shift) (shift + 7) w' rest
            (omega arith) (rounds_left rounds v (omega arith) hv) below (omega arith)
        ∙ ap (λ (t : ℕ). ok (t, rest)) (omega arith))
]

as_uint64-lt : (value : ℤ) → as_uint64 value < 2 ^ 64
unfolding as_uint64
as_uint64-lt (pos n) = omega arith
as_uint64-lt (negsuc n) = omega arith

-- Whatever follows it in the message, a varint that was written is read back as the 64-bit two's
-- complement of the number, and reading stops right behind it.
pub read_varint-varint :
    (value : ℤ) (rest : Bytes) → read_varint (varint value ++ rest) ≡ ok (as_uint64 value, rest)
unfolding read_varint varint
read_varint-varint value rest =
    let h = as_uint64-lt value in
    read-varint_loop 10 (as_uint64 value) 0 0 (lt_wf.apply (as_uint64 value)) rest (omega arith)
      (omega arith) (omega arith) (omega arith)
    ∙ ap (λ (t : ℕ). ok (t, rest)) (omega arith)

-- A number that is read is below 2 ^ 64 and took one to ten bytes, or as many as rounds were left.
read_varint_loop_takes :
    (rounds value shift : ℕ) (bytes : Bytes) (v : ℕ) (rest : Bytes)
    → read_varint_loop rounds value shift bytes ≡ ok (v, rest)
    → (v < 2 ^ 64) × (length rest < length bytes) × (length bytes ≤ length rest + rounds)
unfolding read_varint_loop
read_varint_loop_takes zero value shift bytes v rest e = cc
read_varint_loop_takes (suc rounds) value shift [] v rest e = cc
read_varint_loop_takes (suc rounds) value shift (b ∷ bs) v rest e = ground (
  arith,
  read_varint_loop_takes rounds (bit_or value (bit_and b 0x7f * 2 ^ shift)) (shift + 7) bs v rest,
)

-- Whatever the bytes are, a varint that is read is below 2 ^ 64 and takes at least one of them and at
-- most ten.
pub read_varint_takes :
    (bytes : Bytes) (v : ℕ) (rest : Bytes)
    → read_varint bytes ≡ ok (v, rest)
    → (v < 2 ^ 64) × (length rest < length bytes) × (length bytes ≤ length rest + 10)
unfolding read_varint
read_varint_takes bytes v rest e = read_varint_loop_takes 10 0 0 bytes v rest e
