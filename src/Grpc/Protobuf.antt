-- ===== src/Grpc/Protobuf.antt =====
-- src/grpc/protobuf.ts: writing and reading protocol buffers. A reader is the bytes that it has not
-- consumed; a writer is the chunks that it has appended. The words of an error are left out, its kind
-- is kept.
pub mod Varint
pub mod Fields
use Prim.Native.Nat.{bit_and, bit_or}
pub use narra_leaf_team.Data.Integer.{ℤ, pos, negsuc}
use narra_leaf_team.Common.{
  ℕ, zero, suc, ◌+◌, ◌-◌, ◌*◌, ◌/◌, ◌%◌, ◌^◌, ◌<◌, ◌≡◌, Bool, true, false, ◌||◌, Option, none, some,
  List, [], ◌∷◌, ◌++◌, ltb, ◌==◌, if◌then◌else◌, length, take, drop, arith, lt_wf,
}
use narra_leaf_team.Data.Bytes.{Bytes}
use mathlib.Core.Logic.{dite}
use mathlib.Core.WellFounded.{Acc}
use native.Mathlib.Decide.{dec_lt}

abbrev pub wire_varint : ℕ
wire_varint = 0

abbrev pub wire_fixed64 : ℕ
wire_fixed64 = 1

abbrev pub wire_delimited : ℕ
wire_delimited = 2

abbrev pub wire_fixed32 : ℕ
wire_fixed32 = 5

abbrev pub maximum_field_number : ℕ
maximum_field_number = 536_870_911

abbrev pub maximum_varint_bytes : ℕ
maximum_varint_bytes = 10

-- `Number.MAX_SAFE_INTEGER`.
abbrev pub max_safe_integer : ℕ
max_safe_integer = 2 ^ 53 - 1

-- The reasons of `MalformedMessageError`, and `UnwritableValueError`. `out_of_fuel` is none of the
-- program's: the loop of `readFields` was given too few rounds.
pub data WireError : Type 0 where
  ends_in_number number_too_long number_too_large field_zero past_the_end ends_in_field : WireError
  no_length unwritable out_of_fuel : WireError
  -- Thrown by two of the decoders of src/grpc/messages.ts.
  too_many_resource_ids : WireError

pub data Result {ℓ} (A : Type ℓ) : Type ℓ where
  ok : A → Result A
  err : WireError → Result A

infixl 5 ◌>>=◌
abbrev pub ◌>>=◌ {ℓ κ} : {A : Type ℓ} {B : Type κ} → Result A → (A → Result B) → Result B
ok a >>= f = f a
err e >>= f = err e

-- `BigInt.asUintN(64, value)`: two's complement.
unfoldable pub as_uint64 : ℤ → ℕ
as_uint64 (pos n) = n % 2 ^ 64
as_uint64 (negsuc n) = 2 ^ 64 - 1 - n % 2 ^ 64

pub shift_shrinks : (v : ℕ) → 0 < v / 128 → v / 128 < v
shift_shrinks v h = omega arith

-- The `do … while (remaining !== 0n)` loop of `#varint`.
unfoldable pub varint_loop : (remaining : ℕ) → Acc ◌<◌ remaining → Bytes
varint_loop remaining (Acc.intro _ smaller) =
    let septet = bit_and remaining 0x7f in
    dite (dec_lt 0 (remaining / 128))
      (λ more.
        bit_or septet 0x80
        ∷ varint_loop (remaining / 128) (smaller _ (shift_shrinks remaining more)))
      (λ _. septet ∷ [])

unfoldable pub varint : ℤ → Bytes
unfolding as_uint64 varint_loop lt_wf
varint value = varint_loop (as_uint64 value) (lt_wf.apply (as_uint64 value))

pub record MessageWriter : Type 0 where
  pub chunks : List Bytes

unfoldable pub new_writer : MessageWriter
new_writer = record { chunks = [] }

abbrev append_chunk : Bytes → MessageWriter → MessageWriter
append_chunk bytes w = record { chunks = w.chunks ++ (bytes ∷ []) }

-- `(BigInt(field) << 3n) | BigInt(wireType)`, with the two sides of `|` exchanged.
unfoldable pub write_tag : ℕ → ℕ → MessageWriter → Result MessageWriter
unfolding varint
write_tag field wire_type w =
    if ltb field 1 || ltb maximum_field_number field
    then err unwritable
    else ok (append_chunk (varint (pos (bit_or wire_type (field * 2 ^ 3)))) w)

unfoldable pub write_varint : ℕ → ℤ → MessageWriter → Result MessageWriter
unfolding write_tag
write_varint field value w = do
  w' ← write_tag field wire_varint w
  ok (append_chunk (varint value) w')

unfoldable pub write_bytes : ℕ → Bytes → MessageWriter → Result MessageWriter
unfolding write_tag
write_bytes field value w = do
  w' ← write_tag field wire_delimited w
  ok (append_chunk value (append_chunk (varint (pos (length value))) w'))

concat_chunks : List Bytes → Bytes
concat_chunks [] = []
concat_chunks (c ∷ cs) = c ++ concat_chunks cs

unfoldable pub finish : MessageWriter → Bytes
unfolding concat_chunks
finish w = concat_chunks w.chunks

unfoldable pub write_message : ℕ → MessageWriter → MessageWriter → Result MessageWriter
unfolding write_bytes finish
write_message field value w = write_bytes field (finish value) w

-- The loop of `readVarint`: the rounds left, the value, the shift and the bytes left.
unfoldable pub read_varint_loop : ℕ → ℕ → ℕ → Bytes → Result (ℕ × Bytes)
read_varint_loop zero value shift bytes = err number_too_long
read_varint_loop (suc rounds) value shift [] = err ends_in_number
read_varint_loop (suc rounds) value shift (byte ∷ bytes) =
    let value' = bit_or value (bit_and byte 0x7f * 2 ^ shift) in
    let more = read_varint_loop rounds value' (shift + 7) bytes in
    if bit_and byte 0x80 == 0 then ok (value' % 2 ^ 64, bytes) else more

unfoldable pub read_varint : Bytes → Result (ℕ × Bytes)
unfolding read_varint_loop
read_varint bytes = read_varint_loop maximum_varint_bytes 0 0 bytes

unfoldable pub read_number : Bytes → Result (ℕ × Bytes)
unfolding read_varint
read_number bytes = do
  (value, rest) ← read_varint bytes
  if ltb max_safe_integer value then err number_too_large else ok (value, rest)

pub record FieldTag : Type 0 where
  pub field : ℕ
  pub wire_type : ℕ

-- The field number stays exact where `Number` would round it, above 2 ^ 53.
unfoldable pub read_tag : Bytes → Result (FieldTag × Bytes)
unfolding read_varint
read_tag bytes = do
  (tag, rest) ← read_varint bytes
  if ltb (tag / 8) 1
      then err field_zero
      else ok (record { field = tag / 8; wire_type = bit_and tag 0x7 }, rest)

unfoldable pub read_delimited : Bytes → Result (Bytes × Bytes)
unfolding read_number
read_delimited bytes = do
  (size, rest) ← read_number bytes
  if ltb (length rest) size then err past_the_end else ok (take size rest, drop size rest)

unfoldable pub advance : ℕ → Bytes → Result Bytes
advance count bytes = if ltb (length bytes) count then err ends_in_field else ok (drop count bytes)

unfoldable pub skip : ℕ → Bytes → Result Bytes
unfolding read_varint read_delimited advance
skip wire_type bytes =
    if wire_type == wire_varint
    then (read_varint bytes >>= λ r. ok r.1)
    else if wire_type == wire_delimited
    then (read_delimited bytes >>= λ r. ok r.1)
    else if wire_type == wire_fixed64
    then advance 8 bytes
    else if wire_type == wire_fixed32
    then advance 4 bytes
    else err no_length

-- `readFields`: the handler answers `none` for a field that it does not consume, which is skipped. The
-- handler's state is `S`; the fuel is a bound on the rounds.
module _ {ℓ} {S : Type ℓ} (on_field : S → FieldTag → Bytes → Result (Option (Bytes × S))) where
  unfoldable pub consumed : FieldTag → Bytes → S → Option (Bytes × S) → Result (Bytes × S)
  unfolding skip
  consumed tag bytes s none = skip tag.wire_type bytes >>= λ rest. ok (rest, s)
  consumed tag bytes s (some r) = ok r

  unfoldable pub read_field : S → Bytes → Result (Bytes × S)
  unfolding read_tag consumed
  read_field s bytes = do
    (tag, rest) ← read_tag bytes
    handled ← on_field s tag rest
    consumed tag rest s handled

  unfoldable pub read_fields : ℕ → S → Bytes → Result S
  unfolding read_field
  read_fields fuel s [] = ok s
  read_fields zero s (b ∷ bs) = err out_of_fuel
  read_fields (suc fuel) s (b ∷ bs) = do
    (rest, s') ← read_field s (b ∷ bs)
    read_fields fuel s' rest
