-- ===== src/Grpc/Messages.antt =====
-- src/grpc/messages.ts: the messages that travel, over the writer and the reader of protobuf. A string
-- stands as its UTF-8 bytes, and an id that the program keeps as hex as the bytes that it spells.
pub mod Permissions
pub mod Tokens
pub mod Repositories
pub mod Decoding
pub mod Carrying
mod Tests
use narra_leaf_team.Common.{
  ℕ, ◌+◌, ◌-◌, ◌*◌, ◌%◌, ◌^◌, Bool, true, false, ◌&&◌, Option, none, some, List, [], ◌∷◌, map, ltb,
  ◌==◌, if◌then◌else◌, length,
}
use narra_leaf_team.Data.Bytes.{Bytes}
use narra_leaf_team.Grpc.Protobuf.{
  ℤ, pos, negsuc, FieldTag, Result, ok, err, ◌>>=◌, WireError, read_varint, read_number,
  read_delimited, read_fields, new_writer, finish, wire_varint, wire_delimited,
}
use narra_leaf_team.Grpc.Protobuf.Fields.{Field, integer, delimited, write_fields}

abbrev pub maximum_resource_ids : ℕ
maximum_resource_ids = 64

-- The bytes of a message whose fields are written in this order. The numbers of the fields are
-- constants, so that no write fails.
unfoldable pub finished : List Field → Bytes
finished fs = elim (write_fields new_writer fs) [ ok w ↦ finish w | err e ↦ [] ]

-- `if (value !== "") writer.string(…)`, `if (value !== undefined) …` and `for (…) writer.string(…)`.
abbrev pub unless_empty : ℕ → Bytes → List Field
unless_empty field [] = []
unless_empty field (b ∷ bs) = delimited field (b ∷ bs) ∷ []

abbrev pub if_there : ℕ → Option Bytes → List Field
if_there field none = []
if_there field (some value) = delimited field value ∷ []

abbrev pub each : ℕ → List Bytes → List Field
each field values = map (delimited field) values

abbrev pub is_delimited : FieldTag → ℕ → Bool
is_delimited tag field = tag.field == field && tag.wire_type == wire_delimited

abbrev pub is_varint : FieldTag → ℕ → Bool
is_varint tag field = tag.field == field && tag.wire_type == wire_varint

-- A handler answers what is left and its new state, or `none` for a field that it does not consume.
abbrev pub Handled {ℓ} : Type ℓ → Type ℓ
Handled S = Result (Option (Bytes × S))

-- `… = message.readString(); return true`, `readVarint`, `readNumber`, and `read…(message.readMessage())`.
unfoldable pub take_bytes {ℓ} : {S : Type ℓ} → (Bytes → S) → Bytes → Handled S
take_bytes keep bytes = read_delimited bytes >>= λ r. ok (some (r.1, keep r.0))

unfoldable pub take_varint {ℓ} : {S : Type ℓ} → (ℕ → S) → Bytes → Handled S
take_varint keep bytes = read_varint bytes >>= λ r. ok (some (r.1, keep r.0))

unfoldable pub take_number {ℓ} : {S : Type ℓ} → (ℕ → S) → Bytes → Handled S
take_number keep bytes = read_number bytes >>= λ r. ok (some (r.1, keep r.0))

unfoldable pub take_message {ℓ κ} :
    {A : Type κ} {S : Type ℓ} → (Bytes → Result A) → (A → S) → Bytes → Handled S
take_message read keep bytes = do r ← read_delimited bytes; a ← read r.0; ok (some (r.1, keep a))

-- A whole message: every field takes a byte at least.
unfoldable pub read_all {ℓ} :
    {S : Type ℓ} → (S → FieldTag → Bytes → Handled S) → S → Bytes → Result S
read_all on_field s bytes = read_fields on_field (length bytes) s bytes

-- `BigInt.asIntN(64, value)` and `BigInt.asIntN(32, value)` of a value below 2 ^ 64. `Number` of the
-- result is exact where that is a safe integer; beyond, the model keeps it whole.
unfoldable pub as_int64 : ℕ → ℤ
as_int64 n = if ltb n (2 ^ 63) then pos n else negsuc (2 ^ 64 - 1 - n)

unfoldable pub as_int32 : ℕ → ℤ
as_int32 n = let low = n % 2 ^ 32 in if ltb low (2 ^ 31) then pos low else negsuc (2 ^ 32 - 1 - low)
