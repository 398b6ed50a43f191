-- ===== src/Grpc/Framing.antt =====
-- src/grpc/framing.ts: messages in frames, and chunks of a stream turned back into whole messages.
pub mod Rounds
pub mod Chunks
use narra_leaf_team.Common.{
  ℕ, zero, suc, ◌+◌, ◌*◌, ◌/◌, ◌%◌, ◌^◌, Bool, true, false, not, List, [], ◌∷◌, ◌++◌, ltb, leb,
  ◌==◌, if◌then◌else◌, length, take, drop,
}
use narra_leaf_team.Data.Bytes.{Bytes, write_uint32_be, read_uint32_be}

abbrev pub prefix_bytes : ℕ
prefix_bytes = 5

abbrev pub unary_call_messages : ℕ
unary_call_messages = 1

abbrev pub maximum_message_bytes : ℕ
maximum_message_bytes = 4 * 1024 * 1024

-- The codes of the refusals. `out_of_fuel` is none of the program's: its loop has no bound.
pub data GrpcStatus : Type 0 where
  unimplemented resource_exhausted invalid_argument out_of_fuel : GrpcStatus

pub data Result {ℓ} (A : Type ℓ) : Type ℓ where
  ok : A → Result A
  err : GrpcStatus → Result A

unfoldable pub encode_frame : Bytes → Bytes
encode_frame message = 0 ∷ (write_uint32_be (length message) ++ message)

pub record FrameAssembler : Type 0 where
  pub buffered : Bytes
  pub decoded : ℕ
  pub maximum_messages : ℕ

unfoldable pub new : ℕ → FrameAssembler
new maximum_messages = record { buffered = []; decoded = 0; maximum_messages = maximum_messages }

-- What one round of the loop of `push` finds in what is buffered.
pub data Round : Type 0 where
  more_needed : Round
  refused : GrpcStatus → Round
  whole : Bytes → Bytes → Round

-- The buffer is five bytes at least from the second clause on.
unfoldable pub round : ℕ → ℕ → Bytes → Round
round maximum_messages decoded (c ∷ a ∷ b ∷ d ∷ e ∷ body) =
    let size = read_uint32_be a b d e in
    if not (c == 0)
    then refused unimplemented
    else if ltb maximum_message_bytes size
    then refused resource_exhausted
    else if ltb (length body) size
    then more_needed
    else if leb maximum_messages decoded
    then refused invalid_argument
    else whole (take size body) (drop size body)
round maximum_messages decoded _ = more_needed

-- The loop of `push`: what is buffered, how many messages were decoded, and the messages so far.
unfoldable pub push_loop : ℕ → ℕ → ℕ → Bytes → List Bytes → Result (List Bytes × (ℕ × Bytes))
unfolding round
push_loop zero maximum decoded buffer messages = err out_of_fuel
push_loop (suc fuel) maximum decoded buffer messages = elim (round maximum decoded buffer) [
  | more_needed ↦ ok (messages, (decoded, buffer))
  | refused status ↦ err status
  | whole message rest ↦ push_loop fuel maximum (decoded + 1) rest (messages ++ (message ∷ []))
]

-- Every message takes five bytes at least, so a round for each byte and one more are enough.
unfoldable pub push : Bytes → FrameAssembler → Result (List Bytes × FrameAssembler)
unfolding push_loop
push chunk a =
    let buffer = a.buffered ++ chunk in
    elim (push_loop (suc (length buffer)) a.maximum_messages a.decoded buffer []) [
      | ok (messages, (decoded, rest)) ↦
          ok (messages, record a { buffered = rest; decoded = decoded })
      | err status ↦ err status
    ]

unfoldable pub incomplete : FrameAssembler → Bool
incomplete a = ltb 0 (length a.buffered)
