-- ===== src/Grpc/Tests.antt =====
-- The gRPC wire at concrete inputs.
use narra_leaf_team.Common.{
  ◌+◌, ◌-◌, ◌^◌, ◌<◌, ◌≤◌, ◌≡◌, ◌≢◌, refl, false, List, [], ◌∷◌, ◌++◌, arith, All, map,
}
use narra_leaf_team.Data.Bytes.{read_uint32_be}
use narra_leaf_team.Grpc.Protobuf
use narra_leaf_team.Grpc.Protobuf.{
  ℤ, pos, negsuc, MessageWriter, new_writer, finish, varint, read_varint, read_fields,
}
use narra_leaf_team.Grpc.Protobuf.Varint.{read_varint-varint, read_varint_takes}
use narra_leaf_team.Grpc.Protobuf.Fields.{
  Field, IsWritable, integer, delimited, write_fields, collect, ignore, seen, all_bytes,
  read_fields-write_fields, read_fields-ignore,
}
use narra_leaf_team.Grpc.Framing
use narra_leaf_team.Grpc.Framing.{FrameAssembler, encode_frame, push, incomplete}
use narra_leaf_team.Grpc.Framing.Chunks.{push-push, push-frames, push_bounded, push_in_fuel, frames}

abbrev fields : List Field
fields = integer 1 (pos 300) ∷ delimited 2 (104 ∷ 105 ∷ []) ∷ []

fields-IsWritable : All IsWritable fields
fields-IsWritable = ((omega arith, omega arith), (((omega arith, omega arith), omega arith), tt))

read_fields-write_fields_example :
    (w : MessageWriter) × (write_fields new_writer fields ≡ Protobuf.ok w)
    × (read_fields collect 2 [] (finish w) ≡ Protobuf.ok (map seen fields))
read_fields-write_fields_example = read_fields-write_fields fields 2 fields-IsWritable (omega arith)

read_fields-ignore_example : read_fields ignore 2 [] (all_bytes fields) ≡ Protobuf.ok []
read_fields-ignore_example = read_fields-ignore fields 2 [] fields-IsWritable (omega arith)

read_varint-varint_example :
    read_varint (varint (negsuc 0) ++ (7 ∷ [])) ≡ Protobuf.ok (2 ^ 64 - 1, 7 ∷ [])
unfolding Protobuf.as_uint64
read_varint-varint_example = read_varint-varint (negsuc 0) (7 ∷ [])

read_varint_takes_example : (300 < 2 ^ 64) × (1 < 3) × (3 ≤ 1 + 10)
unfolding read_varint Protobuf.read_varint_loop
read_varint_takes_example = read_varint_takes (0xac ∷ 0x02 ∷ 9 ∷ []) 300 (9 ∷ []) refl

-- The two parts of a frame of one byte.
abbrev waiting : FrameAssembler
waiting = record { buffered = 0 ∷ 0 ∷ 0 ∷ []; decoded = 0; maximum_messages = 1 }

abbrev filled : FrameAssembler
filled = record { buffered = []; decoded = 1; maximum_messages = 1 }

push-push_example :
    push ((0 ∷ 0 ∷ 0 ∷ []) ++ (0 ∷ 1 ∷ 65 ∷ [])) (Framing.new 1)
    ≡ Framing.ok ([] ++ ((65 ∷ []) ∷ []), filled)
unfolding push Framing.push_loop Framing.round Framing.new read_uint32_be
push-push_example =
    push-push (0 ∷ 0 ∷ 0 ∷ []) (0 ∷ 1 ∷ 65 ∷ []) (Framing.new 1) waiting filled [] ((65 ∷ []) ∷ [])
      refl refl

push-frames_example :
    (a : FrameAssembler) × (push (frames ((65 ∷ []) ∷ [] ∷ [])) (Framing.new 2)
      ≡ Framing.ok ((65 ∷ []) ∷ [] ∷ [], a))
    × (incomplete a ≡ false)
    × (a.decoded ≡ 2)
push-frames_example =
    push-frames ((65 ∷ []) ∷ [] ∷ []) 2 (omega arith, (omega arith, tt)) (omega arith)

push_bounded_example : (1 ≡ 0 + 1) × (1 ≤ 1)
unfolding push Framing.push_loop Framing.round Framing.new read_uint32_be
push_bounded_example =
    push_bounded (0 ∷ 1 ∷ 65 ∷ []) waiting filled ((65 ∷ []) ∷ []) refl (omega arith)

push_in_fuel_example : push (0 ∷ 1 ∷ 65 ∷ []) waiting ≢ Framing.err Framing.out_of_fuel
push_in_fuel_example = push_in_fuel (0 ∷ 1 ∷ 65 ∷ []) waiting
