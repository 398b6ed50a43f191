-- ===== src/Grpc/Protobuf/Fields.antt =====
-- Messages of varint and length-delimited fields: written, and read back field by field.
use Prim.Native.Nat.{bit_or}
use narra_leaf_team.Common.{
  ℕ, zero, suc, ◌+◌, ◌*◌, ◌^◌, ◌≤◌, ◌<◌, ◌≡◌, refl, sym, ap, ◌∙◌, Option, none, some, List, [], ◌∷◌,
  ◌++◌, arith, length, All, map, append_assoc, append-nil, take-append, drop-append, length-append,
  ◌==◌, if◌then◌else◌,
}
use narra_leaf_team.Data.Bytes.{Bytes}
use narra_leaf_team.Data.Bits.{bit_or_disjoint, bit_and_seven}
use narra_leaf_team.Grpc.Protobuf.{
  ℤ, pos, as_uint64, varint, read_varint, read_number, read_tag, read_delimited, skip, FieldTag,
  MessageWriter, new_writer, write_tag, write_varint, write_bytes, finish, concat_chunks, Result,
  ok, ◌>>=◌, maximum_field_number, max_safe_integer, wire_varint, wire_delimited, read_field,
  read_fields,
}
use narra_leaf_team.Grpc.Protobuf.Varint.{read_varint-varint}

abbrev pub IsField : ℕ → Type 0
IsField field = (1 ≤ field) × (field ≤ maximum_field_number)

concat_chunks-append :
    (cs ds : List Bytes) → concat_chunks (cs ++ ds) ≡ concat_chunks cs ++ concat_chunks ds
unfolding concat_chunks
concat_chunks-append [] ds = refl
concat_chunks-append (c ∷ cs) ds =
    ap (λ (r : Bytes). c ++ r) (concat_chunks-append cs ds)
    ∙ sym (append_assoc c (concat_chunks cs) (concat_chunks ds))

-- The bytes of a tag.
abbrev pub tag_bytes : ℕ → ℕ → Bytes
tag_bytes field wire_type = varint (pos (bit_or wire_type (field * 2 ^ 3)))

pub read_tag-tag_bytes :
    (field wire_type : ℕ) (rest : Bytes)
    → IsField field
    → wire_type < 8
    → read_tag (tag_bytes field wire_type ++ rest)
      ≡ ok (record { field = field; wire_type = wire_type }, rest)
unfolding read_tag
read_tag-tag_bytes field wire_type rest (lo, hi) h =
    let tag = bit_or wire_type (field * 2 ^ 3) in
    let value : tag ≡ wire_type + field * 8 = bit_or_disjoint 3 wire_type field h in
    let read = read_varint-varint (pos tag) rest in
    ground (arith, read, value, as_small tag (omega arith), bit_and_seven tag)
  where
    as_small : (n : ℕ) → n < 2 ^ 64 → as_uint64 (pos n) ≡ n
    as_small n h = unfold as_uint64 in omega arith

-- A field as a caller writes it.
pub data Field : Type 0 where
  integer : ℕ → ℤ → Field
  delimited : ℕ → Bytes → Field

-- Within the range of field numbers, and of lengths that can be read back exactly.
abbrev pub IsWritable : Field → Type 0
IsWritable (integer field value) = IsField field
IsWritable (delimited field value) = IsField field × (length value ≤ max_safe_integer)

unfoldable pub write_field : MessageWriter → Field → Result MessageWriter
write_field w (integer field value) = write_varint field value w
write_field w (delimited field value) = write_bytes field value w

unfoldable pub write_fields : MessageWriter → List Field → Result MessageWriter
write_fields w [] = ok w
write_fields w (f ∷ fs) = write_field w f >>= λ w'. write_fields w' fs

unfoldable pub field_bytes : Field → Bytes
field_bytes (integer field value) = tag_bytes field wire_varint ++ varint value
field_bytes (delimited field value) =
    tag_bytes field wire_delimited ++ (varint (pos (length value)) ++ value)

-- What a decoder sees of a field.
pub data Seen : Type 0 where
  number : ℕ → ℕ → Seen
  bytes : ℕ → Bytes → Seen

unfoldable pub seen : Field → Seen
seen (integer field value) = number field (as_uint64 value)
seen (delimited field value) = bytes field value

-- A handler that keeps every field of these two kinds, and one that knows no field.
unfoldable pub collect : List Seen → FieldTag → Bytes → Result (Option (Bytes × List Seen))
collect s tag rest =
    if tag.wire_type == wire_varint
    then (read_varint rest >>= λ r. ok (some (r.1, s ++ (number tag.field r.0 ∷ []))))
    else if tag.wire_type == wire_delimited
    then (read_delimited rest >>= λ r. ok (some (r.1, s ++ (bytes tag.field r.0 ∷ []))))
    else ok none

unfoldable pub ignore : List Seen → FieldTag → Bytes → Result (Option (Bytes × List Seen))
ignore s tag rest = ok none

pub read_delimited-bytes :
    (value rest : Bytes)
    → length value ≤ max_safe_integer
    → read_delimited (varint (pos (length value)) ++ (value ++ rest)) ≡ ok (value, rest)
unfolding read_delimited read_number as_uint64
read_delimited-bytes value rest h =
    let read = read_varint-varint (pos (length value)) (value ++ rest) in
    ground (arith, read, length-append value rest, take-append value rest, drop-append value rest)

read_field-collect :
    (f : Field) (s : List Seen) (rest : Bytes)
    → IsWritable f
    → read_field collect s (field_bytes f ++ rest) ≡ ok (rest, s ++ (seen f ∷ []))
unfolding read_field field_bytes collect seen
read_field-collect (integer field value) s rest h = ground (
  arith,
  append_assoc (tag_bytes field wire_varint) (varint value) rest,
  read_tag-tag_bytes field wire_varint (varint value ++ rest) h,
  read_varint-varint value rest,
)
read_field-collect (delimited field value) s rest h = ground (
  arith,
  append_assoc (tag_bytes field wire_delimited) (varint (pos (length value)) ++ value) rest,
  append_assoc (varint (pos (length value))) value rest,
  read_tag-tag_bytes field wire_delimited (varint (pos (length value)) ++ (value ++ rest)) h.0,
  read_delimited-bytes value rest,
)

read_field-ignore :
    (f : Field) (s : List Seen) (rest : Bytes)
    → IsWritable f
    → read_field ignore s (field_bytes f ++ rest) ≡ ok (rest, s)
unfolding read_field field_bytes ignore skip
read_field-ignore (integer field value) s rest h = ground (
  arith,
  append_assoc (tag_bytes field wire_varint) (varint value) rest,
  read_tag-tag_bytes field wire_varint (varint value ++ rest) h,
  read_varint-varint value rest,
)
read_field-ignore (delimited field value) s rest h = ground (
  arith,
  append_assoc (tag_bytes field wire_delimited) (varint (pos (length value)) ++ value) rest,
  append_assoc (varint (pos (length value))) value rest,
  read_tag-tag_bytes field wire_delimited (varint (pos (length value)) ++ (value ++ rest)) h.0,
  read_delimited-bytes value rest,
)

one_chunk : (c : Bytes) → concat_chunks (c ∷ []) ≡ c
unfolding concat_chunks
one_chunk c = append-nil c

write_field-bytes :
    (f : Field) (w : MessageWriter)
    → IsWritable f
    → (w' : MessageWriter) × (write_field w f ≡ ok w') × (finish w' ≡ finish w ++ field_bytes f)
unfolding write_field write_varint write_bytes finish field_bytes
write_field-bytes (integer field value) w h =
    let t = tag_bytes field wire_varint in
    (
      record { chunks = (w.chunks ++ (t ∷ [])) ++ (varint value ∷ []) },
      (unfold write_tag in ground arith),
      ground (
        arith,
        concat_chunks-append (w.chunks ++ (t ∷ [])) (varint value ∷ []),
        concat_chunks-append w.chunks (t ∷ []),
        one_chunk t,
        one_chunk (varint value),
        append_assoc (concat_chunks w.chunks) t (varint value),
      ),
    )
write_field-bytes (delimited field value) w h =
    let t = tag_bytes field wire_delimited in
    let size = varint (pos (length value)) in
    (
      record { chunks = ((w.chunks ++ (t ∷ [])) ++ (size ∷ [])) ++ (value ∷ []) },
      (unfold write_tag in ground arith),
      ground (
        arith,
        concat_chunks-append ((w.chunks ++ (t ∷ [])) ++ (size ∷ [])) (value ∷ []),
        concat_chunks-append (w.chunks ++ (t ∷ [])) (size ∷ []),
        concat_chunks-append w.chunks (t ∷ []),
        one_chunk t,
        one_chunk size,
        one_chunk value,
        append_assoc (concat_chunks w.chunks) t size,
        append_assoc (concat_chunks w.chunks) t (size ++ value),
        append_assoc t size value,
        append_assoc (concat_chunks w.chunks ++ t) size value,
      ),
    )

unfoldable pub all_bytes : List Field → Bytes
all_bytes [] = []
all_bytes (f ∷ fs) = field_bytes f ++ all_bytes fs

pub write_fields-bytes :
    (fs : List Field) (w : MessageWriter)
    → All IsWritable fs
    → (w' : MessageWriter) × (write_fields w fs ≡ ok w') × (finish w' ≡ finish w ++ all_bytes fs)
unfolding write_fields all_bytes
write_fields-bytes [] w h = (w, refl, sym (append-nil (finish w)))
write_fields-bytes (f ∷ fs) w h =
    let (w1, e1, b1) = write_field-bytes f w h.0 in
    let (w2, e2, b2) = write_fields-bytes fs w1 h.1 in
    (
      w2,
      ground (arith, e1, e2),
      ground (arith, b1, b2, append_assoc (finish w) (field_bytes f) (all_bytes fs)),
    )

pub finish-new_writer : finish new_writer ≡ []
unfolding finish new_writer concat_chunks
finish-new_writer = refl

-- A round that reads a field goes on with what is left.
pub read_fields_step {ℓ} :
    {S : Type ℓ} (on_field : S → FieldTag → Bytes → Result (Option (Bytes × S))) (fuel : ℕ)
    (s s' : S) (bytes rest : Bytes)
    → read_field on_field s bytes ≡ ok (rest, s')
    → read_fields on_field (suc fuel) s bytes ≡ read_fields on_field fuel s' rest
read_fields_step on_field fuel s s' [] rest h =
    absurd (unfold read_field read_tag read_varint in ground arith)
read_fields_step on_field fuel s s' (b ∷ bs) rest h = unfold read_fields in rw h

read_fields-collect :
    (fs : List Field) (fuel : ℕ) (s : List Seen)
    → All IsWritable fs
    → length fs ≤ fuel
    → read_fields collect fuel s (all_bytes fs) ≡ ok (s ++ map seen fs)
read_fields-collect [] fuel s h k = rw append-nil (unfold all_bytes in done_at fuel)
  where
    done_at : (n : ℕ) → read_fields collect n s [] ≡ ok s
    done_at n = unfold read_fields in refl
read_fields-collect (f ∷ fs) zero s h k = absurd (omega arith)
read_fields-collect (f ∷ fs) (suc fuel) s h k =
    let s' = s ++ (seen f ∷ []) in
    let one : read_field collect s (all_bytes (f ∷ fs)) ≡ ok (all_bytes fs, s') =
      unfold all_bytes in read_field-collect f s (all_bytes fs) h.0 in
    read_fields_step collect fuel s s' (all_bytes (f ∷ fs)) (all_bytes fs) one
    ∙ read_fields-collect fs fuel s' h.1 (omega arith)
    ∙ ap ok (append_assoc s (seen f ∷ []) (map seen fs))

-- A message of writable fields, however many, is written without an error, and a decoder that keeps
-- every field reads from its bytes the same fields in the same order, each integer as its 64-bit
-- two's complement. The rounds of its loop need be no more than the fields.
pub read_fields-write_fields :
    (fs : List Field) (fuel : ℕ)
    → All IsWritable fs
    → length fs ≤ fuel
    → (w : MessageWriter) × (write_fields new_writer fs ≡ ok w)
      × (read_fields collect fuel [] (finish w) ≡ ok (map seen fs))
read_fields-write_fields fs fuel h k =
    let (w, e, b) = write_fields-bytes fs new_writer h in
    let b' : finish w ≡ all_bytes fs =
      b ∙ ap (λ (t : Bytes). t ++ all_bytes fs) finish-new_writer in
    (w, e, rw b' (read_fields-collect fs fuel [] h k))

-- A decoder that knows none of the fields of a message of writable fields steps over every one of them,
-- to the end, in no more rounds than there are fields.
pub read_fields-ignore :
    (fs : List Field) (fuel : ℕ) (s : List Seen)
    → All IsWritable fs
    → length fs ≤ fuel
    → read_fields ignore fuel s (all_bytes fs) ≡ ok s
read_fields-ignore [] fuel s h k = unfold read_fields all_bytes in refl
read_fields-ignore (f ∷ fs) zero s h k = absurd (omega arith)
read_fields-ignore (f ∷ fs) (suc fuel) s h k =
    let one : read_field ignore s (all_bytes (f ∷ fs)) ≡ ok (all_bytes fs, s) =
      unfold all_bytes in read_field-ignore f s (all_bytes fs) h.0 in
    read_fields_step ignore fuel s s (all_bytes (f ∷ fs)) (all_bytes fs) one
    ∙ read_fields-ignore fs fuel s h.1 (omega arith)
