-- ===== src/Grpc/Messages/Decoding.antt =====
-- Reading back the fields of a message one after the other, for any decoder.
use narra_leaf_team.Common.{
  ℕ, zero, suc, ◌≤◌, ◌≡◌, refl, sym, ap, ◌∙◌, subst, some, List, [], ◌∷◌, ◌++◌, arith, length,
  length-append, All, append_assoc, append-nil,
}
use narra_leaf_team.Data.Bytes.{Bytes}
use narra_leaf_team.Grpc.Protobuf.{
  ℤ, pos, FieldTag, Result, ok, err, WireError, read_number, read_field, read_fields, consumed,
  varint, as_uint64, max_safe_integer, new_writer, wire_varint, wire_delimited,
}
use narra_leaf_team.Grpc.Protobuf.Varint.{read_varint-varint, read_varint_takes}
use narra_leaf_team.Grpc.Protobuf.Fields.{
  Field, integer, delimited, IsField, IsWritable, field_bytes, all_bytes, write_fields-bytes,
  read_tag-tag_bytes, read_delimited-bytes, read_fields_step, finish-new_writer, tag_bytes,
}
use narra_leaf_team.Grpc.Messages.{
  finished, Handled, take_bytes, take_varint, take_number, take_message, read_all,
}

pub finished-all_bytes : (fs : List Field) → All IsWritable fs → finished fs ≡ all_bytes fs
unfolding finished
finished-all_bytes fs h =
    let (w, e, b) = write_fields-bytes fs new_writer h in ground (arith, e, b, finish-new_writer)

take_bytes-bytes {ℓ} :
    {S : Type ℓ} (keep : Bytes → S) (value rest : Bytes)
    → length value ≤ max_safe_integer
    → take_bytes keep (varint (pos (length value)) ++ (value ++ rest))
      ≡ ok (some (rest, keep value))
unfolding take_bytes
take_bytes-bytes keep value rest h = rw (read_delimited-bytes value rest h) refl

length-varint : (value : ℤ) → 1 ≤ length (varint value)
length-varint value =
    let (below, less, most) =
      read_varint_takes (varint value ++ []) (as_uint64 value) [] (read_varint-varint value []) in
    ground (arith, less, append-nil (varint value))

length-all_bytes : (fs : List Field) → length fs ≤ length (all_bytes fs)
unfolding all_bytes field_bytes
length-all_bytes [] = omega arith
length-all_bytes (integer field value ∷ fs) = ground (
  arith,
  length-append (tag_bytes field wire_varint ++ varint value) (all_bytes fs),
  length-append (tag_bytes field wire_varint) (varint value),
  length-varint value,
  length-all_bytes fs,
)
length-all_bytes (delimited field value ∷ fs) =
    let size = varint (pos (length value)) in
    ground (
      arith,
      length-append (tag_bytes field wire_delimited ++ (size ++ value)) (all_bytes fs),
      length-append (tag_bytes field wire_delimited) (size ++ value),
      length-append size value,
      length-varint (pos (length value)),
      length-all_bytes fs,
    )

module _ {ℓ} {S : Type ℓ} (on_field : S → FieldTag → Bytes → Handled S) where
  -- The decoder consumes this field, whatever follows it.
  abbrev pub Takes : S → Field → S → Type ℓ
  Takes s f s' = (rest : Bytes) → read_field on_field s (field_bytes f ++ rest) ≡ ok (rest, s')

  -- One field, from what the decoder does with the bytes behind its tag.
  Takes-delimited :
      (field : ℕ) (value : Bytes) (s s' : S)
      → IsField field
      → ((rest : Bytes)
          → on_field s
              (record { field = field; wire_type = wire_delimited })
              (varint (pos (length value)) ++ (value ++ rest))
            ≡ ok (some (rest, s')))
      → Takes s (delimited field value) s'
  unfolding read_field consumed field_bytes
  Takes-delimited field value s s' h taken rest = ground (
    arith,
    append_assoc (tag_bytes field wire_delimited) (varint (pos (length value)) ++ value) rest,
    append_assoc (varint (pos (length value))) value rest,
    read_tag-tag_bytes field wire_delimited (varint (pos (length value)) ++ (value ++ rest)) h,
    taken rest,
  )

  Takes-integer :
      (field : ℕ) (value : ℤ) (s s' : S)
      → IsField field
      → ((rest : Bytes)
          → on_field s (record { field = field; wire_type = wire_varint }) (varint value ++ rest)
            ≡ ok (some (rest, s')))
      → Takes s (integer field value) s'
  unfolding read_field consumed field_bytes
  Takes-integer field value s s' h taken rest = ground (
    arith,
    append_assoc (tag_bytes field wire_varint) (varint value) rest,
    read_tag-tag_bytes field wire_varint (varint value ++ rest) h,
    taken rest,
  )

  pub Takes-bytes :
      (field : ℕ) (value : Bytes) (s : S) (keep : Bytes → S)
      → IsField field
      → length value ≤ max_safe_integer
      → ((bytes : Bytes)
          → on_field s (record { field = field; wire_type = wire_delimited }) bytes
            ≡ take_bytes keep bytes)
      → Takes s (delimited field value) (keep value)
  Takes-bytes field value s keep h few kept = Takes-delimited field value s (keep value) h (λ rest.
      kept (varint (pos (length value)) ++ (value ++ rest)) ∙ take_bytes-bytes keep value rest few)

  pub Takes-message {κ} :
      {A : Type κ} (field : ℕ) (value : Bytes) (a : A) (s : S) (read : Bytes → Result A)
      (keep : A → S)
      → IsField field
      → length value ≤ max_safe_integer
      → read value ≡ ok a
      → ((bytes : Bytes)
          → on_field s (record { field = field; wire_type = wire_delimited }) bytes
            ≡ take_message read keep bytes)
      → Takes s (delimited field value) (keep a)
  unfolding take_message
  Takes-message field value a s read keep h few e kept =
      Takes-delimited field value s (keep a) h (λ rest. ground (
        arith,
        kept (varint (pos (length value)) ++ (value ++ rest)),
        read_delimited-bytes value rest,
        e,
      ))

  pub Takes-varint :
      (field : ℕ) (value : ℤ) (s : S) (keep : ℕ → S)
      → IsField field
      → ((bytes : Bytes)
          → on_field s (record { field = field; wire_type = wire_varint }) bytes
            ≡ take_varint keep bytes)
      → Takes s (integer field value) (keep (as_uint64 value))
  unfolding take_varint
  Takes-varint field value s keep h kept =
      Takes-integer field value s (keep (as_uint64 value)) h
        (λ rest. ground (arith, kept (varint value ++ rest), read_varint-varint value rest))

  pub Takes-number :
      (field : ℕ) (value : ℤ) (s : S) (keep : ℕ → S)
      → IsField field
      → as_uint64 value ≤ max_safe_integer
      → ((bytes : Bytes)
          → on_field s (record { field = field; wire_type = wire_varint }) bytes
            ≡ take_number keep bytes)
      → Takes s (integer field value) (keep (as_uint64 value))
  unfolding take_number read_number
  Takes-number field value s keep h few kept =
      Takes-integer field value s (keep (as_uint64 value)) h
        (λ rest. ground (arith, kept (varint value ++ rest), read_varint-varint value rest))

  -- The decoder refuses this field, whatever follows it.
  abbrev pub Refuses : S → Field → WireError → Type ℓ
  Refuses s f e = (rest : Bytes) → read_field on_field s (field_bytes f ++ rest) ≡ err e

  pub Refuses-delimited :
      (field : ℕ) (value : Bytes) (s : S) (e : WireError)
      → IsField field
      → ((bytes : Bytes)
          → on_field s (record { field = field; wire_type = wire_delimited }) bytes ≡ err e)
      → Refuses s (delimited field value) e
  unfolding read_field field_bytes
  Refuses-delimited field value s e h refused rest =
      let size = varint (pos (length value)) in
      ground (
        arith,
        append_assoc (tag_bytes field wire_delimited) (size ++ value) rest,
        append_assoc size value rest,
        read_tag-tag_bytes field wire_delimited (size ++ (value ++ rest)) h,
        refused (size ++ (value ++ rest)),
      )

  -- The fields one after the other, from one state to another.
  abbrev pub Runs : S → List Field → S → Type ℓ
  Runs s [] s' = s ≡ s'
  Runs s (f ∷ fs) s' = (m : S) × Takes s f m × Runs m fs s'

  pub Runs-append :
      (fs gs : List Field) (s m s' : S) → Runs s fs m → Runs m gs s' → Runs s (fs ++ gs) s'
  Runs-append [] gs s m s' e h = subst (λ (t : S). Runs t gs s') (sym e) h
  Runs-append (f ∷ fs) gs s m s' (t, k, r) h = (t, k, Runs-append fs gs t m s' r h)

  Runs-read_fields :
      (fs : List Field) (fuel : ℕ) (s s' : S)
      → Runs s fs s'
      → length fs ≤ fuel
      → read_fields on_field fuel s (all_bytes fs) ≡ ok s'
  unfolding all_bytes
  Runs-read_fields [] fuel s s' e l = unfold read_fields in ap ok e
  Runs-read_fields (f ∷ fs) zero s s' h l = absurd (omega arith)
  Runs-read_fields (f ∷ fs) (suc fuel) s s' (m, k, r) l =
      read_fields_step on_field fuel s m (field_bytes f ++ all_bytes fs) (all_bytes fs)
        (k (all_bytes fs))
      ∙ Runs-read_fields fs fuel m s' r (omega arith)

  read_fields_refused :
      (fuel : ℕ) (s : S) (e : WireError) (bytes : Bytes)
      → 1 ≤ length bytes
      → read_field on_field s bytes ≡ err e
      → read_fields on_field (suc fuel) s bytes ≡ err e
  read_fields_refused fuel s e [] h k = absurd (omega arith)
  read_fields_refused fuel s e (b ∷ bs) h k = unfold read_fields in rw k refl

  Refuses-read_fields :
      (fs gs : List Field) (f : Field) (fuel : ℕ) (s m : S) (e : WireError)
      → Runs s fs m
      → Refuses m f e
      → length (fs ++ (f ∷ gs)) ≤ fuel
      → read_fields on_field fuel s (all_bytes (fs ++ (f ∷ gs))) ≡ err e
  unfolding all_bytes
  Refuses-read_fields [] gs f zero s m e h refused l = absurd (omega arith)
  Refuses-read_fields [] gs f (suc fuel) s m e h refused l =
      read_fields_refused fuel s e (all_bytes (f ∷ gs)) (omega (arith, length-all_bytes (f ∷ gs))) (
        subst (λ (t : S). read_field on_field t (all_bytes (f ∷ gs)) ≡ err e) (sym h)
          (refused (all_bytes gs)))
  Refuses-read_fields (g ∷ fs) gs f zero s m e h refused l = absurd (omega arith)
  Refuses-read_fields (g ∷ fs) gs f (suc fuel) s m e (t, k, r) refused l =
      let rest = all_bytes (fs ++ (f ∷ gs)) in
      read_fields_step on_field fuel s t (field_bytes g ++ rest) rest (k rest)
      ∙ Refuses-read_fields fs gs f fuel t m e r refused (omega arith)

  -- So a message whose fields run is read back from its bytes.
  pub Runs-finished :
      (fs : List Field) (s s' : S)
      → All IsWritable fs
      → Runs s fs s'
      → read_all on_field s (finished fs) ≡ ok s'
  unfolding read_all
  Runs-finished fs s s' h r =
      rw (finished-all_bytes fs h)
        (Runs-read_fields fs (length (all_bytes fs)) s s' r (length-all_bytes fs))

  -- A field that the decoder refuses ends the message, once what stands before it was taken.
  pub Refuses-finished :
      (fs gs : List Field) (f : Field) (s m : S) (e : WireError)
      → All IsWritable (fs ++ (f ∷ gs))
      → Runs s fs m
      → Refuses m f e
      → read_all on_field s (finished (fs ++ (f ∷ gs))) ≡ err e
  unfolding read_all
  Refuses-finished fs gs f s m e h r refused = rw (finished-all_bytes (fs ++ (f ∷ gs)) h) (
      Refuses-read_fields fs gs f (length (all_bytes (fs ++ (f ∷ gs)))) s m e r refused
        (length-all_bytes (fs ++ (f ∷ gs))))
