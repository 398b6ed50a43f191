-- ===== src/Grpc/Messages/Carrying.antt =====
-- The parts that the messages of src/grpc/messages.ts are made of, written and taken back.
use narra_leaf_team.Common.{
  ℕ, ◌+◌, ◌≤◌, ◌<◌, ◌≡◌, refl, sym, ap, subst, Option, none, some, List, [], ◌∷◌, ◌++◌, map, arith,
  length, length-append, All, All-append, append_assoc, append-nil,
}
use narra_leaf_team.Data.Bytes.{Bytes}
use narra_leaf_team.Grpc.Protobuf.{FieldTag, ok, max_safe_integer, wire_delimited}
use narra_leaf_team.Grpc.Protobuf.Fields.{Field, delimited, IsField, IsWritable}
use narra_leaf_team.Grpc.Messages.{finished, if_there, unless_empty, Handled, take_bytes, read_all}
use narra_leaf_team.Grpc.Messages.Decoding.{Takes, Takes-bytes, Runs, Runs-append, Runs-finished}

-- A length that can be read back exactly.
abbrev pub IsShort : Bytes → Type 0
IsShort value = length value ≤ max_safe_integer

module _ {ℓ} {S : Type ℓ} (on_field : S → FieldTag → Bytes → Handled S) where
  -- Fields that can be written, and that take the decoder from one state to another.
  pub record Carries (s : S) (fs : List Field) (s' : S) : Type ℓ where
    pub writable : All IsWritable fs
    pub runs : Runs on_field s fs s'

  pub Carries-append :
      {fs gs : List Field} {s m s' : S} → Carries s fs m → Carries m gs s' → Carries s (fs ++ gs) s'
  Carries-append {fs} {gs} {s} {m} {s'} h k = record {
    writable = All-append IsWritable fs gs h.writable k.writable;
    runs = Runs-append on_field fs gs s m s' h.runs k.runs;
  }

  pub Carries-one :
      (f : Field) (s s' : S) → IsWritable f → Takes on_field s f s' → Carries s (f ∷ []) s'
  Carries-one f s s' h k = record { writable = (h, tt); runs = (s', k, refl) }

  pub Carries-unless_empty :
      (field : ℕ) (value : Bytes) (s : S) (keep : Bytes → S)
      → s ≡ keep []
      → IsField field
      → IsShort value
      → Takes on_field s (delimited field value) (keep value)
      → Carries s (unless_empty field value) (keep value)
  Carries-unless_empty field [] s keep e h few k = record { writable = tt; runs = e }
  Carries-unless_empty field (b ∷ bs) s keep e h few k =
      Carries-one (delimited field (b ∷ bs)) s (keep (b ∷ bs)) (h, few) k

  -- The usual field of bytes: the decoder keeps them in its state.
  pub Carries-bytes :
      (field : ℕ) (value : Bytes) (s : S) (keep : Bytes → S)
      → s ≡ keep []
      → IsField field
      → IsShort value
      → ((bytes : Bytes)
          → on_field s (record { field = field; wire_type = wire_delimited }) bytes
            ≡ take_bytes keep bytes)
      → Carries s (unless_empty field value) (keep value)
  Carries-bytes field value s keep e h few kept =
      Carries-unless_empty field value s keep e h few
        (Takes-bytes on_field field value s keep h few kept)

  pub Carries-if_there :
      (field : ℕ) (value : Option Bytes) (at : Option Bytes → S)
      → IsField field
      → ((v : Bytes)
          → value ≡ some v
          → IsShort v × Takes on_field (at none) (delimited field v) (at (some v)))
      → Carries (at none) (if_there field value) (at value)
  Carries-if_there field none at h k = record { writable = tt; runs = refl }
  Carries-if_there field (some v) at h k =
      let (few, taken) = k v refl in
      Carries-one (delimited field v) (at none) (at (some v)) (h, few) taken

  -- Repeated fields: the state goes by the list of what was taken so far.
  pub Carries-each {κ μ} :
      {A : Type κ} (f : A → Field) (P : A → Type μ) (limit : ℕ) (at : List A → S)
      (xs items : List A)
      → ((ys : List A) (a : A)
          → length ys < limit
          → P a
          → IsWritable (f a) × Takes on_field (at ys) (f a) (at (ys ++ (a ∷ []))))
      → All P items
      → length xs + length items ≤ limit
      → Carries (at xs) (map f items) (at (xs ++ items))
  Carries-each f P limit at xs [] one h few = record {
    writable = tt;
    runs = ap at (sym (append-nil xs));
  }
  Carries-each f P limit at xs (a ∷ items) one h few =
      let (w, taken) = one xs a (omega arith) h.0 in
      let xs' = xs ++ (a ∷ []) in
      let rest =
        Carries-each f P limit at xs' items one h.1 (omega (arith, length-append xs (a ∷ []))) in
      let same : at (xs' ++ items) ≡ at (xs ++ (a ∷ items)) =
        ap at (append_assoc xs (a ∷ []) items) in
      record {
        writable = (w, rest.writable);
        runs = (at xs', taken, subst (Runs on_field (at xs') (map f items)) same rest.runs);
      }

  pub Carries-finished :
      {fs : List Field} {s s' : S} → Carries s fs s' → read_all on_field s (finished fs) ≡ ok s'
  Carries-finished {fs} {s} {s'} h = Runs-finished on_field fs s s' h.writable h.runs
