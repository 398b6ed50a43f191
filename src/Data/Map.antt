-- ===== src/Data/Map.antt =====
-- The `Map` of JavaScript with string keys: entries in the order in which their keys came in.
-- `set` on a key that is there keeps its place.
use narra_leaf_team.Data.TextSet
use narra_leaf_team.Common.{
  All, Bool-cases, subst, ℕ, ◌≡◌, refl, inl, inr, Bool, true, Option, none, some, List, [], ◌∷◌,
  map, arith, if◌then◌else◌, is_some, Text, text_eq, text_eq_iff, text_eq_refl, length,
}

abbrev pub Map {ℓ} : Type ℓ → Type ℓ
Map V = List (Text × V)

module _ {ℓ} {V : Type ℓ} where
  unfoldable pub get : Text → Map V → Option V
  get k [] = none
  get k ((j, v) ∷ m) = if text_eq j k then some v else get k m

  unfoldable pub has : Text → Map V → Bool
  unfolding get
  has k m = is_some (get k m)

  unfoldable pub set : Text → V → Map V → Map V
  set k v [] = (k, v) ∷ []
  set k v ((j, w) ∷ m) = if text_eq j k then (j, v) ∷ m else (j, w) ∷ set k v m

  -- Keys are distinct, so the entry that goes is the only one of its key.
  unfoldable pub delete : Text → Map V → Map V
  delete k [] = []
  delete k ((j, v) ∷ m) = let rest = delete k m in if text_eq j k then rest else (j, v) ∷ rest

  abbrev pub keys : Map V → List Text
  keys m = map (λ (e : Text × V). e.0) m

  abbrev pub values : Map V → List V
  values m = map (λ (e : Text × V). e.1) m

  abbrev pub size : Map V → ℕ
  size m = length m

  pub get-set :
      (k j : Text) (v : V) (m : Map V)
      → get j (set k v m) ≡ (if text_eq k j then some v else get j m)
  unfolding get set
  get-set k j v [] = refl
  get-set k j v ((i, w) ∷ m) =
      ground (arith, text_eq_iff k j, text_eq_iff i k, text_eq_iff i j, get-set k j v m)

  pub get-delete :
      (k j : Text) (m : Map V) → get j (delete k m) ≡ (if text_eq k j then none else get j m)
  unfolding get delete
  get-delete k j [] = ground arith
  get-delete k j ((i, w) ∷ m) =
      ground (arith, text_eq_iff k j, text_eq_iff i k, text_eq_iff i j, get-delete k j m)

  pub has-get : (k : Text) (m : Map V) (v : V) → get k m ≡ some v → has k m ≡ true
  unfolding has
  has-get k m v e = ground arith

  -- What holds of every value holds of what a key finds.
  pub All-get {κ} :
      (P : V → Type κ) (m : Map V) (k : Text) (v : V) → All P (values m) → get k m ≡ some v → P v
  unfolding get
  All-get P [] k v a e = cc
  All-get P ((j, w) ∷ m) k v a e = elim (Bool-cases (text_eq j k)) [
    | inl same ↦ let q : w ≡ v = ground arith in subst P q a.0
    | inr other ↦ let q : get k m ≡ some v = ground arith in All-get P m k v a.1 q
  ]

  pub has-get_iff : (k : Text) (m : Map V) → has k m ≡ is_some (get k m)
  unfolding has
  has-get_iff k m = refl

  -- The keys of a map are the keys that `has` answers for.
  pub has-keys : (k : Text) (m : Map V) → TextSet.has k (keys m) ≡ has k m
  unfolding has get TextSet.has
  has-keys k [] = refl
  has-keys k ((j, v) ∷ m) = ground (arith, has-keys k m)

  -- What is deleted need not have been written first.
  pub delete-set : (k : Text) (v : V) (m : Map V) → delete k (set k v m) ≡ delete k m
  unfolding delete set
  delete-set k v [] = ground (arith, text_eq_refl k)
  delete-set k v ((j, w) ∷ m) = ground (arith, delete-set k v m)
