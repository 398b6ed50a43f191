-- ===== src/Data/TextSet.antt =====
-- A `Set` of strings, in the order in which they came in.
use narra_leaf_team.Common.{
  zero, suc, ◌<◌, Bool-cases, inl, inr, ℕ, ◌+◌, ◌≤◌, ◌≡◌, refl, Bool, true, false, ◌||◌, ◌&&◌, not,
  List, [], ◌∷◌, arith, if◌then◌else◌, Text, text_eq, text_eq_iff, length,
}

abbrev pub TextSet : Type 0
TextSet = List Text

unfoldable pub has : Text → TextSet → Bool
has k [] = false
has k (j ∷ s) = text_eq j k || has k s

unfoldable pub add : Text → TextSet → TextSet
add k [] = k ∷ []
add k (j ∷ s) = if text_eq j k then j ∷ s else j ∷ add k s

unfoldable pub delete : Text → TextSet → TextSet
delete k [] = []
delete k (j ∷ s) = let rest = delete k s in if text_eq j k then rest else j ∷ rest

abbrev pub size : TextSet → ℕ
size s = length s

pub has-add : (k j : Text) (s : TextSet) → has j (add k s) ≡ text_eq k j || has j s
unfolding has add
has-add k j [] = refl
has-add k j (i ∷ s) =
    ground (arith, text_eq_iff k j, text_eq_iff i k, text_eq_iff i j, has-add k j s)

pub has-delete : (k j : Text) (s : TextSet) → has j (delete k s) ≡ not (text_eq k j) && has j s
unfolding has delete
has-delete k j [] = ground arith
has-delete k j (i ∷ s) =
    ground (arith, text_eq_iff k j, text_eq_iff i k, text_eq_iff i j, has-delete k j s)

pub size-delete-le : (k : Text) (s : TextSet) → size (delete k s) ≤ size s
unfolding delete
size-delete-le k [] = omega arith
size-delete-le k (j ∷ s) = ground (arith, size-delete-le k s)

pub size-add : (k : Text) (s : TextSet) → has k s ≡ true → size (add k s) ≡ size s
unfolding has add
size-add k [] h = ground arith
size-add k (j ∷ s) h = ground (arith, size-add k s)

pub size-add-le : (k : Text) (s : TextSet) → size (add k s) ≤ size s + 1
unfolding add
size-add-le k [] = omega arith
size-add-le k (j ∷ s) = ground (arith, size-add-le k s)

-- No element twice.
abbrev pub Distinct : TextSet → Type 0
Distinct [] = Unit
Distinct (j ∷ s) = (has j s ≡ false) × Distinct s

pub add-Distinct : (k : Text) (s : TextSet) → Distinct s → Distinct (add k s)
unfolding has add
add-Distinct k [] d = (refl, tt)
add-Distinct k (j ∷ s) d =
    ground (arith, add-Distinct k s d.1, has-add k j s, text_eq_iff k j, text_eq_iff j k)

pub delete-Distinct : (k : Text) (s : TextSet) → Distinct s → Distinct (delete k s)
unfolding has delete
delete-Distinct k [] d = tt
delete-Distinct k (j ∷ s) d =
    ground (arith, delete-Distinct k s d.1, has-delete k j s, text_eq_iff k j, text_eq_iff j k)

pub size-delete-lt : (k : Text) (s : TextSet) → has k s ≡ true → size (delete k s) < size s
unfolding has delete
size-delete-lt k [] h = cc
size-delete-lt k (j ∷ s) h = ground (arith, size-delete-lt k s, size-delete-le k s)

-- Of `k` different texts, one is not in a set of fewer than `k`.
pub outside :
    (f : ℕ → Text) (k : ℕ) (s : TextSet)
    → ((m n : ℕ) → m < k → n < k → f m ≡ f n → m ≡ n)
    → size s < k
    → (n : ℕ) × (n < k) × (has (f n) s ≡ false)
outside f zero s inj h = absurd (omega arith)
outside f (suc k) s inj h = elim (Bool-cases (has (f k) s)) [
  | inr out ↦ (k, omega arith, out)
  | inl held ↦
      let rest =
        outside f k (delete (f k) s) (λ m n hm hn e. inj m n (omega arith) (omega arith) e)
          (omega (arith, size-delete-lt (f k) s held)) in
      let apart : ¬ (f k ≡ f rest.0) =
        λ e. omega (arith, inj k rest.0 (omega arith) (omega (arith, rest.1)) e) in
      (
        rest.0,
        omega (arith, rest.1),
        ground (arith, rest.2, has-delete (f k) (f rest.0) s, text_eq_iff (f k) (f rest.0)),
      )
]
