-- ===== src/Data/Sorting.antt =====
-- The rows of a query: those that meet a condition, in an order, as WHERE and ORDER BY pick them.
use mathlib.Core.List.{Perm}
use mathlib.Core.List.Perm
use narra_leaf_team.Common.{
  suc, ◌≤◌, length, map, ◌≡◌, refl, ap, Bool, true, false, ◌&&◌, List, [], ◌∷◌, ◌++◌, if◌then◌else◌,
  arith, All, Bool-cases, inl, inr,
}

module _ {ℓ} {A : Type ℓ} where
  abbrev pub filter : (A → Bool) → List A → List A
  filter q [] = []
  filter q (x ∷ xs) = if q x then x ∷ filter q xs else filter q xs

  pub filter-filter :
      (p q : A → Bool) (xs : List A) → filter (λ x. p x && q x) xs ≡ filter q (filter p xs)
  filter-filter p q [] = refl
  filter-filter p q (x ∷ xs) = ground (arith, filter-filter p q xs)

  pub All-filter {κ} :
      (P : A → Type κ) (q : A → Bool) (xs : List A) → All P xs → All P (filter q xs)
  All-filter P q [] h = tt
  All-filter P q (x ∷ xs) h =
      elim (q x) as (λ b. All P (if b then x ∷ filter q xs else filter q xs)) [
        | true ↦ (h.0, All-filter P q xs h.1)
        | false ↦ All-filter P q xs h.1
      ]

  pub length-filter : (q : A → Bool) (xs : List A) → length (filter q xs) ≤ length xs
  length-filter q [] = omega arith
  length-filter q (x ∷ xs) = ground (arith, length-filter q xs)

  pub All-map {κ μ} :
      {P : A → Type κ} {Q : A → Type μ} (f : (x : A) → P x → Q x) (xs : List A)
      → All P xs
      → All Q xs
  All-map f [] h = tt
  All-map f (x ∷ xs) h = (f x h.0, All-map f xs h.1)

  pub All-of {κ} : {P : A → Type κ} → ((x : A) → P x) → (xs : List A) → All P xs
  All-of f [] = tt
  All-of f (x ∷ xs) = (f x, All-of f xs)

  pub All-middle {κ} : (P : A → Type κ) (xs ys : List A) (k : A) → All P (xs ++ (k ∷ ys)) → P k
  All-middle P [] ys k h = h.0
  All-middle P (x ∷ xs) ys k h = All-middle P xs ys k h.1

  -- Each element stands so to every later one.
  abbrev pub Pairwise {κ} : (A → A → Type κ) → List A → Type κ
  Pairwise R [] = Unit {κ}
  Pairwise R (x ∷ xs) = All (R x) xs × Pairwise R xs

  pub Pairwise-filter {κ} :
      (R : A → A → Type κ) (q : A → Bool) (xs : List A) → Pairwise R xs → Pairwise R (filter q xs)
  Pairwise-filter R q [] h = tt
  Pairwise-filter R q (x ∷ xs) h =
      elim (q x) as (λ b. Pairwise R (if b then x ∷ filter q xs else filter q xs)) [
        | true ↦ (All-filter (R x) q xs h.0, Pairwise-filter R q xs h.1)
        | false ↦ Pairwise-filter R q xs h.1
      ]

  pub filter-All : (q : A → Bool) (xs : List A) → All (λ x. q x ≡ true) xs → filter q xs ≡ xs
  filter-All q [] h = refl
  filter-All q (x ∷ xs) h = rw h.0 (ap (◌∷◌ x) (filter-All q xs h.1))

  pub Pairwise-map {κ} :
      (R : A → A → Type κ) (f : A → A)
      → ((x y : A) → R x y → R (f x) (f y))
      → (xs : List A) → Pairwise R xs
      → Pairwise R (map f xs)
  Pairwise-map R f k [] h = tt
  Pairwise-map R f k (x ∷ xs) h = (images x xs h.0, Pairwise-map R f k xs h.1)
    where
      images : (x : A) (ys : List A) → All (R x) ys → All (R (f x)) (map f ys)
      images x [] h = tt
      images x (y ∷ ys) h = (k x y h.0, images x ys h.1)

  pub All-mapped {κ} :
      (P : A → Type κ) (f : A → A)
      → ((x : A) → P x → P (f x))
      → (xs : List A) → All P xs
      → All P (map f xs)
  All-mapped P f k [] h = tt
  All-mapped P f k (x ∷ xs) h = (k x h.0, All-mapped P f k xs h.1)

  -- `first x y`: x comes before y.
  module _ (first : A → A → Bool) where
    abbrev pub insert : A → List A → List A
    insert x [] = x ∷ []
    insert x (y ∷ ys) = if first x y then x ∷ y ∷ ys else y ∷ insert x ys

    abbrev pub sort : List A → List A
    sort [] = []
    sort (x ∷ xs) = insert x (sort xs)

    abbrev pub Sorted : List A → Type 0
    Sorted xs = Pairwise (λ x y. first x y ≡ true) xs

    pub All-insert {κ} :
        (P : A → Type κ) (x : A) (xs : List A) → P x → All P xs → All P (insert x xs)
    All-insert P x [] p h = (p, tt)
    All-insert P x (y ∷ ys) p h =
        elim (first x y) as (λ b. All P (if b then x ∷ y ∷ ys else y ∷ insert x ys)) [
          | true ↦ (p, h)
          | false ↦ (h.0, All-insert P x ys p h.1)
        ]

    insert-Perm : (x : A) (ys : List A) → Perm (insert x ys) (x ∷ ys)
    insert-Perm x [] = Perm.refl (x ∷ [])
    insert-Perm x (y ∷ ys) =
        elim (first x y) as (λ b. Perm (if b then x ∷ y ∷ ys else y ∷ insert x ys) (x ∷ y ∷ ys)) [
          | true ↦ Perm.refl (x ∷ y ∷ ys)
          | false ↦ Perm.trans (Perm.cons y (insert-Perm x ys)) (Perm.swap x y ys)
        ]

    pub sort-Perm : (xs : List A) → Perm (sort xs) xs
    sort-Perm [] = Perm.refl []
    sort-Perm (x ∷ xs) = Perm.trans (insert-Perm x (sort xs)) (Perm.cons x (sort-Perm xs))

    length-insert : (x : A) (ys : List A) → length (insert x ys) ≡ suc (length ys)
    length-insert x [] = refl
    length-insert x (y ∷ ys) = ground (arith, length-insert x ys)

    pub length-sort : (xs : List A) → length (sort xs) ≡ length xs
    length-sort [] = refl
    length-sort (x ∷ xs) = ground (arith, length-insert x (sort xs), length-sort xs)

    pub All-sort {κ} : (P : A → Type κ) (xs : List A) → All P xs → All P (sort xs)
    All-sort P [] h = tt
    All-sort P (x ∷ xs) h = All-insert P x (sort xs) h.0 (All-sort P xs h.1)

    insert-first : (x : A) (ys : List A) → All (λ y. first x y ≡ true) ys → insert x ys ≡ x ∷ ys
    insert-first x [] h = refl
    insert-first x (y ∷ ys) h = rw h.0 refl

    -- A strict order that tells apart whatever is apart.
    module _ {κ} (Apart : A → A → Type κ)
        (trans : (x y z : A) → first x y ≡ true → first y z ≡ true → first x z ≡ true)
        (linear : (x y : A) → Apart x y → first x y ≡ false → first y x ≡ true) where
      insert-Sorted : (x : A) (ys : List A) → All (Apart x) ys → Sorted ys → Sorted (insert x ys)
      insert-Sorted x [] a h = (tt, tt)
      insert-Sorted x (y ∷ ys) a h = elim (Bool-cases (first x y)) [
        | inl e ↦ rw e ((e, All-map (λ z k. trans x y z e k) ys h.0), h)
        | inr e ↦ rw e (
          All-insert (λ z. first y z ≡ true) x ys (linear x y a.0 e) h.0,
          insert-Sorted x ys a.1 h.1,
        )
      ]

      pub sort-Sorted : (xs : List A) → Pairwise Apart xs → Sorted (sort xs)
      sort-Sorted [] h = tt
      sort-Sorted (x ∷ xs) h =
          insert-Sorted x (sort xs) (All-sort (Apart x) xs h.0) (sort-Sorted xs h.1)

      filter-insert :
          (q : A → Bool) (x : A) (ys : List A)
          → Sorted ys
          → filter q (insert x ys) ≡ (if q x then insert x (filter q ys) else filter q ys)
      filter-insert q x [] h = refl
      filter-insert q x (y ∷ ys) h = elim (Bool-cases (first x y)) [
        | inl e ↦
            let all =
              All-filter (λ z. first x z ≡ true) q (y ∷ ys)
                (e, All-map (λ z k. trans x y z e k) ys h.0) in
            ground (arith, e, insert-first x (filter q (y ∷ ys)) all)
        | inr e ↦ let rest = filter-insert q x ys h.1 in ground (arith, e, rest)
      ]

      -- Picking and sorting may be done in either order.
      pub filter-sort :
          (q : A → Bool) (xs : List A) → Pairwise Apart xs → filter q (sort xs) ≡ sort (filter q xs)
      filter-sort q [] h = refl
      filter-sort q (x ∷ xs) h =
          let rest = filter-sort q xs h.1 in
          let put = filter-insert q x (sort xs) (sort-Sorted xs h.1) in ground (arith, rest, put)

    -- What comes after an element of a sorted list is what stands behind it.
    module _ (trans : (x y z : A) → first x y ≡ true → first y z ≡ true → first x z ≡ true)
        (irreflexive : (x : A) → first x x ≡ false) where
      pub filter_behind :
          (xs ys : List A) (k : A)
          → Sorted (xs ++ (k ∷ ys))
          → filter (first k) (xs ++ (k ∷ ys)) ≡ ys
      filter_behind [] ys k h = rw (irreflexive k) (filter-All (first k) ys h.0)
      filter_behind (x ∷ xs) ys k h =
          let before : first x k ≡ true = All-middle (λ z. first x z ≡ true) xs ys k h.0 in
          let rest = filter_behind xs ys k h.1 in
          elim (Bool-cases (first k x)) [
            | inl e ↦ absurd (ground (arith, trans k x k e before, irreflexive k))
            | inr e ↦ rw e rest
          ]
