-- ===== src/Overlay/Paging.antt =====
-- Reading a project's overlay page by page.
pub mod Following
use mathlib.Core.List.{Perm}
use narra_leaf_team.Common.{
  ℕ, zero, suc, ◌+◌, ◌≤◌, ◌<◌, ◌≡◌, ◌≢◌, refl, sym, ap, ◌∙◌, subst, Bool, true, false, ◌&&◌, Option,
  none, some, List, [], ◌∷◌, ◌++◌, map, length, take, drop, arith, All, Text, append_assoc,
  append-nil, map-append, length-append, by_branches, ltb, ◌==◌,
}
use narra_leaf_team.Data.Sorting.{
  filter, Pairwise, All-middle, Pairwise-filter, sort-Sorted, Sorted, sort-Perm, length-sort,
  length-filter,
}
use narra_leaf_team.Data.Decimal.{decimal, All-decimal}
use narra_leaf_team.Data.Integer.{ℤ, pos}
use narra_leaf_team.Overlay.{Row, Database, OverlayRecord, to_record}
use narra_leaf_team.Overlay.Listing.{
  OverlayQuery, OverlayPage, Cursor, matches, cursor_at, newer, selected, split_colon, print_cursor,
  last_of, cursor_with, weigh, parse_cursor, fill_page, page_of, list_overlay,
}
use narra_leaf_team.Overlay.Order.{
  max_safe_integer, IsReadable, Apart, newer_trans, newer_linear, selected_all, selected_behind,
  selected-before, selected-All,
}

pub split_colon_lem :
    (ds s : Text) → All (λ c. c ≢ b':') ds → split_colon (ds ++ (b':' ∷ s)) ≡ some (ds, s)
unfolding split_colon
split_colon_lem [] s h = refl
split_colon_lem (c ∷ ds) s h = ground (arith, split_colon_lem ds s h.1, h.0)

pub cursor_with-id :
    (at : ℤ) (id : Text) → id ≢ [] → cursor_with at id ≡ some (record { at = at; id = id })
cursor_with-id at [] h = absurd (h refl)
cursor_with-id at (c ∷ id) h = refl

-- What is left, if anything.
abbrev pub more {ℓ} : {A : Type ℓ} → List A → Bool
more [] = false
more (x ∷ xs) = true

pub take-drop {ℓ} : {A : Type ℓ} (n : ℕ) (xs : List A) → xs ≡ take n xs ++ drop n xs
take-drop zero xs = refl
take-drop (suc n) [] = refl
take-drop (suc n) (x ∷ xs) = ap (◌∷◌ x) (take-drop n xs)

pub drop_nothing {ℓ} : {A : Type ℓ} (n : ℕ) (xs : List A) → length (take n xs) < n → drop n xs ≡ []
drop_nothing zero xs h = absurd (omega arith)
drop_nothing (suc n) [] h = refl
drop_nothing (suc n) (x ∷ xs) h = drop_nothing n xs (omega arith)

pub more-append {ℓ} :
    {A : Type ℓ} (n : ℕ) (xs taken left : List A)
    → take n xs ≡ taken ++ left
    → length taken < n
    → more left ≡ more (left ++ drop n xs)
more-append n xs taken [] p h =
    sym (ap more (drop_nothing n xs (omega (arith, ap length p, length-append taken []))))
more-append n xs taken (y ∷ ys) p h = refl

pub last_of-append :
    (rs : List OverlayRecord) (r : OverlayRecord) → last_of (rs ++ (r ∷ [])) ≡ some r
unfolding last_of
last_of-append [] r = refl
last_of-append (s ∷ []) r = refl
last_of-append (s ∷ s' ∷ rs) r = last_of-append (s' ∷ rs) r

-- A list that is not empty ends in something.
pub split_last {ℓ} :
    {A : Type ℓ} (xs : List A) → 1 ≤ length xs → (ys : List A) × (y : A) × (xs ≡ ys ++ (y ∷ []))
split_last [] h = absurd (omega arith)
split_last (x ∷ []) h = ([], x, refl)
split_last (x ∷ x' ∷ xs) h =
    let (ys, y, e) = split_last (x' ∷ xs) (omega arith) in (x ∷ ys, y, ap (◌∷◌ x) e)

abbrev pub prepend : List OverlayRecord → Option (List OverlayRecord) → Option (List OverlayRecord)
prepend records none = none
prepend records (some rs) = some (records ++ rs)

-- A page, and what its cursor leads to.
abbrev pub then_pages :
    OverlayPage → (Text → Option (List OverlayRecord)) → Option (List OverlayRecord)
then_pages page next = elim page.cursor [
  | none ↦ some page.records
  | some cursor ↦ prepend page.records (next cursor)
]

module _ (byte_length : Text → ℕ) (to_integer : Text → Option ℤ) where
  -- What the loop takes of its rows.
  abbrev Taken : OverlayQuery → List OverlayRecord → List Row → List OverlayRecord × Bool → Type 0
  Taken query records rows result =
      (taken left : List Row) × (rows ≡ taken ++ left)
      × (result ≡ (records ++ map to_record taken, more left))
      × (length records + length taken ≤ query.limit)
      × (more left ≡ true → 1 ≤ length records + length taken)

  fill_page_lem :
      (query : OverlayQuery) (records : List OverlayRecord) (bytes : ℕ) (rows : List Row)
      → 1 ≤ query.limit
      → length records ≤ query.limit
      → Taken query records rows (fill_page byte_length to_integer query records bytes rows)
  unfolding fill_page
  fill_page_lem query records bytes [] h k = (
    [],
    [],
    refl,
    ap (λ (rs : List OverlayRecord). (rs, false)) (sym (append-nil records)),
    omega arith,
    λ e. cc,
  )
  fill_page_lem query records bytes (row ∷ rows) h k =
      let entry = to_record row in
      let stop : 1 ≤ length records → Taken query records (row ∷ rows) (records, true) = λ l. (
        [],
        row ∷ rows,
        refl,
        ap (λ (rs : List OverlayRecord). (rs, true)) (sym (append-nil records)),
        omega (arith, k),
        λ e. omega (arith, l),
      ) in
      by_branches (Taken query records (row ∷ rows)) (length records == query.limit) _ _
        (λ e. stop (ground arith))
        (λ e.
          by_branches (Taken query records (row ∷ rows))
            (ltb 0 (length records)
              && ltb query.limit_bytes (bytes + weigh byte_length to_integer entry))
            _ _ (λ d. stop (ground arith))
            (λ d.
              let below : length (records ++ (entry ∷ [])) ≤ query.limit =
                ground (arith, e, k, length-append records (entry ∷ [])) in
              let (taken, left, p, q, few, some_taken) =
                fill_page_lem query (records ++ (entry ∷ []))
                  (bytes + weigh byte_length to_integer entry) rows h below in
              (
                row ∷ taken,
                left,
                ap (◌∷◌ row) p,
                q
                    ∙ ap (λ (rs : List OverlayRecord). (rs, more left))
                        (append_assoc records (entry ∷ []) (map to_record taken)),
                omega (arith, few, length-append records (entry ∷ [])),
                λ m. omega arith,
              )))

  -- A page is the first rows of what the query selects, one at least where there are any, and it has a
  -- cursor where there are more.
  pub page_lem :
      (query : OverlayQuery) (database : Database)
      → 1 ≤ query.limit
      → (taken rest : List Row) × (selected query
            (parse_cursor byte_length to_integer query.before)
            database
          ≡ taken ++ rest)
        × (list_overlay byte_length to_integer query database
            ≡ page_of byte_length to_integer (map to_record taken, more rest))
        × (more rest ≡ true → 1 ≤ length taken)
  unfolding list_overlay
  page_lem query database h =
      let all = selected query (parse_cursor byte_length to_integer query.before) database in
      let n = query.limit + 1 in
      let (taken, left, p, q, few, there) = fill_page_lem query [] 0 (take n all) h (omega arith) in
      let rest = left ++ drop n all in
      let same = more-append n all taken left p (omega (arith, few)) in
      (
        taken,
        rest,
        take-drop n all
            ∙ ap (λ (xs : List Row). xs ++ drop n all) p
            ∙ append_assoc taken left (drop n all),
        ap (page_of byte_length to_integer) (q ∙ ap (λ (b : Bool). (map to_record taken, b)) same),
        λ m. omega (arith, there (same ∙ m)),
      )

  -- A client that follows the cursors, from the page of the query on.
  unfoldable pub read_pages : ℕ → OverlayQuery → Database → Option (List OverlayRecord)
  read_pages zero query database = none
  read_pages (suc n) query database =
      then_pages (list_overlay byte_length to_integer query database)
        (λ cursor. read_pages n (record query { before = some cursor }) database)

  pub read_pages_end :
      (n : ℕ) (query : OverlayQuery) (database : Database) (rs : List OverlayRecord)
      → list_overlay byte_length to_integer query database
        ≡ page_of byte_length to_integer (rs, false)
      → read_pages (suc n) query database ≡ some rs
  unfolding read_pages
  read_pages_end n query database rs h =
      ap
        (λ (page : OverlayPage).
          then_pages page (λ cursor. read_pages n (record query { before = some cursor }) database))
        h

  pub read_pages_on :
      (n : ℕ) (query : OverlayQuery) (database : Database) (rs more_rs : List OverlayRecord)
      (r : OverlayRecord)
      → list_overlay byte_length to_integer query database
        ≡ page_of byte_length to_integer (rs ++ (r ∷ []), true)
      → read_pages n (record query { before = some (print_cursor r) }) database ≡ some more_rs
      → read_pages (suc n) query database ≡ some ((rs ++ (r ∷ [])) ++ more_rs)
  unfolding read_pages
  read_pages_on n query database rs more_rs r h k =
      let next = λ (cursor : Text). read_pages n (record query { before = some cursor }) database in
      let records = rs ++ (r ∷ []) in
      ap (λ (page : OverlayPage). then_pages page next) h
      ∙ ap
          (λ (last : Option OverlayRecord).
            then_pages
              (record {
                records = records;
                cursor = elim last [ none ↦ none | some l ↦ some (print_cursor l) ];
              })
              next)
          (last_of-append rs r)
      ∙ ap (prepend records) k
