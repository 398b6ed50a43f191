-- ===== src/Overlay/Paging/Following.antt =====
-- A client that follows the cursors to the end.
use mathlib.Core.List.{Perm}
use narra_leaf_team.Common.{
  ℕ, zero, suc, ◌≤◌, ◌<◌, ◌≡◌, ◌≢◌, refl, sym, ap, ◌∙◌, subst, true, Option, none, some, List, [],
  ◌∷◌, ◌++◌, map, length, arith, All, Text, append_assoc, append-nil, map-append, length-append,
}
use narra_leaf_team.Data.Sorting.{
  filter, Pairwise, All-middle, Pairwise-filter, sort-Sorted, Sorted, sort-Perm, length-sort,
  length-filter,
}
use narra_leaf_team.Data.Decimal.{decimal, All-decimal}
use narra_leaf_team.Data.Integer.{ℤ, pos}
use narra_leaf_team.Overlay.{Row, Database, OverlayRecord, to_record}
use narra_leaf_team.Overlay.Listing.{
  OverlayQuery, Cursor, matches, cursor_at, newer, selected, print_cursor, parse_cursor, page_of,
  list_overlay,
}
use narra_leaf_team.Overlay.Order.{
  max_safe_integer, IsReadable, Apart, newer_trans, newer_linear, selected_all, selected_behind,
  selected-before, selected-All,
}
use narra_leaf_team.Overlay.Paging.{
  page_lem, read_pages, read_pages_end, read_pages_on, split_colon_lem, cursor_with-id, more,
  split_last,
}

module _ (byte_length : Text → ℕ) (to_integer : Text → Option ℤ)
    (reads : (n : ℕ) → n ≤ max_safe_integer → to_integer (decimal n) ≡ some (pos n)) where
  parse-print_cursor :
      (row : Row)
      → IsReadable row
      → parse_cursor byte_length to_integer (some (print_cursor (to_record row)))
        ≡ some (cursor_at row)
  unfolding parse_cursor print_cursor to_record
  parse-print_cursor row (safe, there) =
      let split =
        split_colon_lem (decimal row.updated_at) row.id
          (All-decimal (λ c. c ≢ b':') (λ d h. omega arith) row.updated_at) in
      ground
        (arith, split, reads row.updated_at safe, cursor_with-id (pos row.updated_at) row.id there)

  -- The round at whose end `left` is left, when the rounds behind it read `left`.
  read_pages_split :
      (n : ℕ) (query : OverlayQuery) (database : Database) (done rest taken left : List Row)
      → 1 ≤ query.limit
      → Pairwise Apart database
      → All IsReadable database
      → selected query none database ≡ done ++ rest
      → rest ≡ taken ++ left
      → list_overlay byte_length to_integer query database
        ≡ page_of byte_length to_integer (map to_record taken, more left)
      → (more left ≡ true → 1 ≤ length taken)
      → ((before : Option Text)
          → selected (record query { before = before }) none database ≡ (done ++ taken) ++ left
          → selected
              (record query { before = before })
              (parse_cursor byte_length to_integer before)
              database
            ≡ left
          → length left < n
          → read_pages byte_length to_integer n (record query { before = before }) database
            ≡ some (map to_record left))
      → length rest < suc n
      → read_pages byte_length to_integer (suc n) query database ≡ some (map to_record rest)
  read_pages_split n query database done rest taken [] h apart readable whole split q there next l =
      read_pages_end byte_length to_integer n query database (map to_record taken) q
      ∙ ap (λ (rows : List Row). some (map to_record rows)) (sym (split ∙ append-nil taken))
  read_pages_split n query database done rest taken (y ∷ ys) h apart readable whole split q there
        next l =
      let left = y ∷ ys in
      let (t, k, te) = split_last taken (there refl) in
      let rows = map to_record taken in
      let whole' : selected query none database ≡ (done ++ taken) ++ left =
        whole ∙ ap (◌++◌ done) split ∙ sym (append_assoc done taken left) in
      let at_k : selected query none database ≡ (done ++ t) ++ (k ∷ left) =
        whole'
        ∙ ap (λ (xs : List Row). (done ++ xs) ++ left) te
        ∙ ap (λ (xs : List Row). xs ++ left) (sym (append_assoc done t (k ∷ [])))
        ∙ append_assoc (done ++ t) (k ∷ []) left in
      let sound : IsReadable k =
        All-middle IsReadable (done ++ t) left k
          (subst (All IsReadable) at_k (selected-All query database readable)) in
      let before = some (print_cursor (to_record k)) in
      let behind_k : selected (record query { before = before })
            (parse_cursor byte_length to_integer before) database
          ≡ left =
        ap (λ (c : Option Cursor). selected (record query { before = before }) c database)
          (parse-print_cursor k sound)
        ∙ selected-before query before (some (cursor_at k)) database
        ∙ selected_behind query database (done ++ t) left k apart at_k in
      let rest_read =
        next before (selected-before query before none database ∙ whole') behind_k
          (omega (arith, l, ap length split, length-append taken left, there refl)) in
      let named : rows ≡ map to_record t ++ (to_record k ∷ []) =
        ap (map to_record) te ∙ map-append to_record t (k ∷ []) in
      read_pages_on byte_length to_integer n query database (map to_record t) (map to_record left)
        (to_record k)
        (q ∙ ap (λ (rs : List OverlayRecord). page_of byte_length to_integer (rs, true)) named)
        rest_read
      ∙ ap (λ (rs : List OverlayRecord). some (rs ++ map to_record left)) (sym named)
      ∙ ap some (sym (map-append to_record taken left) ∙ ap (map to_record) (sym split))

  read_pages_from :
      (n : ℕ) (query : OverlayQuery) (database : Database) (done rest : List Row)
      → 1 ≤ query.limit
      → Pairwise Apart database
      → All IsReadable database
      → selected query none database ≡ done ++ rest
      → selected query (parse_cursor byte_length to_integer query.before) database ≡ rest
      → length rest < n
      → read_pages byte_length to_integer n query database ≡ some (map to_record rest)
  read_pages_from zero query database done rest h apart readable whole e l = absurd (omega arith)
  read_pages_from (suc n) query database done rest h apart readable whole e l =
      let (taken, left, p, q, there) = page_lem byte_length to_integer query database h in
      read_pages_split n query database done rest taken left h apart readable whole (sym e ∙ p) q
        there
        (λ before whole' e' l'.
          read_pages_from n (record query { before = before }) database (done ++ taken) left h apart
            readable whole' e' l')
        l

  -- A client that begins at the first page, with a limit of one record or more, and follows the cursors
  -- comes to the end, and has then read the records that match, each once and the newest first: in a
  -- table whose ids are apart and not empty and whose times are safe integers, whatever the limit of
  -- bytes. It asks for no more pages than the table has rows, and one.
  pub read_pages_lem :
      (n : ℕ) (query : OverlayQuery) (database : Database)
      → 1 ≤ query.limit
      → query.before ≡ none
      → Pairwise Apart database
      → All IsReadable database
      → length database < n
      → (rows : List Row) × (read_pages byte_length to_integer n query database
          ≡ some (map to_record rows))
        × Sorted newer rows
        × Perm rows (filter (matches query) database)
  unfolding parse_cursor
  read_pages_lem n query database h start apart readable l =
      let matching = filter (matches query) database in
      let rows = selected query none database in
      let begin : selected query (parse_cursor byte_length to_integer query.before) database
          ≡ rows =
        ap (λ (b : Option Text). selected query (parse_cursor byte_length to_integer b) database)
          start in
      let few : length rows < n = omega (
        arith,
        l,
        ap length (selected_all query database),
        length-sort newer matching,
        length-filter (matches query) database,
      ) in
      let same = selected_all query database in
      let sorted =
        sort-Sorted newer Apart newer_trans newer_linear matching
          (Pairwise-filter Apart (matches query) database apart) in
      (
        rows,
        read_pages_from n query database [] rows h apart readable refl begin few,
        subst (Sorted newer) (sym same) sorted,
        subst (λ (xs : List Row). Perm xs matching) (sym same) (sort-Perm newer matching),
      )
