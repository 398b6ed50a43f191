-- ===== src/Overlay/Order.antt =====
-- The order of a listing, and what a query selects behind a row.
use narra_leaf_team.Common.{
  ℕ, ◌≤◌, ◌≡◌, ◌≢◌, refl, sym, ap, ◌∙◌, subst, true, false, ◌&&◌, Option, none, some, List, [], ◌∷◌,
  ◌++◌, arith, All, Text, text_lt_irreflexive, text_lt_trans, text_lt_linear,
}
use narra_leaf_team.Data.Sorting.{
  filter, sort, Pairwise, All-filter, All-sort, Pairwise-filter, filter-filter, sort-Sorted,
  filter-sort, filter_behind, filter-All, All-of, Sorted,
}
use narra_leaf_team.Overlay.{Row, Database}
use narra_leaf_team.Overlay.Listing.{
  OverlayQuery, Cursor, matches, is_behind, cursor_at, newer, selected,
}

abbrev pub max_safe_integer : ℕ
max_safe_integer = 9007199254740991

-- A row that a cursor can name.
abbrev pub IsReadable : Row → Type 0
IsReadable row = (row.updated_at ≤ max_safe_integer) × (row.id ≢ [])

abbrev pub Apart : Row → Row → Type 0
Apart x y = x.id ≢ y.id

pub newer_trans : (x y z : Row) → newer x y ≡ true → newer y z ≡ true → newer x z ≡ true
unfolding newer is_behind
newer_trans x y z h k = grind (arith, text_lt_trans z.id y.id x.id)

pub newer_irreflexive : (x : Row) → newer x x ≡ false
unfolding newer is_behind
newer_irreflexive x = ground (arith, text_lt_irreflexive x.id)

pub newer_linear : (x y : Row) → Apart x y → newer x y ≡ false → newer y x ≡ true
unfolding newer is_behind
newer_linear x y a h = grind (arith, text_lt_linear y.id x.id (λ e. a (sym e)))

pub selected_all :
    (query : OverlayQuery) (database : Database)
    → selected query none database ≡ sort newer (filter (matches query) database)
unfolding selected
selected_all query database = ap (sort newer) (
    filter-filter (matches query) (λ row. true) database
    ∙ filter-All (λ row. true) (filter (matches query) database)
        (All-of (λ row. refl) (filter (matches query) database)))

pub selected-All :
    (query : OverlayQuery) (database : Database)
    → All IsReadable database
    → All IsReadable (selected query none database)
unfolding selected
selected-All query database h =
    let picks = λ (row : Row). matches query row && true in
    All-sort newer IsReadable (filter picks database) (All-filter IsReadable picks database h)

selected_picked :
    (query : OverlayQuery) (database : Database) (k : Row)
    → selected query (some (cursor_at k)) database
      ≡ sort newer (filter (newer k) (filter (matches query) database))
unfolding selected newer
selected_picked query database k =
    ap (sort newer) (filter-filter (matches query) (newer k) database)

-- The clauses about the columns do not look at where the page begins.
pub selected-before :
    (query : OverlayQuery) (before : Option Text) (cursor : Option Cursor) (database : Database)
    → selected (record query { before = before }) cursor database ≡ selected query cursor database
unfolding selected matches
selected-before query before cursor database = refl

-- What is behind a row that the query selects.
pub selected_behind :
    (query : OverlayQuery) (database : Database) (done rest : List Row) (k : Row)
    → Pairwise Apart database
    → selected query none database ≡ done ++ (k ∷ rest)
    → selected query (some (cursor_at k)) database ≡ rest
selected_behind query database done rest k apart e =
    let matching = filter (matches query) database in
    let apart' = Pairwise-filter Apart (matches query) database apart in
    let whole : sort newer matching ≡ done ++ (k ∷ rest) = sym (selected_all query database) ∙ e in
    let sorted = sort-Sorted newer Apart newer_trans newer_linear matching apart' in
    selected_picked query database k
    ∙ sym (filter-sort newer Apart newer_trans newer_linear (newer k) matching apart')
    ∙ ap (filter (newer k)) whole
    ∙ filter_behind newer newer_trans newer_irreflexive done rest k
        (subst (Sorted newer) whole sorted)
