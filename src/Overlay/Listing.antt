-- ===== src/Overlay/Listing.antt =====
-- src/overlay/store.ts: a page of what is attached to a project.
use narra_leaf_team.Common.{
  ℕ, ◌+◌, Bool, true, false, ◌&&◌, ◌||◌, Option, none, some, List, [], ◌∷◌, ◌++◌, ltb, ◌==◌,
  if◌then◌else◌, length, take, Text, codes, text_eq, text_lt,
}
use narra_leaf_team.Data.Sorting.{filter, sort}
use narra_leaf_team.Data.Decimal.{decimal}
use narra_leaf_team.Data.Integer.{ℤ, pos, negsuc}
use narra_leaf_team.Overlay.{Row, Database, OverlayRecord, to_record, in_project}

pub record OverlayQuery : Type 0 where
  pub project_id : Text
  pub document : Option Text
  pub element : Option Text
  pub kind : Option Text
  pub revision : Option Text
  pub limit : ℕ
  pub limit_bytes : ℕ
  pub before : Option Text

pub record OverlayPage : Type 0 where
  pub records : List OverlayRecord
  pub cursor : Option Text

pub record Cursor : Type 0 where
  pub at : ℤ
  pub id : Text

-- A column that must hold what the query names, where it names something. `IS` and `=` differ on a null
-- on both sides only, and what the query names is none.
abbrev pub holds : Option Text → Option Text → Bool
holds none column = true
holds (some v) none = false
holds (some v) (some w) = text_eq w v

-- The clauses about the columns.
unfoldable pub matches : OverlayQuery → Row → Bool
matches query row =
    in_project query.project_id row
    && (holds query.document row.document
        && (holds query.element row.element
            && (holds query.kind (some row.kind) && holds query.revision (some row.revision))))

-- A time against an integer that may be negative.
abbrev pub is_below : ℕ → ℤ → Bool
is_below n (pos m) = ltb n m
is_below n (negsuc m) = false

abbrev pub is_equal : ℕ → ℤ → Bool
is_equal n (pos m) = n == m
is_equal n (negsuc m) = false

-- `(updated_at < ? OR (updated_at = ? AND id < ?))`.
unfoldable pub is_behind : Cursor → Row → Bool
is_behind cursor row =
    is_below row.updated_at cursor.at
    || (is_equal row.updated_at cursor.at && text_lt row.id cursor.id)

abbrev pub behind : Option Cursor → Row → Bool
behind none row = true
behind (some cursor) row = is_behind cursor row

abbrev pub cursor_at : Row → Cursor
cursor_at row = record { at = pos row.updated_at; id = row.id }

-- `ORDER BY updated_at DESC, id DESC`.
unfoldable pub newer : Row → Row → Bool
newer x y = is_behind (cursor_at x) y

unfoldable pub selected : OverlayQuery → Option Cursor → Database → List Row
unfolding matches newer
selected query cursor database =
    sort newer (filter (λ row. matches query row && behind cursor row) database)

-- `value.indexOf(":")`, and the two sides of it.
unfoldable pub split_colon : Text → Option (Text × Text)
split_colon [] = none
split_colon (c ∷ s) =
    let rest = split_colon s in
    if c == b':' then some ([], s) else elim rest [ none ↦ none | some r ↦ some (c ∷ r.0, r.1) ]

-- `${last.updatedAt}:${last.id}`.
unfoldable pub print_cursor : OverlayRecord → Text
print_cursor last = decimal last.updated_at ++ (codes ":" ++ last.id)

unfoldable pub last_of : List OverlayRecord → Option OverlayRecord
last_of [] = none
last_of (r ∷ []) = some r
last_of (r ∷ r' ∷ rs) = last_of (r' ∷ rs)

-- `id !== ""`.
abbrev pub cursor_with : ℤ → Text → Option Cursor
cursor_with at [] = none
cursor_with at (c ∷ cs) = some (record { at = at; id = c ∷ cs })

-- `Buffer.byteLength` in UTF-8, and `Number` where what it answers is a whole number.
module _ (byte_length : Text → ℕ) (to_integer : Text → Option ℤ) where
  abbrev pub weigh_option : Option Text → ℕ
  weigh_option none = byte_length []
  weigh_option (some t) = byte_length t

  unfoldable pub weigh : OverlayRecord → ℕ
  weigh r =
      byte_length r.body
      + weigh_option r.anchor.document
      + weigh_option r.anchor.element
      + byte_length r.revision
      + byte_length r.kind
      + weigh_option r.instance_id

  unfoldable pub parse_cursor : Option Text → Option Cursor
  unfolding split_colon
  parse_cursor none = none
  parse_cursor (some value) = elim (split_colon value) [
    | none ↦ none
    | some (before, id) ↦ elim (to_integer before) [ none ↦ none | some at ↦ cursor_with at id ]
  ]

  -- The loop over the rows: the records of the page so far and what they weigh. The second part of the
  -- answer is `more`.
  unfoldable pub fill_page :
      OverlayQuery → List OverlayRecord → ℕ → List Row → List OverlayRecord × Bool
  unfolding weigh to_record
  fill_page query records bytes [] = (records, false)
  fill_page query records bytes (row ∷ rows) =
      let entry = to_record row in
      let rest = fill_page query (records ++ (entry ∷ [])) (bytes + weigh entry) rows in
      if length records == query.limit
      then (records, true)
      else if ltb 0 (length records) && ltb query.limit_bytes (bytes + weigh entry)
      then (records, true)
      else rest

  abbrev pub page_of : List OverlayRecord × Bool → OverlayPage
  page_of (records, false) = record { records = records; cursor = none }
  page_of (records, true) = record {
    records = records;
    cursor = elim (last_of records) [ none ↦ none | some last ↦ some (print_cursor last) ];
  }

  -- `listOverlay`.
  unfoldable pub list_overlay : OverlayQuery → Database → OverlayPage
  unfolding fill_page parse_cursor selected
  list_overlay query database =
      let rows = take (query.limit + 1) (selected query (parse_cursor query.before) database) in
      page_of (fill_page query [] 0 rows)
