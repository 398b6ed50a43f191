-- ===== src/Overlay.antt =====
-- src/overlay/store.ts: the table of what is attached to a project, and the questions to it. The table
-- is the list of its rows in the order that they were inserted.
pub mod Listing
pub mod Order
pub mod Paging
pub mod Writing
pub mod Holding
pub mod Refinement
pub mod Reading
mod Tests
use narra_leaf_team.Common.{
  ℕ, zero, suc, ◌+◌, ◌≡◌, Bool, true, false, ◌&&◌, ◌||◌, not, Option, none, some, List, [], ◌∷◌,
  ◌++◌, map, ltb, leb, ◌==◌, if◌then◌else◌, length, take, Text, codes, text_eq, text_lt,
}
use narra_leaf_team.Data.Sorting.{filter, sort}
use narra_leaf_team.Data.Decimal.{decimal}

pub record TeamAnchor : Type 0 where
  pub document : Option Text
  pub element : Option Text
  pub revision : Option Text

-- A row of the table `overlay`.
pub record Row : Type 0 where
  pub id : Text
  pub project_id : Text
  pub revision : Text
  pub document : Option Text
  pub element : Option Text
  pub kind : Text
  pub body : Text
  pub author_id : Text
  pub instance_id : Option Text
  pub created_at : ℕ
  pub updated_at : ℕ
  pub client_id : Option Text

abbrev pub Database : Type 0
Database = List Row

abbrev pub project_overlay_limit : ℕ
project_overlay_limit = 20000

pub data StoreError : Type 0 where
  too_many_overlay_records : StoreError
  constraint_failed : StoreError
  lost_record : Text → StoreError

pub data Result {ℓ} (A : Type ℓ) : Type ℓ where
  ok : A → Result A
  err : StoreError → Result A

pub record OverlayRecord : Type 0 where
  pub id : Text
  pub project_id : Text
  pub revision : Text
  pub anchor : TeamAnchor
  pub kind : Text
  pub body : Text
  pub author_id : Text
  pub instance_id : Option Text
  pub created_at : ℕ
  pub updated_at : ℕ

unfoldable pub to_record : Row → OverlayRecord
to_record row = record {
  id = row.id;
  project_id = row.project_id;
  revision = row.revision;
  anchor = record { document = row.document; element = row.element; revision = some row.revision };
  kind = row.kind;
  body = row.body;
  author_id = row.author_id;
  instance_id = row.instance_id;
  created_at = row.created_at;
  updated_at = row.updated_at;
}

-- The first row that meets a condition, as `.get` answers it.
abbrev pub get : (Row → Bool) → Database → Option Row
get q [] = none
get q (row ∷ rows) = if q row then some row else get q rows

abbrev pub has_id : Text → Row → Bool
has_id id row = text_eq row.id id

unfoldable pub find_overlay : Text → Database → Option OverlayRecord
find_overlay id database = elim (get (has_id id) database) [
  | none ↦ none
  | some row ↦ some (to_record row)
]

abbrev pub in_project : Text → Row → Bool
in_project project_id row = text_eq row.project_id project_id

unfoldable pub count_overlay : Text → Database → ℕ
count_overlay project_id database = length (filter (in_project project_id) database)

-- `require_`.
unfoldable pub require : Text → Database → Result OverlayRecord
unfolding find_overlay
require id database = elim (find_overlay id database) [
  | none ↦ err (lost_record id)
  | some r ↦ ok r
]

pub record OverlayWrite : Type 0 where
  pub project_id : Text
  pub revision : Text
  pub anchor : TeamAnchor
  pub kind : Text
  pub body : Text
  pub author_id : Text
  pub instance_id : Option Text
  pub client_id : Option Text
  pub now : ℕ

pub record OverlayWritten : Type 0 where
  pub entry : OverlayRecord
  pub repeated : Bool

-- `TEAM_METHODS.overlayPut`, and what it is joined to a client id with.
abbrev pub overlay_put : Text
overlay_put = codes "overlay.put"

unfoldable pub client_key : Text → Text
client_key client_id = overlay_put ++ (codes ":" ++ client_id)

-- SQL's `=` of a column that may be null and a text: never of a null.
abbrev pub is_key : Text → Option Text → Bool
is_key key none = false
is_key key (some t) = text_eq t key

abbrev pub written_by : Text → Text → Row → Bool
written_by author_id key row = text_eq row.author_id author_id && is_key key row.client_id

abbrev pub new_row : Text → Option Text → OverlayWrite → Row
new_row id key input = record {
  id = id;
  project_id = input.project_id;
  revision = input.revision;
  document = input.anchor.document;
  element = input.anchor.element;
  kind = input.kind;
  body = input.body;
  author_id = input.author_id;
  instance_id = input.instance_id;
  created_at = input.now;
  updated_at = input.now;
  client_id = key;
}

-- `INSERT INTO overlay`: the id is the primary key of the table, and no author has two rows with one
-- client id.
unfoldable pub insert_row : Row → Database → Result Database
insert_row row database = elim (get (has_id row.id) database) [
  | some other ↦ err constraint_failed
  | none ↦ elim row.client_id [
    | none ↦ ok (database ++ (row ∷ []))
    | some key ↦ elim (get (written_by row.author_id key) database) [
      | some other ↦ err constraint_failed
      | none ↦ ok (database ++ (row ∷ []))
    ]
  ]
]

-- The part of `putOverlay` behind the question whether the write has happened before.
unfoldable pub put_new :
    Text → Option Text → OverlayWrite → Database → Result (OverlayWritten × Database)
unfolding count_overlay insert_row require
put_new id key input database =
    if leb project_overlay_limit (count_overlay input.project_id database)
    then err too_many_overlay_records
    else elim (insert_row (new_row id key input) database) [
      | err e ↦ err e
      | ok database' ↦ elim (require id database') [
        | err e ↦ err e
        | ok r ↦ ok (record { entry = r; repeated = false }, database')
      ]
    ]

-- `putOverlay`; `id` is the fresh `randomUUID()`.
unfoldable pub put_overlay : Text → OverlayWrite → Database → Result (OverlayWritten × Database)
unfolding put_new client_key to_record
put_overlay id input database = elim input.client_id [
  | none ↦ put_new id none input database
  | some client_id ↦
      let key = client_key client_id in
      elim (get (written_by input.author_id key) database) [
        | some row ↦ ok (record { entry = to_record row; repeated = true }, database)
        | none ↦ put_new id (some key) input database
      ]
]

pub record Revision : Type 0 where
  pub body : Text
  pub revision : Text
  pub now : ℕ

abbrev pub revise_row : Text → Revision → Row → Row
revise_row id input row =
    if has_id id row
    then record row { body = input.body; revision = input.revision; updated_at = input.now }
    else row

-- `reviseOverlay`.
unfoldable pub revise_overlay : Text → Revision → Database → Result (OverlayRecord × Database)
unfolding require
revise_overlay id input database =
    let database' = map (revise_row id input) database in
    elim (require id database') [ err e ↦ err e | ok r ↦ ok (r, database') ]

-- `dropOverlay`.
unfoldable pub drop_overlay : Text → Database → Database
drop_overlay id database = filter (λ row. not (has_id id row)) database
