-- ===== src/Overlay/Reading.antt =====
-- Reading a whole project, whatever happened to the table before.
use mathlib.Core.List.{Perm}
use narra_leaf_team.Common.{ℕ, ◌≤◌, ◌<◌, ◌≡◌, Option, none, some, List, map, length, Text}
use narra_leaf_team.Data.Decimal.{decimal}
use narra_leaf_team.Data.Sorting.{filter, Sorted}
use narra_leaf_team.Data.Integer.{ℤ, pos}
use narra_leaf_team.Overlay.{Row, Database, to_record}
use narra_leaf_team.Overlay.Listing.{OverlayQuery, matches, newer}
use narra_leaf_team.Overlay.Order.{max_safe_integer}
use narra_leaf_team.Overlay.Paging.{read_pages}
use narra_leaf_team.Overlay.Paging.Following.{read_pages_lem}
use narra_leaf_team.Overlay.Holding.{Reach, Reach-IsSound}

-- Whatever was written to the table, a client that asks for the first page of a query, with a limit of
-- one record or more, and follows the cursors comes to the end in no more pages than the table has rows,
-- and one. It has then read the records that match, each once and the newest first, whatever the limit
-- of bytes: provided that `Number` reads back the decimals of a safe integer.
pub Reach-read_pages :
    (byte_length : Text → ℕ) (to_integer : Text → Option ℤ)
    → ((n : ℕ) → n ≤ max_safe_integer → to_integer (decimal n) ≡ some (pos n))
    → (n : ℕ) (query : OverlayQuery) (database : Database) → Reach database
    → 1 ≤ query.limit
    → query.before ≡ none
    → length database < n
    → (rows : List Row) × (read_pages byte_length to_integer n query database
        ≡ some (map to_record rows))
      × Sorted newer rows
      × Perm rows (filter (matches query) database)
Reach-read_pages byte_length to_integer reads n query database reached h start few =
    let s = Reach-IsSound database reached in
    read_pages_lem byte_length to_integer reads n query database h start s.apart s.readable few
