-- ===== src/Overlay/Tests.antt =====
-- The overlay table at concrete inputs.
use mathlib.Core.List.{Perm}
use narra_leaf_team.Common.{
  ℕ, Option, Text, ◌≡◌, refl, true, false, none, some, List, [], ◌∷◌, map, length, arith, codes,
  text_eq,
}
use narra_leaf_team.Data.Decimal.{decimal, read_decimal, read_decimal-decimal}
use narra_leaf_team.Data.Sorting.{filter, Sorted}
use narra_leaf_team.Data.Integer.{ℤ, pos}
use narra_leaf_team.Overlay.{
  Row, Database, OverlayWrite, OverlayWritten, ok, to_record, put_overlay, put_new, insert_row,
  require, find_overlay, count_overlay, client_key, new_row,
}
use narra_leaf_team.Overlay.Listing.{OverlayQuery, matches, newer}
use narra_leaf_team.Overlay.Paging.{read_pages}
use narra_leaf_team.Overlay.Writing.{put_overlay_repeats}
use narra_leaf_team.Overlay.Holding.{IsSound, Step, Reach, empty, after, put, Reach-IsSound}
use narra_leaf_team.Overlay.Refinement.{Promised, Step-Promised}
use narra_leaf_team.Overlay.Reading.{Reach-read_pages}

abbrev note : OverlayWrite
note = record {
  project_id = codes "p";
  revision = codes "r1";
  anchor = record { document = some (codes "d"); element = none; revision = none };
  kind = codes "note";
  body = codes "look";
  author_id = codes "ada";
  instance_id = none;
  client_id = some (codes "k1");
  now = 10;
}

abbrev mark : OverlayWrite
mark = record note { kind = codes "mark"; client_id = none; now = 12 }

abbrev first_row : Row
first_row = new_row (codes "a") (some (codes "overlay.put:k1")) note

abbrev second_row : Row
second_row = new_row (codes "b") none mark

abbrev one : Database
one = first_row ∷ []

abbrev two : Database
two = first_row ∷ second_row ∷ []

abbrev written : Row → OverlayWritten
written row = record { entry = to_record row; repeated = false }

puts_one : put_overlay (codes "a") note [] ≡ ok (written first_row, one)
unfolding put_overlay put_new insert_row require find_overlay count_overlay client_key to_record
    text_eq
puts_one = refl

puts_two : put_overlay (codes "b") mark one ≡ ok (written second_row, two)
unfolding put_overlay put_new insert_row require find_overlay count_overlay client_key to_record
    text_eq
puts_two = refl

put_overlay_repeats_example :
    put_overlay (codes "c") (record note { body = codes "again" }) one
    ≡ ok (record { entry = to_record first_row; repeated = true }, one)
put_overlay_repeats_example =
    put_overlay_repeats (codes "a") (codes "c") note (record note { body = codes "again" }) [] one
      (written first_row) (codes "k1") puts_one refl refl refl

put_one : Step [] one
put_one = put (codes "a") note [] one (written first_row) (λ e. cc) (omega arith) puts_one

put_two : Step one two
put_two = put (codes "b") mark one two (written second_row) (λ e. cc) (omega arith) puts_two

reach_two : Reach two
reach_two = after (after empty put_one) put_two

Reach-IsSound_example : IsSound two
Reach-IsSound_example = Reach-IsSound two reach_two

Step-Promised_example : Promised put_two
Step-Promised_example = Step-Promised put_two

abbrev everything : OverlayQuery
everything = record {
  project_id = codes "p";
  document = some (codes "d");
  element = none;
  kind = none;
  revision = none;
  limit = 1;
  limit_bytes = 0;
  before = none;
}

-- `Number`, of digits alone.
abbrev number : Text → Option ℤ
number t = elim (read_decimal t) [ none ↦ none | some n ↦ some (pos n) ]

number-decimal : (n : ℕ) → number (decimal n) ≡ some (pos n)
number-decimal n = ground (arith, read_decimal-decimal n)

Reach-read_pages_example :
    (rows : List Row) × (read_pages length number 3 everything two ≡ some (map to_record rows))
    × Sorted newer rows
    × Perm rows (filter (matches everything) two)
Reach-read_pages_example =
    Reach-read_pages length number (λ n h. number-decimal n) 3 everything two reach_two
      (omega arith) refl (omega arith)
