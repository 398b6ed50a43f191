-- ===== src/Overlay/Refinement.antt =====
-- The table as its readers by id see it: a record or none under each id.
use narra_leaf_team.Common.{
  text_eq_iff, Bool-cases, ◌⊎◌, true, ◌≡◌, refl, sym, ap, ◌∙◌, false, Option, none, some, [], ◌∷◌,
  ◌++◌, map, if◌then◌else◌, arith, Text, text_eq, text_eq_refl, text_eq_cases, inl, inr,
  Option-cases,
}
use narra_leaf_team.Overlay.{
  Row, Database, OverlayRecord, to_record, get, has_id, find_overlay, new_row, Revision, revise_row,
  drop_overlay, OverlayWrite, OverlayWritten, written_by, client_key, put_overlay, ok,
}
use narra_leaf_team.Overlay.Writing.{
  some-injective, insert_row_ok, put_new_ok, put_overlay_cases, revise_overlay_ok,
}
use narra_leaf_team.Overlay.Holding.{Step, put, revise, take_off}

abbrev pub View : Type 0
View = Text → Option OverlayRecord

-- A record as a revision leaves it: its place, its author and its first time stay.
abbrev pub revised : Revision → OverlayRecord → OverlayRecord
revised input r = record r {
  revision = input.revision;
  anchor = record (r.anchor) { revision = some input.revision };
  body = input.body;
  updated_at = input.now;
}

-- What a put is answered with and does to the view: a repeat is answered with a record of the same author
-- and changes nothing, and otherwise the record that the write spells is added under an id that had none.
abbrev pub PutChange : Text → OverlayWrite → OverlayWritten → View → View → Type 0
PutChange id input w before next =
    ((w.repeated ≡ true) × (w.entry.author_id ≡ input.author_id) × ((k : Text) → next k ≡ before k))
    ⊎ ((w.repeated ≡ false)
        × (w.entry ≡ to_record (new_row id none input))
        × (before id ≡ none)
        × ((k : Text) → next k ≡ (if text_eq id k then some w.entry else before k)))

-- What the readers are promised of each write.
abbrev pub Promised : {database database' : Database} → Step database database' → Type 0
Promised (put id input database database' w there safe h) =
    PutChange id input w (λ k. find_overlay k database) (λ k. find_overlay k database')
Promised (revise id input database database' r safe h) =
    (old : OverlayRecord) × (find_overlay id database ≡ some old)
    × (r ≡ revised input old)
    × ((k : Text)
        → find_overlay k database'
          ≡ (if text_eq id k then some (revised input old) else find_overlay k database))
Promised (take_off id database) =
    (k : Text)
    → find_overlay k (drop_overlay id database)
      ≡ (if text_eq id k then none else find_overlay k database)

find-cons :
    (r : Row) (rows : Database) (k : Text)
    → find_overlay k (r ∷ rows)
      ≡ (if text_eq r.id k then some (to_record r) else find_overlay k rows)
unfolding find_overlay
find-cons r rows k = ground arith

find-nil : (k : Text) → find_overlay k [] ≡ none
unfolding find_overlay
find-nil k = refl

get-none_cons :
    (k : Text) (r : Row) (rows : Database)
    → get (has_id k) (r ∷ rows) ≡ none
    → (text_eq r.id k ≡ false) × (get (has_id k) rows ≡ none)
get-none_cons k r rows h = ground arith

find-append :
    (row : Row) (database : Database) (k : Text)
    → get (has_id row.id) database ≡ none
    → find_overlay k (database ++ (row ∷ []))
      ≡ (if text_eq row.id k then some (to_record row) else find_overlay k database)
find-append row [] k h = find-cons row [] k
find-append row (r ∷ rows) k h =
    let (other, fresh) = get-none_cons row.id r rows h in
    let rest = find-append row rows k fresh in
    elim (text_eq_cases row.id k) [
      | inl (same, e) ↦
          let away : text_eq r.id k ≡ false = ap (text_eq r.id) (sym same) ∙ other in
          ground (arith, find-cons r (rows ++ (row ∷ [])) k, find-cons r rows k, rest, e, away)
      | inr (away, e) ↦
          ground (arith, find-cons r (rows ++ (row ∷ [])) k, find-cons r rows k, rest, e)
    ]

text_neq : (s t : Text) → ¬ (s ≡ t) → text_eq s t ≡ false
text_neq s t h = elim (text_eq_cases s t) [ inl (same, e) ↦ absurd (h same) | inr (other, e) ↦ e ]

find-fresh :
    (k : Text) (database : Database)
    → get (has_id k) database ≡ none
    → find_overlay k database ≡ none
unfolding find_overlay
find-fresh k database h = ground (arith, h)

find-drop :
    (id : Text) (database : Database) (k : Text)
    → find_overlay k (drop_overlay id database)
      ≡ (if text_eq id k then none else find_overlay k database)
unfolding drop_overlay
find-drop id [] k = ground (arith, find-nil k)
find-drop id (r ∷ rows) k =
    let rest = find-drop id rows k in
    let tail = drop_overlay id rows in
    elim (text_eq_cases r.id id) [
      | inl (same, e) ↦
          let at = ap (λ (v : Text). text_eq v k) same in
          ground (arith, find-cons r rows k, rest, e, at)
      | inr (away, e) ↦ elim (text_eq_cases r.id k) [
        | inl (same, p) ↦
            let other : text_eq id k ≡ false = text_neq id k (λ q. away (same ∙ sym q)) in
            ground (arith, find-cons r tail k, find-cons r rows k, rest, e, p, other)
        | inr (other, p) ↦ ground (arith, find-cons r tail k, find-cons r rows k, rest, e, p)
      ]
    ]

-- A found record, revised.
abbrev revised_option : Revision → Option OverlayRecord → Option OverlayRecord
revised_option input none = none
revised_option input (some r) = some (revised input r)

find-revise :
    (id : Text) (input : Revision) (database : Database) (k : Text)
    → find_overlay k (map (revise_row id input) database) ≡ (
        if text_eq id k
        then revised_option input (find_overlay k database)
        else find_overlay k database)
unfolding to_record
find-revise id input [] k = ground (arith, find-nil k)
find-revise id input (r ∷ rows) k =
    let rest = find-revise id input rows k in
    let r' = revise_row id input r in
    let step = find-cons r' (map (revise_row id input) rows) k in
    elim (text_eq_cases r.id id) [
      | inl (same, e) ↦
          let at = ap (λ (v : Text). text_eq v k) same in
          ground (arith, step, find-cons r rows k, rest, e, at)
      | inr (away, e) ↦ elim (text_eq_cases r.id k) [
        | inl (same, p) ↦
            let other : text_eq id k ≡ false = text_neq id k (λ q. away (same ∙ sym q)) in
            ground (arith, step, find-cons r rows k, rest, e, p, other)
        | inr (other, p) ↦ ground (arith, step, find-cons r rows k, rest, e, p)
      ]
    ]

get-written_by :
    (author key : Text) (database : Database) (row : Row)
    → get (written_by author key) database ≡ some row
    → row.author_id ≡ author
get-written_by author key [] row h = cc
get-written_by author key (r ∷ rows) row h = elim (Bool-cases (written_by author key r)) [
  | inl e ↦ ground (arith, e, h, text_eq_iff r.author_id author)
  | inr e ↦ ground (arith, e, h, get-written_by author key rows row)
]

find-put :
    (id : Text) (input : OverlayWrite) (database database' : Database) (w : OverlayWritten)
    → put_overlay id input database ≡ ok (w, database')
    → PutChange id input w (λ k. find_overlay k database) (λ k. find_overlay k database')
unfolding to_record
find-put id input database database' w h =
    elim (put_overlay_cases id input database w database' h) [
      | inl (c, row, ce, found, we, same) ↦
          let author = get-written_by input.author_id (client_key c) database row found in
          inl (ground (arith, we), ground (arith, we, author), λ k. ap (find_overlay k) same)
      | inr (key, new, ke, absent) ↦
          let (p, few, we) = put_new_ok id key input database w database' new in
          let row = new_row id key input in
          let (fresh, grown) = insert_row_ok row database database' p in
          let entry : w.entry ≡ to_record row = ap (λ (v : OverlayWritten). v.entry) we in
          inr (
            ground (arith, we),
            entry,
            find-fresh id database fresh,
            λ k.
                ap (find_overlay k) grown
                ∙ find-append row database k fresh
                ∙ ap
                    (λ (e : OverlayRecord).
                      if text_eq id k then some e else find_overlay k database)
                    (sym entry),
          )
    ]

revised_at :
    (id : Text) (input : Revision) (database : Database) (old : OverlayRecord)
    → find_overlay id database ≡ some old
    → (k : Text)
    → (if text_eq id k
        then revised_option input (find_overlay k database)
        else find_overlay k database)
      ≡ (if text_eq id k then some (revised input old) else find_overlay k database)
revised_at id input database old e k = elim (text_eq_cases id k) [
  | inl (q, p) ↦ ground (arith, p, ap (λ (v : Text). find_overlay v database) q, e)
  | inr (other, p) ↦ ground (arith, p)
]

-- Every write does what its kind promises to the readers by id. A put is answered as a repeat, with a
-- record of the same author, and changes nothing; or it had no record under its id before and is
-- answered with the record that it spells, which is added there and nothing else. A revision finds its
-- record, and that one alone then has the new text, revision and time, as it is answered. A record that is
-- taken off is gone from its own id and no other.
pub Step-Promised : {database database' : Database} (s : Step database database') → Promised s
unfolding to_record
Step-Promised (put id input database database' w there safe h) =
    find-put id input database database' w h
Step-Promised (revise id input database database' r safe h) =
    let (same, there) = revise_overlay_ok id input database database' r h in
    let at_id = find-revise id input database id in
    elim (Option-cases (find_overlay id database)) [
      | inl e ↦ absurd (ground (arith, e, at_id, there, text_eq_refl id))
      | inr (old, e) ↦ (
        old,
        e,
        some-injective (sym there ∙ at_id ∙ ground (arith, e, text_eq_refl id)),
        λ k.
            ap (find_overlay k) same
            ∙ find-revise id input database k
            ∙ revised_at id input database old e k,
      )
    ]
Step-Promised (take_off id database) = λ k. find-drop id database k
