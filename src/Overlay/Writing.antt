-- ===== src/Overlay/Writing.antt =====
-- What an answered put comes to, and what a repeat of it is answered.
use narra_leaf_team.Common.{
  ◌<◌, ◌≡◌, refl, sym, ap, ◌∙◌, Bool, true, false, Option, none, some, [], ◌∷◌, ◌++◌, map,
  if◌then◌else◌, arith, All, Text, text_eq_refl, leb, Bool-cases, Option-cases, inl, inr, ◌⊎◌,
}
use narra_leaf_team.Overlay.{
  Row, Database, project_overlay_limit, StoreError, Result, ok, err, OverlayRecord, to_record, get,
  has_id, find_overlay, count_overlay, require, OverlayWrite, OverlayWritten, client_key,
  written_by, new_row, insert_row, put_new, put_overlay, Revision, revise_row, revise_overlay,
}

-- No row of the author has this client id.
pub get-none :
    (q : Row → Bool) (rows : Database) → get q rows ≡ none → All (λ row. q row ≡ false) rows
get-none q [] h = tt
get-none q (row ∷ rows) h = ground (arith, get-none q rows)

pub get-append :
    (q : Row → Bool) (rows : Database) (row : Row)
    → get q rows ≡ none
    → get q (rows ++ (row ∷ [])) ≡ (if q row then some row else none)
get-append q [] row h = refl
get-append q (r ∷ rows) row h = ground (arith, get-append q rows row)

-- What `insertion` comes to.
pub insert_row_ok :
    (row : Row) (database database' : Database)
    → insert_row row database ≡ ok database'
    → (get (has_id row.id) database ≡ none) × (database' ≡ database ++ (row ∷ []))
unfolding insert_row
insert_row_ok row database database' h = ground arith

-- The record that a fresh row is read back as.
pub find-new :
    (row : Row) (database : Database)
    → get (has_id row.id) database ≡ none
    → find_overlay row.id (database ++ (row ∷ [])) ≡ some (to_record row)
unfolding find_overlay
find-new row database h =
    let there = get-append (has_id row.id) database row h in
    ground (arith, there, text_eq_refl row.id)

put_new-inserted :
    (id : Text) (key : Option Text) (input : OverlayWrite) (database inserted : Database)
    → count_overlay input.project_id database < project_overlay_limit
    → insert_row (new_row id key input) database ≡ ok inserted
    → put_new id key input database
      ≡ ok (record { entry = to_record (new_row id key input); repeated = false }, inserted)
unfolding put_new require
put_new-inserted id key input database inserted few h =
    let (fresh, e) = insert_row_ok (new_row id key input) database inserted h in
    let back : find_overlay id inserted ≡ some (to_record (new_row id key input)) =
      ap (find_overlay id) e ∙ find-new (new_row id key input) database fresh in
    ground (arith, few, h, back)

pub Result-cases {ℓ} :
    {A : Type ℓ} (r : Result A) → ((e : StoreError) × (r ≡ err e)) ⊎ ((a : A) × (r ≡ ok a))
Result-cases (ok a) = inr (a, refl)
Result-cases (err e) = inl (e, refl)

pub ok-injective {ℓ} : {A : Type ℓ} {a b : A} → ok a ≡ ok b → a ≡ b
ok-injective {A} {a} {b} e = ap (λ (r : Result A). elim r [ ok c ↦ c | err f ↦ a ]) e

-- What a write that is answered as new comes to.
pub put_new_ok :
    (id : Text) (key : Option Text) (input : OverlayWrite) (database : Database)
    (w : OverlayWritten) (database' : Database)
    → put_new id key input database ≡ ok (w, database')
    → (insert_row (new_row id key input) database ≡ ok database')
      × (count_overlay input.project_id database < project_overlay_limit)
      × (w ≡ record { entry = to_record (new_row id key input); repeated = false })
put_new_ok id key input database w database' h =
    elim (Bool-cases (leb project_overlay_limit (count_overlay input.project_id database))) [
      | inl full ↦ absurd (unfold put_new in ground (arith, full, h))
      | inr few ↦ elim (Result-cases (insert_row (new_row id key input) database)) [
        | inl (e, p) ↦ absurd (unfold put_new in ground (arith, few, p, h))
        | inr (inserted, p) ↦
            let done = put_new-inserted id key input database inserted (ground (arith, few)) p in
            let same = ok-injective (sym done ∙ h) in
            (
              p ∙ ap (λ (r : OverlayWritten × Database). ok (r.1)) same,
              ground (arith, few),
              sym (ap (λ (r : OverlayWritten × Database). r.0) same),
            )
      ]
    ]

abbrev pub keyed : Option Text → Option Text
keyed none = none
keyed (some c) = some (client_key c)

-- What an answered put was: a repeat of a write that is there, or a new row.
pub put_overlay_cases :
    (id : Text) (input : OverlayWrite) (database : Database) (w : OverlayWritten)
    (database' : Database)
    → put_overlay id input database ≡ ok (w, database')
    → ((c : Text) × (row : Row) × (input.client_id ≡ some c)
        × (get (written_by input.author_id (client_key c)) database ≡ some row)
        × (w ≡ record { entry = to_record row; repeated = true })
        × (database' ≡ database))
      ⊎ ((key : Option Text) × (put_new id key input database ≡ ok (w, database'))
          × (key ≡ keyed input.client_id)
          × ((c : Text)
              → input.client_id ≡ some c
              → get (written_by input.author_id (client_key c)) database ≡ none))
unfolding put_overlay
put_overlay_cases id input database w database' h = elim (Option-cases input.client_id) [
  | inl e ↦ inr (none, ground (arith, e, h), ground (arith, e), λ c p. cc)
  | inr (c, e) ↦ elim (Option-cases (get (written_by input.author_id (client_key c)) database)) [
    | inl absent ↦ inr (
      some (client_key c),
      ground (arith, e, absent, h),
      ground (arith, e),
      λ c' p. ground (arith, e, p, absent),
    )
    | inr (row, there) ↦
        let same : ok (record { entry = to_record row; repeated = true }, database)
            ≡ ok (w, database') =
          ground (arith, e, there, h) in
        let pair = ok-injective same in
        inl (
          c,
          row,
          e,
          there,
          sym (ap (λ (r : OverlayWritten × Database). r.0) pair),
          sym (ap (λ (r : OverlayWritten × Database). r.1) pair),
        )
  ]
]

abbrev answered : Database → OverlayRecord → Result (OverlayWritten × Database)
answered database entry = ok (record { entry = entry; repeated = true }, database)

put_overlay-there :
    (id : Text) (input : OverlayWrite) (database : Database) (c : Text) (row : Row)
    → input.client_id ≡ some c
    → get (written_by input.author_id (client_key c)) database ≡ some row
    → put_overlay id input database ≡ answered database (to_record row)
unfolding put_overlay
put_overlay-there id input database c row e there = ground (arith, e, there)

pub some-injective {ℓ} : {A : Type ℓ} {a b : A} → some a ≡ some b → a ≡ b
some-injective {A} {a} {b} e = ap (λ (o : Option A). elim o [ some c ↦ c | none ↦ a ]) e

-- A client that repeats an answered put, under the same client id and as the same author, is answered
-- with the record that the first put made, whatever else the repeat says and however full the project
-- is, and the table stays as it is.
pub put_overlay_repeats :
    (id id' : Text) (input input' : OverlayWrite) (database database' : Database)
    (w : OverlayWritten) (c : Text)
    → put_overlay id input database ≡ ok (w, database')
    → input.client_id ≡ some c
    → input'.client_id ≡ some c
    → input'.author_id ≡ input.author_id
    → put_overlay id' input' database' ≡ ok (record { entry = w.entry; repeated = true }, database')
put_overlay_repeats id id' input input' database database' w c h e e' a =
    elim (put_overlay_cases id input database w database' h) [
      | inl (c', row, ce, there, we, same) ↦
          let key = some-injective (sym e ∙ ce) in
          let at : get (written_by input'.author_id (client_key c)) database' ≡ some row =
            ground (arith, a, key, same, there) in
          put_overlay-there id' input' database' c row e' at
          ∙ ap (λ (v : OverlayWritten). answered database' v.entry) (sym we)
      | inr (key, new, ke, absent) ↦
          let (p, few, we) = put_new_ok id key input database w database' new in
          let (fresh, grown) = insert_row_ok (new_row id key input) database database' p in
          let row = new_row id key input in
          let found =
            get-append (written_by input.author_id (client_key c)) database row (absent c e) in
          let at : get (written_by input'.author_id (client_key c)) database' ≡ some row = ground (
            arith,
            a,
            grown,
            found,
            ke,
            e,
            text_eq_refl input.author_id,
            text_eq_refl (client_key c),
          ) in
          put_overlay-there id' input' database' c row e' at
          ∙ ap (λ (v : OverlayWritten). answered database' v.entry) (sym we)
    ]

pub revise_overlay_ok :
    (id : Text) (input : Revision) (database database' : Database) (r : OverlayRecord)
    → revise_overlay id input database ≡ ok (r, database')
    → (database' ≡ map (revise_row id input) database)
      × (find_overlay id (map (revise_row id input) database) ≡ some r)
unfolding revise_overlay require
revise_overlay_ok id input database database' r h =
    elim (Option-cases (find_overlay id (map (revise_row id input) database))) [
      | inl e ↦ absurd (ground (arith, e, h))
      | inr (found, e) ↦
          let same : ok (found, map (revise_row id input) database) ≡ ok (r, database') =
            ground (arith, e, h) in
          let pair = ok-injective same in
          (
            sym (ap (λ (p : OverlayRecord × Database). p.1) pair),
            e ∙ ap (λ (p : OverlayRecord × Database). some (p.0)) pair,
          )
    ]
