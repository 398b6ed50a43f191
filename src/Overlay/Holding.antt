-- ===== src/Overlay/Holding.antt =====
-- What the table keeps over any history of its writes.
use narra_leaf_team.Common.{
  ◌+◌, ◌≤◌, ◌<◌, ◌≡◌, ◌≢◌, refl, sym, ap, ◌∙◌, subst, Bool, true, false, not, Option, none, some,
  [], ◌∷◌, ◌++◌, map, if◌then◌else◌, length, arith, All, Text, text_eq_iff, text_eq_refl,
  text_eq_cases, length-append, Option-cases, by_branches, inl, inr, All-append,
}
use narra_leaf_team.Data.Sorting.{
  filter, Pairwise, All-filter, Pairwise-filter, Pairwise-map, All-map, All-mapped, All-of,
}
use narra_leaf_team.Overlay.{
  Row, Database, project_overlay_limit, ok, OverlayRecord, get, has_id, in_project, count_overlay,
  client_key, written_by, OverlayWrite, OverlayWritten, new_row, put_overlay, Revision, revise_row,
  revise_overlay, drop_overlay,
}
use narra_leaf_team.Overlay.Order.{IsReadable, Apart, max_safe_integer}
use narra_leaf_team.Overlay.Writing.{
  get-none, insert_row_ok, put_new_ok, put_overlay_cases, some-injective, keyed, revise_overlay_ok,
}

-- No two rows of one author have one client id.
abbrev pub OwnKey : Row → Row → Type 0
OwnKey x y =
    (key : Text) → x.client_id ≡ some key → y.client_id ≡ some key → x.author_id ≢ y.author_id

pub record IsSound (database : Database) : Type 0 where
  pub apart : Pairwise Apart database
  pub own_keys : Pairwise OwnKey database
  pub readable : All IsReadable database
  pub few : (project_id : Text) → count_overlay project_id database ≤ project_overlay_limit

-- What may happen to the table: a put with a fresh id that is answered, a revision that is answered, and
-- a record that is taken off, at times that are safe integers.
pub data Step : Database → Database → Type 0 where
  put :
      (id : Text) (input : OverlayWrite) (database database' : Database) (w : OverlayWritten)
      → id ≢ []
      → input.now ≤ max_safe_integer
      → put_overlay id input database ≡ ok (w, database')
      → Step database database'
  revise :
      (id : Text) (input : Revision) (database database' : Database) (r : OverlayRecord)
      → input.now ≤ max_safe_integer
      → revise_overlay id input database ≡ ok (r, database')
      → Step database database'
  take_off : (id : Text) (database : Database) → Step database (drop_overlay id database)

pub data Reach : Database → Type 0 where
  empty : Reach []
  after :
      {database database' : Database} → Reach database → Step database database' → Reach database'

Pairwise-append {κ} :
    (R : Row → Row → Type κ) (rows : Database) (row : Row)
    → Pairwise R rows
    → All (λ r. R r row) rows
    → Pairwise R (rows ++ (row ∷ []))
Pairwise-append R [] row h k = (tt, tt)
Pairwise-append R (r ∷ rows) row h k =
    (All-append (R r) rows (row ∷ []) h.0 (k.0, tt), Pairwise-append R rows row h.1 k.1)

filter-append :
    (q : Row → Bool) (xs ys : Database) → filter q (xs ++ ys) ≡ filter q xs ++ filter q ys
filter-append q [] ys = refl
filter-append q (x ∷ xs) ys = ground (arith, filter-append q xs ys)

length-filter-filter :
    (p q : Row → Bool) (rows : Database)
    → length (filter p (filter q rows)) ≤ length (filter p rows)
length-filter-filter p q [] = omega arith
length-filter-filter p q (row ∷ rows) = ground (arith, length-filter-filter p q rows)

count_overlay-append :
    (project_id : Text) (database : Database) (row : Row)
    → count_overlay project_id (database ++ (row ∷ []))
      ≡ count_overlay project_id database + (if in_project project_id row then 1 else 0)
unfolding count_overlay
count_overlay-append project_id database row =
    let parts = filter-append (in_project project_id) database (row ∷ []) in
    let sizes =
      length-append (filter (in_project project_id) database)
        (filter (in_project project_id) (row ∷ [])) in
    ground (arith, parts, sizes)

OwnKey-All :
    (row : Row) (database : Database)
    → ((key : Text) → row.client_id ≡ some key → get (written_by row.author_id key) database ≡ none)
    → All (λ r. OwnKey r row) database
OwnKey-All row database own = elim (Option-cases row.client_id) [
  | inl e ↦ All-of (λ r key p q. absurd (ground (arith, e, q))) database
  | inr (key, e) ↦
      All-map
        (λ r g key' p q same. absurd (
          ground (
            arith,
            g,
            p,
            some-injective (sym q ∙ e),
            (text_eq_iff r.author_id row.author_id).1 same,
            text_eq_refl key,
          )))
        database (get-none (written_by row.author_id key) database (own key e))
]

inserted-IsSound :
    (row : Row) (database : Database)
    → IsSound database
    → IsReadable row
    → get (has_id row.id) database ≡ none
    → ((key : Text) → row.client_id ≡ some key → get (written_by row.author_id key) database ≡ none)
    → count_overlay row.project_id database < project_overlay_limit
    → IsSound (database ++ (row ∷ []))
inserted-IsSound row database s readable fresh own few = record {
  apart = Pairwise-append Apart database row s.apart (
      All-map (λ r e same. ground (arith, e, (text_eq_iff r.id row.id).1 same)) database
        (get-none (has_id row.id) database fresh));
  own_keys = Pairwise-append OwnKey database row s.own_keys (OwnKey-All row database own);
  readable = All-append IsReadable database (row ∷ []) s.readable (readable, tt);
  few = λ project_id.
      let grown = count_overlay-append project_id database row in
      elim (text_eq_cases row.project_id project_id) [
        | inl (same, e) ↦
            ground (arith, grown, e, ap (λ (p : Text). count_overlay p database) same, few)
        | inr (other, e) ↦ ground (arith, grown, e, s.few project_id)
      ];
}

put-IsSound :
    (id : Text) (input : OverlayWrite) (database database' : Database) (w : OverlayWritten)
    → IsSound database
    → id ≢ []
    → input.now ≤ max_safe_integer
    → put_overlay id input database ≡ ok (w, database')
    → IsSound database'
put-IsSound id input database database' w s there safe h =
    elim (put_overlay_cases id input database w database' h) [
      | inl (c, row, ce, found, we, same) ↦ subst IsSound (sym same) s
      | inr (key, new, ke, absent) ↦
          let (p, few, we) = put_new_ok id key input database w database' new in
          let (fresh, grown) = insert_row_ok (new_row id key input) database database' p in
          subst IsSound (sym grown) (
            inserted-IsSound (new_row id key input) database s (safe, there) fresh
              (own_key key ke absent) few)
    ]
  where
    own_key :
        (key : Option Text)
        → key ≡ keyed input.client_id
        → ((c : Text)
            → input.client_id ≡ some c
            → get (written_by input.author_id (client_key c)) database ≡ none)
        → (key' : Text) → key ≡ some key'
        → get (written_by input.author_id key') database ≡ none
    own_key key ke absent key' e = elim (Option-cases input.client_id) [
      | inl p ↦ absurd (ground (arith, p, ke, e))
      | inr (c, p) ↦
          let same : client_key c ≡ key' = some-injective (sym (ke ∙ ap keyed p) ∙ e) in
          subst (λ (k : Text). get (written_by input.author_id k) database ≡ none) same (absent c p)
    ]

drop-IsSound :
    (id : Text) (database : Database) → IsSound database → IsSound (drop_overlay id database)
unfolding drop_overlay count_overlay
drop-IsSound id database s =
    let kept = λ (row : Row). not (has_id id row) in
    record {
      apart = Pairwise-filter Apart kept database s.apart;
      own_keys = Pairwise-filter OwnKey kept database s.own_keys;
      readable = All-filter IsReadable kept database s.readable;
      few = λ project_id.
          omega
            (arith, length-filter-filter (in_project project_id) kept database, s.few project_id);
    }

-- What a revision leaves of a row.
revise_row-keeps :
    (id : Text) (input : Revision) (row : Row)
    → ((revise_row id input row).id ≡ row.id)
      × ((revise_row id input row).client_id ≡ row.client_id)
      × ((revise_row id input row).author_id ≡ row.author_id)
      × ((revise_row id input row).project_id ≡ row.project_id)
revise_row-keeps id input row =
    elim (has_id id row)
      as (λ b.
        let row' =
          if b
          then record row { body = input.body; revision = input.revision; updated_at = input.now }
          else row in
        (row'.id ≡ row.id)
        × (row'.client_id ≡ row.client_id)
        × (row'.author_id ≡ row.author_id)
        × (row'.project_id ≡ row.project_id)) [
          | true ↦ (refl, refl, refl, refl)
          | false ↦ (refl, refl, refl, refl)
        ]

revised-IsReadable :
    (id : Text) (input : Revision) (row : Row)
    → input.now ≤ max_safe_integer
    → IsReadable row
    → IsReadable (revise_row id input row)
revised-IsReadable id input row safe h =
    by_branches IsReadable (has_id id row)
      (record row { body = input.body; revision = input.revision; updated_at = input.now }) row
      (λ e. (safe, h.1)) (λ e. h)

count_overlay-revise :
    (project_id id : Text) (input : Revision) (database : Database)
    → count_overlay project_id (map (revise_row id input) database)
      ≡ count_overlay project_id database
unfolding count_overlay
count_overlay-revise project_id id input [] = refl
count_overlay-revise project_id id input (row ∷ rows) =
    let same = (revise_row-keeps id input row).3 in
    ground (arith, same, count_overlay-revise project_id id input rows)

revise-IsSound :
    (id : Text) (input : Revision) (database database' : Database) (r : OverlayRecord)
    → IsSound database
    → input.now ≤ max_safe_integer
    → revise_overlay id input database ≡ ok (r, database')
    → IsSound database'
revise-IsSound id input database database' r s safe h =
    let f = revise_row id input in
    subst IsSound (sym ((revise_overlay_ok id input database database' r h).0)) (record {
      apart =
          Pairwise-map Apart f
            (λ x y k e.
              k (sym (revise_row-keeps id input x).0 ∙ e ∙ (revise_row-keeps id input y).0))
            database s.apart;
      own_keys =
          Pairwise-map OwnKey f
            (λ x y k key p q e.
              let kx = revise_row-keeps id input x in
              let ky = revise_row-keeps id input y in
              k key (sym kx.1 ∙ p) (sym ky.1 ∙ q) (sym kx.2 ∙ e ∙ ky.2))
            database s.own_keys;
      readable =
          All-mapped IsReadable f (λ x k. revised-IsReadable id input x safe k) database s.readable;
      few = λ project_id.
          omega (arith, s.few project_id, count_overlay-revise project_id id input database);
    })

-- Every state of the table, whatever its history, has no id and no client id of an author twice, times
-- that are safe integers, and no more than the limit of records in any project.
pub Reach-IsSound : (database : Database) → Reach database → IsSound database
Reach-IsSound _ empty = record {
  apart = tt;
  own_keys = tt;
  readable = tt;
  few = λ project_id. unfold count_overlay in omega arith;
}
Reach-IsSound _ (after before (put id input database database' w there safe h)) =
    put-IsSound id input database database' w (Reach-IsSound database before) there safe h
Reach-IsSound _ (after before (revise id input database database' r safe h)) =
    revise-IsSound id input database database' r (Reach-IsSound database before) safe h
Reach-IsSound _ (after before (take_off id database)) =
    drop-IsSound id database (Reach-IsSound database before)
