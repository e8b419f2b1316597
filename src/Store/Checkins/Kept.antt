-- ===== src/Store/Checkins/Kept.antt =====
-- internal/store/sqlite/checkins.go: what a repeated write keeps.
use mathlib.Core.Option.{none-ne-some}
use mathlib.Core.Option
use travelmap.Base.{
  ℕ, suc, ◌*◌, ◌/◌, ◌≡◌, refl, sym, ◌∙◌, String, true, false, Option, none, some, List, [], ◌∷◌,
  ◌++◌, map, find, if◌then◌else◌, arith, Bool-cases, Option-cases, inl, inr,
}
use travelmap.Base.Text.{same_text, same_text_left, same_text_comm}
use travelmap.Model.{Time, second}
use travelmap.Model.Checkin.{Checkin}
use travelmap.Exec.{ok}
use travelmap.Store.{Db, known_user, unix_time}
use travelmap.Store.Checkins.{is_of, checkin_row, refreshed, refresh_row, upsert_checkin}

abbrev pub found : String → Db → Option Checkin
found id db = find (λ (c : Checkin). same_text c.foursquare_checkin_id id) db.checkins

-- The row that a write is expected to leave, by the one that was there; times are in whole seconds.
abbrev pub written : Time → Checkin → ℕ → Option Checkin → Checkin
written now c id none = record c {
  id = id;
  checked_in_at = c.checked_in_at / second * second;
  created_at = now / second * second;
  updated_at = now / second * second;
}
written now c id (some old) = record c {
  id = old.id;
  foursquare_checkin_id = old.foursquare_checkin_id;
  source = old.source;
  checked_in_at = c.checked_in_at / second * second;
  created_at = old.created_at;
  updated_at = now / second * second;
}

refresh-find :
    (now : Time) (c : Checkin) (id : String) (rows : List Checkin)
    → find (is_of id) (map (refresh_row now c) rows) ≡ (
        if same_text c.foursquare_checkin_id id
        then Option.map (refreshed now c) (find (is_of id) rows)
        else find (is_of id) rows)
unfolding refreshed
refresh-find now c id [] = ground arith
refresh-find now c id (r ∷ rows) =
    elim (Bool-cases (same_text r.foursquare_checkin_id c.foursquare_checkin_id)) [
      | inl e ↦ rw e (
          ground (
            arith,
            same_text_left r.foursquare_checkin_id c.foursquare_checkin_id id e,
            refresh-find now c id rows,
          ))
      | inr e ↦ rw e (
          ground (
            arith,
            e,
            same_text_left r.foursquare_checkin_id id c.foursquare_checkin_id,
            same_text_comm c.foursquare_checkin_id id,
            refresh-find now c id rows,
          ))
    ]

-- Rows are looked up the same way by texts that are the same.
same-find :
    (a b : String) (rows : List Checkin)
    → same_text a b ≡ true
    → find (is_of a) rows ≡ find (is_of b) rows
same-find a b [] h = refl
same-find a b (r ∷ rows) h = ground (
  arith,
  same_text_left a b r.foursquare_checkin_id h,
  same_text_comm a r.foursquare_checkin_id,
  same_text_comm b r.foursquare_checkin_id,
  same-find a b rows h,
)

append-find :
    (a b : String) (row : Checkin) (rows : List Checkin)
    → find (is_of a) rows ≡ none
    → row.foursquare_checkin_id ≡ a
    → find (is_of b) (rows ++ row ∷ []) ≡ (if same_text a b then some row else find (is_of b) rows)
append-find a b row [] h e = rw e (ground arith)
append-find a b row (r ∷ rows) h e = elim (Bool-cases (is_of a r)) [
  | inl i ↦ absurd (none-ne-some r (sym h ∙ found_first i))
  | inr i ↦ ground (
    arith,
    i,
    same_text_left a b r.foursquare_checkin_id,
    same_text_comm a r.foursquare_checkin_id,
    same_text_comm b r.foursquare_checkin_id,
    append-find a b row rows (rest i) e,
  )
]
  where
    rest : is_of a r ≡ false → find (is_of a) rows ≡ none
    rest i = ground (arith, i, h)

    found_first : is_of a r ≡ true → find (is_of a) (r ∷ rows) ≡ some r
    found_first i = rw i refl

-- After Upsert of a check-in of a user who exists, the row under its Foursquare id is the new
-- one, but with the id, the source and the creation time of the row that was there, if any;
-- under any other Foursquare id the row is the one that was there.
pub upsert_checkin-found :
    (now : Time) (c : Checkin) (id : String) (db : Db)
    → known_user db c.user_id ≡ true
    → found id (upsert_checkin now c db).1 ≡ (
        if same_text c.foursquare_checkin_id id
        then some (written now c (suc db.checkin_seq) (found id db))
        else found id db)
unfolding upsert_checkin checkin_row refreshed unix_time
upsert_checkin-found now c id db k =
    elim (Option-cases (find (is_of c.foursquare_checkin_id) db.checkins)) [
      | inl n ↦
          rw (k, n)
            (append-find c.foursquare_checkin_id id (checkin_row (suc db.checkin_seq) now c)
                db.checkins n refl
              ∙ taken none n)
      | inr (old, n) ↦ rw (k, n) (refresh-find now c id db.checkins ∙ mapped old n)
    ]
  where
    there :
        (o : Option Checkin)
        → find (is_of c.foursquare_checkin_id) db.checkins ≡ o
        → same_text c.foursquare_checkin_id id ≡ true
        → found id db ≡ o
    there o n e = sym (same-find c.foursquare_checkin_id id db.checkins e) ∙ n

    taken :
        (o : Option Checkin)
        → find (is_of c.foursquare_checkin_id) db.checkins ≡ o
        → (if same_text c.foursquare_checkin_id id
            then some (written now c (suc db.checkin_seq) o)
            else found id db)
          ≡ (if same_text c.foursquare_checkin_id id
              then some (written now c (suc db.checkin_seq) (found id db))
              else found id db)
    taken o n = elim (Bool-cases (same_text c.foursquare_checkin_id id)) [
      | inl e ↦ rw (e, there o n e) refl
      | inr e ↦ rw e refl
    ]

    mapped :
        (old : Checkin)
        → find (is_of c.foursquare_checkin_id) db.checkins ≡ some old
        → (if same_text c.foursquare_checkin_id id
            then Option.map (refreshed now c) (found id db)
            else found id db)
          ≡ (if same_text c.foursquare_checkin_id id
              then some (written now c (suc db.checkin_seq) (found id db))
              else found id db)
    mapped old n = elim (Bool-cases (same_text c.foursquare_checkin_id id)) [
      | inl e ↦ rw (e, there (some old) n e) refl
      | inr e ↦ rw e refl
    ]

-- What `Upsert` returns is the row it leaves.
pub upsert_checkin-written :
    (now : Time) (c : Checkin) (db : Db)
    → known_user db c.user_id ≡ true
    → (upsert_checkin now c db).0
      ≡ ok (written now c (suc db.checkin_seq) (found c.foursquare_checkin_id db))
unfolding upsert_checkin checkin_row refreshed unix_time
upsert_checkin-written now c db k =
    elim (Option-cases (find (is_of c.foursquare_checkin_id) db.checkins)) [
      | inl n ↦ rw (k, n) refl
      | inr (old, n) ↦ rw (k, n) refl
    ]
