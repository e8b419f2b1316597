-- ===== src/Store/Checkins.antt =====
-- internal/store/sqlite/checkins.go: the repository of the checkins table.
pub mod Kept
use travelmap.Base.{
  ℕ, suc, String, Bool, Option, none, some, List, [], ◌∷◌, ◌++◌, map, find, if◌then◌else◌,
}
use travelmap.Base.Text.{same_text}
use travelmap.Model.{Time}
use travelmap.Model.Checkin.{Checkin}
use travelmap.Exec.{Result, ok, err, foreign_key, statement, with_now}
use travelmap.Store.{Db, Action, unix_time, known_user}

-- checkins_foursquare_checkin_id_key
abbrev pub is_of : String → Checkin → Bool
is_of id c = same_text c.foursquare_checkin_id id

-- The row that an INSERT makes.
unfoldable pub checkin_row : ℕ → Time → Checkin → Checkin
unfolding unix_time
checkin_row id now c = record c {
  id = id;
  checked_in_at = unix_time c.checked_in_at;
  created_at = unix_time now;
  updated_at = unix_time now;
}

-- DO UPDATE SET: every column but the ids, source and created_at.
unfoldable pub refreshed : Time → Checkin → Checkin → Checkin
unfolding checkin_row
refreshed now c old = record (checkin_row old.id now c) {
  foursquare_checkin_id = old.foursquare_checkin_id;
  source = old.source;
  created_at = old.created_at;
}

abbrev pub refresh_row : Time → Checkin → Checkin → Checkin
refresh_row now c row = if is_of c.foursquare_checkin_id row then refreshed now c row else row

-- A conflict takes an AUTOINCREMENT id all the same.
unfoldable pub upsert_checkin : Time → Checkin → Db → Result Checkin × Db
unfolding known_user checkin_row refreshed
upsert_checkin now c db =
    if known_user db c.user_id
    then elim (find (is_of c.foursquare_checkin_id) db.checkins) [
      | none ↦ (
        ok (checkin_row (suc db.checkin_seq) now c),
        record db {
          checkins = db.checkins ++ checkin_row (suc db.checkin_seq) now c ∷ [];
          checkin_seq = suc db.checkin_seq;
        },
      )
      | some old ↦
          (ok (refreshed now c old), record db { checkins = map (refresh_row now c) db.checkins })
    ]
    else (err foreign_key, db)

unfoldable pub upsert : Checkin → Action Checkin
unfolding upsert_checkin statement
upsert c = with_now λ now. statement (upsert_checkin now c)
