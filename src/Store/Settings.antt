-- ===== src/Store/Settings.antt =====
-- internal/store/sqlite/settings.go: the repository of the settings table, one row for each user.
pub mod Refines
use travelmap.Base.{ℕ, Bool, none, some, [], ◌∷◌, ◌++◌, map, any, find, if◌then◌else◌, ◌==◌}
use travelmap.Model.{Time}
use travelmap.Model.Settings.{Settings}
use travelmap.Exec.{Result, ok, err, not_found, conflict, foreign_key, statement, with_now}
use travelmap.Store.{Db, Action, unix_time, known_user}

abbrev pub belongs : ℕ → Settings → Bool
belongs user s = s.user_id == user

unfoldable pub get : ℕ → Action Settings
unfolding statement
get user = statement λ db. elim (find (belongs user) db.settings) [
  | none ↦ (err not_found, db)
  | some s ↦ (ok s, db)
]

unfoldable pub settings_row : Time → Settings → Settings
unfolding unix_time
settings_row now settings = record settings {
  created_at = unix_time now;
  updated_at = unix_time now;
}

-- user_id INTEGER PRIMARY KEY REFERENCES users (id)
unfoldable pub insert_settings : Time → Settings → Db → Result Settings × Db
unfolding settings_row known_user
insert_settings now settings db =
    if any (belongs settings.user_id) db.settings
    then (err conflict, db)
    else if known_user db settings.user_id
    then (
      ok (settings_row now settings),
      record db { settings = db.settings ++ settings_row now settings ∷ [] },
    )
    else (err foreign_key, db)

unfoldable pub create : Settings → Action Settings
unfolding insert_settings statement
create settings = with_now λ now. statement (insert_settings now settings)

-- The SET clause: every column but user_id and created_at.
unfoldable pub revised : Time → Settings → Settings → Settings
unfolding unix_time
revised now settings old = record settings {
  user_id = old.user_id;
  created_at = old.created_at;
  updated_at = unix_time now;
}

abbrev pub revise_row : Time → Settings → Settings → Settings
revise_row now settings s = if belongs settings.user_id s then revised now settings s else s

unfoldable pub update_settings : Time → Settings → Db → Result Settings × Db
unfolding revised
update_settings now settings db = elim (find (belongs settings.user_id) db.settings) [
  | none ↦ (err not_found, db)
  | some s ↦ (
    ok (revised now settings s),
    record db { settings = map (revise_row now settings) db.settings },
  )
]

unfoldable pub update : Settings → Action Settings
unfolding update_settings statement
update settings = with_now λ now. statement (update_settings now settings)
