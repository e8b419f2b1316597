-- ===== src/Store/Sessions.antt =====
-- internal/store/sqlite/sessions.go: the repository of the sessions table.
mod Tests
pub mod Reading
use travelmap.Base.{
  ℕ, String, Bool, not, ◌&&◌, none, some, List, [], ◌∷◌, filter, find, if◌then◌else◌, ltb, leb,
}
use travelmap.Base.Text.{same_text}
use travelmap.Model.{Time}
use travelmap.Model.Settings.{Session}
use travelmap.Exec.{Result, ok, err, not_found, statement, with_now}
use travelmap.Store.{Db, Action, unix_time}

-- WHERE token = ? AND expiry > ?
abbrev pub live : String → Time → Session → Bool
live token now s = same_text s.token token && ltb (unix_time now) s.expiry

unfoldable pub find_session : String → Time → Db → Result Session × Db
unfolding unix_time
find_session token now db = elim (find (live token now) db.sessions) [
  | none ↦ (err not_found, db)
  | some s ↦ (ok s, db)
]

unfoldable pub by_token : String → Action Session
unfolding find_session statement
by_token token = with_now λ now. statement (find_session token now)

-- INSERT ... ON CONFLICT (token) DO UPDATE
unfoldable pub upsert_row : Session → List Session → List Session
unfolding unix_time
upsert_row session [] = record session { expiry = unix_time session.expiry } ∷ []
upsert_row session (s ∷ ss) =
    let rest = upsert_row session ss in
    if same_text s.token session.token
    then record s { contents = session.contents; expiry = unix_time session.expiry } ∷ ss
    else s ∷ rest

unfoldable pub upsert_session : Session → Db → Result (Unit {0}) × Db
unfolding upsert_row
upsert_session session db = (ok tt, record db { sessions = upsert_row session db.sessions })

unfoldable pub upsert : Session → Action (Unit {0})
unfolding upsert_session statement
upsert session = statement (upsert_session session)

unfoldable pub delete_session : String → Db → Result (Unit {0}) × Db
delete_session token db = (
  ok tt,
  record db { sessions = filter (λ (s : Session). not (same_text s.token token)) db.sessions },
)

unfoldable pub delete : String → Action (Unit {0})
unfolding delete_session statement
delete token = statement (delete_session token)

abbrev pub expired : Time → Session → Bool
expired now s = leb s.expiry (unix_time now)

unfoldable pub sweep : Time → Db → Result (Unit {0}) × Db
unfolding unix_time
sweep now db =
    (ok tt, record db { sessions = filter (λ (s : Session). not (expired now s)) db.sessions })

unfoldable pub delete_expired : Action (Unit {0})
unfolding sweep statement
delete_expired = with_now λ now. statement (sweep now)
