-- ===== src/Store/Sessions/Tests.antt =====
-- internal/store/sqlite/sessions.go at two concrete sessions.
use travelmap.Base.{◌*◌, ◌<◌, ◌≡◌, [], ◌∷◌, some, none, arith, if◌then◌else◌}
use travelmap.Base.Text.{same_text}
use travelmap.Model.{second}
use travelmap.Model.Settings.{Session}
use travelmap.Store.{Db, unix_time}
use travelmap.Store.Sessions.{upsert_session, sweep, delete_session}
use travelmap.Store.Sessions.Reading.{opened, upsert_session-opened, gone-opened}
use travelmap.Fixture.{empty}

abbrev signed_in : Session
signed_in = record { token = "t1"; contents = 7 ∷ []; expiry = 50 * second }

abbrev two_sessions : Db
two_sessions = record empty {
  sessions = signed_in ∷ record { token = "t2"; contents = []; expiry = 5 * second } ∷ [];
}

abbrev renewed : Session
renewed = record { token = "t2"; contents = 8 ∷ []; expiry = 90 * second }

lasting : unix_time (20 * second) < unix_time (90 * second)
unfolding unix_time
lasting = omega arith

upsert_session-opened_example :
    opened "t2" (20 * second) (upsert_session renewed two_sessions).1
    ≡ (if same_text "t2" "t2" then some (8 ∷ []) else opened "t2" (20 * second) two_sessions)
upsert_session-opened_example =
    upsert_session-opened renewed "t2" (20 * second) two_sessions lasting

gone-opened_example :
    (opened "t1" (20 * second) (sweep (10 * second) two_sessions).1
      ≡ opened "t1" (20 * second) two_sessions)
    × (opened "t1" (20 * second) (delete_session "t2" two_sessions).1
        ≡ (if same_text "t2" "t1" then none else opened "t1" (20 * second) two_sessions))
gone-opened_example = gone-opened (10 * second) (20 * second) "t2" "t1" two_sessions (omega arith)
