-- ===== src/Store.antt =====
-- internal/store and internal/store/sqlite: the database as a record of tables, and the repositories
-- over it in the modules below. A table is the list of its rows in the order of insertion; a query
-- that orders its result sorts.
pub mod Points
pub mod Users
pub mod FoursquareAccounts
pub mod Checkins
pub mod Trips
pub mod Settings
pub mod Sessions
pub mod DailyStats
pub mod Tracks
pub mod Times
pub mod WellFormed
use travelmap.Base.{ℕ, ◌*◌, ◌/◌, Bool, List, any, ◌==◌}
use travelmap.Model.{Time, second, Point, DailyStat, Track, User}
use travelmap.Model.Settings.{Settings as UserSettings, Session}
use travelmap.Model.Trip.{Trip}
use travelmap.Model.FoursquareAccount.{FoursquareAccount}
use travelmap.Model.Checkin.{Checkin}
use travelmap.Exec.{Exec}

-- track_split_jobs
pub record Job : Type 0 where
  pub id : ℕ
  pub user_id : ℕ
  pub requested_at : Time

-- The `_seq` fields are the last AUTOINCREMENT ids given out.
pub record Db : Type 0 where
  pub users : List User
  pub user_seq : ℕ
  pub settings : List UserSettings
  pub sessions : List Session
  pub trips : List Trip
  pub trip_seq : ℕ
  pub foursquare_accounts : List FoursquareAccount
  pub checkins : List Checkin
  pub checkin_seq : ℕ
  pub points : List Point
  pub point_seq : ℕ
  pub daily_stats : List DailyStat
  pub tracks : List Track
  pub track_seq : ℕ
  pub jobs : List Job
  pub job_seq : ℕ

abbrev pub Action : Type 0 → Type 0
Action A = Exec Db A

-- scan.go `unixTime`: a column holds whole seconds. The model keeps the time that `Scan` makes of
-- the column, so storing a time is dropping its fraction of a second.
unfoldable pub unix_time : Time → Time
unix_time t = t / second * second

-- REFERENCES users (id)
unfoldable pub known_user : Db → ℕ → Bool
known_user db user = any (λ (u : User). u.id == user) db.users
