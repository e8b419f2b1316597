-- ===== src/Ingest.antt =====
-- internal/ingest: every mutation of a point, with the rebuild of the days and the request for the
-- tracks that it owes, and the recalculation of everything.
pub mod Listing
pub mod Latest
pub mod Touches
pub mod Unaffected
pub mod Rebuilds
pub mod Affected
pub mod Requests
pub mod Consistent
pub mod Isolated
pub mod Repeated
pub mod Changes
pub mod Create
pub mod Change
pub mod Atomic
mod Tests
pub mod Sound
use travelmap.Base.{
  ℕ, Bool, false, ◌&&◌, Option, none, some, List, [], ◌∷◌, ◌++◌, map, ltb, ◌==◌, if◌then◌else◌, any,
  length,
}
use travelmap.Base.Sort.{sort}
use travelmap.Model.{Time, Float64, Point}
use travelmap.Model.Zone.{Zone}
use travelmap.Geo.{FloatOps}
use travelmap.Exec.{pure, tx, ◌>>=◌, ◌>>◌}
use travelmap.Store.{Action}
use travelmap.Store.Points
use travelmap.Store.DailyStats
use travelmap.Store.Tracks

-- recalculate.go
unfoldable pub local_midnight : Zone → Time → Time
local_midnight z ts = z.date (z.local ts).0 0

-- What a mutation reports of a point: its owner and its time.
pub record Touch : Type 0 where
  pub user_id : ℕ
  pub timestamp : Time

pub record DayKey : Type 0 where
  pub user_id : ℕ
  pub day : Time

unfoldable pub same_day : DayKey → DayKey → Bool
same_day k l = k.user_id == l.user_id && k.day == l.day

unfoldable pub key_of : Zone → Touch → DayKey
unfolding local_midnight
key_of z p = record { user_id = p.user_id; day = local_midnight z p.timestamp }

-- The map `latest`, whose entries stand in the order of `order`.
abbrev pub Latest : Type 0
Latest = List (DayKey × Time)

unfoldable pub record_latest : DayKey → Time → Latest → Latest
unfolding same_day
record_latest key ts [] = (key, ts) ∷ []
record_latest key ts ((k, cur) ∷ rest) =
    let others = record_latest key ts rest in
    if same_day k key then (k, (if ltb cur ts then ts else cur)) ∷ rest else (k, cur) ∷ others

unfoldable pub collect_latest : Zone → Latest → List Touch → Latest
unfolding key_of record_latest
collect_latest z latest [] = latest
collect_latest z latest (p ∷ ps) =
    collect_latest z (record_latest (key_of z p) p.timestamp latest) ps

-- `add`: a key that was seen is not added again.
unfoldable pub add_day : DayKey → List DayKey → List DayKey
unfolding same_day
add_day key days = if any (same_day key) days then days else days ++ key ∷ []

unfoldable pub add_next : Zone → ℕ → Option Time → List DayKey → List DayKey
unfolding add_day local_midnight
add_next z user none days = days
add_next z user (some next) days =
    add_day (record { user_id = user; day = local_midnight z next }) days

unfoldable pub collect_days : Zone → Latest → List DayKey → Action (List DayKey)
unfolding add_day add_next ◌>>=◌
collect_days z [] days = pure days
collect_days z ((key, ts) ∷ rest) days = do
  next ← Points.next_timestamp key.user_id ts
  collect_days z rest (add_next z key.user_id next (add_day key days))

unfoldable pub day_before : DayKey → DayKey → Bool
day_before k l = if k.user_id == l.user_id then ltb k.day l.day else ltb k.user_id l.user_id

unfoldable pub affected_days : Zone → List Touch → Action (List DayKey)
unfolding collect_latest collect_days sort day_before ◌>>=◌
affected_days z points = do
  days ← collect_days z (collect_latest z [] points) []
  pure (sort day_before days)

unfoldable pub rebuild_days : FloatOps → Zone → ℕ → List DayKey → Action (Unit {0})
unfolding ◌>>=◌
rebuild_days ops z track_break [] = pure tt
rebuild_days ops z track_break (key ∷ keys) = do
  DailyStats.rebuild ops z key.user_id key.day track_break
  rebuild_days ops z track_break keys

unfoldable pub enqueue_rest : List ℕ → List Touch → Action (Unit {0})
unfolding ◌>>=◌
enqueue_rest seen [] = pure tt
enqueue_rest seen (p ∷ ps) =
    if any (λ u. u == p.user_id) seen
    then enqueue_rest seen ps
    else (do Tracks.enqueue p.user_id; enqueue_rest (p.user_id ∷ seen) ps)

unfoldable pub enqueue_track_rebuilds : List Touch → Action (Unit {0})
unfolding enqueue_rest
enqueue_track_rebuilds touched = enqueue_rest [] touched

unfoldable pub rebuild_affected_days : FloatOps → Zone → ℕ → List Touch → Action (Unit {0})
unfolding affected_days rebuild_days enqueue_track_rebuilds ◌>>=◌
rebuild_affected_days ops z track_break touched = do
  days ← affected_days z touched
  rebuild_days ops z track_break days
  enqueue_track_rebuilds touched

abbrev pub touch_of : Point → Touch
touch_of p = record { user_id = p.user_id; timestamp = p.timestamp }

unfoldable pub create_points : FloatOps → Zone → ℕ → List Point → Action ℕ
unfolding rebuild_affected_days tx ◌>>=◌
create_points ops z track_break points = tx do
  created ← Points.create points
  rebuild_affected_days ops z track_break (map touch_of points)
  pure created

unfoldable pub update_point : FloatOps → Zone → ℕ → ℕ → ℕ → Float64 → Float64 → Action Point
unfolding rebuild_affected_days tx ◌>>=◌
update_point ops z track_break user id latitude longitude = tx do
  updated ← Points.update user id latitude longitude
  rebuild_affected_days ops z track_break
      (record { user_id = user; timestamp = updated.timestamp } ∷ [])
  pure updated

unfoldable pub delete_point : FloatOps → Zone → ℕ → ℕ → ℕ → Action (Unit {0})
unfolding rebuild_affected_days tx ◌>>=◌
delete_point ops z track_break user id = tx do
  timestamp ← Points.delete user id
  rebuild_affected_days ops z track_break (record { user_id = user; timestamp = timestamp } ∷ [])

unfoldable pub delete_points : FloatOps → Zone → ℕ → ℕ → List ℕ → Action ℕ
unfolding rebuild_affected_days tx ◌>>=◌
delete_points ops z track_break user ids = tx do
  timestamps ← Points.delete_bulk user ids
  rebuild_affected_days ops z track_break
      (map (λ ts. record { user_id = user; timestamp = ts }) timestamps)
  pure (length timestamps)

-- recalculate.go: a day is rebuilt at its first timestamp, which is where the day changes.
unfoldable pub recalculate_days :
    FloatOps → Zone → ℕ → ℕ → Option Time → List Time → Action (Unit {0})
unfolding local_midnight ◌>>=◌
recalculate_days ops z track_break user last [] = pure tt
recalculate_days ops z track_break user last (ts ∷ rest) =
    let day = local_midnight z ts in
    let skip = recalculate_days ops z track_break user last rest in
    let visit = (do
      DailyStats.rebuild ops z user day track_break
      recalculate_days ops z track_break user (some day) rest) in
    if elim last [ none ↦ false | some d ↦ day == d ] then skip else visit

unfoldable pub recalculate_user : FloatOps → Zone → ℕ → ℕ → Action (Unit {0})
unfolding recalculate_days ◌>>=◌
recalculate_user ops z track_break user = do
  timestamps ← Points.timestamps user
  recalculate_days ops z track_break user none timestamps

unfoldable pub recalculate_users : FloatOps → Zone → ℕ → List ℕ → Action (Unit {0})
unfolding recalculate_user tx ◌>>=◌
recalculate_users ops z track_break [] = pure tt
recalculate_users ops z track_break (user ∷ users) = do
  tx (recalculate_user ops z track_break user)
  recalculate_users ops z track_break users

unfoldable pub recalculate : FloatOps → Zone → ℕ → Action (Unit {0})
unfolding recalculate_users tx ◌>>=◌
recalculate ops z track_break = do
  tx DailyStats.delete_all
  users ← Points.user_ids
  recalculate_users ops z track_break users
