-- ===== src/Store/Times.antt =====
-- internal/store/sqlite/scan.go `unixTime`: what dropping the fraction of a second keeps.
use travelmap.Base.{◌%◌, ◌≤◌, ◌<◌, ◌≡◌, arith}
use travelmap.Model.{Time, second}
use travelmap.Store.{unix_time}

pub unix_time-le : (t : Time) → unix_time t ≤ t
unfolding unix_time
unix_time-le t = omega arith

pub unix_time-unix_time : (t : Time) → unix_time (unix_time t) ≡ unix_time t
unfolding unix_time
unix_time-unix_time t = omega arith

pub unix_time_mono : (t u : Time) → t ≤ u → unix_time t ≤ unix_time u
unfolding unix_time
unix_time_mono t u h = omega arith

-- A whole second is not later than a time's second unless it is not later than the time.
pub le-unix_time : (s t : Time) → s % second ≡ 0 → s ≤ t → s ≤ unix_time t
unfolding unix_time
le-unix_time s t w h = omega arith

-- What lies before a whole second in its seconds does so as a time.
pub lt_of_unix_time : (s t : Time) → s % second ≡ 0 → unix_time t < s → t < s
unfolding unix_time
lt_of_unix_time s t w h = omega arith
