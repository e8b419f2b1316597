-- ===== src/Track/Breaks.antt =====
-- The two tests for a gap that is too long: `build` of internal/track/build.go, on times, and the
-- query of internal/store/sqlite/dailystats.go, on the columns' seconds.
use travelmap.Base.{ℕ, ◌<◌, ◌≡◌, not, some, arith}
use travelmap.Model.{Point, max_duration}
use travelmap.Store.{unix_time}
use travelmap.Store.DailyStats.{within_break}
use travelmap.Track.{breaks}

-- Between two stored points, and for a break under the greatest duration, build starts a new
-- track exactly where the query of daily_stats leaves the segment out of the distance.
pub breaks-within_break :
    (track_break : ℕ) (p q : Point)
    → track_break < max_duration
    → unix_time p.timestamp ≡ p.timestamp
    → unix_time q.timestamp ≡ q.timestamp
    → breaks track_break (some p) q ≡ not (within_break track_break p q)
unfolding breaks within_break unix_time
breaks-within_break track_break p q h wp wq = ground (arith, h, wp, wq)
