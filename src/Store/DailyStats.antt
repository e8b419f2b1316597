-- ===== src/Store/DailyStats.antt =====
-- internal/store/sqlite/dailystats.go: the repository of the daily_stats table, and the query that
-- computes a day from the points.
pub mod Rebuilt
use travelmap.Base.{
  ℕ, ◌+◌, ◌-◌, ◌/◌, Bool, ◌&&◌, ◌||◌, not, Option, none, some, List, [], ◌∷◌, ◌++◌, map, ltb, leb,
  ◌==◌, if◌then◌else◌, any, filter, find, length,
}
use travelmap.Base.Sort.{sort}
use travelmap.Base.Extremes.{last_by}
use travelmap.Model.{Time, second, Float64, Point, DailyStat}
use travelmap.Model.Zone.{Zone}
use travelmap.Geo.{FloatOps}
use travelmap.Exec.{Result, ok, err, not_found, foreign_key, statement, ◌>>=◌}
use travelmap.Store.{Db, Action, known_user}
use travelmap.Store.Points.{earlier, at_time}

-- day.Format(dayFormat): the label of the calendar day on which `day` falls.
unfoldable pub label_of : Zone → Time → ℕ
label_of z day = (z.local day).0

-- day.AddDate(0, 0, 1): the same clock on the next calendar day.
unfoldable pub next_day : Zone → Time → Time
next_day z day = z.date ((z.local day).0 + 1) (z.local day).1

unfoldable pub before_day : ℕ → Time → Point → Bool
before_day user start p = p.user_id == user && ltb p.timestamp start

unfoldable pub in_day : ℕ → Time → Time → Point → Bool
in_day user start end_at p = p.user_id == user && (leb start p.timestamp && ltb p.timestamp end_at)

abbrev pub option_list {ℓ} : {A : Type ℓ} → Option A → List A
option_list none = []
option_list (some a) = a ∷ []

-- WITH candidates: the last point before the day (ORDER BY timestamp DESC LIMIT 1), and the day's
-- points.
unfoldable pub candidates : ℕ → Time → Time → List Point → List Point
unfolding before_day in_day last_by
candidates user start end_at points =
    option_list (last_by at_time (filter (before_day user start) points))
    ++ filter (in_day user start end_at) points

-- LAG(...) OVER (ORDER BY timestamp): each row with the one before it.
unfoldable pub lag : Option Point → List Point → List (Point × Option Point)
lag prev [] = []
lag prev (p ∷ ps) = (p, prev) ∷ lag (some p) ps

-- WITH lagged, and the outer WHERE.
unfoldable pub lagged : ℕ → Time → Time → List Point → List (Point × Option Point)
unfolding candidates lag sort in_day
lagged user start end_at points =
    filter (λ (r : Point × Option Point). in_day user start end_at r.0)
      (lag none (sort earlier (candidates user start end_at points)))

-- The haversine term of `rebuildQuery`.
unfoldable pub distance_km : FloatOps → Point → Point → Float64
distance_km ops prev p =
    let half_lat =
      ops.sin
        (ops.div (ops.sub (ops.radians p.latitude) (ops.radians prev.latitude)) (ops.lit 2)) in
    let half_lon =
      ops.sin
        (ops.div (ops.sub (ops.radians p.longitude) (ops.radians prev.longitude)) (ops.lit 2)) in
    let a = ops.add (ops.power half_lat (ops.lit 2)) (
      ops.mul (ops.mul (ops.cos (ops.radians prev.latitude)) (ops.cos (ops.radians p.latitude)))
        (ops.power half_lon (ops.lit 2))) in
    ops.mul (ops.mul ops.earth_radius_km (ops.lit 2))
      (ops.atan2 (ops.sqrt a) (ops.sqrt (ops.sub (ops.lit 1) a)))

-- timestamp - prev_timestamp <= :track_break, on the columns' seconds.
unfoldable pub within_break : ℕ → Point → Point → Bool
within_break track_break prev p =
    leb (p.timestamp / second - prev.timestamp / second) (track_break / second)

-- CASE WHEN ... THEN ... ELSE 0 END
unfoldable pub segment_km : FloatOps → ℕ → Point × Option Point → Float64
unfolding within_break distance_km
segment_km ops track_break (p, none) = ops.lit 0
segment_km ops track_break (p, some prev) =
    if within_break track_break prev p then distance_km ops prev p else ops.lit 0

-- COALESCE(SUM(...), 0)
unfoldable pub coalesced_sum : FloatOps → List Float64 → Float64
coalesced_sum ops [] = ops.lit 0
coalesced_sum ops (x ∷ xs) = ops.sum (x ∷ xs)

-- rebuildQuery: the day's number of points, and its distance.
unfoldable pub day_totals : FloatOps → Zone → ℕ → List Point → ℕ → Time → ℕ × Float64
unfolding lagged segment_km coalesced_sum next_day
day_totals ops z track_break points user day =
    let rows = lagged user day (next_day z day) points in
    (length rows, coalesced_sum ops (map (segment_km ops track_break) rows))

abbrev pub is_row : ℕ → ℕ → DailyStat → Bool
is_row user label s = s.user_id == user && s.day == label

-- DELETE FROM daily_stats WHERE user_id = ? AND day = ?
unfoldable pub delete_stat : ℕ → ℕ → List DailyStat → List DailyStat
delete_stat user label = filter (λ s. not (is_row user label s))

-- INSERT ... ON CONFLICT (user_id, day) DO UPDATE
unfoldable pub upsert_stat : DailyStat → List DailyStat → List DailyStat
upsert_stat row [] = row ∷ []
upsert_stat row (s ∷ ss) =
    let rest = upsert_stat row ss in if is_row row.user_id row.day s then row ∷ ss else s ∷ rest

unfoldable pub write_stat : DailyStat → Db → Result (Unit {0}) × Db
unfolding upsert_stat known_user
write_stat row db =
    if any (is_row row.user_id row.day) db.daily_stats || known_user db row.user_id
    then (ok tt, record db { daily_stats = upsert_stat row db.daily_stats })
    else (err foreign_key, db)

-- The row that `Rebuild` writes, empty of places until reverse geocoding is enabled.
unfoldable pub stat_row : ℕ → ℕ → ℕ → Float64 → DailyStat
stat_row user label points km = record {
  user_id = user;
  day = label;
  points = points;
  reverse_geocoded_points = 0;
  km = km;
  countries = [];
  cities = [];
}

unfoldable pub store_totals : ℕ → ℕ → ℕ × Float64 → Action (Unit {0})
unfolding delete_stat write_stat stat_row statement
store_totals user label (points, km) =
    if points == 0
    then statement
        (λ db. (ok tt, record db { daily_stats = delete_stat user label db.daily_stats }))
    else statement (write_stat (stat_row user label points km))

unfoldable pub rebuild : FloatOps → Zone → ℕ → Time → ℕ → Action (Unit {0})
unfolding label_of day_totals store_totals statement ◌>>=◌
rebuild ops z user day track_break = do
  totals ← statement (λ db. (ok (day_totals ops z track_break db.points user day), db))
  store_totals user (label_of z day) totals

unfoldable pub delete_all : Action (Unit {0})
unfolding statement
delete_all = statement λ db. (ok tt, record db { daily_stats = [] })

unfoldable pub get : Zone → ℕ → Time → Action DailyStat
unfolding label_of statement
get z user day = statement λ db. elim (find (is_row user (label_of z day)) db.daily_stats) [
  | none ↦ (err not_found, db)
  | some s ↦ (ok s, db)
]

-- ORDER BY day ASC: labels of the form YYYY-MM-DD are ordered as the days are.
unfoldable pub all : ℕ → Action (List DailyStat)
unfolding sort statement
all user = statement λ db. (
  ok (
      sort (λ (s t : DailyStat). ltb s.day t.day)
        (filter (λ (s : DailyStat). s.user_id == user) db.daily_stats)),
  db,
)
