-- ===== src/Httpapi/Stats.antt =====
-- internal/httpapi/stats.go: the handlers of /api/v1/stats and /api/v1/points/tracked_months.
pub mod Months
use travelmap.Base.{
  ℕ, suc, ◌+◌, ◌-◌, String, Bool, Option, none, some, List, [], ◌∷◌, ◌++◌, map, any, filter, length,
  ltb, ◌==◌, if◌then◌else◌,
}
use travelmap.Base.Text.{same_text}
use travelmap.Base.Sort.{sort}
use travelmap.Base.Integers.{ℤ}
use travelmap.Model.{Float64, DailyStat, User}
use travelmap.Geo.{FloatOps}
use travelmap.Exec.{Result, ok, err}
use travelmap.Store.DailyStats
use travelmap.Httpapi.Dto.{TrackedMonthsYear, YearlyStats, Stats, Body}
use travelmap.Httpapi.Response.{
  Std, Api, Handler, reply, attempt, write_json, server_error, as_user,
}

unfoldable pub year_of : Std → DailyStat → ℕ
year_of std d = (std.year_month d.day).0

unfoldable pub month_of : Std → DailyStat → ℕ
month_of std d = (std.year_month d.day).1

-- A map by year, whose entries stand in the order of the years' first days.
module _ {V : Type 0} where
  abbrev pub keys : List (ℕ × V) → List ℕ
  keys years = map (λ (e : ℕ × V). e.0) years

  -- The keys of a Go map come in no order; sorting decides it.
  unfoldable pub sorted_years_desc : List (ℕ × V) → List ℕ
  unfolding sort
  sorted_years_desc years = sort (λ a b. ltb b a) (keys years)

  -- The entry of a year, made anew if it is not there.
  unfoldable pub at_year : V → ℕ → (V → V) → List (ℕ × V) → List (ℕ × V)
  at_year new year f [] = (year, f new) ∷ []
  at_year new year f ((y, v) ∷ rest) =
      let others = at_year new year f rest in if y == year then (y, f v) ∷ rest else (y, v) ∷ others

  unfoldable pub find_year : V → ℕ → List (ℕ × V) → V
  find_year new year [] = new
  find_year new year ((y, v) ∷ rest) =
      let others = find_year new year rest in if y == year then v else others

-- months[year][month] = true
abbrev pub add_month : ℕ → List ℕ → List ℕ
add_month month months = month ∷ months

unfoldable pub collect_months : Std → List (ℕ × List ℕ) → List DailyStat → List (ℕ × List ℕ)
unfolding at_year year_of month_of
collect_months std months [] = months
collect_months std months (d ∷ ds) =
    collect_months std (at_year [] (year_of std d) (add_month (month_of std d)) months) ds

-- month.String()[:3], January first.
abbrev pub month_names : List (ℕ × String)
month_names =
    (1, "Jan")
    ∷ (2, "Feb")
    ∷ (3, "Mar")
    ∷ (4, "Apr")
    ∷ (5, "May")
    ∷ (6, "Jun")
    ∷ (7, "Jul")
    ∷ (8, "Aug")
    ∷ (9, "Sep")
    ∷ (10, "Oct")
    ∷ (11, "Nov")
    ∷ (12, "Dec")
    ∷ []

unfoldable pub month_list : List ℕ → List String
month_list months =
    map (λ (m : ℕ × String). m.1)
      (filter (λ (m : ℕ × String). any (λ k. k == m.0) months) month_names)

unfoldable pub tracked_months_to_dto : Std → List DailyStat → List TrackedMonthsYear
unfolding collect_months sorted_years_desc find_year month_list
tracked_months_to_dto std days =
    let months = collect_months std [] days in
    map (λ year. record { year = year; months = month_list (find_year [] year months) })
      (sorted_years_desc months)

-- A set of names.
unfoldable pub add_name : String → List String → List String
add_name c names = if any (same_text c) names then names else c ∷ names

unfoldable pub add_names : List String → List String → List String
unfolding add_name
add_names [] names = names
add_names (c ∷ cs) names = add_names cs (add_name c names)

pub record YearAgg : Type 0 where
  pub km : Float64
  pub countries : List String
  pub cities : List String
  pub month_km : List Float64

-- monthKM[i] += km
unfoldable pub add_at : FloatOps → ℕ → Float64 → List Float64 → List Float64
add_at ops i km [] = []
add_at ops ℕ.zero km (x ∷ xs) = ops.add x km ∷ xs
add_at ops (suc i) km (x ∷ xs) = x ∷ add_at ops i km xs

abbrev pub zeros : ℕ → List Float64
zeros ℕ.zero = []
zeros (suc n) = 0 ∷ zeros n

abbrev pub new_agg : YearAgg
new_agg = record { km = 0; countries = []; cities = []; month_km = zeros 12 }

unfoldable pub add_to_year : Std → FloatOps → DailyStat → YearAgg → YearAgg
unfolding add_at add_names month_of
add_to_year std ops d agg = record {
  km = ops.add agg.km d.km;
  countries = add_names d.countries agg.countries;
  cities = add_names d.cities agg.cities;
  month_km = add_at ops (month_of std d - 1) d.km agg.month_km;
}

-- The variables of `statsToDTO`.
pub record Totals : Type 0 where
  pub points : ℕ
  pub geocoded : ℕ
  pub km : Float64
  pub countries : List String
  pub cities : List String
  pub years : List (ℕ × YearAgg)

abbrev pub no_totals : Totals
no_totals = record { points = 0; geocoded = 0; km = 0; countries = []; cities = []; years = [] }

unfoldable pub add_day_totals : Std → FloatOps → DailyStat → Totals → Totals
unfolding add_names at_year add_to_year year_of
add_day_totals std ops d t = record {
  points = t.points + d.points;
  geocoded = t.geocoded + d.reverse_geocoded_points;
  km = ops.add t.km d.km;
  countries = add_names d.countries t.countries;
  cities = add_names d.cities t.cities;
  years = at_year new_agg (year_of std d) (add_to_year std ops d) t.years;
}

unfoldable pub sum_days : Std → FloatOps → Totals → List DailyStat → Totals
unfolding add_day_totals
sum_days std ops t [] = t
sum_days std ops t (d ∷ ds) = sum_days std ops (add_day_totals std ops d t) ds

unfoldable pub km_to_int : Std → Float64 → ℤ
km_to_int std km = std.to_int km

unfoldable pub yearly_stats : Std → ℕ → YearAgg → YearlyStats
unfolding km_to_int
yearly_stats std year agg = record {
  year = year;
  total_distance_km = km_to_int std agg.km;
  total_countries_visited = length agg.countries;
  total_cities_visited = length agg.cities;
  monthly_distance_km = map (km_to_int std) agg.month_km;
}

unfoldable pub stats_to_dto : Std → FloatOps → List DailyStat → Stats
unfolding sum_days sorted_years_desc find_year yearly_stats km_to_int
stats_to_dto std ops days =
    let t = sum_days std ops no_totals days in
    record {
      total_distance_km = km_to_int std t.km;
      total_points_tracked = t.points;
      total_reverse_geocoded_points = t.geocoded;
      total_countries_visited = length t.countries;
      total_cities_visited = length t.cities;
      yearly_stats =
          map (λ year. yearly_stats std year (find_year new_agg year t.years))
            (sorted_years_desc t.years);
    }

abbrev pub with_days : Api → (List DailyStat → Body) → Result (List DailyStat) → Handler
with_days api body (ok days) = reply (write_json api 200 (body days))
with_days api body (err e) = reply (server_error api)

unfoldable pub daily_stats_for_request : Api → Option User → (List DailyStat → Body) → Handler
unfolding as_user attempt write_json server_error
daily_stats_for_request api caller body =
    as_user api caller λ user. attempt (DailyStats.all user.id) (with_days api body)

unfoldable pub tracked_months : Api → Option User → Handler
unfolding daily_stats_for_request tracked_months_to_dto
tracked_months api caller =
    daily_stats_for_request api caller
      (λ days. Body.tracked_months (tracked_months_to_dto api.std days))

unfoldable pub stats : Api → Option User → Handler
unfolding daily_stats_for_request stats_to_dto
stats api caller =
    daily_stats_for_request api caller (λ days. Body.stats (stats_to_dto api.std api.ops days))
