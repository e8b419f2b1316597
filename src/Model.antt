-- ===== src/Model.antt =====
-- internal/model: the domain types. A time is a number of nanoseconds since the zero of Go's own
-- calendar computations, so that every `time.Time` is a natural number; a `float64` is its bit
-- pattern, since nothing here looks inside one.
pub mod Zone
pub mod Settings
pub mod FoursquareAccount
pub mod Checkin
pub mod Trip
use travelmap.Base.{ℕ, ◌-◌, ◌*◌, ◌/◌, String, Bool, Option, List, ◌==◌, min, ◌&&◌}

abbrev pub Time : Type 0
Time = ℕ

-- time.Second and the greatest time.Duration, in nanoseconds.
abbrev pub second : ℕ
second = 1_000_000_000

abbrev pub max_duration : ℕ
max_duration = 9_223_372_036_854_775_807

-- Time.Sub: saturated at the greatest duration. A negative difference is 0 here: the program only
-- tests whether it exceeds a bound that is not negative.
unfoldable pub time_sub : Time → Time → ℕ
time_sub t u = min (t - u) max_duration

abbrev pub Float64 : Type 0
Float64 = ℕ

pub record Coordinate : Type 0 where
  pub longitude : Float64
  pub latitude : Float64

pub record Point : Type 0 where
  pub id : ℕ
  pub user_id : ℕ
  pub timestamp : Time
  pub latitude : Float64
  pub longitude : Float64
  pub altitude : Option Float64
  pub velocity : Option Float64
  pub accuracy : Option Float64
  pub vertical_accuracy : Option Float64
  pub course : Option Float64
  pub course_accuracy : Option Float64
  pub battery_status : Option String
  pub battery : Option Float64
  pub ssid : Option String
  pub tracker_id : Option String
  pub created_at : Time
  pub updated_at : Time

pub record Track : Type 0 where
  pub id : ℕ
  pub user_id : ℕ
  pub start_at : Time
  pub end_at : Time
  pub distance_meters : Float64
  pub geometry : List Coordinate
  pub created_at : Time
  pub updated_at : Time

-- `day` is the row's label, the calendar day that `YYYY-MM-DD` names, counted in days.
pub record DailyStat : Type 0 where
  pub user_id : ℕ
  pub day : ℕ
  pub points : ℕ
  pub reverse_geocoded_points : ℕ
  pub km : Float64
  pub countries : List String
  pub cities : List String

pub record User : Type 0 where
  pub id : ℕ
  pub email : String
  pub password_hash : String
  pub api_key : String
  pub created_at : Time
  pub updated_at : Time
