-- ===== src/Fixture.antt =====
-- A database to run the code on: one user, in a location at UTC, with whole numbers for the floats.
use mathlib.Core.List.{List, [], ◌∷◌}
use travelmap.Base.{
  ℕ, ◌+◌, ◌*◌, ◌/◌, ◌%◌, ◌-◌, ◌≡◌, refl, false, true, none, some, find, arith, inr,
}
use travelmap.Base.Members.{In, in_cons}
use travelmap.Model.{Time, second, Point, User}
use travelmap.Model.Zone.{Zone, IsRegular}
use travelmap.Geo.{FloatOps}
use travelmap.Exec.{Env}
use travelmap.Exec.Ensures.{Healthy}
use travelmap.Store.{Db, known_user}
use travelmap.Store.Points.{owned, select_ordered}
use travelmap.Track.{build}
use travelmap.Track.Current.{IsCurrent}
use travelmap.Store.DailyStats.{day_totals}
use travelmap.Store.DailyStats.Rebuilt.{find_stat, stat_of}
use travelmap.Ingest.{create_points}
use travelmap.Ingest.Sound.{IsSound}
use travelmap.Ingest.Sound.History.{Mutation, mutate, History, History-IsSound}

abbrev pub day : ℕ
day = 86_400 * second

abbrev pub utc : Zone
utc = record {
  local = λ t. (t / 86_400_000_000_000, t % 86_400_000_000_000);
  date = λ d clock. d * 86_400_000_000_000 + clock;
}

pub utc-day : (d : ℕ) → (d * 86_400_000_000_000 + 0) / 86_400_000_000_000 ≡ d
utc-day d = omega arith

pub utc-clock : (d : ℕ) → (d * 86_400_000_000_000 + 0) % 86_400_000_000_000 ≡ 0
utc-clock d = omega arith

pub utc-IsRegular : IsRegular utc
utc-IsRegular = record {
  whole = λ d. omega arith;
  midnight = λ d i. (utc-day d i, utc-clock d i);
  start = λ t. omega arith;
  next = λ t. omega arith;
  ascending = λ d e h. omega (arith, h);
}

abbrev pub whole_numbers : FloatOps
whole_numbers = record {
  lit = λ n. n;
  pi = 3;
  earth_radius_km = 6371;
  add = λ x y. x + y;
  sub = λ x y. x - y;
  mul = λ x y. x * y;
  div = λ x y. x / y;
  sin = λ x. x;
  cos = λ x. x;
  sqrt = λ x. x;
  atan2 = λ x y. x + y;
  radians = λ x. x;
  power = λ x y. x * x;
  sum = total;
}
  where
    total : List ℕ → ℕ
    total [] = 0
    total (x ∷ xs) = x + total xs

abbrev pub env : Env
env = record { now = λ k. 1000 * second; fails = λ k. false; done = λ k. false }

pub env-Healthy : Healthy env
env-Healthy = record { never = λ k. refl }

abbrev pub user : User
user = record {
  id = 1;
  email = "a@example.com";
  password_hash = "";
  api_key = "";
  created_at = 0;
  updated_at = 0;
}

abbrev pub empty : Db
empty = record {
  users = user ∷ [];
  user_seq = 1;
  settings = [];
  sessions = [];
  trips = [];
  trip_seq = 0;
  foursquare_accounts = [];
  checkins = [];
  checkin_seq = 0;
  points = [];
  point_seq = 0;
  daily_stats = [];
  tracks = [];
  track_seq = 0;
  jobs = [];
  job_seq = 0;
}

abbrev pub at : Time → Point
at t = record {
  id = 0;
  user_id = 1;
  timestamp = t;
  latitude = t / second;
  longitude = 7;
  altitude = none;
  velocity = none;
  accuracy = none;
  vertical_accuracy = none;
  course = none;
  course_accuracy = none;
  battery_status = none;
  battery = none;
  ssid = none;
  tracker_id = none;
  created_at = 0;
  updated_at = 0;
}

abbrev pub minutes : ℕ
minutes = 600 * second

pub no-stat :
    (u l : ℕ) → find_stat u l empty.daily_stats ≡ stat_of whole_numbers utc minutes empty.points u l
unfolding day_totals
no-stat u l = refl

pub no-track : (u : ℕ) → IsCurrent whole_numbers minutes u empty
unfolding build select_ordered
no-track u = refl

pub empty-IsSound : IsSound whole_numbers utc minutes empty
empty-IsSound = record {
  rows = record {
    ids = λ p q i j e. elim i [ ];
    fresh = λ p i. elim i [ ];
    keys = λ p q i j e. elim i [ ];
    whole = λ p i. elim i [ ];
    known = λ p i. elim i [ ];
  };
  stats = record { stat = no-stat };
  tracks = record {
    jobs = record {
      ids = λ j k p q e. elim p [ ];
      fresh = λ j p. elim p [ ];
      known = λ j p. elim p [ ];
    };
    served = λ u. inr (no-track u);
  };
}

abbrev pub batch : List Point
batch = at (day + 60 * second) ∷ at (day + 120 * second) ∷ []

pub batch-known : (p : Point) → In p batch → known_user empty p.user_id ≡ true
unfolding known_user
batch-known = in_cons _ _ _ refl (in_cons _ _ _ refl (λ p i. elim i [ ]))

-- The database after the batch.
abbrev pub filled : Db
filled = mutate whole_numbers utc minutes (Mutation.create batch) env empty

pub filled-History : History whole_numbers utc minutes empty filled
filled-History = History.mutated env (Mutation.create batch) History.start

pub filled-IsSound : IsSound whole_numbers utc minutes filled
filled-IsSound =
    History-IsSound whole_numbers utc minutes utc-IsRegular empty filled filled-History
      empty-IsSound

abbrev pub first_row : Point
first_row = record (at (day + 60 * second)) {
  id = 1;
  created_at = 1000 * second;
  updated_at = 1000 * second;
}

pub found_first : find (owned 1 1) filled.points ≡ some first_row
unfolding create_points travelmap.Store.Points.create travelmap.Store.Points.next_timestamp
    travelmap.Store.DailyStats.rebuild travelmap.Store.Tracks.enqueue
found_first = refl

pub missed_ninth : find (owned 1 9) filled.points ≡ none
unfolding create_points travelmap.Store.Points.create travelmap.Store.Points.next_timestamp
    travelmap.Store.DailyStats.rebuild travelmap.Store.Tracks.enqueue
missed_ninth = refl
