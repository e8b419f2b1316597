-- ===== src/Config/Tests.antt =====
-- internal/config at a concrete file.
use travelmap.Base.{◌*◌, ◌≤◌, ◌≡◌, ◌↔◌, refl, true, ◌||◌, none, some, arith, if◌then◌else◌}
use travelmap.Base.Text.{same_text}
use travelmap.Base.Integers.{ℤ, parse_int}
use travelmap.Model.{second}
use travelmap.Config.{
  ConfigStd, Config, FileConfig, good, decoded, no_file, load, hour, track_break,
  foursquare_sync_lookback,
}
use travelmap.Config.Told.{IsLoaded}
use travelmap.Config.Loaded.{load-IsLoaded, load-durations}

-- Durations are written as nanoseconds.
abbrev std : ConfigStd
std = record {
  parse_level = λ s.
      if same_text s "WARN"
      then some (ℤ.pos 4)
      else if same_text s "DEBUG"
      then some (ℤ.negsuc 3)
      else none;
  known_location = λ s. same_text s "UTC" || same_text s "Asia/Tokyo";
  parse_duration = parse_int;
}

abbrev file : FileConfig
file = record no_file {
  base_url = some "https://map.example.com";
  log_level = some "WARN";
  debug_log_requests = some true;
  timezone = some "Asia/Tokyo";
  track_break_minutes = some (ℤ.pos 45);
  client_id = some "id";
  client_secret = some "secret";
  push_secret = some "push";
  sync_interval = some "0";
}

abbrev loaded : Config
loaded = record {
  addr = ":3000";
  log_level = ℤ.pos 0;
  database_path = "travelmap.db";
  debug_log_requests = true;
  timezone = "Asia/Tokyo";
  track_break_minutes = 45;
  foursquare_push_secret = "push";
  foursquare_client_id = "id";
  foursquare_client_secret = "secret";
  base_url = "https://map.example.com";
  session_lifetime = 720 * hour;
  session_cookie_secure = true;
  foursquare_sync_lookback_days = 14;
  foursquare_api_url = "https://api.foursquare.com";
  foursquare_sync_interval = 0;
}

is_loaded : load std "" (decoded file) ≡ good loaded
unfolding load parse_int same_text
is_loaded = refl

load-IsLoaded_example :
    (load std "" (decoded file) ≡ good loaded)
    ↔ ((f : FileConfig) × (decoded file ≡ decoded f) × IsLoaded std f loaded)
load-IsLoaded_example = load-IsLoaded std "" (decoded file) loaded

load-durations_example :
    (track_break loaded ≡ ℤ.pos (45 * (60 * second)))
    × (1 ≤ 45)
    × (foursquare_sync_lookback loaded ≡ ℤ.pos (14 * (24 * hour)))
    × (1 ≤ 14)
load-durations_example =
    load-durations std "" (decoded file) loaded is_loaded (omega arith) (omega arith)

-- 153 722 868 minutes are more nanoseconds than 63 bits hold.
long_break :
    track_break (record loaded { track_break_minutes = 153_722_868 })
    ≡ ℤ.negsuc 9_223_371_993_709_551_615
unfolding track_break
long_break = refl
