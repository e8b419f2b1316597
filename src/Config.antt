-- ===== src/Config.antt =====
-- internal/config/config.go: the configuration that `Load` makes of a file.
mod Tests
pub mod Told
pub mod Overlaid
pub mod Stored
pub mod Loaded
use travelmap.Base.{
  ℕ, ◌+◌, ◌-◌, ◌*◌, ◌%◌, String, Bool, true, false, ◌&&◌, not, Option, none, some, if◌then◌else◌,
  leb, ltb, ◌==◌,
}
use travelmap.Base.Text.{same_text}
use travelmap.Base.Integers.{ℤ, max_int}
use travelmap.Model.{second}

-- A configuration, or the error that ends the start.
pub data Outcome (A : Type 0) : Type 0 where
  good : A → Outcome A
  bad : (message : String) → Outcome A

abbrev pub on_good : {A B : Type 0} → Outcome A → (A → Outcome B) → Outcome B
on_good (good a) f = f a
on_good (bad message) f = bad message

-- slog.Level.UnmarshalText, time.LoadLocation and time.ParseDuration.
pub record ConfigStd : Type 0 where
  pub parse_level : String → Option ℤ
  pub known_location : String → Bool
  pub parse_duration : String → Option ℤ

-- Durations are in nanoseconds.
pub record Config : Type 0 where
  pub addr : String
  pub log_level : ℤ
  pub database_path : String
  pub debug_log_requests : Bool
  pub timezone : String
  pub track_break_minutes : ℕ
  pub foursquare_push_secret : String
  pub foursquare_client_id : String
  pub foursquare_client_secret : String
  pub base_url : String
  pub session_lifetime : ℕ
  pub session_cookie_secure : Bool
  pub foursquare_sync_lookback_days : ℕ
  pub foursquare_api_url : String
  pub foursquare_sync_interval : ℕ

-- The decoded file: none is a key that is absent.
pub record FileConfig : Type 0 where
  pub addr : Option String
  pub base_url : Option String
  pub log_level : Option String
  pub debug_log_requests : Option Bool
  pub path : Option String
  pub timezone : Option String
  pub track_break_minutes : Option ℤ
  pub lifetime : Option String
  pub cookie_secure : Option Bool
  pub client_id : Option String
  pub client_secret : Option String
  pub push_secret : Option String
  pub api_url : Option String
  pub sync_interval : Option String
  pub sync_lookback_days : Option ℤ

-- slog.LevelInfo
abbrev pub level_info : ℤ
level_info = ℤ.pos 0

abbrev pub hour : ℕ
hour = 3600 * second

unfoldable pub defaults : Config
defaults = record {
  addr = ":3000";
  log_level = level_info;
  database_path = "travelmap.db";
  debug_log_requests = false;
  timezone = "UTC";
  track_break_minutes = 30;
  foursquare_push_secret = "";
  foursquare_client_id = "";
  foursquare_client_secret = "";
  base_url = "";
  session_lifetime = 720 * hour;
  session_cookie_secure = true;
  foursquare_sync_lookback_days = 14;
  foursquare_api_url = "https://api.foursquare.com";
  foursquare_sync_interval = hour;
}

-- What os.ReadFile and the decoder make of the file.
pub data Reading : Type 0 where
  decoded : FileConfig → Reading
  malformed missing unreadable : Reading

abbrev pub no_file : FileConfig
no_file = record {
  addr = none;
  base_url = none;
  log_level = none;
  debug_log_requests = none;
  path = none;
  timezone = none;
  track_break_minutes = none;
  lifetime = none;
  cookie_secure = none;
  client_id = none;
  client_secret = none;
  push_secret = none;
  api_url = none;
  sync_interval = none;
  sync_lookback_days = none;
}

-- A file that was not asked for by its path may be missing.
unfoldable pub read_file : String → Reading → Outcome FileConfig
read_file path (decoded file) = good file
read_file path malformed = bad "parsing"
read_file path unreadable = bad "reading"
read_file path missing = if same_text path "" then good no_file else bad "reading"

abbrev pub or_default {ℓ} : {A : Type ℓ} → Option A → A → A
or_default none standard = standard
or_default (some v) standard = v

-- The fields that are taken as they are.
unfoldable pub plain_fields : FileConfig → Config
unfolding defaults
plain_fields file = record defaults {
  addr = or_default file.addr defaults.addr;
  base_url = or_default file.base_url defaults.base_url;
  database_path = or_default file.path defaults.database_path;
  foursquare_push_secret = or_default file.push_secret defaults.foursquare_push_secret;
  foursquare_client_id = or_default file.client_id defaults.foursquare_client_id;
  foursquare_client_secret = or_default file.client_secret defaults.foursquare_client_secret;
  foursquare_api_url = or_default file.api_url defaults.foursquare_api_url;
  debug_log_requests = or_default file.debug_log_requests defaults.debug_log_requests;
  session_cookie_secure = or_default file.cookie_secure defaults.session_cookie_secure;
}

-- cfg.LogLevel > slog.LevelInfo
abbrev pub above_info : ℤ → Bool
above_info (ℤ.pos n) = ltb 0 n
above_info (ℤ.negsuc n) = false

unfoldable pub cap_level : Config → Config
cap_level cfg =
    if cfg.debug_log_requests && above_info cfg.log_level
    then record cfg { log_level = level_info }
    else cfg

abbrev pub level_read : Config → Option ℤ → Outcome Config
level_read cfg none = bad "server.log_level"
level_read cfg (some level) = good (cap_level (record cfg { log_level = level }))

abbrev pub set_log_level : ConfigStd → Option String → Config → Outcome Config
set_log_level std none cfg = good (cap_level cfg)
set_log_level std (some v) cfg = level_read cfg (std.parse_level v)

unfoldable pub set_timezone : ConfigStd → Option String → Config → Outcome Config
set_timezone std v cfg =
    if std.known_location (or_default v cfg.timezone)
    then good (record cfg { timezone = or_default v cfg.timezone })
    else bad "tracking.timezone"

-- *v > 0
abbrev pub positive : ℤ → Option ℕ
positive (ℤ.negsuc n) = none
positive (ℤ.pos n) = if n == 0 then none else some n

abbrev pub set_minutes : Config → Option ℕ → Outcome Config
set_minutes cfg none = bad "tracking.track_break_minutes: must be a positive number of minutes"
set_minutes cfg (some n) = good (record cfg { track_break_minutes = n })

abbrev pub set_track_break : Option ℤ → Config → Outcome Config
set_track_break none cfg = good cfg
set_track_break (some v) cfg = set_minutes cfg (positive v)

abbrev pub positive_duration : Option ℤ → Option ℕ
positive_duration none = none
positive_duration (some v) = positive v

abbrev pub set_nanoseconds : Config → Option ℕ → Outcome Config
set_nanoseconds cfg none = bad "session.lifetime: must be a positive duration"
set_nanoseconds cfg (some n) = good (record cfg { session_lifetime = n })

abbrev pub set_lifetime : ConfigStd → Option String → Config → Outcome Config
set_lifetime std none cfg = good cfg
set_lifetime std (some v) cfg = set_nanoseconds cfg (positive_duration (std.parse_duration v))

abbrev pub set_days : Config → Option ℕ → Outcome Config
set_days cfg none = bad "foursquare.sync_lookback_days: must be a positive number of days"
set_days cfg (some n) = good (record cfg { foursquare_sync_lookback_days = n })

abbrev pub set_lookback : Option ℤ → Config → Outcome Config
set_lookback none cfg = good cfg
set_lookback (some v) cfg = set_days cfg (positive v)

abbrev pub interval_read : Config → Option ℤ → Outcome Config
interval_read cfg none = bad "foursquare.sync_interval: must be a non-negative duration"
interval_read cfg (some (ℤ.negsuc n)) =
    bad "foursquare.sync_interval: must be a non-negative duration"
interval_read cfg (some (ℤ.pos n)) = good (record cfg { foursquare_sync_interval = n })

abbrev pub set_interval : ConfigStd → Option String → Config → Outcome Config
set_interval std none cfg = good cfg
set_interval std (some v) cfg = interval_read cfg (std.parse_duration v)

unfoldable pub require_fields : Config → Outcome Config
require_fields cfg =
    if same_text cfg.base_url ""
    then bad "server.base_url: required"
    else if same_text cfg.foursquare_client_id ""
    then bad "foursquare.client_id: required"
    else if same_text cfg.foursquare_client_secret ""
    then bad "foursquare.client_secret: required"
    else if same_text cfg.foursquare_push_secret ""
    then bad "foursquare.push_secret: required"
    else good cfg

unfoldable pub load : ConfigStd → String → Reading → Outcome Config
unfolding read_file plain_fields set_timezone require_fields cap_level
load std path reading = on_good (read_file path reading) λ file.
    on_good (set_log_level std file.log_level (plain_fields file)) λ levelled.
      on_good (set_timezone std file.timezone levelled) λ zoned.
        on_good (set_track_break file.track_break_minutes zoned) λ broken.
          on_good (set_lifetime std file.lifetime broken) λ lasting.
            on_good (set_lookback file.sync_lookback_days lasting) λ looking.
              on_good (set_interval std file.sync_interval looking) λ timed. require_fields timed

-- A product of two numbers in 64 bits.
unfoldable pub wrapped : ℕ → ℤ
wrapped n =
    let r = n % 18_446_744_073_709_551_616 in
    if leb r max_int then ℤ.pos r else ℤ.negsuc (18_446_744_073_709_551_615 - r)

-- Config.TrackBreak and Config.FoursquareSyncLookback
unfoldable pub track_break : Config → ℤ
unfolding wrapped
track_break cfg = wrapped (cfg.track_break_minutes * (60 * second))

unfoldable pub foursquare_sync_lookback : Config → ℤ
unfolding wrapped
foursquare_sync_lookback cfg = wrapped (cfg.foursquare_sync_lookback_days * (24 * hour))
