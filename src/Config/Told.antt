-- ===== src/Config/Told.antt =====
-- internal/config/config.go `Load`: what a file tells of each setting.
use travelmap.Base.{ℕ, ◌≤◌, ◌≡◌, ◌*◌, String, true, false, ◌&&◌, Option, none, some}
use travelmap.Base.Text.{same_text}
use travelmap.Base.Integers.{ℤ}
use travelmap.Config.{ConfigStd, Config, FileConfig, above_info, hour, or_default, level_info}

-- A whole number that the file gives is taken if it is positive, else the default stands.
abbrev pub Given : Option ℤ → ℕ → ℕ → Type 0
Given none standard n = n ≡ standard
Given (some v) standard n = (v ≡ ℤ.pos n) × (1 ≤ n)

-- A duration that the file gives is read and is not below the least one.
abbrev pub Spans : ConfigStd → Option String → ℕ → ℕ → ℕ → Type 0
Spans std none standard least n = n ≡ standard
Spans std (some v) standard least n = (std.parse_duration v ≡ some (ℤ.pos n)) × (least ≤ n)

abbrev pub Levels : ConfigStd → Option String → ℤ → Type 0
Levels std none level = level ≡ level_info
Levels std (some v) level = std.parse_level v ≡ some level

-- The file's level, or Info where requests are logged and it is above Info.
abbrev pub Logs : ConfigStd → FileConfig → ℤ → Type 0
Logs std file level =
    (asked : ℤ) × Levels std file.log_level asked
    × ((or_default file.debug_log_requests false && above_info asked) ≡ true → level ≡ level_info)
    × ((or_default file.debug_log_requests false && above_info asked) ≡ false → level ≡ asked)

pub record IsLoaded (std : ConfigStd) (file : FileConfig) (cfg : Config) : Type 0 where
  pub addr : cfg.addr ≡ or_default file.addr ":3000"
  pub database_path : cfg.database_path ≡ or_default file.path "travelmap.db"
  pub api_url : cfg.foursquare_api_url ≡ or_default file.api_url "https://api.foursquare.com"
  pub cookie_secure : cfg.session_cookie_secure ≡ or_default file.cookie_secure true
  pub debug_log_requests : cfg.debug_log_requests ≡ or_default file.debug_log_requests false
  pub log_level : Logs std file cfg.log_level
  pub timezone : cfg.timezone ≡ or_default file.timezone "UTC"
  pub location : std.known_location cfg.timezone ≡ true
  pub minutes : Given file.track_break_minutes 30 cfg.track_break_minutes
  pub lifetime : Spans std file.lifetime (720 * hour) 1 cfg.session_lifetime
  pub days : Given file.sync_lookback_days 14 cfg.foursquare_sync_lookback_days
  pub interval : Spans std file.sync_interval hour 0 cfg.foursquare_sync_interval
  pub base_url : (file.base_url ≡ some cfg.base_url) × (same_text cfg.base_url "" ≡ false)
  pub client_id :
      (file.client_id ≡ some cfg.foursquare_client_id)
      × (same_text cfg.foursquare_client_id "" ≡ false)
  pub client_secret :
      (file.client_secret ≡ some cfg.foursquare_client_secret)
      × (same_text cfg.foursquare_client_secret "" ≡ false)
  pub push_secret :
      (file.push_secret ≡ some cfg.foursquare_push_secret)
      × (same_text cfg.foursquare_push_secret "" ≡ false)

abbrev pub Filled : String → Type 0
Filled s = same_text s "" ≡ false
