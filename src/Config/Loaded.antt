-- ===== src/Config/Loaded.antt =====
-- internal/config/config.go: what `Load` makes of a file, and the durations of its result.
use travelmap.Base.{
  ℕ, ◌≤◌, ◌≡◌, ◌*◌, String, Option, none, some, refl, subst, arith, Bool-cases, inl, inr, sym, ◌↔◌,
}
use travelmap.Base.Text.{same_text}
use travelmap.Base.Integers.{ℤ, max_int}
use travelmap.Model.{second}
use travelmap.Config.{
  Outcome, good, bad, ConfigStd, Config, FileConfig, Reading, decoded, malformed, missing,
  unreadable, no_file, read_file, load, hour, wrapped, track_break, foursquare_sync_lookback,
}
use travelmap.Config.Told.{IsLoaded, Given}
use travelmap.Config.Overlaid.{AllGood, overlaid}
use travelmap.Config.Stored.{stored}

all_good : (P : Config → Type 0) (m : Outcome Config) (a : Config) → AllGood P m → m ≡ good a → P a
all_good P m a p h = subst (AllGood P) h p

-- Without a file there is no base URL.
no_file-bad :
    (Q : Config → Type 0) (std : ConfigStd) (m : Outcome Config)
    → AllGood (IsLoaded std no_file) m
    → AllGood Q m
no_file-bad Q std (good cfg) s = absurd (cc (s.base_url.0))
no_file-bad Q std (bad message) s = tt

abbrev FromFile : ConfigStd → Reading → Config → Type 0
FromFile std reading cfg = (file : FileConfig) × (reading ≡ decoded file) × IsLoaded std file cfg

from_file :
    (std : ConfigStd) (path : String) (reading : Reading)
    → AllGood (FromFile std reading) (load std path reading)
unfolding load read_file
from_file std path (decoded file) = later (load std path (decoded file)) (overlaid std path file)
  where
    later :
        (m : Outcome Config)
        → AllGood (IsLoaded std file) m
        → AllGood (FromFile std (decoded file)) m
    later (good cfg) s = (file, refl, s)
    later (bad message) s = tt
from_file std path malformed = tt
from_file std path unreadable = tt
from_file std path missing = elim (Bool-cases (same_text path "")) [
  | inl e ↦ rw e (no_file-bad _ std _ (overlaid std path no_file))
  | inr e ↦ rw e tt
]

-- Load gives a configuration exactly where the file was read and decoded and the configuration
-- is the one that the file tells: each setting is the file's or its default; the time zone is
-- one that is known; the break and the look-back days are positive, the lifetime is positive
-- and the interval of the fetches is not negative; the level is Info where requests are logged
-- and it would be above; and the base URL and the three secrets of Foursquare are the file's
-- and not empty.
pub load-IsLoaded :
    (std : ConfigStd) (path : String) (reading : Reading) (cfg : Config)
    → (load std path reading ≡ good cfg)
      ↔ ((file : FileConfig) × (reading ≡ decoded file) × IsLoaded std file cfg)
load-IsLoaded std path reading cfg = (
  λ h. all_good (FromFile std reading) (load std path reading) cfg (from_file std path reading) h,
  λ (file, e, s). subst (λ r. load std path r ≡ good cfg) (sym e) (stored std file cfg s path),
)

wrapped-pos : (n : ℕ) → n ≤ max_int → wrapped n ≡ ℤ.pos n
unfolding wrapped
wrapped-pos n h = ground (arith, h)

given-positive : (v : Option ℤ) (standard n : ℕ) → 1 ≤ standard → Given v standard n → 1 ≤ n
given-positive none standard n p h = omega (arith, p, h)
given-positive (some v) standard n p h = h.1

-- Of a configuration that Load gives, with a break up to 153722867 minutes and up to 106751
-- look-back days, TrackBreak and FoursquareSyncLookback are the positive durations of that
-- many minutes and days, without a wrap around 64 bits.
pub load-durations :
    (std : ConfigStd) (path : String) (reading : Reading) (cfg : Config)
    → load std path reading ≡ good cfg
    → cfg.track_break_minutes ≤ 153_722_867
    → cfg.foursquare_sync_lookback_days ≤ 106_751
    → (track_break cfg ≡ ℤ.pos (cfg.track_break_minutes * (60 * second)))
      × (1 ≤ cfg.track_break_minutes)
      × (foursquare_sync_lookback cfg ≡ ℤ.pos (cfg.foursquare_sync_lookback_days * (24 * hour)))
      × (1 ≤ cfg.foursquare_sync_lookback_days)
unfolding track_break foursquare_sync_lookback
load-durations std path reading cfg h minutes days =
    let (file, e, s) = (load-IsLoaded std path reading cfg).0 h in
    (
      wrapped-pos (cfg.track_break_minutes * (60 * second)) (omega (arith, minutes)),
      given-positive file.track_break_minutes 30 cfg.track_break_minutes (omega arith) s.minutes,
      wrapped-pos (cfg.foursquare_sync_lookback_days * (24 * hour)) (omega (arith, days)),
      given-positive file.sync_lookback_days 14 cfg.foursquare_sync_lookback_days (omega arith)
          s.days,
    )
