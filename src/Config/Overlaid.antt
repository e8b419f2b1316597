-- ===== src/Config/Overlaid.antt =====
-- internal/config/config.go `Load`: each step of it, by the setting that it checks.
use travelmap.Base.{
  ℕ, ◌≤◌, ◌≡◌, String, true, false, ◌&&◌, Option, none, some, refl, arith, Bool-cases, inl, inr,
  ◌==◌,
}
use travelmap.Base.Text.{same_text, same_text_refl}
use travelmap.Base.Integers.{ℤ}
use travelmap.Config.{
  Outcome, good, bad, on_good, ConfigStd, Config, FileConfig, decoded, read_file, plain_fields,
  cap_level, above_info, level_read, set_log_level, set_timezone, set_minutes, set_track_break,
  positive, positive_duration, set_nanoseconds, set_lifetime, set_days, set_lookback, interval_read,
  set_interval, require_fields, load, or_default, level_info,
}
use travelmap.Config.Told.{Given, Spans, Levels, Logs, IsLoaded, Filled}

abbrev pub AllGood : {A : Type 0} → (A → Type 0) → Outcome A → Type 0
AllGood P (good a) = P a
AllGood P (bad message) = Unit

-- One rule for each setting that is checked: what follows is shown of each value it may take.
module _ (Q : Config → Type 0) (f : Config → Outcome Config) where
  minutes-read :
      (v : ℤ) (cfg : Config)
      → ((n : ℕ) → v ≡ ℤ.pos n → 1 ≤ n → AllGood Q (f (record cfg { track_break_minutes = n })))
      → AllGood Q (on_good (set_minutes cfg (positive v)) f)
  minutes-read (ℤ.negsuc n) cfg h = tt
  minutes-read (ℤ.pos n) cfg h = elim (Bool-cases (n == 0)) [
    | inl e ↦ rw e tt
    | inr e ↦ rw e (h n refl (ground (arith, e)))
  ]

  minutes-rule :
      (v : Option ℤ) (cfg : Config)
      → ((n : ℕ)
          → Given v cfg.track_break_minutes n
          → AllGood Q (f (record cfg { track_break_minutes = n })))
      → AllGood Q (on_good (set_track_break v cfg) f)
  minutes-rule none cfg h = h cfg.track_break_minutes refl
  minutes-rule (some v) cfg h = minutes-read v cfg (λ n e p. h n (e, p))

  days-read :
      (v : ℤ) (cfg : Config)
      → ((n : ℕ)
          → v ≡ ℤ.pos n
          → 1 ≤ n
          → AllGood Q (f (record cfg { foursquare_sync_lookback_days = n })))
      → AllGood Q (on_good (set_days cfg (positive v)) f)
  days-read (ℤ.negsuc n) cfg h = tt
  days-read (ℤ.pos n) cfg h = elim (Bool-cases (n == 0)) [
    | inl e ↦ rw e tt
    | inr e ↦ rw e (h n refl (ground (arith, e)))
  ]

  days-rule :
      (v : Option ℤ) (cfg : Config)
      → ((n : ℕ)
          → Given v cfg.foursquare_sync_lookback_days n
          → AllGood Q (f (record cfg { foursquare_sync_lookback_days = n })))
      → AllGood Q (on_good (set_lookback v cfg) f)
  days-rule none cfg h = h cfg.foursquare_sync_lookback_days refl
  days-rule (some v) cfg h = days-read v cfg (λ n e p. h n (e, p))

  lifetime-read :
      (o : Option ℤ) (cfg : Config)
      → ((n : ℕ) → o ≡ some (ℤ.pos n) → 1 ≤ n → AllGood Q (f (record cfg { session_lifetime = n })))
      → AllGood Q (on_good (set_nanoseconds cfg (positive_duration o)) f)
  lifetime-read none cfg h = tt
  lifetime-read (some (ℤ.negsuc n)) cfg h = tt
  lifetime-read (some (ℤ.pos n)) cfg h = elim (Bool-cases (n == 0)) [
    | inl e ↦ rw e tt
    | inr e ↦ rw e (h n refl (ground (arith, e)))
  ]

  interval-read :
      (o : Option ℤ) (cfg : Config)
      → ((n : ℕ) → o ≡ some (ℤ.pos n) → AllGood Q (f (record cfg { foursquare_sync_interval = n })))
      → AllGood Q (on_good (interval_read cfg o) f)
  interval-read none cfg h = tt
  interval-read (some (ℤ.negsuc n)) cfg h = tt
  interval-read (some (ℤ.pos n)) cfg h = h n refl

module _ (std : ConfigStd) (Q : Config → Type 0) (f : Config → Outcome Config) where
  lifetime-rule :
      (v : Option String) (cfg : Config)
      → ((n : ℕ)
          → Spans std v cfg.session_lifetime 1 n
          → AllGood Q (f (record cfg { session_lifetime = n })))
      → AllGood Q (on_good (set_lifetime std v cfg) f)
  lifetime-rule none cfg h = h cfg.session_lifetime refl
  lifetime-rule (some v) cfg h = lifetime-read Q f (std.parse_duration v) cfg (λ n e p. h n (e, p))

  interval-rule :
      (v : Option String) (cfg : Config)
      → ((n : ℕ)
          → Spans std v cfg.foursquare_sync_interval 0 n
          → AllGood Q (f (record cfg { foursquare_sync_interval = n })))
      → AllGood Q (on_good (set_interval std v cfg) f)
  interval-rule none cfg h = h cfg.foursquare_sync_interval refl
  interval-rule (some v) cfg h =
      interval-read Q f (std.parse_duration v) cfg (λ n e. h n (e, omega arith))

  zone-rule :
      (v : Option String) (cfg : Config)
      → (std.known_location (or_default v cfg.timezone) ≡ true
          → AllGood Q (f (record cfg { timezone = or_default v cfg.timezone })))
      → AllGood Q (on_good (set_timezone std v cfg) f)
  unfolding set_timezone
  zone-rule v cfg h = elim (Bool-cases (std.known_location (or_default v cfg.timezone))) [
    | inl e ↦ rw e (h e)
    | inr e ↦ rw e tt
  ]

  capped :
      (file : FileConfig) (cfg : Config) (asked : ℤ)
      → cfg.debug_log_requests ≡ or_default file.debug_log_requests false
      → cfg.log_level ≡ asked
      → Levels std file.log_level asked
      → ((l : ℤ) → Logs std file l → AllGood Q (f (record cfg { log_level = l })))
      → AllGood Q (f (cap_level cfg))
  unfolding cap_level
  capped file cfg asked d a l h =
      let e : (cfg.debug_log_requests && above_info cfg.log_level)
          ≡ (or_default file.debug_log_requests false && above_info asked) =
        cc (d, a) in
      elim (Bool-cases (cfg.debug_log_requests && above_info cfg.log_level)) [
        | inl c ↦ rw c (h level_info (asked, l, λ x. refl, λ x. cc (x, c, e)))
        | inr c ↦ rw c (h cfg.log_level (asked, l, λ x. cc (x, c, e), λ x. a))
      ]

  level-read :
      (file : FileConfig) (o : Option ℤ) (cfg : Config)
      → cfg.debug_log_requests ≡ or_default file.debug_log_requests false
      → ((level : ℤ) → o ≡ some level → Levels std file.log_level level)
      → ((l : ℤ) → Logs std file l → AllGood Q (f (record cfg { log_level = l })))
      → AllGood Q (on_good (level_read cfg o) f)
  level-read file none cfg d a h = tt
  level-read file (some level) cfg d a h =
      capped file (record cfg { log_level = level }) level d refl (a level refl) h

  level-given :
      (file : FileConfig) (o : Option String) (cfg : Config)
      → cfg.debug_log_requests ≡ or_default file.debug_log_requests false
      → cfg.log_level ≡ level_info
      → ((l : ℤ) → Levels std o l → Levels std file.log_level l)
      → ((l : ℤ) → Logs std file l → AllGood Q (f (record cfg { log_level = l })))
      → AllGood Q (on_good (set_log_level std o cfg) f)
  level-given file none cfg d i a h = capped file cfg level_info d i (a level_info refl) h
  level-given file (some v) cfg d i a h = level-read file (std.parse_level v) cfg d a h

  level-rule :
      (file : FileConfig)
      → ((l : ℤ) → Logs std file l → AllGood Q (f (record (plain_fields file) { log_level = l })))
      → AllGood Q (on_good (set_log_level std file.log_level (plain_fields file)) f)
  unfolding plain_fields
  level-rule file h = level-given file file.log_level (plain_fields file) refl refl (λ l a. a) h

given_text :
    (o : Option String)
    → same_text (or_default o "") "" ≡ false
    → (o ≡ some (or_default o "")) × (same_text (or_default o "") "" ≡ false)
given_text none h = absurd (cc (h, same_text_refl ""))
given_text (some v) h = (refl, h)

require-rule :
    (Q : Config → Type 0) (cfg : Config)
    → (Filled cfg.base_url
        → Filled cfg.foursquare_client_id
        → Filled cfg.foursquare_client_secret
        → Filled cfg.foursquare_push_secret
        → Q cfg)
    → AllGood Q (require_fields cfg)
unfolding require_fields
require-rule Q cfg h = elim (Bool-cases (same_text cfg.base_url "")) [
  | inl a ↦ rw a tt
  | inr a ↦ rw a (elim (Bool-cases (same_text cfg.foursquare_client_id "")) [
    | inl b ↦ rw b tt
    | inr b ↦ rw b (elim (Bool-cases (same_text cfg.foursquare_client_secret "")) [
      | inl c ↦ rw c tt
      | inr c ↦ rw c (elim (Bool-cases (same_text cfg.foursquare_push_secret "")) [
        | inl d ↦ rw d tt
        | inr d ↦ rw d (h a b c d)
      ])
    ])
  ])
]

module _ (std : ConfigStd) where
  pub overlaid :
      (path : String) (file : FileConfig)
      → AllGood (IsLoaded std file) (load std path (decoded file))
  unfolding load read_file plain_fields
  overlaid path file = level-rule std _ _ file (λ level a. zone-rule std _ _ file.timezone _ (λ z.
      minutes-rule _ _ file.track_break_minutes _ (λ minutes b.
        lifetime-rule std _ _ file.lifetime _ (λ lifetime c.
          days-rule _ _ file.sync_lookback_days _ (λ days d.
            interval-rule std _ _ file.sync_interval _ (λ interval e.
              require-rule (IsLoaded std file) _ (λ base id secret push. record {
                addr = refl;
                database_path = refl;
                api_url = refl;
                cookie_secure = refl;
                debug_log_requests = refl;
                log_level = a;
                timezone = refl;
                location = z;
                minutes = b;
                lifetime = c;
                days = d;
                interval = e;
                base_url = given_text file.base_url base;
                client_id = given_text file.client_id id;
                client_secret = given_text file.client_secret secret;
                push_secret = given_text file.push_secret push;
              })))))))
