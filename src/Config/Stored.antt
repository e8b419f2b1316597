-- ===== src/Config/Stored.antt =====
-- internal/config/config.go `Load`: that no step refuses what the settings allow.
use travelmap.Base.{
  ℕ, ◌≡◌, String, true, false, ◌&&◌, Option, none, some, refl, subst, arith, Bool-cases, inl, inr,
  ap, sym, ◌∙◌,
}
use travelmap.Base.Integers.{ℤ}
use travelmap.Config.{
  Outcome, good, on_good, ConfigStd, Config, FileConfig, decoded, read_file, plain_fields,
  cap_level, above_info, set_log_level, set_timezone, set_track_break, set_lifetime, set_lookback,
  set_interval, require_fields, load, or_default, level_info,
}
use travelmap.Config.Told.{Given, Spans, Levels, IsLoaded, Filled}

-- And the way back: what each setting is given is what the step stores.
minutes-given :
    (v : Option ℤ) (cfg : Config) (n : ℕ)
    → Given v cfg.track_break_minutes n
    → set_track_break v cfg ≡ good (record cfg { track_break_minutes = n })
minutes-given none cfg n h = ap (λ x. good (record cfg { track_break_minutes = x })) (sym h)
minutes-given (some v) cfg n h = rw h.0 (ground (arith, h.1))

days-given :
    (v : Option ℤ) (cfg : Config) (n : ℕ)
    → Given v cfg.foursquare_sync_lookback_days n
    → set_lookback v cfg ≡ good (record cfg { foursquare_sync_lookback_days = n })
days-given none cfg n h = ap (λ x. good (record cfg { foursquare_sync_lookback_days = x })) (sym h)
days-given (some v) cfg n h = rw h.0 (ground (arith, h.1))

module _ (std : ConfigStd) where
  lifetime-given :
      (v : Option String) (cfg : Config) (n : ℕ)
      → Spans std v cfg.session_lifetime 1 n
      → set_lifetime std v cfg ≡ good (record cfg { session_lifetime = n })
  lifetime-given none cfg n h = ap (λ x. good (record cfg { session_lifetime = x })) (sym h)
  lifetime-given (some v) cfg n h = rw h.0 (ground (arith, h.1))

  interval-given :
      (v : Option String) (cfg : Config) (n : ℕ)
      → Spans std v cfg.foursquare_sync_interval 0 n
      → set_interval std v cfg ≡ good (record cfg { foursquare_sync_interval = n })
  interval-given none cfg n h = ap (λ x. good (record cfg { foursquare_sync_interval = x })) (sym h)
  interval-given (some v) cfg n h = rw h.0 refl

  capped-given :
      (file : FileConfig) (cfg : Config) (l asked : ℤ)
      → cfg.debug_log_requests ≡ or_default file.debug_log_requests false
      → cfg.log_level ≡ asked
      → ((or_default file.debug_log_requests false && above_info asked) ≡ true → l ≡ level_info)
      → ((or_default file.debug_log_requests false && above_info asked) ≡ false → l ≡ asked)
      → cap_level cfg ≡ record cfg { log_level = l }
  unfolding cap_level
  capped-given file cfg l asked d a high low =
      let e : (cfg.debug_log_requests && above_info cfg.log_level)
          ≡ (or_default file.debug_log_requests false && above_info asked) =
        cc (d, a) in
      elim (Bool-cases (cfg.debug_log_requests && above_info cfg.log_level)) [
        | inl c ↦ rw (c, high (cc (c, e))) refl
        | inr c ↦ rw c (ap (λ x. record cfg { log_level = x }) (cc (low (cc (c, e)), a)))
      ]

  level-stored :
      (file : FileConfig) (o : Option String) (cfg : Config) (l asked : ℤ)
      → cfg.debug_log_requests ≡ or_default file.debug_log_requests false
      → cfg.log_level ≡ level_info
      → Levels std o asked
      → ((or_default file.debug_log_requests false && above_info asked) ≡ true → l ≡ level_info)
      → ((or_default file.debug_log_requests false && above_info asked) ≡ false → l ≡ asked)
      → set_log_level std o cfg ≡ good (record cfg { log_level = l })
  level-stored file none cfg l asked d i a high low =
      ap good (capped-given file cfg l asked d (i ∙ sym a) high low)
  level-stored file (some v) cfg l asked d i a high low =
      rw a (ap good (capped-given file (record cfg { log_level = asked }) l asked d refl high low))

  zone-stored :
      (v : Option String) (cfg : Config)
      → std.known_location (or_default v cfg.timezone) ≡ true
      → set_timezone std v cfg ≡ good (record cfg { timezone = or_default v cfg.timezone })
  unfolding set_timezone
  zone-stored v cfg h = rw h refl

require-stored :
    (cfg : Config)
    → Filled cfg.base_url
    → Filled cfg.foursquare_client_id
    → Filled cfg.foursquare_client_secret
    → Filled cfg.foursquare_push_secret
    → require_fields cfg ≡ good cfg
unfolding require_fields
require-stored cfg a b c d = rw (a, b, c, d) refl

module _ (std : ConfigStd) (file : FileConfig) (cfg : Config) (s : IsLoaded std file cfg) where
  -- The configuration without its required texts, as the steps leave it.
  abbrev overlay : Config
  overlay = record (plain_fields file) {
    log_level = cfg.log_level;
    timezone = or_default file.timezone "UTC";
    track_break_minutes = cfg.track_break_minutes;
    session_lifetime = cfg.session_lifetime;
    foursquare_sync_lookback_days = cfg.foursquare_sync_lookback_days;
    foursquare_sync_interval = cfg.foursquare_sync_interval;
  }

  text-of : (o : Option String) (v : String) → o ≡ some v → or_default o "" ≡ v
  text-of o v h = rw h refl

  overlay-eq : overlay ≡ cfg
  unfolding plain_fields
  overlay-eq = λ i. record {
    addr = (sym s.addr) i;
    log_level = cfg.log_level;
    database_path = (sym s.database_path) i;
    debug_log_requests = (sym s.debug_log_requests) i;
    timezone = (sym s.timezone) i;
    track_break_minutes = cfg.track_break_minutes;
    foursquare_push_secret = text-of file.push_secret cfg.foursquare_push_secret s.push_secret.0 i;
    foursquare_client_id = text-of file.client_id cfg.foursquare_client_id s.client_id.0 i;
    foursquare_client_secret =
        text-of file.client_secret cfg.foursquare_client_secret s.client_secret.0 i;
    base_url = text-of file.base_url cfg.base_url s.base_url.0 i;
    session_lifetime = cfg.session_lifetime;
    session_cookie_secure = (sym s.cookie_secure) i;
    foursquare_sync_lookback_days = cfg.foursquare_sync_lookback_days;
    foursquare_api_url = (sym s.api_url) i;
    foursquare_sync_interval = cfg.foursquare_sync_interval;
  }

  overlay-Filled :
      Filled overlay.base_url
      × Filled overlay.foursquare_client_id
      × Filled overlay.foursquare_client_secret
      × Filled overlay.foursquare_push_secret
  overlay-Filled =
      subst
        (λ c.
          Filled c.base_url
          × Filled c.foursquare_client_id
          × Filled c.foursquare_client_secret
          × Filled c.foursquare_push_secret)
        (sym overlay-eq) (s.base_url.1, s.client_id.1, s.client_secret.1, s.push_secret.1)

  good-eq :
      {A B : Type 0} (m : Outcome A) (a : A) (f : A → Outcome B) → m ≡ good a → on_good m f ≡ f a
  good-eq m a f h = ap (λ x. on_good x f) h

  pub stored : (path : String) → load std path (decoded file) ≡ good cfg
  unfolding load read_file plain_fields
  stored path =
      let (asked, a, high, low) = s.log_level in
      let (b, c, d, e) = overlay-Filled in
      good-eq _ _ _ (
        level-stored std file file.log_level (plain_fields file) cfg.log_level asked refl refl a
          high low)
      ∙ good-eq _ _ _ (
          zone-stored std file.timezone _
            (subst (λ t. std.known_location t ≡ true) s.timezone s.location))
      ∙ good-eq _ _ _ (minutes-given file.track_break_minutes _ cfg.track_break_minutes s.minutes)
      ∙ good-eq _ _ _ (lifetime-given std file.lifetime _ cfg.session_lifetime s.lifetime)
      ∙ good-eq _ _ _
          (days-given file.sync_lookback_days _ cfg.foursquare_sync_lookback_days s.days)
      ∙ good-eq _ _ _
          (interval-given std file.sync_interval _ cfg.foursquare_sync_interval s.interval)
      ∙ require-stored overlay b c d e
      ∙ ap good overlay-eq
