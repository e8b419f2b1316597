-- ===== src/Httpapi/Settings/Valid.antt =====
-- internal/httpapi/settings.go `validateMobileSettings`: what the settings in the table satisfy.
use travelmap.Base.{
  ℕ, ◌≤◌, ◌≡◌, true, ◌||◌, arith, refl, subst, Option, none, some, map, find, Bool-cases,
  Option-cases, inl, inr,
}
use travelmap.Base.Members.{In, In-find, of_In-map}
use travelmap.Base.Text.{same_text}
use travelmap.Model.{Time, User}
use travelmap.Model.Settings.{Settings as UserPrefs, default_settings}
use travelmap.Geo.{FloatOps}
use travelmap.Exec.{Env, World, Result, ok, err, statement}
use travelmap.Store.{Db}
use travelmap.Store.Settings
use travelmap.Store.Settings.{belongs, revised, revise_row, update_settings}
use travelmap.Httpapi.Dto.{MobileSettingsUpdate, SettingsUpdate}
use travelmap.Httpapi.Response.{Api, Handler}
use travelmap.Exec.Gives.{Gives, Gives-statement, Gives-now}
use travelmap.Httpapi.Keeps.{Keeps, Keeps-reply, Keeps-user, Keeps-body, Keeps-attempt}
use travelmap.Httpapi.Settings.{
  validate_mobile_settings, apply_mobile_settings_update, apply_settings_update, with_settings,
  store_mobile_settings, patch_mobile_settings, patch_settings,
}

-- The ranges of the API, read off its documentation.
pub record IsInRange (s : UserPrefs) : Type 0 where
  pub tracking_mode :
      (same_text s.tracking_mode "precise" || same_text s.tracking_mode "significant") ≡ true
  pub distance_filter : (1 ≤ s.distance_filter) × (s.distance_filter ≤ 10_000)
  pub time_filter : (1 ≤ s.time_filter) × (s.time_filter ≤ 3600)
  pub track_break : (1 ≤ s.track_break) × (s.track_break ≤ 1440)
  pub accuracy : (1 ≤ s.accuracy) × (s.accuracy ≤ 6)
  pub batch_size : (1 ≤ s.batch_size) × (s.batch_size ≤ 1000)

accepted-IsInRange : (s : UserPrefs) → validate_mobile_settings s ≡ none → IsInRange s
unfolding validate_mobile_settings
accepted-IsInRange s h = record {
  tracking_mode = ground (arith, h);
  distance_filter = ground (arith, h);
  time_filter = ground (arith, h);
  track_break = ground (arith, h);
  accuracy = ground (arith, h);
  batch_size = ground (arith, h);
}

IsInRange-accepted : (s : UserPrefs) → IsInRange s → validate_mobile_settings s ≡ none
unfolding validate_mobile_settings
IsInRange-accepted s r = ground (
  arith, r.tracking_mode, r.distance_filter, r.time_filter, r.track_break, r.accuracy, r.batch_size,
)

-- Every user's mobile settings are.
abbrev pub AreInRange : Db → Type 0
AreInRange db = (s : UserPrefs) → In s db.settings → IsInRange s

-- What the validation accepts.
abbrev MobileIsValid : Db → Type 0
MobileIsValid db = (s : UserPrefs) → In s db.settings → validate_mobile_settings s ≡ none

abbrev IsAccepted : Result UserPrefs → Type 0
IsAccepted (ok s) = validate_mobile_settings s ≡ none
IsAccepted (err e) = Unit

abbrev Anything : Result UserPrefs → Type 0
Anything r = Unit

get-IsAccepted : (user : ℕ) → Gives MobileIsValid IsAccepted (Settings.get user)
unfolding Settings.get
get-IsAccepted user = Gives-statement IsAccepted _ tt (λ d p.
    elim (Option-cases (find (belongs user) d.settings)) [
      | inl n ↦ rw n (tt, p)
      | inr (s, n) ↦ rw n (p s (In-find (belongs user) d.settings s n).0, p)
    ])

-- The times and the user are not looked at.
revised-accepted :
    (now : Time) (s old : UserPrefs)
    → validate_mobile_settings s ≡ none
    → validate_mobile_settings (revised now s old) ≡ none
unfolding validate_mobile_settings revised
revised-accepted now s old h = h

revise_row-accepted :
    (now : Time) (s old : UserPrefs)
    → validate_mobile_settings s ≡ none
    → validate_mobile_settings old ≡ none
    → validate_mobile_settings (revise_row now s old) ≡ none
revise_row-accepted now s old h k = elim (Bool-cases (belongs s.user_id old)) [
  | inl e ↦ rw e (revised-accepted now s old h)
  | inr e ↦ rw e k
]

rows-accepted :
    (now : Time) (s : UserPrefs) (db : Db)
    → validate_mobile_settings s ≡ none
    → MobileIsValid db
    → (row : UserPrefs) → In row (map (revise_row now s) db.settings)
    → validate_mobile_settings row ≡ none
rows-accepted now s db h p row i =
    let r = of_In-map (revise_row now s) db.settings row i in
    subst (λ x. validate_mobile_settings x ≡ none) r.image
      (revise_row-accepted now s r.origin h (p r.origin r.is_in))

update-Gives :
    (s : UserPrefs)
    → validate_mobile_settings s ≡ none
    → Gives MobileIsValid Anything (Settings.update s)
unfolding Settings.update
update-Gives s h =
    Gives-now Anything (λ now. statement (update_settings now s))
      (λ now. Gives-statement Anything (update_settings now s) tt (λ d p.
        elim (Option-cases (find (belongs s.user_id) d.settings)) [
          | inl n ↦ rw (n, update_settings) (tt, p)
          | inr (old, n) ↦ rw (n, update_settings) (tt, rows-accepted now s d h p)
        ]))

-- What the two kinds of update leave of the fields that are validated.
settings_update-accepted :
    (ops : FloatOps) (s : UserPrefs) (req : SettingsUpdate)
    → validate_mobile_settings s ≡ none
    → validate_mobile_settings (apply_settings_update ops s req) ≡ none
unfolding validate_mobile_settings apply_settings_update
settings_update-accepted ops s req h = h

module _ (api : Api) where
  with_settings-Keeps :
      (Q : Result UserPrefs → Type 0) (f : UserPrefs → Handler)
      → ((s : UserPrefs) → Q (ok s) → Keeps MobileIsValid (f s))
      → (r : Result UserPrefs) → Q r
      → Keeps MobileIsValid (with_settings api f r)
  with_settings-Keeps Q f h (ok s) q = h s q
  with_settings-Keeps Q f h (err e) q = Keeps-reply _

  store-Keeps :
      (s : UserPrefs) (o : Option _)
      → validate_mobile_settings s ≡ o
      → Keeps MobileIsValid (store_mobile_settings api s o)
  store-Keeps s (some message) h = Keeps-reply _
  store-Keeps s none h =
      Keeps-attempt Anything (Settings.update s) _ (update-Gives s h)
        (with_settings-Keeps Anything _ (λ x q. Keeps-reply _))

  patch_mobile_settings-Keeps :
      (caller : Option User) (body : Option MobileSettingsUpdate)
      → Keeps MobileIsValid (patch_mobile_settings api caller body)
  unfolding patch_mobile_settings
  patch_mobile_settings-Keeps caller body = Keeps-user api caller _ (λ user.
      Keeps-body api body _ (λ req.
        Keeps-attempt IsAccepted (Settings.get user.id) _ (get-IsAccepted user.id) (
          with_settings-Keeps IsAccepted _ (λ current q.
            store-Keeps (apply_mobile_settings_update current req)
              (validate_mobile_settings (apply_mobile_settings_update current req)) refl))))

  patch_settings-Keeps :
      (caller : Option User) (body : Option SettingsUpdate)
      → Keeps MobileIsValid (patch_settings api caller body)
  unfolding patch_settings
  patch_settings-Keeps caller body = Keeps-user api caller _ (λ user. Keeps-body api body _ (λ req.
      Keeps-attempt IsAccepted (Settings.get user.id) _ (get-IsAccepted user.id) (
        with_settings-Keeps IsAccepted _ (λ current q.
          Keeps-attempt Anything (Settings.update (apply_settings_update api.ops current req)) _
            (update-Gives _ (settings_update-accepted api.ops current req q))
            (with_settings-Keeps Anything _ (λ x r. Keeps-reply _))))))

  -- If every user's tracking mode is one of the two, and the distance filter, the time filter,
  -- the break, the accuracy and the batch size are in the ranges of the API, then they still
  -- are after a PATCH of the mobile or of the other settings by anyone, whatever the body is
  -- and whichever statements fail.
  pub patch-AreInRange :
      (caller : Option User) (env : Env) (w : World Db)
      → AreInRange w.db
      → ((body : Option MobileSettingsUpdate)
          → AreInRange (patch_mobile_settings api caller body env w).1.db)
        × ((body : Option SettingsUpdate) → AreInRange (patch_settings api caller body env w).1.db)
  patch-AreInRange caller env w p =
      let valid : MobileIsValid w.db = λ s i. IsInRange-accepted s (p s i) in
      (
        λ body s i.
            accepted-IsInRange s ((patch_mobile_settings-Keeps caller body).at env w valid s i),
        λ body s i. accepted-IsInRange s ((patch_settings-Keeps caller body).at env w valid s i),
      )

pub default_settings-IsInRange : (user : ℕ) → IsInRange (default_settings user)
unfolding default_settings same_text
default_settings-IsInRange user = record {
  tracking_mode = refl;
  distance_filter = omega arith;
  time_filter = omega arith;
  track_break = omega arith;
  accuracy = omega arith;
  batch_size = omega arith;
}
