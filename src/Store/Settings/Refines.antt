-- ===== src/Store/Settings/Refines.antt =====
-- internal/store/store.go `SettingsRepository`: each user has settings or none, and the table of
-- internal/store/sqlite/settings.go implements that.
use mathlib.Core.Option
use mathlib.Core.Path.{fun_ext}
use travelmap.Base.{
  ℕ, ◌*◌, ◌/◌, ◌≡◌, refl, ap, ◌∙◌, subst, Bool, true, false, Option, none, some, List, [], ◌∷◌,
  ◌++◌, map, any, find, if◌then◌else◌, ◌==◌, arith, Bool-cases, inl, inr,
}
use travelmap.Model.{Time, second}
use travelmap.Model.Settings.{Settings as UserPrefs}
use travelmap.Exec.{Result, ok, err, not_found, conflict, foreign_key}
use travelmap.Store.{Db, known_user, unix_time}
use travelmap.Store.Settings.{
  belongs, settings_row, insert_settings, revised, revise_row, update_settings,
}

-- The settings of every user.
abbrev pub SettingsMap : Type 0
SettingsMap = ℕ → Option UserPrefs

abbrev pub view : Db → SettingsMap
view db user = find (belongs user) db.settings

abbrev pub view_of : Result UserPrefs × Db → Result UserPrefs × SettingsMap
view_of (r, db) = (r, view db)

abbrev pub set : ℕ → Option UserPrefs → SettingsMap → SettingsMap
set user s m v = if v == user then s else m v

-- The settings with the times of a new row, in whole seconds.
abbrev pub entered : Time → UserPrefs → UserPrefs
entered now s = record s { created_at = now / second * second; updated_at = now / second * second }

-- The settings in the place of a row that was there.
abbrev pub replaced : Time → UserPrefs → UserPrefs → UserPrefs
replaced now s old = record s {
  user_id = old.user_id;
  created_at = old.created_at;
  updated_at = now / second * second;
}

-- What `Create` promises, for a user who exists or not.
abbrev pub create_in :
    Time → UserPrefs → Bool → Option UserPrefs → SettingsMap → Result UserPrefs × SettingsMap
create_in now s known (some old) m = (err conflict, m)
create_in now s true none m = (ok (entered now s), set s.user_id (some (entered now s)) m)
create_in now s false none m = (err foreign_key, m)

-- What `Update` promises.
abbrev pub update_in :
    Time → UserPrefs → Option UserPrefs → SettingsMap → Result UserPrefs × SettingsMap
update_in now s none m = (err not_found, m)
update_in now s (some old) m =
    (ok (replaced now s old), set s.user_id (some (replaced now s old)) m)

any_of_find :
    (user : ℕ) (ss : List UserPrefs) (s : UserPrefs)
    → find (belongs user) ss ≡ some s
    → any (belongs user) ss ≡ true
any_of_find user [] s h = cc
any_of_find user (x ∷ xs) s h = ground (arith, h, any_of_find user xs s)

not-any_of_find :
    (user : ℕ) (ss : List UserPrefs) → find (belongs user) ss ≡ none → any (belongs user) ss ≡ false
not-any_of_find user [] h = refl
not-any_of_find user (x ∷ xs) h = ground (arith, h, not-any_of_find user xs)

insert-find :
    (row : UserPrefs) (user v : ℕ) (ss : List UserPrefs)
    → row.user_id ≡ user
    → find (belongs user) ss ≡ none
    → find (belongs v) (ss ++ row ∷ []) ≡ (if v == user then some row else find (belongs v) ss)
insert-find row user v [] e h = ground (arith, e)
insert-find row user v (x ∷ xs) e h = ground (arith, e, h, insert-find row user v xs e)

revise-find :
    (now : Time) (s : UserPrefs) (v : ℕ) (ss : List UserPrefs)
    → find (belongs v) (map (revise_row now s) ss) ≡ (
        if v == s.user_id
        then Option.map (revised now s) (find (belongs v) ss)
        else find (belongs v) ss)
unfolding revised
revise-find now s v [] = ground arith
revise-find now s v (x ∷ xs) = elim (Bool-cases (x.user_id == s.user_id)) [
  | inl e ↦ rw e (ground (arith, e, revise-find now s v xs))
  | inr e ↦ rw e (ground (arith, e, revise-find now s v xs))
]

same_user :
    (v user : ℕ) (ss : List UserPrefs) (o : Option UserPrefs)
    → find (belongs user) ss ≡ o
    → (v == user) ≡ true
    → find (belongs v) ss ≡ o
same_user v user ss o h e = subst (λ u. find (belongs u) ss ≡ o) (ground (arith, e)) h

module _ (now : Time) (s : UserPrefs) (db : Db) where
  update-view :
      (o : Option UserPrefs)
      → view db s.user_id ≡ o
      → view_of (update_settings now s db) ≡ update_in now s o (view db)
  unfolding update_settings revised unix_time
  update-view none h = rw (h, update_settings) refl
  update-view (some old) h =
      rw (h, update_settings)
        (ap (λ m. (ok (revised now s old), m))
          (fun_ext λ v. revise-find now s v db.settings ∙ at v))
    where
      at :
          (v : ℕ)
          → (if v == s.user_id
              then Option.map (revised now s) (find (belongs v) db.settings)
              else find (belongs v) db.settings)
            ≡ set s.user_id (some (revised now s old)) (view db) v
      at v = elim (Bool-cases (v == s.user_id)) [
        | inl e ↦ rw (e, same_user v s.user_id db.settings (some old) h e) refl
        | inr e ↦ rw e refl
      ]

  create-view :
      (o : Option UserPrefs)
      → view db s.user_id ≡ o
      → view_of (insert_settings now s db) ≡ create_in now s (known_user db s.user_id) o (view db)
  unfolding insert_settings settings_row unix_time
  create-view (some old) h = rw (any_of_find s.user_id db.settings old h) refl
  create-view none h =
      rw (not-any_of_find s.user_id db.settings h) (known (known_user db s.user_id))
    where
      known :
          (k : Bool)
          → view_of (
              if k
              then (
                ok (settings_row now s),
                record db { settings = db.settings ++ settings_row now s ∷ [] },
              )
              else (err foreign_key, db))
            ≡ create_in now s k none (view db)
      known true =
          ap (λ m. (ok (settings_row now s), m))
            (fun_ext λ v. insert-find (settings_row now s) s.user_id v db.settings refl h)
      known false = refl

  -- On any table, the INSERT and the UPDATE of settings do and answer what they do on a map
  -- from users to settings: Create adds the row of a user who has none and exists, and refuses
  -- otherwise; Update replaces the row of a user who has one, but for its user and its time of
  -- creation.
  pub settings-Refines :
      (view_of (insert_settings now s db)
        ≡ create_in now s (known_user db s.user_id) (view db s.user_id) (view db))
      × (view_of (update_settings now s db) ≡ update_in now s (view db s.user_id) (view db))
  settings-Refines = (create-view (view db s.user_id) refl, update-view (view db s.user_id) refl)
