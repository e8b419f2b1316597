-- ===== src/Httpapi/Settings/Patched.antt =====
-- internal/httpapi/settings.go: what a PATCH of the mobile settings answers, and the GET after it.
use travelmap.Base.{ℕ, suc, ◌≡◌, refl, sym, ap, ◌∙◌, subst, String, Option, none, some, arith}
use travelmap.Base.Members.{In-find}
use travelmap.Model.{Time, User}
use travelmap.Model.Settings.{Settings as UserPrefs}
use travelmap.Exec.{Env, World, Result, ok, outside}
use travelmap.Exec.Ensures.{Healthy}
use travelmap.Store.{Db}
use travelmap.Store.Settings
use travelmap.Store.Settings.{belongs, revised, update_settings}
use travelmap.Store.Settings.Refines.{view, set, update_in, settings-Refines}
use travelmap.Httpapi.Dto.{MobileSettingsUpdate}
use travelmap.Httpapi.Response.{
  Api, Response, Handler, reply, attempt, write_json, write_error, as_user, with_body,
}
use travelmap.Httpapi.Keeps.{attempt-statement}
use travelmap.Httpapi.Settings.{
  apply_mobile_settings_update, validate_mobile_settings, mobile_envelope, with_settings,
  store_mobile_settings, get_mobile_settings, patch_mobile_settings,
}

-- The world after a statement that left this database.
abbrev after : World Db → Db → World Db
after w db = record w { db = db; steps = suc w.steps }

module _ (env : Env) (healthy : Healthy env) where
  get-eq :
      (k : Result UserPrefs → Handler) (user : ℕ) (w : World Db) (s : UserPrefs)
      → view w.db user ≡ some s
      → attempt (Settings.get user) k env w ≡ k (ok s) env (after w w.db)
  unfolding Settings.get
  get-eq k user w s h = attempt-statement _ k env w healthy ∙ rw h refl

  update-eq :
      (k : Result UserPrefs → Handler) (s old : UserPrefs) (w : World Db)
      → view w.db s.user_id ≡ some old
      → attempt (Settings.update s) k env w
        ≡ k
            (ok (revised (env.now w.steps) s old))
            env
            (after w (update_settings (env.now w.steps) s w.db).1)
  unfolding Settings.update attempt
  update-eq k s old w h =
      attempt-statement (update_settings (env.now w.steps) s) k env w healthy
      ∙ ap (λ r. k r env (after w (update_settings (env.now w.steps) s w.db).1))
          (ap (λ (x : Result UserPrefs × _). x.0)
            ((settings-Refines (env.now w.steps) s w.db).1
              ∙ ap (λ o. update_in (env.now w.steps) s o (view w.db)) h))

  -- The settings that the user has now.
  updated-view :
      (now : Time) (s old : UserPrefs) (db : Db)
      → view db s.user_id ≡ some old
      → view (update_settings now s db).1 ≡ set s.user_id (some (revised now s old)) (view db)
  unfolding revised
  updated-view now s old db h =
      ap (λ (x : Result UserPrefs × _). x.1)
        ((settings-Refines now s db).1 ∙ ap (λ o. update_in now s o (view db)) h)

view-user_id : (db : Db) (user : ℕ) (s : UserPrefs) → view db user ≡ some s → s.user_id ≡ user
view-user_id db user s h = ground (arith, (In-find (belongs user) db.settings s h).1)

set_self : (user : ℕ) (s : UserPrefs) (m : ℕ → Option UserPrefs) → set user (some s) m user ≡ some s
set_self user s m = ground arith

module _ (api : Api) (user : User) where
  get_mobile_settings-eq :
      (env : Env) (db : Db) (s : UserPrefs)
      → Healthy env
      → view db user.id ≡ some s
      → (get_mobile_settings api (some user) env (outside db)).0
        ≡ write_json api 200 (mobile_envelope api s "")
  unfolding get_mobile_settings as_user
  get_mobile_settings-eq env db s healthy h =
      ap (λ (x : Response × World Db). x.0)
        (get-eq env healthy
          (with_settings api λ s. reply (write_json api 200 (mobile_envelope api s ""))) user.id
          (outside db) s h)

  module _ (current updated : UserPrefs) where
    -- What PATCH answers and leaves, by the message of the validation.
    abbrev pub Patched : World Db → Option String → Response × World Db → Type 0
    Patched w (some message) (r, w') = (r ≡ write_error api 422 message) × (w'.db ≡ w.db)
    Patched w none (r, w') =
        (now : Time) × (r
          ≡ write_json api 200
              (mobile_envelope api (revised now updated current) "Settings updated"))
        × (view w'.db ≡ set user.id (some (revised now updated current)) (view w.db))
        × ((later : Env)
            → Healthy later
            → (get_mobile_settings api (some user) later (outside w'.db)).0
              ≡ write_json api 200 (mobile_envelope api (revised now updated current) ""))

    store-Patched :
        (env : Env) (w : World Db) (o : Option String)
        → Healthy env
        → view w.db user.id ≡ some current
        → updated.user_id ≡ user.id
        → Patched w o (store_mobile_settings api updated o env w)
    store-Patched env w (some message) healthy h own = (refl, refl)
    store-Patched env w none healthy h own =
        let now = env.now w.steps in
        let there : view w.db updated.user_id ≡ some current = ap (view w.db) own ∙ h in
        let stored : view (update_settings now updated w.db).1
            ≡ set user.id (some (revised now updated current)) (view w.db) =
          updated-view env healthy now updated current w.db there
          ∙ ap (λ u. set u (some (revised now updated current)) (view w.db)) own in
        subst (Patched w none)
          (sym (
            update-eq env healthy
              (with_settings api
                λ s. reply (write_json api 200 (mobile_envelope api s "Settings updated")))
              updated current w there))
          (
            now,
            refl,
            stored,
            λ later healthy'.
                get_mobile_settings-eq later _ (revised now updated current) healthy' (
                  ap (λ m. m user.id) stored
                  ∙ set_self user.id (revised now updated current) (view w.db)),
          )

  updated-user_id :
      (current : UserPrefs) (req : MobileSettingsUpdate)
      → (apply_mobile_settings_update current req).user_id ≡ current.user_id
  unfolding apply_mobile_settings_update
  updated-user_id current req = refl

  -- Where no statement fails and the user has settings, a PATCH of the mobile settings that
  -- the validation refuses answers 422 with its message and leaves the database as it was; one
  -- that it accepts answers 200 with the stored settings, changes no other user's, and a GET
  -- after it answers the same settings.
  pub patch_mobile_settings-Patched :
      (env : Env)
      → Healthy env
      → (w : World Db) (current : UserPrefs) → view w.db user.id ≡ some current
      → (req : MobileSettingsUpdate)
      → Patched current
          (apply_mobile_settings_update current req)
          w
          (validate_mobile_settings (apply_mobile_settings_update current req))
          (patch_mobile_settings api (some user) (some req) env w)
  unfolding patch_mobile_settings as_user with_body
  patch_mobile_settings-Patched env healthy w current h req =
      let updated = apply_mobile_settings_update current req in
      subst (Patched current updated w (validate_mobile_settings updated))
        (sym (
          get-eq env healthy
            (with_settings api λ c.
              store_mobile_settings api (apply_mobile_settings_update c req)
                (validate_mobile_settings (apply_mobile_settings_update c req)))
            user.id w current h))
        (store-Patched current updated env (after w w.db) (validate_mobile_settings updated) healthy
          h (updated-user_id current req ∙ view-user_id w.db user.id current h))
