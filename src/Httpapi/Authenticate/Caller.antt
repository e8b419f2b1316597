-- ===== src/Httpapi/Authenticate/Caller.antt =====
-- internal/httpapi/auth.go: who the caller is by the table of users, and what a request without a
-- caller gets.
use travelmap.Base.{
  ℕ, suc, ◌≡◌, refl, sym, ap, ◌∙◌, subst, String, Bool, true, false, inl, inr, Option, none, some,
  find, if◌then◌else◌, ◌==◌, Bool-cases,
}
use travelmap.Base.Text.{same_text}
use travelmap.Model.{User}
use travelmap.Exec.{Env, World, Result, ok, err, not_found, failed, statement}
use travelmap.Exec.Ensures.{Healthy}
use travelmap.Store.{Db}
use travelmap.Store.Users
use travelmap.Httpapi.Response.{Api, Response, Handler, attempt}
use travelmap.Httpapi.Authenticate.{
  Unicode, Credentials, api_key_from, session_result, with_session_user, auth_failed,
  authenticate_by_session, key_result, authenticate,
}

abbrev pub found : Bool → Option User → Result User
found true o = err failed
found false none = err not_found
found false (some user) = ok user

abbrev pub stepped : World Db → World Db
stepped w = record w { steps = suc w.steps }

-- The query of `one`.
abbrev lookup : Option User → Db → Result User × Db
lookup o db = elim o as (λ x. Result User × Db) [ none ↦ (err not_found, db) | some u ↦ (ok u, db) ]

lookup-found : (o : Option User) (db : Db) → lookup o db ≡ (found false o, db)
lookup-found none db = refl
lookup-found (some u) db = refl

pub one-eq :
    (matches : User → Bool) (k : Result User → Handler) (env : Env) (w : World Db)
    → attempt (Users.one matches) k env w
      ≡ k (found (env.fails w.steps) (find matches w.db.users)) env (stepped w)
unfolding Users.one attempt statement
one-eq matches k env w = elim (Bool-cases (env.fails w.steps)) [
  | inl e ↦ rw e refl
  | inr e ↦ rw e (
      ap (λ (x : Result User × Db). k x.0 env (record w { db = x.1; steps = suc w.steps }))
        (lookup-found (find matches w.db.users) w.db))
]

-- The user of the session, if there is one.
abbrev pub by_session : ℕ → Db → Option User
by_session id db = if id == 0 then none else find (λ (u : User). u.id == id) db.users

abbrev pub or_else : Option User → Option User → Option User
or_else none other = other
or_else (some user) other = some user

-- The user of the key, if there is a key.
abbrev pub by_key : String → Db → Option User
by_key key db =
    if same_text key "" then none else find (λ (u : User). same_text u.api_key key) db.users

-- The caller by the key, or else by the session.
abbrev pub caller_of : Unicode → Credentials → Db → Option User
caller_of u c db =
    or_else (by_key (api_key_from u c.query_key c.authorization) db) (by_session c.session_user db)

module _ (env : Env) (healthy : Healthy env) where
  pub one-healthy :
      (matches : User → Bool) (k : Result User → Handler) (w : World Db) (o : Option User)
      → find matches w.db.users ≡ o
      → attempt (Users.one matches) k env w ≡ k (found false o) env (stepped w)
  one-healthy matches k w o h =
      one-eq matches k env w
      ∙ ap (λ r. k r env (stepped w))
          (ap (λ b. found b (find matches w.db.users)) (healthy.never w.steps) ∙ ap (found false) h)

-- The handler is run for this caller, on this database.
abbrev pub RunsFor :
    (Option User → Handler) → Option User → Env → World Db → Response × World Db → Type 0
RunsFor next caller env w r = (n : ℕ) × (r ≡ next caller env (record w { steps = n }))

module _ (api : Api) (next : Option User → Handler) (env : Env) where
  session_result-eq :
      (otherwise : Handler) (o : Option User) (w : World Db)
      → session_result next otherwise (found false o) env w ≡ next o env w
  session_result-eq otherwise none w = refl
  session_result-eq otherwise (some user) w = refl

  module _ (healthy : Healthy env) where
    session-RunsFor :
        (otherwise : Handler) (id : ℕ) (w : World Db)
        → RunsFor next (by_session id w.db) env w (with_session_user otherwise id next env w)
    unfolding with_session_user Users.by_id
    session-RunsFor otherwise id w = elim (Bool-cases (id == 0)) [
      | inl e ↦ rw e (w.steps, refl)
      | inr e ↦ rw e (
        suc w.steps,
        one-healthy env healthy (λ u. u.id == id) (session_result next otherwise) w _ refl
            ∙ session_result-eq otherwise (find (λ (u : User). u.id == id) w.db.users) (stepped w),
      )
    ]

    key-RunsFor :
        (id : ℕ) (o : Option User) (w : World Db)
        → RunsFor next
            (or_else o (by_session id w.db))
            env
            w
            (key_result api id next (found false o) env w)
    unfolding authenticate_by_session
    key-RunsFor id none w = session-RunsFor (auth_failed api) id w
    key-RunsFor id (some user) w = (w.steps, refl)

    -- Where no statement fails, authenticate runs the handler, on the database as it was, for
    -- the user of the request's key, or else for the user of its session, or else for nobody.
    pub authenticate-RunsFor :
        (u : Unicode) (c : Credentials) (w : World Db)
        → RunsFor next (caller_of u c w.db) env w (authenticate api u c next env w)
    unfolding authenticate authenticate_by_session Users.by_api_key
    authenticate-RunsFor u c w =
        let key = api_key_from u c.query_key c.authorization in
        elim (Bool-cases (same_text key "")) [
          | inl e ↦ rw e (session-RunsFor (auth_failed api) c.session_user w)
          | inr e ↦ rw e (
              subst
                (RunsFor next (or_else (find _ w.db.users) (by_session c.session_user w.db)) env w)
                (sym (
                  one-healthy env healthy (λ x. same_text x.api_key key)
                    (key_result api c.session_user next) w _ refl))
                (key-RunsFor c.session_user
                  (find (λ (x : User). same_text x.api_key key) w.db.users) (stepped w)))
        ]
