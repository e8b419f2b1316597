-- ===== src/Httpapi/Authenticate/Refused.antt =====
-- internal/httpapi/auth.go and router.go: a request without a caller, on a route that wants one.
use travelmap.Base.{
  ℕ, ◌≡◌, refl, sym, ap, ◌∙◌, subst, Bool, true, false, ◌⊎◌, inl, inr, Option, none, some, find,
  ◌==◌, Bool-cases,
}
use travelmap.Base.Text.{same_text}
use travelmap.Model.{User}
use travelmap.Exec.{Env, World, Result}
use travelmap.Store.{Db}
use travelmap.Store.Users
use travelmap.Httpapi.Response.{
  Api, Response, Handler, reply, attempt, write_json, write_error, server_error,
}
use travelmap.Httpapi.Dto.{Body}
use travelmap.Httpapi.Authenticate.{
  Unicode, Credentials, api_key_from, set_dawarich_headers, dawarich_headers, require_user,
  session_result, with_session_user, auth_failed, authenticate_by_session, key_result, authenticate,
  protected,
}
use travelmap.Httpapi.Authenticate.Caller.{
  found, stepped, one-eq, by_session, by_key, or_else, caller_of,
}

-- The response is 401 or 500, and the database is as it was.
pub record Refused (w : World Db) (r : Response × World Db) : Type 0 where
  pub status : (r.0.status ≡ 401) ⊎ (r.0.status ≡ 500)
  pub kept : r.1.db ≡ w.db

server_error-status : (api : Api) → (server_error api).status ≡ 500
unfolding server_error write_error write_json
server_error-status api =
    elim (Bool-cases (api.std.encodes (Body.failure "internal server error"))) [
      | inl e ↦ rw e refl
      | inr e ↦ rw e refl
    ]

module _ (api : Api) (next : Option User → Handler) (env : Env)
    (refused : (w : World Db) → Refused w (next none env w)) where
  auth_failed-Refused : (w : World Db) → Refused w (auth_failed api env w)
  unfolding set_dawarich_headers
  auth_failed-Refused w = record { status = inr (server_error-status api); kept = refl }

  session_result-Refused :
      (b : Bool) (w : World Db)
      → Refused w (session_result next (auth_failed api) (found b none) env w)
  session_result-Refused true w = auth_failed-Refused w
  session_result-Refused false w = refused w

  lookup-Refused :
      (matches : User → Bool) (k : Result User → Handler) (w : World Db)
      → find matches w.db.users ≡ none
      → ((b : Bool) (v : World Db) → v.db ≡ w.db → Refused v (k (found b none) env v))
      → Refused w (attempt (Users.one matches) k env w)
  lookup-Refused matches k w n h =
      let r = h (env.fails w.steps) (stepped w) refl in
      subst (Refused w)
        (sym (one-eq matches k env w ∙ ap (λ o. k (found (env.fails w.steps) o) env (stepped w)) n))
        (record { status = r.status; kept = r.kept })

  session-Refused :
      (id : ℕ) (w : World Db)
      → by_session id w.db ≡ none
      → Refused w (with_session_user (auth_failed api) id next env w)
  unfolding with_session_user Users.by_id
  session-Refused id w n = elim (Bool-cases (id == 0)) [
    | inl e ↦ rw e (refused w)
    | inr e ↦ rw e (
        lookup-Refused (λ u. u.id == id) (session_result next (auth_failed api)) w (rw e at n)
          (λ b v _. session_result-Refused b v))
  ]

  or_else-none : (o p : Option User) → or_else o p ≡ none → (o ≡ none) × (p ≡ none)
  or_else-none none p h = (refl, h)
  or_else-none (some x) p h = cc

  key_result-Refused :
      (id : ℕ) (b : Bool) (w : World Db)
      → by_session id w.db ≡ none
      → Refused w (key_result api id next (found b none) env w)
  unfolding authenticate_by_session
  key_result-Refused id true w n = auth_failed-Refused w
  key_result-Refused id false w n = session-Refused id w n

  authenticate-Refused :
      (u : Unicode) (c : Credentials) (w : World Db)
      → caller_of u c w.db ≡ none
      → Refused w (authenticate api u c next env w)
  unfolding authenticate authenticate_by_session Users.by_api_key
  authenticate-Refused u c w n =
      let key = api_key_from u c.query_key c.authorization in
      let (no_key, no_session) =
        or_else-none (by_key key w.db) (by_session c.session_user w.db) n in
      elim (Bool-cases (same_text key "")) [
        | inl e ↦ rw e (session-Refused c.session_user w no_session)
        | inr e ↦ rw e (
            lookup-Refused (λ x. same_text x.api_key key) (key_result api c.session_user next) w
              (rw e at no_key)
              (λ b v same.
                key_result-Refused c.session_user b v
                  (ap (by_session c.session_user) same ∙ no_session)))
      ]

require_user-Refused :
    (next : Option User → Handler) (env : Env) (w : World Db)
    → Refused w (dawarich_headers (require_user next) none env w)
unfolding dawarich_headers require_user set_dawarich_headers travelmap.Httpapi.Response.write_header
require_user-Refused next env w = record { status = inl refl; kept = refl }

-- Whichever statements fail, a request whose key names no user and whose session names none is
-- answered with 401 or 500 on every route that wants a user, and the database is as it was.
pub protected-Refused :
    (api : Api) (u : Unicode) (c : Credentials) (next : Option User → Handler) (env : Env)
    (w : World Db)
    → caller_of u c w.db ≡ none
    → Refused w (protected api u c next env w)
unfolding protected
protected-Refused api u c next env w n =
    authenticate-Refused api (dawarich_headers (require_user next)) env
      (require_user-Refused next env) u c w n
