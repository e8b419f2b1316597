-- ===== src/Httpapi/Accounts/SignIn.antt =====
-- internal/httpapi/login.go and api_session.go: who can sign in.
use travelmap.Base.{ℕ, ◌≡◌, refl, ◌∙◌, String, Bool, Option, none, some, find}
use travelmap.Base.Text.{same_nocase}
use travelmap.Model.{User}
use travelmap.Exec.{Env, World}
use travelmap.Exec.Ensures.{Healthy}
use travelmap.Store.{Db}
use travelmap.Store.Users
use travelmap.Auth.{
  Outside, PasswordCheck, matches, mismatch, broken, check_password, normalize_email,
}
use travelmap.Httpapi.Dto.{LoginRequest}
use travelmap.Httpapi.Response.{
  Api, Response, Handler, reply, write_json, write_error, write_header, with_body,
}
use travelmap.Httpapi.Authenticate.Caller.{found, stepped, one-healthy}
use travelmap.Httpapi.Accounts.{
  auth_failed_message, login_failed, login_body, password_checked, user_found, address_read, login,
  start_session, create_session,
}

-- The user, if the password is the user's.
abbrev pub if_matches : PasswordCheck → User → Option User
if_matches matches user = some user
if_matches mismatch user = none
if_matches broken user = none

abbrev pub checked : Outside → String → Option User → Option User
checked o password none = none
checked o password (some user) = if_matches (check_password o user.password_hash password) user

-- The user whom an address, as it was typed, and a password name.
abbrev pub named : Outside → String → Option String → Db → Option User
named o password none db = none
named o password (some address) db =
    checked o password (find (λ (u : User). same_nocase u.email address) db.users)

abbrev pub user_of : Outside → LoginRequest → Db → Option User
user_of o req db = named o req.password (normalize_email o req.email) db

-- One answer for a user, and one for everything else.
abbrev pub welcomed : (User → Handler) → Response → Option User → Handler
welcomed welcome refusal none = reply refusal
welcomed welcome refusal (some user) = welcome user

-- The handler is run on the same database.
abbrev pub RunsAs : Handler → Env → World Db → Response × World Db → Type 0
RunsAs h env w r = (n : ℕ) × (r ≡ h env (record w { steps = n }))

module _ (api : Api) (o : Outside) (password : String) (welcome : User → Handler)
    (refusal : Response) (env : Env) where
  password_checked-eq :
      (user : User) (c : PasswordCheck) (w : World Db)
      → password_checked welcome refusal user c env w
        ≡ welcomed welcome refusal (if_matches c user) env w
  password_checked-eq user matches w = refl
  password_checked-eq user mismatch w = refl
  password_checked-eq user broken w = refl

  user_found-eq :
      (u : Option User) (w : World Db)
      → user_found api o password welcome refusal (found Bool.false u) env w
        ≡ welcomed welcome refusal (checked o password u) env w
  user_found-eq none w = refl
  user_found-eq (some user) w =
      password_checked-eq user (check_password o user.password_hash password) w

  address_read-RunsAs :
      Healthy env
      → (address : Option String) (w : World Db)
      → RunsAs
          (welcomed welcome refusal (named o password address w.db))
          env
          w
          (address_read api o password welcome refusal address env w)
  unfolding Users.by_email
  address_read-RunsAs healthy none w = (w.steps, refl)
  address_read-RunsAs healthy (some address) w = (
    (stepped w).steps,
    one-healthy env healthy (λ u. same_nocase u.email address)
          (user_found api o password welcome refusal) w _ refl
        ∙ user_found-eq (find (λ (u : User). same_nocase u.email address) w.db.users) (stepped w),
  )

module _ (api : Api) (o : Outside) (env : Env) (healthy : Healthy env) (w : World Db)
    (req : LoginRequest) where
  -- Where no statement fails, both ways to sign in welcome the user whose address the request
  -- names, if the password is that user's, and give everything else, an address that is none,
  -- one without an account and a wrong password, the same answer; the database is as it was.
  pub login-RunsAs :
      ((renewed : Bool)
        → RunsAs
            (welcomed
              (λ user. start_session api renewed user (write_header 201))
              (write_error api 401 auth_failed_message)
              (user_of o req w.db))
            env
            w
            (create_session api o renewed (some req) env w))
      × RunsAs
          (welcomed
            (λ user. reply (write_json api 200 (login_body user)))
            (login_failed api)
            (user_of o req w.db))
          env
          w
          (login api o (some req) env w)
  unfolding login create_session with_body
  login-RunsAs = (
    λ renewed.
        address_read-RunsAs api o req.password
          (λ user. start_session api renewed user (write_header 201))
          (write_error api 401 auth_failed_message) env healthy (normalize_email o req.email) w,
    address_read-RunsAs api o req.password (λ user. reply (write_json api 200 (login_body user)))
        (login_failed api) env healthy (normalize_email o req.email) w,
  )
