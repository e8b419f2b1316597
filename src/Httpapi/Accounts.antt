-- ===== src/Httpapi/Accounts.antt =====
-- internal/httpapi/login.go, api_session.go and api_users.go: signing in, out and up.
mod Tests
pub mod SignIn
pub mod SignUp
use Prim.Native.String.{len}
use travelmap.Base.{ℕ, String, Bool, Option, none, some, if◌then◌else◌, ltb}
use travelmap.Base.Text.{same_text}
use travelmap.Model.{User}
use travelmap.Exec.{Result, ok, err, Error, not_found, conflict}
use travelmap.Store.Users
use travelmap.Auth.{
  Outside, PasswordCheck, matches, mismatch, broken, check_password, normalize_email, register,
  min_password_length, max_password_length,
}
use travelmap.Httpapi.Dto.{LoginRequest, Login, CreateUserRequest, Body}
use travelmap.Httpapi.Response.{
  Api, Response, SessionChange, Handler, reply, attempt, write_json, write_error, write_header,
  server_error, with_body,
}

abbrev pub auth_failed_message : String
auth_failed_message = "Invalid email or password"

unfoldable pub write_auth_failed : Api → Response
unfolding write_json
write_auth_failed api = write_json api 401 (Body.auth_error auth_failed_message)

-- `loginFailed`: the comparison for the sake of its time changes nothing.
unfoldable pub login_failed : Api → Response
unfolding write_auth_failed
login_failed api = write_auth_failed api

unfoldable pub login_body : User → Body
login_body user = Body.login (record {
  user_id = user.id;
  email = user.email;
  api_key = user.api_key;
  status = "active";
  plan = "pro";
  subscription_source = "none";
  active_until = "9999-12-31T23:59:59Z";
})

-- The user whose address this is, and whose password: what a failure and a success answer.
abbrev pub password_checked : (User → Handler) → Response → User → PasswordCheck → Handler
password_checked welcome refusal user matches = welcome user
password_checked welcome refusal user mismatch = reply refusal
password_checked welcome refusal user broken = reply refusal

abbrev pub user_found : Api → Outside → String → (User → Handler) → Response → Result User → Handler
user_found api o password welcome refusal (ok user) =
    password_checked welcome refusal user (check_password o user.password_hash password)
user_found api o password welcome refusal (err not_found) = reply refusal
user_found api o password welcome refusal (err e) = reply (server_error api)

abbrev pub address_read :
    Api → Outside → String → (User → Handler) → Response → Option String → Handler
address_read api o password welcome refusal none = reply refusal
address_read api o password welcome refusal (some address) =
    attempt (Users.by_email address) (user_found api o password welcome refusal)

unfoldable pub login : Api → Outside → Option LoginRequest → Handler
unfolding with_body attempt normalize_email check_password login_failed login_body write_json
    server_error
login api o body = with_body api body λ req.
    address_read api o req.password (λ user. reply (write_json api 200 (login_body user)))
      (login_failed api) (normalize_email o req.email)

-- `startSession`: whether the session manager could renew the token.
unfoldable pub start_session : Api → Bool → User → Response → Handler
unfolding server_error
start_session api renewed user r =
    if renewed
    then reply (record r { session = SessionChange.started user.id })
    else reply (server_error api)

unfoldable pub create_session : Api → Outside → Bool → Option LoginRequest → Handler
unfolding with_body attempt normalize_email check_password start_session write_header write_error
    server_error
create_session api o renewed body = with_body api body λ req.
    address_read api o req.password (λ user. start_session api renewed user (write_header 201))
      (write_error api 401 auth_failed_message) (normalize_email o req.email)

-- Whether the session manager could destroy the session.
unfoldable pub delete_session : Api → Bool → Handler
unfolding write_header server_error
delete_session api deleted =
    if deleted
    then reply (record (write_header 204) { session = SessionChange.destroyed })
    else reply (server_error api)

-- Empty for a password that is accepted; the length is in bytes.
unfoldable pub password_length_error : String → String
password_length_error password =
    if ltb (len password) min_password_length
    then "must be at least 8 bytes"
    else if ltb max_password_length (len password)
    then "must be at most 72 bytes, which is what bcrypt hashes"
    else ""

-- The three messages of `dto.CreateUserError`, those that are empty being left out.
unfoldable pub refuse_user : Api → String → String → String → Response
unfolding write_json
refuse_user api email password confirm =
    write_json api 422 (Body.user_refused email password confirm)

abbrev pub registered : Api → Bool → Result User → Handler
registered api renewed (ok user) =
    start_session api renewed user (write_json api 201 (Body.user_created user.api_key))
registered api renewed (err conflict) = reply (refuse_user api "already registered" "" "")
registered api renewed (err e) = reply (server_error api)

abbrev pub sign_up : Api → Outside → Bool → CreateUserRequest → Option String → Handler
sign_up api o renewed req none = reply (refuse_user api "not a valid email address" "" "")
sign_up api o renewed req (some address) =
    let length_error = password_length_error req.password in
    let go = attempt (register o address req.password) (registered api renewed) in
    if same_text length_error ""
    then (if same_text req.password req.password_confirmation
        then go
        else reply (refuse_user api "" "" "does not match the password"))
    else reply (refuse_user api "" length_error "")

unfoldable pub create_user : Api → Outside → Bool → Option CreateUserRequest → Handler
unfolding with_body attempt normalize_email register start_session password_length_error refuse_user
    write_json server_error
create_user api o renewed body =
    with_body api body λ req. sign_up api o renewed req (normalize_email o req.email)
