-- ===== src/Httpapi/Accounts/Tests.antt =====
-- internal/httpapi: callers, signing in and up, and states, at concrete requests.
use Prim.Native.Char.{code}
use Prim.Native.String.{char_at}
use travelmap.Base.{ℕ, ◌==◌, ◌≡◌, refl, String, Bool, true, false, Option, none, some, [], ◌∷◌, ◌*◌}
use travelmap.Base.Text.{same_text, same_nocase, append}
use travelmap.Model.{User, DailyStat, second}
use travelmap.Exec.{outside}
use travelmap.Auth.{matches, hex}
use travelmap.Auth.Tests.{
  plain, vacant, vacant-IsWellFormed, key_issued, address_read, password_hashed, unclaimed,
}
use travelmap.Httpapi.Dto.{LoginRequest, CreateUserRequest}
use travelmap.Httpapi.Response.{Handler, reply, write_header, write_json, write_error}
use travelmap.Httpapi.Tests.{std, api}
use travelmap.Httpapi.Authenticate.{
  Unicode, Credentials, authenticate, protected, has_space, bearer_token,
}
use travelmap.Httpapi.Authenticate.Bearer.{bearer_token-append}
use travelmap.Httpapi.Authenticate.Caller.{RunsFor, caller_of, authenticate-RunsFor}
use travelmap.Httpapi.Authenticate.Refused.{Refused, protected-Refused}
use travelmap.Httpapi.OauthState.{new_state}
use travelmap.Httpapi.OauthState.Once.{IsGoodOnce, new_state-IsGoodOnce}
use travelmap.Httpapi.Accounts.{
  auth_failed_message, login_failed, login_body, start_session, create_session, login, create_user,
}
use travelmap.Httpapi.Accounts.SignIn.{RunsAs, welcomed, user_of, login-RunsAs}
use travelmap.Httpapi.Accounts.SignUp.{SignedUp, create_user-SignedUp}
use travelmap.Httpapi.Stats.{tracked_months_to_dto}
use travelmap.Httpapi.Stats.Months.{Lists, tracked_months_to_dto-Lists}
use travelmap.Fixture.{env, env-Healthy, empty}

abbrev ascii : Unicode
ascii = record { is_space = λ c. code c == 32; equal_fold = same_nocase }

no_space_scheme : has_space ascii "BEARER" ≡ false
unfolding has_space
no_space_scheme = refl

no_space_token : has_space ascii "k1" ≡ false
unfolding has_space
no_space_token = refl

folded : same_nocase "BEARER" "bearer" ≡ true
unfolding same_nocase
folded = refl

bearer_token-append_example :
    bearer_token ascii (append "BEARER" (String.◌∷◌ (char_at " " 0) "k1")) ≡ "k1"
bearer_token-append_example =
    bearer_token-append ascii "BEARER" "k1" (char_at " " 0) no_space_scheme folded refl
      no_space_token

abbrev hello : Option User → Handler
hello caller = reply (write_header 200)

abbrev by_session_1 : Credentials
by_session_1 = record { query_key = ""; authorization = ""; session_user = 1 }

abbrev by_wrong_key : Credentials
by_wrong_key = record { query_key = "nope"; authorization = ""; session_user = 0 }

authenticate-RunsFor_example :
    RunsFor hello
      (caller_of ascii by_session_1 empty)
      env
      (outside empty)
      (authenticate api ascii by_session_1 hello env (outside empty))
authenticate-RunsFor_example =
    authenticate-RunsFor api hello env env-Healthy ascii by_session_1 (outside empty)

nobody : caller_of ascii by_wrong_key empty ≡ none
unfolding same_text travelmap.Httpapi.Authenticate.api_key_from
nobody = refl

protected-Refused_example :
    Refused (outside empty) (protected api ascii by_wrong_key hello env (outside empty))
protected-Refused_example =
    protected-Refused api ascii by_wrong_key hello env (outside empty) nobody

new_state-IsGoodOnce_example :
    IsGoodOnce 1
      (7 * second)
      (hex (10 ∷ 11 ∷ []))
      (new_state (some (10 ∷ 11 ∷ [])) 5 (7 * second) 1 []).1
new_state-IsGoodOnce_example = new_state-IsGoodOnce (10 ∷ 11 ∷ []) 5 (7 * second) 1 []

abbrev sign_in : LoginRequest
sign_in = record { email = "a@example.com"; password = "password" }

login-RunsAs_example :
    ((renewed : Bool)
      → RunsAs
          (welcomed
            (λ user. start_session api renewed user (write_header 201))
            (write_error api 401 auth_failed_message)
            (user_of plain sign_in empty))
          env
          (outside empty)
          (create_session api plain renewed (some sign_in) env (outside empty)))
    × RunsAs
        (welcomed
          (λ user. reply (write_json api 200 (login_body user)))
          (login_failed api)
          (user_of plain sign_in empty))
        env
        (outside empty)
        (login api plain (some sign_in) env (outside empty))
login-RunsAs_example = login-RunsAs api plain env env-Healthy (outside empty) sign_in

abbrev newcomer : CreateUserRequest
newcomer = record { email = "a@b.c"; password = "password"; password_confirmation = "password" }

confirmed : same_text "password" "password" ≡ true
unfolding same_text
confirmed = refl

compared : plain.compare "password" "password" ≡ matches
unfolding same_text
compared = refl

create_user-SignedUp_example :
    SignedUp api plain newcomer "a@b.c" "password" "01fe" env vacant
      (create_user api plain true (some newcomer) env (outside vacant))
create_user-SignedUp_example =
    create_user-SignedUp api plain newcomer "a@b.c" "password" "01fe" env env env-Healthy
      env-Healthy (outside vacant) vacant-IsWellFormed address_read address_read password_hashed
      key_issued confirmed unclaimed compared

abbrev on_day : ℕ → DailyStat
on_day d = record {
  user_id = 1;
  day = d;
  points = 1;
  reverse_geocoded_points = 0;
  km = 0;
  countries = [];
  cities = [];
}

tracked_months_to_dto-Lists_example :
    Lists std
      (on_day 400 ∷ on_day 20 ∷ [])
      (tracked_months_to_dto std (on_day 400 ∷ on_day 20 ∷ []))
tracked_months_to_dto-Lists_example = tracked_months_to_dto-Lists std (on_day 400 ∷ on_day 20 ∷ [])
