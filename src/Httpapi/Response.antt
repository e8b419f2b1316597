-- ===== src/Httpapi/Response.antt =====
-- internal/httpapi/response.go, request.go and the `api` of router.go: what a handler is given and
-- what it answers.
use travelmap.Base.{ℕ, String, Bool, Option, none, some, if◌then◌else◌}
use travelmap.Base.Integers.{ℤ}
use travelmap.Model.{Time, Float64, User}
use travelmap.Model.Zone.{Zone}
use travelmap.Geo.{FloatOps}
use travelmap.Exec.{Env, World, Result}
use travelmap.Store.{Db, Action}
use travelmap.Httpapi.Dto.{Body}

-- The layouts that time.Parse is called with.
pub data Layout : Type 0 where
  rfc3339 rfc3339_nano date_only overland : Layout

-- What the handlers use of Go's time, strconv and encoding/json: time.Parse; time.Unix and
-- Time.Unix; strconv.FormatFloat; Time.Format in UTC; the conversion of a float64 to an int64; the year and the
-- month, from 1, of a calendar day; and which values json.Encode accepts.
pub record Std : Type 0 where
  pub parse_time : Layout → String → Option Time
  pub of_unix : ℤ → Time
  pub to_unix : Time → ℤ
  pub format_float : Float64 → String
  pub format_time : Time → String
  pub to_int : Float64 → ℤ
  pub year_month : ℕ → ℕ × ℕ
  pub encodes : Body → Bool

-- The fields of `api` that the handlers read beside the store.
pub record Api : Type 0 where
  pub std : Std
  pub ops : FloatOps
  pub loc : Zone
  pub track_break : ℕ
  pub timezone : String

-- What a handler does to the session of its request.
pub data SessionChange : Type 0 where
  unchanged destroyed : SessionChange
  started : (user_id : ℕ) → SessionChange

-- The status, the headers of a page (X-Current-Page and X-Total-Pages), whether
-- X-Dawarich-Response says that the request is authenticated, the body, and what the session
-- middleware is to save: the user that the session is started for.
pub record Response : Type 0 where
  pub status : ℕ
  pub current_page : Option ℕ
  pub total_pages : Option ℤ
  pub authenticated : Option Bool
  pub body : Body
  pub session : SessionChange

abbrev pub Handler : Type 0
Handler = Env → World Db → Response × World Db

abbrev pub reply : Response → Handler
reply r env w = (r, w)

-- A call of the store, and what the handler makes of its result.
unfoldable pub attempt : {A : Type 0} → Action A → (Result A → Handler) → Handler
attempt m k env w = let (r, w') = m env w in k r env w'

abbrev pub with_request_time : (Time → Handler) → Handler
with_request_time f env w = f (env.now w.steps) env w

unfoldable pub write_json : Api → ℕ → Body → Response
write_json api status body =
    if api.std.encodes body
    then record {
      status = status;
      current_page = none;
      total_pages = none;
      authenticated = none;
      body = body;
      session = unchanged;
    }
    else record {
      status = 500;
      current_page = none;
      total_pages = none;
      authenticated = none;
      body = Body.encode_failed;
      session = unchanged;
    }

unfoldable pub write_error : Api → ℕ → String → Response
unfolding write_json
write_error api status message = write_json api status (Body.failure message)

-- w.WriteHeader, without a body.
unfoldable pub write_header : ℕ → Response
write_header status = record {
  status = status;
  current_page = none;
  total_pages = none;
  authenticated = none;
  body = Body.empty;
  session = unchanged;
}

unfoldable pub server_error : Api → Response
unfolding write_error
server_error api = write_error api 500 "internal server error"

-- `userFrom` at the head of a handler.
unfoldable pub as_user : Api → Option User → (User → Handler) → Handler
unfolding server_error
as_user api none f = reply (server_error api)
as_user api (some user) f = f user

-- `decodeJSON` into a request: none is a body that could not be read.
unfoldable pub with_body : Api → {A : Type 0} → Option A → (A → Handler) → Handler
unfolding write_error
with_body api none f = reply (write_error api 400 "invalid request body")
with_body api (some req) f = f req
