-- ===== src/Httpapi/Authenticate.antt =====
-- internal/httpapi/auth.go, middleware.go and session.go: who the caller is.
pub mod Bearer
pub mod Caller
pub mod Refused
use Prim.Native.Char.{Char}
use Prim.Native.String
use Prim.Native.String.{String, [], ◌∷◌}
use travelmap.Base.{ℕ, Bool, true, false, ◌&&◌, ◌||◌, Option, none, some, if◌then◌else◌, ◌==◌}
use travelmap.Base.Text.{same_text}
use travelmap.Model.{User}
use travelmap.Exec.{Result, ok, err, Error, not_found}
use travelmap.Store.{Action}
use travelmap.Store.Users
use travelmap.Httpapi.Response.{
  Api, Response, Handler, reply, attempt, server_error, write_error, write_header,
}

-- unicode.IsSpace and strings.EqualFold.
pub record Unicode : Type 0 where
  pub is_space : Char → Bool
  pub equal_fold : String → String → Bool

abbrev pub cons_first : Char → Option (String × String) → Option (String × String)
cons_first c none = none
cons_first c (some (before, rest)) = some (String.◌∷◌ c before, rest)

module _ (u : Unicode) where
  -- strings.IndexFunc(header, unicode.IsSpace): the text before the first space, and from it on.
  unfoldable pub cut_space : String → Option (String × String)
  cut_space [] = none
  cut_space (c ∷ s) =
      let later = cut_space s in if u.is_space c then some ([], c ∷ s) else cons_first c later

  unfoldable pub has_space : String → Bool
  has_space [] = false
  has_space (c ∷ s) = u.is_space c || has_space s

  unfoldable pub trim_left : String → String
  trim_left [] = []
  trim_left (c ∷ s) = let rest = trim_left s in if u.is_space c then rest else c ∷ s

  abbrev pub unless_blank : Char → String → String
  unless_blank c [] = if u.is_space c then [] else c ∷ []
  unless_blank c (d ∷ s) = c ∷ d ∷ s

  unfoldable pub trim_right : String → String
  trim_right [] = []
  trim_right (c ∷ s) = unless_blank c (trim_right s)

  -- strings.TrimSpace
  unfoldable pub trim_space : String → String
  unfolding trim_left trim_right
  trim_space s = trim_right (trim_left s)

  abbrev pub token_of : Option (String × String) → String
  token_of none = ""
  token_of (some (scheme, rest)) =
      if u.equal_fold scheme "bearer"
      then (if has_space (trim_space rest) then "" else trim_space rest)
      else ""

  unfoldable pub bearer_token : String → String
  unfolding cut_space has_space trim_space
  bearer_token header = token_of (cut_space header)

  -- The query's api_key, or else the Authorization header.
  unfoldable pub api_key_from : String → String → String
  unfolding bearer_token
  api_key_from query header = if same_text query "" then bearer_token header else query

-- What the middleware reads of a request: the api_key of the query, the Authorization header, and
-- the user id of the session, 0 without one.
pub record Credentials : Type 0 where
  pub query_key : String
  pub authorization : String
  pub session_user : ℕ

abbrev pub dawarich_version : String
dawarich_version = "1.12.2"

unfoldable pub set_dawarich_headers : Bool → Response → Response
set_dawarich_headers authenticated r = record r { authenticated = some authenticated }

abbrev pub is_some {ℓ} : {A : Type ℓ} → Option A → Bool
is_some none = false
is_some (some a) = true

-- The headers are set before the handler writes its response.
unfoldable pub dawarich_headers : (Option User → Handler) → Option User → Handler
unfolding set_dawarich_headers
dawarich_headers next caller env w =
    let (r, w') = next caller env w in (set_dawarich_headers (is_some caller) r, w')

unfoldable pub require_user : (Option User → Handler) → Option User → Handler
unfolding write_header
require_user next none = reply (write_header 401)
require_user next (some user) = next (some user)

-- `sessionUser` and the response of its callers to an error.
abbrev pub session_result : (Option User → Handler) → Handler → Result User → Handler
session_result next failed (ok user) = next (some user)
session_result next failed (err not_found) = next none
session_result next failed (err e) = failed

unfoldable pub with_session_user : Handler → ℕ → (Option User → Handler) → Handler
unfolding attempt
with_session_user failed id next =
    let lookup = attempt (Users.by_id id) (session_result next failed) in
    if id == 0 then next none else lookup

-- The answer to a failure before the headers' own middleware has run.
abbrev pub auth_failed : Api → Handler
auth_failed api = reply (set_dawarich_headers false (server_error api))

unfoldable pub authenticate_by_session : Api → ℕ → (Option User → Handler) → Handler
unfolding with_session_user set_dawarich_headers server_error
authenticate_by_session api id next = with_session_user (auth_failed api) id next

unfoldable pub load_session_user : Api → ℕ → (Option User → Handler) → Handler
unfolding with_session_user server_error
load_session_user api id next = with_session_user (reply (server_error api)) id next

abbrev pub key_result : Api → ℕ → (Option User → Handler) → Result User → Handler
key_result api id next (ok user) = next (some user)
key_result api id next (err not_found) = authenticate_by_session api id next
key_result api id next (err e) = auth_failed api

unfoldable pub authenticate : Api → Unicode → Credentials → (Option User → Handler) → Handler
unfolding api_key_from attempt authenticate_by_session set_dawarich_headers server_error
authenticate api u c next =
    let key = api_key_from u c.query_key c.authorization in
    let lookup = attempt (Users.by_api_key key) (key_result api c.session_user next) in
    if same_text key "" then authenticate_by_session api c.session_user next else lookup

-- The routes of /api/v1 that require a user.
unfoldable pub protected : Api → Unicode → Credentials → (Option User → Handler) → Handler
unfolding authenticate dawarich_headers require_user
protected api u c next = authenticate api u c (dawarich_headers (require_user next))
