-- ===== src/Httpapi/Webhook.antt =====
-- internal/httpapi/foursquare.go `foursquareWebhook`, and `CheckSecret` of internal/auth/auth.go.
pub mod Answered
use travelmap.Base.{ℕ, String, Bool, true, false, Option, none, some}
use travelmap.Base.Text.{same_text}
use travelmap.Exec.{Result, ok, err, pure, resume}
use travelmap.Store.{Action}
use travelmap.Foursquare.{Json}
use travelmap.Checkin.{Pushed, stored, malformed, unknown_account, store_failure, write_push}

unfoldable pub check_secret : String → String → Bool
unfolding same_text
check_secret secret want = same_text secret want

-- The form of a push; a value that is absent is the empty text.
pub record PushForm : Type 0 where
  pub secret : String
  pub checkin : String

abbrev pub status_of : Pushed → ℕ
status_of (stored row) = 200
status_of malformed = 200
status_of unknown_account = 200
status_of (store_failure e) = 500

abbrev pub push_status : Result Pushed → Action ℕ
push_status (ok p) = pure (status_of p)
push_status (err e) = pure 500

abbrev pub push_handled : Json → String → Bool → Action ℕ
push_handled json raw true = pure 200
push_handled json raw false = resume (write_push json raw) push_status

abbrev pub secret_checked : Json → PushForm → Bool → Action ℕ
secret_checked json form false = pure 401
secret_checked json form true = push_handled json form.checkin (same_text form.checkin "")

-- The status of the answer, which has no body; `none` is a form that does not parse.
unfoldable pub foursquare_webhook : Json → String → Option PushForm → Action ℕ
unfolding check_secret write_push resume same_text
foursquare_webhook json want none = pure 400
foursquare_webhook json want (some form) = secret_checked json form (check_secret form.secret want)
