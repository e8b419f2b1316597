-- ===== src/Checkin/Tests.antt =====
-- internal/checkin and the checkins table at concrete payloads.
use travelmap.Base.{
  ℕ, ◌*◌, ◌≡◌, refl, String, true, false, none, some, [], ◌∷◌, if◌then◌else◌, ◌==◌,
}
use travelmap.Base.Members.{In, in_cons}
use travelmap.Base.Text.{same_text}
use travelmap.Model.{second}
use travelmap.Model.Checkin.{Checkin as Row}
use travelmap.Model.FoursquareAccount.{FoursquareAccount}
use travelmap.Exec.{outside, ok}
use travelmap.Store.{Db, known_user, unix_time}
use travelmap.Store.Checkins.{upsert_checkin}
use travelmap.Store.Checkins.Kept.{found, written, upsert_checkin-found}
use travelmap.Foursquare.{Json, Checkin, Fetched, Ended, page}
use travelmap.Checkin.{from_wire, sync}
use travelmap.Checkin.Synced.{Ran, sync-Ran}
use travelmap.Httpapi.Webhook.{PushForm, foursquare_webhook}
use travelmap.Httpapi.Webhook.Answered.{Webhook, foursquare_webhook-Answered}
use travelmap.Fixture.{empty, env, env-Healthy}

abbrev swarm : FoursquareAccount
swarm = record {
  user_id = 1;
  foursquare_user_id = "1709193";
  access_token = "token";
  synced_through = none;
  created_at = 0;
  updated_at = 0;
}

abbrev joined : Db
joined = record empty { foursquare_accounts = swarm ∷ [] }

abbrev coffee : Checkin
coffee = record {
  id = "5f";
  created_at = 950;
  timezone_offset = none;
  shout = some "hello";
  user_id = "1709193";
  venue = some (record {
    id = "v";
    name = "Cafe";
    location = record { lat = 35; lng = 139; cc = "JP"; city = ""; state = ""; country = "" };
    categories = record { id = "c"; name = "Coffee"; primary = false } ∷ [];
  });
  raw = "";
}

abbrev json : Json
json = record {
  envelope = λ s. none;
  item = λ s. if same_text s "coffee" then some coffee else none;
  trim_space = λ s. s;
}

abbrev row : Row
row = from_wire 1 "sync" coffee

abbrev pushed : PushForm
pushed = record { secret = "push"; checkin = "coffee" }

joined-known : known_user joined row.user_id ≡ true
unfolding known_user from_wire
joined-known = refl

upsert_checkin-found_example : found "5f" (upsert_checkin (7 * second) row joined).1 ≡ (
    if same_text row.foursquare_checkin_id "5f"
    then some (written (7 * second) row 1 (found "5f" joined))
    else found "5f" joined)
upsert_checkin-found_example = upsert_checkin-found (7 * second) row "5f" joined joined-known

all-known :
    (a : FoursquareAccount) → In a joined.foursquare_accounts → known_user joined a.user_id ≡ true
unfolding known_user
all-known a i =
    in_cons (λ x. known_user joined x.user_id ≡ true) swarm [] refl (λ x j. elim j [ ]) a i

foursquare_webhook-Answered_example :
    Webhook json "push" joined
      (some pushed)
      (foursquare_webhook json "push" (some pushed) env (outside joined))
foursquare_webhook-Answered_example =
    foursquare_webhook-Answered env env-Healthy json (outside joined) all-known "push" (some pushed)

-- A page with one check-in of the window and one that is older.
abbrev fetch : String → ℕ → ℕ → Fetched
fetch token k offset =
    if offset == 0
    then page (coffee ∷ record coffee { id = "5e"; created_at = 800 } ∷ [])
    else page []

counts_one : (sync fetch (100 * second) swarm env (outside joined)).0 ≡ ok (1, Ended.complete)
unfolding sync
counts_one = refl

sync-Ran_example :
    Ran 1 (unix_time (1000 * second)) joined (sync fetch (100 * second) swarm env (outside joined))
sync-Ran_example = sync-Ran fetch (100 * second) swarm env (outside joined)
