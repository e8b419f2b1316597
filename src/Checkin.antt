-- ===== src/Checkin.antt =====
-- internal/checkin: the writing of check-ins, pushed or fetched.
pub mod Synced
pub mod Answered
mod Tests
use travelmap.Base.{
  ℕ, ◌-◌, String, Bool, Option, none, some, List, [], ◌∷◌, length, any, if◌then◌else◌, ◌*◌,
}
use travelmap.Base.Text.{same_text}
use travelmap.Model.{Time, second}
use travelmap.Model.Checkin.{Checkin as Row}
use travelmap.Model.FoursquareAccount.{FoursquareAccount}
use travelmap.Exec.{Error, Result, ok, err, not_found, pure, resume, with_now, ◌>>=◌}
use travelmap.Store.{Action, unix_time}
use travelmap.Store.Checkins.{upsert}
use travelmap.Store.FoursquareAccounts.{by_foursquare_user_id, update_synced_through, all}
use travelmap.Foursquare.{
  Json, Checkin, Venue, Category, Fetched, Fault, Ended, primary_category, parse_push_checkin,
  each_checkin_page,
}

abbrev pub write : Row → Action Row
write = upsert

abbrev pub without_venue : ℕ → String → Checkin → Row
without_venue user source c = record {
  id = 0;
  user_id = user;
  foursquare_checkin_id = c.id;
  checked_in_at = c.created_at * second;
  timezone_offset = c.timezone_offset;
  venue_id = none;
  venue_name = none;
  latitude = none;
  longitude = none;
  country_code = none;
  city = none;
  state = none;
  country = none;
  category_id = none;
  category_name = none;
  shout = c.shout;
  source = source;
  raw = c.raw;
  created_at = 0;
  updated_at = 0;
}

abbrev pub with_category : Option Category → Row → Row
with_category none row = row
with_category (some c) row = record row { category_id = some c.id; category_name = some c.name }

abbrev pub with_venue : Option Venue → Row → Row
with_venue none row = row
with_venue (some v) row = with_category (primary_category v.categories) (record row {
  venue_id = some v.id;
  venue_name = some v.name;
  latitude = some v.location.lat;
  longitude = some v.location.lng;
  country_code = some v.location.cc;
  city = some v.location.city;
  state = some v.location.state;
  country = some v.location.country;
})

unfoldable pub from_wire : ℕ → String → Checkin → Row
unfolding primary_category
from_wire user source c = with_venue c.venue (without_venue user source c)

-- What `WritePush` returns: the row, ErrMalformedPush, ErrUnknownAccount, or an error of the store.
pub data Pushed : Type 0 where
  stored : Row → Pushed
  malformed unknown_account : Pushed
  store_failure : Error → Pushed

abbrev pub push_written : Result Row → Action Pushed
push_written (ok row) = pure (Pushed.stored row)
push_written (err e) = pure (Pushed.store_failure e)

abbrev pub push_resolved : Checkin → Result FoursquareAccount → Action Pushed
push_resolved c (ok account) = resume (write (from_wire account.user_id "push" c)) push_written
push_resolved c (err Error.not_found) = pure Pushed.unknown_account
push_resolved c (err e) = pure (Pushed.store_failure e)

unfoldable pub write_push : Json → String → Action Pushed
unfolding parse_push_checkin by_foursquare_user_id resume upsert from_wire
write_push json raw = elim (parse_push_checkin json raw) [
  | none ↦ pure Pushed.malformed
  | some c ↦ resume (by_foursquare_user_id c.user_id) (push_resolved c)
]

abbrev pub fetched_written :
    List String
    → String
    → (List String → Action (List String × Option Fault))
    → Result Row
    → Action (List String × Option Fault)
fetched_written seen id rest (ok row) = rest (id ∷ seen)
fetched_written seen id rest (err e) = pure (seen, some (Fault.store_error e))

-- A page of a fetch; `seen` are the check-ins of the run that were written.
unfoldable pub write_page : ℕ → List Checkin → List String → Action (List String × Option Fault)
unfolding resume upsert from_wire
write_page user [] seen = pure (seen, none)
write_page user (c ∷ cs) seen =
    if any (same_text c.id) seen
    then write_page user cs seen
    else resume (write (from_wire user "sync" c)) (fetched_written seen c.id (write_page user cs))

abbrev pub sync_recorded : ℕ → Result (Unit {0}) → Action (ℕ × Ended)
sync_recorded count (ok t) = pure (count, Ended.complete)
sync_recorded count (err e) = pure (count, Ended.stopped (Fault.store_error e))

abbrev pub sync_walked : ℕ → Time → List String × Ended → Action (ℕ × Ended)
sync_walked user now (seen, Ended.complete) =
    resume (update_synced_through user now) (sync_recorded (length seen))
sync_walked user now (seen, Ended.spent) = pure (length seen, Ended.spent)
sync_walked user now (seen, Ended.stopped fault) = pure (length seen, Ended.stopped fault)

-- `complete` is the nil error. `fetch` answers a token's request by the moment and the offset.
unfoldable pub sync : (String → ℕ → ℕ → Fetched) → Time → FoursquareAccount → Action (ℕ × Ended)
unfolding each_checkin_page write_page unix_time ◌>>=◌ resume update_synced_through
sync fetch lookback account = with_now λ t.
    each_checkin_page (fetch account.access_token) (unix_time t - lookback)
      (write_page account.user_id) []
    >>= sync_walked account.user_id (unix_time t)

module _ (fetch : String → ℕ → ℕ → Fetched) (lookback : Time) where
  unfoldable pub sync_each : List FoursquareAccount → Action (Unit {0})
  unfolding sync resume
  sync_each [] = pure tt
  sync_each (a ∷ accounts) = resume (sync fetch lookback a) λ r. sync_each accounts

  abbrev pub accounts_listed : Result (List FoursquareAccount) → Action (Unit {0})
  accounts_listed (err e) = pure tt
  accounts_listed (ok accounts) = sync_each accounts

  unfoldable pub sync_all : Action (Unit {0})
  unfolding sync_each resume all
  sync_all = resume all accounts_listed
