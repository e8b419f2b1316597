-- ===== src/Checkin/Answered.antt =====
-- internal/checkin/checkin.go `WritePush`: what a push leaves and is answered.
use mathlib.Core.Option
use travelmap.Base.{
  ℕ, suc, ◌*◌, ◌≡◌, refl, sym, subst, String, true, Option, none, some, List, [], ◌∷◌, find,
  if◌then◌else◌, Option-cases, inl, inr,
}
use travelmap.Base.Members.{In, In-find}
use travelmap.Base.Text.{same_text}
use travelmap.Model.{Time, second}
use travelmap.Model.Checkin.{Checkin as Row}
use travelmap.Model.FoursquareAccount.{FoursquareAccount}
use travelmap.Exec.{Env, World, Result, ok, statement, resume}
use travelmap.Exec.Ensures.{Healthy}
use travelmap.Store.{Db, known_user}
use travelmap.Store.Checkins.{upsert}
use travelmap.Store.Checkins.Kept.{found, written, upsert_checkin-found, upsert_checkin-written}
use travelmap.Store.FoursquareAccounts.{by_foursquare_user_id, found as found_account}
use travelmap.Foursquare.{Json, Checkin, Venue, Category, primary_category, parse_push_checkin}
use travelmap.Checkin.{
  Pushed, stored, malformed, unknown_account, without_venue, with_category, with_venue, from_wire,
  push_written, push_resolved, write_push,
}

-- The account that a Swarm user has linked.
abbrev pub linked_to : String → Db → Option FoursquareAccount
linked_to id db =
    find (λ (a : FoursquareAccount). same_text a.foursquare_user_id id) db.foursquare_accounts

-- The category that counts: the first that is primary, or else the first of all.
abbrev pub main_category : List Category → Option Category
main_category [] = none
main_category (c ∷ cs) = elim (find (λ (x : Category). x.primary) (c ∷ cs)) [
  | none ↦ some c
  | some x ↦ some x
]

abbrev pub category_in : Option Venue → Option Category
category_in none = none
category_in (some v) = main_category v.categories

-- What is expected of a push as a check-in of this user.
abbrev pub venue_row : ℕ → Checkin → Option Venue → Row
venue_row user c venue = record {
  id = 0;
  user_id = user;
  foursquare_checkin_id = c.id;
  checked_in_at = c.created_at * second;
  timezone_offset = c.timezone_offset;
  venue_id = Option.map (λ (v : Venue). v.id) venue;
  venue_name = Option.map (λ (v : Venue). v.name) venue;
  latitude = Option.map (λ (v : Venue). v.location.lat) venue;
  longitude = Option.map (λ (v : Venue). v.location.lng) venue;
  country_code = Option.map (λ (v : Venue). v.location.cc) venue;
  city = Option.map (λ (v : Venue). v.location.city) venue;
  state = Option.map (λ (v : Venue). v.location.state) venue;
  country = Option.map (λ (v : Venue). v.location.country) venue;
  category_id = Option.map (λ (x : Category). x.id) (category_in venue);
  category_name = Option.map (λ (x : Category). x.name) (category_in venue);
  shout = c.shout;
  source = "push";
  raw = c.raw;
  created_at = 0;
  updated_at = 0;
}

abbrev pub pushed_row : ℕ → Checkin → Row
pushed_row user c = venue_row user c c.venue

-- A push for an account leaves the row of its check-in and no other.
abbrev pub Stored : Row → Db → Result Pushed × World Db → Type 0
Stored row db (r, w) =
    (t : Time) × (r
      ≡ ok (stored (written t row (suc db.checkin_seq) (found row.foursquare_checkin_id db))))
    × ((v : String)
        → found v w.db ≡ (
            if same_text row.foursquare_checkin_id v
            then some (written t row (suc db.checkin_seq) (found v db))
            else found v db))

abbrev pub Resolved : Checkin → Db → Option FoursquareAccount → Result Pushed × World Db → Type 0
Resolved c db none (r, w) = (r ≡ ok unknown_account) × (w.db ≡ db)
Resolved c db (some a) rw = Stored (pushed_row a.user_id c) db rw

-- By what the decoder makes of the text, which is kept as it was received.
abbrev pub Answered : Db → String → Option Checkin → Result Pushed × World Db → Type 0
Answered db raw none (r, w) = (r ≡ ok malformed) × (w.db ≡ db)
Answered db raw (some c) rw = Resolved (record c { raw = raw }) db (linked_to c.user_id db) rw

primary_category-main : (cs : List Category) → primary_category cs ≡ main_category cs
unfolding primary_category
primary_category-main [] = refl
primary_category-main (c ∷ cs) = refl

with_category-eq :
    (o : Option Category) (row : Row)
    → row.category_id ≡ none
    → row.category_name ≡ none
    → with_category o row ≡ record row {
      category_id = Option.map (λ (x : Category). x.id) o;
      category_name = Option.map (λ (x : Category). x.name) o;
    }
with_category-eq none row h k = λ i. record row { category_id = h i; category_name = k i }
with_category-eq (some x) row h k = refl

with_venue-eq :
    (user : ℕ) (c : Checkin) (o : Option Venue)
    → with_venue o (without_venue user "push" c) ≡ venue_row user c o
with_venue-eq user c none = refl
with_venue-eq user c (some v) =
    rw (primary_category-main v.categories)
      (with_category-eq (main_category v.categories) _ refl refl)

from_wire-pushed : (user : ℕ) (c : Checkin) → from_wire user "push" c ≡ pushed_row user c
unfolding from_wire
from_wire-pushed user c = with_venue-eq user c c.venue

module _ (env : Env) (h : Healthy env) where
  written-Stored :
      (row : Row) (w : World Db)
      → known_user w.db row.user_id ≡ true
      → Stored row w.db (resume (upsert row) push_written env w)
  unfolding resume upsert statement
  written-Stored row w k =
      rw (h.never w.steps, upsert_checkin-written (env.now w.steps) row w.db k)
        (env.now w.steps, refl, λ v. upsert_checkin-found (env.now w.steps) row v w.db k)

  resolved :
      (c : Checkin) (w : World Db)
      → ((a : FoursquareAccount) → In a w.db.foursquare_accounts → known_user w.db a.user_id ≡ true)
      → Resolved c w.db
          (linked_to c.user_id w.db)
          (resume (by_foursquare_user_id c.user_id) (push_resolved c) env w)
  unfolding resume by_foursquare_user_id statement
  resolved c w k = elim (Option-cases (linked_to c.user_id w.db)) [
    | inl n ↦ rw (h.never w.steps, n, found_account) (refl, refl)
    | inr (a, n) ↦
        rw (h.never w.steps, n, found_account)
          (subst
            (λ row.
              Stored (pushed_row a.user_id c) w.db
                (resume (upsert row) push_written env (record w { steps = suc w.steps })))
            (sym (from_wire-pushed a.user_id c))
            (written-Stored (pushed_row a.user_id c) (record w { steps = suc w.steps })
              (k a (In-find _ w.db.foursquare_accounts a n).0)))
  ]

  pub write_push-Answered :
      (json : Json) (raw : String) (w : World Db)
      → ((a : FoursquareAccount) → In a w.db.foursquare_accounts → known_user w.db a.user_id ≡ true)
      → Answered w.db raw (json.item raw) (write_push json raw env w)
  unfolding write_push parse_push_checkin
  write_push-Answered json raw w k = elim (Option-cases (json.item raw)) [
    | inl n ↦ rw (n, write_push) (refl, refl)
    | inr (c, n) ↦ rw (n, write_push) (resolved (record c { raw = raw }) w k)
  ]
