-- ===== src/Store/FoursquareAccounts.antt =====
-- internal/store/sqlite/foursquareaccounts.go: the repository of the foursquare_accounts table.
mod Tests
pub mod Links
use mathlib.Core.Option
use travelmap.Base.{
  ℕ, String, Bool, ◌||◌, not, Option, none, some, List, [], ◌∷◌, ◌++◌, map, any, filter, find,
  if◌then◌else◌, ◌==◌, ltb,
}
use travelmap.Base.Sort.{sort}
use travelmap.Base.Text.{same_text}
use travelmap.Model.{Time}
use travelmap.Model.FoursquareAccount.{FoursquareAccount}
use travelmap.Exec.{Result, ok, err, not_found, conflict, foreign_key, statement, with_now}
use travelmap.Store.{Db, Action, unix_time, known_user}

-- PRIMARY KEY (user_id) and foursquare_accounts_foursquare_user_id_key
unfoldable pub collides : FoursquareAccount → FoursquareAccount → Bool
collides a b = b.user_id == a.user_id || same_text b.foursquare_user_id a.foursquare_user_id

-- The row that an INSERT of `account` makes.
unfoldable pub account_row : Time → FoursquareAccount → FoursquareAccount
unfolding unix_time
account_row now account = record account {
  synced_through = Option.map unix_time account.synced_through;
  created_at = unix_time now;
  updated_at = unix_time now;
}

unfoldable pub insert_account : Time → FoursquareAccount → Db → Result FoursquareAccount × Db
unfolding collides account_row known_user unix_time
insert_account now account db =
    if any (collides account) db.foursquare_accounts
    then (err conflict, db)
    else if known_user db account.user_id
    then (
      ok (record account { created_at = unix_time now; updated_at = unix_time now }),
      record db { foursquare_accounts = db.foursquare_accounts ++ account_row now account ∷ [] },
    )
    else (err foreign_key, db)

unfoldable pub create : FoursquareAccount → Action FoursquareAccount
unfolding insert_account statement
create account = with_now λ now. statement (insert_account now account)

-- A lookup that matches one account at most.
abbrev pub found : (FoursquareAccount → Bool) → Db → Result FoursquareAccount × Db
found matches db = elim (find matches db.foursquare_accounts) [
  | none ↦ (err not_found, db)
  | some a ↦ (ok a, db)
]

unfoldable pub by_foursquare_user_id : String → Action FoursquareAccount
unfolding statement
by_foursquare_user_id id = statement (found (λ a. same_text a.foursquare_user_id id))

abbrev pub links : ℕ → FoursquareAccount → Bool
links user a = a.user_id == user

unfoldable pub by_user_id : ℕ → Action FoursquareAccount
unfolding statement
by_user_id user = statement (found (links user))

unfoldable pub all : Action (List FoursquareAccount)
unfolding sort statement
all = statement λ db.
    (ok (sort (λ (a b : FoursquareAccount). ltb a.user_id b.user_id) db.foursquare_accounts), db)

unfoldable pub synced : ℕ → Time → Time → FoursquareAccount → FoursquareAccount
unfolding unix_time
synced user now through a =
    if links user a
    then record a { synced_through = some (unix_time through); updated_at = unix_time now }
    else a

-- UPDATE ..., and ErrNotFound when it affected no row.
unfoldable pub record_sync : ℕ → Time → Time → Db → Result (Unit {0}) × Db
unfolding synced
record_sync user through now db =
    if any (links user) db.foursquare_accounts
    then (
      ok tt,
      record db { foursquare_accounts = map (synced user now through) db.foursquare_accounts },
    )
    else (err not_found, db)

unfoldable pub update_synced_through : ℕ → Time → Action (Unit {0})
unfolding record_sync statement
update_synced_through user through = with_now λ now. statement (record_sync user through now)

unfoldable pub unlink : ℕ → Db → Result (Unit {0}) × Db
unlink user db = (
  ok tt,
  record db { foursquare_accounts = filter (λ a. not (links user a)) db.foursquare_accounts },
)

unfoldable pub delete : ℕ → Action (Unit {0})
unfolding unlink statement
delete user = statement (unlink user)
