-- ===== src/Store/FoursquareAccounts/Tests.antt =====
-- internal/store/sqlite/foursquareaccounts.go at a concrete account.
use travelmap.Base.{◌*◌, none}
use travelmap.Model.{second}
use travelmap.Model.FoursquareAccount.{FoursquareAccount}
use travelmap.Store.FoursquareAccounts.{insert_account}
use travelmap.Store.FoursquareAccounts.Links.{LinksIsWellFormed, insert_account-IsWellFormed}
use travelmap.Fixture.{empty}

abbrev swarm : FoursquareAccount
swarm = record {
  user_id = 1;
  foursquare_user_id = "1709193";
  access_token = "token";
  synced_through = none;
  created_at = 0;
  updated_at = 0;
}

unlinked-IsWellFormed : LinksIsWellFormed empty
unlinked-IsWellFormed = record { users = λ a b i j c. elim i [ ]; swarms = λ a b i j c. elim i [ ] }

insert_account-IsWellFormed_example : LinksIsWellFormed (insert_account (9 * second) swarm empty).1
insert_account-IsWellFormed_example =
    insert_account-IsWellFormed (9 * second) swarm empty unlinked-IsWellFormed
