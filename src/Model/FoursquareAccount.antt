-- ===== src/Model/FoursquareAccount.antt =====
-- internal/model/foursquareaccount.go.
use travelmap.Base.{ℕ, String, Option}
use travelmap.Model.{Time}

pub record FoursquareAccount : Type 0 where
  pub user_id : ℕ
  pub foursquare_user_id : String
  pub access_token : String
  pub synced_through : Option Time
  pub created_at : Time
  pub updated_at : Time
