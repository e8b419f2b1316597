-- ===== src/Model/Checkin.antt =====
-- internal/model/checkin.go.
use travelmap.Base.{ℕ, String, Option}
use travelmap.Base.Integers.{ℤ}
use travelmap.Model.{Time, Float64}

pub record Checkin : Type 0 where
  pub id : ℕ
  pub user_id : ℕ
  pub foursquare_checkin_id : String
  pub checked_in_at : Time
  pub timezone_offset : Option ℤ
  pub venue_id : Option String
  pub venue_name : Option String
  pub latitude : Option Float64
  pub longitude : Option Float64
  pub country_code : Option String
  pub city : Option String
  pub state : Option String
  pub country : Option String
  pub category_id : Option String
  pub category_name : Option String
  pub shout : Option String
  pub source : String
  pub raw : String
  pub created_at : Time
  pub updated_at : Time
