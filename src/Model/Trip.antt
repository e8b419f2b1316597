-- ===== src/Model/Trip.antt =====
-- internal/model/trip.go.
use travelmap.Base.{ℕ, String}
use travelmap.Model.{Time}

pub record Trip : Type 0 where
  pub id : ℕ
  pub user_id : ℕ
  pub title : String
  pub started_at : Time
  pub ended_at : Time
  pub description : String
  pub created_at : Time
  pub updated_at : Time
