-- ===== src/Ingest/Atomic.antt =====
-- internal/ingest/create.go and mutate.go: each mutation is one transaction.
use travelmap.Base.{ℕ, List}
use travelmap.Model.{Float64, Point}
use travelmap.Model.Zone.{Zone}
use travelmap.Geo.{FloatOps}
use travelmap.Exec.Atomic.{tx-IsAtomic, IsAtomic}
use travelmap.Ingest.{create_points, update_point, delete_point, delete_points}

module _ (ops : FloatOps) (z : Zone) (track_break : ℕ) where
  pub create_points-IsAtomic : (ps : List Point) → IsAtomic (create_points ops z track_break ps)
  unfolding create_points
  create_points-IsAtomic ps = tx-IsAtomic _

  pub update_point-IsAtomic :
      (user id : ℕ) (latitude longitude : Float64)
      → IsAtomic (update_point ops z track_break user id latitude longitude)
  unfolding update_point
  update_point-IsAtomic user id latitude longitude = tx-IsAtomic _

  pub delete_point-IsAtomic : (user id : ℕ) → IsAtomic (delete_point ops z track_break user id)
  unfolding delete_point
  delete_point-IsAtomic user id = tx-IsAtomic _

  pub delete_points-IsAtomic :
      (user : ℕ) (ids : List ℕ) → IsAtomic (delete_points ops z track_break user ids)
  unfolding delete_points
  delete_points-IsAtomic user ids = tx-IsAtomic _
