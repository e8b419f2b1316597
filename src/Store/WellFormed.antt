-- ===== src/Store/WellFormed.antt =====
-- The invariants of the tables that the schema states (internal/store/sqlite/migrations), with those
-- that the repositories keep by what they write.
use travelmap.Base.{◌≤◌, ◌≡◌, true}
use travelmap.Base.Members.{In}
use travelmap.Model.{Point}
use travelmap.Store.{Db, Job, unix_time, known_user}
use travelmap.Store.Points.{same_key}

pub record PointsIsWellFormed (db : Db) : Type 0 where
  -- PRIMARY KEY AUTOINCREMENT
  pub ids : (p q : Point) → In p db.points → In q db.points → p.id ≡ q.id → p ≡ q
  pub fresh : (p : Point) → In p db.points → p.id ≤ db.point_seq
  -- points_user_id_timestamp_key
  pub keys : (p q : Point) → In p db.points → In q db.points → same_key p q ≡ true → p ≡ q
  -- A column of times holds whole seconds.
  pub whole : (p : Point) → In p db.points → unix_time p.timestamp ≡ p.timestamp
  -- REFERENCES users (id)
  pub known : (p : Point) → In p db.points → known_user db p.user_id ≡ true

pub record JobsIsWellFormed (db : Db) : Type 0 where
  -- PRIMARY KEY AUTOINCREMENT
  pub ids : (j k : Job) → In j db.jobs → In k db.jobs → j.id ≡ k.id → j ≡ k
  pub fresh : (j : Job) → In j db.jobs → j.id ≤ db.job_seq
  -- REFERENCES users (id)
  pub known : (j : Job) → In j db.jobs → known_user db j.user_id ≡ true
