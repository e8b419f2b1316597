-- ===== src/Ingest/Sound/Single.antt =====
-- internal/ingest/mutate.go: `UpdatePoint` and `DeletePoint`.
use travelmap.Base.{
  ℕ, ◌≡◌, refl, sym, ap, ◌∙◌, subst, List, [], ◌∷◌, map, none, some, find, length, filter, not, inl,
  inr, Option-cases,
}
use travelmap.Model.{Time, Float64, Point}
use travelmap.Model.Zone.{Zone, IsRegular}
use travelmap.Geo.{FloatOps}
use travelmap.Exec.{Env, Error, not_found, statement}
use travelmap.Exec.Ensures.{
  Ensures, Ensures-pure, Ensures-statement, Ensures-now, Ensures-bind, Ensures-weaken, Ensures-from,
  Ensures-tx, Outcome,
}
use travelmap.Store.{Db, unix_time}
use travelmap.Store.Points
use travelmap.Store.Points.{owned, move_to, update_row, doomed}
use travelmap.Ingest.{Touch, rebuild_affected_days, update_point, delete_point}
use travelmap.Ingest.Change.{Changed, with_points, delete-Changed, update-Changed}
use travelmap.Ingest.Consistent.{Refreshed}
use travelmap.Ingest.Sound.{IsSound, refresh}

abbrev pub touches_of : ℕ → List Time → List Touch
touches_of user timestamps = map (λ ts. record { user_id = user; timestamp = ts }) timestamps

-- The user's row of that id is gone, and its time is returned.
record RowDeleted (user id : ℕ) (db : Db) (time : Time) (d : Db) : Type 0 where
  row : Point
  found : find (owned user id) db.points ≡ some row
  timed : time ≡ row.timestamp
  table : d ≡ with_points db (filter (λ q. not (owned user id q)) db.points)

-- The user's row of that id has the coordinates, and is returned as it now is.
record RowUpdated (user id latitude longitude : ℕ) (db : Db) (updated : Point) (d : Db)
    : Type 0 where
  row : Point
  now : Time
  found : find (owned user id) db.points ≡ some row
  moved : updated ≡ move_to now latitude longitude row
  table : d ≡ with_points db (map (update_row user id (move_to now latitude longitude)) db.points)

module _ (env : Env) (C : Error → Type 0) (user id : ℕ) (db : Db)
    (refuse : find (owned user id) db.points ≡ none → C not_found) where
  delete-Deleted : Ensures env (λ d. d ≡ db) (Points.delete user id) (RowDeleted user id db) C
  unfolding Points.delete
  delete-Deleted = Ensures-statement env C (Points.delete_point user id) (λ d e. rw e outcome)
    where
      outcome :
          Outcome env
            (RowDeleted user id db)
            C
            (Points.delete_point user id db).0
            (Points.delete_point user id db).1
      outcome = elim (Option-cases (find (owned user id) db.points)) [
        | inl n ↦ rw (n, Points.delete_point) (inr (refuse n))
        | inr (p, n) ↦
            rw (n, Points.delete_point) (record { row = p; found = n; timed = refl; table = refl })
      ]

  update-Updated :
      (latitude longitude : Float64)
      → Ensures env
          (λ d. d ≡ db)
          (Points.update user id latitude longitude)
          (RowUpdated user id latitude longitude db)
          C
  unfolding Points.update
  update-Updated latitude longitude =
      Ensures-now env C
        (λ now.
          statement (Points.update_point user id (move_to (unix_time now) latitude longitude)))
        (λ now.
          Ensures-statement env C
            (Points.update_point user id (move_to (unix_time now) latitude longitude))
            (λ d e. rw e (outcome now)))
    where
      outcome :
          (now : Time)
          → Outcome env
              (RowUpdated user id latitude longitude db)
              C
              (Points.update_point user id (move_to (unix_time now) latitude longitude) db).0
              (Points.update_point user id (move_to (unix_time now) latitude longitude) db).1
      outcome now = elim (Option-cases (find (owned user id) db.points)) [
        | inl n ↦ rw (n, Points.update_point) (inr (refuse n))
        | inr (p, n) ↦
            rw (n, Points.update_point)
              (record { row = p; now = unix_time now; found = n; moved = refl; table = refl })
      ]

-- What is expected of a row that is moved.
abbrev pub relocated : Time → Float64 → Float64 → Point → Point
relocated now latitude longitude p = record p {
  latitude = latitude;
  longitude = longitude;
  updated_at = now;
}

module _ (ops : FloatOps) (z : Zone) (track_break : ℕ) where
  -- What `DeletePoint` leaves.
  pub record PointDeleted (user id : ℕ) (before after : Db) : Type 0 where
    pub row : Point
    pub found : find (owned user id) before.points ≡ some row
    pub refreshed :
        Refreshed ops z track_break
          (record { user_id = user; timestamp = row.timestamp } ∷ [])
          (with_points before (filter (λ q. not (owned user id q)) before.points))
          after
    pub sound : IsSound ops z track_break after

  -- What `UpdatePoint` leaves, and the point that it returns.
  pub record PointUpdated (user id latitude longitude : ℕ) (before : Db) (updated : Point)
      (after : Db) : Type 0 where
    pub row : Point
    pub now : Time
    pub found : find (owned user id) before.points ≡ some row
    pub moved : updated ≡ relocated now latitude longitude row
    pub refreshed :
        Refreshed ops z track_break
          (record { user_id = user; timestamp = row.timestamp } ∷ [])
          (with_points before
            (map (update_row user id (relocated now latitude longitude)) before.points))
          after
    pub sound : IsSound ops z track_break after

  -- What `DeletePoints` leaves, and the count that it returns.
  pub record PointsDeleted (user : ℕ) (ids : List ℕ) (before : Db) (count : ℕ) (after : Db)
      : Type 0 where
    pub counted : count ≡ length (filter (doomed user ids) before.points)
    pub refreshed :
        Refreshed ops z track_break
          (touches_of user
            (map (λ (p : Point). p.timestamp) (filter (doomed user ids) before.points)))
          (with_points before (filter (λ p. not (doomed user ids p)) before.points))
          after
    pub sound : IsSound ops z track_break after

module _ {z : Zone} (v : IsRegular z) (ops : FloatOps) (track_break : ℕ) (env : Env)
    (C : Error → Type 0) (db : Db) (s : IsSound ops z track_break db) where
  module _ (user id : ℕ) (refuse : find (owned user id) db.points ≡ none → C not_found) where
    refresh-Deleted :
        (t : Time) (mid : Db)
        → RowDeleted user id db t mid
        → Ensures env
            (λ d. d ≡ mid)
            (rebuild_affected_days ops z track_break
              (record { user_id = user; timestamp = t } ∷ []))
            (λ _ d. PointDeleted ops z track_break user id db d)
            C
    refresh-Deleted t mid r =
        Ensures-weaken env C (λ d e. e ∙ r.table)
          (λ _ d q. record {
            row = r.row;
            found = r.found;
            refreshed =
                subst
                  (λ x.
                    Refreshed ops z track_break (record { user_id = user; timestamp = x } ∷ [])
                      (with_points db (filter (λ q. not (owned user id q)) db.points)) d)
                  r.timed q.0;
            sound = q.1;
          })
          (refresh v ops track_break env C (record { user_id = user; timestamp = t } ∷ []) db
            (with_points db (filter (λ q. not (owned user id q)) db.points))
            (subst
              (λ x.
                Changed (record { user_id = user; timestamp = x } ∷ []) db
                  (with_points db (filter (λ q. not (owned user id q)) db.points)))
              (sym r.timed) (delete-Changed db s.rows user id r.row r.found))
            s)

    pub delete_point-Ensures :
        Ensures env
          (λ d. d ≡ db)
          (delete_point ops z track_break user id)
          (λ _ d. PointDeleted ops z track_break user id db d)
          C
    unfolding delete_point
    delete_point-Ensures = Ensures-tx env C (
        Ensures-bind env C (delete-Deleted env C user id db refuse)
          (λ t. Ensures-from env C (λ mid r. refresh-Deleted t mid r)))

    refresh-Updated :
        (latitude longitude : Float64) (updated : Point) (mid : Db)
        → RowUpdated user id latitude longitude db updated mid
        → Ensures env
            (λ d. d ≡ mid)
            (rebuild_affected_days ops z track_break
              (record { user_id = user; timestamp = updated.timestamp } ∷ []))
            (λ _ d. PointUpdated ops z track_break user id latitude longitude db updated d)
            C
    refresh-Updated latitude longitude updated mid r =
        Ensures-weaken env C (λ d e. e ∙ r.table)
          (λ _ d q. record {
            row = r.row;
            now = r.now;
            found = r.found;
            moved = r.moved;
            refreshed =
                subst
                  (λ x.
                    Refreshed ops z track_break (record { user_id = user; timestamp = x } ∷ [])
                      (with_points db
                        (map (update_row user id (move_to r.now latitude longitude)) db.points))
                      d)
                  timed q.0;
            sound = q.1;
          })
          (refresh v ops track_break env C
            (record { user_id = user; timestamp = updated.timestamp } ∷ []) db
            (with_points db (map (update_row user id (move_to r.now latitude longitude)) db.points))
            (subst
              (λ x. Changed (record { user_id = user; timestamp = x } ∷ []) db (
                with_points db
                  (map (update_row user id (move_to r.now latitude longitude)) db.points)))
              (sym timed) (update-Changed db s.rows user id r.now latitude longitude r.row r.found))
            s)
      where
        timed : updated.timestamp ≡ r.row.timestamp
        timed = ap (λ (x : Point). x.timestamp) r.moved

    pub update_point-Ensures :
        (latitude longitude : Float64)
        → Ensures env
            (λ d. d ≡ db)
            (update_point ops z track_break user id latitude longitude)
            (PointUpdated ops z track_break user id latitude longitude db)
            C
    unfolding update_point
    update_point-Ensures latitude longitude = Ensures-tx env C (
        Ensures-bind env C (update-Updated env C user id db refuse latitude longitude) (λ updated.
          Ensures-from env C (λ mid r.
            Ensures-bind env C (refresh-Updated latitude longitude updated mid r)
              (λ _. Ensures-pure env C updated (λ d q. q)))))
