-- ===== src/Ingest/Sound/Mutate.antt =====
-- internal/ingest/mutate.go: `DeletePoints`.
use travelmap.Base.{
  ℕ, ◌≡◌, refl, sym, ap, ◌∙◌, subst, List, [], ◌∷◌, map, length, length-map, filter-all,
  filter-none, true, false, arith, filter, not,
}
use travelmap.Model.{Time, Point}
use travelmap.Model.Zone.{Zone, IsRegular}
use travelmap.Geo.{FloatOps}
use travelmap.Exec.{Env, Error}
use travelmap.Exec.Ensures.{
  Ensures, Ensures-pure, Ensures-statement, Ensures-bind, Ensures-weaken, Ensures-from, Ensures-tx,
}
use travelmap.Store.{Db}
use travelmap.Store.Points
use travelmap.Store.Points.{owned, move_to, update_row, doomed}
use travelmap.Ingest.{rebuild_affected_days, delete_points}
use travelmap.Ingest.Change.{Changed, with_points, delete_bulk-Changed}
use travelmap.Ingest.Consistent.{Refreshed}
use travelmap.Ingest.Sound.{IsSound, refresh}
use travelmap.Ingest.Sound.Single.{touches_of, PointsDeleted}

module _ {z : Zone} (v : IsRegular z) (ops : FloatOps) (track_break : ℕ) (env : Env)
    (C : Error → Type 0) (db : Db) (s : IsSound ops z track_break db) where
  spared : (user : ℕ) (p : Point) → doomed user [] p ≡ false
  spared user p = ground arith

  kept : (user : ℕ) (p : Point) → not (doomed user [] p) ≡ true
  kept user p = ground (arith, spared user p)

  bulk-Ensures :
      (user : ℕ) (ids : List ℕ)
      → Ensures env
          (λ d. d ≡ db)
          (Points.delete_bulk user ids)
          (λ timestamps d.
            (timestamps ≡ map (λ (p : Point). p.timestamp) (filter (doomed user ids) db.points))
            × (d ≡ with_points db (filter (λ p. not (doomed user ids p)) db.points)))
          C
  unfolding Points.delete_bulk
  bulk-Ensures user [] = Ensures-pure env C [] (λ d e. (
    ap (map (λ (p : Point). p.timestamp))
        (sym (filter-none (doomed user []) db.points (spared user))),
    e ∙ ap (with_points db) (sym (filter-all (λ p. not (doomed user [] p)) db.points (kept user))),
  ))
  bulk-Ensures user (i ∷ ids) =
      Ensures-statement env C (Points.delete_rows user (i ∷ ids))
        (λ d e. rw (e, Points.delete_rows) (refl, refl))

  refresh-bulk :
      (user : ℕ) (ids : List ℕ) (timestamps : List Time) (mid : Db)
      → (timestamps ≡ map (λ (p : Point). p.timestamp) (filter (doomed user ids) db.points))
      → (mid ≡ with_points db (filter (λ p. not (doomed user ids p)) db.points))
      → Ensures env
          (λ d. d ≡ mid)
          (rebuild_affected_days ops z track_break (touches_of user timestamps))
          (λ _ d. PointsDeleted ops z track_break user ids db (length timestamps) d)
          C
  refresh-bulk user ids timestamps mid e t =
      Ensures-weaken env C (λ d f. f ∙ t)
        (λ _ d q. record {
          counted =
              ap length e
              ∙ length-map (λ (p : Point). p.timestamp) (filter (doomed user ids) db.points);
          refreshed =
              subst
                (λ x.
                  Refreshed ops z track_break (touches_of user x)
                    (with_points db (filter (λ p. not (doomed user ids p)) db.points)) d)
                e q.0;
          sound = q.1;
        })
        (refresh v ops track_break env C (touches_of user timestamps) db
          (with_points db (filter (λ p. not (doomed user ids p)) db.points))
          (subst
            (λ x.
              Changed (touches_of user x) db
                (with_points db (filter (λ p. not (doomed user ids p)) db.points)))
            (sym e) (delete_bulk-Changed db s.rows user ids))
          s)

  pub delete_points-Ensures :
      (user : ℕ) (ids : List ℕ)
      → Ensures env
          (λ d. d ≡ db)
          (delete_points ops z track_break user ids)
          (PointsDeleted ops z track_break user ids db)
          C
  unfolding delete_points
  delete_points-Ensures user ids = Ensures-tx env C (
      Ensures-bind env C (bulk-Ensures user ids) (λ timestamps. Ensures-from env C (λ mid r.
        Ensures-bind env C (refresh-bulk user ids timestamps mid r.0 r.1)
          (λ _. Ensures-pure env C (length timestamps) (λ d q. q)))))
