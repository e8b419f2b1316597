-- ===== src/Ingest/Sound.antt =====
-- internal/ingest/create.go and mutate.go: the invariant of the tables that a mutation of a point
-- writes, and `CreatePoints`.
pub mod Single
pub mod Mutate
pub mod Outcomes
pub mod History
use travelmap.Base.{
  ℕ, ◌≤◌, ◌≡◌, refl, sym, ap, ◌∙◌, subst, true, false, ◌||◌, List, [], ◌∷◌, map, none, some, find,
  any, ◌==◌, arith, Bool-cases, Option-cases, length, filter, inl, inr,
}
use travelmap.Base.Members.{In}
use travelmap.Model.{Time, Point}
use travelmap.Model.Zone.{Zone, IsRegular}
use travelmap.Geo.{FloatOps}
use travelmap.Exec.{Env, World, Error, ok, err, not_found, foreign_key}
use travelmap.Exec.Atomic.{IsAtomic, tx-IsAtomic, atomic_keeps, Any}
use travelmap.Exec.Ensures.{
  Ensures, Ensures-pure, Ensures-statement, Ensures-now, Ensures-bind, Ensures-weaken, Ensures-from,
  Ensures-tx, Outcome,
}
use travelmap.Store.{Db, Action, unix_time, known_user}
use travelmap.Store.WellFormed.{JobsIsWellFormed, PointsIsWellFormed}
use travelmap.Store.DailyStats.Rebuilt.{find_stat, stat_of}
use travelmap.Store.Points
use travelmap.Store.Points.{owned, move_to, update_row, doomed}
use travelmap.Ingest.{
  Touch, touch_of, rebuild_affected_days, create_points, update_point, delete_point, delete_points,
}
use travelmap.Ingest.Requests.{pending, users_of}
use travelmap.Ingest.Touches.{hits}
use travelmap.Base.Sort.{sort}
use travelmap.Store.Points.{earlier, select_ordered}
use travelmap.Track.{build}
use travelmap.Track.Current.{IsCurrent, stored_tracks, rows_of}
use travelmap.Track.Rounds.{IsServed}
use travelmap.Ingest.Create.{Created, create-Created}
use travelmap.Ingest.Change.{
  Changed, Created-Changed, with_points, delete-Changed, delete_bulk-Changed, update-Changed,
  bulk_touches,
}
use travelmap.Ingest.Consistent.{
  StatsMatch, IsConsistent, Refreshed, rebuild_affected_days-Refreshed,
}

-- The points table is well-formed, daily_stats agrees with it, and so do the tracks of every user
-- for whom no rebuild is requested.
pub record IsSound (ops : FloatOps) (z : Zone) (track_break : ℕ) (db : Db) : Type 0 where
  pub rows : PointsIsWellFormed db
  pub stats : IsConsistent ops z track_break db
  pub tracks : IsServed ops track_break db

known-refreshed :
    (d d₁ : Db) (u : ℕ)
    → d₁ ≡ record d { daily_stats = d₁.daily_stats; jobs = d₁.jobs; job_seq = d₁.job_seq }
    → known_user d₁ u ≡ known_user d u
unfolding known_user
known-refreshed d d₁ u h = ap (λ (x : Db). known_user x u) h

refreshed-rows :
    (d d₁ : Db)
    → d₁ ≡ record d { daily_stats = d₁.daily_stats; jobs = d₁.jobs; job_seq = d₁.job_seq }
    → PointsIsWellFormed d
    → PointsIsWellFormed d₁
refreshed-rows d d₁ h v = record {
  ids = λ p q i j e. v.ids p q (back p i) (back q j) e;
  fresh =
      λ p i. subst (λ n. p.id ≤ n) (sym (ap (λ (x : Db). x.point_seq) h)) (v.fresh p (back p i));
  keys = λ p q i j e. v.keys p q (back p i) (back q j) e;
  whole = λ p i. v.whole p (back p i);
  known = λ p i. known-refreshed d d₁ p.user_id h ∙ v.known p (back p i);
}
  where
    back : (p : Point) → In p d₁.points → In p d.points
    back p i = subst (In p) (ap (λ (x : Db). x.points) h) i

points-IsWellFormed :
    (db : Db) (ps : List Point) (n : ℕ)
    → JobsIsWellFormed db
    → JobsIsWellFormed (record db { points = ps; point_seq = n })
unfolding known_user
points-IsWellFormed db ps n v = record { ids = v.ids; fresh = v.fresh; known = v.known }

-- A row of a user whom no report names is not reported.
unreported :
    (u : ℕ) (ts : List Touch) (r : Point)
    → any (λ v. v == u) (users_of ts) ≡ false
    → r.user_id ≡ u
    → hits ts r ≡ false
unreported u [] r h e = refl
unreported u (t ∷ ts) r h e = ground (arith, h, e, unreported u ts r)

module _ (ops : FloatOps) (z : Zone) (track_break : ℕ) where
  -- The tracks of a user who is not reported are as they were, as are the points.
  Refreshed-IsCurrent :
      (ts : List Touch) (before mid after : Db) (u : ℕ)
      → Changed ts before mid
      → Refreshed ops z track_break ts mid after
      → any (λ v. v == u) (users_of ts) ≡ false
      → IsCurrent ops track_break u before
      → IsCurrent ops track_break u after
  unfolding select_ordered
  Refreshed-IsCurrent ts before mid after u c r h cur =
      ap (stored_tracks u) (
        r.rest
        ∙ ap
            (λ (x : Db). record x {
              daily_stats = after.daily_stats;
              jobs = after.jobs;
              job_seq = after.job_seq;
            })
            c.rest)
      ∙ cur
      ∙ ap (λ ps. rows_of u (build ops track_break (sort earlier ps)))
          (sym (
            ap (λ (x : Db). filter (λ (p : Point). p.user_id == u) x.points) r.rest
            ∙ c.touches.stays (λ (p : Point). p.user_id == u)
                (λ p e. unreported u ts p h (ground (arith, e)))))

  Refreshed-IsServed :
      (ts : List Touch) (before mid after : Db)
      → Changed ts before mid
      → Refreshed ops z track_break ts mid after
      → IsServed ops track_break before
      → IsServed ops track_break after
  Refreshed-IsServed ts before mid after c r s = record {
    jobs = r.queue (
        subst JobsIsWellFormed (sym c.rest)
          (points-IsWellFormed before mid.points mid.point_seq s.jobs));
    served = λ u. elim (Bool-cases (any (λ v. v == u) (users_of ts))) [
      | inl e ↦ inl (r.requests u ∙ ap (λ b. b || pending u mid) e)
      | inr e ↦ elim (s.served u) [
        | inl p ↦ inl (r.requests u ∙ ap (λ b. b || pending u mid) e ∙ ap (pending u) c.rest ∙ p)
        | inr cur ↦ inr (Refreshed-IsCurrent ts before mid after u c r e cur)
      ]
    ];
  }

  -- What `CreatePoints` leaves: `mid` is the database after the INSERTs.
  pub record PointsCreated (ps : List Point) (before after : Db) (count : ℕ) : Type 0 where
    pub mid : Db
    pub created : Created ps before mid count
    pub refreshed : Refreshed ops z track_break (map touch_of ps) mid after
    pub sound : IsSound ops z track_break after

module _ {z : Zone} (v : IsRegular z) (ops : FloatOps) (track_break : ℕ) (env : Env)
    (C : Error → Type 0) where
  -- The second half of a mutation, after the statement that changed the points.
  pub refresh :
      (ts : List Touch) (before mid : Db)
      → Changed ts before mid
      → IsSound ops z track_break before
      → Ensures env
          (λ d. d ≡ mid)
          (rebuild_affected_days ops z track_break ts)
          (λ _ d. Refreshed ops z track_break ts mid d × IsSound ops z track_break d)
          C
  refresh ts before mid c s =
      Ensures-weaken env C (λ d e. e)
        (λ _ d r. (
          r,
          record {
            rows = refreshed-rows mid d r.rest c.well_formed;
            stats = r.stats;
            tracks = Refreshed-IsServed ops z track_break ts before mid d c r s.tracks;
          },
        ))
        (rebuild_affected_days-Refreshed v ops track_break env C mid c.touches
          (record {
            stat = λ u l. ap (λ (x : Db). find_stat u l x.daily_stats) c.rest ∙ s.stats.stat u l;
          })
          c.known)

  pub create_points-Ensures :
      (ps : List Point) (db : Db)
      → ((p : Point) → In p ps → known_user db p.user_id ≡ false → C foreign_key)
      → IsSound ops z track_break db
      → Ensures env
          (λ d. d ≡ db)
          (create_points ops z track_break ps)
          (λ n d. PointsCreated ops z track_break ps db d n)
          C
  unfolding create_points
  create_points-Ensures ps db refuse s = Ensures-tx env C (
      Ensures-bind env C (create-Created env C ps db refuse) (λ n. Ensures-from env C (λ mid c.
        Ensures-bind env C (refresh (map touch_of ps) db mid (Created-Changed s.rows c) s) (λ _.
          Ensures-pure env C n
            (λ d r. record { mid = mid; created = c; refreshed = r.0; sound = r.1 })))))
