-- ===== src/Ingest/Sound/History.antt =====
-- internal/ingest and internal/track/worker.go: histories of mutations and drains.
use travelmap.Base.{suc, length, arith, subst, sym, ℕ, ◌≡◌, refl, false, List}
use travelmap.Model.{Float64, Point}
use travelmap.Model.Zone.{Zone, IsRegular}
use travelmap.Geo.{FloatOps}
use travelmap.Exec.{Env, outside}
use travelmap.Exec.Atomic.{atomic_keeps, Any}
use travelmap.Store.{Db, known_user}
use travelmap.Track.{drain}
use travelmap.Track.Current.{IsCurrent}
use travelmap.Track.Rounds.{IsServed}
use travelmap.Track.Worker.{drain-Drained, drain-IsCurrent}
use travelmap.Ingest.Consistent.{IsConsistent}
use travelmap.Ingest.Atomic.{
  create_points-IsAtomic, update_point-IsAtomic, delete_point-IsAtomic, delete_points-IsAtomic,
}
use travelmap.Exec.Ensures.{Ensures-weaken, Healthy}
use travelmap.Ingest.{create_points, update_point, delete_point, delete_points}
use travelmap.Ingest.Sound.{IsSound, create_points-Ensures}
use travelmap.Ingest.Sound.Single.{update_point-Ensures, delete_point-Ensures}
use travelmap.Ingest.Sound.Mutate.{delete_points-Ensures}

-- One call of the package, with what it is given.
pub data Mutation : Type 0 where
  create : (points : List Point) → Mutation
  update : (user id : ℕ) (latitude longitude : Float64) → Mutation
  delete : (user id : ℕ) → Mutation
  delete_many : (user : ℕ) (ids : List ℕ) → Mutation

module _ (ops : FloatOps) (z : Zone) (track_break : ℕ) where
  -- The database after a call that begins outside a transaction.
  abbrev pub mutate : Mutation → Env → Db → Db
  mutate (create ps) env db = (create_points ops z track_break ps env (outside db)).1.db
  mutate (update user id latitude longitude) env db =
      (update_point ops z track_break user id latitude longitude env (outside db)).1.db
  mutate (delete user id) env db = (delete_point ops z track_break user id env (outside db)).1.db
  mutate (delete_many user ids) env db =
      (delete_points ops z track_break user ids env (outside db)).1.db

  -- The worker's `drain`, run to its end.
  abbrev pub work : Env → Db → Db
  work env db = (drain ops track_break (suc (length db.jobs)) env (outside db)).1.db

  -- Any number of calls and of drains, each in an environment of its own.
  pub data History : Db → Db → Type 0 where
    start : {db : Db} → History db db
    mutated :
        {first last : Db} (env : Env) (m : Mutation)
        → History first last
        → History first (mutate m env last)
    worked : {first last : Db} (env : Env) → History first last → History first (work env last)

  -- The tables that the worker writes are none of those that the other invariants read.
  rebuilt-IsSound :
      (db d : Db)
      → IsSound ops z track_break db
      → IsServed ops track_break
          (record db { tracks = d.tracks; track_seq = d.track_seq; jobs = d.jobs })
      → IsSound ops z track_break
          (record db { tracks = d.tracks; track_seq = d.track_seq; jobs = d.jobs })
  unfolding known_user
  rebuilt-IsSound db d s served = record {
    rows = record {
      ids = s.rows.ids;
      fresh = s.rows.fresh;
      keys = s.rows.keys;
      whole = s.rows.whole;
      known = s.rows.known;
    };
    stats = record { stat = s.stats.stat };
    tracks = served;
  }

  module _ (v : IsRegular z) where
    mutate-IsSound :
        (m : Mutation) (env : Env) (db : Db)
        → IsSound ops z track_break db
        → IsSound ops z track_break (mutate m env db)
    mutate-IsSound (create ps) env db s =
        atomic_keeps (IsSound ops z track_break) env (create_points ops z track_break ps)
          (outside db) (create_points-IsAtomic ops z track_break ps) refl
          (Ensures-weaken env Any (λ d e. e) (λ n d c. c.sound)
            (create_points-Ensures v ops track_break env Any ps db (λ p i e. tt) s))
          s
    mutate-IsSound (update user id latitude longitude) env db s =
        atomic_keeps (IsSound ops z track_break) env
          (update_point ops z track_break user id latitude longitude) (outside db)
          (update_point-IsAtomic ops z track_break user id latitude longitude) refl
          (Ensures-weaken env Any (λ d e. e) (λ p d u. u.sound)
            (update_point-Ensures v ops track_break env Any db s user id (λ e. tt) latitude
              longitude))
          s
    mutate-IsSound (delete user id) env db s =
        atomic_keeps (IsSound ops z track_break) env (delete_point ops z track_break user id)
          (outside db) (delete_point-IsAtomic ops z track_break user id) refl
          (Ensures-weaken env Any (λ d e. e) (λ p d u. u.sound)
            (delete_point-Ensures v ops track_break env Any db s user id (λ e. tt)))
          s
    mutate-IsSound (delete_many user ids) env db s =
        atomic_keeps (IsSound ops z track_break) env (delete_points ops z track_break user ids)
          (outside db) (delete_points-IsAtomic ops z track_break user ids) refl
          (Ensures-weaken env Any (λ d e. e) (λ p d u. u.sound)
            (delete_points-Ensures v ops track_break env Any db s user ids))
          s

    work-IsSound :
        (env : Env) (db : Db)
        → IsSound ops z track_break db
        → IsSound ops z track_break (work env db)
    work-IsSound env db s =
        let d =
          drain-Drained ops track_break env (suc (length db.jobs)) (outside db) refl s.tracks
            (omega arith) in
        subst (IsSound ops z track_break) (sym d.rest)
          (rebuilt-IsSound db (work env db) s (subst (IsServed ops track_break) d.rest d.served))

    -- In a location where every day has its midnight, any sequence of point mutations and
    -- worker drains, whatever statements fail in any of them, keeps the invariant: the points
    -- and the queue satisfy the schema's constraints, daily_stats has exactly the rows that
    -- the points call for, and each user's tracks are those of the points or their rebuild is
    -- requested.
    pub History-IsSound :
        (first last : Db)
        → History first last
        → IsSound ops z track_break first
        → IsSound ops z track_break last
    History-IsSound first last start s = s
    History-IsSound first last (mutated env m h) s =
        mutate-IsSound m env _ (History-IsSound first _ h s)
    History-IsSound first last (worked env h) s = work-IsSound env _ (History-IsSound first _ h s)

    -- In a location where every day has its midnight, after any sequence of point mutations
    -- and worker drains, each in an environment in which any statements may fail, from a
    -- database that satisfies the invariant, one drain that nothing fails or cancels leaves
    -- every row of daily_stats, and every user's tracks, as the points call for them.
    pub History-IsSettled :
        (first last : Db)
        → History first last
        → IsSound ops z track_break first
        → (env : Env) → Healthy env
        → ((k : ℕ) → env.done k ≡ false)
        → IsConsistent ops z track_break (work env last)
          × ((user : ℕ) → IsCurrent ops track_break user (work env last))
    History-IsSettled first last h s env healthy going =
        let t = History-IsSound first last h s in
        (
          (work-IsSound env last t).stats,
          drain-IsCurrent ops track_break env healthy going (suc (length last.jobs)) (outside last)
              refl t.tracks (omega arith),
        )
