-- ===== src/Ingest/Consistent.antt =====
-- internal/ingest/rebuild.go `rebuildAffectedDays`: what it means that daily_stats agrees with the
-- points, and the rebuild after a change to them.
use travelmap.Base.{
  ℕ, ◌≡◌, refl, sym, ap, subst, ◌∙◌, true, ◌||◌, inl, inr, List, [], ◌∷◌, ◌==◌, any, filter, map,
  false, arith, Bool-cases,
}
use travelmap.Base.Members.{In, here, there, In-map, of_any-false}
use travelmap.Model.{Point, DailyStat}
use travelmap.Model.Zone.{Zone, IsRegular}
use travelmap.Geo.{FloatOps}
use travelmap.Exec.{Env, Error}
use travelmap.Exec.Ensures.{Ensures, Ensures-bind, Ensures-weaken, Ensures-given, Ensures-from}
use travelmap.Store.WellFormed.{JobsIsWellFormed}
use travelmap.Store.{Db, known_user}
use travelmap.Store.DailyStats.Rebuilt.{find_stat, row_of_totals, stat_of, SameStats}
use travelmap.Ingest.{Touch, DayKey, same_day, rebuild_affected_days}
use travelmap.Ingest.Touches.{Touches, Covers}
use travelmap.Ingest.Unaffected.{unaffected}
use travelmap.Ingest.Rebuilds.{StatsRebuilt, rebuild_days-Rebuilt, known_rest}
use travelmap.Ingest.Affected.{affected_days-Covers}
use travelmap.Ingest.Requests.{
  pending, SameJobs, Requested, users_of, enqueue_track_rebuilds-Requested,
}

-- Every row of daily_stats, and every row that is missing, is what these points call for.
pub record StatsMatch (ops : FloatOps) (z : Zone) (track_break : ℕ) (points : List Point) (db : Db)
    : Type 0 where
  pub stat : (u l : ℕ) → find_stat u l db.daily_stats ≡ stat_of ops z track_break points u l

abbrev pub IsConsistent : FloatOps → Zone → ℕ → Db → Type 0
IsConsistent ops z track_break db = StatsMatch ops z track_break db.points db

-- What the second half of a mutation leaves.
pub record Refreshed (ops : FloatOps) (z : Zone) (track_break : ℕ) (ts : List Touch)
    (before after : Db) : Type 0 where
  pub rest : after ≡ record before {
    daily_stats = after.daily_stats;
    jobs = after.jobs;
    job_seq = after.job_seq;
  }
  pub stats : IsConsistent ops z track_break after
  pub requests : (v : ℕ) → pending v after ≡ (any (λ u. u == v) (users_of ts) || pending v before)
  pub queue : JobsIsWellFormed before → JobsIsWellFormed after
  pub others : SameJobs (users_of ts) before after
  pub kept : SameStats (users_of ts) before after

stats-IsWellFormed :
    (db : Db) (ss : List DailyStat)
    → JobsIsWellFormed db
    → JobsIsWellFormed (record db { daily_stats = ss })
unfolding known_user
stats-IsWellFormed db ss v = record { ids = v.ids; fresh = v.fresh; known = v.known }

-- A user with a touched day is one of those who are reported.
not_of_days :
    (ts : List Touch) (v : ℕ) (days : List DayKey)
    → ((k : DayKey) → In k days → (t : Touch) × In t ts × (t.user_id ≡ k.user_id))
    → any (λ u. u == v) (users_of ts) ≡ false
    → any (λ u. u == v) (map (λ (k : DayKey). k.user_id) days) ≡ false
not_of_days ts v [] own h = refl
not_of_days ts v (k ∷ ks) own h =
    let (t, i, e) = own k (here refl) in
    ground (
      arith,
      h,
      of_any-false (λ u. u == v) (users_of ts) t.user_id (In-map (λ (x : Touch). x.user_id) ts t i)
          h,
      e,
      not_of_days ts v ks (λ x j. own x (there j)) h,
    )

Refreshed-of :
    {z : Zone} (ops : FloatOps) (track_break : ℕ) {ts : List Touch} {days : List DayKey}
    {db d₁ d₂ : Db}
    → StatsMatch ops z track_break db.points d₁
    → StatsRebuilt ops z track_break days db d₁
    → ((k : DayKey) → In k days → (t : Touch) × In t ts × (t.user_id ≡ k.user_id))
    → Requested (users_of ts) d₁ d₂
    → Refreshed ops z track_break ts db d₂
Refreshed-of {z} ops track_break {ts} {days} {db} {d₁} {d₂} match r own q = record {
  rest =
      q.rest
      ∙ ap (λ (x : Db). record x { jobs = d₂.jobs; job_seq = d₂.job_seq }) r.rest
      ∙ ap (λ s. record db { daily_stats = s; jobs = d₂.jobs; job_seq = d₂.job_seq })
          (sym (ap (λ (x : Db). x.daily_stats) q.rest));
  stats = record {
    stat = λ u l.
        ap (λ (x : Db). find_stat u l x.daily_stats) q.rest
        ∙ match.stat u l
        ∙ ap (λ ps. stat_of ops z track_break ps u l)
            (sym (ap (λ (x : Db). x.points) q.rest ∙ ap (λ (x : Db). x.points) r.rest));
  };
  requests =
      λ w. q.requests w ∙ ap (λ (x : Db). any (λ u. u == w) (users_of ts) || pending w x) r.rest;
  queue =
      λ v. q.queue (subst JobsIsWellFormed (sym r.rest) (stats-IsWellFormed db d₁.daily_stats v));
  others = λ p n. q.others p n ∙ ap (λ (x : Db). filter p x.jobs) r.rest;
  kept = λ p n.
      ap (λ (x : Db). filter p x.daily_stats) q.rest
      ∙ r.kept p (λ s t. not_of_days ts s.user_id days own (n s t));
}

module _ {z : Zone} (v : IsRegular z) (ops : FloatOps) (track_break : ℕ) {ts : List Touch}
    {before : List Point} where
  stats_after :
      {days : List DayKey} {db d : Db}
      → Touches ts before db.points
      → StatsMatch ops z track_break before db
      → Covers z ts db.points days
      → StatsRebuilt ops z track_break days db d
      → StatsMatch ops z track_break db.points d
  stats_after {days} {db} {d} moved match covered r = record {
    stat = λ u l.
        elim (Bool-cases (any (same_day (record { user_id = u; day = z.date l 0 })) days)) [
          | inl e ↦ r.listed u l e
          | inr e ↦
              r.others u l e
              ∙ match.stat u l
              ∙ ap (row_of_totals u l) (sym (unaffected v moved covered u l e ops track_break))
        ];
  }

  module _ (env : Env) (C : Error → Type 0) where
    pub rebuild_affected_days-Refreshed :
        (db : Db)
        → Touches ts before db.points
        → StatsMatch ops z track_break before db
        → ((t : Touch) → In t ts → known_user db t.user_id ≡ true)
        → Ensures env
            (λ d. d ≡ db)
            (rebuild_affected_days ops z track_break ts)
            (λ _ d. Refreshed ops z track_break ts db d)
            C
    unfolding rebuild_affected_days
    rebuild_affected_days-Refreshed db moved match known =
        Ensures-bind env C (affected_days-Covers env C z db ts) (λ days.
          Ensures-given env C (λ d p. p.1)
            (λ covered.
              Ensures-bind env C
                (Ensures-weaken env C (λ d p. p.0) (λ _ d r. r)
                  (rebuild_days-Rebuilt v ops track_break env C days db covered.midnights (λ k i.
                    let (o, j, e) = covered.owners k i in
                    subst (λ u. known_user db u ≡ true) e (known o j))))
                (λ _. Ensures-from env C (λ d₁ r.
                  Ensures-weaken env C (λ d p. p)
                    (λ _ d₂ q.
                      Refreshed-of ops track_break (stats_after moved match covered r) r
                        covered.owners q)
                    (enqueue_track_rebuilds-Requested env C ts d₁
                      (λ t i. known_rest db d₁ t.user_id r.rest ∙ known t i))))))
