-- ===== src/Track/Rounds.antt =====
-- internal/track/worker.go: one round of `drain`, which takes a request and rebuilds its user's
-- tracks.
use travelmap.Base.{
  ℕ, ◌<◌, ◌≡◌, refl, sym, ap, ◌∙◌, subst, Bool, true, false, not, ◌⊎◌, inl, inr, List, [], Option,
  none, some, ◌==◌, filter, arith, Bool-cases, Option-cases, length,
}
use travelmap.Base.Extremes.{first_by, first_by-eq-none, first_by-IsFirst}
use travelmap.Base.Members.{In, In-filter, of_In-filter, any-In, any_of_In, filter-length}
use travelmap.Model.{Track}
use travelmap.Geo.{FloatOps}
use travelmap.Exec.{Env, Error}
use travelmap.Exec.Ensures.{
  Ensures, Ensures-pure, Ensures-statement, Ensures-bind, Ensures-from, Ensures-tx, Outcome,
}
use travelmap.Store.{Db, Job, known_user}
use travelmap.Store.WellFormed.{JobsIsWellFormed}
use travelmap.Store.Points.{select_ordered}
use travelmap.Store.Tracks.{claim, next_pending, job_id}
use travelmap.Ingest.Requests.{pending}
use travelmap.Track.{build, rebuild_claimed, drain_one}
use travelmap.Track.Current.{IsCurrent, Replaced, rebuild_user-Replaced, rows_of}

-- The request is taken off the queue.
abbrev without : Job → Db → Db
without j db = record db { jobs = filter (λ (k : Job). not (k.id == j.id)) db.jobs }

known-without :
    (db : Db) (j : Job) (user : ℕ)
    → known_user db user ≡ true
    → known_user (without j db) user ≡ true
unfolding known_user
known-without db j user h = h

tracks-IsWellFormed :
    (db : Db) (ts : List Track) (n : ℕ)
    → JobsIsWellFormed db
    → JobsIsWellFormed (record db { tracks = ts; track_seq = n })
unfolding known_user
tracks-IsWellFormed db ts n v = record { ids = v.ids; fresh = v.fresh; known = v.known }

-- Nothing but the tracks and the queue differs.
abbrev pub Rest : Db → Db → Type 0
Rest before after =
    after ≡ record before { tracks = after.tracks; track_seq = after.track_seq; jobs = after.jobs }

pub Rest-after : (d d₁ d₂ : Db) → Rest d d₁ → Rest d₁ d₂ → Rest d d₂
Rest-after d d₁ d₂ a b =
    b ∙ ap (λ (x : Db). record x { tracks = d₂.tracks; track_seq = d₂.track_seq; jobs = d₂.jobs }) a

pub Rest-same : (d d₁ : Db) → d₁ ≡ d → Rest d d₁
Rest-same d d₁ h = subst (Rest d) (sym h) refl

module _ (ops : FloatOps) (track_break : ℕ) where
  -- Every user's tracks are those of the points, or their rebuild is requested.
  pub record IsServed (db : Db) : Type 0 where
    pub jobs : JobsIsWellFormed db
    pub served : (user : ℕ) → (pending user db ≡ true) ⊎ IsCurrent ops track_break user db

  -- A round took this request and rebuilt its user's tracks.
  pub record Served (before after : Db) : Type 0 where
    job : Job
    first : first_by job_id before.jobs ≡ some job
    replaced :
        Replaced job.user_id
          (build ops track_break (select_ordered job.user_id before.points))
          (without job before)
          after

  -- What a round leaves, by what it reports.
  abbrev pub Round : Db → Bool → Db → Type 0
  Round before false after = (after ≡ before) × (before.jobs ≡ [])
  Round before true after = Served before after

  -- The claim of a round.
  abbrev Claim : Db → Option ℕ → Db → Type 0
  Claim before none after = (after ≡ before) × (before.jobs ≡ [])
  Claim before (some user) after =
      (j : Job) × (first_by job_id before.jobs ≡ some j)
      × (j.user_id ≡ user)
      × (after ≡ without j before)

  module _ (env : Env) (C : Error → Type 0) where
    claim-Claim : (db : Db) → Outcome env (Claim db) C (claim db).0 (claim db).1
    unfolding claim
    claim-Claim db = elim (Option-cases (first_by job_id db.jobs)) [
      | inl e ↦ rw (e, claim) (refl, first_by-eq-none job_id db.jobs e)
      | inr (j, e) ↦ rw (e, claim) (j, e, refl, refl)
    ]

    serve :
        (before : Db) (j : Job)
        → JobsIsWellFormed before
        → first_by job_id before.jobs ≡ some j
        → Ensures env
            (λ d. d ≡ without j before)
            (rebuild_claimed ops track_break (some j.user_id))
            (Round before)
            C
    serve before j v e =
        Ensures-bind env C
          (rebuild_user-Replaced env C j.user_id ops track_break (without j before) (
            known-without before j j.user_id
              (v.known j (first_by-IsFirst job_id before.jobs j e).is_in)))
          (λ _. Ensures-pure env C true (λ d r. record { job = j; first = e; replaced = r }))

    rebuild_claimed-Round :
        (before mid : Db) (claimed : Option ℕ)
        → JobsIsWellFormed before
        → Claim before claimed mid
        → Ensures env (λ d. d ≡ mid) (rebuild_claimed ops track_break claimed) (Round before) C
    rebuild_claimed-Round before mid none v c = Ensures-pure env C false (λ d e. (e ∙ c.0, c.1))
    rebuild_claimed-Round before mid (some user) v c =
        subst
          (λ u.
            Ensures env (λ d. d ≡ mid) (rebuild_claimed ops track_break (some u)) (Round before) C)
          c.2
          (subst
            (λ m.
              Ensures env (λ d. d ≡ m) (rebuild_claimed ops track_break (some c.0.user_id))
                (Round before) C)
            (sym c.3) (serve before c.0 v c.1))

    pub drain_one-Round :
        (db : Db)
        → JobsIsWellFormed db
        → Ensures env (λ d. d ≡ db) (drain_one ops track_break) (Round db) C
    unfolding drain_one next_pending
    drain_one-Round db v = Ensures-tx env C (
        Ensures-bind env C {R = Claim db}
          (Ensures-statement env C claim (λ d e. rw e (claim-Claim db)))
          (λ claimed. Ensures-from env C (λ mid c. rebuild_claimed-Round db mid claimed v c)))

  without-IsWellFormed : (j : Job) (db : Db) → JobsIsWellFormed db → JobsIsWellFormed (without j db)
  without-IsWellFormed j db v = record {
    ids = λ k l p q e. v.ids k l (was k p) (was l q) e;
    fresh = λ k p. v.fresh k (was k p);
    known = λ k p. known-without db j k.user_id (v.known k (was k p));
  }
    where
      was : (k : Job) → In k (filter (λ (k : Job). not (k.id == j.id)) db.jobs) → In k db.jobs
      was k i = (of_In-filter (λ (k : Job). not (k.id == j.id)) db.jobs k i).0

  -- Another user's request stays.
  pending-without :
      (j : Job) (db : Db) (v : ℕ)
      → JobsIsWellFormed db
      → In j db.jobs
      → (v == j.user_id) ≡ false
      → pending v db ≡ true
      → pending v (without j db) ≡ true
  pending-without j db v w i h p =
      let (k, ki, ku) = any-In (λ (k : Job). k.user_id == v) db.jobs p in
      any_of_In (λ (k : Job). k.user_id == v) (filter (λ (k : Job). not (k.id == j.id)) db.jobs) k
        (In-filter (λ (k : Job). not (k.id == j.id)) db.jobs k ki
          (ground
            (arith, h, ku, λ (e : k.id ≡ j.id). ap (λ (x : Job). x.user_id) (w.ids k j ki i e))))
        ku

  same_points :
      (u : ℕ) (before after : Db)
      → after.points ≡ before.points
      → rows_of u (build ops track_break (select_ordered u before.points))
        ≡ rows_of u (build ops track_break (select_ordered u after.points))
  same_points u before after h =
      ap (λ ps. rows_of u (build ops track_break (select_ordered u ps))) (sym h)

  pub Served-IsServed : (before after : Db) → IsServed before → Served before after → IsServed after
  Served-IsServed before after s r = record {
    jobs = subst JobsIsWellFormed (sym r.replaced.rest) (
        tracks-IsWellFormed (without r.job before) after.tracks after.track_seq
          (without-IsWellFormed r.job before s.jobs));
    served = λ v. elim (Bool-cases (v == r.job.user_id)) [
      | inl e ↦ inr (
          subst (λ u. IsCurrent ops track_break u after) (ground (arith, e))
            (r.replaced.own ∙ same_points r.job.user_id before after points))
      | inr e ↦ elim (s.served v) [
        | inl p ↦ inl (
            ap (pending v) r.replaced.rest
            ∙ pending-without r.job before v s.jobs
                (first_by-IsFirst job_id before.jobs r.job r.first).is_in e p)
        | inr c ↦ inr (r.replaced.others v e ∙ c ∙ same_points v before after points)
      ]
    ];
  }
    where
      points : after.points ≡ before.points
      points = ap (λ (x : Db). x.points) r.replaced.rest

  pub Served-length :
      (before after : Db) → Served before after → length after.jobs < length before.jobs
  Served-length before after r =
      subst (λ js. length js < length before.jobs) (sym (ap (λ (x : Db). x.jobs) r.replaced.rest))
        (filter-length (λ (k : Job). not (k.id == r.job.id)) before.jobs r.job
          (first_by-IsFirst job_id before.jobs r.job r.first).is_in (ground arith))

  pub Served-Rest : (before after : Db) → Served before after → Rest before after
  Served-Rest before after r =
      r.replaced.rest
      ∙ ap (λ js. record before { tracks = after.tracks; track_seq = after.track_seq; jobs = js })
          (sym (ap (λ (x : Db). x.jobs) r.replaced.rest))
