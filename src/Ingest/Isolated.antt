-- ===== src/Ingest/Isolated.antt =====
-- internal/ingest: what a mutation for one user leaves of the others'.
use travelmap.Base.{
  ℕ, ◌≡◌, refl, sym, ap, ◌∙◌, Bool, true, false, ◌==◌, List, [], ◌∷◌, filter, any, arith,
}
use travelmap.Base.Members.{In, here, there}
use travelmap.Model.{Point, DailyStat}
use travelmap.Model.Zone.{Zone}
use travelmap.Geo.{FloatOps}
use travelmap.Store.{Db, Job}
use travelmap.Store.DailyStats.{before_day, in_day, lagged, day_totals, next_day}
use travelmap.Store.DailyStats.Rebuilt.{find_stat, row_of_totals}
use travelmap.Ingest.{Touch}
use travelmap.Ingest.Touches.{hits}
use travelmap.Ingest.Change.{Changed}
use travelmap.Ingest.Consistent.{Refreshed, IsConsistent}
use travelmap.Ingest.Requests.{users_of}

-- The rows of points, daily_stats and track_split_jobs that are not the user's are as they were,
-- and so is every other table.
pub record Isolated (user : ℕ) (before after : Db) : Type 0 where
  pub rest : after ≡ record before {
    points = after.points;
    point_seq = after.point_seq;
    daily_stats = after.daily_stats;
    jobs = after.jobs;
    job_seq = after.job_seq;
  }
  pub points :
      (p : Point → Bool)
      → ((r : Point) → p r ≡ true → (r.user_id == user) ≡ false)
      → filter p after.points ≡ filter p before.points
  pub stats :
      (v l : ℕ)
      → (v == user) ≡ false
      → find_stat v l after.daily_stats ≡ find_stat v l before.daily_stats
  pub rows :
      (p : DailyStat → Bool)
      → ((s : DailyStat) → p s ≡ true → (s.user_id == user) ≡ false)
      → filter p after.daily_stats ≡ filter p before.daily_stats
  pub jobs :
      (p : Job → Bool)
      → ((j : Job) → p j ≡ true → (j.user_id == user) ≡ false)
      → filter p after.jobs ≡ filter p before.jobs

pub Isolated-refl : (user : ℕ) (db : Db) → Isolated user db db
Isolated-refl user db = record {
  rest = refl;
  points = λ p h. refl;
  stats = λ v l h. refl;
  rows = λ p h. refl;
  jobs = λ p h. refl;
}

abbrev pub AllOf : ℕ → List Touch → Type 0
AllOf user ts = (t : Touch) → In t ts → t.user_id ≡ user

not_hit :
    (user : ℕ) (ts : List Touch) (r : Point)
    → AllOf user ts
    → (r.user_id == user) ≡ false
    → hits ts r ≡ false
not_hit user [] r own h = refl
not_hit user (t ∷ ts) r own h =
    ground (arith, h, own t (here refl), not_hit user ts r (λ x i. own x (there i)) h)

not_requested :
    (user v : ℕ) (ts : List Touch)
    → AllOf user ts
    → (v == user) ≡ false
    → any (λ u. u == v) (users_of ts) ≡ false
not_requested user v [] own h = refl
not_requested user v (t ∷ ts) own h =
    ground (arith, h, own t (here refl), not_requested user v ts (λ x i. own x (there i)) h)

before_day-other :
    (user v start : ℕ) (r : Point)
    → (v == user) ≡ false
    → before_day v start r ≡ true
    → (r.user_id == user) ≡ false
unfolding before_day
before_day-other user v start r h b = ground (arith, h, b)

in_day-other :
    (user v start end_at : ℕ) (r : Point)
    → (v == user) ≡ false
    → in_day v start end_at r ≡ true
    → (r.user_id == user) ≡ false
unfolding in_day
in_day-other user v start end_at r h b = ground (arith, h, b)

-- A day depends on the points before it and in it.
lagged-same :
    (v start end_at : ℕ) (ps qs : List Point)
    → filter (before_day v start) ps ≡ filter (before_day v start) qs
    → filter (in_day v start end_at) ps ≡ filter (in_day v start end_at) qs
    → lagged v start end_at ps ≡ lagged v start end_at qs
unfolding lagged
lagged-same v start end_at ps qs b d = rw (b, d) refl

module _ (ops : FloatOps) (z : Zone) (track_break user : ℕ) {ts : List Touch}
    {before mid after : Db} (c : Changed ts before mid)
    (r : Refreshed ops z track_break ts mid after) (own : AllOf user ts)
    (s : IsConsistent ops z track_break before) where
  points-same :
      (p : Point → Bool)
      → ((q : Point) → p q ≡ true → (q.user_id == user) ≡ false)
      → filter p after.points ≡ filter p before.points
  points-same p h =
      ap (λ (x : Db). filter p x.points) r.rest
      ∙ c.touches.stays p (λ q e. not_hit user ts q own (h q e))

  totals-same :
      (v day : ℕ)
      → (v == user) ≡ false
      → day_totals ops z track_break after.points v day
        ≡ day_totals ops z track_break before.points v day
  unfolding day_totals
  totals-same v day h =
      rw
        (lagged-same v day (next_day z day) after.points before.points
          (points-same (before_day v day) (λ q e. before_day-other user v day q h e))
          (points-same (in_day v day (next_day z day))
            (λ q e. in_day-other user v day (next_day z day) q h e)))
        refl

  -- A mutation whose reports are all of one user.
  pub Isolated-of : Isolated user before after
  Isolated-of = record {
    rest =
        r.rest
        ∙ ap
            (λ (x : Db). record x {
              daily_stats = after.daily_stats;
              jobs = after.jobs;
              job_seq = after.job_seq;
            })
            c.rest
        ∙ ap
            (λ (x : Db). record before {
              points = x.points;
              point_seq = x.point_seq;
              daily_stats = after.daily_stats;
              jobs = after.jobs;
              job_seq = after.job_seq;
            })
            (sym r.rest);
    points = points-same;
    stats = λ v l h.
        r.stats.stat v l ∙ ap (row_of_totals v l) (totals-same v (z.date l 0) h) ∙ sym (s.stat v l);
    rows = λ p h.
        r.kept p (λ t e. not_requested user t.user_id ts own (h t e))
        ∙ ap (λ (x : Db). filter p x.daily_stats) c.rest;
    jobs = λ p h.
        r.others p (λ j t. not_requested user j.user_id ts own (h j t))
        ∙ ap (λ (x : Db). filter p x.jobs) c.rest;
  }
