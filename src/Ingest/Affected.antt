-- ===== src/Ingest/Affected.antt =====
-- internal/ingest/rebuild.go `affectedDays`: the days that it lists, against the reported changes.
use travelmap.Base.{ℕ, ◌≤◌, ◌≡◌, sym, ap, ◌∙◌, subst, ◌⊎◌, inl, inr, some, List, [], ◌∷◌}
use travelmap.Base.Members.{In, of_In-sort}
use travelmap.Base.Sort.{sort, any-sort}
use travelmap.Model.{Time, Point}
use travelmap.Model.Zone.{Zone}
use travelmap.Store.{Db, unix_time}
use travelmap.Store.Points.{select_next, next_timestamp}
use travelmap.Ingest.{
  Touch, DayKey, same_day, key_of, local_midnight, Latest, collect_latest, add_day, add_next,
  collect_days, day_before, affected_days,
}
use travelmap.Exec.{Env, Error}
use travelmap.Exec.Ensures.{
  Ensures, Ensures-pure, Ensures-read, Ensures-bind, Ensures-weaken, Ensures-given,
}
use travelmap.Ingest.Touches.{Listed, NextListed, Covers}
use travelmap.Ingest.Latest.{Has, collect-own, Reported, collect-origin}
use travelmap.Ingest.Listing.{Sourced, Collected, Collected-cons}

next_timestamp-Reads :
    (env : Env) (C : Error → Type 0) (db : Db) (user : ℕ) (after : Time)
    → Ensures env
        (λ d. d ≡ db)
        (next_timestamp user after)
        (λ n d. (d ≡ db) × (n ≡ select_next user (unix_time after) db.points))
        C
unfolding next_timestamp
next_timestamp-Reads env C db user after =
    Ensures-read env C db (λ d. select_next user (unix_time after) d.points)

module _ (z : Zone) (points : List Point) (ts : List Touch) (out : List DayKey)
    (c : Collected z points (collect_latest z [] ts) [] out) where
  sorted : List DayKey
  sorted = sort day_before out

  resort : (u : ℕ) (day : Time) → Listed out u day → Listed sorted u day
  unfolding sorted
  resort u day h = any-sort day_before (same_day (record { user_id = u; day = day })) out ∙ h

  reported : (k : DayKey) (t : Time) → In (k, t) (collect_latest z [] ts) → Reported z ts k t
  reported k t i = elim (collect-origin z ts [] k t i) [ inl j ↦ elim j [ ] | inr r ↦ r ]

  next-Listed :
      (t : Touch)
      → Has (key_of z t) t.timestamp (collect_latest z [] ts)
      → NextListed z ts points sorted t
  unfolding key_of
  next-Listed t h =
      let r = reported (key_of z t) h.time h.is_in in
      record {
        latest = r.report;
        is_in = r.is_in;
        same_key = r.key;
        late = subst (λ x. t.timestamp ≤ x) (sym r.time) h.late;
        next = λ n e. resort t.user_id (local_midnight z n) (
            (c.entries (key_of z t) h.time h.is_in).1 n
              (subst (λ x. select_next t.user_id (unix_time x) points ≡ some n) r.time e));
      }

  day_of-Reported : (k : DayKey) (t : Time) → Reported z ts k t → (e : ℕ) × (k.day ≡ z.date e 0)
  unfolding key_of local_midnight
  day_of-Reported k t r = ((z.local r.report.timestamp).0, sym (ap (λ (x : DayKey). x.day) r.key))

  owner-Reported :
      (k : DayKey) (t : Time) → Reported z ts k t → (o : Touch) × In o ts × (o.user_id ≡ k.user_id)
  unfolding key_of
  owner-Reported k t r = (r.report, r.is_in, ap (λ (x : DayKey). x.user_id) r.key)

  midnight :
      (k : DayKey) → In k [] ⊎ Sourced z (collect_latest z [] ts) k → (e : ℕ) × (k.day ≡ z.date e 0)
  unfolding local_midnight
  midnight k (inl j) = elim j [ ]
  midnight k (inr (inl (t, i))) = day_of-Reported k t (reported k t i)
  midnight k (inr (inr (e, t, i, u, n, m))) = ((z.local n).0, m)

  owner :
      (k : DayKey)
      → In k [] ⊎ Sourced z (collect_latest z [] ts) k
      → (o : Touch) × In o ts × (o.user_id ≡ k.user_id)
  owner k (inl j) = elim j [ ]
  owner k (inr (inl (t, i))) = owner-Reported k t (reported k t i)
  owner k (inr (inr (e, t, i, u, n, m))) =
      let (o, j, p) = owner-Reported e t (reported e t i) in (o, j, p ∙ u)

  covers : Covers z ts points (sort day_before out)
  unfolding sorted key_of
  covers = record {
    own = λ t i.
        let h = collect-own z ts [] t i in
        resort t.user_id (local_midnight z t.timestamp) (c.entries (key_of z t) h.time h.is_in).0;
    next = λ t i. next-Listed t (collect-own z ts [] t i);
    midnights = λ k i. midnight k (c.sources k (of_In-sort day_before out k i));
    owners = λ k i. owner k (c.sources k (of_In-sort day_before out k i));
  }

module _ (env : Env) (C : Error → Type 0) (z : Zone) (db : Db) where
  collect_days-Collected :
      (lt : Latest) (days : List DayKey)
      → Ensures env
          (λ d. d ≡ db)
          (collect_days z lt days)
          (λ out d. (d ≡ db) × Collected z db.points lt days out)
          C
  unfolding collect_days
  collect_days-Collected [] days = Ensures-pure env C days (λ d p.
      (p, record { grows = λ u day h. h; entries = λ k t i. elim i [ ]; sources = λ x i. inl i }))
  collect_days-Collected ((key, ts) ∷ lt) days =
      Ensures-bind env C (next_timestamp-Reads env C db key.user_id ts) (λ next.
        Ensures-given env C (λ d p. p.1)
          (λ e.
            Ensures-weaken env C (λ d p. p.0)
              (λ out d q. (q.0, Collected-cons z db.points key ts next e days lt out q.1))
              (collect_days-Collected lt (add_next z key.user_id next (add_day key days)))))

  -- The listed days cover the reported changes, and nothing is changed.
  pub affected_days-Covers :
      (ts : List Touch)
      → Ensures env
          (λ d. d ≡ db)
          (affected_days z ts)
          (λ days d. (d ≡ db) × Covers z ts db.points days)
          C
  unfolding affected_days
  affected_days-Covers ts =
      Ensures-bind env C (collect_days-Collected (collect_latest z [] ts) []) (λ out.
        Ensures-pure env C (sort day_before out) (λ d p. (p.0, covers z db.points ts out p.1)))
