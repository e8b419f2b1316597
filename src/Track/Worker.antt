-- ===== src/Track/Worker.antt =====
-- internal/track/worker.go: the rounds of `drain`.
use mathlib.Core.Bool.{false≢true, true≢false}
use travelmap.Base.{
  ℕ, zero, suc, ◌<◌, ◌≡◌, refl, sym, ap, ◌∙◌, subst, Bool, true, false, inl, inr, [], ◌==◌, any,
  arith, Bool-cases, length,
}
use travelmap.Geo.{FloatOps}
use travelmap.Exec.{Env, World, Result, ok, err}
use travelmap.Exec.Ensures.{Outcome, Healthy, Never}
use travelmap.Exec.Atomic.{tx-IsAtomic, tx-outside, IsAtomic, Unchanged}
use travelmap.Store.{Db, Job}
use travelmap.Track.{drain_one, drain_next, drain}
use travelmap.Track.Current.{IsCurrent}
use travelmap.Track.Rounds.{
  Rest, Rest-after, Rest-same, IsServed, Round, drain_one-Round, Served-IsServed, Served-length,
  Served-Rest,
}

module _ (ops : FloatOps) (track_break : ℕ) where
  -- What `drain` leaves: it has ended, only tracks and requests changed, and if nothing failed or was cancelled
  -- the queue is empty.
  pub record Drained (env : Env) (before : Db) (ended : Bool) (after : Db) : Type 0 where
    pub ends : ended ≡ true
    pub served : IsServed ops track_break after
    pub rest : Rest before after
    pub emptied : Healthy env → ((k : ℕ) → env.done k ≡ false) → after.jobs ≡ []

  module _ (env : Env) where
    abbrev Drains : ℕ → Type 0
    Drains fuel =
        (w : World Db)
        → w.in_tx ≡ false
        → IsServed ops track_break w.db
        → length w.db.jobs < fuel
        → Drained env w.db (drain ops track_break fuel env w).0
            (drain ops track_break fuel env w).1.db

    drain_next-Drained :
        (fuel : ℕ) (w₀ : World Db) (r : Result Bool) (w : World Db)
        → Outcome env (Round ops track_break w₀.db) Never r w.db
        → Unchanged w₀ (r, w)
        → w.in_tx ≡ false
        → IsServed ops track_break w₀.db
        → length w₀.db.jobs < suc fuel
        → Drains fuel
        → Drained env w₀.db
            (drain_next (drain ops track_break fuel env) (r, w)).0
            (drain_next (drain ops track_break fuel env) (r, w)).1.db
    drain_next-Drained fuel w₀ (err e) w o u t s h rest = record {
      ends = refl;
      served = subst (IsServed ops track_break) (sym u) s;
      rest = Rest-same w₀.db w.db u;
      emptied = λ healthy going. elim o [ inl x ↦ absurd (x.1 healthy) | inr x ↦ absurd x ];
    }
    drain_next-Drained fuel w₀ (ok false) w o u t s h rest = record {
      ends = refl;
      served = subst (IsServed ops track_break) (sym o.0) s;
      rest = Rest-same w₀.db w.db o.0;
      emptied = λ healthy going. ap (λ (x : Db). x.jobs) o.0 ∙ o.1;
    }
    drain_next-Drained fuel w₀ (ok true) w o u t s h rest =
        let d =
          rest w t (Served-IsServed ops track_break w₀.db w.db s o)
            (omega (arith, h, Served-length ops track_break w₀.db w.db o)) in
        record {
          ends = d.ends;
          served = d.served;
          rest =
              Rest-after w₀.db w.db (drain ops track_break fuel env w).1.db
                (Served-Rest ops track_break w₀.db w.db o) d.rest;
          emptied = d.emptied;
        }

    drain_one-IsAtomic : IsAtomic (drain_one ops track_break)
    unfolding drain_one
    drain_one-IsAtomic = tx-IsAtomic _

    drain_one-outside :
        (w : World Db) → w.in_tx ≡ false → (drain_one ops track_break env w).1.in_tx ≡ false
    unfolding drain_one
    drain_one-outside w h = tx-outside _ env w h

    -- Outside a transaction, and given that each user's tracks are those of the points or
    -- requested, drain ends within one round more than there are requests, whatever fails; it
    -- keeps that invariant and changes only tracks and requests, and if nothing fails and the
    -- context is not done it leaves no request.
    pub drain-Drained : (fuel : ℕ) → Drains fuel
    unfolding drain
    drain-Drained zero w t s h = absurd (omega (arith, h))
    drain-Drained (suc fuel) w t s h = elim (Bool-cases (env.done w.steps)) [
      | inl e ↦ rw e (record {
        ends = refl;
        served = s;
        rest = refl;
        emptied = λ healthy going. absurd (true≢false (sym e ∙ going w.steps));
      })
      | inr e ↦ rw e (
          drain_next-Drained fuel w (drain_one ops track_break env w).0
            (drain_one ops track_break env w).1
            ((drain_one-Round ops track_break env Never w.db s.jobs).at w refl)
            (drain_one-IsAtomic env w t) (drain_one-outside w t) s h (drain-Drained fuel))
    ]

  -- With no request left every user's tracks are those of the points.
  pub emptied-IsCurrent :
      (db : Db)
      → IsServed ops track_break db
      → db.jobs ≡ []
      → (user : ℕ) → IsCurrent ops track_break user db
  emptied-IsCurrent db s e user = elim (s.served user) [
    | inl p ↦ absurd (false≢true (sym (ap (any (λ (j : Job). j.user_id == user)) e) ∙ p))
    | inr c ↦ c
  ]

  pub drain-IsCurrent :
      (env : Env)
      → Healthy env
      → ((k : ℕ) → env.done k ≡ false)
      → (fuel : ℕ) (w : World Db) → w.in_tx ≡ false
      → IsServed ops track_break w.db
      → length w.db.jobs < fuel
      → (user : ℕ) → IsCurrent ops track_break user (drain ops track_break fuel env w).1.db
  drain-IsCurrent env healthy going fuel w t s h user =
      let d = drain-Drained env fuel w t s h in
      emptied-IsCurrent (drain ops track_break fuel env w).1.db d.served (d.emptied healthy going)
        user
