-- ===== src/Ingest/Rebuilds.antt =====
-- internal/ingest/rebuild.go: the loop that rebuilds the listed days, and the requests for tracks.
use travelmap.Base.{
  ℕ, ◌≡◌, refl, sym, ap, ◌∙◌, subst, true, false, ◌&&◌, inl, inr, List, [], ◌∷◌, ◌==◌,
  if◌then◌else◌, arith, any, map, Bool-cases,
}
use travelmap.Base.Members.{In, here, there}
use travelmap.Model.{Time}
use travelmap.Model.Zone.{Zone, IsRegular}
use travelmap.Model.Zone.Regular.{date-injective}
use travelmap.Geo.{FloatOps}
use travelmap.Exec.{Env, Error}
use travelmap.Exec.Ensures.{Ensures, Ensures-pure, Ensures-bind, Ensures-weaken, Ensures-from}
use travelmap.Store.{Db, known_user}
use travelmap.Store.DailyStats.{label_of, day_totals}
use travelmap.Store.DailyStats.Rebuilt.{
  find_stat, row_of_totals, stat_of, SameStats, StatStored, rebuild-Stored,
}
use travelmap.Ingest.{DayKey, same_day, rebuild_days}
use travelmap.Ingest.Touches.{Listed}

-- What the rebuild of the listed days leaves: the rows of these days are those that the points call
-- for, and every other row and every other table is as before.
pub record StatsRebuilt (ops : FloatOps) (z : Zone) (track_break : ℕ) (days : List DayKey)
    (before after : Db) : Type 0 where
  pub rest : after ≡ record before { daily_stats = after.daily_stats }
  pub listed :
      (u l : ℕ)
      → Listed days u (z.date l 0)
      → find_stat u l after.daily_stats ≡ stat_of ops z track_break before.points u l
  pub others :
      (u l : ℕ)
      → any (same_day (record { user_id = u; day = z.date l 0 })) days ≡ false
      → find_stat u l after.daily_stats ≡ find_stat u l before.daily_stats
  pub kept : SameStats (map (λ (k : DayKey). k.user_id) days) before after

label_of-midnight : {z : Zone} → IsRegular z → (e : ℕ) → label_of z (z.date e 0) ≡ e
unfolding label_of
label_of-midnight v e = ap (λ (c : ℕ × ℕ). c.0) (v.midnight e)

pub known_rest :
    (d d₁ : Db) (user : ℕ)
    → d₁ ≡ record d { daily_stats = d₁.daily_stats }
    → known_user d₁ user ≡ known_user d user
unfolding known_user
known_rest d d₁ user h = ap (λ (x : Db). known_user x user) h

module _ {z : Zone} (v : IsRegular z) (ops : FloatOps) (track_break : ℕ) where
  midnights_eq : (l e : ℕ) → (z.date l 0 == z.date e 0) ≡ (e == l)
  midnights_eq l e = ground (arith, date-injective v l e, λ (p : e ≡ l). ap (λ x. z.date x 0) p)

  same_day-midnights :
      (u l user e : ℕ)
      → same_day
          (record { user_id = u; day = z.date l 0 })
          (record { user_id = user; day = z.date e 0 })
        ≡ (user == u && e == l)
  unfolding same_day
  same_day-midnights u l user e = rw (midnights_eq l e) (ground arith)

  StatsRebuilt-cons :
      (user e : ℕ) (keys : List DayKey) (d₀ d₁ d₂ : Db)
      → StatStored user e (day_totals ops z track_break d₀.points user (z.date e 0)) d₀ d₁
      → StatsRebuilt ops z track_break keys d₁ d₂
      → StatsRebuilt ops z track_break (record { user_id = user; day = z.date e 0 } ∷ keys) d₀ d₂
  StatsRebuilt-cons user e keys d₀ d₁ d₂ h t = record {
    rest = t.rest ∙ ap (λ (d : Db). record d { daily_stats = d₂.daily_stats }) h.rest;
    listed = λ u l i. elim (Bool-cases (any (same_day (key u l)) keys)) [
      | inl k ↦ t.listed u l k ∙ ap (λ (d : Db). stat_of ops z track_break d.points u l) h.rest
      | inr k ↦ t.others u l k ∙ h.stat u l ∙ hit u l (head u l i k)
    ];
    others = λ u l i. t.others u l (tail u l i) ∙ h.stat u l ∙ rw (miss u l i);
    kept = λ p n. t.kept p (λ s i. ground (arith, n s i)) ∙ h.kept p (λ s i. ground (arith, n s i));
  }
    where
      key : ℕ → ℕ → DayKey
      key u l = record { user_id = u; day = z.date l 0 }

      bridge : (u l : ℕ) → same_day (key u l) (key user e) ≡ (user == u && e == l)
      bridge u l = same_day-midnights u l user e

      head :
          (u l : ℕ)
          → Listed (key user e ∷ keys) u (z.date l 0)
          → any (same_day (key u l)) keys ≡ false
          → (user == u && e == l) ≡ true
      head u l i k = ground (arith, bridge u l, i, k)

      tail :
          (u l : ℕ)
          → any (same_day (key u l)) (key user e ∷ keys) ≡ false
          → any (same_day (key u l)) keys ≡ false
      tail u l i = ground (arith, i)

      miss :
          (u l : ℕ)
          → any (same_day (key u l)) (key user e ∷ keys) ≡ false
          → (user == u && e == l) ≡ false
      miss u l i = ground (arith, bridge u l, i)

      hit :
          (u l : ℕ)
          → (user == u && e == l) ≡ true
          → (if user == u && e == l
              then row_of_totals user e (day_totals ops z track_break d₀.points user (z.date e 0))
              else find_stat u l d₀.daily_stats)
            ≡ stat_of ops z track_break d₀.points u l
      hit u l i =
          let p : user ≡ u = ground (arith, i) in
          let q : e ≡ l = ground (arith, i) in
          rw i (
            ap (λ x. stat_of ops z track_break d₀.points x e) p
            ∙ ap (stat_of ops z track_break d₀.points u) q)

  -- The same for a key whose day is known to be a midnight.
  StatsRebuilt-key :
      (user e : ℕ) (keys : List DayKey) (d₀ d₁ d₂ : Db) (day : Time)
      → day ≡ z.date e 0
      → StatStored user (label_of z day) (day_totals ops z track_break d₀.points user day) d₀ d₁
      → StatsRebuilt ops z track_break keys d₁ d₂
      → StatsRebuilt ops z track_break (record { user_id = user; day = day } ∷ keys) d₀ d₂
  StatsRebuilt-key user e keys d₀ d₁ d₂ day p st t =
      subst (λ x. StatsRebuilt ops z track_break (record { user_id = user; day = x } ∷ keys) d₀ d₂)
        (sym p)
        (StatsRebuilt-cons user e keys d₀ d₁ d₂
          (subst
            (λ x.
              StatStored user x (day_totals ops z track_break d₀.points user (z.date e 0)) d₀ d₁)
            (label_of-midnight v e)
            (subst
              (λ x.
                StatStored user (label_of z x) (day_totals ops z track_break d₀.points user x) d₀
                  d₁)
              p st))
          t)

  module _ (env : Env) (C : Error → Type 0) where
    -- Every listed day is a midnight, and its user exists.
    pub rebuild_days-Rebuilt :
        (keys : List DayKey) (before : Db)
        → ((k : DayKey) → In k keys → (e : ℕ) × (k.day ≡ z.date e 0))
        → ((k : DayKey) → In k keys → known_user before k.user_id ≡ true)
        → Ensures env
            (λ d. d ≡ before)
            (rebuild_days ops z track_break keys)
            (λ _ d. StatsRebuilt ops z track_break keys before d)
            C
    unfolding rebuild_days
    rebuild_days-Rebuilt [] before mid known = Ensures-pure env C tt (λ d p.
        rw p (record {
          rest = refl;
          listed = λ u l i. cc;
          others = λ u l i. refl;
          kept = λ q n. refl;
        }))
    rebuild_days-Rebuilt (k ∷ keys) before mid known =
        Ensures-bind env C
          (rebuild-Stored env C before k.user_id (known k (here refl)) ops z k.day track_break)
          (λ _. Ensures-from env C (λ d₁ st.
            Ensures-weaken env C (λ d p. p)
              (λ _ d₂ t.
                StatsRebuilt-key k.user_id (mid k (here refl)).0 keys before d₁ d₂ k.day
                  (mid k (here refl)).1 st t)
              (rebuild_days-Rebuilt keys d₁ (λ x i. mid x (there i))
                (λ x i. known_rest before d₁ x.user_id st.rest ∙ known x (there i)))))
