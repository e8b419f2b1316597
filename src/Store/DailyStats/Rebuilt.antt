-- ===== src/Store/DailyStats/Rebuilt.antt =====
-- internal/store/sqlite/dailystats.go `Rebuild`: what it leaves in the table.
use travelmap.Base.{
  ℕ, ◌≡◌, refl, ap, subst, filter, Bool, true, false, ◌&&◌, inl, inr, Option, none, some, List, [],
  ◌∷◌, ◌==◌, if◌then◌else◌, arith, any, find, Bool-cases,
}
use travelmap.Model.{Time, Float64, Point, DailyStat}
use travelmap.Model.Zone.{Zone}
use travelmap.Geo.{FloatOps}
use travelmap.Exec.{Env, Error, ok}
use travelmap.Exec.Ensures.{
  Ensures, Ensures-statement, Ensures-read, Ensures-bind, Ensures-weaken, Ensures-given,
}
use travelmap.Store.{Db, known_user}
use travelmap.Store.DailyStats.{
  label_of, day_totals, is_row, delete_stat, upsert_stat, write_stat, stat_row, store_totals,
  rebuild,
}

-- A user's row for a day.
abbrev pub find_stat : ℕ → ℕ → List DailyStat → Option DailyStat
find_stat user label stats = find (is_row user label) stats

-- The row that a day with these totals has.
abbrev pub row_of_totals : ℕ → ℕ → ℕ × Float64 → Option DailyStat
row_of_totals user label (n, km) = if n == 0 then none else some (stat_row user label n km)

-- The row that the points of a day, cut at its midnight, call for.
abbrev pub stat_of : FloatOps → Zone → ℕ → List Point → ℕ → ℕ → Option DailyStat
stat_of ops z track_break points user label =
    row_of_totals user label (day_totals ops z track_break points user (z.date label 0))

abbrev same_row : ℕ → ℕ → ℕ → ℕ → Bool
same_row u l v m = u == v && l == m

find-delete_stat :
    (u l v m : ℕ) (ss : List DailyStat)
    → find_stat v m (delete_stat u l ss) ≡ (if same_row u l v m then none else find_stat v m ss)
unfolding delete_stat
find-delete_stat u l v m [] = ground arith
find-delete_stat u l v m (s ∷ ss) = ground (arith, find-delete_stat u l v m ss)

find-upsert_stat :
    (row : DailyStat) (v m : ℕ) (ss : List DailyStat)
    → find_stat v m (upsert_stat row ss)
      ≡ (if same_row row.user_id row.day v m then some row else find_stat v m ss)
unfolding upsert_stat
find-upsert_stat row v m [] = ground arith
find-upsert_stat row v m (s ∷ ss) = ground (arith, find-upsert_stat row v m ss)

-- The rows that `p` takes, none of which is one of these users', are the same ones.
abbrev pub SameStats : List ℕ → Db → Db → Type 0
SameStats users before after =
    (p : DailyStat → Bool)
    → ((s : DailyStat) → p s ≡ true → any (λ u. u == s.user_id) users ≡ false)
    → filter p after.daily_stats ≡ filter p before.daily_stats

left_out :
    (p : DailyStat → Bool) (user : ℕ) (s : DailyStat)
    → ((s : DailyStat) → p s ≡ true → any (λ u. u == s.user_id) (user ∷ []) ≡ false)
    → s.user_id ≡ user
    → p s ≡ false
left_out p user s h e = elim (Bool-cases (p s)) [
  | inl t ↦ absurd (ground (arith, h s t, e))
  | inr f ↦ f
]

filter-delete_stat :
    (user label : ℕ) (p : DailyStat → Bool) (ss : List DailyStat)
    → ((s : DailyStat) → p s ≡ true → any (λ u. u == s.user_id) (user ∷ []) ≡ false)
    → filter p (delete_stat user label ss) ≡ filter p ss
unfolding delete_stat
filter-delete_stat user label p [] h = refl
filter-delete_stat user label p (s ∷ ss) h = elim (Bool-cases (is_row user label s)) [
  | inl e ↦ rw (e, left_out p user s h (ground (arith, e))) (filter-delete_stat user label p ss h)
  | inr e ↦ rw e (ap (λ xs. if p s then s ∷ xs else xs) (filter-delete_stat user label p ss h))
]

filter-upsert_stat :
    (row : DailyStat) (p : DailyStat → Bool) (ss : List DailyStat)
    → ((s : DailyStat) → p s ≡ true → any (λ u. u == s.user_id) (row.user_id ∷ []) ≡ false)
    → filter p (upsert_stat row ss) ≡ filter p ss
unfolding upsert_stat
filter-upsert_stat row p [] h = rw (left_out p row.user_id row h refl) refl
filter-upsert_stat row p (s ∷ ss) h = elim (Bool-cases (is_row row.user_id row.day s)) [
  | inl e ↦
      rw (e, left_out p row.user_id s h (ground (arith, e)), left_out p row.user_id row h refl) refl
  | inr e ↦ rw e (ap (λ xs. if p s then s ∷ xs else xs) (filter-upsert_stat row p ss h))
]

-- What a rebuild of one day leaves: its row is that of the totals, every other row and every other
-- table is as before.
pub record StatStored (user label : ℕ) (totals : ℕ × Float64) (before after : Db) : Type 0 where
  pub rest : after ≡ record before { daily_stats = after.daily_stats }
  pub stat :
      (v m : ℕ)
      → find_stat v m after.daily_stats ≡ (
          if same_row user label v m
          then row_of_totals user label totals
          else find_stat v m before.daily_stats)
  pub kept : SameStats (user ∷ []) before after

write_stat_known :
    (row : DailyStat) (d : Db)
    → known_user d row.user_id ≡ true
    → write_stat row d ≡ (ok tt, record d { daily_stats = upsert_stat row d.daily_stats })
unfolding write_stat
write_stat_known row d h = elim (Bool-cases (any (is_row row.user_id row.day) d.daily_stats)) [
  | inl e ↦ rw e
  | inr e ↦ rw (e, h)
]

module _ (env : Env) (C : Error → Type 0) (before : Db) (user : ℕ)
    (known : known_user before user ≡ true) where
  delete-Stored :
      (label : ℕ) (n km : ℕ)
      → (n == 0) ≡ true
      → StatStored user label
          (n, km)
          before
          (record before { daily_stats = delete_stat user label before.daily_stats })
  delete-Stored label n km e = record {
    rest = refl;
    stat = λ v m. rw e (find-delete_stat user label v m before.daily_stats);
    kept = λ p h. filter-delete_stat user label p before.daily_stats h;
  }

  upsert-Stored :
      (label : ℕ) (n km : ℕ)
      → (n == 0) ≡ false
      → StatStored user label
          (n, km)
          before
          (record before {
            daily_stats = upsert_stat (stat_row user label n km) before.daily_stats;
          })
  unfolding stat_row
  upsert-Stored label n km e = record {
    rest = refl;
    stat = λ v m. rw e (find-upsert_stat (stat_row user label n km) v m before.daily_stats);
    kept = λ p h. filter-upsert_stat (stat_row user label n km) p before.daily_stats h;
  }

  store_totals-Stored :
      (label : ℕ) (totals : ℕ × Float64)
      → Ensures env
          (λ d. d ≡ before)
          (store_totals user label totals)
          (λ _ d. StatStored user label totals before d)
          C
  unfolding store_totals stat_row
  store_totals-Stored label (n, km) = elim (Bool-cases (n == 0)) [
    | inl e ↦ rw e (Ensures-statement env C _ (λ d p. rw p (delete-Stored label n km e)))
    | inr e ↦ rw e (
        Ensures-statement env C (write_stat (stat_row user label n km)) (λ d p.
          rw (p, write_stat_known (stat_row user label n km) before known)
            (upsert-Stored label n km e)))
  ]

  -- `Rebuild` stores the totals that the points of the day have, for a user that exists.
  pub rebuild-Stored :
      (ops : FloatOps) (z : Zone) (day : Time) (track_break : ℕ)
      → Ensures env
          (λ d. d ≡ before)
          (rebuild ops z user day track_break)
          (λ _ d.
            StatStored user
              (label_of z day)
              (day_totals ops z track_break before.points user day)
              before
              d)
          C
  unfolding rebuild
  rebuild-Stored ops z day track_break =
      Ensures-bind env C
        (Ensures-read env C before (λ d. day_totals ops z track_break d.points user day))
        (λ totals.
          Ensures-given env C (λ d p. p.1)
            (λ e.
              Ensures-weaken env C (λ d p. p.0)
                (λ _ d p. subst (λ t. StatStored user (label_of z day) t before d) e p)
                (store_totals-Stored (label_of z day) totals)))
