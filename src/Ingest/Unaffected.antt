-- ===== src/Ingest/Unaffected.antt =====
-- internal/ingest/rebuild.go: the totals of a day that `affectedDays` does not list.
use mathlib.Core.Option.{some-injective}
use mathlib.Core.Option
use travelmap.Base.{
  ℕ, ◌+◌, ◌≤◌, ◌<◌, ◌≡◌, refl, sym, ap, ◌∙◌, subst, true, false, inl, inr, Option, none, some, List,
  [], ◌∷◌, map, arith, any, filter, length, Bool-cases, Option-cases,
}
use travelmap.Base.Sort.{sort, insert}
use travelmap.Base.Extremes.{
  last_by, first_by, IsFirst, first_by-IsFirst, first_by-eq-none, last_by-IsLast,
}
use travelmap.Base.Members.{In, here, In-filter, of_In-filter, any-In, in_nil}
use travelmap.Model.{Time, Point}
use travelmap.Model.Zone.{Zone, IsRegular}
use travelmap.Model.Zone.Regular.{date_mono, day_of_bounds, day_lt, date-injective}
use travelmap.Geo.{FloatOps}
use travelmap.Store.{unix_time}
use travelmap.Store.Times.{unix_time-le, unix_time_mono, lt_of_unix_time}
use travelmap.Store.Points.{at_time, after_time, select_next}
use travelmap.Store.DailyStats.{
  before_day, in_day, lag, lagged, day_totals, next_day, segment_km, coalesced_sum,
}
use travelmap.Ingest.{Touch, DayKey, same_day, key_of, local_midnight}
use travelmap.Ingest.Touches.{hit_by, hits, Nearest, same, hit, Touches, Listed, Covers}

in_day_parts :
    (u s e : ℕ) (p : Point)
    → in_day u s e p ≡ true
    → (p.user_id ≡ u) × (s ≤ p.timestamp) × (p.timestamp < e)
unfolding in_day
in_day_parts u s e p h = ground arith

before_day_parts :
    (u s : ℕ) (p : Point) → before_day u s p ≡ true → (p.user_id ≡ u) × (p.timestamp < s)
unfolding before_day
before_day_parts u s p h = ground arith

before_day_of : (u s : ℕ) (p : Point) → p.user_id ≡ u → p.timestamp < s → before_day u s p ≡ true
unfolding before_day
before_day_of u s p h k = ground arith

hit_by_parts :
    (p : Point) (t : Touch)
    → hit_by p t ≡ true
    → (t.user_id ≡ p.user_id) × (unix_time t.timestamp ≡ p.timestamp)
hit_by_parts p t h = ground arith

same_midnight :
    {z : Zone} (v : IsRegular z) (d : ℕ) (t : Time)
    → z.date d 0 ≤ t
    → t < z.date (d + 1) 0
    → local_midnight z t ≡ z.date d 0
unfolding local_midnight
same_midnight {z} v d t h k = ap (λ x. z.date x 0) (day_of_bounds v d t h k)

next_day_midnight :
    {z : Zone} (v : IsRegular z) (d : ℕ) → next_day z (z.date d 0) ≡ z.date (d + 1) 0
unfolding next_day
next_day_midnight {z} v d = ap (λ (c : ℕ × ℕ). z.date (c.0 + 1) c.1) (v.midnight d)

-- The latest change of the day of an earlier time is earlier too.
same_day_lt :
    {z : Zone} (v : IsRegular z) (d : ℕ) (t l : Time)
    → local_midnight z l ≡ local_midnight z t
    → t < z.date d 0
    → l < z.date d 0
unfolding local_midnight
same_day_lt {z} v d t l e h =
    let e' : (z.local l).0 ≡ (z.local t).0 = date-injective v _ _ e in
    omega (arith, v.next l, date_mono v ((z.local l).0 + 1) d (omega (arith, day_lt v d t h)))

nothing-In : {A : Type 0} {x : A} (xs : List A) → xs ≡ [] → ¬ In x xs
nothing-In xs e i = in_nil (λ _. ⊥) xs e _ i

-- A row of the day, and no row between `l` and the day: the next row after `l` is in the day.
next_in_day :
    (u s e : ℕ) (l : Time) (after : List Point) (p : Point)
    → In p (filter (in_day u s e) after)
    → l < s
    → ((r : Point) → In r after → before_day u s r ≡ true → r.timestamp ≤ l)
    → (n : Time) × (select_next u l after ≡ some n) × (s ≤ n) × (n < e)
unfolding select_next
next_in_day u s e l after p i h bound = go (first_by at_time (filter (after_time u l) after)) refl
  where
    at_p : In p after × (in_day u s e p ≡ true)
    at_p = of_In-filter (in_day u s e) after p i

    parts : (p.user_id ≡ u) × (s ≤ p.timestamp) × (p.timestamp < e)
    parts = in_day_parts u s e p at_p.1

    later : In p (filter (after_time u l) after)
    later = In-filter (after_time u l) after p at_p.0 (ground (arith, parts))

    past : (q : Point) → IsFirst at_time q (filter (after_time u l) after) → s ≤ q.timestamp
    past q f =
        let (j, k) = of_In-filter (after_time u l) after q f.is_in in
        ground (arith, k, bound q j, before_day_of u s q)

    go :
        (o : Option Point)
        → first_by at_time (filter (after_time u l) after) ≡ o
        → (n : Time) × (Option.map at_time o ≡ some n) × (s ≤ n) × (n < e)
    go none o = absurd (nothing-In _ (first_by-eq-none at_time _ o) later)
    go (some q) o =
        let f = first_by-IsFirst at_time (filter (after_time u l) after) q o in
        (q.timestamp, refl, past q f, omega (arith, f.earliest p later, parts.2))

-- A day without points has no rows, whatever precedes it.
lagged_empty : (u s e : ℕ) (ps : List Point) → filter (in_day u s e) ps ≡ [] → lagged u s e ps ≡ []
unfolding lagged sort insert lag
lagged_empty u s e ps h = elim (Option-cases (last_by at_time (filter (before_day u s) ps))) [
  | inl n ↦ rw (n, h)
  | inr (q, n) ↦
      let (j, k) = of_In-filter (before_day u s) ps q (last_by-IsLast at_time _ q n).is_in in
      rw (n, h) (rw (outside q k))
]
  where
    outside : (q : Point) → before_day u s q ≡ true → in_day u s e q ≡ false
    outside q k = ground arith

module _ {z : Zone} (v : IsRegular z) {ts : List Touch} {before after : List Point}
    {days : List DayKey} (moved : Touches ts before after) (covered : Covers z ts after days)
    (u d : ℕ)
    (unlisted : any (same_day (record { user_id = u; day = z.date d 0 })) days ≡ false) where
  not-Listed : (day : Time) → day ≡ z.date d 0 → ¬ Listed days u day
  not-Listed day e h = cc (subst (λ x. Listed days u x) e h, unlisted)

  -- A reported change is not in the day.
  own_day : (p : Point) → in_day u (z.date d 0) (z.date (d + 1) 0) p ≡ true → hits ts p ≡ false
  own_day p h = elim (Bool-cases (hits ts p)) [
    | inr e ↦ e
    | inl e ↦
        let (t, i, k) = any-In (hit_by p) ts e in
        let (tu, tt') = hit_by_parts p t k in
        let (pu, lo, hi) = in_day_parts u _ _ p h in
        let lo' : z.date d 0 ≤ t.timestamp = omega (arith, unix_time-le t.timestamp) in
        let hi' : t.timestamp < z.date (d + 1) 0 =
          lt_of_unix_time _ t.timestamp (v.whole (d + 1)) (omega arith) in
        absurd (
          not-Listed _ (same_midnight v d t.timestamp lo' hi')
            (subst (λ x. Listed days x (local_midnight z t.timestamp)) (tu ∙ pu) (covered.own t i)))
  ]

  -- With a point in the day, the point before the day is the same.
  same_last :
      (p : Point)
      → In p (filter (in_day u (z.date d 0) (z.date (d + 1) 0)) after)
      → Nearest ts u (z.date d 0) before after
      → last_by at_time (filter (before_day u (z.date d 0)) after)
        ≡ last_by at_time (filter (before_day u (z.date d 0)) before)
  same_last p i (same e) = e
  same_last p i (hit q h b rows reports) =
      let (t, j, k) = any-In (hit_by q) ts h in
      let (tu, at) = hit_by_parts q t k in
      let (qu, qs) = before_day_parts u _ q b in
      let nx = covered.next t j in
      let l = nx.latest in
      let t_lt : t.timestamp < z.date d 0 =
        lt_of_unix_time _ t.timestamp (v.whole d) (omega arith) in
      let l_lt : l.timestamp < z.date d 0 =
        same_day_lt v d t.timestamp l.timestamp
          (unfold key_of in ap (λ (x : DayKey). x.day) nx.same_key) t_lt in
      let lu : l.user_id ≡ u =
        unfold key_of in ap (λ (x : DayKey). x.user_id) nx.same_key ∙ tu ∙ qu in
      let l_le : unix_time l.timestamp ≤ q.timestamp =
        reports l nx.is_in lu (omega (arith, unix_time-le l.timestamp)) in
      let l_eq : unix_time l.timestamp ≡ q.timestamp =
        omega (arith, unix_time_mono t.timestamp l.timestamp nx.late) in
      let (n, e, lo, hi) = next_in_day u _ _ q.timestamp after p i qs rows in
      absurd (
        not-Listed _ (same_midnight v d n lo hi) (
          subst (λ x. Listed days x (local_midnight z n)) (tu ∙ qu)
            (nx.next n (rw (l_eq, tu ∙ qu) e))))

  same_window :
      filter (in_day u (z.date d 0) (z.date (d + 1) 0)) after
      ≡ filter (in_day u (z.date d 0) (z.date (d + 1) 0)) before
  same_window = moved.stays (in_day u (z.date d 0) (z.date (d + 1) 0)) own_day

  same_candidates :
      (w : List Point)
      → filter (in_day u (z.date d 0) (z.date (d + 1) 0)) after ≡ w
      → lagged u (z.date d 0) (z.date (d + 1) 0) after
        ≡ lagged u (z.date d 0) (z.date (d + 1) 0) before
  unfolding lagged
  same_candidates [] e =
      lagged_empty u _ _ after e ∙ sym (lagged_empty u _ _ before (sym same_window ∙ e))
  same_candidates (p ∷ ps) e =
      rw
        (same_window, same_last p (subst (In p) (sym e) (here refl)) (moved.nearest u (z.date d 0)))

  -- A day that is not listed has the totals that it had.
  pub unaffected :
      (ops : FloatOps) (track_break : ℕ)
      → day_totals ops z track_break after u (z.date d 0)
        ≡ day_totals ops z track_break before u (z.date d 0)
  unfolding day_totals
  unaffected ops track_break =
      ap (λ rows. (length rows, coalesced_sum ops (map (segment_km ops track_break) rows)))
        (subst (λ e. lagged u (z.date d 0) e after ≡ lagged u (z.date d 0) e before)
          (sym (next_day_midnight v d)) (same_candidates _ refl))
