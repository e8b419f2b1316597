-- ===== src/Ingest/Listing.antt =====
-- internal/ingest/rebuild.go `affectedDays`, its second loop: the days that it lists.
use mathlib.Core.Option.{some-injective}
use travelmap.Base.{
  ℕ, ◌≡◌, refl, sym, ap, ◌∙◌, subst, ◌⊎◌, inl, inr, Option, none, some, List, [], ◌∷◌, arith, any,
  any-append, Bool-cases,
}
use travelmap.Base.Members.{In, here, there, of_In_snoc}
use travelmap.Model.{Time, Point}
use travelmap.Model.Zone.{Zone}
use travelmap.Store.{unix_time}
use travelmap.Store.Points.{select_next}
use travelmap.Ingest.{DayKey, same_day, local_midnight, Latest, add_day, add_next}
use travelmap.Ingest.Touches.{Listed}
use travelmap.Ingest.Latest.{same_day_refl}

-- A key that was listed stays listed.
abbrev Grows : List DayKey → List DayKey → Type 0
Grows days out = (u : ℕ) (day : Time) → Listed days u day → Listed out u day

-- The day of an entry is listed, and so is that of the first point after its time.
abbrev EntryListed : Zone → List Point → List DayKey → DayKey → Time → Type 0
EntryListed z points out k t =
    Listed out k.user_id k.day
    × ((n : Time)
        → select_next k.user_id (unix_time t) points ≡ some n
        → Listed out k.user_id (local_midnight z n))

-- Each listed key is an entry's, or at the midnight of a time for the user of an entry.
abbrev pub Sourced : Zone → Latest → DayKey → Type 0
Sourced z lt k =
    ((t : Time) × In (k, t) lt)
    ⊎ ((e : DayKey) × (t : Time) × In (e, t) lt
        × (e.user_id ≡ k.user_id)
        × (n : Time) × (k.day ≡ local_midnight z n))

add_day-Listed : (k : DayKey) (days : List DayKey) → Listed (add_day k days) k.user_id k.day
unfolding add_day
add_day-Listed k days = elim (Bool-cases (any (same_day k) days)) [
  | inl e ↦ rw e e
  | inr e ↦ rw e (any-append (same_day k) days (k ∷ []) ∙ ground (arith, same_day_refl k))
]

add_day-Grows : (k : DayKey) (days : List DayKey) → Grows days (add_day k days)
unfolding add_day
add_day-Grows k days u day h = elim (Bool-cases (any (same_day k) days)) [
  | inl e ↦ rw e h
  | inr e ↦ rw e (any-append (same_day (record { user_id = u; day = day })) days (k ∷ []) ∙ rw h)
]

In-add_day :
    (k : DayKey) (days : List DayKey) (x : DayKey) → In x (add_day k days) → In x days ⊎ (k ≡ x)
unfolding add_day
In-add_day k days x i = elim (Bool-cases (any (same_day k) days)) [
  | inl e ↦ inl (rw e at i)
  | inr e ↦ of_In_snoc days k x (rw e at i)
]

add_next-Grows :
    (z : Zone) (user : ℕ) (o : Option Time) (days : List DayKey)
    → Grows days (add_next z user o days)
unfolding add_next
add_next-Grows z user none days u day h = h
add_next-Grows z user (some n) days u day h =
    add_day-Grows (record { user_id = user; day = local_midnight z n }) days u day h

add_next-Listed :
    (z : Zone) (user : ℕ) (o : Option Time) (days : List DayKey) (n : Time)
    → o ≡ some n
    → Listed (add_next z user o days) user (local_midnight z n)
unfolding add_next
add_next-Listed z user none days n e = cc
add_next-Listed z user (some m) days n e =
    subst (λ x. Listed (add_next z user (some m) days) user (local_midnight z x))
      (some-injective _ _ e)
      (add_day-Listed (record { user_id = user; day = local_midnight z m }) days)

-- What the loop over the entries collects.
pub record Collected (z : Zone) (points : List Point) (lt : Latest) (days out : List DayKey)
    : Type 0 where
  pub grows : Grows days out
  pub entries : (k : DayKey) (t : Time) → In (k, t) lt → EntryListed z points out k t
  pub sources : (x : DayKey) → In x out → In x days ⊎ Sourced z lt x

Sourced-there :
    (z : Zone) (e : DayKey × Time) (lt : Latest) (x : DayKey)
    → Sourced z lt x
    → Sourced z (e ∷ lt) x
Sourced-there z e lt x (inl (t, i)) = inl (t, there i)
Sourced-there z e lt x (inr (k, t, i, u, n, m)) = inr (k, t, there i, u, n, m)

module _ (z : Zone) (points : List Point) (key : DayKey) (ts : Time) (next : Option Time)
    (found : next ≡ select_next key.user_id (unix_time ts) points) (days : List DayKey) where
  abbrev added : List DayKey
  added = add_next z key.user_id next (add_day key days)

  added-Grows : Grows days added
  added-Grows u day h =
      add_next-Grows z key.user_id next (add_day key days) u day (add_day-Grows key days u day h)

  head-Listed : EntryListed z points added key ts
  head-Listed = (
    add_next-Grows z key.user_id next (add_day key days) key.user_id key.day
        (add_day-Listed key days),
    λ n e. add_next-Listed z key.user_id next (add_day key days) n (found ∙ e),
  )

  added-source :
      (lt : Latest) (o : Option Time) (x : DayKey)
      → In x (add_next z key.user_id o (add_day key days))
      → In x days ⊎ Sourced z ((key, ts) ∷ lt) x
  unfolding add_next
  added-source lt none x i = elim (In-add_day key days x i) [
    | inl j ↦ inl j
    | inr e ↦ inr (inl (ts, here (ap (λ k. (k, ts)) e)))
  ]
  added-source lt (some n) x i =
      elim (In-add_day (record { user_id = key.user_id; day = local_midnight z n })
        (add_day key days) x i) [
          | inl j ↦ elim (In-add_day key days x j) [
            | inl h ↦ inl h
            | inr e ↦ inr (inl (ts, here (ap (λ k. (k, ts)) e)))
          ]
          | inr e ↦ inr (
              inr (
                key,
                ts,
                here refl,
                ap (λ (k : DayKey). k.user_id) e,
                n,
                sym (ap (λ (k : DayKey). k.day) e),
              ))
        ]

  pub Collected-cons :
      (lt : Latest) (out : List DayKey)
      → Collected z points lt added out
      → Collected z points ((key, ts) ∷ lt) days out
  Collected-cons lt out c = record {
    grows = λ u day h. c.grows u day (added-Grows u day h);
    entries = λ k t i. entry k t i;
    sources = λ x i. elim (c.sources x i) [
      | inl j ↦ added-source lt next x j
      | inr s ↦ inr (Sourced-there z (key, ts) lt x s)
    ];
  }
    where
      grown :
          (k : DayKey) (t : Time) → EntryListed z points added k t → EntryListed z points out k t
      grown k t h =
          (c.grows k.user_id k.day h.0, λ n e. c.grows k.user_id (local_midnight z n) (h.1 n e))

      entry : (k : DayKey) (t : Time) → In (k, t) ((key, ts) ∷ lt) → EntryListed z points out k t
      entry k t (here e) =
          subst (λ (p : DayKey × Time). EntryListed z points out p.0 p.1) e
            (grown key ts head-Listed)
      entry k t (there i) = c.entries k t i
