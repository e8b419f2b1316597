-- ===== src/Ingest/Latest.antt =====
-- internal/ingest/rebuild.go `affectedDays`, its first loop: the map of the latest change of each
-- day.
use travelmap.Base.{
  ◌≤◌, ◌≡◌, refl, sym, ap, ◌∙◌, subst, true, ◌⊎◌, inl, inr, List, [], ◌∷◌, ltb, if◌then◌else◌,
  arith, Bool-cases,
}
use travelmap.Base.Members.{In, here, there}
use travelmap.Model.{Time}
use travelmap.Model.Zone.{Zone}
use travelmap.Ingest.{Touch, DayKey, same_day, key_of, Latest, record_latest, collect_latest}

same_day-eq : (k l : DayKey) → same_day k l ≡ true → k ≡ l
unfolding same_day
same_day-eq k l h = ground arith

pub same_day_refl : (k : DayKey) → same_day k k ≡ true
unfolding same_day
same_day_refl k = ground arith

-- The map has an entry for the key, at this time or later.
pub record Has (key : DayKey) (ts : Time) (lt : Latest) : Type 0 where
  pub time : Time
  pub is_in : In (key, time) lt
  pub late : ts ≤ time

Has-cons : (k : DayKey) (t : Time) (e : DayKey × Time) (lt : Latest) → Has k t lt → Has k t (e ∷ lt)
Has-cons k t e lt h = record { time = h.time; is_in = there h.is_in; late = h.late }

record_latest-own : (key : DayKey) (ts : Time) (lt : Latest) → Has key ts (record_latest key ts lt)
unfolding record_latest
record_latest-own key ts [] = record { time = ts; is_in = here refl; late = omega arith }
record_latest-own key ts ((k, cur) ∷ rest) = elim (Bool-cases (same_day k key)) [
  | inl e ↦ rw e (record {
    time = if ltb cur ts then ts else cur;
    is_in = here (ap (λ x. (x, if ltb cur ts then ts else cur)) (same_day-eq k key e));
    late = ground arith;
  })
  | inr e ↦ rw e (Has-cons key ts (k, cur) _ (record_latest-own key ts rest))
]

record_latest-keeps :
    (key : DayKey) (ts : Time) (lt : Latest) (k : DayKey) (t time : Time)
    → In (k, time) lt
    → t ≤ time
    → Has k t (record_latest key ts lt)
unfolding record_latest
record_latest-keeps key ts [] k t time i h = elim i [ ]
record_latest-keeps key ts ((j, cur) ∷ rest) k t time (here e) h =
    let j_eq : j ≡ k = ap (λ (x : DayKey × Time). x.0) e in
    let cur_eq : cur ≡ time = ap (λ (x : DayKey × Time). x.1) e in
    elim (Bool-cases (same_day j key)) [
      | inl s ↦ rw s (record {
        time = if ltb cur ts then ts else cur;
        is_in = here (ap (λ x. (x, if ltb cur ts then ts else cur)) j_eq);
        late = ground arith;
      })
      | inr s ↦ rw s (record { time = time; is_in = here e; late = h })
    ]
record_latest-keeps key ts ((j, cur) ∷ rest) k t time (there i) h =
    elim (Bool-cases (same_day j key)) [
      | inl s ↦ rw s (record { time = time; is_in = there i; late = h })
      | inr s ↦ rw s (Has-cons k t (j, cur) _ (record_latest-keeps key ts rest k t time i h))
    ]

-- An entry was there, or is the new one.
abbrev Origin : DayKey → Time → Latest → DayKey → Time → Type 0
Origin key ts lt k t = In (k, t) lt ⊎ ((k ≡ key) × (t ≡ ts))

Origin-there :
    (key : DayKey) (ts : Time) (e : DayKey × Time) (lt : Latest) (k : DayKey) (t : Time)
    → Origin key ts lt k t
    → Origin key ts (e ∷ lt) k t
Origin-there key ts e lt k t (inl i) = inl (there i)
Origin-there key ts e lt k t (inr h) = inr h

Origin-same :
    (key : DayKey) (ts : Time) (j : DayKey) (cur : Time) (rest : Latest) (k : DayKey) (t : Time)
    → j ≡ key
    → In (k, t) ((j, if ltb cur ts then ts else cur) ∷ rest)
    → Origin key ts ((j, cur) ∷ rest) k t
Origin-same key ts j cur rest k t s (there i) = inl (there i)
Origin-same key ts j cur rest k t s (here e) =
    let j_eq : j ≡ k = ap (λ (x : DayKey × Time). x.0) e in
    let t_eq : (if ltb cur ts then ts else cur) ≡ t = ap (λ (x : DayKey × Time). x.1) e in
    elim (Bool-cases (ltb cur ts)) [
      | inl b ↦ inr (sym j_eq ∙ s, sym (rw b at t_eq))
      | inr b ↦ inl (here (ap (λ x. (x, cur)) j_eq ∙ ap (λ x. (k, x)) (rw b at t_eq)))
    ]

Origin-other :
    (key : DayKey) (ts : Time) (j : DayKey) (cur : Time) (rest others : Latest) (k : DayKey)
    (t : Time)
    → (In (k, t) others → Origin key ts rest k t)
    → In (k, t) ((j, cur) ∷ others)
    → Origin key ts ((j, cur) ∷ rest) k t
Origin-other key ts j cur rest others k t f (here e) = inl (here e)
Origin-other key ts j cur rest others k t f (there i) = Origin-there key ts _ rest k t (f i)

record_latest-Origin :
    (key : DayKey) (ts : Time) (lt : Latest) (k : DayKey) (t : Time)
    → In (k, t) (record_latest key ts lt)
    → Origin key ts lt k t
unfolding record_latest
record_latest-Origin key ts [] k t (here e) =
    inr (ap (λ (x : DayKey × Time). x.0) (sym e), ap (λ (x : DayKey × Time). x.1) (sym e))
record_latest-Origin key ts [] k t (there i) = elim i [ ]
record_latest-Origin key ts ((j, cur) ∷ rest) k t i = elim (Bool-cases (same_day j key)) [
  | inl s ↦ Origin-same key ts j cur rest k t (same_day-eq j key s) (rw s at i)
  | inr s ↦
      Origin-other key ts j cur rest (record_latest key ts rest) k t
        (record_latest-Origin key ts rest k t) (rw s at i)
]

module _ (z : Zone) where
  collect-keeps :
      (ps : List Touch) (lt : Latest) (k : DayKey) (t : Time)
      → Has k t lt
      → Has k t (collect_latest z lt ps)
  unfolding collect_latest
  collect-keeps [] lt k t h = h
  collect-keeps (p ∷ ps) lt k t h =
      collect-keeps ps (record_latest (key_of z p) p.timestamp lt) k t
        (record_latest-keeps (key_of z p) p.timestamp lt k t h.time h.is_in h.late)

  -- Every report has an entry of its day that is not earlier.
  pub collect-own :
      (ps : List Touch) (lt : Latest) (t : Touch)
      → In t ps
      → Has (key_of z t) t.timestamp (collect_latest z lt ps)
  unfolding collect_latest
  collect-own (p ∷ ps) lt t (here e) =
      collect-keeps ps (record_latest (key_of z p) p.timestamp lt) (key_of z t) t.timestamp (
        subst
          (λ (x : Touch). Has (key_of z x) x.timestamp (record_latest (key_of z p) p.timestamp lt))
          e (record_latest-own (key_of z p) p.timestamp lt))
  collect-own (p ∷ ps) lt t (there i) =
      collect-own ps (record_latest (key_of z p) p.timestamp lt) t i
  collect-own [] lt t i = elim i [ ]

  -- Every entry is a report's day and time.
  pub record Reported (ps : List Touch) (k : DayKey) (t : Time) : Type 0 where
    pub report : Touch
    pub is_in : In report ps
    pub key : key_of z report ≡ k
    pub time : report.timestamp ≡ t

  Reported-cons :
      (p : Touch) (ps : List Touch) (k : DayKey) (t : Time)
      → Reported ps k t
      → Reported (p ∷ ps) k t
  Reported-cons p ps k t h = record {
    report = h.report;
    is_in = there h.is_in;
    key = h.key;
    time = h.time;
  }

  origin-Reported :
      (p : Touch) (ps : List Touch) (lt : Latest) (k : DayKey) (t : Time)
      → In (k, t) (record_latest (key_of z p) p.timestamp lt) ⊎ Reported ps k t
      → In (k, t) lt ⊎ Reported (p ∷ ps) k t
  origin-Reported p ps lt k t (inr h) = inr (Reported-cons p ps k t h)
  origin-Reported p ps lt k t (inl i) =
      elim (record_latest-Origin (key_of z p) p.timestamp lt k t i) [
        | inl j ↦ inl j
        | inr (e, f) ↦ inr (record { report = p; is_in = here refl; key = sym e; time = sym f })
      ]

  pub collect-origin :
      (ps : List Touch) (lt : Latest) (k : DayKey) (t : Time)
      → In (k, t) (collect_latest z lt ps)
      → In (k, t) lt ⊎ Reported ps k t
  unfolding collect_latest
  collect-origin [] lt k t i = inl i
  collect-origin (p ∷ ps) lt k t i =
      origin-Reported p ps lt k t
        (collect-origin ps (record_latest (key_of z p) p.timestamp lt) k t i)
