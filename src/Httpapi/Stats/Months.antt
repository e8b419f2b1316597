-- ===== src/Httpapi/Stats/Months.antt =====
-- internal/httpapi/stats.go `trackedMonthsToDTO`: the listing of years and months, against the days.
use mathlib.Core.Path.{fun_ext}
use travelmap.Base.{
  ℕ, ◌<◌, ◌≡◌, refl, sym, ap, ◌∙◌, subst, String, Bool, false, ◌||◌, ◌&&◌, List, [], ◌∷◌, map, any,
  filter, ◌==◌, ltb, if◌then◌else◌, arith, Bool-cases, inl, inr,
}
use travelmap.Base.Members.{In, of_In-map}
use travelmap.Base.Sort.{sort, insert, any-sort}
use travelmap.Model.{DailyStat}
use travelmap.Httpapi.Dto.{TrackedMonthsYear}
use travelmap.Httpapi.Response.{Std}
use travelmap.Httpapi.Stats.{
  year_of, month_of, keys, sorted_years_desc, at_year, find_year, add_month, collect_months,
  month_names, month_list, tracked_months_to_dto,
}

module _ {V : Type 0} (new : V) (year : ℕ) (f : V → V) where
  find-at_year :
      (y : ℕ) (years : List (ℕ × V))
      → find_year new y (at_year new year f years)
        ≡ (if year == y then f (find_year new y years) else find_year new y years)
  unfolding find_year at_year
  find-at_year y [] = ground arith
  find-at_year y ((k, v) ∷ rest) = elim (Bool-cases (k == year)) [
    | inl e ↦ rw e (ground (arith, e))
    | inr e ↦ rw e (ground (arith, e, find-at_year y rest))
  ]

  any-at_year :
      (y : ℕ) (years : List (ℕ × V))
      → any (λ k. k == y) (keys (at_year new year f years))
        ≡ (any (λ k. k == y) (keys years) || year == y)
  unfolding at_year
  any-at_year y [] = ground arith
  any-at_year y ((k, v) ∷ rest) = elim (Bool-cases (k == year)) [
    | inl e ↦ rw e (ground (arith, e))
    | inr e ↦ rw e (ground (arith, e, any-at_year y rest))
  ]

-- No key occurs twice.
abbrev Distinct : List ℕ → Type 0
Distinct [] = Unit
Distinct (x ∷ xs) = (any (λ y. y == x) xs ≡ false) × Distinct xs

at_year-Distinct :
    {V : Type 0} (new : V) (year : ℕ) (f : V → V) (years : List (ℕ × V))
    → Distinct (keys years)
    → Distinct (keys (at_year new year f years))
unfolding at_year
at_year-Distinct new year f [] d = (refl, tt)
at_year-Distinct new year f ((k, v) ∷ rest) d = elim (Bool-cases (k == year)) [
  | inl e ↦ rw e d
  | inr e ↦
      rw e (
        ground (arith, any-at_year new year f k rest, d.0, e),
        at_year-Distinct new year f rest d.1,
      )
]

module _ (std : Std) where
  -- A day of that month of that year.
  abbrev pub has_day : ℕ → ℕ → List DailyStat → Bool
  has_day year month days = any (λ d. year_of std d == year && month_of std d == month) days

  abbrev recorded : ℕ → ℕ → List (ℕ × List ℕ) → Bool
  recorded year month months = any (λ k. k == month) (find_year [] year months)

  recorded-at_year :
      (y m year month : ℕ) (months : List (ℕ × List ℕ))
      → recorded y m (at_year [] year (add_month month) months)
        ≡ (recorded y m months || (year == y && month == m))
  recorded-at_year y m year month months =
      rw (find-at_year [] year (add_month month) y months) (ground arith)

  collect_months-recorded :
      (y m : ℕ) (months : List (ℕ × List ℕ)) (days : List DailyStat)
      → recorded y m (collect_months std months days) ≡ (recorded y m months || has_day y m days)
  unfolding collect_months
  collect_months-recorded y m months [] = ground arith
  collect_months-recorded y m months (d ∷ ds) =
      collect_months-recorded y m (at_year [] (year_of std d) (add_month (month_of std d)) months)
        ds
      ∙ ground (arith, recorded-at_year y m (year_of std d) (month_of std d) months)

  collect_months-keys :
      (y : ℕ) (months : List (ℕ × List ℕ)) (days : List DailyStat)
      → any (λ k. k == y) (keys (collect_months std months days))
        ≡ (any (λ k. k == y) (keys months) || any (λ d. year_of std d == y) days)
  unfolding collect_months
  collect_months-keys y months [] = ground arith
  collect_months-keys y months (d ∷ ds) =
      collect_months-keys y (at_year [] (year_of std d) (add_month (month_of std d)) months) ds
      ∙ ground (arith, any-at_year [] (year_of std d) (add_month (month_of std d)) y months)

  collect_months-Distinct :
      (months : List (ℕ × List ℕ)) (days : List DailyStat)
      → Distinct (keys months)
      → Distinct (keys (collect_months std months days))
  unfolding collect_months
  collect_months-Distinct months [] h = h
  collect_months-Distinct months (d ∷ ds) h =
      collect_months-Distinct (at_year [] (year_of std d) (add_month (month_of std d)) months) ds
        (at_year-Distinct [] (year_of std d) (add_month (month_of std d)) months h)

abbrev falling : ℕ → ℕ → Bool
falling a b = ltb b a

-- The numbers fall, from a bound on.
abbrev pub Below : ℕ → List ℕ → Type 0
Below b [] = Unit
Below b (x ∷ xs) = (x < b) × Below x xs

abbrev pub Falling : List ℕ → Type 0
Falling [] = Unit
Falling (x ∷ xs) = Below x xs

insert-Below :
    (x b : ℕ) (xs : List ℕ)
    → x < b
    → any (λ y. y == x) xs ≡ false
    → Below b xs
    → Below b (insert falling x xs)
unfolding insert
insert-Below x b [] h n p = (h, tt)
insert-Below x b (y ∷ ys) h n p = elim (Bool-cases (ltb x y)) [
  | inl e ↦ rw e (p.0, insert-Below x y ys (ground (arith, e)) (ground (arith, n)) p.1)
  | inr e ↦ rw e (h, (ground (arith, e, n), p.1))
]

insert-Falling :
    (x : ℕ) (xs : List ℕ)
    → any (λ y. y == x) xs ≡ false
    → Falling xs
    → Falling (insert falling x xs)
unfolding insert
insert-Falling x [] n p = tt
insert-Falling x (y ∷ ys) n p = elim (Bool-cases (ltb x y)) [
  | inl e ↦ rw e (insert-Below x y ys (ground (arith, e)) (ground (arith, n)) p)
  | inr e ↦ rw e (ground (arith, e, n), p)
]

sort-Falling : (xs : List ℕ) → Distinct xs → Falling (sort falling xs)
unfolding sort
sort-Falling [] d = tt
sort-Falling (x ∷ xs) d =
    insert-Falling x (sort falling xs) (any-sort falling (λ y. y == x) xs ∙ d.0)
      (sort-Falling xs d.1)

any-map :
    {A B : Type 0} (p : B → Bool) (f : A → B) (xs : List A)
    → any p (map f xs) ≡ any (λ x. p (f x)) xs
any-map p f [] = refl
any-map p f (x ∷ xs) = ground (arith, any-map p f xs)

map-same :
    (f : ℕ → TrackedMonthsYear) (ys : List ℕ)
    → ((y : ℕ) → (f y).year ≡ y)
    → map (λ (e : TrackedMonthsYear). e.year) (map f ys) ≡ ys
map-same f [] h = refl
map-same f (y ∷ ys) h = rw (h y, map-same f ys h) refl

module _ (std : Std) where
  -- The months of a year by the days: their names, in the order of the months.
  abbrev pub months_of : ℕ → List DailyStat → List String
  months_of year days =
      map (λ (m : ℕ × String). m.1)
        (filter (λ (m : ℕ × String). has_day std year m.0 days) month_names)

  -- The years are those of the days, the latest first, each once, with the months of its days.
  pub record Lists (days : List DailyStat) (out : List TrackedMonthsYear) : Type 0 where
    pub years :
        (y : ℕ)
        → any (λ (e : TrackedMonthsYear). e.year == y) out ≡ any (λ d. year_of std d == y) days
    pub falling : Falling (map (λ (e : TrackedMonthsYear). e.year) out)
    pub months : (e : TrackedMonthsYear) → In e out → e.months ≡ months_of e.year days

  month_list-eq :
      (year : ℕ) (days : List DailyStat)
      → month_list (find_year [] year (collect_months std [] days)) ≡ months_of year days
  unfolding month_list find_year
  month_list-eq year days =
      ap (λ (p : ℕ × String → Bool). map (λ (m : ℕ × String). m.1) (filter p month_names))
        (fun_ext λ m.
          collect_months-recorded std year m.0 [] days
          ∙ ap (λ b. b || has_day std year m.0 days) (none_recorded year m.0))
    where
      none_recorded : (y m : ℕ) → any (λ k. k == m) (find_year {V = List ℕ} [] y []) ≡ false
      none_recorded y m = refl

  -- The answer on tracked months has each year that has a day once and no other, the latest
  -- first, and lists under it the names of the months that have a day of that year, in the
  -- order of the months.
  pub tracked_months_to_dto-Lists :
      (days : List DailyStat) → Lists days (tracked_months_to_dto std days)
  unfolding tracked_months_to_dto sorted_years_desc
  tracked_months_to_dto-Lists days = record {
    years = λ y.
        any-map (λ (e : TrackedMonthsYear). e.year == y) entry (sort falling all_keys)
        ∙ any-sort falling (λ k. k == y) all_keys
        ∙ collect_months-keys std y [] days;
    falling =
        subst Falling (sym (map-same entry (sort falling all_keys) (λ y. refl)))
          (sort-Falling all_keys (collect_months-Distinct std [] days tt));
    months = λ e i.
        let r = of_In-map entry (sort falling all_keys) e i in
        subst (λ (x : TrackedMonthsYear). x.months ≡ months_of x.year days) r.image
          (month_list-eq r.origin days);
  }
    where
      all_keys : List ℕ
      all_keys = keys (collect_months std [] days)

      entry : ℕ → TrackedMonthsYear
      entry year = record {
        year = year;
        months = month_list (find_year [] year (collect_months std [] days));
      }
