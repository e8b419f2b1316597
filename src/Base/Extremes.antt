-- ===== src/Base/Extremes.antt =====
-- `ORDER BY key LIMIT 1`, ascending and descending: the first of the rows with the least, or the
-- greatest, key.
use Prim.Native.Nat.{ℕ, ◌≤◌}
use mathlib.Core.Path.{◌≡◌, refl, sym, ◌∙◌, ap, subst}
use mathlib.Core.Logic.{◌⊎◌, inl, inr}
use mathlib.Core.Bool.{Bool, true}
use mathlib.Core.List.{List, [], ◌∷◌, ◌++◌, map}
use mathlib.Core.Option.{Option, none, some, some-injective}
use mathlib.Core.Option
use native.Mathlib.Omega.{arith}
use travelmap.Base.Tests.{ltb, if◌then◌else◌, Bool-cases, Option-cases}
use travelmap.Base.Lists.{filter}
use travelmap.Base.Members.{In, here, there, in_cons, in_nil, In-append_left, of_In-filter}

module _ {ℓ} {A : Type ℓ} (key : A → ℕ) where
  abbrev pub lesser : A → Option A → Option A
  lesser p none = some p
  lesser p (some q) = if ltb (key q) (key p) then some q else some p

  abbrev pub greater : A → Option A → Option A
  greater p none = some p
  greater p (some q) = if ltb (key p) (key q) then some q else some p

  unfoldable pub first_by : List A → Option A
  first_by [] = none
  first_by (p ∷ ps) = lesser p (first_by ps)

  unfoldable pub last_by : List A → Option A
  last_by [] = none
  last_by (p ∷ ps) = greater p (last_by ps)

module _ {ℓ} {A : Type ℓ} where
  -- `q` is an element, and no other has a greater key.
  pub record IsLast (key : A → ℕ) (q : A) (ps : List A) : Type ℓ where
    pub is_in : In q ps
    pub latest : (r : A) → In r ps → key r ≤ key q

  pub record IsFirst (key : A → ℕ) (q : A) (ps : List A) : Type ℓ where
    pub is_in : In q ps
    pub earliest : (r : A) → In r ps → key q ≤ key r

module _ {ℓ} {A : Type ℓ} (key : A → ℕ) where
  greater-ne-none : (p : A) (o : Option A) → ¬ (greater key p o ≡ none)
  greater-ne-none p none h = cc
  greater-ne-none p (some q) h = ground arith

  lesser-ne-none : (p : A) (o : Option A) → ¬ (lesser key p o ≡ none)
  lesser-ne-none p none h = cc
  lesser-ne-none p (some q) h = ground arith

  pub last_by-eq-none : (ps : List A) → last_by key ps ≡ none → ps ≡ []
  unfolding last_by
  last_by-eq-none [] h = refl
  last_by-eq-none (p ∷ ps) h = absurd (greater-ne-none p (last_by key ps) h)

  pub first_by-eq-none : (ps : List A) → first_by key ps ≡ none → ps ≡ []
  unfolding first_by
  first_by-eq-none [] h = refl
  first_by-eq-none (p ∷ ps) h = absurd (lesser-ne-none p (first_by key ps) h)

  IsLast-cons :
      (p : A) (ps : List A) (o : Option A) (q : A)
      → (o ≡ none → ps ≡ [])
      → ((x : A) → o ≡ some x → IsLast key x ps)
      → greater key p o ≡ some q
      → IsLast key q (p ∷ ps)
  IsLast-cons p ps none q empty rest h = record {
    is_in = here (some-injective _ _ h);
    latest = in_cons (λ r. key r ≤ key q) p ps (ground arith) (in_nil _ ps (empty refl));
  }
  IsLast-cons p ps (some x) q empty rest h = elim (Bool-cases (ltb (key p) (key x))) [
    | inl t ↦
        let e : x ≡ q = some-injective _ _ (rw t at h) in
        record {
          is_in = there (subst (λ y. In y ps) e (rest x refl).is_in);
          latest =
              in_cons (λ r. key r ≤ key q) p ps (ground arith)
                (subst (λ y. (r : A) → In r ps → key r ≤ key y) e (rest x refl).latest);
        }
    | inr t ↦
        let e : p ≡ q = some-injective _ _ (rw t at h) in
        record {
          is_in = here e;
          latest =
              in_cons (λ r. key r ≤ key q) p ps (ground arith)
                (λ r i. ground (arith, (rest x refl).latest r i));
        }
  ]

  pub last_by-IsLast : (ps : List A) (q : A) → last_by key ps ≡ some q → IsLast key q ps
  unfolding last_by
  last_by-IsLast [] q h = cc
  last_by-IsLast (p ∷ ps) q h =
      IsLast-cons p ps (last_by key ps) q (last_by-eq-none ps) (λ x e. last_by-IsLast ps x e) h

  IsFirst-cons :
      (p : A) (ps : List A) (o : Option A) (q : A)
      → (o ≡ none → ps ≡ [])
      → ((x : A) → o ≡ some x → IsFirst key x ps)
      → lesser key p o ≡ some q
      → IsFirst key q (p ∷ ps)
  IsFirst-cons p ps none q empty rest h = record {
    is_in = here (some-injective _ _ h);
    earliest = in_cons (λ r. key q ≤ key r) p ps (ground arith) (in_nil _ ps (empty refl));
  }
  IsFirst-cons p ps (some x) q empty rest h = elim (Bool-cases (ltb (key x) (key p))) [
    | inl t ↦
        let e : x ≡ q = some-injective _ _ (rw t at h) in
        record {
          is_in = there (subst (λ y. In y ps) e (rest x refl).is_in);
          earliest =
              in_cons (λ r. key q ≤ key r) p ps (ground arith)
                (subst (λ y. (r : A) → In r ps → key y ≤ key r) e (rest x refl).earliest);
        }
    | inr t ↦
        let e : p ≡ q = some-injective _ _ (rw t at h) in
        record {
          is_in = here e;
          earliest =
              in_cons (λ r. key q ≤ key r) p ps (ground arith)
                (λ r i. ground (arith, (rest x refl).earliest r i));
        }
  ]

  pub first_by-IsFirst : (ps : List A) (q : A) → first_by key ps ≡ some q → IsFirst key q ps
  unfolding first_by
  first_by-IsFirst [] q h = cc
  first_by-IsFirst (p ∷ ps) q h =
      IsFirst-cons p ps (first_by key ps) q (first_by-eq-none ps) (λ x e. first_by-IsFirst ps x e) h

  -- An element stays the last in front of elements that are not later.
  greater_head :
      (p : A) (o : Option A) → ((y : A) → o ≡ some y → key y ≤ key p) → greater key p o ≡ some p
  greater_head p none h = refl
  greater_head p (some y) h = ground (arith, h y refl)

  -- The last of an appended list is the last of its first part, or stands in the second.
  greater-append :
      (p : A) (xs ys : List A)
      → (last_by key (xs ++ ys) ≡ last_by key xs)
        ⊎ ((q : A) × In q ys × (last_by key (xs ++ ys) ≡ some q))
      → (last_by key (p ∷ xs ++ ys) ≡ last_by key (p ∷ xs))
        ⊎ ((q : A) × In q ys × (last_by key (p ∷ xs ++ ys) ≡ some q))
  unfolding last_by
  greater-append p xs ys (inl e) = inl (ap (greater key p) e)
  greater-append p xs ys (inr (q, i, e)) = elim (Bool-cases (ltb (key p) (key q))) [
    | inl t ↦ inr (q, i, rw (e, t))
    | inr t ↦ inl (
        rw (e, t)
          (sym (
            greater_head p (last_by key xs) (λ y n. ground (
              arith,
              t,
              (last_by-IsLast (xs ++ ys) q e).latest y
                  (In-append_left xs ys y (last_by-IsLast xs y n).is_in),
            )))))
  ]

  pub last_by-append :
      (xs ys : List A)
      → (last_by key (xs ++ ys) ≡ last_by key xs)
        ⊎ ((q : A) × In q ys × (last_by key (xs ++ ys) ≡ some q))
  unfolding last_by
  last_by-append [] ys = elim (Option-cases (last_by key ys)) [
    | inl e ↦ inl e
    | inr (q, e) ↦ inr (q, (last_by-IsLast ys q e).is_in, e)
  ]
  last_by-append (p ∷ xs) ys = greater-append p xs ys (last_by-append xs ys)

  filter-greater :
      (keep : A → Bool) (p : A) (xs : List A) (o : Option A) (q : A)
      → last_by key xs ≡ o
      → ((x : A) → last_by key xs ≡ some x → keep x ≡ true → last_by key (filter keep xs) ≡ some x)
      → greater key p o ≡ some q
      → keep q ≡ true
      → last_by key (filter keep (p ∷ xs)) ≡ some q
  unfolding last_by
  filter-greater keep p xs none q e rest h k =
      let e' : p ≡ q = some-injective _ _ h in rw (last_by-eq-none xs e, ap keep e' ∙ k) h
  filter-greater keep p xs (some x) q e rest h k = elim (Bool-cases (ltb (key p) (key x))) [
    | inl t ↦
        let e' : x ≡ q = some-injective _ _ (rw t at h) in
        let r : last_by key (filter keep xs) ≡ some x = rest x e (ap keep e' ∙ k) in
        elim (Bool-cases (keep p)) [
          | inl kp ↦ rw (kp, r, t) (ap some e')
          | inr kp ↦ rw kp (r ∙ ap some e')
        ]
    | inr t ↦
        let e' : p ≡ q = some-injective _ _ (rw t at h) in
        rw (ap keep e' ∙ k) (
          greater_head p (last_by key (filter keep xs)) (λ y n. ground (
            arith,
            t,
            (last_by-IsLast xs x e).latest y
                (of_In-filter keep xs y (last_by-IsLast (filter keep xs) y n).is_in).0,
          ))
          ∙ ap some e')
  ]

  -- Dropping elements other than the last keeps the last.
  pub last_by-filter :
      (keep : A → Bool) (xs : List A) (q : A)
      → last_by key xs ≡ some q
      → keep q ≡ true
      → last_by key (filter keep xs) ≡ some q
  unfolding last_by
  last_by-filter keep [] q h k = h
  last_by-filter keep (p ∷ xs) q h k =
      filter-greater keep p xs (last_by key xs) q refl (λ x e. last_by-filter keep xs x e) h k

  greater-map :
      (f : A → A) (p : A) (o : Option A)
      → ((x : A) → key (f x) ≡ key x)
      → greater key (f p) (Option.map f o) ≡ Option.map f (greater key p o)
  greater-map f p none h = refl
  greater-map f p (some x) h =
      rw (h p, h x) (elim (Bool-cases (ltb (key p) (key x))) [ inl t ↦ rw t | inr t ↦ rw t ])

  pub last_by-map :
      (f : A → A) (xs : List A)
      → ((x : A) → key (f x) ≡ key x)
      → last_by key (map f xs) ≡ Option.map f (last_by key xs)
  unfolding last_by
  last_by-map f [] h = refl
  last_by-map f (p ∷ xs) h =
      ap (greater key (f p)) (last_by-map f xs h) ∙ greater-map f p (last_by key xs) h
