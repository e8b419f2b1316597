-- ===== src/Base/Members.antt =====
-- Membership in a list by recursion, and what it says of filters and tests.
use Prim.Native.Nat.{◌≤◌, ◌<◌}
use mathlib.Core.Path.{◌≡◌, refl, sym, ◌∙◌, ap, subst}
use mathlib.Core.Logic.{◌⊎◌, inl, inr}
use mathlib.Core.Bool.{Bool, true, false, false≢true}
use mathlib.Core.List.{List, [], ◌∷◌, ◌++◌, map}
use native.Mathlib.Omega.{arith}
use travelmap.Base.Tests.{if◌then◌else◌, Bool-cases}
use mathlib.Core.Option.{some, some-injective}
use travelmap.Base.Lists.{any, filter, find, length}
use travelmap.Base.Sort.{insert, sort}

module _ {ℓ} {A : Type ℓ} where
  pub data In (x : A) : List A → Type ℓ where
    here : {y : A} {ys : List A} → y ≡ x → In x (y ∷ ys)
    there : {y : A} {ys : List A} → In x ys → In x (y ∷ ys)

module _ {ℓ} {A : Type ℓ} where
  pub In-append : (xs ys : List A) (x : A) → In x (xs ++ ys) → In x xs ⊎ In x ys
  In-append [] ys x h = inr h
  In-append (y ∷ xs) ys x (here e) = inl (here e)
  In-append (y ∷ xs) ys x (there h) = elim (In-append xs ys x h) [
    | inl i ↦ inl (there i)
    | inr i ↦ inr i
  ]

  pub In-append_left : (xs ys : List A) (x : A) → In x xs → In x (xs ++ ys)
  In-append_left (y ∷ xs) ys x (here e) = here e
  In-append_left (y ∷ xs) ys x (there h) = there (In-append_left xs ys x h)
  In-append_left [] ys x h = elim h [ ]

  pub In-append_right : (xs ys : List A) (x : A) → In x ys → In x (xs ++ ys)
  In-append_right [] ys x h = h
  In-append_right (y ∷ xs) ys x h = there (In-append_right xs ys x h)

  pub In-filter : (p : A → Bool) (xs : List A) (x : A) → In x xs → p x ≡ true → In x (filter p xs)
  In-filter p [] x h e = elim h [ ]
  In-filter p (y ∷ xs) x (here i) e = rw (ap p i ∙ e) (here i)
  In-filter p (y ∷ xs) x (there h) e = elim (Bool-cases (p y)) [
    | inl t ↦ rw t (there (In-filter p xs x h e))
    | inr t ↦ rw t (In-filter p xs x h e)
  ]

  split_filter :
      (p : A → Bool) (y : A) (xs : List A) (x : A) (b : Bool)
      → p y ≡ b
      → (In x (filter p xs) → In x xs × (p x ≡ true))
      → In x (if b then y ∷ filter p xs else filter p xs)
      → In x (y ∷ xs) × (p x ≡ true)
  split_filter p y xs x true e rest (here i) = (here i, ap p (sym i) ∙ e)
  split_filter p y xs x true e rest (there h) = (there (rest h).0, (rest h).1)
  split_filter p y xs x false e rest h = (there (rest h).0, (rest h).1)

  pub of_In-filter :
      (p : A → Bool) (xs : List A) (x : A) → In x (filter p xs) → In x xs × (p x ≡ true)
  of_In-filter p [] x h = elim h [ ]
  of_In-filter p (y ∷ xs) x h = split_filter p y xs x (p y) refl (of_In-filter p xs x) h

  pub any-In : (p : A → Bool) (xs : List A) → any p xs ≡ true → (x : A) × In x xs × (p x ≡ true)
  any-In p [] h = absurd (false≢true h)
  any-In p (y ∷ xs) h = elim (Bool-cases (p y)) [
    | inl t ↦ (y, here refl, t)
    | inr t ↦ let (x, i, e) = any-In p xs (rw t at h) in (x, there i, e)
  ]

  pub any_of_In : (p : A → Bool) (xs : List A) (x : A) → In x xs → p x ≡ true → any p xs ≡ true
  any_of_In p [] x h e = elim h [ ]
  any_of_In p (y ∷ xs) x (here i) e = rw (ap p i ∙ e)
  any_of_In p (y ∷ xs) x (there h) e = ground (arith, any_of_In p xs x h e)

  pub of_any-false : (p : A → Bool) (xs : List A) (x : A) → In x xs → any p xs ≡ false → p x ≡ false
  of_any-false p xs x i h = elim (Bool-cases (p x)) [
    | inl t ↦ absurd (false≢true (sym h ∙ any_of_In p xs x i t))
    | inr f ↦ f
  ]

  pub filter_congr :
      (p q : A → Bool) (xs : List A) → ((x : A) → In x xs → p x ≡ q x) → filter p xs ≡ filter q xs
  filter_congr p q [] h = refl
  filter_congr p q (y ∷ xs) h =
      ground (arith, h y (here refl), filter_congr p q xs (λ x i. h x (there i)))

  -- A `WHERE` whose rows another keeps is not changed by it.
  pub filter_kept :
      (p keep : A → Bool) (xs : List A)
      → ((x : A) → In x xs → p x ≡ true → keep x ≡ true)
      → filter p (filter keep xs) ≡ filter p xs
  filter_kept p keep [] h = refl
  filter_kept p keep (y ∷ xs) h =
      ground (arith, h y (here refl), filter_kept p keep xs (λ x i. h x (there i)))

  -- A `WHERE` that holds of no changed row, before or after, does not see the change.
  pub filter-map_kept :
      (p : A → Bool) (g : A → A) (xs : List A)
      → ((x : A) → In x xs → (g x ≡ x) ⊎ ((p x ≡ false) × (p (g x) ≡ false)))
      → filter p (map g xs) ≡ filter p xs
  filter-map_kept p g [] h = refl
  filter-map_kept p g (y ∷ xs) h =
      let ih = filter-map_kept p g xs (λ x i. h x (there i)) in
      elim (h y (here refl)) [ inl e ↦ rw (e, ih) | inr (a, b) ↦ rw (a, b, ih) ]

  pub filter-map_inv :
      (p : A → Bool) (g : A → A) (xs : List A)
      → ((x : A) → p (g x) ≡ p x)
      → filter p (map g xs) ≡ map g (filter p xs)
  filter-map_inv p g [] h = refl
  filter-map_inv p g (y ∷ xs) h = elim (Bool-cases (p y)) [
    | inl e ↦ rw (h y, e, filter-map_inv p g xs h)
    | inr e ↦ rw (h y, e, filter-map_inv p g xs h)
  ]

  -- Two conditions may be tested in either order.
  pub filter_comm : (p q : A → Bool) (xs : List A) → filter p (filter q xs) ≡ filter q (filter p xs)
  filter_comm p q [] = refl
  filter_comm p q (y ∷ xs) = ground (arith, filter_comm p q xs)

  -- A `WHERE` that implies another is not changed by it.
  pub filter_absorb :
      (p q : A → Bool) (xs : List A)
      → ((x : A) → p x ≡ true → q x ≡ true)
      → filter p (filter q xs) ≡ filter p xs
  filter_absorb p q [] h = refl
  filter_absorb p q (y ∷ xs) h = ground (arith, h y, filter_absorb p q xs h)

module _ {ℓ κ} {A : Type ℓ} (P : A → Type κ) where
  -- A property of the members of a list, from its head and its tail.
  pub in_cons :
      (y : A) (ys : List A) → P y → ((x : A) → In x ys → P x) → (x : A) → In x (y ∷ ys) → P x
  in_cons y ys p ps x (here e) = subst P e p
  in_cons y ys p ps x (there h) = ps x h

  pub in_nil : (ys : List A) → ys ≡ [] → (x : A) → In x ys → P x
  in_nil [] e x h = elim h [ ]
  in_nil (y ∷ ys) e x h = cc

module _ {ℓ} {A : Type ℓ} (lt : A → A → Bool) where
  insert_swap :
      (x y : A) (ys : List A) (z : A)
      → (In z (insert lt x ys) → In z (x ∷ ys))
      → In z (y ∷ insert lt x ys)
      → In z (x ∷ y ∷ ys)
  insert_swap x y ys z f (here e) = there (here e)
  insert_swap x y ys z f (there i) =
      in_cons (λ w. In w (x ∷ y ∷ ys)) x ys (here refl) (λ w j. there (there j)) z (f i)

  of_In-insert : (x : A) (ys : List A) (z : A) → In z (insert lt x ys) → In z (x ∷ ys)
  unfolding insert
  of_In-insert x [] z i = i
  of_In-insert x (y ∷ ys) z i = elim (Bool-cases (lt y x)) [
    | inl e ↦ insert_swap x y ys z (of_In-insert x ys z) (rw e at i)
    | inr e ↦ rw e at i
  ]

  pub of_In-sort : (xs : List A) (z : A) → In z (sort lt xs) → In z xs
  unfolding sort
  of_In-sort [] z i = i
  of_In-sort (x ∷ xs) z i =
      in_cons (λ w. In w (x ∷ xs)) x (sort lt xs) (here refl) (λ w j. there (of_In-sort xs w j)) z
        (of_In-insert x (sort lt xs) z i)

module _ {ℓ κ} {A : Type ℓ} {B : Type κ} (f : A → B) where
  -- A member of an image has an origin.
  pub record Image (xs : List A) (y : B) : Type (ℓ ⊔ κ) where
    pub origin : A
    pub is_in : In origin xs
    pub image : f origin ≡ y

  pub of_In-map : (xs : List A) (y : B) → In y (map f xs) → Image xs y
  of_In-map (x ∷ xs) y (here e) = record { origin = x; is_in = here refl; image = e }
  of_In-map (x ∷ xs) y (there i) =
      let r = of_In-map xs y i in
      record { origin = r.origin; is_in = there r.is_in; image = r.image }
  of_In-map [] y i = elim i [ ]

-- A member of a list with one more element at its end.
pub of_In_snoc {ℓ} : {A : Type ℓ} (xs : List A) (y x : A) → In x (xs ++ y ∷ []) → In x xs ⊎ (y ≡ x)
of_In_snoc xs y x i = elim (In-append xs (y ∷ []) x i) [
  | inl j ↦ inl j
  | inr j ↦ inr (in_cons (λ z. y ≡ z) y [] refl (λ z n. elim n [ ]) x j)
]

-- The row that a lookup finds.
pub In-find {ℓ} :
    {A : Type ℓ} (p : A → Bool) (xs : List A) (x : A) → find p xs ≡ some x → In x xs × (p x ≡ true)
In-find p [] x h = cc
In-find p (y ∷ xs) x h = elim (Bool-cases (p y)) [
  | inl e ↦ let i : y ≡ x = some-injective _ _ (rw e at h) in (here i, ap p (sym i) ∙ e)
  | inr e ↦ let (i, k) = In-find p xs x (rw e at h) in (there i, k)
]

pub In-map {ℓ κ} :
    {A : Type ℓ} {B : Type κ} (f : A → B) (xs : List A) (x : A) → In x xs → In (f x) (map f xs)
In-map f (y ∷ xs) x (here e) = here (ap f e)
In-map f (y ∷ xs) x (there i) = there (In-map f xs x i)
In-map f [] x i = elim i [ ]

filter-length_le {ℓ} : {A : Type ℓ} (p : A → Bool) (xs : List A) → length (filter p xs) ≤ length xs
filter-length_le p [] = omega arith
filter-length_le p (y ∷ ys) = ground (arith, filter-length_le p ys)

-- A filter that drops an element is shorter.
pub filter-length {ℓ} :
    {A : Type ℓ} (p : A → Bool) (xs : List A) (x : A)
    → In x xs
    → p x ≡ false
    → length (filter p xs) < length xs
filter-length p [] x i h = elim i [ ]
filter-length p (y ∷ ys) x (here e) h = rw (ap p e ∙ h) (omega (arith, filter-length_le p ys))
filter-length p (y ∷ ys) x (there i) h = ground (arith, filter-length p ys x i h)
