-- ===== src/Base/Sort.antt =====
-- Insertion sort by a strict Boolean test: what `ORDER BY` and `sort.Slice` return. Equal keys keep
-- their order.
use mathlib.Core.Path.{◌≡◌, refl}
use mathlib.Core.Bool.{Bool, ◌||◌}
use mathlib.Core.List.{List, [], ◌∷◌}
use native.Mathlib.Omega.{arith}
use Prim.Native.Nat.{ℕ, ◌≤◌}
use mathlib.Core.Logic.{inl, inr}
use travelmap.Base.Tests.{if◌then◌else◌, ltb, Bool-cases}
use travelmap.Base.Lists.{any}

module _ {ℓ} {A : Type ℓ} where
  unfoldable pub insert : (A → A → Bool) → A → List A → List A
  insert lt x [] = x ∷ []
  insert lt x (y ∷ ys) = let rest = insert lt x ys in if lt y x then y ∷ rest else x ∷ y ∷ ys

  unfoldable pub sort : (A → A → Bool) → List A → List A
  unfolding insert
  sort lt [] = []
  sort lt (x ∷ xs) = insert lt x (sort lt xs)

module _ {ℓ} {A : Type ℓ} where
  any-insert :
      (lt : A → A → Bool) (p : A → Bool) (x : A) (xs : List A)
      → any p (insert lt x xs) ≡ (p x || any p xs)
  unfolding insert
  any-insert lt p x [] = refl
  any-insert lt p x (y ∷ ys) = ground (arith, any-insert lt p x ys)

  pub any-sort : (lt : A → A → Bool) (p : A → Bool) (xs : List A) → any p (sort lt xs) ≡ any p xs
  unfolding sort
  any-sort lt p [] = refl
  any-sort lt p (x ∷ xs) = ground (arith, any-insert lt p x (sort lt xs), any-sort lt p xs)

module _ {ℓ} {A : Type ℓ} (key : A → ℕ) where
  -- The keys ascend, from a bound on.
  abbrev pub Ascending : ℕ → List A → Type 0
  Ascending b [] = Unit
  Ascending b (x ∷ xs) = (b ≤ key x) × Ascending (key x) xs

  insert-Ascending :
      (x : A) (b : ℕ) (xs : List A)
      → b ≤ key x
      → Ascending b xs
      → Ascending b (insert (λ y z. ltb (key y) (key z)) x xs)
  unfolding insert
  insert-Ascending x b [] h a = (h, tt)
  insert-Ascending x b (y ∷ ys) h a = elim (Bool-cases (ltb (key y) (key x))) [
    | inl e ↦ rw e (a.0, insert-Ascending x (key y) ys (ground (arith, e)) a.1)
    | inr e ↦ rw e (h, (ground (arith, e), a.1))
  ]

  pub sort-Ascending : (xs : List A) → Ascending 0 (sort (λ y z. ltb (key y) (key z)) xs)
  unfolding sort
  sort-Ascending [] = tt
  sort-Ascending (x ∷ xs) = insert-Ascending x 0 _ (omega arith) (sort-Ascending xs)
