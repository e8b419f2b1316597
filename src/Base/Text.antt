-- ===== src/Base/Text.antt =====
-- Comparing texts as SQLite does: by their characters' numbers, or with the ASCII letters' case
-- folded (COLLATE NOCASE).
use Prim.Native.Nat.{ℕ, ◌+◌}
use Prim.Native.Char.{code}
use Prim.Native.String.{String, [], ◌∷◌}
use mathlib.Core.Path.{◌≡◌, refl}
use mathlib.Core.Bool.{Bool, true, false, ◌&&◌}
use native.Mathlib.Omega.{arith}
use travelmap.Base.Tests.{◌==◌, leb, if◌then◌else◌}

-- A text and then another.
abbrev pub append : String → String → String
append [] t = t
append (c ∷ s) t = c ∷ append s t

module _ (fold : ℕ → ℕ) where
  unfoldable pub alike : String → String → Bool
  alike [] [] = true
  alike [] (d ∷ t) = false
  alike (c ∷ s) [] = false
  alike (c ∷ s) (d ∷ t) = fold (code c) == fold (code d) && alike s t

  pub alike_refl : (s : String) → alike s s ≡ true
  unfolding alike
  alike_refl [] = refl
  alike_refl (c ∷ s) = ground (arith, alike_refl s)

  pub alike_comm : (s t : String) → alike s t ≡ alike t s
  unfolding alike
  alike_comm [] [] = refl
  alike_comm [] (d ∷ t) = refl
  alike_comm (c ∷ s) [] = refl
  alike_comm (c ∷ s) (d ∷ t) = ground (arith, alike_comm s t)

  -- Texts that are alike are alike to the same texts.
  pub alike_left : (s t u : String) → alike s t ≡ true → alike s u ≡ alike t u
  unfolding alike
  alike_left [] [] u h = refl
  alike_left [] (d ∷ t) u h = cc
  alike_left (c ∷ s) [] u h = cc
  alike_left (c ∷ s) (d ∷ t) [] h = refl
  alike_left (c ∷ s) (d ∷ t) (e ∷ u) h = ground (arith, h, alike_left s t u)

abbrev pub lower_code : ℕ → ℕ
lower_code n = if leb 65 n && leb n 90 then n + 32 else n

unfoldable pub same_text : String → String → Bool
unfolding alike
same_text = alike (λ n. n)

pub same_text_refl : (s : String) → same_text s s ≡ true
unfolding same_text
same_text_refl = alike_refl (λ n. n)

pub same_text_left : (s t u : String) → same_text s t ≡ true → same_text s u ≡ same_text t u
unfolding same_text
same_text_left = alike_left (λ n. n)

pub same_text_comm : (s t : String) → same_text s t ≡ same_text t s
unfolding same_text
same_text_comm = alike_comm (λ n. n)

unfoldable pub same_nocase : String → String → Bool
unfolding alike
same_nocase = alike lower_code

pub same_nocase_refl : (s : String) → same_nocase s s ≡ true
unfolding same_nocase
same_nocase_refl = alike_refl lower_code

pub same_nocase_comm : (s t : String) → same_nocase s t ≡ same_nocase t s
unfolding same_nocase
same_nocase_comm = alike_comm lower_code
