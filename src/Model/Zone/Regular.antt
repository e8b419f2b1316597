-- ===== src/Model/Zone/Regular.antt =====
-- Days of a regular location: each time lies in one of them.
use travelmap.Base.{ℕ, ◌+◌, ◌≤◌, ◌<◌, ◌≡◌, subst, ◌⊎◌, inl, inr, arith}
use travelmap.Model.{Time}
use travelmap.Model.Zone.{Zone, IsRegular}

module _ {z : Zone} (v : IsRegular z) where
  pub date_mono : (d e : ℕ) → d ≤ e → z.date d 0 ≤ z.date e 0
  date_mono d e h = elim (split d e h) [
    | inl p ↦ subst (λ x. z.date d 0 ≤ z.date x 0) p (omega arith)
    | inr p ↦ omega (arith, v.ascending d e p)
  ]
    where
      split : (d e : ℕ) → d ≤ e → (d ≡ e) ⊎ (d < e)
      split d e h = grind arith

  not_later : (d : ℕ) (t : Time) → t < z.date (d + 1) 0 → (z.local t).0 ≤ d
  not_later d t h = elim (cmp (z.local t).0 d) [
    | inl p ↦ p
    | inr p ↦ absurd (omega (arith, date_mono (d + 1) (z.local t).0 p, v.start t))
  ]
    where
      cmp : (a b : ℕ) → (a ≤ b) ⊎ (b + 1 ≤ a)
      cmp a b = grind arith

  not_earlier : (d : ℕ) (t : Time) → z.date d 0 ≤ t → d ≤ (z.local t).0
  not_earlier d t h = elim (cmp d (z.local t).0) [
    | inl p ↦ p
    | inr p ↦ absurd (omega (arith, date_mono ((z.local t).0 + 1) d p, v.next t))
  ]
    where
      cmp : (a b : ℕ) → (a ≤ b) ⊎ (b + 1 ≤ a)
      cmp a b = grind arith

  pub day_of_bounds : (d : ℕ) (t : Time) → z.date d 0 ≤ t → t < z.date (d + 1) 0 → (z.local t).0 ≡ d
  day_of_bounds d t h k = omega (arith, not_later d t k, not_earlier d t h)

  pub day_lt : (d : ℕ) (t : Time) → t < z.date d 0 → (z.local t).0 + 1 ≤ d
  day_lt d t h = elim (cmp ((z.local t).0 + 1) d) [
    | inl p ↦ p
    | inr p ↦ absurd (omega (arith, date_mono d (z.local t).0 (omega arith), v.start t))
  ]
    where
      cmp : (a b : ℕ) → (a ≤ b) ⊎ (b + 1 ≤ a)
      cmp a b = grind arith

  -- A midnight is the midnight of one day only.
  pub date-injective : (d e : ℕ) → z.date d 0 ≡ z.date e 0 → d ≡ e
  date-injective d e h = elim (tri d e) [
    | inl p ↦ absurd (omega (arith, v.ascending d e p))
    | inr r ↦ elim r [ inl p ↦ p | inr p ↦ absurd (omega (arith, v.ascending e d p)) ]
  ]
    where
      tri : (a b : ℕ) → (a < b) ⊎ ((a ≡ b) ⊎ (b < a))
      tri a b = grind arith
