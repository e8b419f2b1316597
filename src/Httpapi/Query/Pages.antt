-- ===== src/Httpapi/Query/Pages.antt =====
-- internal/httpapi/points.go and tracks.go: the pages of a listing, as the store cuts them and as
-- X-Total-Pages counts them.
use native.Mathlib.Nat.{div-mul-le_self, lt-div-mul-add}
use travelmap.Base.{
  ℕ, zero, suc, ◌+◌, ◌-◌, ◌*◌, ◌/◌, ◌≤◌, ◌<◌, ◌≡◌, refl, ap, ◌∙◌, List, [], ◌++◌, length, take,
  drop, arith, length-take_le, take-add, take-all, drop-all, take-nil,
}
use travelmap.Base.Integers.{ℤ, max_int}
use travelmap.Store.Points.{offset_of, page_of}
use travelmap.Httpapi.Query.{total_pages}

module _ {A : Type 0} (per_page : ℕ) (rows : List A) where
  -- The first `n` pages, one after another.
  abbrev pub pages : ℕ → List A
  pages zero = []
  pages (suc n) = pages n ++ page_of (suc n) per_page rows

  offset_of-small : (n : ℕ) → n * per_page ≤ max_int → offset_of (suc n) per_page ≡ n * per_page
  unfolding offset_of
  offset_of-small n h = ground (arith, h)

  less : (n : ℕ) → suc n * per_page ≤ max_int → n * per_page ≤ max_int
  less n h = omega (arith, h)

  pages-take : (n : ℕ) → n * per_page ≤ max_int → pages n ≡ take (n * per_page) rows
  unfolding page_of
  pages-take zero h = ap (λ k. take k rows) {x = 0} (omega arith)
  pages-take (suc n) h =
      rw (pages-take n (less n h), offset_of-small n (less n h))
        (take-add (n * per_page) per_page rows ∙ ap (λ k. take k rows) (omega arith))

  pub page_of-bounded : (page : ℕ) → length (page_of page per_page rows) ≤ per_page
  unfolding page_of
  page_of-bounded page = length-take_le per_page (drop (offset_of page per_page) rows)

  page_of-beyond :
      (n : ℕ)
      → length rows ≤ n * per_page
      → n * per_page ≤ max_int
      → page_of (suc n) per_page rows ≡ []
  unfolding page_of
  page_of-beyond n h k =
      rw (offset_of-small n k, drop-all (n * per_page) rows h) (take-nil per_page)

  -- The pages that X-Total-Pages counts hold every row once, in order; the next one is empty.
  pub record Paged : Type 0 where
    pub count : ℕ
    pub header : total_pages (length rows) per_page ≡ ℤ.pos count
    pub all : pages count ≡ rows
    pub beyond : page_of (suc count) per_page rows ≡ []
    pub needed : (length rows + per_page - 1) / per_page ≡ count

  module _ (positive : 0 < per_page) (fits : length rows + per_page ≤ max_int) where
    abbrev quotient : ℕ
    quotient = (length rows + per_page - 1) / per_page

    enough : length rows ≤ quotient * per_page
    enough = omega (arith, positive, lt-div-mul-add {a = length rows + per_page - 1} positive)

    small : quotient * per_page ≤ max_int
    small = omega (arith, fits, div-mul-le_self (length rows + per_page - 1) per_page)

    total_pages-eq : total_pages (length rows) per_page ≡ ℤ.pos quotient
    unfolding total_pages
    total_pages-eq = ground (arith, fits)

    -- For a page length over 0 that, with the number of rows, stays within 63 bits, X-Total-
    -- Pages is the number of rows divided by the page length, rounded up; that many pages of
    -- the store hold every row once, in order, and the page after them is empty.
    pub total_pages-Paged : Paged
    total_pages-Paged = record {
      count = quotient;
      header = total_pages-eq;
      all = pages-take quotient small ∙ take-all (quotient * per_page) rows enough;
      beyond = page_of-beyond quotient enough small;
      needed = refl;
    }
