-- ===== src/Foursquare/Walked.antt =====
-- internal/foursquare/client.go `EachCheckinPage`: the end of the walk.
use travelmap.Base.{
  ℕ, zero, suc, ◌+◌, ◌*◌, ◌<◌, ◌≡◌, refl, sym, ap, ◌∙◌, ◌&&◌, ◌||◌, not, Option, none, some, List,
  [], ◌∷◌, length, ltb, arith, Bool-cases, inl, inr,
}
use travelmap.Model.{Time, second}
use travelmap.Exec.{Env, World, Result, ok, err, continue, ◌>>=◌}
use travelmap.Store.{Db, Action}
use travelmap.Foursquare.{
  Checkin, Fault, Fetched, page, refusal, Ended, page_limit, in_window, oldest_of, given, page_done,
  page_read, walk, pages_before, each_checkin_page,
}

module _ {S : Type 0} where
  -- The walk did not run out of fuel.
  abbrev pub IsOver : Result (S × Ended) → Type 0
  IsOver (ok (s, Ended.spent)) = ⊥
  IsOver (ok (s, Ended.complete)) = Unit
  IsOver (ok (s, Ended.stopped fault)) = Unit
  IsOver (err e) = Unit

  IsOver-continue :
      {A : Type 0} (f : A → Action (S × Ended)) (env : Env)
      → ((a : A) (w : World Db) → IsOver (f a env w).0)
      → (r : Result A) (w : World Db) → IsOver (continue r f env w).0
  IsOver-continue f env h (ok a) w = h a w
  IsOver-continue f env h (err e) w = tt

module _ {S : Type 0} (fetch : ℕ → ℕ → Fetched) (after : Time)
    (fn : List Checkin → S → Action (S × Option Fault)) where
  done-IsOver :
      (offset previous size oldest : ℕ) (next : ℕ → S → Action (S × Ended)) (env : Env)
      → ((0 < offset → oldest < previous) → (s : S) (w : World Db) → IsOver (next oldest s env w).0)
      → (r : S × Option Fault) (w : World Db)
      → IsOver (page_done fetch after fn offset previous size oldest next r env w).0
  done-IsOver offset previous size oldest next env h (s, some fault) w = tt
  done-IsOver offset previous size oldest next env h (s, none) w =
      elim (Bool-cases (ltb size page_limit || ltb (oldest * second) after)) [
        | inl e ↦ rw (e, page_done) tt
        | inr e ↦
            rw (e, page_done)
              (elim (Bool-cases (ltb 0 offset && not (ltb oldest previous))) [
                | inl p ↦ rw (p, page_done) tt
                | inr p ↦ rw (p, page_done) (h (λ o. ground (arith, o, p)) s w)
              ])
      ]

  read-IsOver :
      (offset previous : ℕ) (next : ℕ → S → Action (S × Ended)) (f : Fetched) (s : S) (env : Env)
      (w : World Db)
      → ((c : Checkin) (cs : List Checkin)
          → f ≡ page (c ∷ cs)
          → (0 < offset → oldest_of c.created_at cs < previous)
          → (s : S) (w : World Db) → IsOver (next (oldest_of c.created_at cs) s env w).0)
      → IsOver (page_read fetch after fn offset previous next f s env w).0
  unfolding ◌>>=◌
  read-IsOver offset previous next (refusal fault) s env w h = tt
  read-IsOver offset previous next (page []) s env w h = tt
  read-IsOver offset previous next (page (c ∷ cs)) s env w h =
      IsOver-continue _ env
        (done-IsOver offset previous (length (c ∷ cs)) (oldest_of c.created_at cs) next env
          (h c cs refl))
        (given fetch after fn (in_window after (c ∷ cs)) s env w).0
        (given fetch after fn (in_window after (c ∷ cs)) s env w).1

  walk-IsOver :
      (fuel offset previous : ℕ) (s : S) (env : Env) (w : World Db)
      → previous < fuel
      → 0 < offset
      → IsOver (walk fetch after fn fuel offset previous s env w).0
  unfolding walk
  walk-IsOver zero offset previous s env w h o = absurd (omega (arith, h))
  walk-IsOver (suc fuel) offset previous s env w h o =
      read-IsOver offset previous (walk fetch after fn fuel (offset + page_limit))
        (fetch w.steps offset) s env w
        (λ c cs e p s' w'.
          walk-IsOver fuel (offset + page_limit) (oldest_of c.created_at cs) s' env w'
            (omega (arith, h, p o)) (omega arith))

  pub each_checkin_page-IsOver :
      (s : S) (env : Env) (w : World Db) → IsOver (each_checkin_page fetch after fn s env w).0
  unfolding each_checkin_page walk
  each_checkin_page-IsOver s env w = first (fetch w.steps 0) refl
    where
      first :
          (f : Fetched)
          → fetch w.steps 0 ≡ f
          → IsOver (walk fetch after fn (pages_before fetch after fn f) 0 0 s env w).0
      first (refusal fault) e = rw e tt
      first (page []) e = rw e tt
      first (page (c ∷ cs)) e =
          read-IsOver 0 0 (walk fetch after fn (suc (oldest_of c.created_at cs)) page_limit)
            (fetch w.steps 0) s env w
            (λ c' cs' e' p s' w'.
              walk-IsOver (suc (oldest_of c.created_at cs)) page_limit (oldest_of c'.created_at cs')
                s' env w' (omega (arith, ap (pages_before fetch after fn) (sym e ∙ e')))
                (omega arith))
