-- ===== src/Foursquare/Kept.antt =====
-- internal/foursquare/client.go `EachCheckinPage`: what the walk leaves of the database.
use travelmap.Base.{
  ℕ, zero, suc, ◌+◌, ◌*◌, ◌||◌, ◌&&◌, not, Option, none, some, List, [], ◌∷◌, length, ltb,
  Bool-cases, inl, inr,
}
use travelmap.Model.{Time, second}
use travelmap.Exec.{Result}
use travelmap.Exec.Gives.{Gives, Gives-pure, Gives-steps, Gives-bind}
use travelmap.Store.{Db, Action}
use travelmap.Foursquare.{
  Checkin, Fault, Fetched, page, refusal, Ended, page_limit, in_window, oldest_of, given, page_done,
  page_read, walk, pages_before, each_checkin_page,
}

abbrev pub Anything : {A : Type 0} → Result A → Type 0
Anything r = Unit

-- The walk keeps what the callback keeps.
module _ {S : Type 0} (P : Db → Type 0) (fetch : ℕ → ℕ → Fetched) (after : Time)
    (fn : List Checkin → S → Action (S × Option Fault))
    (h : (cs : List Checkin) (s : S) → Gives P Anything (fn cs s)) where
  given-Gives : (cs : List Checkin) (s : S) → Gives P Anything (given fetch after fn cs s)
  given-Gives [] s = Gives-pure Anything (s, none) tt
  given-Gives (c ∷ cs) s = h (c ∷ cs) s

  done-Gives :
      (offset previous size oldest : ℕ) (next : ℕ → S → Action (S × Ended))
      → ((o : ℕ) (s : S) → Gives P Anything (next o s))
      → (r : S × Option Fault)
      → Gives P Anything (page_done fetch after fn offset previous size oldest next r)
  done-Gives offset previous size oldest next g (s, some fault) =
      Gives-pure Anything (s, Ended.stopped fault) tt
  done-Gives offset previous size oldest next g (s, none) =
      elim (Bool-cases (ltb size page_limit || ltb (oldest * second) after)) [
        | inl e ↦ rw (e, page_done) (Gives-pure Anything (s, Ended.complete) tt)
        | inr e ↦
            rw (e, page_done)
              (elim (Bool-cases (ltb 0 offset && not (ltb oldest previous))) [
                | inl p ↦
                    rw (p, page_done) (Gives-pure Anything (s, Ended.stopped Fault.no_progress) tt)
                | inr p ↦ rw (p, page_done) (g oldest s)
              ])
      ]

  read-Gives :
      (offset previous : ℕ) (next : ℕ → S → Action (S × Ended))
      → ((o : ℕ) (s : S) → Gives P Anything (next o s))
      → (f : Fetched) (s : S) → Gives P Anything (page_read fetch after fn offset previous next f s)
  read-Gives offset previous next g (refusal fault) s =
      Gives-pure Anything (s, Ended.stopped fault) tt
  read-Gives offset previous next g (page []) s = Gives-pure Anything (s, Ended.complete) tt
  read-Gives offset previous next g (page (c ∷ cs)) s =
      Gives-bind Anything Anything (given fetch after fn (in_window after (c ∷ cs)) s)
        (page_done fetch after fn offset previous (length (c ∷ cs)) (oldest_of c.created_at cs)
          next)
        (given-Gives (in_window after (c ∷ cs)) s)
        (λ r q. done-Gives offset previous (length (c ∷ cs)) (oldest_of c.created_at cs) next g r)
        (λ e q. tt)

  walk-Gives :
      (fuel offset previous : ℕ) (s : S)
      → Gives P Anything (walk fetch after fn fuel offset previous s)
  unfolding walk
  walk-Gives zero offset previous s = Gives-pure Anything (s, Ended.spent) tt
  walk-Gives (suc fuel) offset previous s = Gives-steps Anything _ (λ k.
      read-Gives offset previous (walk fetch after fn fuel (offset + page_limit))
        (walk-Gives fuel (offset + page_limit)) (fetch k offset) s)

  pub each_checkin_page-Gives : (s : S) → Gives P Anything (each_checkin_page fetch after fn s)
  unfolding each_checkin_page
  each_checkin_page-Gives s =
      Gives-steps Anything _ (λ k. walk-Gives (pages_before fetch after fn (fetch k 0)) 0 0 s)
