-- ===== src/Exec/Gives.antt =====
-- Invariants of the database under actions, whichever statements fail and whatever they return.
use travelmap.Base.{ℕ, inl, inr, Bool-cases}
use travelmap.Exec.{
  Exec, Env, World, Error, Result, ok, err, failed, pure, statement, with_now, with_steps, resume,
  ◌>>=◌, continue,
}

-- The action keeps `P`, and its result satisfies `Q`.
pub record Gives {D A : Type 0} (P : D → Type 0) (Q : Result A → Type 0) (m : Exec D A)
    : Type 0 where
  pub at : (env : Env) (w : World D) → P w.db → Q (m env w).0 × P (m env w).1.db

module _ {D A : Type 0} {P : D → Type 0} (Q : Result A → Type 0) where
  pub Gives-pure : (a : A) → Q (ok a) → Gives P Q (pure a)
  Gives-pure a q = record { at = λ env w p. (q, p) }

  pub Gives-statement :
      (f : D → Result A × D)
      → Q (err failed)
      → ((d : D) → P d → Q (f d).0 × P (f d).1)
      → Gives P Q (statement f)
  unfolding statement
  Gives-statement f e h = record {
    at = λ env w p. elim (Bool-cases (env.fails w.steps)) [
      | inl x ↦ rw x (e, p)
      | inr x ↦ rw x (h w.db p)
    ];
  }

  pub Gives-now : (f : ℕ → Exec D A) → ((now : ℕ) → Gives P Q (f now)) → Gives P Q (with_now f)
  Gives-now f h = record { at = λ env w p. (h (env.now w.steps)).at env w p }

  pub Gives-steps : (f : ℕ → Exec D A) → ((k : ℕ) → Gives P Q (f k)) → Gives P Q (with_steps f)
  Gives-steps f h = record { at = λ env w p. (h w.steps).at env w p }

module _ {D A B : Type 0} {P : D → Type 0} (Q : Result A → Type 0) (R : Result B → Type 0) where
  pub Gives-resume :
      (m : Exec D A) (k : Result A → Exec D B)
      → Gives P Q m
      → ((r : Result A) → Q r → Gives P R (k r))
      → Gives P R (resume m k)
  unfolding resume
  Gives-resume m k g h = record {
    at = λ env w p. let (q, p') = g.at env w p in (h (m env w).0 q).at env (m env w).1 p';
  }

  continue-Gives :
      (f : A → Exec D B)
      → ((a : A) → Q (ok a) → Gives P R (f a))
      → ((e : Error) → Q (err e) → R (err e))
      → (r : Result A) (env : Env) (w : World D) → Q r
      → P w.db
      → R (continue r f env w).0 × P (continue r f env w).1.db
  continue-Gives f h k (ok a) env w q p = (h a q).at env w p
  continue-Gives f h k (err e) env w q p = (k e q, p)

  pub Gives-bind :
      (m : Exec D A) (f : A → Exec D B)
      → Gives P Q m
      → ((a : A) → Q (ok a) → Gives P R (f a))
      → ((e : Error) → Q (err e) → R (err e))
      → Gives P R (m >>= f)
  unfolding ◌>>=◌
  Gives-bind m f g h k = record {
    at = λ env w p.
        let (q, p') = g.at env w p in continue-Gives f h k (m env w).0 env (m env w).1 q p';
  }
