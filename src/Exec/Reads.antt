-- ===== src/Exec/Reads.antt =====
-- Actions that only read: the SELECTs of internal/store/sqlite, one after another.
use travelmap.Base.{◌≡◌, refl, ◌∙◌, inl, inr, Bool-cases}
use travelmap.Exec.{Exec, Env, World, Result, ok, err, pure, continue, ◌>>=◌, statement}

pub record Reads {D A : Type 0} (m : Exec D A) : Type 0 where
  pub at : (env : Env) (w : World D) → (m env w).1.db ≡ w.db

module _ {D A : Type 0} where
  pub pure-Reads : (a : A) → Reads {D = D} (pure a)
  pure-Reads a = record { at = λ env w. refl }

  pub statement-Reads : (f : D → Result A × D) → ((d : D) → (f d).1 ≡ d) → Reads (statement f)
  unfolding statement
  statement-Reads f h = record {
    at = λ env w. elim (Bool-cases (env.fails w.steps)) [
      | inl e ↦ rw e refl
      | inr e ↦ rw e (h w.db)
    ];
  }

module _ {D A B : Type 0} where
  continue-Reads :
      (r : Result A) (f : A → Exec D B) (env : Env) (w : World D)
      → ((a : A) → Reads (f a))
      → (continue r f env w).1.db ≡ w.db
  continue-Reads (ok a) f env w h = (h a).at env w
  continue-Reads (err e) f env w h = refl

  pub bind-Reads :
      (m : Exec D A) (f : A → Exec D B) → Reads m → ((a : A) → Reads (f a)) → Reads (m >>= f)
  unfolding ◌>>=◌
  bind-Reads m f hm hf = record {
    at = λ env w. continue-Reads (m env w).0 f env (m env w).1 hf ∙ hm.at env w;
  }
