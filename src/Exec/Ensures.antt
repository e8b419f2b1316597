-- ===== src/Exec/Ensures.antt =====
-- What actions ensure, one rule for each way to build an action.
use travelmap.Base.{ℕ, suc, Bool, true, false, ◌≡◌, refl, ap, ◌⊎◌, inl, inr, Bool-cases, if_elim}
use travelmap.Exec.{
  Exec, Env, World, Error, Result, ok, err, failed, pure, raise, continue, ◌>>=◌, statement,
  run_statement, with_now, tx, begin, finish,
}

-- No statement fails by itself.
pub record Healthy (env : Env) : Type 0 where
  pub never : (k : ℕ) → env.fails k ≡ false

-- An error is a failing statement's, in an environment that has one, or one that `C` allows.
abbrev pub Excuse : Env → (Error → Type 0) → Error → Type 0
Excuse env C e = ((e ≡ failed) × ¬ Healthy env) ⊎ C e

abbrev pub Never : Error → Type 0
Never e = ⊥

failing : (env : Env) (k : ℕ) → env.fails k ≡ true → ¬ Healthy env
failing env k h v = cc (h, v.never k)

module _ {D A : Type 0} where
  abbrev pub Outcome : Env → (A → D → Type 0) → (Error → Type 0) → Result A → D → Type 0
  Outcome env Q C (ok a) d = Q a d
  Outcome env Q C (err e) d = Excuse env C e

  -- From a database that satisfies `P` the action returns a value and a database that satisfy `Q`,
  -- or an error that `Excuse` admits. In a healthy environment only `C` is left.
  pub record Ensures (env : Env) (P : D → Type 0) (m : Exec D A) (Q : A → D → Type 0)
      (C : Error → Type 0) : Type 0 where
    pub at : (w : World D) → P w.db → Outcome env Q C (m env w).0 (m env w).1.db

module _ {D A : Type 0} (env : Env) (C : Error → Type 0) where
  pub Ensures-pure :
      {P : D → Type 0} {Q : A → D → Type 0} (a : A)
      → ((d : D) → P d → Q a d)
      → Ensures env P (pure a) Q C
  Ensures-pure a h = record { at = λ w p. h w.db p }

  pub Ensures-raise :
      {P : D → Type 0} {Q : A → D → Type 0} (e : Error) → C e → Ensures env P (raise e) Q C
  Ensures-raise e h = record { at = λ w p. inr h }

  pub Ensures-weaken :
      {P P' : D → Type 0} {Q Q' : A → D → Type 0} {m : Exec D A}
      → ((d : D) → P' d → P d)
      → ((a : A) (d : D) → Q a d → Q' a d)
      → Ensures env P m Q C
      → Ensures env P' m Q' C
  Ensures-weaken {Q = Q} {Q' = Q'} {m = m} before after h = record {
    at = λ w p. go (m env w).0 (m env w).1.db (h.at w (before w.db p));
  }
    where
      go : (r : Result A) (d : D) → Outcome env Q C r d → Outcome env Q' C r d
      go (ok a) d q = after a d q
      go (err e) d q = q

  -- What the precondition says of no database may be used for the whole call.
  pub Ensures-given :
      {P : D → Type 0} {F : Type 0} {Q : A → D → Type 0} {m : Exec D A}
      → ((d : D) → P d → F)
      → (F → Ensures env P m Q C)
      → Ensures env P m Q C
  Ensures-given fact h = record { at = λ w p. (h (fact w.db p)).at w p }

  -- A call may be looked at from each database that the precondition admits.
  pub Ensures-from :
      {P : D → Type 0} {Q : A → D → Type 0} {m : Exec D A}
      → ((db : D) → P db → Ensures env (λ d. d ≡ db) m Q C)
      → Ensures env P m Q C
  Ensures-from h = record { at = λ w p. (h w.db p).at w refl }

  both :
      (Q R : A → D → Type 0) (r : Result A) (d : D)
      → Outcome env Q C r d
      → Outcome env R C r d
      → Outcome env (λ a d. Q a d × R a d) C r d
  both Q R (ok a) d q r = (q, r)
  both Q R (err e) d q r = q

  -- What an action ensures in two ways it ensures at once.
  pub Ensures-both :
      {P : D → Type 0} {Q R : A → D → Type 0} {m : Exec D A}
      → Ensures env P m Q C
      → Ensures env P m R C
      → Ensures env P m (λ a d. Q a d × R a d) C
  Ensures-both {Q = Q} {R = R} {m = m} h k = record {
    at = λ w p. both Q R (m env w).0 (m env w).1.db (h.at w p) (k.at w p);
  }

  -- What a statement does is what its function does to the tables.
  run_statement-Outcome :
      (f : D → Result A × D) (Q : A → D → Type 0) (w : World D) (b : Bool)
      → (b ≡ true → ¬ Healthy env)
      → Outcome env Q C (f w.db).0 (f w.db).1
      → Outcome env Q C (run_statement b f w).0 (run_statement b f w).1.db
  run_statement-Outcome f Q w true h q = inl (refl, h refl)
  run_statement-Outcome f Q w false h q = q

  pub Ensures-statement :
      {P : D → Type 0} {Q : A → D → Type 0} (f : D → Result A × D)
      → ((d : D) → P d → Outcome env Q C (f d).0 (f d).1)
      → Ensures env P (statement f) Q C
  unfolding statement
  Ensures-statement {Q = Q} f h = record {
    at = λ w p. run_statement-Outcome f Q w (env.fails w.steps) (failing env w.steps) (h w.db p);
  }

  -- A query returns what it reads and changes nothing.
  pub Ensures-read :
      (db : D) (f : D → A)
      → Ensures env (λ d. d ≡ db) (statement (λ d. (ok (f d), d))) (λ a d. (d ≡ db) × (a ≡ f db)) C
  Ensures-read db f = Ensures-statement (λ d. (ok (f d), d)) (λ d e. (e, ap f e))

  pub Ensures-now :
      {P : D → Type 0} {Q : A → D → Type 0} (f : ℕ → Exec D A)
      → ((now : ℕ) → Ensures env P (f now) Q C)
      → Ensures env P (with_now f) Q C
  Ensures-now f h = record { at = λ w p. (h (env.now w.steps)).at w p }

  finish-Outcome :
      (Q : A → D → Type 0) (before : D) (r : Result A) (w : World D)
      → Outcome env Q C r w.db
      → Outcome env Q C (finish before r env w).0 (finish before r env w).1.db
  unfolding finish
  finish-Outcome Q before (ok a) w q = elim (Bool-cases (env.fails w.steps)) [
    | inl e ↦ rw e (inl (refl, failing env w.steps e))
    | inr e ↦ rw e q
  ]
  finish-Outcome Q before (err e) w q = q

  begin-Outcome :
      (Q : A → D → Type 0) (m : Exec D A) (w : World D)
      → Outcome env Q C
          (m env (record w { in_tx = true; steps = suc w.steps })).0
          (m env (record w { in_tx = true; steps = suc w.steps })).1.db
      → Outcome env Q C (begin m env w).0 (begin m env w).1.db
  unfolding begin
  begin-Outcome Q m w q = elim (Bool-cases (env.fails w.steps)) [
    | inl e ↦ rw e (inl (refl, failing env w.steps e))
    | inr e ↦ rw e (
        finish-Outcome Q w.db (m env (record w { in_tx = true; steps = suc w.steps })).0
          (m env (record w { in_tx = true; steps = suc w.steps })).1 q)
  ]

  -- A transaction, joined or not, ensures what its callback ensures.
  pub Ensures-tx :
      {P : D → Type 0} {Q : A → D → Type 0} {m : Exec D A}
      → Ensures env P m Q C
      → Ensures env P (tx m) Q C
  unfolding tx
  Ensures-tx {Q = Q} {m = m} h = record {
    at = λ w p.
        if_elim (λ (x : Result A × World D). Outcome env Q C x.0 x.1.db) w.in_tx (m env w)
          (begin m env w) (λ e. h.at w p)
          (λ e. begin-Outcome Q m w (h.at (record w { in_tx = true; steps = suc w.steps }) p));
  }

module _ {D A B : Type 0} (env : Env) (C : Error → Type 0) where
  continue-Outcome :
      (R : A → D → Type 0) (Q : B → D → Type 0) (f : A → Exec D B)
      → ((a : A) → Ensures env (R a) (f a) Q C)
      → (r : Result A) (w : World D) → Outcome env R C r w.db
      → Outcome env Q C (continue r f env w).0 (continue r f env w).1.db
  continue-Outcome R Q f h (ok a) w q = (h a).at w q
  continue-Outcome R Q f h (err e) w q = q

  pub Ensures-bind :
      {P : D → Type 0} {R : A → D → Type 0} {Q : B → D → Type 0} {m : Exec D A} {f : A → Exec D B}
      → Ensures env P m R C
      → ((a : A) → Ensures env (R a) (f a) Q C)
      → Ensures env P (m >>= f) Q C
  unfolding ◌>>=◌
  Ensures-bind {R = R} {Q = Q} {m = m} {f = f} hm hf = record {
    at = λ w p. continue-Outcome R Q f hf (m env w).0 (m env w).1 (hm.at w p);
  }

module _ {D A : Type 0} (env : Env) where
  of_Outcome :
      (Q : A → D → Type 0) (r : Result A) (d : D)
      → Healthy env
      → Outcome env Q Never r d
      → (a : A) × (r ≡ ok a) × Q a d
  of_Outcome Q (ok a) d h o = (a, refl, o)
  of_Outcome Q (err e) d h (inl o) = absurd (o.1 h)
  of_Outcome Q (err e) d h (inr o) = absurd o

  -- Where no statement fails and no error is allowed the call succeeds.
  pub succeeds :
      {P : D → Type 0} {Q : A → D → Type 0} {m : Exec D A}
      → Ensures env P m Q Never
      → Healthy env
      → (w : World D) → P w.db
      → (a : A) × ((m env w).0 ≡ ok a) × Q a (m env w).1.db
  succeeds {Q = Q} {m = m} e h w p = of_Outcome Q (m env w).0 (m env w).1.db h (e.at w p)

-- The call succeeds with a value and a database that satisfy `Q`.
abbrev pub Returns : {D A : Type 0} → (A → D → Type 0) → Result A × World D → Type 0
Returns {A} Q (r, w) = (a : A) × (r ≡ ok a) × Q a w.db

-- The call fails with this error and leaves the database as it was.
abbrev pub FailsWith : {D A : Type 0} → Error → World D → Result A × World D → Type 0
FailsWith e w (r, w') = (r ≡ err e) × (w'.db ≡ w.db)

module _ {D A : Type 0} (env : Env) (h : Healthy env) (e : Error) where
  only_error :
      (Q : A → D → Type 0)
      → ((a : A) (d : D) → ¬ Q a d)
      → (r : Result A) (d : D) → Outcome env Q (λ x. x ≡ e) r d
      → r ≡ err e
  only_error Q never (ok a) d o = absurd (never a d o)
  only_error Q never (err x) d (inl o) = absurd (o.1 h)
  only_error Q never (err x) d (inr o) = ap err o

  -- Where every success is excluded and one error is left, that is the result.
  pub fails_with :
      {Q : A → D → Type 0} {m : Exec D A} (w : World D)
      → Ensures env (λ d. d ≡ w.db) m Q (λ x. x ≡ e)
      → ((a : A) (d : D) → ¬ Q a d)
      → (m env w).0 ≡ err e
  fails_with {Q = Q} {m = m} w k never = only_error Q never (m env w).0 (m env w).1.db (k.at w refl)
