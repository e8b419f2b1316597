-- ===== src/Exec/Atomic.antt =====
-- sqlite.go `DB.Tx`: what is left in the database after a transaction that did not succeed.
use mathlib.Core.Bool.{false≢true}
use travelmap.Base.{suc, true, false, ◌≡◌, refl, sym, subst, ◌∙◌, inl, inr, Bool-cases, if_elim}
use travelmap.Exec.{Exec, Env, World, Error, Result, ok, err, tx, begin, finish}
use travelmap.Exec.Ensures.{Ensures, Outcome}

module _ {ℓ} {D A : Type ℓ} where
  abbrev Kept : D → Result A → D → Type ℓ
  Kept before (ok a) after = Unit
  Kept before (err e) after = after ≡ before

  -- The database is as it was unless the call succeeded.
  abbrev pub Unchanged : World D → Result A × World D → Type ℓ
  Unchanged w (r, w') = Kept w.db r w'.db

  abbrev pub IsAtomic : Exec D A → Type ℓ
  IsAtomic m = (env : Env) (w : World D) → w.in_tx ≡ false → Unchanged w (m env w)

module _ {ℓ} {D A : Type ℓ} where
  pub failed-Unchanged :
      (w : World D) (p : Result A × World D) {e : Error}
      → p.0 ≡ err e
      → Unchanged w p
      → p.1.db ≡ w.db
  failed-Unchanged w (r, w') {e} h k = subst (λ x. Kept w.db x w'.db) h k

  finish-Unchanged :
      (before : D) (r : Result A) (env : Env) (w w₀ : World D)
      → w₀.db ≡ before
      → Unchanged w₀ (finish before r env w)
  unfolding finish
  finish-Unchanged before (ok a) env w w₀ h = elim (Bool-cases (env.fails w.steps)) [
    | inl e ↦ rw e (sym h)
    | inr e ↦ rw e tt
  ]
  finish-Unchanged before (err e) env w w₀ h = sym h

  begin-Unchanged : (m : Exec D A) (env : Env) (w : World D) → Unchanged w (begin m env w)
  unfolding begin
  begin-Unchanged m env w = elim (Bool-cases (env.fails w.steps)) [
    | inl e ↦ rw e refl
    | inr e ↦ rw e (
        let (r, w') = m env (record w { in_tx = true; steps = suc w.steps }) in
        finish-Unchanged w.db r env w' w refl)
  ]

  -- A transaction that is not joined to another leaves the database as it found it whenever it
  -- returns an error, whatever its callback did and whichever statement failed, the commit
  -- included.
  pub tx-IsAtomic : (m : Exec D A) → IsAtomic (tx m)
  unfolding tx
  tx-IsAtomic m env w h =
      if_elim (Unchanged w) w.in_tx (m env w) (begin m env w) (λ e. absurd (false≢true (sym h ∙ e)))
        (λ e. begin-Unchanged m env w)

  finish-outside :
      (before : D) (r : Result A) (env : Env) (w : World D)
      → (finish before r env w).1.in_tx ≡ false
  unfolding finish
  finish-outside before (ok a) env w = elim (Bool-cases (env.fails w.steps)) [
    | inl e ↦ rw e refl
    | inr e ↦ rw e refl
  ]
  finish-outside before (err e) env w = refl

  begin-outside :
      (m : Exec D A) (env : Env) (w : World D) → w.in_tx ≡ false → (begin m env w).1.in_tx ≡ false
  unfolding begin
  begin-outside m env w h = elim (Bool-cases (env.fails w.steps)) [
    | inl e ↦ rw e h
    | inr e ↦ rw e (
        let (r, w') = m env (record w { in_tx = true; steps = suc w.steps }) in
        finish-outside w.db r env w')
  ]

  -- The transaction is over when the call returns.
  pub tx-outside :
      (m : Exec D A) (env : Env) (w : World D) → w.in_tx ≡ false → (tx m env w).1.in_tx ≡ false
  unfolding tx
  tx-outside m env w h =
      if_elim (λ (x : Result A × World D). x.1.in_tx ≡ false) w.in_tx (m env w) (begin m env w)
        (λ e. absurd (false≢true (sym h ∙ e))) (λ e. begin-outside m env w h)

-- Any error.
abbrev pub Any : Error → Type 0
Any e = Unit

module _ {D A : Type 0} (P : D → Type 0) where
  kept :
      (env : Env) (before after : D) (r : Result A)
      → P before
      → Outcome env (λ _ d. P d) Any r after
      → Kept before r after
      → P after
  kept env before after (ok a) p o k = o
  kept env before after (err e) p o k = subst P (sym k) p

  -- What an atomic call ensures of its success, it keeps whatever happens.
  pub atomic_keeps :
      (env : Env) (m : Exec D A) (w : World D)
      → IsAtomic m
      → w.in_tx ≡ false
      → Ensures env (λ d. d ≡ w.db) m (λ _ d. P d) Any
      → P w.db
      → P (m env w).1.db
  atomic_keeps env m w atomic h e p =
      kept env w.db (m env w).1.db (m env w).0 p (e.at w refl) (atomic env w h)
