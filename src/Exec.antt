-- ===== src/Exec.antt =====
-- internal/store/sqlite/sqlite.go and the error values of internal/store: how a repository call
-- runs. A call is an action on a `World`: it reads the environment, runs SQL statements one by one,
-- and returns a value or an error. `DB.Tx` commits on success and rolls back on an error.
pub mod Atomic
pub mod Ensures
pub mod Gives
pub mod Reads
use travelmap.Base.{ℕ, suc, Bool, true, false, if◌then◌else◌}

-- store.ErrNotFound, store.ErrConflict, and what the driver reports untranslated: a foreign key that
-- names no row, and any failure of a statement (a cancelled context, a full disk). `refused` is what the
-- code refuses before it reaches the store.
pub data Error : Type 0 where
  not_found conflict foreign_key failed refused : Error

pub data Result {ℓ} (A : Type ℓ) : Type ℓ where
  ok : A → Result A
  err : Error → Result A

-- What the code does not decide, by the number of statements run so far: the clock, whether the next
-- statement fails, and whether the context is done.
pub record Env : Type 0 where
  pub now : ℕ → ℕ
  pub fails : ℕ → Bool
  pub done : ℕ → Bool

-- `db` is the database as the connection sees it, `in_tx` whether `DB.q` is a transaction.
pub record World {ℓ} (D : Type ℓ) : Type ℓ where
  pub db : D
  pub in_tx : Bool
  pub steps : ℕ

abbrev pub Exec {ℓ} : Type ℓ → Type ℓ → Type ℓ
Exec D A = Env → World D → Result A × World D

module _ {ℓ} {D A : Type ℓ} where
  abbrev pub pure : A → Exec D A
  pure a env w = (ok a, w)

  abbrev pub raise : Error → Exec D A
  raise e env w = (err e, w)

module _ {ℓ} {D A B : Type ℓ} where
  abbrev pub continue : Result A → (A → Exec D B) → Exec D B
  continue (ok a) f env w = f a env w
  continue (err e) f env w = (err e, w)

  infixl 10 ◌>>=◌ ◌>>◌
  unfoldable pub ◌>>=◌ : Exec D A → (A → Exec D B) → Exec D B
  ◌>>=◌ m f env w = let (r, w') = m env w in continue r f env w'

  abbrev pub ◌>>◌ : Exec D A → Exec D B → Exec D B
  m >> n = m >>= λ _. n

module _ {ℓ} {D A B : Type ℓ} where
  -- A call, and what the code makes of its value or its error.
  unfoldable pub resume : Exec D A → (Result A → Exec D B) → Exec D B
  resume m k env w = let (r, w') = m env w in k r env w'

module _ {ℓ} {D A : Type ℓ} where
  -- One SQL statement. It fails as a whole and then changes nothing, whatever the reason.
  abbrev pub run_statement : Bool → (D → Result A × D) → World D → Result A × World D
  run_statement true f w = (err failed, record w { steps = suc w.steps })
  run_statement false f w = ((f w.db).0, record w { db = (f w.db).1; steps = suc w.steps })

  unfoldable pub statement : (D → Result A × D) → Exec D A
  statement f env w = run_statement (env.fails w.steps) f w

  -- What depends on the moment it runs at, told by the number of statements so far.
  abbrev pub with_steps : (ℕ → Exec D A) → Exec D A
  with_steps f env w = f w.steps env w

  -- time.Now(): the clock at this point.
  abbrev pub with_now : (ℕ → Exec D A) → Exec D A
  with_now f env w = f (env.now w.steps) env w

  -- The end of a transaction: commit what a success wrote, unless committing fails; roll back after
  -- an error.
  unfoldable pub finish : D → Result A → Env → World D → Result A × World D
  finish before (ok a) env w =
      if env.fails w.steps
      then (err failed, record w { db = before; in_tx = false; steps = suc w.steps })
      else (ok a, record w { in_tx = false; steps = suc w.steps })
  finish before (err e) env w = (err e, record w { db = before; in_tx = false })

  -- BeginTx, the callback, and `finish`.
  unfoldable pub begin : Exec D A → Exec D A
  unfolding finish
  begin m env w =
      if env.fails w.steps
      then (err failed, record w { steps = suc w.steps })
      else (let (r, w') = m env (record w { in_tx = true; steps = suc w.steps }) in
          finish w.db r env w')

  -- DB.Tx: a nested call joins the transaction already running.
  unfoldable pub tx : Exec D A → Exec D A
  unfolding begin
  tx m env w = if w.in_tx then m env w else begin m env w

-- A call that begins on its own connection.
abbrev pub outside : {D : Type 0} → D → World D
outside db = record { db = db; in_tx = false; steps = 0 }
