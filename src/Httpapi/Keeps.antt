-- ===== src/Httpapi/Keeps.antt =====
-- Invariants of the database under handlers that call the store several times, whichever statements
-- fail.
use travelmap.Base.{ℕ, ◌≡◌, refl, Option, none, some}
use travelmap.Model.{User}
use travelmap.Exec.{Env, World, Result, statement}
use travelmap.Exec.Ensures.{Healthy}
use travelmap.Exec.Gives.{Gives}
use travelmap.Store.{Db, Action}
use travelmap.Httpapi.Response.{Response, Handler, Api, reply, attempt, as_user, with_body}

pub record Keeps (P : Db → Type 0) (h : Handler) : Type 0 where
  pub at : (env : Env) (w : World Db) → P w.db → P (h env w).1.db

module _ {P : Db → Type 0} where
  pub Keeps-reply : (r : Response) → Keeps P (reply r)
  Keeps-reply r = record { at = λ env w p. p }

  pub Keeps-user :
      (api : Api) (caller : Option User) (f : User → Handler)
      → ((user : User) → Keeps P (f user))
      → Keeps P (as_user api caller f)
  unfolding as_user
  Keeps-user api none f h = Keeps-reply _
  Keeps-user api (some user) f h = h user

  pub Keeps-body :
      (api : Api) {A : Type 0} (body : Option A) (f : A → Handler)
      → ((a : A) → Keeps P (f a))
      → Keeps P (with_body api body f)
  unfolding with_body
  Keeps-body api none f h = Keeps-reply _
  Keeps-body api (some a) f h = h a

  module _ {A : Type 0} (Q : Result A → Type 0) where
    pub Keeps-attempt :
        (m : Action A) (k : Result A → Handler)
        → Gives P Q m
        → ((r : Result A) → Q r → Keeps P (k r))
        → Keeps P (attempt m k)
    unfolding attempt
    Keeps-attempt m k g h = record {
      at = λ env w p. let (q, p') = g.at env w p in (h (m env w).0 q).at env (m env w).1 p';
    }

module _ {A : Type 0} where
  -- A statement that does not fail, and the handler after it.
  pub attempt-statement :
      (f : Db → Result A × Db) (k : Result A → Handler) (env : Env) (w : World Db)
      → Healthy env
      → attempt (statement f) k env w
        ≡ k (f w.db).0 env (record w { db = (f w.db).1; steps = ℕ.suc w.steps })
  unfolding attempt statement
  attempt-statement f k env w h = rw (h.never w.steps) refl
