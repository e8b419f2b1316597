-- ===== src/Httpapi/Respects.antt =====
-- What a handler leaves of the database, one rule for each way to build a handler.
use travelmap.Base.{ℕ, ◌≡◌, refl, subst, sym, false, Option, none, some}
use travelmap.Model.{User}
use travelmap.Exec.{Env, World, Result}
use travelmap.Exec.Atomic.{IsAtomic, atomic_keeps, Any}
use travelmap.Exec.Ensures.{Ensures}
use travelmap.Exec.Reads.{Reads}
use travelmap.Store.{Db, Action}
use travelmap.Httpapi.Response.{
  Response, Handler, Api, reply, attempt, with_request_time, as_user, with_body,
}

-- A response is given and nothing else happens.
pub record Replies (h : Handler) : Type 0 where
  pub at : (env : Env) (w : World Db) → (h env w).1 ≡ w

pub reply-Replies : (r : Response) → Replies (reply r)
reply-Replies r = record { at = λ env w. refl }

-- From a database that satisfies `P`, outside a transaction, the handler leaves one that stands in
-- `R` to it, whichever statements fail.
pub record Respects (P : Db → Type 0) (R : Db → Db → Type 0) (h : Handler) : Type 0 where
  pub at : (env : Env) (w : World Db) → w.in_tx ≡ false → P w.db → R w.db (h env w).1.db

module _ {P : Db → Type 0} {R : Db → Db → Type 0} where
  module _ (same : (db : Db) → P db → R db db) where
    pub Respects-Replies : {h : Handler} → Replies h → Respects P R h
    Respects-Replies {h} r = record {
      at = λ env w t p. subst (λ (x : World Db). R w.db x.db) (sym (r.at env w)) (same w.db p);
    }

    pub Respects-reply : (r : Response) → Respects P R (reply r)
    Respects-reply r = Respects-Replies (reply-Replies r)

    pub Respects-user :
        (api : Api) (caller : Option User) (f : User → Handler)
        → ((user : User) → caller ≡ some user → Respects P R (f user))
        → Respects P R (as_user api caller f)
    unfolding as_user
    Respects-user api none f h = Respects-reply _
    Respects-user api (some user) f h = h user refl

    pub Respects-body :
        (api : Api) {A : Type 0} (body : Option A) (f : A → Handler)
        → ((a : A) → Respects P R (f a))
        → Respects P R (with_body api body f)
    unfolding with_body
    Respects-body api none f h = Respects-reply _
    Respects-body api (some a) f h = h a

    -- A transaction and a response to its result.
    pub Respects-attempt :
        {A : Type 0} (m : Action A) (k : Result A → Handler)
        → IsAtomic m
        → ((env : Env) (db : Db) → P db → Ensures env (λ d. d ≡ db) m (λ _ d. R db d) Any)
        → ((r : Result A) → Replies (k r))
        → Respects P R (attempt m k)
    unfolding attempt
    Respects-attempt m k atomic e r = record {
      at = λ env w t p.
          subst (λ (x : World Db). R w.db x.db) (sym ((r (m env w).0).at env (m env w).1))
            (atomic_keeps (R w.db) env m w atomic t (e env w.db p) (same w.db p));
    }

    -- A query and a response to its result.
    pub Respects-read :
        {A : Type 0} (m : Action A) (k : Result A → Handler)
        → Reads m
        → ((r : Result A) → Replies (k r))
        → Respects P R (attempt m k)
    unfolding attempt
    Respects-read m k reads r = record {
      at = λ env w t p.
          subst (λ (x : World Db). R w.db x.db) (sym ((r (m env w).0).at env (m env w).1))
            (subst (R w.db) (sym (reads.at env w)) (same w.db p));
    }

  pub Respects-time :
      (f : ℕ → Handler) → ((now : ℕ) → Respects P R (f now)) → Respects P R (with_request_time f)
  Respects-time f h = record { at = λ env w t p. (h (env.now w.steps)).at env w t p }
