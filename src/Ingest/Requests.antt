-- ===== src/Ingest/Requests.antt =====
-- internal/ingest/rebuild.go `enqueueTrackRebuilds`: the requests for tracks that a mutation leaves.
use travelmap.Base.{
  ℕ, suc, ◌≡◌, refl, sym, ap, ◌∙◌, subst, Bool, true, false, ◌||◌, inl, inr, List, [], ◌∷◌, ◌++◌,
  map, filter, ◌==◌, if◌then◌else◌, arith, any, any-append, Bool-cases,
}
use travelmap.Base.Members.{In, here, there, of_In-map, of_In_snoc}
use travelmap.Model.{Time}
use travelmap.Exec.{Env, Error, ok}
use travelmap.Exec.Ensures.{
  Ensures, Ensures-pure, Ensures-bind, Ensures-statement, Ensures-now, Ensures-weaken, Ensures-from,
}
use travelmap.Store.{Db, Job, known_user, unix_time}
use travelmap.Store.WellFormed.{JobsIsWellFormed}
use travelmap.Store.Tracks.{touch_job, insert_job, enqueue}
use travelmap.Ingest.{Touch, enqueue_rest, enqueue_track_rebuilds}

-- A rebuild of the user's tracks is requested.
abbrev pub pending : ℕ → Db → Bool
pending user d = any (λ (j : Job). j.user_id == user) d.jobs

-- The requests that `p` takes, none of which is one of these users', are the same ones.
abbrev pub SameJobs : List ℕ → Db → Db → Type 0
SameJobs users before after =
    (p : Job → Bool)
    → ((j : Job) → p j ≡ true → any (λ u. u == j.user_id) users ≡ false)
    → filter p after.jobs ≡ filter p before.jobs

-- Requests are added for these users and for no other, and nothing else is changed.
pub record Requested (users : List ℕ) (before after : Db) : Type 0 where
  pub rest : after ≡ record before { jobs = after.jobs; job_seq = after.job_seq }
  pub requests : (v : ℕ) → pending v after ≡ (any (λ u. u == v) users || pending v before)
  pub queue : JobsIsWellFormed before → JobsIsWellFormed after
  pub others : SameJobs users before after

filter-touch_job :
    (user now : ℕ) (p : Job → Bool) (js : List Job)
    → ((j : Job) → p j ≡ true → (user == j.user_id) ≡ false)
    → filter p (touch_job user now js) ≡ filter p js
unfolding touch_job
filter-touch_job user now p [] h = refl
filter-touch_job user now p (j ∷ js) h = elim (Bool-cases (j.user_id == user)) [
  | inl e ↦
      rw
        (
          e,
          left_out j (ground (arith, e)),
          left_out (record j { requested_at = now }) (ground (arith, e)),
        )
        (filter-touch_job user now p js h)
  | inr e ↦ rw e (ap (λ ks. if p j then j ∷ ks else ks) (filter-touch_job user now p js h))
]
  where
    left_out : (j : Job) → (user == j.user_id) ≡ true → p j ≡ false
    left_out j e = elim (Bool-cases (p j)) [ inl t ↦ absurd (cc (e, h j t)) | inr f ↦ f ]

filter-snoc :
    (p : Job → Bool) (js : List Job) (j : Job) → p j ≡ false → filter p (js ++ j ∷ []) ≡ filter p js
filter-snoc p [] j e = rw e refl
filter-snoc p (k ∷ js) j e = ap (λ ks. if p k then k ∷ ks else ks) (filter-snoc p js j e)

any-touch_job :
    (user now v : ℕ) (js : List Job)
    → any (λ (j : Job). j.user_id == v) (touch_job user now js)
      ≡ any (λ (j : Job). j.user_id == v) js
unfolding touch_job
any-touch_job user now v [] = refl
any-touch_job user now v (j ∷ js) = ground (arith, any-touch_job user now v js)

touch : ℕ → Time → Job → Job
touch user now j = if j.user_id == user then record j { requested_at = now } else j

touch_job-eq-map : (user now : ℕ) (js : List Job) → touch_job user now js ≡ map (touch user now) js
unfolding touch touch_job
touch_job-eq-map user now [] = refl
touch_job-eq-map user now (j ∷ js) = ap (λ ks. touch user now j ∷ ks) (touch_job-eq-map user now js)

touch-id : (user now : ℕ) (j : Job) → (touch user now j).id ≡ j.id
unfolding touch
touch-id user now j = ground arith

touch-user : (user now : ℕ) (j : Job) → (touch user now j).user_id ≡ j.user_id
unfolding touch
touch-user user now j = ground arith

known-jobs :
    (d : Db) (js : List Job) (n : ℕ) (user : ℕ)
    → known_user (record d { jobs = js; job_seq = n }) user ≡ known_user d user
unfolding known_user
known-jobs d js n user = refl

touched-IsWellFormed :
    (user now : ℕ) (d : Db)
    → JobsIsWellFormed d
    → JobsIsWellFormed (record d { jobs = touch_job user now d.jobs; job_seq = suc d.job_seq })
touched-IsWellFormed user now d v =
    subst (λ js. JobsIsWellFormed (record d { jobs = js; job_seq = suc d.job_seq }))
      (sym (touch_job-eq-map user now d.jobs))
      (record {
        ids = λ j k p q e.
            let a = of_In-map (touch user now) d.jobs j p in
            let b = of_In-map (touch user now) d.jobs k q in
            sym a.image
            ∙ ap (touch user now) (
                v.ids a.origin b.origin a.is_in b.is_in (
                  sym (touch-id user now a.origin)
                  ∙ ap (λ (x : Job). x.id) a.image
                  ∙ e
                  ∙ sym (ap (λ (x : Job). x.id) b.image)
                  ∙ touch-id user now b.origin))
            ∙ b.image;
        fresh = λ j p.
            let a = of_In-map (touch user now) d.jobs j p in
            omega (
              arith,
              v.fresh a.origin a.is_in,
              touch-id user now a.origin,
              ap (λ (x : Job). x.id) a.image,
            );
        known = λ j p.
            let a = of_In-map (touch user now) d.jobs j p in
            known-jobs d (map (touch user now) d.jobs) (suc d.job_seq) j.user_id
            ∙ subst (λ u. known_user d u ≡ true)
                (sym (touch-user user now a.origin) ∙ ap (λ (x : Job). x.user_id) a.image)
                (v.known a.origin a.is_in);
      })

added-IsWellFormed :
    (user now : ℕ) (d : Db)
    → known_user d user ≡ true
    → JobsIsWellFormed d
    → JobsIsWellFormed (record d {
      jobs = d.jobs ++ record { id = suc d.job_seq; user_id = user; requested_at = now } ∷ [];
      job_seq = suc d.job_seq;
    })
added-IsWellFormed user now d known v = record {
  ids = λ j k p q e. elim (of_In_snoc d.jobs new j p) [
    | inl a ↦ elim (of_In_snoc d.jobs new k q) [
      | inl b ↦ v.ids j k a b e
      | inr b ↦ absurd (omega (arith, v.fresh j a, e, ap (λ (x : Job). x.id) b))
    ]
    | inr a ↦ elim (of_In_snoc d.jobs new k q) [
      | inl b ↦ absurd (omega (arith, v.fresh k b, e, ap (λ (x : Job). x.id) a))
      | inr b ↦ sym a ∙ b
    ]
  ];
  fresh = λ j p. elim (of_In_snoc d.jobs new j p) [
    | inl a ↦ omega (arith, v.fresh j a)
    | inr a ↦ omega (arith, ap (λ (x : Job). x.id) a)
  ];
  known = λ j p.
      known-jobs d (d.jobs ++ new ∷ []) (suc d.job_seq) j.user_id
      ∙ elim (of_In_snoc d.jobs new j p) [
        | inl a ↦ v.known j a
        | inr a ↦ subst (λ (x : Job). known_user d x.user_id ≡ true) a known
      ];
}
  where
    new : Job
    new = record { id = suc d.job_seq; user_id = user; requested_at = now }

insert_job-Requested :
    (user now : ℕ) (d : Db)
    → known_user d user ≡ true
    → ((insert_job user now d).0 ≡ ok tt) × Requested (user ∷ []) d (insert_job user now d).1
unfolding insert_job
insert_job-Requested user now d known = elim (Bool-cases (pending user d)) [
  | inl e ↦ rw e (
    refl,
    record {
      rest = refl;
      queue = touched-IsWellFormed user now d;
      requests = λ v.
          any-touch_job user now v d.jobs
          ∙ ground (arith, e, λ (p : user ≡ v). subst (λ x. pending x d ≡ true) p e);
      others = λ p h. filter-touch_job user now p d.jobs (λ j t. ground (arith, h j t));
    },
  )
  | inr e ↦
      rw (e, known)
        (
          refl,
          record {
            rest = refl;
            queue = added-IsWellFormed user now d known;
            requests = λ v. any-append (λ (j : Job). j.user_id == v) d.jobs _ ∙ ground arith;
            others = λ p h. filter-snoc p d.jobs _ (left_out p h);
          },
        )
]
  where
    left_out :
        (p : Job → Bool)
        → ((j : Job) → p j ≡ true → any (λ u. u == j.user_id) (user ∷ []) ≡ false)
        → p (record { id = suc d.job_seq; user_id = user; requested_at = now }) ≡ false
    left_out p h = elim (Bool-cases (p new)) [
      | inl t ↦ absurd (ground (arith, h new t))
      | inr f ↦ f
    ]
      where
        new : Job
        new = record { id = suc d.job_seq; user_id = user; requested_at = now }

Requested-after :
    (users : List ℕ) (user : ℕ) (d d₁ d₂ : Db)
    → Requested (user ∷ []) d d₁
    → Requested users d₁ d₂
    → Requested (user ∷ users) d d₂
Requested-after users user d d₁ d₂ h k = record {
  rest = k.rest ∙ ap (λ (x : Db). record x { jobs = d₂.jobs; job_seq = d₂.job_seq }) h.rest;
  requests = λ v. k.requests v ∙ ground (arith, h.requests v);
  queue = λ v. k.queue (h.queue v);
  others =
      λ p n. k.others p (λ j t. ground (arith, n j t)) ∙ h.others p (λ j t. ground (arith, n j t));
}

abbrev pub users_of : List Touch → List ℕ
users_of = map (λ (t : Touch). t.user_id)

Requested-seen :
    (t : Touch) (ts : List Touch) (d d₁ : Db)
    → pending t.user_id d ≡ true
    → Requested (users_of ts) d d₁
    → Requested (users_of (t ∷ ts)) d d₁
Requested-seen t ts d d₁ p h = record {
  rest = h.rest;
  requests = λ v.
      h.requests v ∙ ground (arith, λ (e : t.user_id ≡ v). subst (λ x. pending x d ≡ true) e p);
  queue = h.queue;
  others = λ p n. h.others p (λ j t. ground (arith, n j t));
}

known_rest :
    (d d₁ : Db) (user : ℕ)
    → d₁ ≡ record d { jobs = d₁.jobs; job_seq = d₁.job_seq }
    → known_user d₁ user ≡ known_user d user
unfolding known_user
known_rest d d₁ user h = ap (λ (x : Db). known_user x user) h

module _ (env : Env) (C : Error → Type 0) where
  pub enqueue-Requested :
      (before : Db) (user : ℕ)
      → known_user before user ≡ true
      → Ensures env (λ d. d ≡ before) (enqueue user) (λ _ d. Requested (user ∷ []) before d) C
  unfolding enqueue
  enqueue-Requested before user known = Ensures-now env C _ (λ now.
      Ensures-statement env C (insert_job user (unix_time now))
        (λ d p. let (e, r) = insert_job-Requested user (unix_time now) before known in rw (p, e) r))

  enqueue_rest-Requested :
      (ts : List Touch) (seen : List ℕ) (before : Db)
      → ((t : Touch) → In t ts → known_user before t.user_id ≡ true)
      → ((u : ℕ) → any (λ x. x == u) seen ≡ true → pending u before ≡ true)
      → Ensures env
          (λ d. d ≡ before)
          (enqueue_rest seen ts)
          (λ _ d. Requested (users_of ts) before d)
          C
  unfolding enqueue_rest
  enqueue_rest-Requested [] seen before known asked = Ensures-pure env C tt (λ d p.
      rw p (record { rest = refl; requests = λ v. refl; queue = λ v. v; others = λ q n. refl }))
  enqueue_rest-Requested (t ∷ ts) seen before known asked =
      elim (Bool-cases (any (λ u. u == t.user_id) seen)) [
        | inl e ↦ rw e (
            Ensures-weaken env C (λ d p. p)
              (λ _ d h. Requested-seen t ts before d (asked t.user_id e) h)
              (enqueue_rest-Requested ts seen before (λ x i. known x (there i)) asked))
        | inr e ↦ rw e (
            Ensures-bind env C (enqueue-Requested before t.user_id (known t (here refl))) (λ _.
              Ensures-from env C (λ d₁ h.
                Ensures-weaken env C (λ d p. p)
                  (λ _ d k. Requested-after (users_of ts) t.user_id before d₁ d h k)
                  (enqueue_rest-Requested ts (t.user_id ∷ seen) d₁
                    (λ x i. known_rest before d₁ x.user_id h.rest ∙ known x (there i))
                    (λ u s. h.requests u ∙ ground (arith, s, asked u))))))
      ]

  pub enqueue_track_rebuilds-Requested :
      (ts : List Touch) (before : Db)
      → ((t : Touch) → In t ts → known_user before t.user_id ≡ true)
      → Ensures env
          (λ d. d ≡ before)
          (enqueue_track_rebuilds ts)
          (λ _ d. Requested (users_of ts) before d)
          C
  unfolding enqueue_track_rebuilds
  enqueue_track_rebuilds-Requested ts before known =
      enqueue_rest-Requested ts [] before known (λ u s. cc)
