-- ===== src/Checkin/Synced.antt =====
-- internal/checkin/sync.go: what a run leaves of the database.
use mathlib.Core.Option
use travelmap.Base.{
  ℕ, suc, ◌-◌, ◌≡◌, refl, sym, ap, ◌∙◌, String, true, Option, none, some, List, [], ◌∷◌, length,
  any, find, if◌then◌else◌, ◌==◌, Bool-cases, Option-cases, inl, inr,
}
use travelmap.Base.Text.{same_text}
use travelmap.Model.{Time}
use travelmap.Model.Checkin.{Checkin as Row}
use travelmap.Model.FoursquareAccount.{FoursquareAccount}
use travelmap.Exec.{Env, World, Error, Result, ok, err, statement, resume, continue, ◌>>=◌}
use travelmap.Exec.Gives.{Gives, Gives-pure, Gives-statement, Gives-now, Gives-resume}
use travelmap.Store.{Db, Action, known_user, unix_time}
use travelmap.Store.Checkins.{is_of, upsert_checkin, upsert}
use travelmap.Store.FoursquareAccounts.{links, record_sync, update_synced_through}
use travelmap.Store.FoursquareAccounts.Links.{linked, advanced, record_sync-linked}
use travelmap.Foursquare.{Checkin, Fault, Fetched, Ended, each_checkin_page}
use travelmap.Foursquare.Kept.{Anything, each_checkin_page-Gives}
use travelmap.Foursquare.Walked.{IsOver, each_checkin_page-IsOver}
use travelmap.Checkin.{
  write, from_wire, fetched_written, write_page, sync_recorded, sync_walked, sync,
}

-- The database but for the check-ins.
abbrev pub others : Db → Db
others d = record d { checkins = []; checkin_seq = 0 }

upsert-others : (now : Time) (c : Row) (d : Db) → others (upsert_checkin now c d).1 ≡ others d
unfolding upsert_checkin
upsert-others now c d = elim (Bool-cases (known_user d c.user_id)) [
  | inr k ↦ rw k refl
  | inl k ↦ elim (Option-cases (find (is_of c.foursquare_checkin_id) d.checkins)) [
    | inl n ↦ rw (k, n) refl
    | inr (old, n) ↦ rw (k, n) refl
  ]
]

module _ (E : Db) where
  abbrev Only : Db → Type 0
  Only d = others d ≡ E

  write-Gives : (c : Row) → Gives Only Anything (write c)
  unfolding upsert
  write-Gives c =
      Gives-now Anything (λ now. statement (upsert_checkin now c))
        (λ now.
          Gives-statement Anything (upsert_checkin now c) tt
            (λ d p. (tt, upsert-others now c d ∙ p)))

  written-Gives :
      (seen : List String) (id : String) (rest : List String → Action (List String × Option Fault))
      → ((s : List String) → Gives Only Anything (rest s))
      → (r : Result Row) → Gives Only Anything (fetched_written seen id rest r)
  written-Gives seen id rest h (ok row) = h (id ∷ seen)
  written-Gives seen id rest h (err e) = Gives-pure Anything (seen, some (Fault.store_error e)) tt

  write_page-Gives :
      (user : ℕ) (cs : List Checkin) (seen : List String)
      → Gives Only Anything (write_page user cs seen)
  unfolding write_page
  write_page-Gives user [] seen = Gives-pure Anything (seen, none) tt
  write_page-Gives user (c ∷ cs) seen = elim (Bool-cases (any (same_text c.id) seen)) [
    | inl e ↦ rw e (write_page-Gives user cs seen)
    | inr e ↦ rw e (
        Gives-resume Anything Anything (write (from_wire user "sync" c))
          (fetched_written seen c.id (write_page user cs)) (write-Gives (from_wire user "sync" c))
          (λ r q. written-Gives seen c.id (write_page user cs) (write_page-Gives user cs) r))
  ]

-- A run that reports no error has recorded its start; one that does has changed only check-ins.
abbrev pub Ran : ℕ → Time → Db → Result (ℕ × Ended) × World Db → Type 0
Ran user now before (ok (count, Ended.complete), w) =
    (t : Time) × ((record_sync user now t before).0 ≡ ok tt)
    × (others w.db ≡ others (record_sync user now t before).1)
    × ((v : ℕ)
        → linked v w.db
          ≡ (if user == v then Option.map (advanced t now) (linked v before) else linked v before))
Ran user now before (ok (count, Ended.spent), w) = ⊥
Ran user now before (ok (count, Ended.stopped fault), w) = others w.db ≡ others before
Ran user now before (err e, w) = others w.db ≡ others before

-- The accounts do not depend on the check-ins.
record_sync-others :
    (user : ℕ) (now t : Time) (d : Db)
    → ((record_sync user now t d).0 ≡ (record_sync user now t (others d)).0)
      × (others (record_sync user now t d).1 ≡ others (record_sync user now t (others d)).1)
unfolding record_sync
record_sync-others user now t d = elim (Bool-cases (any (links user) d.foursquare_accounts)) [
  | inl e ↦ rw e (refl, refl)
  | inr e ↦ rw e (refl, refl)
]

record_sync-same :
    (user : ℕ) (now t : Time) (d e : Db)
    → others d ≡ others e
    → ((record_sync user now t d).0 ≡ (record_sync user now t e).0)
      × (others (record_sync user now t d).1 ≡ others (record_sync user now t e).1)
record_sync-same user now t d e h =
    let (a, b) = record_sync-others user now t d in
    let (a', b') = record_sync-others user now t e in
    (
      a ∙ ap (λ x. (record_sync user now t x).0) h ∙ sym a',
      b ∙ ap (λ x. others (record_sync user now t x).1) h ∙ sym b',
    )

failed_sync :
    (user : ℕ) (now t : Time) (d : Db) (x : Error)
    → (record_sync user now t d).0 ≡ err x
    → (record_sync user now t d).1 ≡ d
unfolding record_sync
failed_sync user now t d x h = elim (Bool-cases (any (links user) d.foursquare_accounts)) [
  | inl e ↦ absurd (cc (h, went e))
  | inr e ↦ rw e refl
]
  where
    went : any (links user) d.foursquare_accounts ≡ true → (record_sync user now t d).0 ≡ ok tt
    went e = rw e refl

module _ (user : ℕ) (now : Time) (before : Db) (env : Env) where
  -- What the UPDATE at the time `t` leads to.
  answered-Ran :
      (count steps : ℕ) (t : Time) (w : World Db)
      → others w.db ≡ others before
      → (r : Result (Unit {0})) (d : Db) → record_sync user now t w.db ≡ (r, d)
      → Ran user now before (sync_recorded count r env (record w { db = d; steps = steps }))
  answered-Ran count steps t w h (ok u) d e =
      let (a, b) = record_sync-same user now t w.db before h in
      let same : others d ≡ others (record_sync user now t before).1 =
        sym (ap (λ x. others x.1) e) ∙ b in
      (
        t,
        sym a ∙ ap (λ x. x.0) e,
        same,
        λ v.
            ap (λ x. find (links v) x.foursquare_accounts) same
            ∙ record_sync-linked user v now t before,
      )
  answered-Ran count steps t w h (err x) d e =
      ap others (sym (ap (λ p. p.1) e) ∙ failed_sync user now t w.db x (ap (λ p. p.0) e)) ∙ h

  recorded-Ran :
      (count : ℕ) (w : World Db)
      → others w.db ≡ others before
      → Ran user now before (resume (update_synced_through user now) (sync_recorded count) env w)
  unfolding resume update_synced_through statement
  recorded-Ran count w h = elim (Bool-cases (env.fails w.steps)) [
    | inl e ↦ rw e h
    | inr e ↦ rw e (
        answered-Ran count (suc w.steps) (env.now w.steps) w h
          (record_sync user now (env.now w.steps) w.db).0
          (record_sync user now (env.now w.steps) w.db).1 refl)
  ]

  walked-Ran :
      (r : Result (List String × Ended)) (w : World Db)
      → others w.db ≡ others before
      → IsOver r
      → Ran user now before (continue r (sync_walked user now) env w)
  walked-Ran (ok (seen, Ended.complete)) w h o = recorded-Ran (length seen) w h
  walked-Ran (ok (seen, Ended.spent)) w h o = o
  walked-Ran (ok (seen, Ended.stopped fault)) w h o = h
  walked-Ran (err e) w h o = h

-- Whatever the pages are that the API answers with and whichever statements fail, a sync run
-- ends, and in every table but that of the check-ins it leaves: where it reports no error, the
-- account, which was there, with its window's end at the start of the run, and nothing else
-- changed; where it reports one, everything as it was.
pub sync-Ran :
    (fetch : String → ℕ → ℕ → Fetched) (lookback : Time) (account : FoursquareAccount) (env : Env)
    (w : World Db)
    → Ran account.user_id (unix_time (env.now w.steps)) w.db (sync fetch lookback account env w)
unfolding sync ◌>>=◌
sync-Ran fetch lookback account env w =
    let now = unix_time (env.now w.steps) in
    let walk =
      each_checkin_page (fetch account.access_token) (now - lookback) (write_page account.user_id)
        [] in
    walked-Ran account.user_id now w.db env (walk env w).0 (walk env w).1
      ((each_checkin_page-Gives (Only (others w.db)) (fetch account.access_token) (now - lookback)
          (write_page account.user_id) (write_page-Gives (others w.db) account.user_id) []).at
        env w refl).1
      (each_checkin_page-IsOver (fetch account.access_token) (now - lookback)
        (write_page account.user_id) [] env w)
