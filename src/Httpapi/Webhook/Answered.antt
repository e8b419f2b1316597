-- ===== src/Httpapi/Webhook/Answered.antt =====
-- internal/httpapi/foursquare.go `foursquareWebhook`: what a push is answered and leaves.
use travelmap.Base.{ℕ, ◌≡◌, refl, sym, ap, subst, String, Bool, true, false, Option, none, some}
use travelmap.Base.Members.{In}
use travelmap.Base.Text.{same_text}
use travelmap.Model.FoursquareAccount.{FoursquareAccount}
use travelmap.Exec.{Env, World, Result, ok, resume}
use travelmap.Exec.Ensures.{Healthy}
use travelmap.Store.{Db, known_user}
use travelmap.Foursquare.{Json, Checkin}
use travelmap.Checkin.{Pushed, stored, malformed, unknown_account, write_push}
use travelmap.Checkin.Answered.{Answered, Resolved, linked_to, write_push-Answered}
use travelmap.Httpapi.Webhook.{
  check_secret, PushForm, status_of, push_status, push_handled, secret_checked, foursquare_webhook,
}

-- Refused, dropped, or written: by whether the secret matches and whether the parameter is empty.
abbrev pub Handled : Json → String → Db → Bool → Bool → Result ℕ × World Db → Type 0
Handled json raw db false empty (r, w) = (r ≡ ok 401) × (w.db ≡ db)
Handled json raw db true true (r, w) = (r ≡ ok 200) × (w.db ≡ db)
Handled json raw db true false (r, w) =
    (r ≡ ok 200) × ((p : Pushed) × Answered db raw (json.item raw) (ok p, w))

abbrev pub Webhook : Json → String → Db → Option PushForm → Result ℕ × World Db → Type 0
Webhook json want db none (r, w) = (r ≡ ok 400) × (w.db ≡ db)
Webhook json want db (some form) rw =
    Handled json form.checkin db (same_text form.secret want) (same_text form.checkin "") rw

-- No push that is answered as `Answered` says is a failure of the store.
abbrev Fine : Result Pushed → Type 0
Fine r = (p : Pushed) × (r ≡ ok p) × (status_of p ≡ 200)

Resolved-Fine :
    (c : Checkin) (db : Db) (o : Option FoursquareAccount) (rw : Result Pushed × World Db)
    → Resolved c db o rw
    → Fine rw.0
Resolved-Fine c db none rw h = (unknown_account, h.0, refl)
Resolved-Fine c db (some a) rw (t, e, rows) = (stored _, e, refl)

Answered-Fine :
    (db : Db) (raw : String) (o : Option Checkin) (rw : Result Pushed × World Db)
    → Answered db raw o rw
    → Fine rw.0
Answered-Fine db raw none rw h = (malformed, h.0, refl)
Answered-Fine db raw (some c) rw h =
    Resolved-Fine (record c { raw = raw }) db (linked_to c.user_id db) rw h

module _ (env : Env) (h : Healthy env) (json : Json) (w : World Db)
    (k : (a : FoursquareAccount)
      → In a w.db.foursquare_accounts
      → known_user w.db a.user_id ≡ true) where
  written-Handled :
      (raw : String)
      → Handled json raw w.db true false (resume (write_push json raw) push_status env w)
  unfolding resume
  written-Handled raw =
      let a = write_push-Answered env h json raw w k in
      finished (json.item raw) (write_push json raw env w).0 (write_push json raw env w).1
        (Answered-Fine w.db raw (json.item raw) (write_push json raw env w) a) a
    where
      finished :
          (o : Option Checkin) (r : Result Pushed) (w' : World Db)
          → Fine r
          → Answered w.db raw o (r, w')
          → ((push_status r env w').0 ≡ ok 200)
            × ((p : Pushed) × Answered w.db raw o (ok p, (push_status r env w').1))
      finished o r w' (p, e, s) a =
          subst
            (λ x.
              ((push_status x env w').0 ≡ ok 200)
              × ((p : Pushed) × Answered w.db raw o (ok p, (push_status x env w').1)))
            (sym e) (ap ok s, (p, subst (λ x. Answered w.db raw o (x, w')) e a))

  handled :
      (form : PushForm) (secret empty : Bool)
      → same_text form.checkin "" ≡ empty
      → Handled json form.checkin w.db secret empty (secret_checked json form secret env w)
  handled form false empty e = (refl, refl)
  handled form true true e = rw (e, push_handled) (refl, refl)
  handled form true false e = rw (e, push_handled) (written-Handled form.checkin)

  -- Where no statement fails and every linked account is a user's, a push to the webhook whose
  -- form does not parse is answered 400, and one without the secret 401, and the database is
  -- as it was; one with the secret is answered 200: without a check-in, with a text that is
  -- none, or for a Swarm user who is not linked, the database is as it was, and otherwise the
  -- check-in, with its venue and its category, is stored for the linked user, keeping the id,
  -- the source and the creation time of a row that was there, and no other check-in changes.
  pub foursquare_webhook-Answered :
      (want : String) (form : Option PushForm)
      → Webhook json want w.db form (foursquare_webhook json want form env w)
  unfolding foursquare_webhook check_secret
  foursquare_webhook-Answered want none = (refl, refl)
  foursquare_webhook-Answered want (some form) =
      handled form (same_text form.secret want) (same_text form.checkin "") refl
