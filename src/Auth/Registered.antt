-- ===== src/Auth/Registered.antt =====
-- internal/auth/register.go `Register`: what it leaves, on success and on failure.
use mathlib.Core.Bool.{false≢true}
use travelmap.Base.{
  ℕ, suc, ◌≡◌, refl, sym, ap, ◌∙◌, subst, String, true, false, Option, none, some, [], ◌∷◌, ◌++◌,
  any, any-append, arith, ◌==◌, ==_refl, inl, inr, Bool-cases,
}
use travelmap.Base.Members.{any-In}
use travelmap.Model.{Time, User}
use travelmap.Model.Settings.{Settings, default_settings}
use travelmap.Exec.{Env, World, Error, conflict, statement}
use travelmap.Exec.Ensures.{
  Ensures, Ensures-pure, Ensures-statement, Ensures-now, Ensures-bind, Ensures-weaken, Ensures-from,
  Ensures-tx, Outcome, Healthy, Never, succeeds, Returns, FailsWith, fails_with,
}
use travelmap.Exec.Atomic.{IsAtomic, tx-IsAtomic, atomic_keeps, Any, failed-Unchanged}
use travelmap.Store.{Db, known_user}
use travelmap.Store.Users
use travelmap.Store.Users.{clashes, user_row, insert_user}
use travelmap.Store.Settings
use travelmap.Store.Settings.{belongs, settings_row, insert_settings}
use travelmap.Auth.{
  Outside, normalize_email, hash_password, new_api_key, with_credentials, store_account, register,
}
use travelmap.Auth.Accounts.{AccountsIsWellFormed, added-IsWellFormed}

abbrev pub account : String → String → String → User
account address hash key = record {
  id = 0;
  email = address;
  password_hash = hash;
  api_key = key;
  created_at = 0;
  updated_at = 0;
}

-- The user is in the table, with a row of the default settings, and nothing else changed.
pub record Registered (address hash key : String) (before : Db) (created : User) (after : Db)
    : Type 0 where
  pub now : Time
  pub later : Time
  pub user : created ≡ user_row (suc before.user_seq) now (account address hash key)
  pub tables : after ≡ record before {
    users = before.users ++ created ∷ [];
    user_seq = suc before.user_seq;
    settings = before.settings ++ settings_row later (default_settings created.id) ∷ [];
  }
  pub free : any (clashes (account address hash key)) before.users ≡ false
  pub accounts : AccountsIsWellFormed after

-- The first statement of the transaction.
record UserAdded (user : User) (before : Db) (created : User) (after : Db) : Type 0 where
  now : Time
  free : any (clashes user) before.users ≡ false
  row : created ≡ user_row (suc before.user_seq) now user
  table :
      after ≡ record before { users = before.users ++ created ∷ []; user_seq = suc before.user_seq }

new_user-known :
    (db : Db) (u : User) (n : ℕ)
    → known_user (record db { users = db.users ++ u ∷ []; user_seq = n }) u.id ≡ true
unfolding known_user
new_user-known db u n =
    any-append (λ (v : User). v.id == u.id) db.users (u ∷ []) ∙ ground (arith, ==_refl u.id)

no_settings :
    (db : Db) → AccountsIsWellFormed db → any (belongs (suc db.user_seq)) db.settings ≡ false
no_settings db v = elim (Bool-cases (any (belongs (suc db.user_seq)) db.settings)) [
  | inl e ↦
      let (s, i, b) = any-In (belongs (suc db.user_seq)) db.settings e in
      absurd (ground (arith, v.owners s i, b))
  | inr e ↦ e
]

module _ (env : Env) (C : Error → Type 0) where
  create-UserAdded :
      (user : User) (db : Db)
      → (any (clashes user) db.users ≡ true → C conflict)
      → Ensures env (λ d. d ≡ db) (Users.create user) (UserAdded user db) C
  unfolding Users.create insert_user
  create-UserAdded user db refuse =
      Ensures-now env C (λ now. statement (insert_user now user))
        (λ now. Ensures-statement env C (insert_user now user) (λ d e. rw e (added now)))
    where
      added :
          (now : Time)
          → Outcome env
              (UserAdded user db)
              C
              (insert_user now user db).0
              (insert_user now user db).1
      added now = elim (Bool-cases (any (clashes user) db.users)) [
        | inl e ↦ rw e (inr (refuse e))
        | inr e ↦ rw e (record { now = now; free = e; row = refl; table = refl })
      ]

  create-SettingsAdded :
      (settings : Settings) (db : Db)
      → any (belongs settings.user_id) db.settings ≡ false
      → known_user db settings.user_id ≡ true
      → Ensures env
          (λ d. d ≡ db)
          (Settings.create settings)
          (λ _ d.
            (now : Time) × (d
              ≡ record db { settings = db.settings ++ settings_row now settings ∷ [] }))
          C
  unfolding Settings.create insert_settings
  create-SettingsAdded settings db free known =
      Ensures-now env C (λ now. statement (insert_settings now settings))
        (λ now.
          Ensures-statement env C (insert_settings now settings)
            (λ d e. rw (e, free, known) (now, refl)))

  module _ (address hash key : String) (db : Db) (v : AccountsIsWellFormed db) where
    finish-Registered :
        (created : User) (mid : Db)
        → UserAdded (account address hash key) db created mid
        → Ensures env
            (λ d. d ≡ mid)
            (Settings.create (default_settings created.id))
            (λ _ d. Registered address hash key db created d)
            C
    unfolding default_settings user_row clashes settings_row
    finish-Registered created mid a =
        Ensures-weaken env C (λ d e. e ∙ a.table)
          (λ _ d r. record {
            now = a.now;
            later = r.0;
            user = a.row;
            tables = r.1;
            free = a.free;
            accounts = subst AccountsIsWellFormed (sym r.1) (
                added-IsWellFormed db created (settings_row r.0 (default_settings created.id)) v id
                  id (subst (λ (u : User). any (clashes u) db.users ≡ false) (sym a.row) a.free));
          })
          (create-SettingsAdded (default_settings created.id)
            (record db { users = db.users ++ created ∷ []; user_seq = suc db.user_seq })
            (subst (λ n. any (belongs n) db.settings ≡ false) (sym id) (no_settings db v))
            (new_user-known db created (suc db.user_seq)))
      where
        id : created.id ≡ suc db.user_seq
        id = ap (λ (u : User). u.id) a.row

    store_account-Registered :
        (any (clashes (account address hash key)) db.users ≡ true → C conflict)
        → Ensures env
            (λ d. d ≡ db)
            (store_account address hash key)
            (Registered address hash key db)
            C
    unfolding store_account
    store_account-Registered refuse = Ensures-tx env C (
        Ensures-bind env C (create-UserAdded (account address hash key) db refuse) (λ created.
          Ensures-from env C (λ mid a.
            Ensures-bind env C (finish-Registered created mid a)
              (λ _. Ensures-pure env C created (λ d r. r)))))

store_account-IsAtomic : (address hash key : String) → IsAtomic (store_account address hash key)
unfolding store_account
store_account-IsAtomic address hash key = tx-IsAtomic _

credentials-IsWellFormed :
    (address hash key : Option String) (env : Env) (w : World Db)
    → w.in_tx ≡ false
    → AccountsIsWellFormed w.db
    → AccountsIsWellFormed (with_credentials address hash key env w).1.db
credentials-IsWellFormed none hash key env w t v = v
credentials-IsWellFormed (some address) none key env w t v = v
credentials-IsWellFormed (some address) (some hash) none env w t v = v
credentials-IsWellFormed (some address) (some hash) (some key) env w t v =
    atomic_keeps AccountsIsWellFormed env (store_account address hash key) w
      (store_account-IsAtomic address hash key) t
      (Ensures-weaken env Any (λ d e. e) (λ u d r. r.accounts)
        (store_account-Registered env Any address hash key w.db v (λ e. tt)))
      v

module _ (o : Outside) (email password : String) where
  -- Every credential is there.
  register-eq :
      (address hash key : String)
      → normalize_email o email ≡ some address
      → hash_password o password ≡ some hash
      → new_api_key o ≡ some key
      → register o email password ≡ store_account address hash key
  unfolding register
  register-eq address hash key a h k = rw (a, h, k) refl

  -- Where no statement fails and the accounts satisfy their invariant, for an address and a
  -- password that are accepted and a key that is issued, neither the address nor the key being
  -- a user's, Register returns the stored user under the next id; it adds that user and a row
  -- of the default settings, and nothing else, and keeps the invariant.
  pub register-succeeds :
      (env : Env)
      → Healthy env
      → (w : World Db) → AccountsIsWellFormed w.db
      → (address hash key : String) → normalize_email o email ≡ some address
      → hash_password o password ≡ some hash
      → new_api_key o ≡ some key
      → any (clashes (account address hash key)) w.db.users ≡ false
      → Returns (Registered address hash key w.db) (register o email password env w)
  register-succeeds env healthy w v address hash key a h k free =
      subst (λ m. Returns (Registered address hash key w.db) (m env w))
        (sym (register-eq address hash key a h k))
        (succeeds env
          (store_account-Registered env Never address hash key w.db v
            (λ e. false≢true (sym free ∙ e)))
          healthy w refl)

  -- Outside a transaction, where no statement fails and the accounts satisfy their invariant,
  -- for an address and a password that are accepted and a key that is issued, the address, but
  -- for its case, or the key being a user's, Register returns ErrConflict and leaves the
  -- database as it was.
  pub register-FailsWith :
      (env : Env)
      → Healthy env
      → (w : World Db) → w.in_tx ≡ false
      → AccountsIsWellFormed w.db
      → (address hash key : String) → normalize_email o email ≡ some address
      → hash_password o password ≡ some hash
      → new_api_key o ≡ some key
      → any (clashes (account address hash key)) w.db.users ≡ true
      → FailsWith conflict w (register o email password env w)
  register-FailsWith env healthy w t v address hash key a h k taken =
      subst (λ m. FailsWith conflict w (m env w)) (sym (register-eq address hash key a h k))
        (let failed =
            fails_with env healthy conflict w
              (store_account-Registered env (λ x. x ≡ conflict) address hash key w.db v (λ _. refl))
              (λ u d r. false≢true (sym r.free ∙ taken)) in
          (
            failed,
            failed-Unchanged w (store_account address hash key env w) failed
                (store_account-IsAtomic address hash key env w t),
          ))

  -- Outside a transaction, and whatever statements fail and whatever the address and the
  -- password are, Register keeps the accounts' invariant: addresses, but for their case, and
  -- keys name one user each, every user has a row of settings, and ids run up to the last one
  -- given out.
  pub register-IsWellFormed :
      (env : Env) (w : World Db)
      → w.in_tx ≡ false
      → AccountsIsWellFormed w.db
      → AccountsIsWellFormed (register o email password env w).1.db
  unfolding register
  register-IsWellFormed env w t v =
      credentials-IsWellFormed (normalize_email o email) (hash_password o password) (new_api_key o)
        env w t v
