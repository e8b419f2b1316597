-- ===== src/Httpapi/Accounts/SignUp.antt =====
-- internal/httpapi/api_users.go and login.go: a user who has signed up can sign in.
use travelmap.Base.{
  ◌≡◌, refl, sym, ap, ◌∙◌, subst, String, true, false, some, List, [], ◌∷◌, ◌++◌, find, any, arith,
}
use travelmap.Base.Text.{same_text, same_nocase, same_nocase_refl}
use travelmap.Model.{User}
use travelmap.Exec.{Env, World, ok, outside}
use travelmap.Exec.Ensures.{Healthy}
use travelmap.Store.{Db}
use travelmap.Store.Users.{clashes, user_row}
use travelmap.Auth.{
  Outside, matches, check_password, normalize_email, hash_password, new_api_key, validate_password,
  register,
}
use travelmap.Auth.Accounts.{AccountsIsWellFormed}
use travelmap.Auth.Registered.{Registered, account, register-succeeds}
use travelmap.Httpapi.Dto.{LoginRequest, CreateUserRequest, Body}
use travelmap.Httpapi.Response.{
  Api, Response, SessionChange, Handler, attempt, write_json, with_body,
}
use travelmap.Httpapi.Points.Answers.{attempt-eq}
use travelmap.Httpapi.Accounts.{
  password_length_error, registered, start_session, sign_up, create_user, login, login_body,
}
use travelmap.Httpapi.Accounts.SignIn.{user_of, login-RunsAs}

no_clash-append :
    (address hash key : String) (us : List User) (u : User)
    → any (clashes (account address hash key)) us ≡ false
    → u.email ≡ address
    → same_nocase address address ≡ true
    → find (λ (v : User). same_nocase v.email address) (us ++ u ∷ []) ≡ some u
unfolding clashes
no_clash-append address hash key [] u h e r = rw (ap (λ a. same_nocase a address) e ∙ r) refl
no_clash-append address hash key (v ∷ vs) u h e r =
    ground (arith, h, no_clash-append address hash key vs u (ground (arith, h)) e r)

-- A password that is hashed is of a length that the form accepts.
length_accepted :
    (o : Outside) (password hash : String)
    → hash_password o password ≡ some hash
    → password_length_error password ≡ ""
unfolding hash_password validate_password password_length_error
length_accepted o password hash h = ground (arith, h)

module _ (api : Api) (o : Outside) (req : CreateUserRequest) (address hash key : String) where
  sign_up-eq :
      hash_password o req.password ≡ some hash
      → same_text req.password req.password_confirmation ≡ true
      → sign_up api o true req (some address)
        ≡ attempt (register o address req.password) (registered api true)
  unfolding same_text
  sign_up-eq h c = rw (length_accepted o req.password hash h, c) refl

  -- The user is stored, signed in, and can sign in again.
  pub record SignedUp (later : Env) (before : Db) (r : Response × World Db) : Type 0 where
    pub created : User
    pub answer : r.0 ≡ record (write_json api 201 (Body.user_created created.api_key)) {
      session = SessionChange.started created.id;
    }
    pub stored : Registered address hash key before created r.1.db
    pub again :
        (login api o
          (some (record { email = req.email; password = req.password }))
          later
          (outside r.1.db)).0
        ≡ write_json api 200 (login_body created)

  module _ (later : Env) (healthy : Healthy later)
      (read : normalize_email o req.email ≡ some address)
      (true_to : o.compare hash req.password ≡ matches) where
    user_of-created :
        (before after : Db) (created : User)
        → Registered address hash key before created after
        → user_of o (record { email = req.email; password = req.password }) after ≡ some created
    unfolding check_password user_row
    user_of-created before after created g =
        let email : created.email ≡ address = ap (λ (u : User). u.email) g.user in
        let password : created.password_hash ≡ hash = ap (λ (u : User). u.password_hash) g.user in
        let there : find (λ (u : User). same_nocase u.email address) after.users ≡ some created =
          ap (λ (d : Db). find (λ (u : User). same_nocase u.email address) d.users) g.tables
          ∙ no_clash-append address hash key before.users created g.free email
              (same_nocase_refl address) in
        rw (read, there, password, true_to) refl

    created-SignedUp :
        (before : Db) (created : User) (r : Response × World Db)
        → r.0 ≡ record (write_json api 201 (Body.user_created created.api_key)) {
          session = SessionChange.started created.id;
        }
        → Registered address hash key before created r.1.db
        → SignedUp later before r
    created-SignedUp before created r answer g = record {
      created = created;
      answer = answer;
      stored = g;
      again =
          let body : LoginRequest = record { email = req.email; password = req.password } in
          let (n, e) = (login-RunsAs api o later healthy (outside r.1.db) body).1 in
          ap (λ (x : Response × World Db). x.0) e
          ∙ rw (user_of-created before r.1.db created g) refl;
    }

  -- Where no statement fails and the accounts satisfy their invariant, for an address that is
  -- read, and is read as itself again, a password that is confirmed and hashed and that the
  -- comparison recognises, and an issued key, neither the address nor the key being a user's,
  -- signing up answers 201 with the key, starts a session for the new user, stores that user
  -- with the default settings, and signing in with the same address and password then answers
  -- 200 with that user.
  pub create_user-SignedUp :
      (env later : Env)
      → Healthy env
      → Healthy later
      → (w : World Db) → AccountsIsWellFormed w.db
      → normalize_email o req.email ≡ some address
      → normalize_email o address ≡ some address
      → hash_password o req.password ≡ some hash
      → new_api_key o ≡ some key
      → same_text req.password req.password_confirmation ≡ true
      → any (clashes (account address hash key)) w.db.users ≡ false
      → o.compare hash req.password ≡ matches
      → SignedUp later w.db (create_user api o true (some req) env w)
  unfolding create_user with_body start_session
  create_user-SignedUp env later healthy healthy' w v read again hashed issued confirmed free
        true_to =
      let (created, e, g) =
        register-succeeds o address req.password env healthy w v address hash key again hashed
          issued free in
      subst (SignedUp later w.db)
        (sym (
          ap (λ a. sign_up api o true req a env w) read
          ∙ ap (λ (h : Handler). h env w) (sign_up-eq hashed confirmed)
          ∙ attempt-eq (registered api true) env (register o address req.password) w (ok created)
              e))
        (created-SignedUp later healthy' read true_to w.db created _ refl g)
