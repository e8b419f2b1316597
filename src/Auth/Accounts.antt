-- ===== src/Auth/Accounts.antt =====
-- The invariant of the accounts that internal/auth keeps.
use travelmap.Base.{
  suc, ◌≤◌, ◌≡◌, refl, sym, ap, ◌∙◌, subst, true, false, ◌||◌, [], ◌∷◌, ◌++◌, any, any-append,
  arith, inl, inr,
}
use travelmap.Base.Members.{In, any_of_In, of_In_snoc}
use travelmap.Base.Text.{same_text, same_nocase, same_text_comm, same_nocase_comm}
use travelmap.Model.{User}
use travelmap.Model.Settings.{Settings}
use travelmap.Store.{Db}
use travelmap.Store.Users.{clashes}
use travelmap.Store.Settings.{belongs}

pub record AccountsIsWellFormed (db : Db) : Type 0 where
  -- PRIMARY KEY AUTOINCREMENT
  pub fresh : (u : User) → In u db.users → u.id ≤ db.user_seq
  -- users_email_key and users_api_key_key
  pub keys :
      (u v : User)
      → In u db.users
      → In v db.users
      → (same_nocase v.email u.email || same_text v.api_key u.api_key) ≡ true
      → u ≡ v
  -- REFERENCES users (id)
  pub owners : (s : Settings) → In s db.settings → s.user_id ≤ db.user_seq
  pub settled : (u : User) → In u db.users → any (belongs u.id) db.settings ≡ true

clashes_comm : (u v : User) → clashes u v ≡ clashes v u
unfolding clashes
clashes_comm u v = rw (same_nocase_comm v.email u.email, same_text_comm v.api_key u.api_key) refl

-- A user and the settings of that user were added.
pub added-IsWellFormed :
    (db : Db) (user : User) (settings : Settings)
    → AccountsIsWellFormed db
    → user.id ≡ suc db.user_seq
    → settings.user_id ≡ suc db.user_seq
    → any (clashes user) db.users ≡ false
    → AccountsIsWellFormed (record db {
      users = db.users ++ user ∷ [];
      user_seq = suc db.user_seq;
      settings = db.settings ++ settings ∷ [];
    })
unfolding clashes
added-IsWellFormed db user settings v ui si free = record {
  fresh = λ u i. elim (of_In_snoc db.users user u i) [
    | inl j ↦ omega (arith, v.fresh u j)
    | inr e ↦ omega (arith, ui, ap (λ (x : User). x.id) e)
  ];
  keys = λ u w i j c. elim (of_In_snoc db.users user u i) [
    | inl a ↦ elim (of_In_snoc db.users user w j) [
      | inl b ↦ v.keys u w a b c
      | inr b ↦
          absurd (no_clash u a (clashes_comm user u ∙ subst (λ x. clashes u x ≡ true) (sym b) c))
    ]
    | inr a ↦ elim (of_In_snoc db.users user w j) [
      | inl b ↦ absurd (no_clash w b (subst (λ x. clashes x w ≡ true) (sym a) c))
      | inr b ↦ sym a ∙ b
    ]
  ];
  owners = λ s i. elim (of_In_snoc db.settings settings s i) [
    | inl j ↦ omega (arith, v.owners s j)
    | inr e ↦ omega (arith, si, ap (λ (x : Settings). x.user_id) e)
  ];
  settled = λ u i.
      any-append (belongs u.id) db.settings (settings ∷ []) ∙ elim (of_In_snoc db.users user u i) [
        | inl j ↦ ap (λ b. b || any (belongs u.id) (settings ∷ [])) (v.settled u j)
        | inr e ↦ ground (arith, ui, si, ap (λ (x : User). x.id) e)
      ];
}
  where
    no_clash : (u : User) → In u db.users → ¬ (clashes user u ≡ true)
    no_clash u i c = cc (free, any_of_In (clashes user) db.users u i c)
