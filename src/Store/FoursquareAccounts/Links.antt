-- ===== src/Store/FoursquareAccounts/Links.antt =====
-- internal/store/sqlite/foursquareaccounts.go: which accounts are linked to which users.
use mathlib.Core.Option
use travelmap.Base.{
  ℕ, ◌≡◌, refl, sym, ap, subst, ◌∙◌, Bool, true, false, ◌||◌, Option, some, List, [], ◌∷◌, ◌++◌,
  map, any, find, if◌then◌else◌, ◌==◌, arith, Bool-cases, inl, inr, ==_comm,
}
use travelmap.Base.Members.{In, any_of_In, of_In_snoc}
use travelmap.Base.Text.{same_text, same_text_comm}
use travelmap.Model.{Time}
use travelmap.Model.FoursquareAccount.{FoursquareAccount}
use travelmap.Store.{Db, known_user, unix_time}
use travelmap.Store.FoursquareAccounts.{
  collides, account_row, insert_account, links, synced, record_sync,
}

-- No user and no Swarm account is linked twice.
pub record LinksIsWellFormed (db : Db) : Type 0 where
  pub users :
      (a b : FoursquareAccount)
      → In a db.foursquare_accounts
      → In b db.foursquare_accounts
      → a.user_id ≡ b.user_id
      → a ≡ b
  pub swarms :
      (a b : FoursquareAccount)
      → In a db.foursquare_accounts
      → In b db.foursquare_accounts
      → same_text a.foursquare_user_id b.foursquare_user_id ≡ true
      → a ≡ b

-- The same, by the constraints of the table.
record LinksIsSingle (db : Db) : Type 0 where
  single :
      (a b : FoursquareAccount)
      → In a db.foursquare_accounts
      → In b db.foursquare_accounts
      → collides a b ≡ true
      → a ≡ b

collides_comm : (a b : FoursquareAccount) → collides a b ≡ collides b a
unfolding collides
collides_comm a b =
    rw (same_text_comm b.foursquare_user_id a.foursquare_user_id, ==_comm b.user_id a.user_id) refl

collides-row :
    (now : Time) (a b : FoursquareAccount) → collides (account_row now a) b ≡ collides a b
unfolding collides account_row
collides-row now a b = refl

linked_anew :
    (db : Db) (new : FoursquareAccount)
    → LinksIsSingle db
    → any (collides new) db.foursquare_accounts ≡ false
    → LinksIsSingle (record db { foursquare_accounts = db.foursquare_accounts ++ new ∷ [] })
linked_anew db new v free = record {
  single = λ a b i j c. elim (of_In_snoc db.foursquare_accounts new a i) [
    | inl p ↦ elim (of_In_snoc db.foursquare_accounts new b j) [
      | inl q ↦ v.single a b p q c
      | inr q ↦
          absurd (apart a p (collides_comm new a ∙ subst (λ x. collides a x ≡ true) (sym q) c))
    ]
    | inr p ↦ elim (of_In_snoc db.foursquare_accounts new b j) [
      | inl q ↦ absurd (apart b q (subst (λ x. collides x b ≡ true) (sym p) c))
      | inr q ↦ sym p ∙ q
    ]
  ];
}
  where
    apart : (a : FoursquareAccount) → In a db.foursquare_accounts → ¬ (collides new a ≡ true)
    apart a i c = cc (free, any_of_In (collides new) db.foursquare_accounts a i c)

any-congr :
    (p q : FoursquareAccount → Bool)
    → ((a : FoursquareAccount) → p a ≡ q a)
    → (xs : List FoursquareAccount) → any p xs ≡ any q xs
any-congr p q h [] = refl
any-congr p q h (x ∷ xs) = rw (h x) (ap (λ b. q x || b) (any-congr p q h xs))

insert_account-IsSingle :
    (now : Time) (account : FoursquareAccount) (db : Db)
    → LinksIsSingle db
    → LinksIsSingle (insert_account now account db).1
unfolding insert_account
insert_account-IsSingle now account db v =
    elim (Bool-cases (any (collides account) db.foursquare_accounts)) [
      | inl e ↦ rw e v
      | inr e ↦ elim (Bool-cases (known_user db account.user_id)) [
        | inl k ↦
            rw (e, k)
              (linked_anew db (account_row now account) v (
                any-congr (collides (account_row now account)) (collides account)
                  (collides-row now account) db.foursquare_accounts
                ∙ e))
        | inr k ↦ rw (e, k) v
      ]
    ]

LinksIsWellFormed-IsSingle : (db : Db) → LinksIsWellFormed db → LinksIsSingle db
unfolding collides
LinksIsWellFormed-IsSingle db v = record {
  single = λ a b i j c. elim (Bool-cases (b.user_id == a.user_id)) [
    | inl e ↦ v.users a b i j (ground (arith, e))
    | inr e ↦
        v.swarms a b i j
          (ground (arith, c, e, same_text_comm a.foursquare_user_id b.foursquare_user_id))
  ];
}

LinksIsSingle-IsWellFormed : (db : Db) → LinksIsSingle db → LinksIsWellFormed db
unfolding collides
LinksIsSingle-IsWellFormed db v = record {
  users = λ a b i j e. v.single a b i j (ground (arith, e));
  swarms = λ a b i j e.
      v.single a b i j
        (ground (arith, e, same_text_comm a.foursquare_user_id b.foursquare_user_id));
}

-- If no user and no Swarm account is linked twice, then none is after the INSERT of any
-- account, whether it is stored or refused.
pub insert_account-IsWellFormed :
    (now : Time) (account : FoursquareAccount) (db : Db)
    → LinksIsWellFormed db
    → LinksIsWellFormed (insert_account now account db).1
insert_account-IsWellFormed now account db v =
    LinksIsSingle-IsWellFormed _
      (insert_account-IsSingle now account db (LinksIsWellFormed-IsSingle db v))

-- What `ByUserID` finds.
abbrev pub linked : ℕ → Db → Option FoursquareAccount
linked user db = find (links user) db.foursquare_accounts

abbrev pub advanced : Time → Time → FoursquareAccount → FoursquareAccount
advanced now through a = record a {
  synced_through = some (unix_time through);
  updated_at = unix_time now;
}

synced-find :
    (user v : ℕ) (now through : Time) (rows : List FoursquareAccount)
    → find (links v) (map (synced user now through) rows) ≡ (
        if user == v
        then Option.map (advanced now through) (find (links v) rows)
        else find (links v) rows)
unfolding synced
synced-find user v now through [] = ground arith
synced-find user v now through (a ∷ rows) = elim (Bool-cases (a.user_id == user)) [
  | inl e ↦ rw e (ground (arith, e, synced-find user v now through rows))
  | inr e ↦ rw e (ground (arith, e, synced-find user v now through rows))
]

absent_map :
    (user v : ℕ) (f : FoursquareAccount → FoursquareAccount) (rows : List FoursquareAccount)
    → any (links user) rows ≡ false
    → find (links v) rows
      ≡ (if user == v then Option.map f (find (links v) rows) else find (links v) rows)
absent_map user v f [] h = ground arith
absent_map user v f (a ∷ rows) h = ground (arith, h, absent_map user v f rows)

pub record_sync-linked :
    (user v : ℕ) (through now : Time) (db : Db)
    → linked v (record_sync user through now db).1
      ≡ (if user == v then Option.map (advanced now through) (linked v db) else linked v db)
unfolding record_sync
record_sync-linked user v through now db =
    elim (Bool-cases (any (links user) db.foursquare_accounts)) [
      | inl e ↦ rw e (synced-find user v now through db.foursquare_accounts)
      | inr e ↦ rw e (absent_map user v (advanced now through) db.foursquare_accounts e)
    ]
