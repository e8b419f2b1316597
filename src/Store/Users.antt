-- ===== src/Store/Users.antt =====
-- internal/store/sqlite/users.go: the repository of the users table.
use travelmap.Base.{
  ℕ, suc, String, Bool, ◌||◌, none, some, [], ◌∷◌, ◌++◌, any, find, if◌then◌else◌, ◌==◌,
}
use travelmap.Base.Text.{same_text, same_nocase}
use travelmap.Model.{Time, User}
use travelmap.Exec.{Result, ok, err, not_found, conflict, statement, with_now}
use travelmap.Store.{Db, Action, unix_time}

-- users_email_key, over a column that is COLLATE NOCASE, and users_api_key_key
unfoldable pub clashes : User → User → Bool
clashes user u = same_nocase u.email user.email || same_text u.api_key user.api_key

-- The row that an INSERT of `user` makes.
unfoldable pub user_row : ℕ → Time → User → User
unfolding unix_time
user_row id now user = record user {
  id = id;
  created_at = unix_time now;
  updated_at = unix_time now;
}

unfoldable pub insert_user : Time → User → Db → Result User × Db
unfolding clashes user_row
insert_user now user db = if any (clashes user) db.users then (err conflict, db) else (
  ok (user_row (suc db.user_seq) now user),
  record db {
    users = db.users ++ user_row (suc db.user_seq) now user ∷ [];
    user_seq = suc db.user_seq;
  },
)

unfoldable pub create : User → Action User
unfolding insert_user statement
create user = with_now λ now. statement (insert_user now user)

-- `one`: a lookup expected to match at most one user.
unfoldable pub one : (User → Bool) → Action User
unfolding statement
one matches =
    statement
      λ db. elim (find matches db.users) [ none ↦ (err not_found, db) | some u ↦ (ok u, db) ]

unfoldable pub by_email : String → Action User
unfolding one
by_email email = one (λ u. same_nocase u.email email)

unfoldable pub by_api_key : String → Action User
unfolding one
by_api_key api_key = one (λ u. same_text u.api_key api_key)

unfoldable pub by_id : ℕ → Action User
unfolding one
by_id id = one (λ u. u.id == id)
