-- ===== src/Auth/Tests.antt =====
-- internal/auth at a concrete address, in a database without users.
use travelmap.Base.{
  String, Option, none, some, List, [], ◌∷◌, ◌≡◌, refl, true, false, any, if◌then◌else◌,
}
use travelmap.Exec.{outside, conflict}
use travelmap.Exec.Ensures.{Returns, FailsWith}
use travelmap.Store.{Db}
use travelmap.Store.Users.{clashes}
use travelmap.Base.Text.{same_text}
use travelmap.Auth.{PasswordCheck, Outside, normalize_email, hash_password, new_api_key, register}
use travelmap.Auth.Accounts.{AccountsIsWellFormed}
use travelmap.Auth.Registered.{
  Registered, account, register-succeeds, register-FailsWith, register-IsWellFormed,
}
use travelmap.Fixture.{empty, env, env-Healthy}

abbrev pub plain : Outside
plain = record {
  trim_space = λ s. s;
  parse_address = λ s. some s;
  to_lower = λ s. s;
  random = some (1 ∷ 254 ∷ []);
  bcrypt = λ s. some s;
  compare = λ hash s. if same_text hash s then PasswordCheck.matches else PasswordCheck.mismatch;
}

abbrev pub vacant : Db
vacant = record empty { users = [] }

pub vacant-IsWellFormed : AccountsIsWellFormed vacant
vacant-IsWellFormed = record {
  fresh = λ u i. elim i [ ];
  keys = λ u v i j e. elim i [ ];
  owners = λ s i. elim i [ ];
  settled = λ u i. elim i [ ];
}

pub address_read : normalize_email plain "a@b.c" ≡ some "a@b.c"
unfolding normalize_email travelmap.Base.Text.same_text
address_read = refl

pub password_hashed : hash_password plain "password" ≡ some "password"
unfolding hash_password
password_hashed = refl

pub key_issued : new_api_key plain ≡ some "01fe"
unfolding new_api_key
key_issued = refl

pub unclaimed : any (clashes (account "a@b.c" "password" "01fe")) vacant.users ≡ false
unclaimed = refl

-- The database after the first registration.
abbrev claimed : Db
claimed = (register plain "a@b.c" "password" env (outside vacant)).1.db

claimed-IsWellFormed : AccountsIsWellFormed claimed
claimed-IsWellFormed =
    register-IsWellFormed plain "a@b.c" "password" env (outside vacant) refl vacant-IsWellFormed

taken : any (clashes (account "a@b.c" "password" "01fe")) claimed.users ≡ true
unfolding register travelmap.Store.Users.create travelmap.Store.Settings.create
    travelmap.Base.Text.same_text travelmap.Base.Text.same_nocase
taken = refl

register-succeeds_example :
    Returns
      (Registered "a@b.c" "password" "01fe" vacant)
      (register plain "a@b.c" "password" env (outside vacant))
register-succeeds_example =
    register-succeeds plain "a@b.c" "password" env env-Healthy (outside vacant) vacant-IsWellFormed
      "a@b.c" "password" "01fe" address_read password_hashed key_issued unclaimed

register-FailsWith_example :
    FailsWith conflict (outside claimed) (register plain "a@b.c" "password" env (outside claimed))
register-FailsWith_example =
    register-FailsWith plain "a@b.c" "password" env env-Healthy (outside claimed) refl
      claimed-IsWellFormed "a@b.c" "password" "01fe" address_read password_hashed key_issued taken

register-IsWellFormed_example :
    AccountsIsWellFormed (register plain "a@b.c" "short" env (outside claimed)).1.db
register-IsWellFormed_example =
    register-IsWellFormed plain "a@b.c" "short" env (outside claimed) refl claimed-IsWellFormed
