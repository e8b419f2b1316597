-- ===== src/Auth.antt =====
-- internal/auth and internal/model/user.go: the credentials of an account, and `Register`.
pub mod Tests
pub mod Accounts
pub mod Registered
use Prim.Native.String
use Prim.Native.String.{len, char_at}
use travelmap.Base.{
  ℕ, ◌/◌, ◌%◌, String, Bool, Option, none, some, List, [], ◌∷◌, if◌then◌else◌, ltb, ◌==◌,
}
use travelmap.Base.Text.{same_text}
use travelmap.Model.{User}
use travelmap.Model.Settings.{default_settings}
use travelmap.Exec.{pure, raise, refused, tx, ◌>>=◌, ◌>>◌}
use travelmap.Store.{Action}
use travelmap.Store.Users
use travelmap.Store.Settings

-- bcrypt.CompareHashAndPassword: `broken` is an error other than a mismatch.
pub data PasswordCheck : Type 0 where
  matches mismatch broken : PasswordCheck

-- net/mail, strings, crypto/rand and bcrypt. `parse_address` is the address that mail.ParseAddress
-- reads; `random` and `bcrypt` are what one call of each gives, none if it fails.
pub record Outside : Type 0 where
  pub trim_space : String → String
  pub parse_address : String → Option String
  pub to_lower : String → String
  pub random : Option (List ℕ)
  pub bcrypt : String → Option String
  pub compare : String → String → PasswordCheck

unfoldable pub bare_address : Outside → String → Option String → Option String
bare_address o trimmed none = none
bare_address o trimmed (some address) =
    if same_text address trimmed then some (o.to_lower address) else none

unfoldable pub normalize_email : Outside → String → Option String
unfolding bare_address
normalize_email o raw =
    if same_text (o.trim_space raw) ""
    then none
    else bare_address o (o.trim_space raw) (o.parse_address (o.trim_space raw))

abbrev pub digits : String
digits = "0123456789abcdef"

-- hex.EncodeToString
unfoldable pub hex : List ℕ → String
hex [] = ""
hex (b ∷ bs) = String.◌∷◌ (char_at digits (b / 16)) (String.◌∷◌ (char_at digits (b % 16)) (hex bs))

unfoldable pub new_api_key : Outside → Option String
unfolding hex
new_api_key o = elim o.random [ none ↦ none | some bytes ↦ some (hex bytes) ]

abbrev pub min_password_length : ℕ
min_password_length = 8

abbrev pub max_password_length : ℕ
max_password_length = 72

-- validatePassword: the length is in bytes.
unfoldable pub validate_password : String → Bool
validate_password password =
    if ltb (len password) min_password_length
    then Bool.false
    else if ltb max_password_length (len password)
    then Bool.false
    else Bool.true

unfoldable pub hash_password : Outside → String → Option String
unfolding validate_password
hash_password o password = if validate_password password then o.bcrypt password else none

unfoldable pub check_password : Outside → String → String → PasswordCheck
check_password o hash password = o.compare hash password

-- Whatever the comparison with the digest of a random password says.
unfoldable pub check_absent_password : Outside → String → String → PasswordCheck
unfolding check_password
check_absent_password o absent_hash password = elim (check_password o absent_hash password) [
  | matches ↦ mismatch
  | mismatch ↦ mismatch
  | broken ↦ broken
]

-- The transaction of `Register`.
unfoldable pub store_account : String → String → String → Action User
unfolding tx ◌>>=◌ default_settings
store_account address hash key = tx do
  created ← Users.create (record {
    id = 0;
    email = address;
    password_hash = hash;
    api_key = key;
    created_at = 0;
    updated_at = 0;
  })
  Settings.create (default_settings created.id)
  pure created

abbrev pub with_credentials : Option String → Option String → Option String → Action User
with_credentials none hash key = raise refused
with_credentials (some address) none key = raise refused
with_credentials (some address) (some hash) none = raise refused
with_credentials (some address) (some hash) (some key) = store_account address hash key

unfoldable pub register : Outside → String → String → Action User
unfolding normalize_email hash_password new_api_key store_account
register o email password =
    with_credentials (normalize_email o email) (hash_password o password) (new_api_key o)
