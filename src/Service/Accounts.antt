-- ===== src/Service/Accounts.antt =====
-- service/core/security.py and service/services/auth_service.py. SHA-256 is the parameter `sha256`
-- (a hex digest), and the random token, the ids of new rows and the clock are arguments.
pub mod Keys
pub mod Rotation
pub mod Registration
use url_copilot.Prelude.{
  Bool, Option, Result, String, any_of, concat, err, false, first, if◌then◌else◌, nat_eq, none, ok,
  prefix_of, raise_if, some, string_eq, true, update_where, ℕ, ◌&&◌, ◌==◌, ◌>>=◌, ◌>>◌, ◌||◌, ◌∷◌,
}
use url_copilot.Service.Db.{ApiKey, Db, Error, User, email_registered, integrity_error}

pub record Issued : Type 0 where
  pub raw_key : String
  pub key_hash : String
  pub key_prefix : String

-- `token` is what `secrets.token_urlsafe` returned
unfoldable pub generate_api_key : (String → String) → String → Issued
generate_api_key sha256 token =
    let raw = concat "sk_" token in
    record { raw_key = raw; key_hash = sha256 raw; key_prefix = prefix_of 8 raw }

unfoldable pub verify_api_key : (String → String) → String → String → Bool
verify_api_key sha256 raw_key stored_hash = sha256 raw_key == stored_hash

abbrev pub new_api_key : ℕ → User → Issued → ApiKey
new_api_key id user issued = record {
  id = id;
  user_id = user.id;
  key_hash = issued.key_hash;
  key_prefix = issued.key_prefix;
  is_active = true;
  last_used_at = none;
}

-- the unique constraints of the two tables
unfoldable pub add_api_key : ApiKey → Db → Result Error Db
add_api_key k db =
    if any_of (λ j. j.id == k.id || j.key_hash == k.key_hash) db.api_keys
    then err integrity_error
    else ok (record db { api_keys = k ∷ db.api_keys })

unfoldable pub add_user : User → Db → Result Error Db
add_user u db =
    if any_of (λ v. v.id == u.id || v.email == u.email) db.users
    then err integrity_error
    else ok (record db { users = u ∷ db.users })

-- One transaction: a failed commit leaves neither row.
unfoldable pub register_user :
    (String → String) → String → ℕ → ℕ → Db → String → Result Error (User × Issued × Db)
register_user sha256 token user_id key_id db email = do
  raise_if (any_of (λ v. v.email == email) db.users) email_registered
  let user : User = record { id = user_id; email = email; is_active = true }
  let issued = generate_api_key sha256 token
  db' ← add_user user db
  db'' ← add_api_key (new_api_key key_id user issued) db'
  ok (user, issued, db'')

abbrev pub has_hash : String → ApiKey → Bool
has_hash hash k = k.key_hash == hash && k.is_active

abbrev pub is_user : ℕ → User → Bool
is_user id u = u.id == id && u.is_active

abbrev pub touch : ℕ → ℕ → Db → Db
touch id now db = record db {
  api_keys = update_where (λ k. k.id == id) (λ k. record k { last_used_at = some now }) db.api_keys;
}

unfoldable pub get_user_by_api_key : (String → String) → ℕ → Db → String → Option User × Db
get_user_by_api_key sha256 now db raw_key = elim (first (has_hash (sha256 raw_key)) db.api_keys) [
  | none ↦ (none, db)
  | some k ↦ elim (first (is_user k.user_id) db.users) [
    | none ↦ (none, db)
    | some user ↦ (some user, touch k.id now db)
  ]
]

abbrev pub belongs_to : User → ApiKey → Bool
belongs_to user k = k.user_id == user.id && k.is_active

-- the UPDATE of `rotate_api_key`
abbrev pub deactivate_keys : User → Db → Db
deactivate_keys user db = record db {
  api_keys = update_where (belongs_to user) (λ k. record k { is_active = false }) db.api_keys;
}

unfoldable pub rotate_api_key :
    (String → String) → String → ℕ → Db → User → Result Error (Issued × Db)
rotate_api_key sha256 token key_id db user = do
  let issued = generate_api_key sha256 token
  db' ← add_api_key (new_api_key key_id user issued) (deactivate_keys user db)
  ok (issued, db')
