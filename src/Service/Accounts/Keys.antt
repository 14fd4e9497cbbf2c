-- ===== src/Service/Accounts/Keys.antt =====
-- Whom a key authenticates, and what registration changes.
use url_copilot.Prelude.{
  In, Option, Option-cases, String, arith, eq_iff, first, first-In, first_sound, inl, inr,
  nat_beq_iff, none, some, true, ℕ, ◌≡◌,
}
use url_copilot.Service.Db.{ApiKey, Db, User}
use url_copilot.Service.Accounts.{get_user_by_api_key, has_hash, is_user}

-- The user whom `get_user_by_api_key` returns.
unfoldable pub authenticate : (String → String) → Db → String → Option User
authenticate sha256 db raw_key = elim (first (has_hash (sha256 raw_key)) db.api_keys) [
  | none ↦ none
  | some k ↦ first (is_user k.user_id) db.users
]

pub get_user_by_api_key-authenticate :
    (sha256 : String → String) (now : ℕ) (db : Db) (raw_key : String)
    → (get_user_by_api_key sha256 now db raw_key).0 ≡ authenticate sha256 db raw_key
unfolding get_user_by_api_key authenticate
get_user_by_api_key-authenticate sha256 now db raw_key = ground arith

module _ (sha256 : String → String) (now : ℕ) (db : Db) where
  -- A key authenticates an active user who owns an active row with its digest, and only such a
  -- user.
  pub get_user_by_api_key_sound :
      (raw_key : String) (u : User)
      → (get_user_by_api_key sha256 now db raw_key).0 ≡ some u
      → (u.is_active ≡ true)
        × In u db.users
        × ((k : ApiKey) × In k db.api_keys
            × (k.key_hash ≡ sha256 raw_key)
            × (k.is_active ≡ true)
            × (k.user_id ≡ u.id))
  unfolding get_user_by_api_key
  get_user_by_api_key_sound raw_key u h =
      elim (Option-cases (first (has_hash (sha256 raw_key)) db.api_keys)) [
        | inl missing ↦ absurd (ground arith)
        | inr (k, found) ↦
            let owner : first (is_user k.user_id) db.users ≡ some u = ground arith in
            let key = first_sound (has_hash (sha256 raw_key)) db.api_keys found in
            let user = first_sound (is_user k.user_id) db.users owner in
            (
              ground arith,
              first-In (is_user k.user_id) db.users owner,
              (
                k,
                first-In (has_hash (sha256 raw_key)) db.api_keys found,
                ground (arith, eq_iff k.key_hash (sha256 raw_key)),
                ground arith,
                ground (arith, nat_beq_iff u.id k.user_id),
              ),
            )
      ]
