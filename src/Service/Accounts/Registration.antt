-- ===== src/Service/Accounts/Registration.antt =====
-- What registering a user changes.
use url_copilot.Prelude.{
  ==_refl, Bool, Bool-cases, String, any_of, arith, eq_iff, err, false, inl, inr, nat_beq_iff,
  nat_eq, ok, refl, some, string_eq, true, ℕ, ◌==◌, ◌||◌, ◌∷◌, ◌≡◌,
}
use url_copilot.Service.Db.{Db, User, email_registered}
use url_copilot.Service.Accounts.{
  Issued, add_api_key, add_user, generate_api_key, new_api_key, register_user,
}
use url_copilot.Service.Accounts.Keys.{authenticate}

module _ (sha256 : String → String) (token : String) (user_id key_id : ℕ) (db : Db)
    (email : String) where
  abbrev fresh_user : User
  fresh_user = record { id = user_id; email = email; is_active = true }

  abbrev fresh_key : Issued
  fresh_key = generate_api_key sha256 token

  abbrev email_test : Bool
  email_test = any_of (λ v. v.email == email) db.users

  registered_table :
      (u : User) (issued : Issued) (db' : Db)
      → register_user sha256 token user_id key_id db email ≡ ok (u, issued, db')
      → (email_test ≡ false)
        × (u ≡ fresh_user)
        × (issued ≡ fresh_key)
        × (db'.users ≡ fresh_user ∷ db.users)
        × (db'.api_keys ≡ new_api_key key_id fresh_user fresh_key ∷ db.api_keys)
  unfolding register_user add_user add_api_key
  registered_table u issued db' h = elim (Bool-cases email_test) [
    | inl taken ↦ absurd (ground arith)
    | inr free ↦ elim (Bool-cases (any_of (λ v. v.id == user_id || v.email == email) db.users)) [
      | inl clash ↦ absurd (ground arith)
      | inr new_row ↦
          elim (Bool-cases
            (any_of (λ j. j.id == key_id || j.key_hash == fresh_key.key_hash) db.api_keys)) [
              | inl clash ↦ absurd (ground arith)
              | inr new_key ↦ (free, ground arith, ground arith, ground arith, ground arith)
            ]
    ]
  ]

  -- A registration that succeeds is for an email that nobody had. It returns the new user and a key
  -- that authenticates this user, and the next registration of the same email is refused, whatever
  -- token and ids it draws.
  pub register_user_effect :
      (u : User) (issued : Issued) (db' : Db)
      → register_user sha256 token user_id key_id db email ≡ ok (u, issued, db')
      → (u.email ≡ email)
        × (any_of (λ v. v.email == email) db.users ≡ false)
        × (authenticate sha256 db' issued.raw_key ≡ some u)
        × ((token' : String) (i j : ℕ)
            → register_user sha256 token' i j db' email ≡ err email_registered)
  unfolding register_user authenticate generate_api_key
  register_user_effect u issued db' h =
      let (free, user, key, users, keys) = registered_table u issued db' h in
      (
        ground arith,
        free,
        ground
            (arith, eq_iff fresh_key.key_hash (sha256 issued.raw_key), nat_beq_iff user_id user_id),
        λ token' i j. rw users (rw (==_refl email) refl),
      )
