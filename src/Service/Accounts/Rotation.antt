-- ===== src/Service/Accounts/Rotation.antt =====
-- What rotating a key does to the keys that authenticate.
use mathlib.Core.Path.{subst}
use url_copilot.Prelude.{
  All, Bool, Bool-cases, List, Option-cases, String, [], any_of, arith, eq_iff, false, first,
  first_sound, if◌then◌else◌, inl, inr, nat_beq_iff, nat_eq, none, not, ok, refl, some, string_eq,
  sym, update_where, ℕ, ◌&&◌, ◌==◌, ◌||◌, ◌∷◌, ◌≡◌, ◌≢◌,
}
use url_copilot.Service.Db.{ApiKey, Db, User}
use url_copilot.Service.Accounts.{
  Issued, add_api_key, belongs_to, generate_api_key, has_hash, is_user, new_api_key, rotate_api_key,
}
use url_copilot.Service.Accounts.Keys.{authenticate}

-- No two rows have one digest.
abbrev pub UniqueHashes : List ApiKey → Type 0
UniqueHashes [] = Unit
UniqueHashes (k ∷ ks) = All (λ j. j.key_hash ≢ k.key_hash) ks × UniqueHashes ks

abbrev off : ApiKey → ApiKey
off k = record k { is_active = false }

abbrev of_others : ℕ → String → ApiKey → Bool
of_others id hash k = has_hash hash k && not (k.user_id == id)

first-deactivate :
    (user : User) (hash : String) (ks : List ApiKey)
    → first (has_hash hash) (update_where (belongs_to user) off ks)
      ≡ first (of_others user.id hash) ks
first-deactivate user hash [] = refl
first-deactivate user hash (k ∷ ks) = ground (arith, first-deactivate user hash ks)

no_other :
    (id : ℕ) (hash : String) (ks : List ApiKey)
    → All (λ j. j.key_hash ≢ hash) ks
    → first (of_others id hash) ks ≡ none
no_other id hash [] a = refl
no_other id hash (k ∷ ks) a = elim (Bool-cases (k.key_hash == hash)) [
  | inl same ↦ absurd (a.0 ((eq_iff k.key_hash hash).0 same))
  | inr other ↦ ground (arith, no_other id hash ks a.1)
]

-- Of unique digests, the lookup that leaves one user out finds what the lookup finds, or nothing.
first-of_others :
    (id : ℕ) (hash : String) (ks : List ApiKey) (k : ApiKey)
    → UniqueHashes ks
    → first (has_hash hash) ks ≡ some k
    → first (of_others id hash) ks ≡ (if k.user_id == id then none else some k)
first-of_others id hash [] k u h = cc
first-of_others id hash (j ∷ ks) k u h = elim (Bool-cases (has_hash hash j)) [
  | inl here ↦
      let e : j.key_hash ≡ hash = ground (arith, eq_iff j.key_hash hash) in
      ground (arith, no_other id hash ks (subst (λ s. All (λ i. i.key_hash ≢ s) ks) e u.0))
  | inr later ↦ ground (arith, first-of_others id hash ks k u.1)
]

new_hash_absent :
    (id : ℕ) (user : User) (hash : String) (ks : List ApiKey)
    → any_of (λ j. j.id == id || j.key_hash == hash) (update_where (belongs_to user) off ks) ≡ false
    → first (has_hash hash) ks ≡ none
new_hash_absent id user hash [] h = refl
new_hash_absent id user hash (k ∷ ks) h = ground (arith, new_hash_absent id user hash ks)

module _ (sha256 : String → String) (token : String) (key_id : ℕ) (db : Db) (user : User)
    (issued : Issued) (db' : Db)
    (rotated : rotate_api_key sha256 token key_id db user ≡ ok (issued, db')) where
  rotated_table :
      (issued ≡ generate_api_key sha256 token)
      × (first (has_hash issued.key_hash) db.api_keys ≡ none)
      × (db'.api_keys
          ≡ new_api_key key_id user issued ∷ update_where (belongs_to user) off db.api_keys)
      × (db'.users ≡ db.users)
  unfolding rotate_api_key add_api_key
  rotated_table =
      let fresh = generate_api_key sha256 token in
      let keys = update_where (belongs_to user) off db.api_keys in
      elim (Bool-cases (any_of (λ j. j.id == key_id || j.key_hash == fresh.key_hash) keys)) [
        | inl clash ↦ absurd (ground arith)
        | inr free ↦
            let e : fresh ≡ issued = ground arith in
            (
              sym e,
              subst (λ (i : Issued). first (has_hash i.key_hash) db.api_keys ≡ none) e
                  (new_hash_absent key_id user fresh.key_hash db.api_keys free),
              subst
                  (λ i.
                    db'.api_keys
                    ≡ new_api_key key_id user i ∷ update_where (belongs_to user) off db.api_keys)
                  e (ground arith),
              ground arith,
            )
      ]

  -- After a rotation the new key authenticates the user. A key that authenticated the user before
  -- authenticates nobody, and a key of anybody else authenticates as before.
  pub rotate_api_key_effect :
      first (is_user user.id) db.users ≡ some user
      → UniqueHashes db.api_keys
      → (raw : String) (v : User) → authenticate sha256 db raw ≡ some v
      → (authenticate sha256 db' issued.raw_key ≡ some user)
        × (authenticate sha256 db' raw ≡ (if v.id == user.id then none else some v))
  unfolding authenticate generate_api_key
  rotate_api_key_effect current unique raw v h =
      let (made, absent, keys, users) = rotated_table in
      (
        ground (arith, eq_iff issued.key_hash (sha256 issued.raw_key)),
        elim (Option-cases (first (has_hash (sha256 raw)) db.api_keys)) [
          | inl missing ↦ absurd (ground arith)
          | inr (k, found) ↦
              let owner : first (is_user k.user_id) db.users ≡ some v = ground arith in
              elim (Bool-cases (issued.key_hash == sha256 raw)) [
                | inl same ↦
                    let e = (eq_iff issued.key_hash (sha256 raw)).0 same in
                    cc (subst (λ h. first (has_hash h) db.api_keys ≡ none) e absent)
                | inr other ↦ ground (
                  arith,
                  first-deactivate user (sha256 raw) db.api_keys,
                  first-of_others user.id (sha256 raw) db.api_keys k unique found,
                  first_sound (is_user k.user_id) db.users owner,
                  nat_beq_iff v.id k.user_id,
                )
              ]
        ],
      )
