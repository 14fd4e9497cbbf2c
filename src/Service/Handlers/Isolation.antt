-- ===== src/Service/Handlers/Isolation.antt =====
-- Nobody changes a link of somebody else.
use mathlib.Core.Path.{subst}
use url_copilot.Prelude.{
  All-In, Bool-cases, In, List, Option, Option-cases, Result-cases, String, [], ap, arith, first,
  first-In, first_sound, if◌then◌else◌, inl, inr, nat_beq_iff, nat_eq, none, ok, refl, some,
  string_eq, sym, update_where, update_where-In, ℕ, ◌&&◌, ◌==◌, ◌∙◌, ◌∷◌, ◌≡◌, ◌≢◌,
}
use url_copilot.Service.Db.{Db, ShortUrl, User, save_short_url}
use url_copilot.Service.Urls.{
  Parsers, delete_short_url, get_short_url_by_id, is_valid_url, set_expiry, set_target,
  update_short_url,
}
use url_copilot.Service.Urls.Writes.{AllDistinct, Clashes}
use url_copilot.Service.Accounts.{get_user_by_api_key, has_hash, is_user}
use url_copilot.Service.Handlers.{answer, delete_url, get_current_user, update_url}

get_current_user_keeps :
    (sha256 : String → String) (now : ℕ) (key : Option String) (db : Db)
    → (get_current_user sha256 now key db).1.short_urls ≡ db.short_urls
unfolding get_current_user get_user_by_api_key
get_current_user_keeps sha256 now none db = refl
get_current_user_keeps sha256 now (some key) db =
    elim (Option-cases (first (has_hash (sha256 key)) db.api_keys)) [
      | inl missing ↦ ground arith
      | inr (k, e) ↦ elim (Option-cases (first (is_user k.user_id) db.users)) [
        | inl nobody ↦ ground arith
        | inr (user, e') ↦ ground arith
      ]
    ]

-- in a table of distinct rows an id is the id of one row
id_unique :
    (us : List ShortUrl) (u v : ShortUrl) → AllDistinct us → In u us → In v us → u.id ≡ v.id → u ≡ v
id_unique [] u v d i j e = absurd i
id_unique (x ∷ xs) u v d (inl p) (inl q) e = p ∙ sym q
id_unique (x ∷ xs) u v d (inl p) (inr j) e =
    absurd (All-In (λ w. ¬ Clashes x w) xs v d.0 j (inl (sym e ∙ ap (λ w. w.id) p)))
id_unique (x ∷ xs) u v d (inr i) (inl q) e =
    absurd (All-In (λ w. ¬ Clashes x w) xs u d.0 i (inl (e ∙ ap (λ w. w.id) q)))
id_unique (x ∷ xs) u v d (inr i) (inr j) e = id_unique xs u v d.1 i j e

save_keeps_other :
    (db : Db) (u v : ShortUrl) (f : ShortUrl → ShortUrl)
    → v.id ≢ u.id
    → In v db.short_urls
    → In v (save_short_url u.id f db).short_urls
unfolding save_short_url
save_keeps_other db u v f other i =
    let p = λ (w : ShortUrl). w.id == u.id in
    elim (Bool-cases (p v)) [
      | inl same ↦ absurd (other ((nat_beq_iff v.id u.id).0 same))
      | inr apart ↦
          let kept : (if p v then f v else v) ≡ v = ground arith in
          subst (λ w. In w (update_where p f db.short_urls)) kept
            (update_where-In p f v db.short_urls i)
    ]

get_short_url_by_id_sound :
    (py : Parsers) (db : Db) (url_id : String) (user : User) (u : ShortUrl)
    → get_short_url_by_id py db url_id user ≡ some u
    → In u db.short_urls × (u.owner_id ≡ user.id)
unfolding get_short_url_by_id
get_short_url_by_id_sound py db url_id user u h = elim (Option-cases (py.uuid url_id)) [
  | inl bad ↦ absurd (ground arith)
  | inr (id, parsed) ↦
      let p = λ (v : ShortUrl). v.id == id && v.owner_id == user.id && v.is_active in
      let here : first p db.short_urls ≡ some u = ground arith in
      (
        first-In p db.short_urls here,
        ground (arith, first_sound p db.short_urls here, nat_beq_iff u.owner_id user.id),
      )
]

update_keeps_other :
    (py : Parsers) (db : Db) (u v : ShortUrl) (url : Option String) (t : Option ℕ)
    → v.id ≢ u.id
    → In v db.short_urls
    → In v (answer (update_short_url py db u url t) db).1.short_urls
unfolding update_short_url
update_keeps_other py db u v none t other i =
    save_keeps_other db u v (λ w. set_expiry t (set_target none w)) other i
update_keeps_other py db u v (some target) t other i =
    let change = λ (w : ShortUrl). set_expiry t (set_target (some target) w) in
    elim (Bool-cases (is_valid_url py target)) [
      | inl valid ↦
          let same : save_short_url u.id change db
              ≡ (answer (update_short_url py db u (some target) t) db).1 =
            ground arith in
          subst (λ d. In v d.short_urls) same (save_keeps_other db u v change other i)
      | inr invalid ↦
          let same : db ≡ (answer (update_short_url py db u (some target) t) db).1 = ground arith in
          subst (λ d. In v d.short_urls) same i
    ]

-- A row whose owner is not the one that the key authenticates.
abbrev pub IsForeign : (String → String) → ℕ → Option String → Db → ShortUrl → Type 0
IsForeign sha256 now key db v =
    (user : User) → (get_current_user sha256 now key db).0 ≡ ok user → v.owner_id ≢ user.id

module _ (sha256 : String → String) (py : Parsers) (now : ℕ) (key : Option String) (url_id : String)
    (db : Db) (v : ShortUrl) where
  -- Whatever key and id a request to update or to delete comes with, it leaves the row of every link
  -- that the key's user does not own as it was; a request without a valid key leaves all rows.
  pub foreign_links_untouched :
      (url : Option String) (expires_at : Option ℕ)
      → AllDistinct db.short_urls
      → In v db.short_urls
      → IsForeign sha256 now key db v
      → In v (update_url sha256 py now key url_id url expires_at db).1.short_urls
        × In v (delete_url sha256 py now key url_id db).1.short_urls
  unfolding update_url delete_url delete_short_url
  foreign_links_untouched url expires_at distinct i foreign =
      let end = (get_current_user sha256 now key db).1 in
      let kept = get_current_user_keeps sha256 now key db in
      let here = subst (In v) (sym kept) i in
      elim (Result-cases (get_current_user sha256 now key db).0) [
        | inl (x, refused) ↦
            let same_u : end ≡ (update_url sha256 py now key url_id url expires_at db).1 =
              ground arith in
            let same_d : end ≡ (delete_url sha256 py now key url_id db).1 = ground arith in
            (subst (λ d. In v d.short_urls) same_u here, subst (λ d. In v d.short_urls) same_d here)
        | inr (user, known) ↦ elim (Option-cases (get_short_url_by_id py end url_id user)) [
          | inl missing ↦
              let same_u : end ≡ (update_url sha256 py now key url_id url expires_at db).1 =
                ground arith in
              let same_d : end ≡ (delete_url sha256 py now key url_id db).1 = ground arith in
              (
                subst (λ d. In v d.short_urls) same_u here,
                subst (λ d. In v d.short_urls) same_d here,
              )
          | inr (u, e) ↦
              let (at_u, owned_u) = get_short_url_by_id_sound py end url_id user u e in
              let other : v.id ≢ u.id = λ same_id. foreign user known (
                ap (λ w. w.owner_id)
                  (id_unique db.short_urls v u distinct i (subst (In u) kept at_u) same_id)
                ∙ owned_u) in
              let same_u : (answer (update_short_url py end u url expires_at) end).1
                  ≡ (update_url sha256 py now key url_id url expires_at db).1 =
                ground arith in
              let same_d : delete_short_url end u ≡ (delete_url sha256 py now key url_id db).1 =
                ground arith in
              (
                subst (λ d. In v d.short_urls) same_u
                    (update_keeps_other py end u v url expires_at other here),
                subst (λ d. In v d.short_urls) same_d (save_keeps_other end u v _ other here),
              )
        ]
      ]
