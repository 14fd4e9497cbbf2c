-- ===== src/Service/Urls/Writes.antt =====
-- What the write operations do to the table of links, and what a lookup by code sees after them.
use mathlib.Core.Path.{subst}
use url_copilot.Prelude.{
  All, Bool, Bool-cases, List, Option, Result, Result-cases, String, [], any_of, ap, arith, eq_iff,
  err, false, if◌then◌else◌, inl, inr, nat_beq_iff, nat_eq, ok, refl, some, string_eq, sym, true, ℕ,
  ◌==◌, ◌||◌, ◌∷◌, ◌≡◌, ◌≢◌, ◌⊎◌,
}
use url_copilot.Service.Urls.{
  Parsers, choose_code, create_short_url, get_short_url_by_code, is_valid_url, new_short_url, taken,
}
use url_copilot.Service.Urls.Codes.{choose_code-free, choose_code_error}
use url_copilot.Service.Db.{Db, Error, ShortUrl, User, add_short_url, integrity_error}

-- No two rows share an id or a code.
abbrev pub Clashes : ShortUrl → ShortUrl → Type 0
Clashes u v = (v.id ≡ u.id) ⊎ (v.short_code ≡ u.short_code)

abbrev pub AllDistinct : List ShortUrl → Type 0
AllDistinct [] = Unit
AllDistinct (u ∷ us) = All (λ v. ¬ Clashes u v) us × AllDistinct us

no_clash :
    (u : ShortUrl) (us : List ShortUrl)
    → any_of (λ v. v.id == u.id || v.short_code == u.short_code) us ≡ false
    → All (λ v. ¬ Clashes u v) us
no_clash u [] h = tt
no_clash u (v ∷ us) h = (
  λ c. ground (arith, nat_beq_iff v.id u.id, eq_iff v.short_code u.short_code),
  no_clash u us (ground arith),
)

abbrev clash_test : ShortUrl → ShortUrl → Bool
clash_test u v = v.id == u.id || v.short_code == u.short_code

add_short_url-eq-ok :
    (u : ShortUrl) (db : Db) {db' : Db}
    → add_short_url u db ≡ ok db'
    → (any_of (clash_test u) db.short_urls ≡ false)
      × (db' ≡ record db { short_urls = u ∷ db.short_urls })
unfolding add_short_url
add_short_url-eq-ok u db h = elim (Bool-cases (any_of (clash_test u) db.short_urls)) [
  | inl clash ↦ absurd (ground arith)
  | inr free ↦ (free, ground arith)
]

-- The only error of an insert is the integrity error, and a fresh id with a free code avoids it.
add_short_url_fresh :
    (u : ShortUrl) (us : List ShortUrl)
    → any_of (λ v. v.id == u.id) us ≡ false
    → any_of (λ v. v.short_code == u.short_code) us ≡ false
    → any_of (clash_test u) us ≡ false
add_short_url_fresh u [] i c = refl
add_short_url_fresh u (v ∷ us) i c = ground (arith, add_short_url_fresh u us)

-- A successful `create_short_url`, step by step.
create_short_url-eq-ok :
    (py : Parsers) (draw : ℕ → String) (id now : ℕ) (db : Db) (owner : User) (url : String)
    (alias : Option String) (expires_at : Option ℕ) {u : ShortUrl} {db' : Db}
    → create_short_url py draw id now db owner url alias expires_at ≡ ok (u, db')
    → (is_valid_url py url ≡ true)
      × (choose_code draw alias db ≡ ok u.short_code)
      × (u ≡ new_short_url id now owner u.short_code url expires_at)
      × (add_short_url u db ≡ ok db')
unfolding create_short_url
create_short_url-eq-ok py draw id now db owner url alias expires_at h = ground arith

module _ (py : Parsers) (draw : ℕ → String) (id now : ℕ) (db : Db) (owner : User) (url : String)
    (alias : Option String) (expires_at : Option ℕ) where
  abbrev created : Result Error (ShortUrl × Db)
  created = create_short_url py draw id now db owner url alias expires_at

  -- With an id that no row has, the unique constraints of the table never fail: every error of
  -- `create_short_url` is one that it raises itself, before it writes.
  pub create_short_url_no_integrity_error :
      any_of (λ v. v.id == id) db.short_urls ≡ false → created ≢ err integrity_error
  unfolding create_short_url add_short_url
  create_short_url_no_integrity_error fresh = elim (Result-cases (choose_code draw alias db)) [
    | inl (x, failed) ↦ ground (arith, choose_code_error draw alias db)
    | inr (code, chosen) ↦
        let u = new_short_url id now owner code url expires_at in
        ground
          (arith, add_short_url_fresh u db.short_urls fresh (choose_code-free draw alias db chosen))
  ]

  -- What a successful call leaves: a valid target, a code that resolved to nothing before and
  -- resolves to the new row now, every other code as it was, and the table free of clashes.
  pub create_short_url_effect :
      (u : ShortUrl) (db' : Db)
      → AllDistinct db.short_urls
      → created ≡ ok (u, db')
      → (is_valid_url py url ≡ true)
        × (u.original_url ≡ url)
        × (u.owner_id ≡ owner.id)
        × (taken u.short_code db ≡ false)
        × ((c : String)
            → get_short_url_by_code db' c
              ≡ (if c == u.short_code then some u else get_short_url_by_code db c))
        × AllDistinct db'.short_urls
  unfolding get_short_url_by_code
  create_short_url_effect u db' d h =
      let (valid, chosen, row, added) =
        create_short_url-eq-ok py draw id now db owner url alias expires_at h in
      let (free, table) = add_short_url-eq-ok u db added in
      (
        valid,
        ap (λ (v : ShortUrl). v.original_url) row,
        ap (λ (v : ShortUrl). v.owner_id) row,
        choose_code-free draw alias db chosen,
        λ c. ground (arith, eq_iff u.short_code c, eq_iff c u.short_code),
        subst (λ t. AllDistinct t.short_urls) (sym table) (no_clash u db.short_urls free, d),
      )
