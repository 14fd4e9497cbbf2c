-- ===== src/Service/Urls/Effects.antt =====
-- What a soft delete, a click and an update do to a lookup by code.
use mathlib.Core.Path.{subst}
use url_copilot.Prelude.{
  Bool-cases, In, Option, String, ap, arith, false, if◌then◌else◌, inl, inr, is_some, nat_eq, none,
  ok, refl, some, string_eq, true, ℕ, ◌+◌, ◌==◌, ◌∙◌, ◌≡◌,
}
use url_copilot.Service.Db.{Db, ShortUrl, save_short_url}
use url_copilot.Service.Urls.{
  Parsers, delete_short_url, get_short_url_by_code, increment_click_count, is_valid_url, set_expiry,
  set_target, taken, update_short_url,
}
use url_copilot.Service.Urls.Writes.{AllDistinct}
use url_copilot.Service.Urls.Saves.{KeepsKeys, get_short_url_by_code-save, save_keeps_table}

-- Deleting a link makes its code resolve to nothing and leaves every other code as it was. The row
-- stays, so that the code is still taken, and no two rows clash.
pub delete_short_url_effect :
    (db : Db) (u : ShortUrl)
    → AllDistinct db.short_urls
    → In u db.short_urls
    → ((c : String)
        → get_short_url_by_code (delete_short_url db u) c
          ≡ (if c == u.short_code then none else get_short_url_by_code db c))
      × AllDistinct (delete_short_url db u).short_urls
      × ((c : String) → taken c (delete_short_url db u) ≡ taken c db)
unfolding delete_short_url
delete_short_url_effect db u d i =
    let f = λ (v : ShortUrl). record v { is_active = false } in
    let k : KeepsKeys f = λ v. (refl, refl) in
    (
      λ c. get_short_url_by_code-save u f k db c d i,
      (save_keeps_table u f k db d).0,
      (save_keeps_table u f k db d).1,
    )

-- A click raises the counter of the row that the code resolves to by one, and nothing else that a
-- lookup by code can see.
pub increment_click_count_effect :
    (db : Db) (u : ShortUrl) (c : String)
    → AllDistinct db.short_urls
    → In u db.short_urls
    → u.is_active ≡ true
    → get_short_url_by_code (increment_click_count db u) c ≡ (
        if c == u.short_code
        then some (record u { click_count = u.click_count + 1 })
        else get_short_url_by_code db c)
unfolding increment_click_count
increment_click_count_effect db u c d i active =
    let f = λ (v : ShortUrl). record v { click_count = v.click_count + 1 } in
    get_short_url_by_code-save u f (λ v. (refl, refl)) db c d i ∙ rw active refl

update_keys :
    (url : Option String) (t : Option ℕ) → KeepsKeys (λ v. set_expiry t (set_target url v))
update_keys url t v = ground arith

abbrev change : Option String → Option ℕ → ShortUrl → ShortUrl
change url t v = set_expiry t (set_target url v)

update_short_url-eq-ok :
    (py : Parsers) (db : Db) (u v : ShortUrl) (url : Option String) (t : Option ℕ) (db' : Db)
    → update_short_url py db u url t ≡ ok (v, db')
    → (change url t u ≡ v)
      × (save_short_url u.id (change url t) db ≡ db')
      × ((target : String) → url ≡ some target → is_valid_url py target ≡ true)
unfolding update_short_url
update_short_url-eq-ok py db u v none t db' h = (ground arith, ground arith, λ target e. cc)
update_short_url-eq-ok py db u v (some url) t db' h = elim (Bool-cases (is_valid_url py url)) [
  | inl valid ↦ (ground arith, ground arith, λ target e. ground arith)
  | inr invalid ↦ absurd (ground arith)
]

active_change :
    (url : Option String) (t : Option ℕ) (u : ShortUrl) → (change url t u).is_active ≡ u.is_active
active_change url t u = ground arith

visible :
    (w v : ShortUrl) → w ≡ v → w.is_active ≡ true → (if w.is_active then some w else none) ≡ some v
visible w v e active = ground arith

abbrev pub ValidIfGiven : Parsers → Option String → Type 0
ValidIfGiven py none = Unit
ValidIfGiven py (some target) = is_valid_url py target ≡ true

valid_if_given :
    (py : Parsers) (url : Option String)
    → ((target : String) → url ≡ some target → is_valid_url py target ≡ true)
    → ValidIfGiven py url
valid_if_given py none h = tt
valid_if_given py (some target) h = h target refl

-- An update that succeeds is seen by the next lookup: the target is the new one, which is valid,
-- or the old one if none is given; and likewise the expiry, which no update can take away.
pub update_short_url_effect :
    (py : Parsers) (db : Db) (u v : ShortUrl) (url : Option String) (t : Option ℕ) (db' : Db)
    → AllDistinct db.short_urls
    → In u db.short_urls
    → u.is_active ≡ true
    → update_short_url py db u url t ≡ ok (v, db')
    → ((c : String)
        → get_short_url_by_code db' c
          ≡ (if c == u.short_code then some v else get_short_url_by_code db c))
      × (v.expires_at ≡ (if is_some t then t else u.expires_at))
      × (some v.original_url ≡ (if is_some url then url else some u.original_url))
      × ValidIfGiven py url
      × AllDistinct db'.short_urls
update_short_url_effect py db u v url t db' d i active h =
    let k : KeepsKeys (change url t) = update_keys url t in
    let (row, table, valid) = update_short_url-eq-ok py db u v url t db' h in
    let seen = λ (c : String). get_short_url_by_code-save u (change url t) k db c d i in
    (
      λ c.
          subst
            (λ b.
              get_short_url_by_code b c
              ≡ (if c == u.short_code then some v else get_short_url_by_code db c))
            table
            (seen c
              ∙ ap (λ x. if c == u.short_code then x else get_short_url_by_code db c)
                  (visible (change url t u) v row (active_change url t u ∙ active))),
      ground arith,
      ground arith,
      valid_if_given py url valid,
      subst (λ b. AllDistinct b.short_urls) table (save_keeps_table u (change url t) k db d).0,
    )
