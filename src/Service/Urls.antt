-- ===== src/Service/Urls.antt =====
-- service/services/url_service.py. `urlparse` and `uuid.UUID` are Python's, and enter as
-- parameters that give `none` where they raise; the short codes that `shortuuid` draws, the id of a
-- new row and the clock are arguments.
pub mod Codes
pub mod Writes
pub mod Saves
pub mod Effects
pub mod Pages
use url_copilot.Prelude.{
  Bool, List, Option, Result, String, [], any_of, drop, err, false, first, if◌then◌else◌, length,
  ltb, nat_eq, none, not, ok, raise_if, select, some, string_eq, suc, take, true, zero, ℕ, ◌&&◌,
  ◌*◌, ◌+◌, ◌-◌, ◌==◌, ◌>>=◌, ◌>>◌, ◌||◌, ◌∷◌,
}
use url_copilot.Service.Alias.{is_valid_custom_alias}
use url_copilot.Service.Db.{
  Db, Error, ShortUrl, User, add_short_url, alias_taken, invalid_alias, invalid_url, no_unique_code,
  save_short_url,
}

pub record Parsers : Type 0 where
  -- the scheme and the netloc
  pub urlparse : String → Option (String × String)
  pub uuid : String → Option ℕ

unfoldable pub is_valid_url : Parsers → String → Bool
is_valid_url py url = elim (py.urlparse url) [
  | none ↦ false
  | some parsed ↦ (parsed.0 == "http" || parsed.0 == "https") && not (parsed.1 == "")
]

-- the row with this code, active or not
abbrev pub taken : String → Db → Bool
taken code db = any_of (λ v. v.short_code == code) db.short_urls

-- `_generate_unique_code`: `draw n` is the n-th code drawn, and `attempts` the rounds left
unfoldable pub generate_unique_code : (ℕ → String) → ℕ → ℕ → Db → Result Error String
generate_unique_code draw n zero db = err no_unique_code
generate_unique_code draw n (suc attempts) db =
    let rest = generate_unique_code draw (n + 1) attempts db in
    if taken (draw n) db then rest else ok (draw n)

abbrev pub max_attempts : ℕ
max_attempts = 5

-- the `if custom_alias is not None` of `create_short_url`
unfoldable pub choose_code : (ℕ → String) → Option String → Db → Result Error String
choose_code draw none db = generate_unique_code draw 0 max_attempts db
choose_code draw (some alias) db = do
  raise_if (not (is_valid_custom_alias alias)) invalid_alias
  raise_if (taken alias db) alias_taken
  ok alias

abbrev pub new_short_url : ℕ → ℕ → User → String → String → Option ℕ → ShortUrl
new_short_url id now owner code url expires_at = record {
  id = id;
  short_code = code;
  original_url = url;
  owner_id = owner.id;
  created_at = now;
  expires_at = expires_at;
  click_count = 0;
  is_active = true;
}

unfoldable pub create_short_url :
    Parsers
    → (ℕ → String)
    → ℕ
    → ℕ
    → Db
    → User
    → String
    → Option String
    → Option ℕ
    → Result Error (ShortUrl × Db)
create_short_url py draw id now db owner url alias expires_at = do
  raise_if (not (is_valid_url py url)) invalid_url
  code ← choose_code draw alias db
  let u = new_short_url id now owner code url expires_at
  db' ← add_short_url u db
  ok (u, db')

abbrev pub set_expiry : Option ℕ → ShortUrl → ShortUrl
set_expiry none u = u
set_expiry (some t) u = record u { expires_at = some t }

abbrev pub set_target : Option String → ShortUrl → ShortUrl
set_target none u = u
set_target (some url) u = record u { original_url = url }

unfoldable pub update_short_url :
    Parsers → Db → ShortUrl → Option String → Option ℕ → Result Error (ShortUrl × Db)
update_short_url py db u url expires_at =
    let change = λ (v : ShortUrl). set_expiry expires_at (set_target url v) in
    let saved : Result Error (ShortUrl × Db) = ok (change u, save_short_url u.id change db) in
    elim url [
      | none ↦ saved
      | some target ↦ if not (is_valid_url py target) then err invalid_url else saved
    ]

unfoldable pub delete_short_url : Db → ShortUrl → Db
unfolding save_short_url
delete_short_url db u = save_short_url u.id (λ v. record v { is_active = false }) db

unfoldable pub increment_click_count : Db → ShortUrl → Db
unfolding save_short_url
increment_click_count db u =
    save_short_url u.id (λ v. record v { click_count = v.click_count + 1 }) db

unfoldable pub get_short_url_by_code : Db → String → Option ShortUrl
get_short_url_by_code db code = first (λ v. v.short_code == code && v.is_active) db.short_urls

unfoldable pub get_short_url_by_id : Parsers → Db → String → User → Option ShortUrl
get_short_url_by_id py db url_id owner = elim (py.uuid url_id) [
  | none ↦ none
  | some id ↦ first (λ v. v.id == id && v.owner_id == owner.id && v.is_active) db.short_urls
]

-- ORDER BY created_at DESC
abbrev pub insert_newest : ShortUrl → List ShortUrl → List ShortUrl
insert_newest u [] = u ∷ []
insert_newest u (v ∷ vs) =
    if ltb u.created_at v.created_at then v ∷ insert_newest u vs else u ∷ v ∷ vs

abbrev pub newest_first : List ShortUrl → List ShortUrl
newest_first [] = []
newest_first (u ∷ us) = insert_newest u (newest_first us)

-- the rows of `query`, with the filter on `is_active` if it is asked for
unfoldable pub owned : Db → User → Bool → List ShortUrl
owned db owner active_only =
    select (λ v. v.owner_id == owner.id && (not active_only || v.is_active)) db.short_urls

-- the handler requires `page` and `limit` to be 1 or more
unfoldable pub list_short_urls : Db → User → ℕ → ℕ → Bool → List ShortUrl × ℕ
unfolding owned
list_short_urls db owner page limit active_only =
    let rows = owned db owner active_only in
    (take limit (drop ((page - 1) * limit) (newest_first rows)), length rows)

unfoldable pub is_expired : ShortUrl → ℕ → Bool
is_expired u now = elim u.expires_at [ none ↦ false | some t ↦ ltb t now ]
