-- ===== src/Tests/Links.antt =====
-- Runs of service/services/url_service.py and service/core/url_generator.py.
use mathlib.Core.List.{Perm}
use url_copilot.Prelude.{
  In, List, String, [], arith, codes, eq_iff, err, false, if◌then◌else◌, inl, inr, length, nat_eq,
  none, ok, refl, some, string_eq, true, ℕ, ◌*◌, ◌++◌, ◌==◌, ◌↔◌, ◌∷◌, ◌≡◌, ◌≤◌, ◌⊎◌,
}
use url_copilot.Service.Db.{Db, ShortUrl, User, add_short_url, invalid_url, save_short_url}
use url_copilot.Service.Alias.{
  IsSlugText, alias_rule, at_end, is_alnum, is_slug, is_valid_custom_alias, match_alias, match_last,
  match_rest,
}
use url_copilot.Service.Urls.{
  Parsers, choose_code, create_short_url, generate_unique_code, get_short_url_by_code, is_valid_url,
  list_short_urls, new_short_url, owned, update_short_url,
}
use url_copilot.Service.Urls.Writes.{AllDistinct, Clashes, create_short_url_effect}
use url_copilot.Service.Urls.Effects.{update_short_url_effect}
use url_copilot.Service.Urls.Pages.{pages, pages_cover}
use url_copilot.Service.Accounts.{get_user_by_api_key}
use url_copilot.Service.Handlers.{delete_url, get_current_user, update_url}
use url_copilot.Service.Handlers.Isolation.{IsForeign, foreign_links_untouched}

abbrev pub py : Parsers
py = record {
  urlparse = λ url.
      if url == "https://a.io/x"
      then some ("https", "a.io")
      else if url == "ftp://a.io"
      then some ("ftp", "a.io")
      else none;
  uuid = λ s. if s == "1" then some 1 else if s == "2" then some 2 else none;
}

abbrev pub alice : User
alice = record { id = 7; email = "alice@a.io"; is_active = true }

abbrev pub bob : User
bob = record { id = 8; email = "bob@a.io"; is_active = true }

abbrev pub link : ℕ → String → ℕ → ℕ → ShortUrl
link id code owner created = record {
  id = id;
  short_code = code;
  original_url = "https://a.io/x";
  owner_id = owner;
  created_at = created;
  expires_at = some 100;
  click_count = 0;
  is_active = true;
}

abbrev pub first_link : ShortUrl
first_link = link 1 "abc" 7 10

abbrev pub second_link : ShortUrl
second_link = link 2 "xyz" 8 20

abbrev pub db : Db
db = record {
  users = alice ∷ bob ∷ [];
  api_keys =
      record {
        id = 1;
        user_id = 7;
        key_hash = "sk_one";
        key_prefix = "sk_one";
        is_active = true;
        last_used_at = none;
      }
      ∷ [];
  short_urls = second_link ∷ first_link ∷ [];
  click_events = [];
}

rows_apart : ¬ Clashes second_link first_link
rows_apart (inl e) = absurd (omega (arith, e))
rows_apart (inr e) = absurd (ground (arith, (eq_iff "abc" "xyz").1 e))

pub db-AllDistinct : AllDistinct db.short_urls
db-AllDistinct = ((rows_apart, tt), (tt, tt))

pub first_link-In : In first_link db.short_urls
first_link-In = inr (inl refl)

-- codes drawn: the first is taken
abbrev draw : ℕ → String
draw n = if n == 0 then "abc" else "fresh"

good_alias : is_valid_custom_alias "my-link" ≡ true
unfolding is_valid_custom_alias match_alias match_rest match_last is_alnum is_slug at_end
good_alias = refl

-- the pattern's `$` lets a newline at the end through
newline_alias : is_valid_custom_alias "my-link\n" ≡ true
unfolding is_valid_custom_alias match_alias match_rest match_last is_alnum is_slug at_end
newline_alias = refl

bad_alias : is_valid_custom_alias "-link" ≡ false
unfolding is_valid_custom_alias match_alias match_rest match_last is_alnum is_slug at_end
bad_alias = refl

alias_rule_example : (is_valid_custom_alias "my-link\n" ≡ true) ↔ (
    (s : List ℕ) × IsSlugText s
    × (length (codes "my-link\n") ≤ 32)
    × ((codes "my-link\n" ≡ s) ⊎ (codes "my-link\n" ≡ s ++ 10 ∷ [])))
alias_rule_example = alias_rule "my-link\n"

second_draw : generate_unique_code draw 0 5 db ≡ ok "fresh"
unfolding generate_unique_code
second_draw = refl

abbrev made : ShortUrl
made = new_short_url 3 30 alice "fresh" "https://a.io/x" none

creates :
    create_short_url py draw 3 30 db alice "https://a.io/x" none none
    ≡ ok (made, record db { short_urls = made ∷ db.short_urls })
unfolding create_short_url choose_code generate_unique_code is_valid_url add_short_url
creates = refl

refuses_scheme : create_short_url py draw 3 30 db alice "ftp://a.io" none none ≡ err invalid_url
unfolding create_short_url choose_code generate_unique_code is_valid_url add_short_url
refuses_scheme = refl

create_short_url_effect_example :
    get_short_url_by_code (record db { short_urls = made ∷ db.short_urls }) "fresh" ≡ some made
create_short_url_effect_example =
    (create_short_url_effect py draw 3 30 db alice "https://a.io/x" none none made
        (record db { short_urls = made ∷ db.short_urls }) db-AllDistinct creates).4
      "fresh"

abbrev later_link : ShortUrl
later_link = record first_link { expires_at = some 200 }

updates :
    update_short_url py db first_link none (some 200)
    ≡ ok (later_link, record db { short_urls = second_link ∷ later_link ∷ [] })
unfolding update_short_url save_short_url
updates = refl

update_short_url_effect_example :
    get_short_url_by_code (record db { short_urls = second_link ∷ later_link ∷ [] }) "abc"
    ≡ some later_link
update_short_url_effect_example =
    (update_short_url_effect py db first_link later_link none (some 200)
        (record db { short_urls = second_link ∷ later_link ∷ [] }) db-AllDistinct first_link-In refl
        updates).0
      "abc"

one_page : (list_short_urls db alice 1 5 true).1 ≤ 1 * 5
unfolding list_short_urls owned
one_page = omega arith

pages_cover_example : Perm (pages db alice 5 true 1 1) (owned db alice true)
pages_cover_example = (pages_cover db alice 5 true 1 one_page).0

-- bob has no key, and the only key is alice's
second_link-IsForeign : IsForeign (λ s. s) 50 (some "sk_one") db second_link
unfolding get_current_user get_user_by_api_key
second_link-IsForeign user h e = ground arith

foreign_links_untouched_example :
    In second_link (update_url (λ s. s) py 50 (some "sk_one") "2" none (some 200) db).1.short_urls
    × In second_link (delete_url (λ s. s) py 50 (some "sk_one") "2" db).1.short_urls
foreign_links_untouched_example =
    foreign_links_untouched (λ s. s) py 50 (some "sk_one") "2" db second_link none (some 200)
      db-AllDistinct (inl refl) second_link-IsForeign
