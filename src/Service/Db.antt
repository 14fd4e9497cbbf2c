-- ===== src/Service/Db.antt =====
-- The tables of the service (service/models/) and the session through which it writes them.
-- An id is a number that stands for a UUID, an instant a number of ticks.
use url_copilot.Prelude.{
  Bool, List, Option, Result, String, any_of, err, if◌then◌else◌, nat_eq, ok, string_eq,
  update_where, ℕ, ◌==◌, ◌||◌, ◌∷◌,
}

pub record User : Type 0 where
  pub id : ℕ
  pub email : String
  pub is_active : Bool

pub record ApiKey : Type 0 where
  pub id : ℕ
  pub user_id : ℕ
  pub key_hash : String
  pub key_prefix : String
  pub is_active : Bool
  pub last_used_at : Option ℕ

pub record ShortUrl : Type 0 where
  pub id : ℕ
  pub short_code : String
  pub original_url : String
  pub owner_id : ℕ
  pub created_at : ℕ
  pub expires_at : Option ℕ
  pub click_count : ℕ
  pub is_active : Bool

pub record ClickEvent : Type 0 where
  pub short_url_id : ℕ
  pub clicked_at : ℕ
  pub ip_hash : Option String
  pub user_agent : Option String
  pub device_type : Option String
  pub referrer : Option String
  pub country_code : Option String

pub record Db : Type 0 where
  pub users : List User
  pub api_keys : List ApiKey
  pub short_urls : List ShortUrl
  pub click_events : List ClickEvent

pub data Error : Type 0 where
  invalid_url invalid_alias alias_taken email_registered : Error
  no_unique_code : Error
  integrity_error : Error

-- `db.add(row); db.commit()` for a link: `id` is the primary key and `short_code` is unique.
unfoldable pub add_short_url : ShortUrl → Db → Result Error Db
add_short_url u db =
    if any_of (λ v. v.id == u.id || v.short_code == u.short_code) db.short_urls
    then err integrity_error
    else ok (record db { short_urls = u ∷ db.short_urls })

-- A change to the attributes of the link with this id, committed.
unfoldable pub save_short_url : ℕ → (ShortUrl → ShortUrl) → Db → Db
save_short_url id f db = record db { short_urls = update_where (λ v. v.id == id) f db.short_urls }
