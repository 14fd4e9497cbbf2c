-- ===== src/Service/Redirect.antt =====
-- service/api/v1/endpoints/redirect.py. SHA-256 and the user-agent parser are parameters; a fault of
-- the database while the click is recorded is an argument.
pub mod Answers
use url_copilot.Prelude.{
  Bool, Option, String, if◌then◌else◌, nat_eq, none, some, string_eq, ℕ, ◌==◌,
}
use url_copilot.Service.Db.{Db, ShortUrl}
use url_copilot.Service.Urls.{get_short_url_by_code, increment_click_count, is_expired}
use url_copilot.Service.Analytics.{record_click}

-- what the parser says of a User-Agent
pub record Agent : Type 0 where
  pub is_bot : Bool
  pub is_mobile : Bool
  pub is_tablet : Bool

-- `_detect_device`; `none` stands for an exception of the parser
unfoldable pub detect_device : (String → Option Agent) → Option String → String
detect_device parse none = "unknown"
detect_device parse (some user_agent) =
    if user_agent == "" then "unknown" else elim (parse user_agent) [
      | none ↦ "unknown"
      | some ua ↦
          if ua.is_bot
          then "bot"
          else if ua.is_mobile
          then "mobile"
          else if ua.is_tablet
          then "tablet"
          else "desktop"
    ]

-- the parts of the request that the handler reads
pub record Visit : Type 0 where
  pub host : Option String
  pub user_agent : Option String
  pub referer : Option String

-- At which of its two commits the recording of a click fails, if at one.
pub data Fault : Type 0 where
  no_fault click_lost count_lost : Fault

pub data Answer : Type 0 where
  found : String → Answer
  not_found gone : Answer

-- `hexdigest() if raw_ip else None`
abbrev pub hash_of : (String → String) → Option String → Option String
hash_of sha256 none = none
hash_of sha256 (some ip) = if ip == "" then none else some (sha256 ip)

-- the `try` block: the click and then the counter
unfoldable pub record_visit :
    (String → String) → (String → Option Agent) → Fault → ℕ → Visit → ShortUrl → Db → Db
record_visit sha256 parse click_lost now visit u db = db
record_visit sha256 parse count_lost now visit u db =
    record_click db now u (hash_of sha256 visit.host) visit.user_agent
      (some (detect_device parse visit.user_agent)) visit.referer none
record_visit sha256 parse no_fault now visit u db =
    increment_click_count
      (record_click db now u (hash_of sha256 visit.host) visit.user_agent
        (some (detect_device parse visit.user_agent)) visit.referer none)
      u

-- `redirect`
unfoldable pub redirect :
    (String → String) → (String → Option Agent) → Fault → ℕ → Visit → Db → String → Answer × Db
redirect sha256 parse fault now visit db code = elim (get_short_url_by_code db code) [
  | none ↦ (not_found, db)
  | some u ↦
      if is_expired u now
      then (gone, db)
      else (found u.original_url, record_visit sha256 parse fault now visit u db)
]
