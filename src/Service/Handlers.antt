-- ===== src/Service/Handlers.antt =====
-- service/api/deps.py and the handlers of service/api/v1/endpoints/urls.py. A handler gets its
-- parameters parsed by FastAPI; the links that it answers with are the rows themselves.
pub mod Isolation
use url_copilot.Prelude.{
  Bool, List, Option, Result, String, err, none, ok, or_raise, prefix_of, raise_if, some, ℕ,
}
use url_copilot.Service.Db.{
  Db, Error, ShortUrl, User, alias_taken, email_registered, integrity_error, invalid_alias,
  invalid_url, no_unique_code,
}
use url_copilot.Service.Urls.{
  Parsers, create_short_url, delete_short_url, get_short_url_by_id, list_short_urls,
  update_short_url,
}
use url_copilot.Service.Accounts.{get_user_by_api_key}
use url_copilot.Service.Limiter.{Redis, is_rate_limited}

-- The status of an HTTPException, or the 500 that an exception becomes which no handler catches.
pub data HttpError : Type 0 where
  unauthorized not_found unprocessable too_many_requests server_error : HttpError

unfoldable pub get_current_user :
    (String → String) → ℕ → Option String → Db → Result HttpError User × Db
get_current_user sha256 now none db = (err unauthorized, db)
get_current_user sha256 now (some key) db =
    let (user, db') = get_user_by_api_key sha256 now db key in (or_raise user unauthorized, db')

-- `check_rate_limit`: only the first 16 characters of the digest reach Redis
unfoldable pub check_rate_limit :
    {S : Type 0} → Redis S → ℕ → (String → String) → String → S → Result HttpError (Unit {0}) × S
check_rate_limit redis limit sha256 key s =
    let (limited, s') = is_rate_limited redis limit (prefix_of 16 (sha256 key)) s in
    (raise_if limited too_many_requests, s')

-- The handlers turn a ValueError into a 422.
abbrev pub answer_error : Error → HttpError
answer_error invalid_url = unprocessable
answer_error invalid_alias = unprocessable
answer_error alias_taken = unprocessable
answer_error email_registered = unprocessable
answer_error no_unique_code = server_error
answer_error integrity_error = server_error

abbrev pub answer : {A : Type 0} → Result Error (A × Db) → Db → Result HttpError A × Db
answer (ok (a, db')) db = (ok a, db')
answer (err x) db = (err (answer_error x), db)

-- A handler with the user that `Depends(get_current_user)` hands it.
abbrev pub as_user :
    {A : Type 0}
    → Result HttpError User × Db
    → (User → Db → Result HttpError A × Db)
    → Result HttpError A × Db
as_user (err x, db) handler = (err x, db)
as_user (ok user, db) handler = handler user db

module _ (sha256 : String → String) (py : Parsers) (now : ℕ) (key : Option String) where
  -- the rate limit is checked before: `check_rate_limit`
  unfoldable pub shorten_url :
      (ℕ → String) → ℕ → String → Option String → Option ℕ → Db → Result HttpError ShortUrl × Db
  shorten_url draw id url alias expires_at db =
      as_user (get_current_user sha256 now key db)
        λ user db1. answer (create_short_url py draw id now db1 user url alias expires_at) db1

  unfoldable pub list_urls : ℕ → ℕ → Bool → Db → Result HttpError (List ShortUrl × ℕ) × Db
  list_urls page limit active_only db =
      as_user (get_current_user sha256 now key db)
        λ user db1. (ok (list_short_urls db1 user page limit active_only), db1)

  unfoldable pub get_url : String → Db → Result HttpError ShortUrl × Db
  get_url url_id db =
      as_user (get_current_user sha256 now key db)
        λ user db1. (or_raise (get_short_url_by_id py db1 url_id user) not_found, db1)

  unfoldable pub update_url :
      String → Option String → Option ℕ → Db → Result HttpError ShortUrl × Db
  update_url url_id url expires_at db = as_user (get_current_user sha256 now key db) λ user db1.
      elim (get_short_url_by_id py db1 url_id user) [
        | none ↦ (err not_found, db1)
        | some u ↦ answer (update_short_url py db1 u url expires_at) db1
      ]

  unfoldable pub delete_url : String → Db → Result HttpError (Unit {0}) × Db
  delete_url url_id db = as_user (get_current_user sha256 now key db) λ user db1.
      elim (get_short_url_by_id py db1 url_id user) [
        | none ↦ (err not_found, db1)
        | some u ↦ (ok tt, delete_short_url db1 u)
      ]
