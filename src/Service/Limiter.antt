-- ===== src/Service/Limiter.antt =====
-- service/core/rate_limiter.py. Redis is a parameter: a state with the three commands that are used.
pub mod Quota
use url_copilot.Prelude.{
  Bool, Option, String, concat, if◌then◌else◌, ltb, nat_eq, none, some, string_eq, ℕ, ◌-◌, ◌==◌,
}

pub record Redis (S : Type 0) : Type 0 where
  -- INCR gives the new count
  pub incr : String → S → ℕ × S
  pub expire : String → ℕ → S → S
  pub get : String → S → Option ℕ

abbrev pub key_ttl_seconds : ℕ
key_ttl_seconds = 60

abbrev pub redis_key : String → String
redis_key identifier = concat "rl:" identifier

module _ {S : Type 0} (redis : Redis S) (limit : ℕ) where
  -- `limit` is `settings.rate_limit_per_minute`
  unfoldable pub is_rate_limited : String → S → Bool × S
  is_rate_limited identifier s =
      let (count, s') = redis.incr (redis_key identifier) s in
      (
        ltb limit count,
        if count == 1 then redis.expire (redis_key identifier) key_ttl_seconds s' else s',
      )

  unfoldable pub get_remaining_requests : String → S → ℕ
  get_remaining_requests identifier s = elim (redis.get (redis_key identifier) s) [
    | none ↦ limit
    | some used ↦ limit - used
  ]
