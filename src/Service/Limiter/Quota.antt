-- ===== src/Service/Limiter/Quota.antt =====
-- What one window lets through.
use url_copilot.Prelude.{
  Bool-cases, Option, Option-cases, String, ap, arith, inl, inr, nat_eq, none, some, string_eq, suc,
  true, zero, ℕ, ◌+◌, ◌-◌, ◌==◌, ◌↔◌, ◌≡◌, ◌≤◌,
}
use url_copilot.Service.Limiter.{
  Redis, get_remaining_requests, is_rate_limited, key_ttl_seconds, redis_key,
}

abbrev pub count_of : Option ℕ → ℕ
count_of none = 0
count_of (some n) = n

-- What Redis documents of the commands, while no key expires.
pub record RedisLaws {S : Type 0} (redis : Redis S) : Type 0 where
  pub incr_result : (k : String) (s : S) → (redis.incr k s).0 ≡ count_of (redis.get k s) + 1
  pub get-incr :
      (k : String) (s : S) → redis.get k (redis.incr k s).1 ≡ some (count_of (redis.get k s) + 1)
  pub get-expire :
      (k j : String) (ttl : ℕ) (s : S) → redis.get j (redis.expire k ttl s) ≡ redis.get j s

module _ {S : Type 0} (redis : Redis S) (laws : RedisLaws redis) (limit : ℕ) where
  -- the state after so many requests with one identifier
  abbrev pub after_requests : String → ℕ → S → S
  after_requests identifier zero s = s
  after_requests identifier (suc n) s =
      (is_rate_limited redis limit identifier (after_requests identifier n s)).1

  step_count :
      (identifier : String) (s : S)
      → redis.get (redis_key identifier) (is_rate_limited redis limit identifier s).1
        ≡ some (count_of (redis.get (redis_key identifier) s) + 1)
  unfolding is_rate_limited
  step_count identifier s =
      let key = redis_key identifier in
      elim (Bool-cases ((redis.incr key s).0 == 1)) [
        | inl first_one ↦ ground (
          arith,
          laws.get-incr key s,
          laws.get-expire key key key_ttl_seconds (redis.incr key s).1,
        )
        | inr further ↦ ground (arith, laws.get-incr key s)
      ]

  count_after :
      (identifier : String) (n : ℕ) (s : S)
      → redis.get (redis_key identifier) s ≡ none
      → count_of (redis.get (redis_key identifier) (after_requests identifier n s)) ≡ n
  count_after identifier zero s fresh = ap count_of fresh
  count_after identifier (suc n) s fresh =
      let counted = ap count_of (step_count identifier (after_requests identifier n s)) in
      omega (arith, counted, count_after identifier n s fresh)

  -- Within one window of an identifier, the request that comes after `n` others is denied exactly if
  -- `n` is the limit or more, and the requests that are said to remain are the limit less `n`.
  pub window_quota :
      (identifier : String) (n : ℕ) (s : S)
      → redis.get (redis_key identifier) s ≡ none
      → (((is_rate_limited redis limit identifier (after_requests identifier n s)).0 ≡ true)
          ↔ (limit ≤ n))
        × (get_remaining_requests redis limit identifier (after_requests identifier n s)
            ≡ limit - n)
  unfolding is_rate_limited get_remaining_requests
  window_quota identifier n s fresh =
      let key = redis_key identifier in
      let end = after_requests identifier n s in
      let counted = count_after identifier n s fresh in
      let result = laws.incr_result key end in
      (
        (λ h. ground (arith, counted, result), λ h. ground (arith, counted, result)),
        elim (Option-cases (redis.get key end)) [
          | inl nothing ↦ ground (arith, counted)
          | inr (used, some_used) ↦ ground (arith, counted)
        ],
      )
