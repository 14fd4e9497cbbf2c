-- ===== src/Gateway/RateLimiter.antt =====
-- orchestrator/gateway/rate_limiter.py: a sliding window for each user. An instant is a number of
-- ticks of `time.monotonic`.
pub mod Window
use url_copilot.Prelude.{
  Bool, Dict, List, String, [], false, if◌then◌else◌, insert, leb, length, lookup, ltb, nat_eq,
  none, remove, select, some, string_eq, true, ℕ, ◌*◌, ◌++◌, ◌+◌, ◌∷◌,
}

-- `_WINDOW_SECONDS`, for a clock with so many ticks to a second, and `_MAX_CALLS`
abbrev pub window_seconds : ℕ
window_seconds = 60

abbrev pub max_calls : ℕ
max_calls = 200

-- github_login → the instants of the calls let through
abbrev pub Windows : Type 0
Windows = Dict String (List ℕ)

abbrev pub window_of : String → Windows → List ℕ
window_of login windows = elim (lookup login windows) [ none ↦ [] | some w ↦ w ]

module _ (ticks : ℕ) where
  -- `now - ts < _WINDOW_SECONDS`
  abbrev pub is_recent : ℕ → ℕ → Bool
  is_recent now ts = ltb now (ts + window_seconds * ticks)

  -- `check`: false stands for `RateLimitError`, which leaves the windows alone
  unfoldable pub check : ℕ → String → Windows → Bool × Windows
  check now login windows =
      let window = select (is_recent now) (window_of login windows) in
      if leb max_calls (length window)
      then (false, windows)
      else (true, insert login (window ++ now ∷ []) windows)

-- `reset`
unfoldable pub reset : String → Windows → Windows
reset login windows = remove login windows
