-- ===== src/Agents/Cache.antt =====
-- orchestrator/cache/response_cache.py, on the table orch_cache. An instant is a number of seconds,
-- `sha256` the hex digest, and a response its JSON text.
pub mod Reads
use url_copilot.Prelude.{
  Dict, Option, String, concat, if◌then◌else◌, insert, leb, lookup, nat_eq, none, remove, some,
  string_eq, ℕ, ◌*◌, ◌+◌,
}

pub record Entry : Type 0 where
  pub model_used : String
  pub response : String
  pub hit_count : ℕ
  pub expires_at : ℕ

-- by `prompt_hash`, which is unique
abbrev pub Entries : Type 0
Entries = Dict String Entry

abbrev pub default_ttl_hours : ℕ
default_ttl_hours = 24

module _ (sha256 : String → String) where
  -- `_hash`: nothing stands between the two texts
  abbrev pub prompt_hash : String → String → String
  prompt_hash prompt_text model = sha256 (concat prompt_text model)

  -- `get`: a hit is counted
  unfoldable pub get : ℕ → String → String → Entries → Option String × Entries
  get now prompt_text model c = elim (lookup (prompt_hash prompt_text model) c) [
    | none ↦ (none, c)
    | some e ↦ if leb e.expires_at now then (none, c) else (
      some e.response,
      insert (prompt_hash prompt_text model) (record e { hit_count = e.hit_count + 1 }) c,
    )
  ]

  -- `set`: INSERT ... ON CONFLICT DO UPDATE
  unfoldable pub set : ℕ → String → String → String → ℕ → Entries → Entries
  set now prompt_text model response ttl_hours c =
      insert (prompt_hash prompt_text model)
        (record {
          model_used = model;
          response = response;
          hit_count = 0;
          expires_at = now + ttl_hours * 3_600;
        })
        c

  unfoldable pub invalidate : String → String → Entries → Entries
  invalidate prompt_text model c = remove (prompt_hash prompt_text model) c

  unfoldable pub hit_count_of : String → String → Entries → ℕ
  hit_count_of prompt_text model c = elim (lookup (prompt_hash prompt_text model) c) [
    | none ↦ 0
    | some e ↦ e.hit_count
  ]
