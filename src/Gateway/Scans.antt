-- ===== src/Gateway/Scans.antt =====
-- orchestrator/gateway/input_validator.py and guardrails.py. `lower` is Python's `str.lower` on code
-- points; the three compiled PII patterns enter as what their `search` finds.
pub mod Exact
use url_copilot.Prelude.{
  Bool, List, Result, String, [], codes, contains, false, if◌then◌else◌, nat_eq, occurs_in, ok,
  raise_if, string_eq, ℕ, ◌==◌, ◌>>=◌, ◌>>◌, ◌||◌, ◌∷◌,
}
use url_copilot.Gateway.Models.{
  GatewayError, Message, content_of, guardrail_violation, input_validation_error,
  prompt_injection_error,
}

abbrev pub injection_patterns : List String
injection_patterns =
    "ignore previous instructions" ∷ "ignore your system prompt" ∷ "disregard all prior"
    ∷ "forget everything above" ∷ "you are now" ∷ "pretend you are"
    ∷ "act as if you have no restrictions" ∷ "jailbreak" ∷ []

abbrev pub dangerous_code_patterns : List String
dangerous_code_patterns =
    "os.system(" ∷ "subprocess." ∷ "eval(" ∷ "exec(" ∷ "__import__(" ∷ "rm -rf" ∷ "DROP TABLE"
    ∷ "DELETE FROM" ∷ "TRUNCATE TABLE" ∷ "password =" ∷ "secret =" ∷ "api_key =" ∷ "private_key ="
    ∷ []

-- `for pattern in patterns: if pattern in text: raise`
unfoldable pub mentions_any : List String → List ℕ → Bool
mentions_any [] text = false
mentions_any (p ∷ ps) text = occurs_in (codes p) text || mentions_any ps text

-- `_check_schema` and `_check_injection`; a null character has code 0
unfoldable pub check_schema : List ℕ → Result GatewayError (Unit {0})
check_schema text = raise_if (contains 0 text) input_validation_error

unfoldable pub check_injection : (List ℕ → List ℕ) → List ℕ → Result GatewayError (Unit {0})
check_injection lower text =
    raise_if (mentions_any injection_patterns (lower text)) prompt_injection_error

unfoldable pub check_message : (List ℕ → List ℕ) → Message → Result GatewayError (Unit {0})
check_message lower m =
    if m.role == "user"
    then (do check_schema (codes (content_of m)); check_injection lower (codes (content_of m)))
    else ok tt

-- `InputValidator.validate`
unfoldable pub validate : (List ℕ → List ℕ) → List Message → Result GatewayError (Unit {0})
validate lower [] = ok tt
validate lower (m ∷ ms) = do check_message lower m; validate lower ms

pub record PiiPatterns : Type 0 where
  pub ssn : List ℕ → Bool
  pub credit_card : List ℕ → Bool
  pub email : List ℕ → Bool

unfoldable pub check_input : PiiPatterns → String → Result GatewayError (Unit {0})
check_input re text = do
  raise_if (re.ssn (codes text)) guardrail_violation
  raise_if (re.credit_card (codes text)) guardrail_violation
  raise_if (re.email (codes text)) guardrail_violation

unfoldable pub check_output : String → Result GatewayError (Unit {0})
check_output text =
    if text == ""
    then ok tt
    else raise_if (mentions_any dangerous_code_patterns (codes text)) guardrail_violation
