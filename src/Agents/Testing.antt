-- ===== src/Agents/Testing.antt =====
-- orchestrator/tools/test_runner.py. A finished process is its return code and its two texts; the
-- digits of `\d` are read as ASCII digits, and `splitlines` and `strip` are arguments.
pub mod Summary
use url_copilot.Prelude.{
  Bool, List, Option, String, [], codes, concat, contains, false, if◌then◌else◌, leb, length,
  nat_beq, nat_eq, none, not, select, some, starts_with, string_eq, ℕ, ◌&&◌, ◌*◌, ◌+◌, ◌-◌, ◌==◌,
  ◌||◌, ◌∷◌,
}

pub record Finished : Type 0 where
  pub returncode : ℕ
  pub stdout : String
  pub stderr : String

-- `\s`
abbrev pub is_space : ℕ → Bool
is_space c =
    leb 9 c && leb c 13
    || leb 28 c && leb c 32
    || contains c (133 ∷ 160 ∷ 5_760 ∷ [])
    || leb 8_192 c && leb c 8_202
    || contains c (8_232 ∷ 8_233 ∷ 8_239 ∷ 8_287 ∷ 12_288 ∷ [])

abbrev pub is_decimal : ℕ → Bool
is_decimal c = leb b'0' c && leb c b'9'

-- `\s+label`
abbrev pub spaces_then : List ℕ → List ℕ → Bool
spaces_then label [] = false
spaces_then label (c ∷ t) = is_space c && (starts_with label t || spaces_then label t)

-- `(\d+)\s+label` here, with the number read so far
unfoldable pub count_here : List ℕ → ℕ → List ℕ → Option ℕ
count_here label n [] = none
count_here label n (c ∷ t) =
    let more = count_here label (10 * n + (c - b'0')) t in
    if is_decimal c then more else if spaces_then label (c ∷ t) then some n else none

-- `re.search`: the first place where it matches
unfoldable pub search_count : List ℕ → List ℕ → Option ℕ
search_count label [] = none
search_count label (c ∷ t) =
    let later = search_count label t in
    if is_decimal c
    then elim (count_here label 0 (c ∷ t)) [ none ↦ later | some n ↦ some n ]
    else later

abbrev pub or_zero : Option ℕ → ℕ
or_zero none = 0
or_zero (some n) = n

abbrev pub extract_count : List ℕ → List ℕ → ℕ
extract_count output label = or_zero (search_count label output)

-- passed, failed and errors
unfoldable pub parse_pytest_summary : List ℕ → ℕ × ℕ × ℕ
parse_pytest_summary output = (
  extract_count output (codes "passed"),
  extract_count output (codes "failed"),
  extract_count output (codes "error"),
)

pub record TestReport : Type 0 where
  pub passed : ℕ
  pub failed : ℕ
  pub errors : ℕ
  pub output : String
  pub success : Bool

-- `run_tests` after the process
unfoldable pub run_tests : Finished → TestReport
run_tests process =
    let output = concat process.stdout process.stderr in
    let (passed, failed, errors) = parse_pytest_summary (codes output) in
    record {
      passed = passed;
      failed = failed;
      errors = errors;
      output = output;
      success = nat_beq failed 0 && nat_beq errors 0;
    }

pub record LintReport : Type 0 where
  pub passed : Bool
  pub violations : List String
  pub count : ℕ

-- `run_linter` after the process
unfoldable pub run_linter : (String → List String) → (String → String) → Finished → LintReport
run_linter splitlines strip process =
    let violations = select (λ v. not (strip v == "")) (splitlines process.stdout) in
    record {
      passed = nat_beq (length violations) 0;
      violations = violations;
      count = length violations;
    }
