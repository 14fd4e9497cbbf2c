-- ===== src/Prompts/Loader.antt =====
-- orchestrator/prompt_builder/loader.py. A directory is the list of its files, name and text, in the
-- order of `iterdir`, empty where it is missing; `\d` is read as an ASCII digit.
use url_copilot.Prelude.{
  Bool, List, Option, Result, String, [], codes, concat, err, false, if◌then◌else◌, leb, ltb,
  nat_beq, none, ok, some, ℕ, ◌&&◌, ◌*◌, ◌+◌, ◌-◌, ◌∷◌,
}
use Prim.Native.Char.{code}
use url_copilot.Service.Alias.{at_end}

pub data LoadError : Type 0 where
  no_prompt_file : LoadError

abbrev pub Directory : Type 0
Directory = List (String × String)

-- what follows a prefix
abbrev pub after_prefix : List ℕ → List ℕ → Option (List ℕ)
after_prefix [] t = some t
after_prefix (c ∷ p) [] = none
after_prefix (c ∷ p) (d ∷ t) = let rest = after_prefix p t in if nat_beq c d then rest else none

abbrev pub is_digit : ℕ → Bool
is_digit c = leb b'0' c && leb c b'9'

-- `\.txt$`
abbrev pub is_suffix : List ℕ → Bool
is_suffix t = elim (after_prefix (codes ".txt") t) [ none ↦ false | some rest ↦ at_end rest ]

-- more digits of the number, then the suffix
abbrev pub read_version : ℕ → List ℕ → Option ℕ
read_version n [] = none
read_version n (c ∷ t) =
    let more = read_version (10 * n + (c - b'0')) t in
    if is_digit c then more else if is_suffix (c ∷ t) then some n else none

-- `(\d+)\.txt$`
abbrev pub first_digit : List ℕ → Option ℕ
first_digit [] = none
first_digit (c ∷ t) = if is_digit c then read_version 0 (c ∷ t) else none

-- the number in the name of a file, if the file is a prompt of the stage
unfoldable pub version_of : String → String → Option ℕ
version_of stage name = elim (after_prefix (codes (concat stage "_v")) (codes name)) [
  | none ↦ none
  | some rest ↦ first_digit rest
]

-- `path.stem`: the name up to its last dot
abbrev pub before_dot : String → Option String
before_dot String.[] = none
before_dot (String.◌∷◌ c s) = elim (before_dot s) [
  | some t ↦ some (String.◌∷◌ c t)
  | none ↦ if nat_beq (code c) b'.' then some "" else none
]

abbrev pub stem : String → String
stem name = elim (before_dot name) [ none ↦ name | some s ↦ s ]

pub record Candidate : Type 0 where
  pub version : ℕ
  pub name : String
  pub content : String

unfoldable pub candidates : String → Directory → List Candidate
candidates stage [] = []
candidates stage ((name, content) ∷ files) =
    let rest = candidates stage files in
    elim (version_of stage name) [
      | none ↦ rest
      | some n ↦ record { version = n; name = name; content = content } ∷ rest
    ]

-- `max(candidates, key=lambda t: t[0])`: the first of the greatest
unfoldable pub greatest : Candidate → List Candidate → Candidate
greatest best [] = best
greatest best (c ∷ cs) = greatest (if ltb best.version c.version then c else best) cs

-- `PromptLoader.load` with `_resolve`
unfoldable pub load : String → Directory → Result LoadError (String × String)
load stage directory = elim (candidates stage directory) [
  | [] ↦ err no_prompt_file
  | c ∷ cs ↦ let best = greatest c cs in ok (best.content, stem best.name)
]
