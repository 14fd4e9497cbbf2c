-- ===== src/Agents/Search.antt =====
-- What else the tools read: `list_directory` and `search_codebase` of orchestrator/tools/filesystem.py
-- and the rest of orchestrator/cache/tool_cache.py. `splitlines` and `int` are arguments.
use Prim.Native.Char.{code}
use url_copilot.Prelude.{
  Dict, List, Option, Result, String, [], codes, if◌then◌else◌, insert_sorted, length, lookup,
  nat_beq, nat_eq, none, not, ok, or_raise, raise_if, some, starts_with, string_eq, ℕ, ◌>>=◌, ◌>>◌,
  ◌∷◌,
}
use url_copilot.Agents.Tools.{FileError, Layout, ToolCache, escapes_root, not_a_directory}

-- the names in order, each once, as in a directory
abbrev pub in_order : List String → List String
in_order [] = []
in_order (name ∷ names) = insert_sorted name (in_order names)

unfoldable pub list_directory :
    Layout → (String → String) → String → Dict String (List String) → Result FileError (List String)
list_directory l resolve_path path directories = do
  raise_if (not (starts_with (codes l.project_root) (codes (resolve_path path)))) escapes_root
  entries ← or_raise (lookup (resolve_path path) directories) not_a_directory
  ok (in_order entries)

pub record Match : Type 0 where
  pub file : String
  pub line : ℕ
  pub content : String

-- the text around the first colon
abbrev pub at_colon : String → Option (String × String)
at_colon String.[] = none
at_colon (String.◌∷◌ c s) =
    let later = at_colon s in
    if nat_beq (code c) b':'
    then some ("", s)
    else elim later [ none ↦ none | some (before, after) ↦ some (String.◌∷◌ c before, after) ]

-- `raw_line.split(":", 2)` with its three parts, and a number in the second
abbrev pub match_of : (String → Option ℕ) → String → Option Match
match_of int raw_line = elim (at_colon raw_line) [
  | none ↦ none
  | some (file, rest) ↦ elim (at_colon rest) [
    | none ↦ none
    | some (line_num, content) ↦ elim (int line_num) [
      | none ↦ none
      | some line ↦ some (record { file = file; line = line; content = content })
    ]
  ]
]

abbrev pub matches_in : (String → Option ℕ) → List String → List Match
matches_in int [] = []
matches_in int (raw_line ∷ lines) =
    let rest = matches_in int lines in
    elim (match_of int raw_line) [ none ↦ rest | some m ↦ m ∷ rest ]

-- `search_codebase` on the output of grep
unfoldable pub search_codebase : (String → List String) → (String → Option ℕ) → String → List Match
search_codebase splitlines int stdout = matches_in int (splitlines stdout)

abbrev pub cache_clear : ToolCache → ToolCache
cache_clear cache = []

abbrev pub cache_size : ToolCache → ℕ
cache_size cache = length cache

abbrev pub to_dict : ToolCache → ToolCache
to_dict cache = cache
