-- ===== src/Memory.antt =====
-- orchestrator/memory/store.py, on the table orch_memory. The identifiers of `uuid4`, the clock of the
-- database and the runs that a foreign key may name are arguments; equal instants keep the order of
-- the insertions.
pub mod Seeds
pub mod Seeding
pub mod Oldest
use url_copilot.Prelude.{
  Bool, Dict, List, Option, Result, String, [], any_of, concat, contains, err, false, if◌then◌else◌,
  length, lookup, ltb, nat_beq, nat_eq, none, not, ok, select, some, string_eq, suc, take, true,
  update_where, zero, ℕ, ◌&&◌, ◌++◌, ◌+◌, ◌==◌, ◌>>=◌, ◌∷◌,
}

pub record Memory : Type 0 where
  pub id : String
  pub source_run_id : Option String
  pub memory_type : String
  pub actor : String
  pub content : String
  pub is_active : Bool
  pub created_at : ℕ

pub data MemoryError : Type 0 where
  invalid_memory_type foreign_key_violation unique_violation : MemoryError

abbrev pub valid_types : List String
valid_types = "fact" ∷ "convention" ∷ "decision" ∷ "preference" ∷ []

abbrev pub new_memory : String → ℕ → String → String → String → Option String → Memory
new_memory memory_id now memory_type content actor source_run_id = record {
  id = memory_id;
  source_run_id = source_run_id;
  memory_type = memory_type;
  actor = actor;
  content = content;
  is_active = true;
  created_at = now;
}

-- the foreign key to orch_runs, which NULL satisfies
abbrev pub refers : List String → Option String → Bool
refers runs none = true
refers runs (some run_id) = contains run_id runs

-- INSERT INTO orch_memory: the newest row is the last
unfoldable pub save :
    List String
    → String
    → ℕ
    → String
    → String
    → String
    → Option String
    → List Memory
    → Result MemoryError (List Memory)
save runs memory_id now memory_type content actor source_run_id rows =
    if not (contains memory_type valid_types)
    then err invalid_memory_type
    else if any_of (λ m. m.id == memory_id) rows
    then err unique_violation
    else if not (refers runs source_run_id)
    then err foreign_key_violation
    else ok (rows ++ new_memory memory_id now memory_type content actor source_run_id ∷ [])

abbrev pub deactivated : Memory → Memory
deactivated m = record m { is_active = false }

unfoldable pub invalidate : String → List Memory → List Memory
invalidate memory_id rows = update_where (λ m. m.id == memory_id) deactivated rows

-- ORDER BY created_at ASC
abbrev pub insert_oldest : Memory → List Memory → List Memory
insert_oldest m [] = m ∷ []
insert_oldest m (n ∷ ns) =
    if ltb n.created_at m.created_at then n ∷ insert_oldest m ns else m ∷ n ∷ ns

abbrev pub oldest_first : List Memory → List Memory
oldest_first [] = []
oldest_first (m ∷ ms) = insert_oldest m (oldest_first ms)

unfoldable pub load_all_active : ℕ → List Memory → List Memory
load_all_active limit rows = take limit (oldest_first (select (λ m. m.is_active) rows))

unfoldable pub get_by_type : String → ℕ → List Memory → List Memory
get_by_type memory_type limit rows =
    take limit (oldest_first (select (λ m. m.is_active && m.memory_type == memory_type) rows))

unfoldable pub count_active : List Memory → ℕ
count_active rows = length (select (λ m. m.is_active) rows)

-- f"{s:<n}"
abbrev pub left_justified : ℕ → String → String
left_justified zero s = s
left_justified (suc n) String.[] = concat " " (left_justified n String.[])
left_justified (suc n) (String.◌∷◌ c s) = String.◌∷◌ c (left_justified n s)

-- the lines of `format_for_prompt` after the first, each with the newline before it
abbrev pub memory_lines : List Memory → String
memory_lines [] = ""
memory_lines (m ∷ ms) = concat "\n" (
    concat (left_justified 14 (concat "[" (concat m.memory_type "]")))
      (concat " " (concat m.content (memory_lines ms))))

unfoldable pub format_for_prompt : ℕ → List Memory → String
format_for_prompt limit rows = elim (load_all_active limit rows) [
  | [] ↦ ""
  | m ∷ ms ↦ concat "=== Team Conventions and Persistent Memory ===" (memory_lines (m ∷ ms))
]

-- `data.get(key, [])` of seeds.yaml
abbrev pub seeds_at : Dict String (List String) → String → List String
seeds_at seeds key = elim (lookup key seeds) [ none ↦ [] | some contents ↦ contents ]

-- data.get(f"{memory_type}s", []) or data.get(memory_type, [])
abbrev pub seeds_of : Dict String (List String) → String → List String
seeds_of seeds memory_type = elim (seeds_at seeds (concat memory_type "s")) [
  | [] ↦ seeds_at seeds memory_type
  | content ∷ contents ↦ content ∷ contents
]

-- `runs` are the ids of orch_runs, `ids n` and `clock n` the id and the instant of the n-th insertion
-- of a seeding. An error, which only an id that is taken gives, drops the rows of the insertions before.
module _ (runs : List String) (ids : ℕ → String) (clock : ℕ → ℕ) where
  unfoldable pub save_seeds :
      String → List String → ℕ × List Memory → Result MemoryError (ℕ × List Memory)
  save_seeds memory_type [] (inserted, rows) = ok (inserted, rows)
  save_seeds memory_type (content ∷ contents) (inserted, rows) = do
    rows' ← save runs (ids inserted) (clock inserted) memory_type content "seed" none rows
    save_seeds memory_type contents (inserted + 1, rows')

  unfoldable pub save_types :
      Dict String (List String)
      → List String
      → ℕ × List Memory
      → Result MemoryError (ℕ × List Memory)
  save_types seeds [] st = ok st
  save_types seeds (memory_type ∷ types) st = do
    st' ← save_seeds memory_type (seeds_of seeds memory_type) st
    save_types seeds types st'

  -- with the loop for `facts` when the first has inserted nothing
  unfoldable pub seed_if_empty :
      Dict String (List String) → List Memory → Result MemoryError (ℕ × List Memory)
  seed_if_empty seeds rows = if ltb 0 (count_active rows) then ok (0, rows) else do
    (inserted, rows') ← save_types seeds valid_types (0, rows)
    if nat_beq inserted 0
        then save_seeds "fact" (seeds_at seeds "facts") (inserted, rows')
        else ok (inserted, rows')
