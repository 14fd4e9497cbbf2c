-- ===== src/Tests/Memories.antt =====
-- Runs of the memory store.
use url_copilot.Prelude.{
  Dict, List, String, [], ap, arith, codes, concat, err, if◌then◌else◌, length, ltb, none, ok, refl,
  some, suc, sym, zero, ℕ, ◌+◌, ◌∙◌, ◌∷◌, ◌≡◌,
}
use url_copilot.Memory.{
  Memory, count_active, deactivated, foreign_key_violation, format_for_prompt, get_by_type,
  invalid_memory_type, invalidate, load_all_active, new_memory, save, save_seeds, save_types,
  seed_if_empty,
}
use url_copilot.Memory.Seeding.{seed_if_empty_exact}

abbrev ids : ℕ → String
ids zero = ""
ids (suc n) = concat "x" (ids n)

length-ids : (n : ℕ) → length (codes (ids n)) ≡ n
length-ids zero = refl
length-ids (suc n) = omega (arith, length-ids n)

ids-distinct : (i j : ℕ) → ids i ≡ ids j → i ≡ j
ids-distinct i j h = sym (length-ids i) ∙ (ap (λ s. length (codes s)) h ∙ length-ids j)

abbrev clock : ℕ → ℕ
clock n = n + 10

abbrev seeds : Dict String (List String)
seeds =
    ("facts", "FastAPI" ∷ "SQLAlchemy" ∷ [])
    ∷ ("decisions", [])
    ∷ ("decision", "Soft deletes" ∷ [])
    ∷ []

abbrev seeded : List Memory
seeded =
    new_memory "" 10 "fact" "FastAPI" "seed" none
    ∷ new_memory "x" 11 "fact" "SQLAlchemy" "seed" none
    ∷ new_memory "xx" 12 "decision" "Soft deletes" "seed" none
    ∷ []

seeds_three : seed_if_empty [] ids clock seeds [] ≡ ok (3, seeded)
unfolding seed_if_empty save_types save_seeds save count_active
seeds_three = refl

-- once every memory is inactive, the seeds come again
seeds_again :
    seed_if_empty []
      (λ n. ids (n + 3))
      clock
      (("facts", "FastAPI" ∷ []) ∷ [])
      (deactivated (new_memory "" 10 "fact" "FastAPI" "seed" none) ∷ [])
    ≡ ok (
      1,
      deactivated (new_memory "" 10 "fact" "FastAPI" "seed" none)
          ∷ new_memory "xxx" 10 "fact" "FastAPI" "seed" none
          ∷ [],
    )
unfolding seed_if_empty save_types save_seeds save count_active
seeds_again = refl

refuses_other_types : save [] "id" 5 "lesson_learned" "c" "alice" none [] ≡ err invalid_memory_type
unfolding save
refuses_other_types = refl

refuses_unknown_runs :
    save [] "id" 5 "fact" "c" "alice" (some "RUN-1") [] ≡ err foreign_key_violation
unfolding save
refuses_unknown_runs = refl

prints_lines :
    format_for_prompt 2 (invalidate "x" seeded)
    ≡ "=== Team Conventions and Persistent Memory ===\n[fact]         FastAPI\n[decision]     Soft deletes"
unfolding format_for_prompt load_all_active invalidate
prints_lines = refl

lists_one_type : length (get_by_type "fact" 20 seeded) ≡ 2
unfolding get_by_type
lists_one_type = refl

seed_if_empty_exact_example :
    seed_if_empty [] ids clock seeds []
    ≡ (if ltb 0 (count_active []) then ok (0, []) else ok (3, seeded))
seed_if_empty_exact_example = seed_if_empty_exact [] ids clock seeds [] ids-distinct (λ k h. refl)
