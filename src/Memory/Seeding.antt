-- ===== src/Memory/Seeding.antt =====
-- `seed_if_empty`: what it inserts, and when.
use native.Mathlib.Nat.{zero-add}
use url_copilot.Prelude.{
  All, Bool-cases, Dict, List, Result, String, [], ap, arith, contains, if◌then◌else◌, inl, inr,
  length, length-append, ltb, nat_beq, nat_beq_iff, nat_eq, ok, refl, string_eq, true, ℕ, ◌++◌, ◌+◌,
  ◌<◌, ◌∙◌, ◌∷◌, ◌≡◌,
}
use url_copilot.Memory.{
  Memory, MemoryError, count_active, save_seeds, seed_if_empty, seeds_at, seeds_of, valid_types,
}
use url_copilot.Memory.Seeds.{
  IsFresh, count_active-append, count_active-type_rows, length-seed_rows, save_types_free,
  seed_rows, type_rows,
}

or_default-nil :
    (xs ys : List String) → length (elim xs [ [] ↦ ys | z ∷ zs ↦ z ∷ zs ]) ≡ 0 → xs ≡ []
or_default-nil [] ys h = refl
or_default-nil (x ∷ xs) ys h = absurd (omega arith)

no_facts :
    (ids : ℕ → String) (clock : ℕ → ℕ) (seeds : Dict String (List String))
    → length (type_rows ids clock seeds valid_types 0) ≡ 0
    → seeds_at seeds "facts" ≡ []
no_facts ids clock seeds h =
    let contents = seeds_of seeds "fact" in
    let first_rows = seed_rows ids clock "fact" contents 0 in
    or_default-nil (seeds_at seeds "facts") (seeds_at seeds "fact") (
      omega (
        arith,
        h,
        length-append first_rows (
            type_rows ids clock seeds ("convention" ∷ "decision" ∷ "preference" ∷ [])
              (0 + length contents)),
        length-seed_rows ids clock "fact" contents 0,
      ))

-- When the ids of the insertions differ from each other and from those of the rows, seed_if_empty
-- does not raise: a table with an active memory is left alone, and any other gets, after its rows,
-- one active memory by "seed" for each content that seeds.yaml lists under the plural of one of the
-- four types, or else under the type, in the order of the types; the second loop adds nothing.
pub seed_if_empty_exact :
    (runs : List String) (ids : ℕ → String) (clock : ℕ → ℕ) (seeds : Dict String (List String))
    (rows : List Memory)
    → ((i j : ℕ) → ids i ≡ ids j → i ≡ j)
    → IsFresh ids clock 0 rows
    → seed_if_empty runs ids clock seeds rows ≡ (
        if ltb 0 (count_active rows)
        then ok (0, rows)
        else let new = type_rows ids clock seeds valid_types 0 in ok (length new, rows ++ new))
unfolding seed_if_empty save_seeds
seed_if_empty_exact runs ids clock seeds rows distinct fresh =
    let new = type_rows ids clock seeds valid_types 0 in
    let valid : All (λ t. contains t valid_types ≡ true) valid_types =
      (refl, (refl, (refl, (refl, tt)))) in
    let saved = save_types_free ids clock distinct runs seeds valid_types 0 rows valid fresh in
    let done : Path (Result MemoryError (ℕ × List Memory)) (ok (0 + length new, rows ++ new))
        (ok (length new, rows ++ new)) =
      rw zero-add refl in
    elim (Bool-cases (ltb 0 (count_active rows))) [
      | inl some_active ↦ rw some_active refl
      | inr none_active ↦ elim (Bool-cases (nat_beq (0 + length new) 0)) [
        | inl nothing ↦
            rw
              (
                none_active,
                saved,
                nothing,
                no_facts ids clock seeds (ground (arith, nat_beq_iff (0 + length new) 0)),
              )
              done
        | inr something ↦ rw (none_active, saved, something) done
      ]
    ]

-- If seeds.yaml lists a content at all, then after a seed_if_empty that finds the ids of its
-- insertions free, every further seed_if_empty inserts nothing, whatever seeds.yaml says by then.
pub seed_if_empty_once :
    (runs : List String) (ids : ℕ → String) (clock : ℕ → ℕ) (seeds : Dict String (List String))
    (rows : List Memory)
    → ((i j : ℕ) → ids i ≡ ids j → i ≡ j)
    → IsFresh ids clock 0 rows
    → 0 < length (type_rows ids clock seeds valid_types 0)
    → (n : ℕ) × (rows' : List Memory) × (seed_if_empty runs ids clock seeds rows ≡ ok (n, rows'))
      × ((ids' : ℕ → String) (clock' : ℕ → ℕ) (seeds' : Dict String (List String))
          → seed_if_empty runs ids' clock' seeds' rows' ≡ ok (0, rows'))
unfolding seed_if_empty
seed_if_empty_once runs ids clock seeds rows distinct fresh listed =
    let new = type_rows ids clock seeds valid_types 0 in
    let exact = seed_if_empty_exact runs ids clock seeds rows distinct fresh in
    elim (Bool-cases (ltb 0 (count_active rows))) [
      | inl some_active ↦
          (0, rows, rw (some_active) refl, λ ids' clock' seeds'. rw some_active refl)
      | inr none_active ↦
          let active : ltb 0 (count_active (rows ++ new)) ≡ true = ground (
            arith,
            count_active-append ids clock rows new,
            count_active-type_rows ids clock seeds valid_types 0,
          ) in
          (
            length new,
            rows ++ new,
            exact ∙ ap (λ b. if b then ok (0, rows) else ok (length new, rows ++ new)) none_active,
            λ ids' clock' seeds'. rw active refl,
          )
    ]
