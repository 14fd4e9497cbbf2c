-- ===== src/Memory/Seeds.antt =====
-- The rows that the loops of `seed_if_empty` insert.
use native.Mathlib.Nat.{add-zero}
use url_copilot.Prelude.{
  All, Bool, Dict, List, String, [], any_of, arith, contains, false, length, length-append, nat_eq,
  none, ok, refl, string_eq, true, ℕ, ◌++◌, ◌+◌, ◌==◌, ◌||◌, ◌∷◌, ◌≡◌, ◌≤◌,
}
use url_copilot.Memory.{
  Memory, count_active, new_memory, save, save_seeds, save_types, seeds_of, valid_types,
}
use mathlib.Core.List.{append-nil, append_assoc}

module _ (ids : ℕ → String) (clock : ℕ → ℕ) where
  -- the rows of the contents of one type, from the `i`-th insertion on
  abbrev pub seed_rows : String → List String → ℕ → List Memory
  seed_rows memory_type [] i = []
  seed_rows memory_type (content ∷ contents) i =
      new_memory (ids i) (clock i) memory_type content "seed" none
      ∷ seed_rows memory_type contents (i + 1)

  abbrev pub type_rows : Dict String (List String) → List String → ℕ → List Memory
  type_rows seeds [] i = []
  type_rows seeds (memory_type ∷ types) i =
      seed_rows memory_type (seeds_of seeds memory_type) i
      ++ type_rows seeds types (i + length (seeds_of seeds memory_type))

  -- no row has the id of an insertion from the `i`-th on
  abbrev pub IsFresh : ℕ → List Memory → Type 0
  IsFresh i rows = (k : ℕ) → i ≤ k → any_of (λ m. m.id == ids k) rows ≡ false

  pub length-seed_rows :
      (memory_type : String) (contents : List String) (i : ℕ)
      → length (seed_rows memory_type contents i) ≡ length contents
  length-seed_rows memory_type [] i = refl
  length-seed_rows memory_type (content ∷ contents) i =
      omega (arith, length-seed_rows memory_type contents (i + 1))

  any_of-append :
      (p : Memory → Bool) (ms ns : List Memory) → any_of p (ms ++ ns) ≡ (any_of p ms || any_of p ns)
  any_of-append p [] ns = refl
  any_of-append p (m ∷ ms) ns = ground (arith, any_of-append p ms ns)

  module _ (distinct : (i j : ℕ) → ids i ≡ ids j → i ≡ j) where
    IsFresh-append :
        (i : ℕ) (rows : List Memory) (m : Memory)
        → m.id ≡ ids i
        → IsFresh i rows
        → IsFresh (i + 1) (rows ++ m ∷ [])
    IsFresh-append i rows m e fresh k h = ground (
      arith,
      any_of-append (λ n. n.id == ids k) rows (m ∷ []),
      fresh k (omega arith),
      string_eq.beq_iff m.id (ids k),
      distinct i k,
    )

    module _ (runs : List String) where
      save_free :
          (memory_type content : String) (i : ℕ) (rows : List Memory)
          → contains memory_type valid_types ≡ true
          → IsFresh i rows
          → save runs (ids i) (clock i) memory_type content "seed" none rows
            ≡ ok (rows ++ new_memory (ids i) (clock i) memory_type content "seed" none ∷ [])
      unfolding save
      save_free memory_type content i rows valid fresh = rw (valid, fresh i (omega arith)) refl

      save_seeds_free :
          (memory_type : String) (contents : List String) (i : ℕ) (rows : List Memory)
          → contains memory_type valid_types ≡ true
          → IsFresh i rows
          → (save_seeds runs ids clock memory_type contents (i, rows)
              ≡ ok (i + length contents, rows ++ seed_rows memory_type contents i))
            × IsFresh (i + length contents) (rows ++ seed_rows memory_type contents i)
      unfolding save_seeds
      save_seeds_free memory_type [] i rows valid fresh =
          rw (add-zero, append-nil rows) (refl, fresh)
      save_seeds_free memory_type (content ∷ contents) i rows valid fresh =
          let m = new_memory (ids i) (clock i) memory_type content "seed" none in
          let more =
            save_seeds_free memory_type contents (i + 1) (rows ++ m ∷ []) valid
              (IsFresh-append i rows m refl fresh) in
          let shift : i + length (content ∷ contents) ≡ i + 1 + length contents = omega arith in
          rw
            (
              shift,
              save_free memory_type content i rows valid fresh,
              ← append_assoc rows (m ∷ []) (seed_rows memory_type contents (i + 1)),
            )
            more

      pub save_types_free :
          (seeds : Dict String (List String)) (types : List String) (i : ℕ) (rows : List Memory)
          → All (λ t. contains t valid_types ≡ true) types
          → IsFresh i rows
          → save_types runs ids clock seeds types (i, rows)
            ≡ ok (i + length (type_rows seeds types i), rows ++ type_rows seeds types i)
      unfolding save_types
      save_types_free seeds [] i rows valid fresh = rw (add-zero, append-nil rows) refl
      save_types_free seeds (memory_type ∷ types) i rows valid fresh =
          let contents = seeds_of seeds memory_type in
          let new = seed_rows memory_type contents i in
          let (saved, fresh') = save_seeds_free memory_type contents i rows valid.0 fresh in
          let later = type_rows seeds types (i + length contents) in
          let more =
            save_types_free seeds types (i + length contents) (rows ++ new) valid.1 fresh' in
          let shift : i + length (new ++ later) ≡ i + length contents + length later =
            omega (arith, length-append new later, length-seed_rows memory_type contents i) in
          rw (saved, shift, ← append_assoc rows new later) more

  count_active-seed_rows :
      (memory_type : String) (contents : List String) (i : ℕ)
      → count_active (seed_rows memory_type contents i) ≡ length contents
  unfolding count_active
  count_active-seed_rows memory_type [] i = refl
  count_active-seed_rows memory_type (content ∷ contents) i =
      omega (arith, count_active-seed_rows memory_type contents (i + 1))

  pub count_active-append :
      (ms ns : List Memory) → count_active (ms ++ ns) ≡ count_active ms + count_active ns
  unfolding count_active
  count_active-append [] ns = omega arith
  count_active-append (m ∷ ms) ns = ground (arith, count_active-append ms ns)

  pub count_active-type_rows :
      (seeds : Dict String (List String)) (types : List String) (i : ℕ)
      → count_active (type_rows seeds types i) ≡ length (type_rows seeds types i)
  unfolding count_active
  count_active-type_rows seeds [] i = refl
  count_active-type_rows seeds (memory_type ∷ types) i =
      let contents = seeds_of seeds memory_type in
      let new = seed_rows memory_type contents i in
      let later = type_rows seeds types (i + length contents) in
      omega (
        arith,
        count_active-append new later,
        length-append new later,
        count_active-seed_rows memory_type contents i,
        length-seed_rows memory_type contents i,
        count_active-type_rows seeds types (i + length contents),
      )
