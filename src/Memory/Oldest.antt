-- ===== src/Memory/Oldest.antt =====
-- What `load_all_active` lists, and what is left of a memory that `invalidate` has switched off.
use url_copilot.Prelude.{
  All, All-In, Bool-cases, In, In-select, List, String, [], ap, arith, inl, inr, length,
  length-take-le, ltb, nat_eq, not, refl, select, select-In, string_eq, suc, take, true,
  update_where, zero, ℕ, ◌&&◌, ◌==◌, ◌↔◌, ◌∷◌, ◌≡◌, ◌≢◌, ◌≤◌, ◌⊎◌,
}
use url_copilot.Memory.{
  Memory, deactivated, insert_oldest, invalidate, load_all_active, oldest_first,
}

-- No row is older than one before it.
abbrev pub IsOldestFirst : List Memory → Type 0
IsOldestFirst [] = Unit
IsOldestFirst (m ∷ ms) = All (λ n. m.created_at ≤ n.created_at) ms × IsOldestFirst ms

In-insert_oldest :
    (m n : Memory) (ms : List Memory) → In m (insert_oldest n ms) ↔ ((m ≡ n) ⊎ In m ms)
In-insert_oldest m n [] = (λ h. h, λ h. h)
In-insert_oldest m n (k ∷ ms) = elim (Bool-cases (ltb k.created_at n.created_at)) [
  | inl older ↦ ground (arith, In-insert_oldest m n ms)
  | inr newer ↦ ground arith
]

In-oldest_first : (m : Memory) (ms : List Memory) → In m (oldest_first ms) ↔ In m ms
In-oldest_first m [] = (λ h. h, λ h. h)
In-oldest_first m (n ∷ ms) =
    ground (arith, In-insert_oldest m n (oldest_first ms), In-oldest_first m ms)

All-insert_oldest :
    (t : ℕ) (m : Memory) (ms : List Memory)
    → t ≤ m.created_at
    → All (λ n. t ≤ n.created_at) ms
    → All (λ n. t ≤ n.created_at) (insert_oldest m ms)
All-insert_oldest t m [] h a = (h, tt)
All-insert_oldest t m (n ∷ ms) h a = ground (arith, All-insert_oldest t m ms h a.1)

All-ge :
    (s t : ℕ) (ms : List Memory)
    → s ≤ t
    → All (λ n. t ≤ n.created_at) ms
    → All (λ n. s ≤ n.created_at) ms
All-ge s t [] h a = tt
All-ge s t (n ∷ ms) h a = (omega arith, All-ge s t ms h a.1)

insert_oldest-IsOldestFirst :
    (m : Memory) (ms : List Memory) → IsOldestFirst ms → IsOldestFirst (insert_oldest m ms)
insert_oldest-IsOldestFirst m [] h = (tt, tt)
insert_oldest-IsOldestFirst m (n ∷ ms) h = elim (Bool-cases (ltb n.created_at m.created_at)) [
  | inl older ↦
      rw older (
        All-insert_oldest n.created_at m ms (ground arith) h.0,
        insert_oldest-IsOldestFirst m ms h.1,
      )
  | inr newer ↦
      let le : m.created_at ≤ n.created_at = ground arith in
      rw newer ((le, All-ge m.created_at n.created_at ms le h.0), h)
]

oldest_first-IsOldestFirst : (ms : List Memory) → IsOldestFirst (oldest_first ms)
oldest_first-IsOldestFirst [] = tt
oldest_first-IsOldestFirst (m ∷ ms) =
    insert_oldest-IsOldestFirst m (oldest_first ms) (oldest_first-IsOldestFirst ms)

In-take : (m : Memory) (n : ℕ) (ms : List Memory) → In m (take n ms) → In m ms
In-take m zero ms h = absurd h
In-take m (suc n) [] h = absurd h
In-take m (suc n) (k ∷ ms) (inl e) = inl e
In-take m (suc n) (k ∷ ms) (inr i) = inr (In-take m n ms i)

-- what the first `n` of a sorted list leave out is not older than they
take_or_newer :
    (m : Memory) (n : ℕ) (ms : List Memory)
    → IsOldestFirst ms
    → In m ms
    → In m (take n ms)
      ⊎ ((length (take n ms) ≡ n) × All (λ k. k.created_at ≤ m.created_at) (take n ms))
take_or_newer m zero ms sorted h = inr (refl, tt)
take_or_newer m (suc n) [] sorted h = absurd h
take_or_newer m (suc n) (k ∷ ms) sorted (inl e) = inl (inl e)
take_or_newer m (suc n) (k ∷ ms) sorted (inr i) = elim (take_or_newer m n ms sorted.1 i) [
  | inl here ↦ inl (inr here)
  | inr (full, older) ↦
      inr (ap suc full, (All-In (λ l. k.created_at ≤ l.created_at) ms m sorted.0 i, older))
]

All-take :
    (t : ℕ) (n : ℕ) (ms : List Memory)
    → All (λ k. t ≤ k.created_at) ms
    → All (λ k. t ≤ k.created_at) (take n ms)
All-take t zero ms a = tt
All-take t (suc n) [] a = tt
All-take t (suc n) (k ∷ ms) a = (a.0, All-take t n ms a.1)

take-IsOldestFirst : (n : ℕ) (ms : List Memory) → IsOldestFirst ms → IsOldestFirst (take n ms)
take-IsOldestFirst zero ms h = tt
take-IsOldestFirst (suc n) [] h = tt
take-IsOldestFirst (suc n) (k ∷ ms) h =
    (All-take k.created_at n ms h.0, take-IsOldestFirst n ms h.1)

select_invalidated :
    (memory_id : String) (rows : List Memory)
    → select (λ m. m.is_active) (update_where (λ m. m.id == memory_id) deactivated rows)
      ≡ select (λ m. m.is_active && not (m.id == memory_id)) rows
select_invalidated memory_id [] = refl
select_invalidated memory_id (m ∷ rows) = elim (Bool-cases (m.id == memory_id)) [
  | inl same ↦ ground (arith, select_invalidated memory_id rows)
  | inr other ↦ ground (arith, select_invalidated memory_id rows)
]

-- After invalidate, load_all_active lists at most `limit` rows, the older ones first. A row that it
-- lists is an active one with another id. An active row with another id is listed, or else there are
-- `limit` rows on the list and none of them is newer than it.
pub invalidate_effect :
    (memory_id : String) (limit : ℕ) (rows : List Memory)
    → (length (load_all_active limit (invalidate memory_id rows)) ≤ limit)
      × IsOldestFirst (load_all_active limit (invalidate memory_id rows))
      × ((m : Memory)
          → In m (load_all_active limit (invalidate memory_id rows))
          → In m rows × (m.is_active ≡ true) × (m.id ≢ memory_id))
      × ((m : Memory)
          → In m rows
          → m.is_active ≡ true
          → m.id ≢ memory_id
          → In m (load_all_active limit (invalidate memory_id rows))
            ⊎ ((length (load_all_active limit (invalidate memory_id rows)) ≡ limit)
                × All
                    (λ k. k.created_at ≤ m.created_at)
                    (load_all_active limit (invalidate memory_id rows))))
unfolding load_all_active invalidate
invalidate_effect memory_id limit rows =
    let test = λ (m : Memory). m.is_active && not (m.id == memory_id) in
    let listed = oldest_first (select test rows) in
    let sorted = oldest_first-IsOldestFirst (select test rows) in
    rw (select_invalidated memory_id rows) (
      length-take-le limit listed,
      take-IsOldestFirst limit listed sorted,
      λ m i.
          let (row, passes) =
            In-select test m rows
              ((In-oldest_first m (select test rows)).0 (In-take m limit listed i)) in
          (row, ground arith, ground (arith, string_eq.beq_iff m.id memory_id)),
      λ m row active other. take_or_newer m limit listed sorted (
          (In-oldest_first m (select test rows)).1
            (select-In test m rows row (ground (arith, string_eq.beq_iff m.id memory_id)))),
    )
