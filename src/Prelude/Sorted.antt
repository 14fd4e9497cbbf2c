-- ===== src/Prelude/Sorted.antt =====
-- Sets of strings, as Python's `sorted` lists them.
use Prim.Native.String.{String, compare}
use Prim.Native.Nat.{Ordering}
use mathlib.Core.Path.{◌≡◌}
use mathlib.Core.Logic.{◌⊎◌, ◌↔◌}
use mathlib.Core.List.{List, [], ◌∷◌}
use native.Mathlib.Omega.{arith}
use text.Mathlib.TextEquality.{eq_iff}
use url_copilot.Prelude.Lists.{In}

-- a set of strings as `sorted` lists it: one more element
unfoldable pub insert_sorted : String → List String → List String
insert_sorted s [] = s ∷ []
insert_sorted s (t ∷ ts) = elim (compare s t) [
  | Ordering.lt ↦ s ∷ t ∷ ts
  | Ordering.eq ↦ t ∷ ts
  | Ordering.gt ↦ t ∷ insert_sorted s ts
]

-- `sorted(set(xs) | set(ys))`
unfoldable pub sorted_union : List String → List String → List String
unfolding insert_sorted
sorted_union [] ys = ys
sorted_union (x ∷ xs) ys = insert_sorted x (sorted_union xs ys)

pub In-insert_sorted :
    (p s : String) (ts : List String) → In p (insert_sorted s ts) ↔ ((p ≡ s) ⊎ In p ts)
unfolding insert_sorted
In-insert_sorted p s [] = ground arith
In-insert_sorted p s (t ∷ ts) = ground (arith, In-insert_sorted p s ts, eq_iff s t)

pub In-sorted_union :
    (p : String) (xs ys : List String) → In p (sorted_union xs ys) ↔ (In p xs ⊎ In p ys)
unfolding sorted_union
In-sorted_union p [] ys = ground arith
In-sorted_union p (x ∷ xs) ys =
    ground (arith, In-insert_sorted p x (sorted_union xs ys), In-sorted_union p xs ys)
