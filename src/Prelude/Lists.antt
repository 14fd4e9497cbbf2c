-- ===== src/Prelude/Lists.antt =====
-- Lists: native lengths, searches by a Boolean test, and predicates by recursion.
use Prim.Native.Nat.{ℕ, zero, suc, ◌+◌, ◌≤◌}
use mathlib.Core.Path.{◌≡◌, refl, ap, sym, subst}
use mathlib.Core.Logic.{◌⊎◌, inl, inr, ◌↔◌}
use mathlib.Core.Bool.{Bool, true, false, ◌&&◌, ◌||◌}
use mathlib.Core.Option.{Option, none, some}
use mathlib.Core.List.{List, [], ◌∷◌, ◌++◌}
use native.Mathlib.Omega.{arith}
use url_copilot.Prelude.Tests.{Bool-cases, if◌then◌else◌}
use url_copilot.Prelude.Keys.{Eq, nat_eq, string_eq, ◌==◌}

module _ {ℓ} {A : Type ℓ} where
  abbrev pub length : List A → ℕ
  length [] = 0
  length (x ∷ xs) = suc (length xs)

  abbrev pub take : ℕ → List A → List A
  take zero xs = []
  take (suc n) [] = []
  take (suc n) (x ∷ xs) = x ∷ take n xs

  abbrev pub drop : ℕ → List A → List A
  drop zero xs = xs
  drop (suc n) [] = []
  drop (suc n) (x ∷ xs) = drop n xs

  abbrev pub get_last? : List A → Option A
  get_last? [] = none
  get_last? (x ∷ []) = some x
  get_last? (x ∷ y ∷ xs) = get_last? (y ∷ xs)

  pub length-append : (xs ys : List A) → length (xs ++ ys) ≡ length xs + length ys
  length-append [] ys = omega arith
  length-append (x ∷ xs) ys = omega (arith, length-append xs ys)

  pub length-take-le : (n : ℕ) (xs : List A) → length (take n xs) ≤ n
  length-take-le zero xs = omega arith
  length-take-le (suc n) [] = omega arith
  length-take-le (suc n) (x ∷ xs) = omega (arith, length-take-le n xs)

  -- `[x for x in xs if p(x)]`, and the rows that a WHERE clause keeps
  abbrev pub select : (A → Bool) → List A → List A
  select p [] = []
  select p (x ∷ xs) = let rest = select p xs in if p x then x ∷ rest else rest

  -- the first row that satisfies a test, as `.first()`
  abbrev pub first : (A → Bool) → List A → Option A
  first p [] = none
  first p (x ∷ xs) = if p x then some x else first p xs

  abbrev pub any_of : (A → Bool) → List A → Bool
  any_of p [] = false
  any_of p (x ∷ xs) = p x || any_of p xs

  -- UPDATE ... WHERE p
  abbrev pub update_where : (A → Bool) → (A → A) → List A → List A
  update_where p f [] = []
  update_where p f (x ∷ xs) = (if p x then f x else x) ∷ update_where p f xs

  pub first_sound : (p : A → Bool) (xs : List A) {x : A} → first p xs ≡ some x → p x ≡ true
  first_sound p [] h = ground arith
  first_sound p (y ∷ ys) {x} h = ground (arith, first_sound p ys {x = x})

  pub first-none_iff : (p : A → Bool) (xs : List A) → (first p xs ≡ none) ↔ (any_of p xs ≡ false)
  first-none_iff p [] = ground arith
  first-none_iff p (x ∷ xs) = ground (arith, first-none_iff p xs)

  pub length-select-le : (p : A → Bool) (xs : List A) → length (select p xs) ≤ length xs
  length-select-le p [] = omega arith
  length-select-le p (x ∷ xs) = ground (arith, length-select-le p xs)

module _ {ℓ κ} {A : Type ℓ} where
  abbrev pub All : (A → Type κ) → List A → Type κ
  All P [] = Unit
  All P (u ∷ us) = P u × All P us

  pub All-append : (P : A → Type κ) (us vs : List A) → All P us → All P vs → All P (us ++ vs)
  All-append P [] vs left right = right
  All-append P (u ∷ us) vs (here, left) right = (here, All-append P us vs left right)

-- A place of `a` in a list.
abbrev pub In : {A : Type 0} → A → List A → Type 0
In a [] = ⊥
In a (x ∷ xs) = (a ≡ x) ⊎ In a xs

module _ {κ} {A : Type 0} where
  pub All-In : (P : A → Type κ) (xs : List A) (a : A) → All P xs → In a xs → P a
  All-In P [] a h i = absurd i
  All-In P (x ∷ xs) a h (inl e) = subst P (sym e) h.0
  All-In P (x ∷ xs) a h (inr i) = All-In P xs a h.1 i

module _ {A : Type 0} where
  pub In-append_left : (a : A) (xs ys : List A) → In a xs → In a (xs ++ ys)
  In-append_left a [] ys h = absurd h
  In-append_left a (x ∷ xs) ys (inl h) = inl h
  In-append_left a (x ∷ xs) ys (inr h) = inr (In-append_left a xs ys h)

  pub In-append_right : (a : A) (xs ys : List A) → In a ys → In a (xs ++ ys)
  In-append_right a [] ys h = h
  In-append_right a (x ∷ xs) ys h = inr (In-append_right a xs ys h)

  pub In-append : (a : A) (xs ys : List A) → In a (xs ++ ys) → In a xs ⊎ In a ys
  In-append a [] ys h = inr h
  In-append a (x ∷ xs) ys (inl e) = inl (inl e)
  In-append a (x ∷ xs) ys (inr i) = elim (In-append a xs ys i) [
    | inl j ↦ inl (inr j)
    | inr j ↦ inr j
  ]

  pub first-In : (p : A → Bool) (xs : List A) {x : A} → first p xs ≡ some x → In x xs
  first-In p [] h = ground arith
  first-In p (y ∷ ys) {x} h = ground (arith, first-In p ys {x = x})

pub List-cases : {A : Type 0} (xs : List A) → (xs ≡ []) ⊎ ((y : A) × (ys : List A) × (xs ≡ y ∷ ys))
List-cases [] = inl refl
List-cases (y ∷ ys) = inr (y, ys, refl)

module _ {A : Type 0} ⦃e : Eq A⦄ where
  -- `a in xs`
  abbrev pub contains : A → List A → Bool
  contains a [] = false
  contains a (x ∷ xs) = a == x || contains a xs

  pub contains→In : (a : A) (xs : List A) → contains a xs ≡ true → In a xs
  contains→In a [] h = ground arith
  contains→In a (x ∷ xs) h = ground (arith, e.beq_iff a x, contains→In a xs)

  pub In→contains : (a : A) (xs : List A) → In a xs → contains a xs ≡ true
  In→contains a [] h = absurd h
  In→contains a (x ∷ xs) h = ground (arith, e.beq_iff a x, In→contains a xs)

module _ {A : Type 0} (p : A → Bool) where
  pub In-select : (a : A) (xs : List A) → In a (select p xs) → In a xs × (p a ≡ true)
  In-select a [] h = absurd h
  In-select a (x ∷ xs) h = elim (Bool-cases (p x)) [
    | inl kept ↦ ground (arith, In-select a xs)
    | inr dropped ↦ ground (arith, In-select a xs)
  ]

  pub select-In : (a : A) (xs : List A) → In a xs → p a ≡ true → In a (select p xs)
  select-In a [] h kept = absurd h
  select-In a (x ∷ xs) h kept = elim (Bool-cases (p x)) [
    | inl here ↦ ground (arith, select-In a xs)
    | inr dropped ↦ ground (arith, select-In a xs)
  ]

  pub select-select :
      (q : A → Bool) (xs : List A) → select q (select p xs) ≡ select (λ a. p a && q a) xs
  select-select q [] = refl
  select-select q (x ∷ xs) = elim (Bool-cases (p x)) [
    | inl kept ↦ ground (arith, select-select q xs)
    | inr dropped ↦ ground (arith, select-select q xs)
  ]

  pub In-update_where :
      (f : A → A) (b : A) (xs : List A)
      → In b (update_where p f xs)
      → (a : A) × In a xs × (b ≡ (if p a then f a else a))
  In-update_where f b [] h = absurd h
  In-update_where f b (x ∷ xs) (inl e) = (x, inl refl, e)
  In-update_where f b (x ∷ xs) (inr i) = let (a, j, e) = In-update_where f b xs i in (a, inr j, e)

  pub update_where-In :
      (f : A → A) (a : A) (xs : List A)
      → In a xs
      → In (if p a then f a else a) (update_where p f xs)
  update_where-In f a [] h = absurd h
  update_where-In f a (x ∷ xs) (inl e) = inl (ap (λ y. if p y then f y else y) e)
  update_where-In f a (x ∷ xs) (inr i) = inr (update_where-In f a xs i)

  pub any_of-In : (a : A) (xs : List A) → In a xs → p a ≡ true → any_of p xs ≡ true
  any_of-In a [] h holds = absurd h
  any_of-In a (x ∷ xs) h holds = ground (arith, any_of-In a xs)
