-- ===== src/Prelude/Texts.antt =====
-- Text as code points, and Python's `in`, `startswith` and `len` on it.
use Prim.Native.Char.{code}
use Prim.Native.Nat.{ℕ, zero, suc}
use Prim.Native.String.{String}
use mathlib.Core.Path.{◌≡◌, refl, ap}
use mathlib.Core.Bool.{Bool, true, false, ◌&&◌, ◌||◌}
use mathlib.Core.List.{List, [], ◌∷◌, ◌++◌}
use mathlib.Core.Logic.{inl, inr}
use native.Mathlib.Omega.{arith}
use url_copilot.Prelude.Tests.{Bool-cases, nat_beq, nat_beq_iff}

abbrev pub codes : String → List ℕ
codes String.[] = []
codes (String.◌∷◌ c s) = code c ∷ codes s

-- `t.startswith(p)`
abbrev pub starts_with : List ℕ → List ℕ → Bool
starts_with [] t = true
starts_with (c ∷ p) [] = false
starts_with (c ∷ p) (d ∷ t) = nat_beq c d && starts_with p t

-- `p in t`
abbrev pub occurs_in : List ℕ → List ℕ → Bool
occurs_in p [] = starts_with p []
occurs_in p (d ∷ t) = starts_with p (d ∷ t) || occurs_in p t

-- An independent reading of the two: `t` is `p` with text after it, or text around it.
abbrev pub IsPrefix : List ℕ → List ℕ → Type 0
IsPrefix p t = (after : List ℕ) × (t ≡ p ++ after)

abbrev pub IsInfix : List ℕ → List ℕ → Type 0
IsInfix p t = (before : List ℕ) × (after : List ℕ) × (t ≡ before ++ (p ++ after))

pub starts_with→IsPrefix : (p t : List ℕ) → starts_with p t ≡ true → IsPrefix p t
starts_with→IsPrefix [] t h = (t, refl)
starts_with→IsPrefix (c ∷ p) [] h = cc
starts_with→IsPrefix (c ∷ p) (d ∷ t) h =
    let (after, e) = starts_with→IsPrefix p t (ground arith) in
    (after, ground (arith, nat_beq_iff c d, e))

pub starts_with-append : (p t : List ℕ) → starts_with p (p ++ t) ≡ true
starts_with-append [] t = refl
starts_with-append (c ∷ p) t = ground (arith, starts_with-append p t)

pub IsPrefix→starts_with : (p t : List ℕ) → IsPrefix p t → starts_with p t ≡ true
IsPrefix→starts_with p t (after, e) = rw e (starts_with-append p after)

pub occurs_in→IsInfix : (p t : List ℕ) → occurs_in p t ≡ true → IsInfix p t
occurs_in→IsInfix p [] h = let (after, e) = starts_with→IsPrefix p [] h in ([], after, e)
occurs_in→IsInfix p (d ∷ t) h = elim (Bool-cases (starts_with p (d ∷ t))) [
  | inl here ↦ let (after, e) = starts_with→IsPrefix p (d ∷ t) here in ([], after, e)
  | inr later ↦
      let (before, after, e) = occurs_in→IsInfix p t (ground arith) in
      (d ∷ before, after, ap (◌∷◌ d) e)
]

occurs_in-append : (p before after : List ℕ) → occurs_in p (before ++ (p ++ after)) ≡ true
occurs_in-append [] [] [] = refl
occurs_in-append [] [] (c ∷ after) = refl
occurs_in-append (c ∷ p) [] after = rw (starts_with-append (c ∷ p) after) refl
occurs_in-append p (d ∷ before) after = ground (arith, occurs_in-append p before after)

pub IsInfix→occurs_in : (p t : List ℕ) → IsInfix p t → occurs_in p t ≡ true
IsInfix→occurs_in p t (before, after, e) = rw e (occurs_in-append p before after)

-- Python's `s + t` and `s[:n]`
abbrev pub concat : String → String → String
concat String.[] t = t
concat (String.◌∷◌ c s) t = String.◌∷◌ c (concat s t)

abbrev pub prefix_of : ℕ → String → String
prefix_of zero s = String.[]
prefix_of (suc n) String.[] = String.[]
prefix_of (suc n) (String.◌∷◌ c s) = String.◌∷◌ c (prefix_of n s)

-- `sep.join(parts)`
abbrev pub join : String → List String → String
join sep [] = ""
join sep (part ∷ []) = part
join sep (part ∷ next_part ∷ parts) = concat part (concat sep (join sep (next_part ∷ parts)))

-- `s or default`
abbrev pub or_else : String → String → String
or_else String.[] default = default
or_else (String.◌∷◌ c s) default = String.◌∷◌ c s
