-- ===== src/Service/Alias.antt =====
-- Custom aliases, `is_valid_custom_alias` of service/core/url_generator.py, over code points.
use mathlib.Core.List.{append_assoc, append-nil}
use mathlib.Core.Path.{subst}
use url_copilot.Prelude.{
  All, Bool, Bool-cases, List, String, [], ap, arith, codes, false, if◌then◌else◌, inl, inr, leb,
  length, length-append, nat_eq, not, refl, string_eq, suc, sym, true, zero, ℕ, ◌&&◌, ◌++◌, ◌+◌,
  ◌==◌, ◌||◌, ◌↔◌, ◌∙◌, ◌∷◌, ◌≡◌, ◌≤◌, ◌⊎◌,
}

-- [a-zA-Z0-9]
unfoldable pub is_alnum : ℕ → Bool
is_alnum c = leb b'a' c && leb c b'z' || leb b'A' c && leb c b'Z' || leb b'0' c && leb c b'9'

-- [a-zA-Z0-9\-]
unfoldable pub is_slug : ℕ → Bool
is_slug c = is_alnum c || c == b'-'

-- `$` of Python's `re` without MULTILINE: the end of the text, or a newline that ends it
unfoldable pub at_end : List ℕ → Bool
at_end [] = true
at_end (c ∷ []) = c == 10
at_end (c ∷ d ∷ t) = false

-- [a-zA-Z0-9]$
unfoldable pub match_last : List ℕ → Bool
match_last [] = false
match_last (c ∷ t) = is_alnum c && at_end t

-- at most `n` more of [a-zA-Z0-9\-], greedy with backtracking, then `match_last`
unfoldable pub match_rest : ℕ → List ℕ → Bool
unfolding match_last
match_rest zero t = match_last t
match_rest (suc n) [] = false
match_rest (suc n) (c ∷ t) = is_slug c && match_rest n t || match_last (c ∷ t)

-- `_ALIAS_PATTERN.match`
unfoldable pub match_alias : List ℕ → Bool
unfolding match_rest
match_alias [] = false
match_alias (a ∷ []) = false
match_alias (a ∷ b ∷ t) = is_alnum a && is_slug b && match_rest 29 t

-- the body of the function on the code points of the alias
unfoldable pub is_valid_codes : List ℕ → Bool
unfolding match_alias
is_valid_codes t = if not (leb 3 (length t) && leb (length t) 32) then false else match_alias t

unfoldable pub is_valid_custom_alias : String → Bool
unfolding is_valid_codes
is_valid_custom_alias alias = is_valid_codes (codes alias)

-- What the docstring promises of an alias, and what `$` lets through besides.
abbrev pub IsSlugText : List ℕ → Type 0
IsSlugText s =
    (a : ℕ) × (middle : List ℕ) × (z : ℕ) × (s ≡ a ∷ (middle ++ z ∷ []))
    × (is_alnum a ≡ true)
    × (1 ≤ length middle)
    × All (λ c. is_slug c ≡ true) middle
    × (is_alnum z ≡ true)

at_end-cases : (t : List ℕ) → at_end t ≡ true → (t ≡ []) ⊎ (t ≡ 10 ∷ [])
unfolding at_end
at_end-cases [] h = inl refl
at_end-cases (c ∷ []) h = inr (ground arith)
at_end-cases (c ∷ d ∷ t) h = cc

match_rest_sound :
    (n : ℕ) (t : List ℕ)
    → match_rest n t ≡ true
    → (middle : List ℕ) × (z : ℕ) × (r : List ℕ) × (t ≡ middle ++ z ∷ r)
      × All (λ c. is_slug c ≡ true) middle
      × (is_alnum z ≡ true)
      × (at_end r ≡ true)
unfolding match_rest
match_rest_sound zero [] h = cc
match_rest_sound zero (c ∷ t) h = ([], c, t, refl, tt, ground arith, ground arith)
match_rest_sound (suc n) [] h = cc
match_rest_sound (suc n) (c ∷ t) h = elim (Bool-cases (match_last (c ∷ t))) [
  | inl last ↦ ([], c, t, refl, tt, ground arith, ground arith)
  | inr longer ↦
      let (middle, z, r, e, slug, alnum, end) = match_rest_sound n t (ground arith) in
      (c ∷ middle, z, r, ap (◌∷◌ c) e, (ground arith, slug), alnum, end)
]

match_rest_complete :
    (n : ℕ) (middle : List ℕ) (z : ℕ) (r : List ℕ)
    → length middle ≤ n
    → All (λ c. is_slug c ≡ true) middle
    → is_alnum z ≡ true
    → at_end r ≡ true
    → match_rest n (middle ++ z ∷ r) ≡ true
unfolding match_rest
match_rest_complete zero [] z r fits slug alnum end = ground arith
match_rest_complete zero (c ∷ middle) z r fits slug alnum end = absurd (omega arith)
match_rest_complete (suc n) [] z r fits slug alnum end = ground arith
match_rest_complete (suc n) (c ∷ middle) z r fits slug alnum end =
    ground (arith, match_rest_complete n middle z r (omega arith) slug.1 alnum end)

match_alias_sound :
    (t : List ℕ)
    → match_alias t ≡ true
    → (s : List ℕ) × IsSlugText s × ((t ≡ s) ⊎ (t ≡ s ++ 10 ∷ []))
unfolding match_alias
match_alias_sound [] h = cc
match_alias_sound (a ∷ []) h = cc
match_alias_sound (a ∷ b ∷ t) h =
    let (middle, z, r, e, slug, alnum, end) = match_rest_sound 29 t (ground arith) in
    (
      a ∷ ((b ∷ middle) ++ z ∷ []),
      (a, b ∷ middle, z, refl, ground arith, omega arith, (ground arith, slug), alnum),
      elim (at_end-cases r end) [
        | inl plain ↦ inl (rw (e, plain) refl)
        | inr newline ↦ inr (rw (e, newline, append_assoc) refl)
      ],
    )

match_alias_complete :
    (a : ℕ) (middle : List ℕ) (z : ℕ) (r : List ℕ)
    → is_alnum a ≡ true
    → 1 ≤ length middle
    → length middle ≤ 30
    → All (λ c. is_slug c ≡ true) middle
    → is_alnum z ≡ true
    → at_end r ≡ true
    → match_alias (a ∷ (middle ++ z ∷ r)) ≡ true
unfolding match_alias
match_alias_complete a [] z r alnum some_middle fits slug last end = absurd (omega arith)
match_alias_complete a (b ∷ middle) z r alnum some_middle fits slug last end =
    ground (arith, match_rest_complete 29 middle z r (omega arith) slug.1 last end)

within_bounds : (t : List ℕ) → is_valid_codes t ≡ true → (match_alias t ≡ true) × (length t ≤ 32)
unfolding is_valid_codes
within_bounds t h = elim (Bool-cases (match_alias t)) [
  | inl m ↦ (m, ground arith)
  | inr m ↦ absurd (ground arith)
]

is_valid_codes_complete :
    (s r : List ℕ)
    → IsSlugText s
    → at_end r ≡ true
    → length (s ++ r) ≤ 32
    → is_valid_codes (s ++ r) ≡ true
unfolding is_valid_codes
is_valid_codes_complete s r (a, middle, z, e, alnum, some_middle, slug, last) end fits =
    let reshape : s ++ r ≡ a ∷ (middle ++ z ∷ r) = rw (e, append_assoc) refl in
    let size : length (s ++ r) ≡ suc (length middle + suc (length r)) =
      rw reshape (omega (arith, length-append middle (z ∷ r))) in
    let matched : match_alias (s ++ r) ≡ true =
      rw reshape
        (match_alias_complete a middle z r alnum some_middle (omega arith) slug last end) in
    ground arith

-- An alias passes exactly if it has at most 32 characters and is a letter or digit, then at
-- least one letter, digit or hyphen, then a letter or digit; or such a text and a newline.
pub alias_rule :
    (alias : String)
    → (is_valid_custom_alias alias ≡ true) ↔ (
        (s : List ℕ) × IsSlugText s
        × (length (codes alias) ≤ 32)
        × ((codes alias ≡ s) ⊎ (codes alias ≡ s ++ 10 ∷ [])))
unfolding is_valid_custom_alias at_end
alias_rule alias = (
  λ h.
      let (m, fits) = within_bounds (codes alias) h in
      let (s, slug, shape) = match_alias_sound (codes alias) m in (s, slug, fits, shape),
  λ t.
      let (s, slug, fits, shape) = t in
      elim shape [
        | inl plain ↦ accepted_with [] refl s slug (plain ∙ sym (append-nil s)) fits
        | inr newline ↦ accepted_with (10 ∷ []) refl s slug newline fits
      ],
)
  where
    accepted_with :
        (r : List ℕ)
        → at_end r ≡ true
        → (s : List ℕ) → IsSlugText s
        → codes alias ≡ s ++ r
        → length (codes alias) ≤ 32
        → is_valid_codes (codes alias) ≡ true
    accepted_with r end s slug e fits =
        subst (λ t. is_valid_codes t ≡ true) (sym e)
          (is_valid_codes_complete s r slug end (subst (λ t. length t ≤ 32) e fits))
