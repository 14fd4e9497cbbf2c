-- ===== src/Gateway/Scans/Exact.antt =====
-- What passes the scans, by an independent reading of "contains".
use mathlib.Core.Path.{subst}
use url_copilot.Prelude.{
  All, Bool-cases, In, In→contains, IsInfix, IsInfix→occurs_in, List, Result-cases, String, [],
  arith, codes, contains, contains→In, eq_iff, false, inl, inr, nat_eq, occurs_in,
  occurs_in→IsInfix, ok, refl, string_eq, sym, ℕ, ◌==◌, ◌↔◌, ◌∷◌, ◌≡◌,
}
use url_copilot.Gateway.Models.{Message, content_of}
use url_copilot.Gateway.Scans.{
  check_injection, check_message, check_output, check_schema, dangerous_code_patterns,
  injection_patterns, mentions_any, validate,
}

-- No pattern of the list stands anywhere in the text.
abbrev pub IsClean : List String → List ℕ → Type 0
IsClean ps text = (p : String) → In p ps → ¬ IsInfix (codes p) text

IsClean-sound : (ps : List String) (text : List ℕ) → mentions_any ps text ≡ false → IsClean ps text
unfolding mentions_any
IsClean-sound [] text h p i = absurd i
IsClean-sound (q ∷ ps) text h p (inl e) = λ found.
    ground (arith, IsInfix→occurs_in (codes q) text (subst (λ s. IsInfix (codes s) text) e found))
IsClean-sound (q ∷ ps) text h p (inr i) = IsClean-sound ps text (ground arith) p i

IsClean-complete :
    (ps : List String) (text : List ℕ) → IsClean ps text → mentions_any ps text ≡ false
unfolding mentions_any
IsClean-complete [] text c = refl
IsClean-complete (p ∷ ps) text c = elim (Bool-cases (occurs_in (codes p) text)) [
  | inl found ↦ absurd (c p (inl refl) (occurs_in→IsInfix (codes p) text found))
  | inr absent ↦ ground (arith, IsClean-complete ps text (λ q i. c q (inr i)))
]

-- What the validator asks of one message.
abbrev pub IsHarmless : (List ℕ → List ℕ) → Message → Type 0
IsHarmless lower m =
    m.role ≡ "user"
    → (¬ In 0 (codes (content_of m))) × IsClean injection_patterns (lower (codes (content_of m)))

module _ (lower : List ℕ → List ℕ) where
  check_message_tests :
      (m : Message)
      → m.role ≡ "user"
      → check_message lower m ≡ ok tt
      → (contains 0 (codes (content_of m)) ≡ false)
        × (mentions_any injection_patterns (lower (codes (content_of m))) ≡ false)
  unfolding check_message check_schema check_injection
  check_message_tests m user h = ground (arith, eq_iff m.role "user")

  check_message_passes :
      (m : Message)
      → (m.role ≡ "user"
          → (contains 0 (codes (content_of m)) ≡ false)
            × (mentions_any injection_patterns (lower (codes (content_of m))) ≡ false))
      → check_message lower m ≡ ok tt
  unfolding check_message check_schema check_injection
  check_message_passes m h = elim (Bool-cases (m.role == "user")) [
    | inl user ↦ let (no_null, no_pattern) = h ((eq_iff m.role "user").0 user) in ground arith
    | inr other ↦ ground arith
  ]

  check_message_exact : (m : Message) → (check_message lower m ≡ ok tt) ↔ IsHarmless lower m
  check_message_exact m = (
    λ h user.
        let (no_null, no_pattern) = check_message_tests m user h in
        (
          λ i. cc (In→contains 0 (codes (content_of m)) i, no_null),
          IsClean-sound injection_patterns _ no_pattern,
        ),
    λ harmless. check_message_passes m λ user. (
      elim (Bool-cases (contains 0 (codes (content_of m)))) [
        | inl null ↦ absurd ((harmless user).0 (contains→In 0 _ null))
        | inr no_null ↦ no_null
      ],
      IsClean-complete injection_patterns _ (harmless user).1,
    ),
  )

  -- The validator lets a list of messages through exactly if no message of the user contains a null
  -- character or, in lower case, one of the injection patterns.
  pub validate_exact : (ms : List Message) → (validate lower ms ≡ ok tt) ↔ All (IsHarmless lower) ms
  unfolding validate
  validate_exact [] = (λ h. tt, λ h. refl)
  validate_exact (m ∷ ms) = (
    λ h. elim (Result-cases (check_message lower m)) [
      | inl (x, failed) ↦ absurd (ground arith)
      | inr (done, passed) ↦
          ((check_message_exact m).0 (ground arith), (validate_exact ms).0 (ground arith))
    ],
    λ (harmless, rest).
        let first_passes = (check_message_exact m).1 harmless in
        let rest_passes = (validate_exact ms).1 rest in ground arith,
  )

-- No dangerous pattern stands in an empty text.
empty_text_clean : mentions_any dangerous_code_patterns [] ≡ false
unfolding mentions_any
empty_text_clean = refl

-- A response passes the output scan exactly if it contains none of the dangerous patterns.
pub check_output_exact :
    (text : String) → (check_output text ≡ ok tt) ↔ IsClean dangerous_code_patterns (codes text)
unfolding check_output
check_output_exact text = elim (Bool-cases (text == "")) [
  | inl empty ↦ (
    λ h. IsClean-sound dangerous_code_patterns _ (
        subst (λ t. mentions_any dangerous_code_patterns (codes t) ≡ false)
          (sym ((eq_iff text "").0 empty)) empty_text_clean),
    λ c. ground arith,
  )
  | inr full ↦ (
    λ h. IsClean-sound dangerous_code_patterns _ (ground arith),
    λ c. let clean = IsClean-complete dangerous_code_patterns _ c in ground arith,
  )
]
