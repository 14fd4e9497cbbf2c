-- ===== src/Prompts/Latest.antt =====
-- The choice of the prompt file.
use mathlib.Core.Path.{subst}
use url_copilot.Prelude.{
  Bool-cases, In, List, List-cases, Option-cases, String, [], ap, arith, err, inl, inr, ltb, none,
  ok, refl, some, sym, ℕ, ◌↔◌, ◌∙◌, ◌∷◌, ◌≡◌, ◌≤◌,
}
use url_copilot.Prompts.Loader.{
  Candidate, Directory, candidates, greatest, load, no_prompt_file, stem, version_of,
}

-- a candidate is a file of the directory with a version for the stage
abbrev IsPromptOf : String → Directory → Candidate → Type 0
IsPromptOf stage directory c =
    In (c.name, c.content) directory × (version_of stage c.name ≡ some c.version)

candidates-miss :
    (stage name content : String) (files : Directory)
    → version_of stage name ≡ none
    → candidates stage ((name, content) ∷ files) ≡ candidates stage files
unfolding candidates
candidates-miss stage name content files other = ground arith

candidates-hit :
    (stage name content : String) (files : Directory) (n : ℕ)
    → version_of stage name ≡ some n
    → candidates stage ((name, content) ∷ files)
      ≡ record { version = n; name = name; content = content } ∷ candidates stage files
unfolding candidates
candidates-hit stage name content files n matching = ground arith

candidates_sound :
    (stage : String) (directory : Directory) (c : Candidate)
    → In c (candidates stage directory)
    → IsPromptOf stage directory c
unfolding candidates
candidates_sound stage [] c h = absurd h
candidates_sound stage ((name, content) ∷ files) c h = elim (Option-cases (version_of stage name)) [
  | inl other ↦
      let (i, v) =
        candidates_sound stage files c
          (subst (In c) (candidates-miss stage name content files other) h) in
      (inr i, v)
  | inr (n, matching) ↦ elim (subst (In c) (candidates-hit stage name content files n matching) h) [
    | inl e ↦ (
      inl (ap (λ d. (d.name, d.content)) e),
      ap (λ d. version_of stage d.name) e ∙ (matching ∙ ap (λ d. some d.version) (sym e)),
    )
    | inr i ↦ let (j, v) = candidates_sound stage files c i in (inr j, v)
  ]
]

candidates_complete :
    (stage : String) (directory : Directory) (c : Candidate)
    → IsPromptOf stage directory c
    → In c (candidates stage directory)
candidates_complete stage [] c (h, v) = absurd h
candidates_complete stage ((name, content) ∷ files) c (inl e, v) =
    let matching : version_of stage name ≡ some c.version =
      ap (λ p. version_of stage p.0) (sym e) ∙ v in
    subst (In c) (sym (candidates-hit stage name content files c.version matching))
      (inl (ap (λ p. record { version = c.version; name = p.0; content = p.1 }) e))
candidates_complete stage ((name, content) ∷ files) c (inr i, v) =
    let rest = candidates_complete stage files c (i, v) in
    elim (Option-cases (version_of stage name)) [
      | inl other ↦ subst (In c) (sym (candidates-miss stage name content files other)) rest
      | inr (n, matching) ↦
          subst (In c) (sym (candidates-hit stage name content files n matching)) (inr rest)
    ]

greatest-In : (best : Candidate) (cs : List Candidate) → In (greatest best cs) (best ∷ cs)
unfolding greatest
greatest-In best [] = inl refl
greatest-In best (c ∷ cs) = elim (Bool-cases (ltb best.version c.version)) [
  | inl less ↦
      let same : greatest c cs ≡ greatest best (c ∷ cs) = ground arith in
      subst (λ g. In g (best ∷ c ∷ cs)) same (inr (greatest-In c cs))
  | inr not_less ↦
      let same : greatest best cs ≡ greatest best (c ∷ cs) = ground arith in
      subst (λ g. In g (best ∷ c ∷ cs)) same
        (elim (greatest-In best cs) [ inl e ↦ inl e | inr i ↦ inr (inr i) ])
]

greatest-first :
    (best : Candidate) (cs : List Candidate) → best.version ≤ (greatest best cs).version
unfolding greatest
greatest-first best [] = omega arith
greatest-first best (c ∷ cs) = elim (Bool-cases (ltb best.version c.version)) [
  | inl less ↦ ground (arith, greatest-first c cs)
  | inr not_less ↦ ground (arith, greatest-first best cs)
]

greatest-later :
    (best d : Candidate) (cs : List Candidate) → In d cs → d.version ≤ (greatest best cs).version
unfolding greatest
greatest-later best d [] h = absurd h
greatest-later best d (c ∷ cs) (inl e) = elim (Bool-cases (ltb best.version c.version)) [
  | inl less ↦ ground (arith, greatest-first c cs)
  | inr not_less ↦ ground (arith, greatest-first best cs)
]
greatest-later best d (c ∷ cs) (inr i) = elim (Bool-cases (ltb best.version c.version)) [
  | inl less ↦ ground (arith, greatest-later c d cs i)
  | inr not_less ↦ ground (arith, greatest-later best d cs i)
]

greatest-max :
    (best d : Candidate) (cs : List Candidate)
    → In d (best ∷ cs)
    → d.version ≤ (greatest best cs).version
greatest-max best d cs (inl e) = ground (arith, greatest-first best cs)
greatest-max best d cs (inr i) = greatest-later best d cs i

-- `load` returns the text of a file of the directory that is a prompt of the stage and whose version
-- is the greatest of all such files, with the stem of its name; and it raises exactly if there is no
-- such file.
pub load_latest :
    (stage : String) (directory : Directory)
    → ((content version : String)
        → load stage directory ≡ ok (content, version)
        → (name : String) × (n : ℕ) × In (name, content) directory
          × (version_of stage name ≡ some n)
          × (version ≡ stem name)
          × ((other other_content : String) (m : ℕ)
              → In (other, other_content) directory
              → version_of stage other ≡ some m
              → m ≤ n))
      × ((load stage directory ≡ err no_prompt_file)
          ↔ ((name content : String) → In (name, content) directory → version_of stage name ≡ none))
unfolding load
load_latest stage directory = elim (List-cases (candidates stage directory)) [
  | inl empty ↦ (
    λ content version loaded. absurd (ground arith),
    (
      (λ raised name content i. elim (Option-cases (version_of stage name)) [
        | inl other ↦ other
        | inr (n, matching) ↦ absurd (
            subst (In (record { version = n; name = name; content = content })) empty (
              candidates_complete stage directory
                (record { version = n; name = name; content = content }) (i, matching)))
      ]),
      λ none_matches. ground arith,
    ),
  )
  | inr (c, cs, found) ↦
      let best = greatest c cs in
      let (i, v) =
        candidates_sound stage directory best (subst (In best) (sym found) (greatest-In c cs)) in
      (
        λ content version loaded. (
          best.name,
          best.version,
          subst (λ t. In (best.name, t) directory) (ground arith) i,
          v,
          ground arith,
          λ other other_content m j w.
              greatest-max c (record { version = m; name = other; content = other_content }) cs
                (subst (In (record { version = m; name = other; content = other_content })) found (
                  candidates_complete stage directory
                    (record { version = m; name = other; content = other_content }) (j, w))),
        ),
        (
          (λ raised. absurd (ground arith)),
          λ none_matches.
              let unmatched = none_matches best.name best.content i in absurd (ground arith),
        ),
      )
]
