-- ===== src/Planner/Refinement.antt =====
-- `begin_run` of Runs.Gates takes the scenario of a requirement as given: `plan` is what gives it.
use url_copilot.Prelude.{
  Bool-cases, List, Option, Option-cases, Result, Result-cases, String, [], arith, codes, contains,
  err, inl, inr, length, ltb, nat_eq, none, ok, or_else, refl, some, string_eq, true, ℕ, ◌==◌, ◌≡◌,
  ◌⊎◌,
}
use url_copilot.Planner.{
  ClarificationResult, ClassifierResult, PlanError, Reading, clarify, classify, confidence_of,
  content_or_empty, parse_classification, request_of, scenario_of, scenario_types, value_or,
}
use url_copilot.Planner.Plan.{InitialState, plan, start_run, understand}
use url_copilot.Prelude.Json.{Value}
use url_copilot.Gateway.Models.{Request}
use url_copilot.Runs.Store.{Store, create_run}
use url_copilot.Gateway.Auth.{AuthError, CurrentUser}
use url_copilot.Runs.Gates.{begin_run}

scenario_of-valid : (v : Value) → contains (scenario_of v) scenario_types ≡ true
scenario_of-valid Value.null = refl
scenario_of-valid (Value.boolean b) = refl
scenario_of-valid (Value.num n) = refl
scenario_of-valid (Value.text s) = elim (Bool-cases (contains s scenario_types)) [
  | inl valid ↦ rw valid valid
  | inr other ↦ rw other refl
]
scenario_of-valid (Value.composite filled s) = refl

-- the scenario alone, `none` where `plan` raises
abbrev pub scenario_known : Result PlanError (String × ClarificationResult) → Option String
scenario_known (err x) = none
scenario_known (ok (kind, clear)) = some kind

parse_classification-valid :
    (r : Reading) (raw : String) (c : ClassifierResult)
    → parse_classification r raw ≡ ok c
    → contains c.scenario_type scenario_types ≡ true
unfolding parse_classification
parse_classification-valid r raw c h = elim (Option-cases (r.load_object raw)) [
  | inl malformed ↦ absurd (ground arith)
  | inr (fields, loaded) ↦ elim (Result-cases (confidence_of r fields)) [
    | inl (x, bad) ↦ absurd (ground arith)
    | inr (confidence, good) ↦
        let kind = scenario_of (value_or "scenario_type" (Value.text "ambiguous") fields) in
        let same : c.scenario_type ≡ kind = ground arith in
        rw same (scenario_of-valid (value_or "scenario_type" (Value.text "ambiguous") fields))
  ]
]

module _ {W : Type 0} (r : Reading) (call : Request → W → Option (Option String) × W)
    (prompt : Option (String × String)) (lines : List String) where
  classify-valid :
      (requirement token run_id : String) (w : W) (c : ClassifierResult)
      → (classify r call prompt requirement token run_id w).0 ≡ ok c
      → contains c.scenario_type scenario_types ≡ true
  unfolding classify
  classify-valid requirement token run_id w c h = elim (Option-cases prompt) [
    | inl missing ↦ absurd (ground arith)
    | inr ((instructions, version), loaded) ↦
        let request =
          request_of token (or_else run_id "classify") "classifier" version instructions
            requirement in
        elim (Option-cases (call request w).0) [
          | inl refused ↦ absurd (ground arith)
          | inr (content, answered) ↦
              parse_classification-valid r (content_or_empty content) c (ground arith)
        ]
  ]

  -- the scenario that `plan` finds, `none` where it raises
  abbrev pub scenario_found : String → String → String → W → Option String
  scenario_found requirement token run_id w =
      elim (understand r call prompt lines requirement token run_id w).0 [
        | err x ↦ none
        | ok (kind, clear) ↦ some kind
      ]

  pub understand_valid :
      (requirement token run_id : String) (w : W) (kind : String) (clear : ClarificationResult)
      → (understand r call prompt lines requirement token run_id w).0 ≡ ok (kind, clear)
      → (contains kind scenario_types ≡ true)
        × ((kind ≡ "ambiguous")
            ⊎ (clear ≡ record { resolved_requirement = requirement; assumptions = [] }))
  unfolding understand
  understand_valid requirement token run_id w kind clear h =
      let (classified, w1) = classify r call prompt requirement token run_id w in
      elim (Result-cases classified) [
        | inl (x, refused) ↦ absurd (ground arith)
        | inr (c, found) ↦
            let valid = classify-valid requirement token run_id w c found in
            elim (Bool-cases (c.scenario_type == "ambiguous")) [
              | inr plain ↦ (ground arith, inr (ground arith))
              | inl ambiguous ↦
                  elim (Result-cases (clarify r call prompt lines requirement token run_id w1).0) [
                    | inl (x, refused) ↦ absurd (ground arith)
                    | inr (result, clarified) ↦ (
                      ground arith,
                      inl (ground (arith, string_eq.beq_iff c.scenario_type "ambiguous")),
                    )
                  ]
            ]
      ]

  -- The commands of Runs.Gates take the scenario of a requirement as an argument. start_run, which
  -- calls the model and asks the user, refines begin_run: with the scenario that it finds, begin_run
  -- gives the same store, and the same error or none. What it returns has the run's id, its
  -- requirement and its user's login, one of the three scenarios, and a requirement resolved to another
  -- or with assumptions only if the scenario is ambiguous.
  pub start_run_refines :
      (who : String → Result AuthError CurrentUser) (now : ℕ) (run_id requirement token : String)
      (st : Store) (w : W)
      → let (started, st', w') =
          start_run r call prompt lines who now run_id requirement token st w in
        (begin_run who (scenario_found requirement token run_id w) now run_id requirement token st
          ≡ (elim started [ err x ↦ err x | ok s ↦ ok tt ], st'))
        × ((s : InitialState)
            → started ≡ ok s
            → (s.run_id ≡ run_id)
              × (s.requirement ≡ requirement)
              × ((user : CurrentUser) × (who token ≡ ok user)
                  × (s.triggered_by ≡ user.github_login))
              × (contains s.scenario_type scenario_types ≡ true)
              × ((s.scenario_type ≡ "ambiguous")
                  ⊎ ((s.resolved_requirement ≡ requirement) × (s.assumptions ≡ []))))
  unfolding start_run begin_run plan
  start_run_refines who now run_id requirement token st w = elim (Result-cases (who token)) [
    | inl (x, unknown) ↦ (ground arith, λ s e. absurd (ground arith))
    | inr (user, known) ↦ elim (Bool-cases (ltb (length (codes requirement)) 10)) [
      | inl short ↦ (ground arith, λ s e. absurd (ground arith))
      | inr enough ↦ elim (Bool-cases (ltb 2_000 (length (codes requirement)))) [
        | inl long ↦ (ground arith, λ s e. absurd (ground arith))
        | inr fits ↦
            elim (Result-cases (create_run st now run_id requirement "pending" user.github_login)) [
              | inl (x, taken) ↦ (ground arith, λ s e. absurd (ground arith))
              | inr (st1, created) ↦
                  elim (Result-cases
                    (understand r call prompt lines requirement token run_id w).0) [
                      | inl (x, refused) ↦ (ground arith, λ s e. absurd (ground arith))
                      | inr ((kind, clear), found) ↦ (
                        ground arith,
                        λ s e.
                            let (valid, plain) =
                              understand_valid requirement token run_id w kind clear found in
                            (
                              ground arith,
                              ground arith,
                              (user, known, ground arith),
                              ground arith,
                              elim plain [
                                | inl ambiguous ↦ inl (ground arith)
                                | inr same ↦ inr (ground arith, ground arith)
                              ],
                            ),
                      )
                    ]
            ]
      ]
    ]
  ]
