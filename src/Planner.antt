-- ===== src/Planner.antt =====
-- orchestrator/planner: the classification of a requirement, the questions that clarify it, and
-- `Planner.plan`. The gateway acts on a world `W` and answers with the content of its response, or with
-- `none` for an exception; the JSON reader with the fence's regular expression, `str`, `float` and
-- `str.strip` are arguments, as are the prompt of the classifier and the lines that the user types.
pub mod Plan
pub mod Questions
pub mod Refinement
use url_copilot.Prelude.{
  List, Option, Result, String, [], concat, contains, err, if◌then◌else◌, join, length, lookup, map,
  nat_eq, none, ok, or_else, or_raise, some, string_eq, take, ℕ, ◌+◌, ◌>>=◌, ◌>>◌, ◌∷◌,
}
use url_copilot.Prelude.Json.{Fields, Value, null, text}
use url_copilot.Gateway.Models.{Request}

pub record Reading : Type 0 where
  -- `json.loads` without the fence, where it gives an object
  pub load_object : String → Option Fields
  -- the elements of an array
  pub elements : Value → Option (List Value)
  pub str : Value → String
  -- `float(v)` in hundredths
  pub float : Value → Option ℕ
  pub decimal : ℕ → String
  pub strip : String → String

abbrev pub scenario_types : List String
scenario_types = "greenfield" ∷ "brownfield" ∷ "ambiguous" ∷ []

pub record ClassifierResult : Type 0 where
  pub scenario_type : String
  pub confidence : ℕ
  pub reasoning : String
  pub clarification_needed : Value

abbrev pub value_or : String → Value → Fields → Value
value_or key default fields = elim (lookup key fields) [ none ↦ default | some v ↦ v ]

-- `data.get("scenario_type", "ambiguous")`, and "ambiguous" for what is not a type
abbrev pub scenario_of : Value → String
scenario_of (Value.text s) = if contains s scenario_types then s else "ambiguous"
scenario_of _ = "ambiguous"

pub data PlanError : Type 0 where
  prompt_missing gateway_raised malformed_json bad_value end_of_input : PlanError

-- `float(data.get("confidence", 0.5))`
abbrev pub confidence_of : Reading → Fields → Result PlanError ℕ
confidence_of r fields = elim (lookup "confidence" fields) [
  | none ↦ ok 50
  | some v ↦ or_raise (r.float v) bad_value
]

-- `RequirementClassifier._parse`
unfoldable pub parse_classification : Reading → String → Result PlanError ClassifierResult
parse_classification r raw = do
  fields ← or_raise (r.load_object raw) malformed_json
  confidence' ← confidence_of r fields
  ok (record {
    scenario_type = scenario_of (value_or "scenario_type" (Value.text "ambiguous") fields);
    confidence = confidence';
    reasoning = r.str (value_or "reasoning" (Value.text "") fields);
    clarification_needed = value_or "clarification_needed" Value.null fields;
  })

abbrev pub max_questions : ℕ
max_questions = 4

abbrev pub planner_model : String
planner_model = "gpt-4o-mini"

abbrev pub questions_system : String
questions_system =
    concat "You are a software requirement analyst.  Your job is to identify ambiguities in\n" (
      concat "a feature request and produce up to 4 concise clarifying questions.\n" (
        concat "\n" (
          concat "Respond with ONLY valid JSON — no prose, no markdown fences:\n" (
            concat "{\"questions\": [\"question 1\", \"question 2\"]}\n" (
              concat "\n" (
                concat "Rules:\n" (
                  concat
                    "- At most 4 questions.  Fewer is fine if the requirement is mostly clear.\n"
                    (concat
                      "- Each question targets a single, concrete ambiguity (scope, data model, auth, etc.).\n"
                      ("- Do not ask about implementation details the engineering team should decide.\n")))))))))

abbrev pub resolve_system : String → String
resolve_system n =
    concat
      (concat "You are a software requirement analyst.  A user provided a feature request and\n"
        ("answered "))
      (concat n (
        concat " clarifying questions.  Synthesise everything into:\n" (
          concat "\n" (
            concat "1. resolved_requirement — a single, unambiguous requirement sentence or short\n"
              (concat "   paragraph that an engineer can implement without further questions.\n" (
                concat
                  "2. assumptions — a list of strings, one per decision made during clarification.\n"
                  (concat "\n" (
                    concat "Respond with ONLY valid JSON — no prose, no markdown fences:\n" (
                      concat "{\n" (
                        concat "  \"resolved_requirement\": \"...\",\n" (
                          concat "  \"assumptions\": [\"assumption 1\", \"assumption 2\"]\n"
                            ("}\n"))))))))))))

abbrev pub request_of : String → String → String → String → String → String → Request
request_of token run_id stage_name prompt_version system user = record {
  token = token;
  run_id = run_id;
  stage_name = stage_name;
  messages =
      record { role = "system"; content = some system }
      ∷ record { role = "user"; content = some user }
      ∷ [];
  model = planner_model;
  prompt_version = prompt_version;
}

pub record ClarificationResult : Type 0 where
  pub resolved_requirement : String
  pub assumptions : List String

-- `_collect_answers`: each question takes the next line, and end of input raises
unfoldable pub collect_answers :
    (String → String) → List String → List String → Result PlanError (List (String × String))
collect_answers strip [] lines = ok []
collect_answers strip (q ∷ qs) [] = err end_of_input
collect_answers strip (q ∷ qs) (line ∷ lines) = do
  pairs ← collect_answers strip qs lines
  ok ((q, strip line) ∷ pairs)

-- f"Q{i+1}: {q}\nA{i+1}: {a}" for each pair, from the number given
abbrev pub qa_texts : (ℕ → String) → ℕ → List (String × String) → List String
qa_texts decimal n [] = []
qa_texts decimal n ((q, a) ∷ pairs) =
    concat "Q" (
      concat (decimal n)
        (concat ": " (concat q (concat "\nA" (concat (decimal n) (concat ": " a))))))
    ∷ qa_texts decimal (n + 1) pairs

-- the array at a key, which is empty where the key is missing
abbrev pub array_at : Reading → String → Fields → Result PlanError (List Value)
array_at r key fields = elim (lookup key fields) [
  | none ↦ ok []
  | some v ↦ or_raise (r.elements v) bad_value
]

unfoldable pub parse_questions : Reading → String → Result PlanError (List String)
parse_questions r raw = do
  fields ← or_raise (r.load_object raw) malformed_json
  questions ← array_at r "questions" fields
  ok (map r.str (take max_questions questions))

unfoldable pub parse_resolution : Reading → String → Result PlanError ClarificationResult
parse_resolution r raw = do
  fields ← or_raise (r.load_object raw) malformed_json
  values ← array_at r "assumptions" fields
  ok (record {
    resolved_requirement = r.str (value_or "resolved_requirement" (Value.text "") fields);
    assumptions = map r.str values;
  })

abbrev pub content_or_empty : Option String → String
content_or_empty none = ""
content_or_empty (some s) = s

-- a call of the gateway, whose answer goes to a parser
abbrev pub asked {ℓ} :
    {A : Type ℓ} {W : Type 0}
    → (String → Result PlanError A)
    → Option (Option String) × W
    → Result PlanError A × W
asked parse (none, w) = (err gateway_raised, w)
asked parse (some content, w) = (parse (content_or_empty content), w)

module _ {W : Type 0} (r : Reading) (call : Request → W → Option (Option String) × W)
    (prompt : Option (String × String)) where
  unfoldable pub classify : String → String → String → W → Result PlanError ClassifierResult × W
  classify requirement token run_id w = elim prompt [
    | none ↦ (err prompt_missing, w)
    | some (instructions, version) ↦ asked (parse_classification r) (
        call
          (request_of token (or_else run_id "classify") "classifier" version instructions
            requirement)
          w)
  ]

  unfoldable pub generate_questions :
      String → String → String → W → Result PlanError (List String) × W
  generate_questions requirement token run_id w = asked (parse_questions r) (
      call
        (request_of token (or_else run_id "clarify-questions") "clarification_questions"
          "questions_v1" questions_system requirement)
        w)

  abbrev pub resolve_message : String → List (String × String) → String
  resolve_message requirement pairs =
      concat "Original requirement:\n"
        (concat requirement (concat "\n\nQ&A:\n" (join "\n" (qa_texts r.decimal 1 pairs))))

  unfoldable pub resolve_requirement :
      String
      → List (String × String)
      → String
      → String
      → W
      → Result PlanError ClarificationResult × W
  resolve_requirement requirement pairs token run_id w = asked (parse_resolution r) (
      call
        (request_of token (or_else run_id "clarify-resolve") "clarification_resolve" "resolve_v1"
          (resolve_system (r.decimal (length pairs))) (resolve_message requirement pairs))
        w)

  -- `ClarificationLoop.run`
  unfoldable pub clarify :
      List String → String → String → String → W → Result PlanError ClarificationResult × W
  clarify lines requirement token run_id w =
      let (generated, w1) = generate_questions requirement token run_id w in
      elim generated [
        | err x ↦ (err x, w1)
        | ok questions ↦ elim (collect_answers r.strip questions lines) [
          | err x ↦ (err x, w1)
          | ok pairs ↦ resolve_requirement requirement pairs token run_id w1
        ]
      ]
