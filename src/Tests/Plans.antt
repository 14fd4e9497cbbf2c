-- ===== src/Tests/Plans.antt =====
-- Runs of the planner. The model's answers are looked up by their text.
use url_copilot.Prelude.{
  Dict, In, List, Option, Result, String, [], contains, err, if◌then◌else◌, length, lookup, nat_beq,
  nat_eq, none, ok, refl, some, string_eq, true, ℕ, ◌*◌, ◌++◌, ◌+◌, ◌==◌, ◌∷◌, ◌≡◌, ◌≤◌, ◌⊎◌,
}
use url_copilot.Prelude.Json.{Fields, Value}
use url_copilot.Gateway.Models.{Request}
use url_copilot.Gateway.Auth.{AuthError, CurrentUser}
use url_copilot.Runs.Gates.{begin_run}
use url_copilot.Runs.Store.{Store, create_run, new_run, update_run, update_run_scenario}
use url_copilot.Planner.{
  Reading, clarify, classify, collect_answers, end_of_input, generate_questions,
  parse_classification, parse_questions, parse_resolution, resolve_message, resolve_requirement,
  scenario_types,
}
use url_copilot.Planner.Plan.{InitialState, plan, start_run, understand}
use url_copilot.Planner.Refinement.{scenario_found, start_run_refines}
use url_copilot.Scenarios.Graph.{Execution, graph_end, graph_start}
use url_copilot.Scenarios.Graph.Progress.{never_stuck}
use url_copilot.Tests.Access.{alice_user}

abbrev objects : Dict String Fields
objects =
    ("{ambiguous}", ("scenario_type", Value.text "unsure") ∷ [])
    ∷ (
      "{brownfield}",
      ("scenario_type", Value.text "brownfield") ∷ ("confidence", Value.num 1) ∷ [],
    )
    ∷ ("{questions}", ("questions", Value.composite true "[q, q, q, q, q]") ∷ [])
    ∷ (
      "{resolution}",
      ("resolved_requirement", Value.text "Serve QR codes as PNG")
          ∷ ("assumptions", Value.composite true "[a]")
          ∷ [],
    )
    ∷ []

abbrev text_of : Value → String
text_of (Value.text s) = s
text_of _ = ""

abbrev reading : Reading
reading = record {
  load_object = λ s. lookup s objects;
  elements = λ v. elim v [
    | Value.composite filled s ↦
        if s == "[a]"
        then some (Value.text "PNG only" ∷ [])
        else some (
            Value.text "q1"
            ∷ Value.text "q2"
            ∷ Value.text "q3"
            ∷ Value.text "q4"
            ∷ Value.text "q5"
            ∷ [])
    | _ ↦ none
  ];
  str = text_of;
  float = λ v. elim v [ Value.num n ↦ some (n * 100) | _ ↦ none ];
  decimal = λ n. if nat_beq n 1 then "1" else if nat_beq n 2 then "2" else "n";
  strip = λ s. s;
}

-- a model that finds every requirement ambiguous, and one that finds it a change of old code
abbrev unsure : Request → ℕ → Option (Option String) × ℕ
unsure asking calls = (
  some (
      some (
        if asking.stage_name == "classifier"
        then "{ambiguous}"
        else if asking.stage_name == "clarification_questions"
        then "{questions}"
        else "{resolution}")),
  calls + 1,
)

abbrev sure : Request → ℕ → Option (Option String) × ℕ
sure asking calls = (some (some "{brownfield}"), calls + 1)

abbrev prompt : Option (String × String)
prompt = some ("Classify.", "classifier_v1")

abbrev no_runs : Store
no_runs = record { runs = []; stage_results = [] }

abbrev typed : List String
typed = "PNG" ∷ "yes" ∷ "no" ∷ "no" ∷ "unread" ∷ []

abbrev found : InitialState
found = record {
  run_id = "r1";
  requirement = "Add QR codes";
  resolved_requirement = "Serve QR codes as PNG";
  scenario_type = "ambiguous";
  triggered_by = "alice";
  token = "t";
  assumptions = "PNG only" ∷ [];
}

-- three calls of the model, the last with four of the five questions
clarifies : plan reading unsure prompt typed 5 "r1" "Add QR codes" "alice" "t" no_runs 0 ≡ (
  ok found,
  record {
    runs =
        record (new_run 5 "r1" "Add QR codes" "pending" "alice") { scenario_type = "ambiguous" }
        ∷ [];
    stage_results = [];
  },
  3,
)
unfolding plan create_run update_run_scenario update_run understand classify parse_classification
    clarify generate_questions parse_questions collect_answers resolve_requirement parse_resolution
clarifies = refl

keeps_the_requirement :
    (plan reading sure prompt [] 5 "r1" "Add QR codes" "alice" "t" no_runs 0).0
    ≡ ok (record found {
      resolved_requirement = "Add QR codes";
      scenario_type = "brownfield";
      assumptions = [];
    })
unfolding plan create_run understand classify parse_classification
keeps_the_requirement = refl

runs_out_of_input :
    (clarify reading unsure prompt ("PNG" ∷ []) "Add QR codes" "t" "r1" 0).0 ≡ err end_of_input
unfolding clarify generate_questions parse_questions collect_answers
runs_out_of_input = refl

asks :
    resolve_message reading unsure prompt "Add QR codes" (("q1", "PNG") ∷ ("q2", "yes") ∷ [])
    ≡ "Original requirement:\nAdd QR codes\n\nQ&A:\nQ1: q1\nA1: PNG\nQ2: q2\nA2: yes"
asks = refl

abbrev knows_alice : String → Result AuthError CurrentUser
knows_alice token = ok alice_user

start_run_refines_example :
    let (started, st', w') =
      start_run reading unsure prompt typed knows_alice 5 "r1" "Add QR codes" "t" no_runs 0 in
    (begin_run knows_alice
        (scenario_found reading unsure prompt typed "Add QR codes" "t" "r1" 0)
        5
        "r1"
        "Add QR codes"
        "t"
        no_runs
      ≡ (elim started [ err x ↦ err x | ok s ↦ ok tt ], st'))
    × ((s : InitialState)
        → started ≡ ok s
        → (s.run_id ≡ "r1")
          × (s.requirement ≡ "Add QR codes")
          × ((user : CurrentUser) × (knows_alice "t" ≡ ok user)
              × (s.triggered_by ≡ user.github_login))
          × (contains s.scenario_type scenario_types ≡ true)
          × ((s.scenario_type ≡ "ambiguous")
              ⊎ ((s.resolved_requirement ≡ "Add QR codes") × (s.assumptions ≡ []))))
start_run_refines_example =
    start_run_refines reading unsure prompt typed knows_alice 5 "r1" "Add QR codes" "t" no_runs 0

never_stuck_example :
    (later : List String) × Execution true (later ++ graph_start ∷ [])
    × In graph_end (later ++ graph_start ∷ [])
    × (length later ≤ 16)
never_stuck_example = never_stuck true (graph_start ∷ []) Execution.begun
