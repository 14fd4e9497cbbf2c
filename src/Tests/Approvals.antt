-- ===== src/Tests/Approvals.antt =====
-- Runs of the CLI's commands, of the run store and of the graph.
use url_copilot.Prelude.{
  In, List, Result, String, [], err, false, inl, inr, insert_sorted, lookup, nat_eq, none, ok, refl,
  some, sorted_union, string_eq, true, ℕ, ◌↔◌, ◌∷◌, ◌≡◌,
}
use url_copilot.Gateway.Auth.{AuthError, CurrentUser, expand_permissions, resolve}
use url_copilot.Governance.Checkpoint.{
  authorization_error, check_permission, request_approval, verify_four_eyes,
}
use url_copilot.Runs.Store.{
  Run, StageResult, Store, completed, create_run, get_all_stage_results, get_run, new_run,
  run_not_found, unique_violation, update_run, update_run_scenario, update_run_status,
}
use url_copilot.Runs.Store.State.{RunState, collect, load_run_state}
use url_copilot.Runs.Store.Loaded.{latest_artifact, load_run_state_artifacts}
use url_copilot.Runs.Gates.{
  Answers, apply_writes, begin_approval, begin_run, conclude_run, denied, finished, gate_of,
  handle_approve, handle_review, handle_run, paused,
}
use url_copilot.Runs.Gates.FourEyes.{
  IsSound, Reachable, after, approve_command, at_first, empty_store, run_command,
}
use url_copilot.Runs.Gates.Reach.{Reachable-IsSound}
use url_copilot.Runs.Gates.Review.{handle_review_exact}
use url_copilot.Runs.Gates.Terminal.{terminal_forever}
use url_copilot.Runs.Store.Sessions.{
  Call, create, get, perform, promised_session, run_session, runs_of, session_refines, set_status,
}
use url_copilot.Scenarios.Graph.{Execution, begun, edge, graph_start, next}
use url_copilot.Scenarios.Graph.Gates.{nothing_before_its_needs}
use url_copilot.Tests.Access.{bob_resolves, bob_user, rbac, users}

abbrev who : String → Result AuthError CurrentUser
who = resolve 5 users rbac

abbrev requirement : String
requirement = "Add a QR code endpoint"

-- alice's run, paused at the first gate, and another one, which met no gate
abbrev paused_store : Store
paused_store =
    (handle_run who (some "greenfield") (paused (some "architecture_gate")) [] 5 "orch-1"
      requirement "alice_token" empty_store).1

abbrev finished_store : Store
finished_store =
    (handle_run who (some "greenfield") finished [] 5 "orch-1" requirement "alice_token"
      empty_store).1

abbrev row : String → Run
row status = record (new_run 5 "orch-1" requirement "greenfield" "alice") { status = status }

paused_rows : paused_store.runs ≡ row "awaiting:architecture_gate" ∷ []
unfolding handle_run begin_run conclude_run apply_writes create_run update_run update_run_scenario
    update_run_status resolve expand_permissions sorted_union insert_sorted
paused_rows = refl

paused-Reachable : Reachable who paused_store
paused-Reachable = after at_first (
    run_command (some "greenfield") (paused (some "architecture_gate")) [] 5 "orch-1" requirement
      "alice_token" empty_store)

Reachable-IsSound_example : IsSound paused_store
Reachable-IsSound_example = Reachable-IsSound who paused_store paused-Reachable

bob_may :
    begin_approval who paused_store "orch-1" "bob_token"
    ≡ ok (row "awaiting:architecture_gate", "architecture_gate", "bob")
unfolding begin_approval get_run gate_of request_approval check_permission verify_four_eyes
    handle_run begin_run conclude_run apply_writes create_run update_run update_run_scenario
    update_run_status resolve expand_permissions sorted_union insert_sorted
bob_may = refl

alice_may_not :
    begin_approval who paused_store "orch-1" "alice_token" ≡ err (denied authorization_error)
unfolding begin_approval get_run gate_of request_approval check_permission verify_four_eyes
    handle_run begin_run conclude_run apply_writes create_run update_run update_run_scenario
    update_run_status resolve expand_permissions sorted_union insert_sorted
alice_may_not = refl

handle_review_exact_example :
    (pairs : List (Run × String)) × (handle_review who "bob_token" paused_store ≡ ok pairs)
    × ((run : Run) (gate : String)
        → In (run, gate) pairs ↔ (
            In run paused_store.runs
            × (login : String) × (begin_approval who paused_store run.id "bob_token"
                ≡ ok (run, gate, login))))
handle_review_exact_example =
    handle_review_exact who "bob_token" paused_store
      (Reachable-IsSound who paused_store paused-Reachable).0 bob_user bob_resolves

abbrev no : Answers
no = record { comment = "too broad"; approved = false; score = none; feedback_comment = none }

finished_row : In (row "completed") finished_store.runs
unfolding handle_run begin_run conclude_run apply_writes create_run update_run update_run_scenario
    update_run_status resolve expand_permissions sorted_union insert_sorted
finished_row = inl refl

terminal_forever_example :
    In
      (row "completed")
      (handle_approve who no finished [] 9 "orch-1" "bob_token" finished_store).1.runs
terminal_forever_example =
    terminal_forever who finished_store
      (handle_approve who no finished [] 9 "orch-1" "bob_token" finished_store).1
      (after at_first (
        run_command (some "greenfield") finished [] 5 "orch-1" requirement "alice_token"
          empty_store))
      (approve_command no finished [] 9 "orch-1" "bob_token" finished_store) (row "completed")
      (inl refl) finished_row

abbrev attempt : ℕ → StageResult
attempt n = record {
  run_id = "orch-1";
  stage_name = "test_plan";
  status = completed;
  attempt_number = n;
  started_at = n;
  completed_at = none;
  output_artifact = none;
  error_message = none;
  prompt_version = none;
  model_used = none;
}

abbrev retried : Store
retried = record { runs = row "running" ∷ []; stage_results = attempt 2 ∷ attempt 1 ∷ [] }

latest_attempt : get_all_stage_results retried "orch-1" ≡ attempt 2 ∷ []
unfolding get_all_stage_results insert_sorted
latest_attempt = refl

-- the first attempt had an artifact, the second has another
abbrev planned_store : Store
planned_store = record retried {
  stage_results =
      record (attempt 2) { output_artifact = some "{2}" }
      ∷ record (attempt 1) { output_artifact = some "{1}" }
      ∷ [];
}

abbrev planned_state : RunState
planned_state = record {
  run_id = "orch-1";
  requirement = (row "running").requirement;
  resolved_requirement = "";
  scenario_type = (row "running").scenario_type;
  triggered_by = (row "running").triggered_by;
  stage_artifacts = ("test_plan", "{2}") ∷ [];
  feature_branch = none;
  pr_url = none;
}

loads_latest : load_run_state planned_store "orch-1" ≡ ok planned_state
unfolding load_run_state get_run get_all_stage_results insert_sorted collect
loads_latest = refl

load_run_state_artifacts_example :
    lookup "test_plan" planned_state.stage_artifacts
    ≡ latest_artifact planned_store "orch-1" "test_plan"
load_run_state_artifacts_example =
    load_run_state_artifacts planned_store "orch-1" "test_plan" planned_state loads_latest

designed : Execution true ("architecture_design" ∷ "requirements_analysis" ∷ graph_start ∷ [])
designed =
    next (next begun (edge graph_start "requirements_analysis", inl refl, refl, (inl refl, tt)))
      (edge "requirements_analysis" "architecture_design", inr (inl refl), refl, (inl refl, tt))

nothing_before_its_needs_example :
    In "requirements_analysis" ("architecture_design" ∷ "requirements_analysis" ∷ graph_start ∷ [])
nothing_before_its_needs_example =
    nothing_before_its_needs true
      ("architecture_design" ∷ "requirements_analysis" ∷ graph_start ∷ []) designed
      "architecture_design" "requirements_analysis" (inl refl) (inl refl)

-- a session on the run store: a run, a second one of its id, and two reads
abbrev calls : List Call
calls =
    create 5 "orch-1" requirement "pending" "alice"
    ∷ create 6 "orch-1" requirement "pending" "bob"
    ∷ set_status "orch-9" "completed"
    ∷ get "orch-9"
    ∷ get "orch-1"
    ∷ []

answers :
    (run_session calls empty_store).0
    ≡ ok none
      ∷ err unique_violation
      ∷ ok none
      ∷ err run_not_found
      ∷ ok (some (new_run 5 "orch-1" requirement "pending" "alice"))
      ∷ []
unfolding run_session perform create_run update_run_status update_run get_run
answers = refl

session_refines_example :
    ((run_session calls empty_store).0 ≡ (promised_session calls (runs_of empty_store)).0)
    × (runs_of (run_session calls empty_store).1 ≡ (promised_session calls (runs_of empty_store)).1)
session_refines_example = session_refines calls empty_store
