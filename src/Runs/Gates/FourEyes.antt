-- ===== src/Runs/Gates/FourEyes.antt =====
-- The stores that the commands can reach, and the four-eyes rule on them.
use url_copilot.Prelude.{List, Option, Result, String, [], some, ℕ, ◌≡◌, ◌≢◌}
use url_copilot.Gateway.Auth.{AuthError, CurrentUser}
use url_copilot.Runs.Store.{Run, Store}
use url_copilot.Runs.Gates.{Answers, Outcome, Write, handle_approve, handle_run}
use url_copilot.Runs.Gates.Rows.{EveryRun, UniqueIds}

-- One command of the CLI, whatever LangGraph and the language model decide.
pub data Command (who : String → Result AuthError CurrentUser) : Store → Store → Type 0 where
  run_command :
      (scenario : Option String) (outcome : Outcome) (writes : List Write) (now : ℕ)
      (run_id requirement token : String) (st : Store)
      → Command who st (handle_run who scenario outcome writes now run_id requirement token st).1
  approve_command :
      (a : Answers) (outcome : Outcome) (writes : List Write) (now : ℕ) (run_id token : String)
      (st : Store)
      → Command who st (handle_approve who a outcome writes now run_id token st).1

abbrev pub empty_store : Store
empty_store = record { runs = []; stage_results = [] }

pub data Reachable (who : String → Result AuthError CurrentUser) : Store → Type 0 where
  at_first : Reachable who empty_store
  after : {st st' : Store} → Reachable who st → Command who st st' → Reachable who st'

-- Nobody has reviewed a run that they started.
abbrev pub ReviewedByOther : Run → Type 0
ReviewedByOther r = (login : String) → r.reviewed_by ≡ some login → login ≢ r.triggered_by

abbrev pub IsSound : Store → Type 0
IsSound st = UniqueIds st × EveryRun ReviewedByOther st
