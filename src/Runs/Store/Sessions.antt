-- ===== src/Runs/Store/Sessions.antt =====
-- The calls of RunStateStore on orch_runs, against what they promise: a partial map from ids to runs.
use mathlib.Core.Path.{fun_ext}
use url_copilot.Prelude.{
  Bool-cases, List, Option, Option-cases, Result, String, [], any_of, ap, arith, err, false, first,
  first-none_iff, if◌then◌else◌, inl, inr, nat_eq, none, ok, refl, some, string_eq, update_where, ℕ,
  ◌++◌, ◌==◌, ◌∷◌, ◌≡◌,
}
use url_copilot.Runs.Store.{
  Run, Store, StoreError, completed_row, create_run, get_run, new_run, rejected_row, run_not_found,
  unique_violation, update_run, update_run_completed, update_run_pr, update_run_rejected,
  update_run_scenario, update_run_status,
}

pub data Call : Type 0 where
  create : ℕ → String → String → String → String → Call
  set_scenario set_status : String → String → Call
  complete : ℕ → String → Option ℕ → Option String → Option String → Call
  reject : ℕ → String → String → Option String → Call
  set_pr : String → String → String → Call
  get : String → Call

-- what a call returns: a run, nothing or an error
abbrev pub Answer : Type 0
Answer = Result StoreError (Option Run)

abbrev found_run : Result StoreError Run → Answer
found_run (ok r) = ok (some r)
found_run (err x) = err x

abbrev made_run : Store → Result StoreError Store → Answer × Store
made_run st (ok st') = (ok none, st')
made_run st (err x) = (err x, st)

unfoldable pub perform : Call → Store → Answer × Store
perform (create now id requirement scenario by) st =
    made_run st (create_run st now id requirement scenario by)
perform (set_scenario id scenario) st = (ok none, update_run_scenario st id scenario)
perform (set_status id status) st = (ok none, update_run_status st id status)
perform (complete now id score comment by) st =
    (ok none, update_run_completed st now id score comment by)
perform (reject now id by comment) st = (ok none, update_run_rejected st now id by comment)
perform (set_pr id url branch) st = (ok none, update_run_pr st id url branch)
perform (get id) st = (found_run (get_run st id), st)

-- a session: the answers of its calls, and the store that it leaves
unfoldable pub run_session : List Call → Store → List Answer × Store
run_session [] st = ([], st)
run_session (c ∷ cs) st =
    let (answer, st1) = perform c st in
    let (answers, st2) = run_session cs st1 in (answer ∷ answers, st2)

-- The specification: a function from ids to runs, which a call changes at one id.
abbrev pub Runs : Type 0
Runs = String → Option Run

abbrev pub changed : String → (Run → Run) → Runs → Runs
changed id f runs q =
    if q == id then elim (runs q) [ none ↦ none | some r ↦ some (f r) ] else runs q

abbrev pub promised : Call → Runs → Answer × Runs
promised (create now id requirement scenario by) runs = elim (runs id) [
  | some r ↦ (err unique_violation, runs)
  | none ↦ (ok none, λ q. if q == id then some (new_run now id requirement scenario by) else runs q)
]
promised (set_scenario id scenario) runs =
    (ok none, changed id (λ r. record r { scenario_type = scenario }) runs)
promised (set_status id status) runs =
    (ok none, changed id (λ r. record r { status = status }) runs)
promised (complete now id score comment by) runs =
    (ok none, changed id (completed_row now score comment by) runs)
promised (reject now id by comment) runs = (ok none, changed id (rejected_row now by comment) runs)
promised (set_pr id url branch) runs =
    (ok none, changed id (λ r. record r { pr_url = some url; feature_branch = some branch }) runs)
promised (get id) runs = elim (runs id) [
  | none ↦ (err run_not_found, runs)
  | some r ↦ (ok (some r), runs)
]

unfoldable pub promised_session : List Call → Runs → List Answer × Runs
promised_session [] runs = ([], runs)
promised_session (c ∷ cs) runs =
    let (answer, runs1) = promised c runs in
    let (answers, runs2) = promised_session cs runs1 in (answer ∷ answers, runs2)

-- the map that a store stands for
unfoldable pub runs_of : Store → Runs
runs_of st q = first (λ r. r.id == q) st.runs

first-update_where :
    (id : String) (f : Run → Run) (q : String) (rs : List Run)
    → ((r : Run) → (f r).id ≡ r.id)
    → first (λ r. r.id == q) (update_where (λ r. r.id == id) f rs)
      ≡ changed id f (λ p. first (λ r. r.id == p) rs) q
first-update_where id f q [] keeps = ground arith
first-update_where id f q (r ∷ rs) keeps = ground (
  arith,
  keeps r,
  string_eq.beq_iff r.id id,
  string_eq.beq_iff r.id q,
  string_eq.beq_iff q id,
  first-update_where id f q rs keeps,
)

runs_of-update_run :
    (id : String) (f : Run → Run) (st : Store)
    → ((r : Run) → (f r).id ≡ r.id)
    → runs_of (update_run id f st) ≡ changed id f (runs_of st)
unfolding runs_of update_run
runs_of-update_run id f st keeps = fun_ext λ q. first-update_where id f q st.runs keeps

first-append_new :
    (new : Run) (q : String) (rs : List Run)
    → any_of (λ r. r.id == new.id) rs ≡ false
    → first (λ r. r.id == q) (rs ++ new ∷ [])
      ≡ (if q == new.id then some new else first (λ r. r.id == q) rs)
first-append_new new q [] fresh =
    ground (arith, string_eq.beq_iff new.id q, string_eq.beq_iff q new.id)
first-append_new new q (r ∷ rs) fresh = ground (
  arith,
  string_eq.beq_iff r.id new.id,
  string_eq.beq_iff r.id q,
  string_eq.beq_iff q new.id,
  first-append_new new q rs,
)

-- a call answers and changes the store as promised
abbrev Keeps : Call → Store → Type 0
Keeps c st =
    ((perform c st).0 ≡ (promised c (runs_of st)).0)
    × (runs_of (perform c st).1 ≡ (promised c (runs_of st)).1)

create-Keeps :
    (now : ℕ) (id requirement scenario by : String) (st : Store)
    → Keeps (create now id requirement scenario by) st
unfolding perform create_run runs_of
create-Keeps now id requirement scenario by st =
    let new = new_run now id requirement scenario by in
    let free = first-none_iff (λ r. r.id == id) st.runs in
    elim (Bool-cases (any_of (λ r. r.id == id) st.runs)) [
      | inr fresh ↦ (
        ground (arith, free.1 fresh),
        fun_ext λ q. ground (arith, free.1 fresh, first-append_new new q st.runs fresh),
      )
      | inl taken ↦ elim (Option-cases (first (λ r. r.id == id) st.runs)) [
        | inl none_of ↦ absurd (ground (arith, free.0 none_of))
        | inr (r, held) ↦ (ground arith, fun_ext λ q. ground arith)
      ]
    ]

get-Keeps : (id : String) (st : Store) → Keeps (get id) st
unfolding perform get_run runs_of
get-Keeps id st = elim (Option-cases (first (λ r. r.id == id) st.runs)) [
  | inl missing ↦ (ground arith, ground arith)
  | inr (r, held) ↦ (ground arith, ground arith)
]

perform-Keeps : (c : Call) (st : Store) → Keeps c st
unfolding perform update_run_scenario update_run_status update_run_completed update_run_rejected
    update_run_pr
perform-Keeps (create now id requirement scenario by) st =
    create-Keeps now id requirement scenario by st
perform-Keeps (set_scenario id scenario) st =
    (refl, runs_of-update_run id (λ r. record r { scenario_type = scenario }) st (λ r. refl))
perform-Keeps (set_status id status) st =
    (refl, runs_of-update_run id (λ r. record r { status = status }) st (λ r. refl))
perform-Keeps (complete now id score comment by) st =
    (refl, runs_of-update_run id (completed_row now score comment by) st (λ r. refl))
perform-Keeps (reject now id by comment) st =
    (refl, runs_of-update_run id (rejected_row now by comment) st (λ r. refl))
perform-Keeps (set_pr id url branch) st = (
  refl,
  runs_of-update_run id (λ r. record r { pr_url = some url; feature_branch = some branch }) st
      (λ r. refl),
)
perform-Keeps (get id) st = get-Keeps id st

pub session_refines :
    (cs : List Call) (st : Store)
    → ((run_session cs st).0 ≡ (promised_session cs (runs_of st)).0)
      × (runs_of (run_session cs st).1 ≡ (promised_session cs (runs_of st)).1)
unfolding run_session promised_session
session_refines [] st = (refl, refl)
session_refines (c ∷ cs) st =
    let (same, kept) = perform-Keeps c st in
    let (answers, left) = session_refines cs (perform c st).1 in
    (rw (← same, ← kept) (ap (◌∷◌ (perform c st).0) answers), rw (← kept) left)
