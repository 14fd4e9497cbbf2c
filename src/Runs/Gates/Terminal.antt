-- ===== src/Runs/Gates/Terminal.antt =====
-- A run that is completed or rejected stays as it is.
use mathlib.Core.Path.{subst}
use url_copilot.Prelude.{
  Bool-cases, In, In-append_left, List, Option, Option-cases, Result, Result-cases, String,
  any_of-In, arith, codes, eq_iff, false, inl, inr, length, ltb, nat_eq, ok, refl, some, string_eq,
  sym, true, ℕ, ◌==◌, ◌||◌, ◌∙◌, ◌≡◌, ◌≢◌, ◌⊎◌,
}
use url_copilot.Gateway.Auth.{AuthError, CurrentUser}
use url_copilot.Runs.Store.{
  Run, Store, completed_row, create_run, is_awaiting, rejected_row, update_run,
  update_run_completed, update_run_pr, update_run_rejected, update_run_scenario, update_run_status,
}
use url_copilot.Runs.Gates.{
  Answers, Outcome, Write, apply_writes, awaiting, begin_approval, begin_run, conclude_approval,
  conclude_run, finished, gate_name, handle_approve, handle_run, or_none, paused, raised,
}
use url_copilot.Runs.Gates.Rows.{UniqueIds, begin_approval_ok, update_run_keeps}
use url_copilot.Runs.Gates.FourEyes.{Command, Reachable, approve_command, run_command}
use url_copilot.Runs.Gates.Preserve.{apply_writes_keep}
use url_copilot.Runs.Gates.Reach.{create_run_ok, Reachable-IsSound}

abbrev pub IsTerminal : Run → Type 0
IsTerminal r = (r.status ≡ "completed") ⊎ (r.status ≡ "rejected")

terminal_waits_no_more : (r : Run) → IsTerminal r → is_awaiting r.status ≡ false
terminal_waits_no_more r (inl e) = subst (λ s. is_awaiting s ≡ false) (sym e) refl
terminal_waits_no_more r (inr e) = subst (λ s. is_awaiting s ≡ false) (sym e) refl

writes_keep_others :
    (run_id : String) (ws : List Write) (st : Store) (r : Run)
    → r.id ≢ run_id
    → In r st.runs
    → In r (apply_writes run_id ws st).runs
unfolding update_run_pr
writes_keep_others run_id ws st r other i =
    apply_writes_keep (λ v. In r v.runs) run_id (λ v v' same h. subst (In r) (sym same) h)
      (λ v url branch h. update_run_keeps run_id _ v r other h) ws st i

-- a store that comes of `st` by at most the writes of the nodes and one update of a run
abbrev pub ComesOf : String → List Write → Store → Store → Type 0
ComesOf run_id writes st end =
    (base : Store) × ((base ≡ st) ⊎ (base ≡ apply_writes run_id writes st))
    × ((end ≡ base) ⊎ ((f : Run → Run) × (end ≡ update_run run_id f base)))

pub ComesOf-keeps_others :
    (run_id : String) (writes : List Write) (st end : Store) (r : Run)
    → ComesOf run_id writes st end
    → r.id ≢ run_id
    → In r st.runs
    → In r end.runs
ComesOf-keeps_others run_id writes st end r (base, from, to) other i =
    let at_base : In r base.runs = elim from [
      | inl same ↦ subst (λ v. In r v.runs) (sym same) i
      | inr written ↦
          subst (λ v. In r v.runs) (sym written) (writes_keep_others run_id writes st r other i)
    ] in
    elim to [
      | inl same ↦ subst (λ v. In r v.runs) (sym same) at_base
      | inr (f, updated) ↦
          subst (λ v. In r v.runs) (sym updated) (update_run_keeps run_id f base r other at_base)
    ]

approved-ComesOf :
    (a : Answers) (outcome : Outcome) (writes : List Write) (now : ℕ) (run_id login : String)
    (st : Store)
    → a.approved ≡ true
    → ComesOf run_id writes st (conclude_approval a outcome writes now run_id login st).1
unfolding conclude_approval update_run_completed update_run_status
approved-ComesOf a finished writes now run_id login st yes_said = (
  apply_writes run_id writes st,
  inr refl,
  inr (completed_row now a.score a.feedback_comment (some login), ground arith),
)
approved-ComesOf a (paused gate) writes now run_id login st yes_said = (
  apply_writes run_id writes st,
  inr refl,
  inr (λ r. record r { status = awaiting (gate_name gate) }, ground arith),
)
approved-ComesOf a raised writes now run_id login st yes_said =
    (apply_writes run_id writes st, inr refl, inl (ground arith))

pub conclude_approval-ComesOf :
    (a : Answers) (outcome : Outcome) (writes : List Write) (now : ℕ) (run_id login : String)
    (st : Store)
    → ComesOf run_id writes st (conclude_approval a outcome writes now run_id login st).1
unfolding conclude_approval update_run_rejected
conclude_approval-ComesOf a outcome writes now run_id login st = elim (Bool-cases a.approved) [
  | inl yes_said ↦ approved-ComesOf a outcome writes now run_id login st yes_said
  | inr no_said ↦ (st, inl refl, inr (rejected_row now login (or_none a.comment), ground arith))
]

conclude_run-ComesOf :
    (run_id : String) (outcome : Outcome) (writes : List Write) (st : Store)
    → ComesOf run_id writes st (conclude_run run_id outcome (apply_writes run_id writes st)).1
unfolding conclude_run update_run_status
conclude_run-ComesOf run_id finished writes st =
    (apply_writes run_id writes st, inr refl, inr (_, refl))
conclude_run-ComesOf run_id (paused gate) writes st =
    (apply_writes run_id writes st, inr refl, inr (_, refl))
conclude_run-ComesOf run_id raised writes st = (apply_writes run_id writes st, inr refl, inl refl)

approve_keeps_terminal :
    (who : String → Result AuthError CurrentUser) (a : Answers) (outcome : Outcome)
    (writes : List Write) (now : ℕ) (run_id token : String) (st : Store) (r : Run)
    → UniqueIds st
    → IsTerminal r
    → In r st.runs
    → In r (handle_approve who a outcome writes now run_id token st).1.runs
unfolding handle_approve
approve_keeps_terminal who a outcome writes now run_id token st r unique over i =
    elim (Result-cases (begin_approval who st run_id token)) [
      | inl (x, refused) ↦
          let same : st ≡ (handle_approve who a outcome writes now run_id token st).1 =
            ground arith in
          subst (λ v. In r v.runs) same i
      | inr ((run, gate, login), begun) ↦
          let (here, id_of, waits, _) =
            begin_approval_ok who st run_id token run gate login begun in
          let other : r.id ≢ run_id = λ e.
            ground (arith, terminal_waits_no_more r over, unique r run i here (e ∙ sym id_of)) in
          let same : (conclude_approval a outcome writes now run_id login st).1
              ≡ (handle_approve who a outcome writes now run_id token st).1 =
            ground arith in
          subst (λ v. In r v.runs) same
            (ComesOf-keeps_others run_id writes st _ r
              (conclude_approval-ComesOf a outcome writes now run_id login st) other i)
    ]

begin_run_keeps_rows :
    (who : String → Result AuthError CurrentUser) (scenario : Option String) (now : ℕ)
    (run_id requirement token : String) (st : Store) (r : Run)
    → In r st.runs
    → In r (begin_run who scenario now run_id requirement token st).1.runs
      × ((begin_run who scenario now run_id requirement token st).0 ≡ ok tt → r.id ≢ run_id)
unfolding begin_run update_run_scenario
begin_run_keeps_rows who scenario now run_id requirement token st r i =
    let end = begin_run who scenario now run_id requirement token st in
    elim (Result-cases (who token)) [
      | inl (x, refused) ↦
          let same : st ≡ end.1 = ground arith in
          (subst (λ v. In r v.runs) same i, λ h. absurd (ground arith))
      | inr (user, resolves) ↦
          elim (Bool-cases
            (ltb (length (codes requirement)) 10 || ltb 2_000 (length (codes requirement)))) [
              | inl wrong ↦
                  let same : st ≡ end.1 = ground arith in
                  (subst (λ v. In r v.runs) same i, λ h. absurd (ground arith))
              | inr right ↦
                  elim (Result-cases
                    (create_run st now run_id requirement "pending" user.github_login)) [
                      | inl (x, clash) ↦
                          let same : st ≡ end.1 = ground arith in
                          (subst (λ v. In r v.runs) same i, λ h. absurd (ground arith))
                      | inr (st', created) ↦
                          let (longer, free) =
                            create_run_ok st st' now run_id requirement "pending" user.github_login
                              created in
                          let here = subst (In r) (sym longer) (In-append_left r st.runs _ i) in
                          let other : r.id ≢ run_id = λ e. ground (
                            arith,
                            any_of-In (λ x. x.id == run_id) r st.runs i ((eq_iff r.id run_id).1 e),
                          ) in
                          elim (Option-cases scenario) [
                            | inl unclear ↦
                                let same : st' ≡ end.1 = ground arith in
                                (subst (λ v. In r v.runs) same here, λ h. other)
                            | inr (kind, clear) ↦
                                let f = λ (x : Run). record x { scenario_type = kind } in
                                let same : update_run run_id f st' ≡ end.1 = ground arith in
                                (
                                  subst (λ v. In r v.runs) same
                                      (update_run_keeps run_id f st' r other here),
                                  λ h. other,
                                )
                          ]
                    ]
            ]
    ]

run_keeps_terminal :
    (who : String → Result AuthError CurrentUser) (scenario : Option String) (outcome : Outcome)
    (writes : List Write) (now : ℕ) (run_id requirement token : String) (st : Store) (r : Run)
    → In r st.runs
    → In r (handle_run who scenario outcome writes now run_id requirement token st).1.runs
unfolding handle_run
run_keeps_terminal who scenario outcome writes now run_id requirement token st r i =
    let begun = begin_run who scenario now run_id requirement token st in
    let (here, unless) = begin_run_keeps_rows who scenario now run_id requirement token st r i in
    elim (Result-cases begun.0) [
      | inl (x, refused) ↦
          let same : begun.1
              ≡ (handle_run who scenario outcome writes now run_id requirement token st).1 =
            ground arith in
          subst (λ v. In r v.runs) same here
      | inr (done, passed) ↦
          let same : (conclude_run run_id outcome (apply_writes run_id writes begun.1)).1
              ≡ (handle_run who scenario outcome writes now run_id requirement token st).1 =
            ground arith in
          subst (λ v. In r v.runs) same
            (ComesOf-keeps_others run_id writes begun.1 _ r
              (conclude_run-ComesOf run_id outcome writes begun.1) (unless passed) here)
    ]

-- In every store that the CLI reaches, a run that is completed or rejected keeps its row through any
-- further command: no approval, run or write of the pipeline changes it.
pub terminal_forever :
    (who : String → Result AuthError CurrentUser) (st st' : Store)
    → Reachable who st
    → Command who st st'
    → (r : Run) → IsTerminal r
    → In r st.runs
    → In r st'.runs
terminal_forever who _ _ reached
      (run_command scenario outcome writes now run_id requirement token st) r over i =
    run_keeps_terminal who scenario outcome writes now run_id requirement token st r i
terminal_forever who _ _ reached (approve_command a outcome writes now run_id token st) r over i =
    approve_keeps_terminal who a outcome writes now run_id token st r
      (Reachable-IsSound who st reached).0 over i
