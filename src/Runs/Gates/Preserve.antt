-- ===== src/Runs/Gates/Preserve.antt =====
-- Every command keeps the four-eyes rule.
use mathlib.Core.Path.{subst}
use url_copilot.Prelude.{
  Bool-cases, List, Result, Result-cases, String, [], any_of, ap, arith, inl, inr, nat_eq, ok, refl,
  some, string_eq, sym, true, ℕ, ◌==◌, ◌∙◌, ◌∷◌, ◌≡◌, ◌≢◌,
}
use url_copilot.Runs.Store.{
  Run, StageResult, Store, completed_row, rejected_row, save_stage_result, update_run,
  update_run_completed, update_run_pr, update_run_rejected, update_run_status,
}
use url_copilot.Runs.Gates.{
  Answers, Outcome, Write, apply_writes, awaiting, begin_approval, conclude_approval, finished,
  gate_name, handle_approve, or_none, paused, pr_recorded, raised, stage_saved,
}
use url_copilot.Runs.Gates.Rows.{
  EveryRun, begin_approval_ok, update_run-EveryRun, update_run-UniqueIds,
}
use url_copilot.Runs.Gates.FourEyes.{IsSound, ReviewedByOther}
use url_copilot.Gateway.Auth.{AuthError, CurrentUser}

-- a change of a row that neither moves it nor reviews it
abbrev pub Unreviewing : (Run → Run) → Type 0
Unreviewing f =
    (r : Run)
    → ((f r).id ≡ r.id)
      × ((f r).triggered_by ≡ r.triggered_by)
      × ((f r).reviewed_by ≡ r.reviewed_by)

-- the state of a store while a run is under way: also, who started the run
abbrev Started : String → String → Store → Type 0
Started run_id login st = EveryRun (λ r. r.id ≡ run_id → r.triggered_by ≡ login) st

pub Unreviewing-IsSound :
    (run_id : String) (f : Run → Run) (st : Store)
    → Unreviewing f
    → IsSound st
    → IsSound (update_run run_id f st)
Unreviewing-IsSound run_id f st quiet (unique, signed) = (
  update_run-UniqueIds run_id f st (λ r. (quiet r).0) unique,
  update_run-EveryRun run_id f ReviewedByOther ReviewedByOther st
      (λ r i here rule login e same. rule login (sym (quiet r).2 ∙ e) (same ∙ (quiet r).1))
      (λ r other rule. rule) signed,
)

Unreviewing-Started :
    (run_id login : String) (f : Run → Run) (st : Store)
    → Unreviewing f
    → Started run_id login st
    → Started run_id login (update_run run_id f st)
Unreviewing-Started run_id login f st quiet started =
    let P = λ (r : Run). r.id ≡ run_id → r.triggered_by ≡ login in
    update_run-EveryRun run_id f P P st (λ r i here rule e. (quiet r).1 ∙ rule here)
      (λ r other rule. rule) started

save_stage_result_runs :
    (st st' : Store) (result : StageResult)
    → save_stage_result st result ≡ ok st'
    → st'.runs ≡ st.runs
unfolding save_stage_result
save_stage_result_runs st st' result h =
    elim (Bool-cases (any_of (λ r. r.id == result.run_id) st.runs)) [
      | inl known ↦ ground arith
      | inr unknown ↦ absurd (ground arith)
    ]

-- what holds of the rows of orch_runs is kept by the writes of the nodes, if their two updates keep it
pub apply_writes_keep :
    (P : Store → Type 0) (run_id : String)
    → ((st st' : Store) → st'.runs ≡ st.runs → P st → P st')
    → ((st : Store) (url branch : String) → P st → P (update_run_pr st run_id url branch))
    → (ws : List Write) (st : Store) → P st
    → P (apply_writes run_id ws st)
unfolding apply_writes
apply_writes_keep P run_id rows pr [] st h = h
apply_writes_keep P run_id rows pr (stage_saved result ∷ ws) st h =
    elim (Result-cases (save_stage_result st result)) [
      | inl (x, refused) ↦
          let same : apply_writes run_id ws st ≡ apply_writes run_id (stage_saved result ∷ ws) st =
            ground arith in
          subst P same (apply_writes_keep P run_id rows pr ws st h)
      | inr (st', saved) ↦
          let same : apply_writes run_id ws st' ≡ apply_writes run_id (stage_saved result ∷ ws) st =
            ground arith in
          subst P same (
            apply_writes_keep P run_id rows pr ws st'
              (rows st st' (save_stage_result_runs st st' result saved) h))
    ]
apply_writes_keep P run_id rows pr (pr_recorded url branch ∷ ws) st h =
    apply_writes_keep P run_id rows pr ws (update_run_pr st run_id url branch) (pr st url branch h)

abbrev InHand : String → String → Store → Type 0
InHand run_id login st = IsSound st × Started run_id login st

same_rows-InHand :
    (run_id login : String) (st st' : Store)
    → st'.runs ≡ st.runs
    → InHand run_id login st
    → InHand run_id login st'
same_rows-InHand run_id login st st' same h =
    subst (λ rows. InHand run_id login (record { runs = rows; stage_results = [] })) (sym same) h

apply_writes-InHand :
    (run_id login : String) (ws : List Write) (st : Store)
    → InHand run_id login st
    → InHand run_id login (apply_writes run_id ws st)
unfolding update_run_pr
apply_writes-InHand run_id login ws st h =
    apply_writes_keep (InHand run_id login) run_id (same_rows-InHand run_id login)
      (λ st url branch k.
        let f = λ (r : Run). record r { pr_url = some url; feature_branch = some branch } in
        (
          Unreviewing-IsSound run_id f st (λ r. (refl, refl, refl)) k.0,
          Unreviewing-Started run_id login f st (λ r. (refl, refl, refl)) k.1,
        ))
      ws st h

reviewing-IsSound :
    (run_id login trigger : String) (f : Run → Run) (st : Store)
    → ((r : Run)
        → ((f r).id ≡ r.id)
          × ((f r).triggered_by ≡ r.triggered_by)
          × ((f r).reviewed_by ≡ some login))
    → login ≢ trigger
    → InHand run_id trigger st
    → IsSound (update_run run_id f st)
reviewing-IsSound run_id login trigger f st signs other ((unique, signed), started) = (
  update_run-UniqueIds run_id f st (λ r. (signs r).0) unique,
  update_run-EveryRun run_id f ReviewedByOther ReviewedByOther st
      (λ r i here rule by e same.
        let signer : by ≡ login = ground (arith, signs r) in
        other (sym signer ∙ same ∙ (signs r).1 ∙ started r i here))
      (λ r elsewhere rule. rule) signed,
)

approved_keeps :
    (a : Answers) (outcome : Outcome) (writes : List Write) (now : ℕ)
    (run_id login trigger : String) (st : Store)
    → a.approved ≡ true
    → InHand run_id trigger st
    → login ≢ trigger
    → IsSound (conclude_approval a outcome writes now run_id login st).1
unfolding conclude_approval update_run_completed update_run_status
approved_keeps a finished writes now run_id login trigger st yes_said h other =
    let f = completed_row now a.score a.feedback_comment (some login) in
    let resumed = apply_writes run_id writes st in
    let same : update_run run_id f resumed
        ≡ (conclude_approval a finished writes now run_id login st).1 =
      ground arith in
    subst IsSound same (
      reviewing-IsSound run_id login trigger f resumed (λ r. (refl, refl, refl)) other
        (apply_writes-InHand run_id trigger writes st h))
approved_keeps a (paused gate) writes now run_id login trigger st yes_said h other =
    let f = λ (r : Run). record r { status = awaiting (gate_name gate) } in
    let resumed = apply_writes run_id writes st in
    let same : update_run run_id f resumed
        ≡ (conclude_approval a (paused gate) writes now run_id login st).1 =
      ground arith in
    subst IsSound same (
      Unreviewing-IsSound run_id f resumed (λ r. (refl, refl, refl))
        (apply_writes-InHand run_id trigger writes st h).0)
approved_keeps a raised writes now run_id login trigger st yes_said h other =
    let same : apply_writes run_id writes st
        ≡ (conclude_approval a raised writes now run_id login st).1 =
      ground arith in
    subst IsSound same (apply_writes-InHand run_id trigger writes st h).0

conclude_approval_keeps :
    (a : Answers) (outcome : Outcome) (writes : List Write) (now : ℕ)
    (run_id login trigger : String) (st : Store)
    → InHand run_id trigger st
    → login ≢ trigger
    → IsSound (conclude_approval a outcome writes now run_id login st).1
unfolding conclude_approval update_run_rejected
conclude_approval_keeps a outcome writes now run_id login trigger st h other =
    elim (Bool-cases a.approved) [
      | inl yes_said ↦ approved_keeps a outcome writes now run_id login trigger st yes_said h other
      | inr no_said ↦
          let f = rejected_row now login (or_none a.comment) in
          let same : update_run run_id f st
              ≡ (conclude_approval a outcome writes now run_id login st).1 =
            ground arith in
          subst IsSound same
            (reviewing-IsSound run_id login trigger f st (λ r. (refl, refl, refl)) other h)
    ]

pub handle_approve_keeps :
    (who : String → Result AuthError CurrentUser) (a : Answers) (outcome : Outcome)
    (writes : List Write) (now : ℕ) (run_id token : String) (st : Store)
    → IsSound st
    → IsSound (handle_approve who a outcome writes now run_id token st).1
unfolding handle_approve
handle_approve_keeps who a outcome writes now run_id token st sound =
    elim (Result-cases (begin_approval who st run_id token)) [
      | inl (x, refused) ↦
          let same : st ≡ (handle_approve who a outcome writes now run_id token st).1 =
            ground arith in
          subst IsSound same sound
      | inr ((run, gate, login), begun) ↦
          let (here, id_of, waits, other) =
            begin_approval_ok who st run_id token run gate login begun in
          let started : Started run_id run.triggered_by st =
            λ r i e. ap (λ x. x.triggered_by) (sound.0 r run i here (e ∙ sym id_of)) in
          let same : (conclude_approval a outcome writes now run_id login st).1
              ≡ (handle_approve who a outcome writes now run_id token st).1 =
            ground arith in
          subst IsSound same (
            conclude_approval_keeps a outcome writes now run_id login run.triggered_by st
              (sound, started) other)
    ]
