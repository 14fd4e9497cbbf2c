-- ===== src/Runs/Gates/Rejection.antt =====
-- What the answer no does to a run.
use mathlib.Core.Path.{subst}
use url_copilot.Prelude.{
  In, In-select, List, Result, String, ap, arith, eq_iff, false, if◌then◌else◌, nat_eq, ok, refl,
  select, string_eq, sym, true, update_where, update_where-In, ℕ, ◌==◌, ◌∙◌, ◌≡◌,
}
use url_copilot.Gateway.Auth.{AuthError, CurrentUser}
use url_copilot.Runs.Store.{
  Run, Store, get_pending_runs, is_awaiting, rejected_row, update_run, update_run_rejected,
}
use url_copilot.Runs.Gates.{
  Answers, Outcome, Write, begin_approval, conclude_approval, handle_approve, or_none,
}
use url_copilot.Runs.Gates.Rows.{EveryRun, begin_approval_ok, update_run-EveryRun}
use url_copilot.Runs.Gates.Review.{In-oldest_first}

update_run_changes :
    (run_id : String) (f : Run → Run) (st : Store) (r : Run)
    → r.id ≡ run_id
    → In r st.runs
    → In (f r) (update_run run_id f st).runs
unfolding update_run
update_run_changes run_id f st r here i =
    let same : (if r.id == run_id then f r else r) ≡ f r =
      ground (arith, (eq_iff r.id run_id).1 here) in
    subst (λ x. In x (update_where (λ y. y.id == run_id) f st.runs)) same
      (update_where-In (λ x. x.id == run_id) f r st.runs i)

update_run_results :
    (run_id : String) (f : Run → Run) (st : Store)
    → (update_run run_id f st).stage_results ≡ st.stage_results
unfolding update_run
update_run_results run_id f st = refl

update_run_rows :
    (run_id : String) (f : Run → Run) (st : Store)
    → (update_run run_id f st).runs ≡ update_where (λ r. r.id == run_id) f st.runs
unfolding update_run
update_run_rows run_id f st = refl

pub get_pending_runs_sound :
    (st : Store) (r : Run)
    → In r (get_pending_runs st)
    → In r st.runs × (is_awaiting r.status ≡ true)
unfolding get_pending_runs
get_pending_runs_sound st r i =
    In-select (λ x. is_awaiting x.status) r st.runs
      ((In-oldest_first r (select (λ x. is_awaiting x.status) st.runs)).0 i)

module _ (who : String → Result AuthError CurrentUser) (a : Answers) (outcome : Outcome)
    (writes : List Write) (now : ℕ) (run_id token : String) (st : Store) where
  -- A command that is let through to the decision and answered with no rejects the run, in its
  -- reviewer's name and with the comment, if there is one; it leaves the rows of all other runs and the
  -- stage results as they were, and the run is not among the pending runs afterwards.
  pub rejection_effect :
      (run : Run) (gate login : String)
      → begin_approval who st run_id token ≡ ok (run, gate, login)
      → a.approved ≡ false
      → let end = (handle_approve who a outcome writes now run_id token st).1 in
        ((handle_approve who a outcome writes now run_id token st).0 ≡ ok tt)
        × In (rejected_row now login (or_none a.comment) run) end.runs
        × (end.runs
            ≡ update_where
                (λ r. r.id == run_id)
                (rejected_row now login (or_none a.comment))
                st.runs)
        × (end.stage_results ≡ st.stage_results)
        × ((r : Run) → ¬ (In r (get_pending_runs end) × (r.id ≡ run_id)))
  unfolding handle_approve conclude_approval update_run_rejected
  rejection_effect run gate login begun no_said =
      let f = rejected_row now login (or_none a.comment) in
      let (here, id_of, _, _) = begin_approval_ok who st run_id token run gate login begun in
      let same : (handle_approve who a outcome writes now run_id token st).1
          ≡ update_run run_id f st =
        ground arith in
      let over : EveryRun (λ r. r.id ≡ run_id → is_awaiting r.status ≡ false)
          (update_run run_id f st) =
        update_run-EveryRun run_id f (λ r. Unit {0})
          (λ r. r.id ≡ run_id → is_awaiting r.status ≡ false) st (λ r i at u e. refl)
          (λ r other u e. absurd (other e)) (λ r i. tt) in
      (
        ground arith,
        subst (λ v. In (f run) v.runs) (sym same) (update_run_changes run_id f st run id_of here),
        ap (λ v. v.runs) same ∙ update_run_rows run_id f st,
        ap (λ v. v.stage_results) same ∙ update_run_results run_id f st,
        λ r (listed, e).
            let (at, waits) = get_pending_runs_sound _ r listed in
            ground (arith, over r (subst (λ v. In r v.runs) same at) e, waits),
      )
