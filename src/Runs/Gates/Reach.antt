-- ===== src/Runs/Gates/Reach.antt =====
-- What holds in every store that the commands reach.
use mathlib.Core.Path.{subst}
use url_copilot.Prelude.{
  Bool-cases, In, In-append, List, Option, Option-cases, Result, Result-cases, String, [], any_of,
  any_of-In, ap, arith, codes, eq_iff, false, inl, inr, length, ltb, nat_eq, none, ok, refl, some,
  string_eq, sym, ℕ, ◌++◌, ◌==◌, ◌||◌, ◌∙◌, ◌∷◌, ◌≡◌, ◌≢◌,
}
use url_copilot.Gateway.Auth.{AuthError, CurrentUser}
use url_copilot.Runs.Store.{
  Run, StageResult, Store, create_run, new_run, update_run, update_run_pr, update_run_scenario,
  update_run_status,
}
use url_copilot.Runs.Gates.{
  Outcome, Write, apply_writes, awaiting, begin_run, conclude_run, finished, gate_name, handle_run,
  paused, raised,
}
use url_copilot.Runs.Gates.FourEyes.{
  Command, IsSound, Reachable, after, approve_command, at_first, run_command,
}
use url_copilot.Runs.Gates.Preserve.{apply_writes_keep, handle_approve_keeps, Unreviewing-IsSound}

pub create_run_ok :
    (st st' : Store) (now : ℕ) (run_id requirement scenario login : String)
    → create_run st now run_id requirement scenario login ≡ ok st'
    → (st'.runs ≡ st.runs ++ new_run now run_id requirement scenario login ∷ [])
      × (any_of (λ r. r.id == run_id) st.runs ≡ false)
unfolding create_run
create_run_ok st st' now run_id requirement scenario login h =
    elim (Bool-cases (any_of (λ r. r.id == run_id) st.runs)) [
      | inl taken ↦ absurd (ground arith)
      | inr free ↦ (ground arith, free)
    ]

only : (new r : Run) → In r (new ∷ []) → r ≡ new
only new r (inl e) = e
only new r (inr i) = absurd i

not_new :
    (runs : List Run) (new r : Run)
    → any_of (λ x. x.id == new.id) runs ≡ false
    → In r runs
    → r.id ≢ new.id
not_new runs new r free i same =
    ground (arith, any_of-In (λ x. x.id == new.id) r runs i ((eq_iff r.id new.id).1 same))

-- the row of a run that the commands did not know, put last
appended-IsSound :
    (runs : List Run) (results : List StageResult) (new : Run)
    → any_of (λ r. r.id == new.id) runs ≡ false
    → new.reviewed_by ≡ none
    → IsSound (record { runs = runs; stage_results = results })
    → IsSound (record { runs = runs ++ new ∷ []; stage_results = results })
appended-IsSound runs results new free unreviewed (unique, signed) = (
  λ r s i j same. elim (In-append r runs (new ∷ []) i) [
    | inl at_r ↦ elim (In-append s runs (new ∷ []) j) [
      | inl at_s ↦ unique r s at_r at_s same
      | inr last_s ↦
          absurd (not_new runs new r free at_r (same ∙ ap (λ x. x.id) (only new s last_s)))
    ]
    | inr last_r ↦ elim (In-append s runs (new ∷ []) j) [
      | inl at_s ↦
          absurd (not_new runs new s free at_s (sym same ∙ ap (λ x. x.id) (only new r last_r)))
      | inr last_s ↦ only new r last_r ∙ sym (only new s last_s)
    ]
  ],
  λ r i login e same. elim (In-append r runs (new ∷ []) i) [
    | inl at_r ↦ signed r at_r login e same
    | inr last_r ↦ absurd (ground (arith, only new r last_r))
  ],
)

create_run_keeps :
    (st st' : Store) (now : ℕ) (run_id requirement scenario login : String)
    → create_run st now run_id requirement scenario login ≡ ok st'
    → IsSound st
    → IsSound st'
create_run_keeps st st' now run_id requirement scenario login h sound =
    let (longer, free) = create_run_ok st st' now run_id requirement scenario login h in
    subst (λ rows. IsSound (record { runs = rows; stage_results = [] })) (sym longer)
      (appended-IsSound st.runs [] (new_run now run_id requirement scenario login) free refl sound)

writes-IsSound :
    (run_id : String) (ws : List Write) (st : Store)
    → IsSound st
    → IsSound (apply_writes run_id ws st)
unfolding update_run_pr
writes-IsSound run_id ws st sound =
    apply_writes_keep IsSound run_id
      (λ st st' same h.
        subst (λ rows. IsSound (record { runs = rows; stage_results = [] })) (sym same) h)
      (λ st url branch h.
        Unreviewing-IsSound run_id
          (λ r. record r { pr_url = some url; feature_branch = some branch }) st
          (λ r. (refl, refl, refl)) h)
      ws st sound

begin_run_keeps :
    (who : String → Result AuthError CurrentUser) (scenario : Option String) (now : ℕ)
    (run_id requirement token : String) (st : Store)
    → IsSound st
    → IsSound (begin_run who scenario now run_id requirement token st).1
unfolding begin_run update_run_scenario
begin_run_keeps who scenario now run_id requirement token st sound =
    let end = begin_run who scenario now run_id requirement token st in
    elim (Result-cases (who token)) [
      | inl (x, refused) ↦ let same : st ≡ end.1 = ground arith in subst IsSound same sound
      | inr (user, resolves) ↦
          elim (Bool-cases
            (ltb (length (codes requirement)) 10 || ltb 2_000 (length (codes requirement)))) [
              | inl wrong ↦ let same : st ≡ end.1 = ground arith in subst IsSound same sound
              | inr right ↦
                  elim (Result-cases
                    (create_run st now run_id requirement "pending" user.github_login)) [
                      | inl (x, clash) ↦
                          let same : st ≡ end.1 = ground arith in subst IsSound same sound
                      | inr (st', created) ↦
                          let kept =
                            create_run_keeps st st' now run_id requirement "pending"
                              user.github_login created sound in
                          elim (Option-cases scenario) [
                            | inl unclear ↦
                                let same : st' ≡ end.1 = ground arith in subst IsSound same kept
                            | inr (kind, clear) ↦
                                let f = λ (r : Run). record r { scenario_type = kind } in
                                let same : update_run run_id f st' ≡ end.1 = ground arith in
                                subst IsSound same
                                  (Unreviewing-IsSound run_id f st' (λ r. (refl, refl, refl)) kept)
                          ]
                    ]
            ]
    ]

conclude_run_keeps :
    (run_id : String) (outcome : Outcome) (st : Store)
    → IsSound st
    → IsSound (conclude_run run_id outcome st).1
unfolding conclude_run update_run_status
conclude_run_keeps run_id finished st sound =
    Unreviewing-IsSound run_id (λ r. record r { status = "completed" }) st (λ r. (refl, refl, refl))
      sound
conclude_run_keeps run_id (paused gate) st sound =
    Unreviewing-IsSound run_id (λ r. record r { status = awaiting (gate_name gate) }) st
      (λ r. (refl, refl, refl)) sound
conclude_run_keeps run_id raised st sound = sound

handle_run_keeps :
    (who : String → Result AuthError CurrentUser) (scenario : Option String) (outcome : Outcome)
    (writes : List Write) (now : ℕ) (run_id requirement token : String) (st : Store)
    → IsSound st
    → IsSound (handle_run who scenario outcome writes now run_id requirement token st).1
unfolding handle_run
handle_run_keeps who scenario outcome writes now run_id requirement token st sound =
    let st1 = (begin_run who scenario now run_id requirement token st).1 in
    let begun = begin_run_keeps who scenario now run_id requirement token st sound in
    elim (Result-cases (begin_run who scenario now run_id requirement token st).0) [
      | inl (x, refused) ↦
          let same : st1
              ≡ (handle_run who scenario outcome writes now run_id requirement token st).1 =
            ground arith in
          subst IsSound same begun
      | inr (done, passed) ↦
          let same : (conclude_run run_id outcome (apply_writes run_id writes st1)).1
              ≡ (handle_run who scenario outcome writes now run_id requirement token st).1 =
            ground arith in
          subst IsSound same (
            conclude_run_keeps run_id outcome (apply_writes run_id writes st1)
              (writes-IsSound run_id writes st1 begun))
    ]

Command-keeps :
    (who : String → Result AuthError CurrentUser) (st st' : Store)
    → Command who st st'
    → IsSound st
    → IsSound st'
Command-keeps who _ _ (run_command scenario outcome writes now run_id requirement token st) sound =
    handle_run_keeps who scenario outcome writes now run_id requirement token st sound
Command-keeps who _ _ (approve_command a outcome writes now run_id token st) sound =
    handle_approve_keeps who a outcome writes now run_id token st sound

-- In every store that the CLI reaches from the empty one by its two commands, whatever the pipeline
-- writes and the users answer, run ids are unique and no run was reviewed by the one who started it.
pub Reachable-IsSound :
    (who : String → Result AuthError CurrentUser) (st : Store) → Reachable who st → IsSound st
Reachable-IsSound who _ at_first = (λ r s i j same. absurd i, λ r i. absurd i)
Reachable-IsSound who _ (after {st} {st'} before command) =
    Command-keeps who st st' command (Reachable-IsSound who st before)
