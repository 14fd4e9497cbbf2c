-- ===== src/Runs/Store/Loaded.antt =====
-- The artifacts that `load_run_state` finds.
use url_copilot.Prelude.{
  ==_refl, Bool-cases, Dict, In, List, Option, Option-cases, Result-cases, String, [], ap, arith,
  inl, inr, insert, lookup, lookup-insert, nat_eq, none, ok, refl, some, string_eq, sym, ◌==◌, ◌∙◌,
  ◌∷◌, ◌≡◌,
}
use url_copilot.Runs.Store.{StageResult, Store, get_all_stage_results, get_run, get_stage_result}
use url_copilot.Runs.Store.State.{RunState, collect, load_run_state}
use url_copilot.Runs.Store.Latest.{get_all_stage_results_exact, get_stage_result_sound}

-- the rows of the stage have this artifact
abbrev Agree : String → Option String → List StageResult → Type 0
Agree s x rows = (r : StageResult) → In r rows → r.stage_name ≡ s → r.output_artifact ≡ x

collect-keeps :
    (s : String) (x : Option String) (rows : List StageResult) (d : Dict String String)
    → Agree s x rows
    → lookup s d ≡ x
    → lookup s (collect d rows) ≡ x
unfolding collect
collect-keeps s x [] d agree here = here
collect-keeps s x (r ∷ rows) d agree here =
    let later : Agree s x rows = λ q i. agree q (inr i) in
    elim (Option-cases r.output_artifact) [
      | inl nothing ↦ ground (arith, nothing, collect-keeps s x rows d later here)
      | inr (artifact, some_artifact) ↦
          let d' = insert r.stage_name artifact d in
          let found = lookup-insert r.stage_name s artifact d in
          elim (Bool-cases (s == r.stage_name)) [
            | inl same ↦
                let named = sym ((string_eq.beq_iff s r.stage_name).0 same) in
                let mine = agree r (inl refl) named in
                ground (
                  arith,
                  some_artifact,
                  collect-keeps s x rows d' later
                      (ground (arith, found, same, mine, some_artifact)),
                )
            | inr other_stage ↦ ground (
              arith,
              some_artifact,
              collect-keeps s x rows d' later (ground (arith, found, other_stage, here)),
            )
          ]
    ]

collect-finds :
    (s artifact : String) (rows : List StageResult) (d : Dict String String) (q : StageResult)
    → Agree s (some artifact) rows
    → In q rows
    → q.stage_name ≡ s
    → lookup s (collect d rows) ≡ some artifact
unfolding collect
collect-finds s artifact [] d q agree i named = absurd i
collect-finds s artifact (r ∷ rows) d q agree (inl e) named =
    let mine = agree r (inl refl) (sym (ap (λ t. t.stage_name) e) ∙ named) in
    let here : lookup s (insert r.stage_name artifact d) ≡ some artifact = ground (
      arith,
      lookup-insert r.stage_name s artifact d,
      ==_refl s,
      sym (ap (λ t. t.stage_name) e) ∙ named,
    ) in
    ground (
      arith,
      mine,
      collect-keeps s (some artifact) rows (insert r.stage_name artifact d) (λ t j. agree t (inr j))
          here,
    )
collect-finds s artifact (r ∷ rows) d q agree (inr i) named =
    let later : Agree s (some artifact) rows = λ t j. agree t (inr j) in
    elim (Option-cases r.output_artifact) [
      | inl nothing ↦ ground (arith, nothing, collect-finds s artifact rows d q later i named)
      | inr (other_artifact, some_artifact) ↦ ground (
        arith,
        some_artifact,
        collect-finds s artifact rows (insert r.stage_name other_artifact d) q later i named,
      )
    ]

-- the artifact of the latest attempt of the stage
abbrev pub latest_artifact : Store → String → String → Option String
latest_artifact st run_id stage = elim (get_stage_result st run_id stage) [
  | none ↦ none
  | some r ↦ r.output_artifact
]

pub load_run_state_artifacts :
    (st : Store) (run_id stage : String) (state : RunState)
    → load_run_state st run_id ≡ ok state
    → lookup stage state.stage_artifacts ≡ latest_artifact st run_id stage
unfolding load_run_state
load_run_state_artifacts st run_id stage state loaded =
    let rows = get_all_stage_results st run_id in
    let x = latest_artifact st run_id stage in
    let agree : Agree stage x rows = λ r i named.
      let (_, newest) = (get_all_stage_results_exact st run_id r).0 i in
      let here = ap (get_stage_result st run_id) (sym named) ∙ newest in ground (arith, here) in
    let collected : lookup stage (collect [] rows) ≡ x =
      elim (Option-cases (get_stage_result st run_id stage)) [
        | inl never_run ↦ collect-keeps stage x rows [] agree (ground (arith, never_run))
        | inr (q, newest) ↦
            let (in_run, named) = get_stage_result_sound st run_id stage q newest in
            let listed =
              (get_all_stage_results_exact st run_id q).1
                (in_run, ap (get_stage_result st run_id) named ∙ newest) in
            elim (Option-cases q.output_artifact) [
              | inl nothing ↦ collect-keeps stage x rows [] agree (ground (arith, newest, nothing))
              | inr (artifact, some_artifact) ↦
                  let whole : x ≡ some artifact = ground (arith, newest, some_artifact) in
                  collect-finds stage artifact rows [] q (λ r i e. agree r i e ∙ whole) listed named
                  ∙ sym whole
            ]
      ] in
    elim (Result-cases (get_run st run_id)) [
      | inl (e, missing) ↦ absurd (ground arith)
      | inr (run, found) ↦
          let same : state.stage_artifacts ≡ collect [] rows = ground arith in
          ap (lookup stage) same ∙ collected
    ]
