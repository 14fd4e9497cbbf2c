-- ===== src/Scenarios/Nodes/Delivery.antt =====
-- The pull request that the node of the implementation leaves in orch_runs.
use mathlib.Core.Path.{subst}
use url_copilot.Prelude.{
  Bool-cases, Dict, List, Option-cases, Result-cases, String, [], ap, arith, contains, first, inl,
  inr, lookup, lookup-insert_self, nat_eq, ok, refl, some, string_eq, sym, true, update_where, ◌==◌,
  ◌∙◌, ◌∷◌, ◌≡◌,
}
use url_copilot.Prelude.Json.{Fields, or_null, truthy}
use url_copilot.Runs.Store.{Run, get_run, update_run, update_run_pr}
use url_copilot.Agents.Tools.{ToolCache}
use url_copilot.Scenarios.Nodes.{
  Database, NodeState, Outside, Produced, deliver, filled_text, find_pr, keep_pr, open_pr, or_empty,
  persist_pr, push_and_open, recover_pr, run_ids,
}
use url_copilot.Scenarios.Nodes.Writes.{IsKnown}
use url_copilot.Scenarios.Nodes.Execute.{
  artifact_fields, failed_artifact, finish, is_empty, stage_node,
}
use url_copilot.Metrics.{is_failed}
use url_copilot.Scenarios.Nodes.Records.{
  completed_db, counted-IsKnown, stage_node_completed, stage_node_failed,
}

-- an UPDATE by id finds the first row of that id, which keeps its id
first-update_where :
    (run_id : String) (f : Run → Run) (runs : List Run)
    → ((r : Run) → (f r).id ≡ r.id)
    → contains run_id (run_ids runs) ≡ true
    → (r : Run) × (first (λ x. x.id == run_id) (update_where (λ x. x.id == run_id) f runs)
        ≡ some (f r))
first-update_where run_id f [] keeps known = absurd (ground arith)
first-update_where run_id f (r ∷ rs) keeps known = elim (Bool-cases (r.id == run_id)) [
  | inl here ↦ (r, ground (arith, keeps r))
  | inr other ↦
      let (s, found) =
        first-update_where run_id f rs keeps
          (ground (arith, string_eq.beq_iff r.id run_id, string_eq.beq_iff run_id r.id)) in
      (s, ground arith)
]

persisted :
    (run_id url branch : String) (db : Database)
    → IsKnown run_id db
    → (r : Run) × (get_run (persist_pr run_id url branch db).store run_id ≡ ok r)
      × (r.pr_url ≡ some url)
      × (r.feature_branch ≡ some branch)
unfolding persist_pr update_run_pr update_run get_run
persisted run_id url branch db known =
    let mark = λ (r : Run). record r { pr_url = some url; feature_branch = some branch } in
    let (r, found) = first-update_where run_id mark db.store.runs (λ x. refl) known in
    (mark r, rw found refl, refl, refl)

-- an UPDATE leaves the ids as they are
run_ids-update_where :
    (run_id : String) (f : Run → Run) (runs : List Run)
    → ((r : Run) → (f r).id ≡ r.id)
    → run_ids (update_where (λ x. x.id == run_id) f runs) ≡ run_ids runs
run_ids-update_where run_id f [] keeps = refl
run_ids-update_where run_id f (r ∷ rs) keeps =
    ground (arith, keeps r, run_ids-update_where run_id f rs keeps)

persist_pr-IsKnown :
    (run_id url branch : String) (db : Database)
    → IsKnown run_id db
    → IsKnown run_id (persist_pr run_id url branch db)
unfolding persist_pr update_run_pr update_run
persist_pr-IsKnown run_id url branch db known =
    rw
      (run_ids-update_where run_id
        (λ r. record r { pr_url = some url; feature_branch = some branch }) db.store.runs
        (λ r. refl))
      known

recover_pr-IsKnown :
    (o : Outside) (run_id : String) (cache : ToolCache) (artifact : Fields) (db : Database)
    → IsKnown run_id db
    → IsKnown run_id (recover_pr o run_id cache artifact db).1
unfolding recover_pr
recover_pr-IsKnown o run_id cache artifact db known =
    elim (Bool-cases (truthy (or_null (lookup "pr_url" artifact)))) [
      | inl named ↦ rw (named, recover_pr) known
      | inr unnamed ↦ elim (Option-cases (find_pr o.load_object cache)) [
        | inl missing ↦ ground arith
        | inr ((url, fields), found) ↦
            let branch = or_empty (filled_text "branch_name" artifact) in
            ground (arith, persist_pr-IsKnown run_id url branch db known)
      ]
    ]

open_pr-IsKnown :
    (o : Outside) (run_id requirement : String) (artifact : Fields) (db : Database)
    → IsKnown run_id db
    → IsKnown run_id (open_pr o run_id requirement artifact db).1
unfolding open_pr
open_pr-IsKnown o run_id requirement artifact db known =
    elim (Option-cases (filled_text "branch_name" artifact)) [
      | inl missing ↦ ground arith
      | inr (branch, named) ↦ elim (Result-cases (push_and_open o run_id requirement branch)) [
        | inl (message, refused) ↦ ground arith
        | inr ((number, url), opened) ↦
            ground (arith, persist_pr-IsKnown run_id url branch db known)
      ]
    ]

-- the run of `run_id` shows this pull request
abbrev pub Shows : String → String → String → Database → Type 0
Shows run_id url branch db =
    (r : Run) × (get_run db.store run_id ≡ ok r)
    × (r.pr_url ≡ some url)
    × (r.feature_branch ≡ some branch)

deliver-Shows :
    (o : Outside) (st : NodeState) (cache : ToolCache) (artifact : Fields) (db : Database)
    (url branch : String)
    → IsKnown st.run_id db
    → filled_text "pr_url" (deliver o st cache artifact db).0 ≡ some url
    → filled_text "branch_name" (deliver o st cache artifact db).0 ≡ some branch
    → Shows st.run_id url branch (deliver o st cache artifact db).1
unfolding deliver
deliver-Shows o st cache artifact db url branch known named filled =
    let (recovered, db1) = recover_pr o st.run_id cache artifact db in
    let (opened, db2) = open_pr o st.run_id st.requirement recovered db1 in
    let still : IsKnown st.run_id db2 =
      open_pr-IsKnown o st.run_id st.requirement recovered db1
        (recover_pr-IsKnown o st.run_id cache artifact db known) in
    let kept : keep_pr st.run_id opened db2 ≡ persist_pr st.run_id url branch db2 =
      unfold keep_pr in ground arith in
    rw kept (persisted st.run_id url branch db2 still)

is_empty_nil : (fields : Fields) → is_empty fields ≡ true → fields ≡ []
is_empty_nil [] h = refl
is_empty_nil (f ∷ fs) h = cc

finish-Shows :
    (o : Outside) (st : NodeState) (produced : Produced) (db : Database) (url branch : String)
    → IsKnown st.run_id db
    → filled_text "pr_url" (finish o "implementation" st produced db).0 ≡ some url
    → filled_text "branch_name" (finish o "implementation" st produced db).0 ≡ some branch
    → Shows st.run_id url branch (finish o "implementation" st produced db).1
unfolding finish
finish-Shows o st produced db url branch known named filled =
    let fields = artifact_fields o produced.result in
    elim (Bool-cases (is_empty fields)) [
      | inl nothing ↦
          let plain : finish o "implementation" st produced db ≡ (fields, db) = ground arith in
          let bare : filled_text "pr_url" fields ≡ some url =
            subst (λ p. filled_text "pr_url" p.0 ≡ some url) plain named in
          absurd (ground (arith, is_empty_nil fields nothing))
      | inr something ↦
          let delivered : finish o "implementation" st produced db
              ≡ deliver o st produced.tool_cache fields db =
            ground arith in
          subst (λ p. Shows st.run_id url branch p.1) (sym delivered)
            (deliver-Shows o st produced.tool_cache fields db url branch known
              (subst (λ p. filled_text "pr_url" p.0 ≡ some url) delivered named)
              (subst (λ p. filled_text "branch_name" p.0 ≡ some branch) delivered filled))
    ]

pub delivered_pr_shown :
    (o : Outside) (st : NodeState) (produced : Produced) (db db' : Database)
    (artifacts : Dict String Fields) (fields : Fields) (url branch : String)
    → IsKnown st.run_id db
    → stage_node o "implementation" st produced db ≡ (ok artifacts, db')
    → lookup "implementation" artifacts ≡ some fields
    → filled_text "pr_url" fields ≡ some url
    → filled_text "branch_name" fields ≡ some branch
    → Shows st.run_id url branch db'
delivered_pr_shown o st produced db db' artifacts fields url branch known ran found named filled =
    let before = completed_db o "implementation" st produced db in
    elim (Bool-cases (is_failed produced.result.status)) [
      | inl bad ↦
          let same = stage_node_failed o "implementation" st produced db known bad in
          let failure = failed_artifact produced.result in
          let kept = lookup-insert_self "implementation" failure st.stage_artifacts in
          let errors : fields ≡ failure = ground (arith, kept, sym ran ∙ same) in
          absurd (ground arith)
      | inr good ↦
          let same = stage_node_completed o "implementation" st produced db known good in
          let finished = finish o "implementation" st produced before in
          let kept = lookup-insert_self "implementation" finished.0 st.stage_artifacts in
          let returned : fields ≡ finished.0 = ground (arith, kept, sym ran ∙ same) in
          let left : db' ≡ finished.1 = ap (λ p. p.1) (sym ran ∙ same) in
          subst (Shows st.run_id url branch) (sym left) (
            finish-Shows o st produced before url branch
              (counted-IsKnown o "implementation" st produced db known)
              (subst (λ f. filled_text "pr_url" f ≡ some url) returned named)
              (subst (λ f. filled_text "branch_name" f ≡ some branch) returned filled))
    ]
