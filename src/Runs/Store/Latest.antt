-- ===== src/Runs/Store/Latest.antt =====
-- What the latest attempts are.
use mathlib.Core.Path.{subst}
use url_copilot.Prelude.{
  Bool-cases, In, In-insert_sorted, In-select, List, Option, Option-cases, String, [], ap, arith,
  eq_iff, inl, inr, ltb, nat_eq, select, select-select, some, string_eq, sym, ◌&&◌, ◌==◌, ◌↔◌, ◌∙◌,
  ◌∷◌, ◌≡◌, ◌⊎◌,
}
use url_copilot.Runs.Store.{
  StageResult, Store, by_start, get_all_stage_results, get_stage_result, insert_started, latest,
  latest_of_each, stage_names,
}

latest-In : (rows : List StageResult) (r : StageResult) → latest rows ≡ some r → In r rows
latest-In [] r h = ground arith
latest-In (x ∷ xs) r h = elim (Option-cases (latest xs)) [
  | inl e ↦ ground arith
  | inr (s, e) ↦ elim (Bool-cases (ltb x.attempt_number s.attempt_number)) [
    | inl later ↦ inr (latest-In xs r (ground arith))
    | inr sooner ↦ ground arith
  ]
]

latest-some :
    (x : StageResult) (xs : List StageResult) → (r : StageResult) × (latest (x ∷ xs) ≡ some r)
latest-some x xs = elim (Option-cases (latest xs)) [
  | inl e ↦ (x, ground arith)
  | inr (s, e) ↦ elim (Bool-cases (ltb x.attempt_number s.attempt_number)) [
    | inl later ↦ (s, ground arith)
    | inr sooner ↦ (x, ground arith)
  ]
]

In-insert_started :
    (r x : StageResult) (xs : List StageResult) → In r (insert_started x xs) ↔ ((r ≡ x) ⊎ In r xs)
In-insert_started r x [] = (λ h. h, λ h. h)
In-insert_started r x (y ∷ ys) = elim (Bool-cases (ltb y.started_at x.started_at)) [
  | inl later ↦ ground (arith, In-insert_started r x ys)
  | inr sooner ↦ ground arith
]

In-by_start : (r : StageResult) (xs : List StageResult) → In r (by_start xs) ↔ In r xs
In-by_start r [] = (λ h. h, λ h. h)
In-by_start r (x ∷ xs) = ground (arith, In-insert_started r x (by_start xs), In-by_start r xs)

abbrev newest : String → List StageResult → Option StageResult
newest stage rows = latest (select (λ x. x.stage_name == stage) rows)

newest_name :
    (stage : String) (rows : List StageResult) (r : StageResult)
    → newest stage rows ≡ some r
    → newest r.stage_name rows ≡ some r
newest_name stage rows r e =
    let named = (In-select (λ x. x.stage_name == stage) r rows (latest-In _ r e)).1 in
    subst (λ n. newest n rows ≡ some r) (sym ((eq_iff r.stage_name stage).0 named)) e

In-latest_of_each :
    (r : StageResult) (names : List String) (rows : List StageResult)
    → In r (latest_of_each names rows)
    → newest r.stage_name rows ≡ some r
In-latest_of_each r [] rows h = absurd h
In-latest_of_each r (s ∷ names) rows h = elim (Option-cases (newest s rows)) [
  | inl e ↦ In-latest_of_each r names rows (ground arith)
  | inr (q, e) ↦
      let place : (r ≡ q) ⊎ In r (latest_of_each names rows) = ground arith in
      elim place [
        | inl same ↦ newest_name s rows r (ground arith)
        | inr later ↦ In-latest_of_each r names rows later
      ]
]

latest_of_each-In :
    (r : StageResult) (names : List String) (rows : List StageResult)
    → In r.stage_name names
    → newest r.stage_name rows ≡ some r
    → In r (latest_of_each names rows)
latest_of_each-In r [] rows i e = absurd i
latest_of_each-In r (s ∷ names) rows (inl here) e =
    let found = subst (λ n. newest n rows ≡ some r) here e in ground arith
latest_of_each-In r (s ∷ names) rows (inr later) e = elim (Option-cases (newest s rows)) [
  | inl none_found ↦ ground (arith, latest_of_each-In r names rows later e)
  | inr (q, found) ↦ ground (arith, latest_of_each-In r names rows later e)
]

In-stage_names :
    (r : StageResult) (rows : List StageResult) → In r rows → In r.stage_name (stage_names rows)
In-stage_names r [] h = absurd h
In-stage_names r (x ∷ xs) h =
    ground (arith, In-insert_sorted r.stage_name x.stage_name (stage_names xs), In-stage_names r xs)

-- the latest attempt of a stage of a run is a row of that run and stage
pub get_stage_result_sound :
    (st : Store) (run_id stage : String) (r : StageResult)
    → get_stage_result st run_id stage ≡ some r
    → (r.run_id ≡ run_id) × (r.stage_name ≡ stage)
unfolding get_stage_result
get_stage_result_sound st run_id stage r found =
    let asked = λ (x : StageResult). x.run_id == run_id && x.stage_name == stage in
    let among = In-select asked r st.stage_results (latest-In _ r found) in
    (
      ground (arith, among.1, eq_iff r.run_id run_id),
      ground (arith, among.1, eq_iff r.stage_name stage),
    )

-- The results listed for a run are exactly the rows of that run that are the latest attempt of their
-- stage.
pub get_all_stage_results_exact :
    (st : Store) (run_id : String) (r : StageResult)
    → In r (get_all_stage_results st run_id)
      ↔ ((r.run_id ≡ run_id) × (get_stage_result st run_id r.stage_name ≡ some r))
unfolding get_all_stage_results get_stage_result
get_all_stage_results_exact st run_id r =
    let of_run = λ (x : StageResult). x.run_id == run_id in
    let of_stage = λ (x : StageResult). x.stage_name == r.stage_name in
    let rows = select of_run st.stage_results in
    let listed = In-by_start r (latest_of_each (stage_names rows) rows) in
    let same : newest r.stage_name rows
        ≡ latest (select (λ x. of_run x && of_stage x) st.stage_results) =
      ap latest (select-select of_run of_stage st.stage_results) in
    (
      λ h.
          let found = In-latest_of_each r (stage_names rows) rows (listed.0 h) in
          let among = (In-select of_stage r rows (latest-In _ r found)).0 in
          (
            (eq_iff r.run_id run_id).0 (In-select of_run r st.stage_results among).1,
            sym same ∙ found,
          ),
      λ (here, found).
          let kept = same ∙ found in
          let among = (In-select of_stage r rows (latest-In _ r kept)).0 in
          listed.1 (latest_of_each-In r (stage_names rows) rows (In-stage_names r rows among) kept),
    )
