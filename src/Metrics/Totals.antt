-- ===== src/Metrics/Totals.antt =====
-- The rows of `per_stage_summary` add up to the sums of `summarize`.
use url_copilot.Prelude.{
  ==_refl, Bool-cases, List, String, [], ap, arith, contains, if◌then◌else◌, inl, inr, length, ltb,
  map, nat_eq, refl, select, string_eq, sym, ℕ, ◌++◌, ◌+◌, ◌==◌, ◌∙◌, ◌∷◌, ◌≡◌, ◌≤◌,
}
use url_copilot.Gateway.Models.{Metric}
use url_copilot.Runs.Store.{StageResult}
use url_copilot.Metrics.{
  StageSummary, of_run, per_stage_summary, stage_summary, stages_of, sum_of, summarize,
}

abbrev pub count_in : String → List String → ℕ
count_in a [] = 0
count_in a (x ∷ xs) = (if a == x then 1 else 0) + count_in a xs

count_in-append :
    (a : String) (xs ys : List String) → count_in a (xs ++ ys) ≡ count_in a xs + count_in a ys
count_in-append a [] ys = omega arith
count_in-append a (x ∷ xs) ys = omega (arith, count_in-append a xs ys)

count_in-contains : (a : String) (xs : List String) → contains a xs ≡ (ltb 0 (count_in a xs))
count_in-contains a [] = refl
count_in-contains a (x ∷ xs) = ground (arith, count_in-contains a xs)

-- a stage is listed once, and all rows of one that is not are none
stages_of-once : (a : String) (rows : List Metric) → count_in a (stages_of rows) ≤ 1
unfolding stages_of
stages_of-once a [] = omega arith
stages_of-once a (m ∷ ms) = ground (
  arith,
  stages_of-once a ms,
  count_in-contains m.stage_name (stages_of ms),
  count_in-append a (stages_of ms) (m.stage_name ∷ []),
  string_eq.beq_iff a m.stage_name,
)

unlisted_stage :
    (a : String) (rows : List Metric)
    → count_in a (stages_of rows) ≡ 0
    → select (λ m. m.stage_name == a) rows ≡ []
unfolding stages_of
unlisted_stage a [] h = refl
unlisted_stage a (m ∷ ms) h = ground (
  arith,
  unlisted_stage a ms,
  count_in-contains m.stage_name (stages_of ms),
  count_in-append a (stages_of ms) (m.stage_name ∷ []),
  string_eq.beq_iff m.stage_name a,
  ==_refl a,
)

module _ (f : Metric → ℕ) where
  -- the sum over the stages of the sums over their rows
  abbrev by_stage : List Metric → List String → ℕ
  by_stage rows [] = 0
  by_stage rows (s ∷ ss) = sum_of f (select (λ m. m.stage_name == s) rows) + by_stage rows ss

  by_stage-append :
      (rows : List Metric) (ss ts : List String)
      → by_stage rows (ss ++ ts) ≡ by_stage rows ss + by_stage rows ts
  by_stage-append rows [] ts = omega arith
  by_stage-append rows (s ∷ ss) ts = omega (arith, by_stage-append rows ss ts)

  by_stage-unlisted :
      (m : Metric) (rows : List Metric) (ss : List String)
      → count_in m.stage_name ss ≡ 0
      → by_stage (m ∷ rows) ss ≡ by_stage rows ss
  by_stage-unlisted m rows [] h = refl
  by_stage-unlisted m rows (s ∷ ss) h = ground (arith, by_stage-unlisted m rows ss)

  by_stage-listed :
      (m : Metric) (rows : List Metric) (ss : List String)
      → count_in m.stage_name ss ≡ 1
      → by_stage (m ∷ rows) ss ≡ f m + by_stage rows ss
  unfolding sum_of
  by_stage-listed m rows [] h = absurd (omega arith)
  by_stage-listed m rows (s ∷ ss) h =
      ground (arith, by_stage-listed m rows ss, by_stage-unlisted m rows ss)

  by_stage-total : (rows : List Metric) → by_stage rows (stages_of rows) ≡ sum_of f rows
  unfolding stages_of sum_of
  by_stage-total [] = refl
  by_stage-total (m ∷ ms) =
      let earlier = stages_of ms in
      let listed = count_in-contains m.stage_name earlier in
      let once = stages_of-once m.stage_name ms in
      elim (Bool-cases (contains m.stage_name earlier)) [
        | inl old ↦
            rw old
              (by_stage-listed m ms earlier (ground arith) ∙ ap (λ n. f m + n) (by_stage-total ms))
        | inr new ↦
            let absent : count_in m.stage_name earlier ≡ 0 = ground arith in
            let none_before = unlisted_stage m.stage_name ms absent in
            rw new (
              by_stage-append (m ∷ ms) earlier (m.stage_name ∷ [])
              ∙ ground (
                arith,
                by_stage-unlisted m ms earlier,
                by_stage-total ms,
                none_before,
                ==_refl m.stage_name,
              ))
      ]

-- a column of the summaries that is a sum over the rows of the stage
sum_of-summaries :
    (round_ratio : ℕ → ℕ → ℕ → ℕ) (f : Metric → ℕ) (column : StageSummary → ℕ) (rows : List Metric)
    (ss : List String)
    → ((s : String)
        → column (stage_summary round_ratio rows s)
          ≡ sum_of f (select (λ m. m.stage_name == s) rows))
    → sum_of column (map (stage_summary round_ratio rows) ss) ≡ by_stage f rows ss
unfolding sum_of
sum_of-summaries round_ratio f column rows [] h = refl
sum_of-summaries round_ratio f column rows (s ∷ ss) h =
    omega (arith, h s, sum_of-summaries round_ratio f column rows ss h)

length-sum_of : (rows : List Metric) → length rows ≡ sum_of (λ m. 1) rows
unfolding sum_of
length-sum_of [] = refl
length-sum_of (m ∷ ms) = omega (arith, length-sum_of ms)

sum_of-add :
    (f g : Metric → ℕ) (rows : List Metric)
    → sum_of (λ m. f m + g m) rows ≡ sum_of f rows + sum_of g rows
unfolding sum_of
sum_of-add f g [] = omega arith
sum_of-add f g (m ∷ ms) = omega (arith, sum_of-add f g ms)

map-summaries :
    (round_ratio : ℕ → ℕ → ℕ → ℕ) (rows : List Metric) (ss : List String)
    → map (λ s. s.stage_name) (map (stage_summary round_ratio rows) ss) ≡ ss
map-summaries round_ratio rows [] = refl
map-summaries round_ratio rows (s ∷ ss) = ap (◌∷◌ s) (map-summaries round_ratio rows ss)

-- The rows of per_stage_summary name each stage once, and add up to the summary of the run: to its
-- tokens, by their sum and by input and output, to its cost and to the number of its calls.
pub per_stage_totals :
    (round_ratio : ℕ → ℕ → ℕ → ℕ) (run_id : String) (metrics : List Metric)
    (results : List StageResult)
    → let stages = per_stage_summary round_ratio run_id metrics in
      let total = (summarize round_ratio run_id metrics results).sums in
      ((a : String) → count_in a (map (λ s. s.stage_name) stages) ≤ 1)
      × (sum_of (λ s. s.total_tokens) stages ≡ total.total_tokens)
      × (sum_of (λ s. s.tokens_in) stages + sum_of (λ s. s.tokens_out) stages ≡ total.total_tokens)
      × (sum_of (λ s. s.cost_usd) stages ≡ total.total_cost_usd)
      × (sum_of (λ s. s.llm_calls) stages ≡ length (of_run run_id metrics))
unfolding summarize per_stage_summary
per_stage_totals round_ratio run_id metrics results =
    let rows = of_run run_id metrics in
    let ss = stages_of rows in
    (
      λ a. rw (map-summaries round_ratio rows ss) (stages_of-once a rows),
      sum_of-summaries round_ratio (λ m. m.tokens_in + m.tokens_out) (λ s. s.total_tokens) rows ss
            (λ s. refl)
          ∙ by_stage-total (λ m. m.tokens_in + m.tokens_out) rows,
      omega (
        arith,
        sum_of-summaries round_ratio (λ m. m.tokens_in) (λ s. s.tokens_in) rows ss (λ s. refl),
        sum_of-summaries round_ratio (λ m. m.tokens_out) (λ s. s.tokens_out) rows ss (λ s. refl),
        by_stage-total (λ m. m.tokens_in) rows,
        by_stage-total (λ m. m.tokens_out) rows,
        sum_of-add (λ m. m.tokens_in) (λ m. m.tokens_out) rows,
      ),
      sum_of-summaries round_ratio (λ m. m.cost_usd) (λ s. s.cost_usd) rows ss (λ s. refl)
          ∙ by_stage-total (λ m. m.cost_usd) rows,
      sum_of-summaries round_ratio (λ m. 1) (λ s. s.llm_calls) rows ss
            (λ s. length-sum_of (select (λ m. m.stage_name == s) rows))
          ∙ (by_stage-total (λ m. 1) rows ∙ sym (length-sum_of rows)),
    )
