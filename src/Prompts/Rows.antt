-- ===== src/Prompts/Rows.antt =====
-- The rows that the calls of a stage add to orch_metrics.
use mathlib.Core.Path.{subst}
use mathlib.Core.List.{append_assoc}
use url_copilot.Prelude.{
  All, All-append, List, Option, Result-cases, String, [], ap, arith, inl, inr, length,
  length-append, none, refl, some, sym, ℕ, ◌*◌, ◌++◌, ◌+◌, ◌∙◌, ◌∷◌, ◌≡◌, ◌≤◌,
}
use url_copilot.Gateway.Call.{call}
use url_copilot.Gateway.Call.Billing.{call-billed, metric_of}
use url_copilot.Gateway.Call.Admission.{call_reaches_llm}
use url_copilot.Agents.Stage.{Turn}
use url_copilot.Gateway.Models.{Metric}
use url_copilot.Prompts.Builder.{PromptState, Sources, build}
use url_copilot.Prompts.Agent.{StageRequest, services_of}
use url_copilot.Prompts.Calls.{Outlet, StageWorld, call_gateway, platform_of, request_to}

module _ {T : Type 0} (o : Outlet T) (src : Sources) (stage : String) (st : PromptState) where
  -- a row of the stage's own
  abbrev pub IsOwn : Metric → Type 0
  IsOwn m = (m.run_id ≡ st.run_id) × (m.stage_name ≡ stage) × (m.model_used ≡ o.model)

  -- Between the two worlds, orch_metrics has `least` to `most` new rows, all of the stage's own, and the
  -- API has been asked at most four times as often as `most`.
  abbrev pub Spent : ℕ → ℕ → StageWorld T → StageWorld T → Type 0
  Spent least most w w' =
      (rows : List Metric) × (w'.gateway.metrics ≡ rows ++ w.gateway.metrics)
      × (least ≤ length rows)
      × (length rows ≤ most)
      × All IsOwn rows
      × (w'.gateway.llm_calls ≤ w.gateway.llm_calls + 4 * most)

  pub Spent-same : (w w' : StageWorld T) → w'.gateway ≡ w.gateway → Spent 0 0 w w'
  Spent-same w w' same = (
    [],
    ap (λ g. g.metrics) same,
    omega arith,
    omega arith,
    tt,
    omega (arith, ap (λ g. g.llm_calls) same),
  )

  pub Spent-weaken :
      (l l' m m' : ℕ) (w w' : StageWorld T) → l' ≤ l → m ≤ m' → Spent l m w w' → Spent l' m' w w'
  Spent-weaken l l' m m' w w' less more (rows, grown, low, high, own, asked) =
      (rows, grown, omega arith, omega arith, own, omega arith)

  pub Spent-trans :
      (l l' m m' : ℕ) (a b c : StageWorld T)
      → Spent l m a b
      → Spent l' m' b c
      → Spent (l + l') (m + m') a c
  Spent-trans l l' m m' a b c (rows, grown, low, high, own, asked)
        (rows', grown', low', high', own', asked') =
      (
        rows' ++ rows,
        grown' ∙ (ap (λ r. rows' ++ r) grown ∙ sym (append_assoc rows' rows a.gateway.metrics)),
        omega (arith, length-append rows' rows),
        omega (arith, length-append rows' rows),
        All-append IsOwn rows' rows own' own,
        omega arith,
      )

  abbrev pub answered : {A : Type 0} → Option A → ℕ
  answered none = 0
  answered (some r) = 1

  call_gateway-Spent :
      (request : StageRequest) (w : StageWorld T)
      → request.run_id ≡ st.run_id
      → request.stage_name ≡ stage
      → request.model ≡ o.model
      → let (reply, w') = call_gateway o request w in Spent (answered reply) 1 w w'
  unfolding call_gateway
  call_gateway-Spent request w run name model =
      let sent_request = request_to request in
      let llm = o.llm w.calls in
      let moment = o.moment w.calls in
      let (_, few) = call_reaches_llm o.setup llm moment sent_request w.gateway in
      let books = call-billed o.setup llm moment sent_request w.gateway in
      elim (Result-cases (call o.setup llm moment sent_request w.gateway).0) [
        | inl (x, refused) ↦
            ([], ground (arith, books, refused), ground (arith, refused), omega arith, tt, few)
        | inr (r, returned) ↦ (
          metric_of o.setup moment sent_request r ∷ [],
          ground (arith, books, returned),
          ground (arith, returned),
          omega arith,
          ((run, name, model), tt),
          few,
        )
      ]

  pub ask-Spent :
      (version : String) (history : List Turn) (w : StageWorld T)
      → let (reply, w') = (services_of (platform_of o) src stage st version).ask history w in
        Spent (answered reply) 1 w w'
  ask-Spent version history w =
      let asked = (services_of (platform_of o) src stage st version).ask history w in
      elim (Result-cases (build o.dumps src stage st history [])) [
        | inl (x, missing) ↦
            let e : asked ≡ (none, w) = ground (arith, missing) in
            subst (λ p. Spent (answered p.0) 1 w p.1) (sym e)
              (Spent-weaken 0 0 0 1 w w (omega arith) (omega arith) (Spent-same w w refl))
        | inr ((messages, v), built) ↦
            let request : StageRequest = record {
              token = st.token;
              run_id = st.run_id;
              stage_name = stage;
              messages = messages;
              model = o.model;
              prompt_version = version;
            } in
            let e : asked ≡ call_gateway o request w = ground (arith, built) in
            subst (λ p. Spent (answered p.0) 1 w p.1) (sym e)
              (call_gateway-Spent request w refl refl refl)
      ]
