-- ===== src/Gateway/Call/Admission.antt =====
-- Which requests reach the language model.
use url_copilot.Prelude.{
  All, Bool-cases, In, In→contains, List, Result-cases, ap, arith, contains→In, inl, inr, nat_eq,
  ok, string_eq, true, ℕ, ◌+◌, ◌/◌, ◌<◌, ◌↔◌, ◌≡◌, ◌≤◌,
}
use url_copilot.Gateway.Auth.{CurrentUser, resolve}
use url_copilot.Gateway.Models.{Metric, Request}
use url_copilot.Gateway.RateLimiter.{check}
use url_copilot.Gateway.Scans.{check_input, validate}
use url_copilot.Gateway.Scans.Exact.{IsHarmless, validate_exact}
use url_copilot.Gateway.Ledger.{check_budget, start_span}
use url_copilot.Gateway.Call.{
  Moment, Reply, Setup, World, admit, authorize, call, complete, last_user_text, max_retries,
  opened, perform, prompt_chars, scan, settle,
}
use url_copilot.Governance.Checkpoint.{check_permission}
use url_copilot.Gateway.Call.Attempts.{complete_exact}

-- What steps 1 to 6 ask of a request, stated for each step by itself.
abbrev pub IsAdmissible : Setup → Moment → Request → World → CurrentUser → Type 0
IsAdmissible s t request w user =
    (resolve s.depth s.users s.rbac request.token ≡ ok user)
    × In "trigger_run" user.permissions
    × (check_budget s.runs w.metrics t.today user (prompt_chars request.messages / 4) ≡ ok tt)
    × ((check s.ticks t.now user.github_login w.windows).0 ≡ true)
    × All (IsHarmless s.lower) request.messages
    × (check_input s.pii (last_user_text request.messages) ≡ ok tt)

authorize_exact :
    (s : Setup) (today : ℕ) (metrics : List Metric) (request : Request) (user : CurrentUser)
    → (authorize s today metrics request ≡ ok user) ↔ (
        (resolve s.depth s.users s.rbac request.token ≡ ok user)
        × In "trigger_run" user.permissions
        × (check_budget s.runs metrics today user (prompt_chars request.messages / 4) ≡ ok tt))
unfolding authorize check_permission
authorize_exact s today metrics request user = (
  λ h. elim (Result-cases (resolve s.depth s.users s.rbac request.token)) [
    | inl (x, refused) ↦ absurd (ground arith)
    | inr (other, e) ↦
        (ground arith, contains→In "trigger_run" user.permissions (ground arith), ground arith)
  ],
  λ (resolves, holds, affordable). ground (arith, In→contains "trigger_run" user.permissions holds),
)

scan_exact :
    (s : Setup) (request : Request)
    → (scan s request ≡ ok tt) ↔ (
        All (IsHarmless s.lower) request.messages
        × (check_input s.pii (last_user_text request.messages) ≡ ok tt))
unfolding scan
scan_exact s request =
    let harmless = validate_exact s.lower request.messages in
    (
      λ h. elim (Result-cases (validate s.lower request.messages)) [
        | inl (x, refused) ↦ absurd (ground arith)
        | inr (done, e) ↦ (harmless.0 (ground arith), ground arith)
      ],
      λ (all_harmless, clean). let passes = harmless.1 all_harmless in ground arith,
    )

admit_ok :
    (s : Setup) (t : Moment) (request : Request) (w : World) (user : CurrentUser)
    → (admit s t request w).0 ≡ ok user
    → (authorize s t.today w.metrics request ≡ ok user)
      × ((check s.ticks t.now user.github_login w.windows).0 ≡ true)
      × (scan s request ≡ ok tt)
unfolding admit
admit_ok s t request w user h = elim (Result-cases (authorize s t.today w.metrics request)) [
  | inl (x, refused) ↦ absurd (ground arith)
  | inr (other, e) ↦ elim (Bool-cases (check s.ticks t.now other.github_login w.windows).0) [
    | inl paced ↦ elim (Result-cases (scan s request)) [
      | inl (x, refused) ↦ absurd (ground arith)
      | inr (done, clean) ↦ (ground arith, ground arith, ground arith)
    ]
    | inr limited ↦ absurd (ground arith)
  ]
]

pub admit_exact :
    (s : Setup) (t : Moment) (request : Request) (w : World) (user : CurrentUser)
    → ((admit s t request w).0 ≡ ok user) ↔ IsAdmissible s t request w user
unfolding admit
admit_exact s t request w user = (
  λ h.
      let (authorized, paced, clean) = admit_ok s t request w user h in
      let (resolves, holds, affordable) =
        (authorize_exact s t.today w.metrics request user).0 authorized in
      let (harmless, no_pii) = (scan_exact s request).0 clean in
      (resolves, holds, affordable, paced, harmless, no_pii),
  λ (resolves, holds, affordable, paced, harmless, no_pii).
      let authorized =
        (authorize_exact s t.today w.metrics request user).1 (resolves, holds, affordable) in
      let clean = (scan_exact s request).1 (harmless, no_pii) in ground arith,
)

-- Admission notes the call in the windows and changes nothing else.
pub admit-frame :
    (s : Setup) (t : Moment) (request : Request) (w : World)
    → (admit s t request w).1 ≡ record w { windows = (admit s t request w).1.windows }
unfolding admit
admit-frame s t request w = elim (Result-cases (authorize s t.today w.metrics request)) [
  | inl (x, refused) ↦ ground arith
  | inr (user, e) ↦ elim (Bool-cases (check s.ticks t.now user.github_login w.windows).0) [
    | inl paced ↦ elim (Result-cases (scan s request)) [
      | inl (x, refused) ↦ ground arith
      | inr (done, clean) ↦ ground arith
    ]
    | inr limited ↦ ground arith
  ]
]

perform-llm_calls :
    (s : Setup) (llm : ℕ → Reply) (t : Moment) (request : Request) (w : World)
    → (w.llm_calls + 1 ≤ (perform s llm t request w).1.llm_calls)
      × ((perform s llm t request w).1.llm_calls ≤ w.llm_calls + 4)
unfolding perform
perform-llm_calls s llm t request w =
    let traced = record w { spans = start_span t.trace_id t.started w.spans } in
    let counts = complete_exact llm traced in
    elim (Result-cases (complete llm 0 max_retries traced).0) [
      | inl (x, refused) ↦ ground (arith, counts.1, counts.2)
      | inr (c, e) ↦
          elim (Result-cases (settle s t request c (complete llm 0 max_retries traced).1.metrics)) [
            | inl (x, refused) ↦ ground (arith, counts.1, counts.2)
            | inr (metrics, settled) ↦ ground (arith, counts.1, counts.2)
          ]
    ]

-- A call reaches the OpenAI API exactly if its token resolves to a user who has the permission
-- trigger_run, whose budget covers the estimate, whose window has room, whose messages are harmless
-- and whose last message has no PII. It makes at most four requests.
pub call_reaches_llm :
    (s : Setup) (llm : ℕ → Reply) (t : Moment) (request : Request) (w : World)
    → ((w.llm_calls < (call s llm t request w).1.llm_calls)
        ↔ ((user : CurrentUser) × IsAdmissible s t request w user))
      × ((call s llm t request w).1.llm_calls ≤ w.llm_calls + 4)
unfolding call
call_reaches_llm s llm t request w =
    let kept = ap (λ v. v.llm_calls) (admit-frame s t request (opened w)) in
    elim (Result-cases (admit s t request (opened w)).0) [
      | inl (x, refused) ↦ (
        (
          λ h. absurd (ground arith),
          λ (user, admissible).
              absurd (ground (arith, (admit_exact s t request (opened w) user).1 admissible)),
        ),
        ground arith,
      )
      | inr (user, passed) ↦
          let counts = perform-llm_calls s llm t request (admit s t request (opened w)).1 in
          (
            (
              λ h. (user, (admit_exact s t request (opened w) user).0 passed),
              λ found. ground (arith, counts.0),
            ),
            ground (arith, counts.1),
          )
    ]
