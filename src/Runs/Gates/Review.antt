-- ===== src/Runs/Gates/Review.antt =====
-- The list of `handle_review` and the checks of `handle_approve` agree.
use mathlib.Core.Path.{subst}
use url_copilot.Prelude.{
  ==_refl, Bool-cases, In, In-select, List, Option-cases, Result, Result-cases, String, [],
  any_of-In, ap, arith, eq_iff, first, first-none_iff, first-In, first_sound, inl, inr, lookup, ltb,
  nat_eq, ok, refl, select, select-In, some, string_eq, sym, true, ◌==◌, ◌↔◌, ◌∷◌, ◌≡◌, ◌⊎◌,
}
use url_copilot.Gateway.Auth.{AuthError, CurrentUser, named}
use url_copilot.Governance.Checkpoint.{request_approval}
use url_copilot.Runs.Store.{
  Run, Store, get_pending_runs, get_run, insert_oldest, is_awaiting, oldest_first,
}
use url_copilot.Runs.Gates.{approvable, begin_approval, gate_of, gate_permissions, handle_review}
use url_copilot.Runs.Gates.Rows.{UniqueIds}

In-insert_oldest : (r x : Run) (xs : List Run) → In r (insert_oldest x xs) ↔ ((r ≡ x) ⊎ In r xs)
In-insert_oldest r x [] = (λ h. h, λ h. h)
In-insert_oldest r x (y ∷ ys) = elim (Bool-cases (ltb y.created_at x.created_at)) [
  | inl later ↦ ground (arith, In-insert_oldest r x ys)
  | inr sooner ↦ ground arith
]

pub In-oldest_first : (r : Run) (rs : List Run) → In r (oldest_first rs) ↔ In r rs
In-oldest_first r [] = (λ h. h, λ h. h)
In-oldest_first r (x ∷ xs) =
    ground (arith, In-insert_oldest r x (oldest_first xs), In-oldest_first r xs)

module _ (who : String → Result AuthError CurrentUser) (token : String) where
  abbrev pub Actionable : Run → String → String → Type 0
  Actionable run gate login =
      (is_awaiting run.status ≡ true)
      × (gate ≡ gate_of run.status)
      × (permission : String) × (lookup (gate_of run.status) gate_permissions ≡ some permission)
      × (request_approval who permission run.triggered_by token ≡ ok login)

  approvable_nil : approvable who token [] ≡ []
  unfolding approvable
  approvable_nil = refl

  -- what one run adds to the list
  approvable-cons :
      (x : Run) (xs : List Run)
      → ((approvable who token (x ∷ xs) ≡ approvable who token xs)
          × ((gate login : String) → ¬ Actionable x gate login))
        ⊎ ((approvable who token (x ∷ xs) ≡ (x, gate_of x.status) ∷ approvable who token xs)
            × (login : String) × Actionable x (gate_of x.status) login)
  unfolding approvable
  approvable-cons x xs = elim (Bool-cases (is_awaiting x.status)) [
    | inr busy ↦ inl (ground arith, λ gate login a. ground (arith, a.0))
    | inl waits ↦ elim (Option-cases (lookup (gate_of x.status) gate_permissions)) [
      | inl unmapped ↦ inl (ground arith, λ gate login (_, _, permission, mapped, _). ground arith)
      | inr (permission, mapped) ↦
          elim (Result-cases (request_approval who permission x.triggered_by token)) [
            | inl (e, refused) ↦
                inl (ground arith, λ gate login (_, _, other, also, passed). ground arith)
            | inr (login, passed) ↦
                inr (ground arith, login, (waits, refl, permission, mapped, passed))
          ]
    ]
  ]

  approvable_sound :
      (runs : List Run) (run : Run) (gate : String)
      → In (run, gate) (approvable who token runs)
      → In run runs × (login : String) × Actionable run gate login
  approvable_sound [] run gate h = absurd (subst (In (run, gate)) approvable_nil h)
  approvable_sound (x ∷ xs) run gate h = elim (approvable-cons x xs) [
    | inl (same, _) ↦
        let (at, login, a) = approvable_sound xs run gate (subst (In (run, gate)) same h) in
        (inr at, login, a)
    | inr (longer, login, a) ↦ elim (subst (In (run, gate)) longer h) [
      | inl e ↦
          let same_run : run ≡ x = ap (λ v. v.0) e in
          let same_gate : gate ≡ gate_of x.status = ap (λ v. v.1) e in
          (
            inl same_run,
            login,
            subst (λ r. Actionable r gate login) (sym same_run)
                (subst (λ g. Actionable x g login) (sym same_gate) a),
          )
      | inr later ↦ let (at, other, b) = approvable_sound xs run gate later in (inr at, other, b)
    ]
  ]

  approvable_complete :
      (runs : List Run) (run : Run) (gate login : String)
      → In run runs
      → Actionable run gate login
      → In (run, gate) (approvable who token runs)
  approvable_complete [] run gate login i a = absurd i
  approvable_complete (x ∷ xs) run gate login i a = elim (approvable-cons x xs) [
    | inl (same, never) ↦ elim i [
      | inl e ↦ absurd (never gate login (subst (λ r. Actionable r gate login) e a))
      | inr later ↦
          subst (In (run, gate)) (sym same) (approvable_complete xs run gate login later a)
    ]
    | inr (longer, _, _) ↦ subst (In (run, gate)) (sym longer) (elim i [
      | inl e ↦ inl (ground (arith, a.1, e))
      | inr later ↦ inr (approvable_complete xs run gate login later a)
    ])
  ]

  begin_approval_exact :
      (st : Store) (run : Run) (gate login : String)
      → get_run st run.id ≡ ok run
      → (begin_approval who st run.id token ≡ ok (run, gate, login)) ↔ Actionable run gate login
  unfolding begin_approval
  begin_approval_exact st run gate login found = (
    λ h. elim (Bool-cases (is_awaiting run.status)) [
      | inr busy ↦ absurd (ground arith)
      | inl waits ↦ elim (Option-cases (lookup (gate_of run.status) gate_permissions)) [
        | inl unmapped ↦ absurd (ground arith)
        | inr (permission, mapped) ↦
            elim (Result-cases (request_approval who permission run.triggered_by token)) [
              | inl (e, refused) ↦ absurd (ground arith)
              | inr (other, passed) ↦ (waits, ground arith, permission, mapped, ground arith)
            ]
      ]
    ],
    λ (waits, named, permission, mapped, passed). ground arith,
  )

  get_run_self :
      (st : Store) → UniqueIds st → (run : Run) → In run st.runs → get_run st run.id ≡ ok run
  unfolding get_run
  get_run_self st unique run i = elim (Option-cases (first (λ r. r.id == run.id) st.runs)) [
    | inl missing ↦ absurd (
        ground (
          arith,
          (first-none_iff (λ r. r.id == run.id) st.runs).0 missing,
          any_of-In (λ r. r.id == run.id) run st.runs i (==_refl run.id),
        ))
    | inr (other, e) ↦
        let same_id = (eq_iff other.id run.id).0 (first_sound (λ r. r.id == run.id) st.runs e) in
        let same = unique other run (first-In (λ r. r.id == run.id) st.runs e) i same_id in
        ground arith
  ]

  -- Where no two runs share an id, the review lists a run with its gate exactly if approving that run
  -- with the same token would be let through to the decision, at that gate.
  pub handle_review_exact :
      (st : Store)
      → UniqueIds st
      → (user : CurrentUser) → who token ≡ ok user
      → (pairs : List (Run × String)) × (handle_review who token st ≡ ok pairs)
        × ((run : Run) (gate : String)
            → In (run, gate) pairs ↔ (
                In run st.runs
                × (login : String) × (begin_approval who st run.id token ≡ ok (run, gate, login))))
  unfolding handle_review get_pending_runs
  handle_review_exact st unique user resolves =
      let awaits = λ (r : Run). is_awaiting r.status in
      let pending_runs = select awaits st.runs in
      (
        approvable who token (oldest_first pending_runs),
        ground arith,
        λ run gate. (
          λ i.
              let (at, login, a) = approvable_sound (oldest_first pending_runs) run gate i in
              let here =
                (In-select awaits run st.runs ((In-oldest_first run pending_runs).0 at)).0 in
              (
                here,
                login,
                (begin_approval_exact st run gate login (get_run_self st unique run here)).1 a,
              ),
          λ (here, login, begun).
              let a =
                (begin_approval_exact st run gate login (get_run_self st unique run here)).0
                  begun in
              approvable_complete (oldest_first pending_runs) run gate login
                ((In-oldest_first run pending_runs).1 (select-In awaits run st.runs here a.0)) a,
        ),
      )
