-- ===== src/Runs/Gates/Rows.antt =====
-- What the commands do to the rows of orch_runs.
use url_copilot.Gateway.Auth.{AuthError, CurrentUser}
use mathlib.Core.Path.{subst}
use url_copilot.Prelude.{
  Bool-cases, In, In-update_where, Option-cases, Result, Result-cases, String, ap, arith, eq_iff,
  first, first-In, first_sound, if◌then◌else◌, inl, inr, lookup, nat_eq, ok, string_eq, sym, true,
  update_where, update_where-In, ◌==◌, ◌∙◌, ◌≡◌, ◌≢◌,
}
use url_copilot.Runs.Store.{Run, Store, get_run, is_awaiting, update_run}
use url_copilot.Runs.Gates.{begin_approval, gate_of, gate_permissions}
use url_copilot.Governance.Checkpoint.{request_approval, request_approval_exact}

abbrev pub UniqueIds : Store → Type 0
UniqueIds st = (r s : Run) → In r st.runs → In s st.runs → r.id ≡ s.id → r ≡ s

abbrev pub EveryRun : (Run → Type 0) → Store → Type 0
EveryRun P st = (r : Run) → In r st.runs → P r

update_where_id :
    (run_id : String) (f : Run → Run)
    → ((r : Run) → (f r).id ≡ r.id)
    → (r : Run) → (if r.id == run_id then f r else r).id ≡ r.id
update_where_id run_id f keeps r = elim (Bool-cases (r.id == run_id)) [
  | inl here ↦ ground (arith, keeps r)
  | inr elsewhere ↦ ground arith
]

pub update_run-UniqueIds :
    (run_id : String) (f : Run → Run) (st : Store)
    → ((r : Run) → (f r).id ≡ r.id)
    → UniqueIds st
    → UniqueIds (update_run run_id f st)
unfolding update_run
update_run-UniqueIds run_id f st keeps unique r s i j same =
    let p = λ (x : Run). x.id == run_id in
    let (a, at_a, e) = In-update_where p f r st.runs i in
    let (b, at_b, d) = In-update_where p f s st.runs j in
    let ids =
      sym (update_where_id run_id f keeps a)
      ∙ sym (ap (λ x. x.id) e)
      ∙ same
      ∙ ap (λ x. x.id) d
      ∙ update_where_id run_id f keeps b in
    e ∙ ap (λ x. if p x then f x else x) (unique a b at_a at_b ids) ∙ sym d

pub update_run-EveryRun :
    (run_id : String) (f : Run → Run) (P Q : Run → Type 0) (st : Store)
    → ((r : Run) → In r st.runs → r.id ≡ run_id → P r → Q (f r))
    → ((r : Run) → r.id ≢ run_id → P r → Q r)
    → EveryRun P st
    → EveryRun Q (update_run run_id f st)
unfolding update_run
update_run-EveryRun run_id f P Q st changed kept every r i =
    let (a, at_a, e) = In-update_where (λ x. x.id == run_id) f r st.runs i in
    elim (Bool-cases (a.id == run_id)) [
      | inl here ↦
          let same : r ≡ f a = ground arith in
          subst Q (sym same) (changed a at_a ((eq_iff a.id run_id).0 here) (every a at_a))
      | inr elsewhere ↦
          let same : r ≡ a = ground arith in
          subst Q (sym same) (kept a (λ h. ground (arith, eq_iff a.id run_id, h)) (every a at_a))
    ]

-- a row of another run stays as it is
pub update_run_keeps :
    (run_id : String) (f : Run → Run) (st : Store) (r : Run)
    → r.id ≢ run_id
    → In r st.runs
    → In r (update_run run_id f st).runs
unfolding update_run
update_run_keeps run_id f st r other i = elim (Bool-cases (r.id == run_id)) [
  | inl here ↦ absurd (other ((eq_iff r.id run_id).0 here))
  | inr elsewhere ↦
      let same : (if r.id == run_id then f r else r) ≡ r = ground arith in
      subst (λ x. In x (update_where (λ y. y.id == run_id) f st.runs)) same
        (update_where-In (λ x. x.id == run_id) f r st.runs i)
]

pub begin_approval_ok :
    (who : String → Result AuthError CurrentUser) (st : Store) (run_id token : String) (run : Run)
    (gate login : String)
    → begin_approval who st run_id token ≡ ok (run, gate, login)
    → In run st.runs
      × (run.id ≡ run_id)
      × (is_awaiting run.status ≡ true)
      × (login ≢ run.triggered_by)
unfolding begin_approval get_run
begin_approval_ok who st run_id token run gate login h =
    elim (Option-cases (first (λ r. r.id == run_id) st.runs)) [
      | inl missing ↦ absurd (ground arith)
      | inr (found, e) ↦ elim (Bool-cases (is_awaiting found.status)) [
        | inr busy ↦ absurd (ground arith)
        | inl waits ↦ elim (Option-cases (lookup (gate_of found.status) gate_permissions)) [
          | inl unmapped ↦ absurd (ground arith)
          | inr (permission, mapped) ↦
              elim (Result-cases (request_approval who permission found.triggered_by token)) [
                | inl (x, refused) ↦ absurd (ground arith)
                | inr (approver, passed) ↦
                    let same : found ≡ run = ground arith in
                    let (user, _, _, _, other) =
                      (request_approval_exact who permission found.triggered_by token approver).0
                        passed in
                    (
                      subst (λ r. In r st.runs) same (first-In (λ r. r.id == run_id) st.runs e),
                      ap (λ r. r.id) (sym same)
                          ∙ (eq_iff found.id run_id).0
                              (first_sound (λ r. r.id == run_id) st.runs e),
                      ground arith,
                      λ h'. other (ground arith),
                    )
              ]
        ]
      ]
    ]
