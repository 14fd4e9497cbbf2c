-- ===== src/Gateway/Call/Attempts.antt =====
-- The retry loop of step 8.
use url_copilot.Prelude.{
  ap, arith, inl, inr, ok, refl, suc, sym, zero, ℕ, ◌*◌, ◌+◌, ◌<◌, ◌^◌, ◌↔◌, ◌∙◌, ◌∷◌, ◌≡◌, ◌≤◌,
  ◌⊎◌,
}
use url_copilot.Gateway.Call.{
  Completion, Reply, World, backoff, broken, complete, completed, max_retries, rate_limited,
}

pub Reply-cases :
    (r : Reply) → ((c : Completion) × (r ≡ completed c)) ⊎ ((r ≡ rate_limited) ⊎ (r ≡ broken))
Reply-cases (completed c) = inl (c, refl)
Reply-cases rate_limited = inr (inl refl)
Reply-cases broken = inr (inr refl)

-- The loop changes none of the books that the other steps keep.
abbrev pub SameBooks : World → World → Type 0
SameBooks w w' =
    (w'.windows ≡ w.windows)
    × (w'.spans ≡ w.spans)
    × (w'.metrics ≡ w.metrics)
    × (w'.open_sessions ≡ w.open_sessions)

pub complete-SameBooks :
    (llm : ℕ → Reply) (attempt left : ℕ) (w : World) → SameBooks w (complete llm attempt left w).1
unfolding complete
complete-SameBooks llm attempt zero w = elim (Reply-cases (llm attempt)) [
  | inl (c, e) ↦ ground arith
  | inr other ↦ ground arith
]
complete-SameBooks llm attempt (suc left) w = elim (Reply-cases (llm attempt)) [
  | inl (c, e) ↦ ground arith
  | inr (inl e) ↦
      let slept = record w {
        llm_calls = w.llm_calls + 1;
        waits = backoff * 2 ^ attempt ∷ w.waits;
      } in
      ground (arith, complete-SameBooks llm (attempt + 1) left slept)
  | inr (inr e) ↦ ground arith
]

-- The answer of the first attempt that is not refused for its rate, within so many retries.
abbrev pub SucceedsWithin : (ℕ → Reply) → ℕ → ℕ → Completion → Type 0
SucceedsWithin llm attempt left c =
    (k : ℕ) × (k ≤ left)
    × ((j : ℕ) → j < k → llm (attempt + j) ≡ rate_limited)
    × (llm (attempt + k) ≡ completed c)

next_attempt : (llm : ℕ → Reply) (attempt j : ℕ) → llm (attempt + suc j) ≡ llm (attempt + 1 + j)
next_attempt llm attempt j = ap llm (omega arith)

this_attempt : (llm : ℕ → Reply) (attempt : ℕ) → llm attempt ≡ llm (attempt + 0)
this_attempt llm attempt = ap llm (omega arith)

refused_before :
    (llm : ℕ → Reply) (attempt k : ℕ)
    → llm attempt ≡ rate_limited
    → ((j : ℕ) → j < k → llm (attempt + 1 + j) ≡ rate_limited)
    → (j : ℕ) → j < suc k
    → llm (attempt + j) ≡ rate_limited
refused_before llm attempt k now later zero lt = ap llm (omega arith) ∙ now
refused_before llm attempt k now later (suc j) lt =
    next_attempt llm attempt j ∙ later j (omega arith)

complete_sound :
    (llm : ℕ → Reply) (attempt left : ℕ) (w : World) (c : Completion)
    → (complete llm attempt left w).0 ≡ ok c
    → SucceedsWithin llm attempt left c
unfolding complete
complete_sound llm attempt zero w c h = elim (Reply-cases (llm attempt)) [
  | inl (d, e) ↦
      (0, ground arith, λ j lt. absurd (omega arith), sym (this_attempt llm attempt) ∙ ground arith)
  | inr (inl e) ↦ absurd (ground arith)
  | inr (inr e) ↦ absurd (ground arith)
]
complete_sound llm attempt (suc left) w c h = elim (Reply-cases (llm attempt)) [
  | inl (d, e) ↦
      (0, ground arith, λ j lt. absurd (omega arith), sym (this_attempt llm attempt) ∙ ground arith)
  | inr (inl e) ↦
      let slept = record w {
        llm_calls = w.llm_calls + 1;
        waits = backoff * 2 ^ attempt ∷ w.waits;
      } in
      let (k, le, refused, answered) =
        complete_sound llm (attempt + 1) left slept c (ground arith) in
      (
        suc k,
        omega arith,
        refused_before llm attempt k e refused,
        next_attempt llm attempt k ∙ answered,
      )
  | inr (inr e) ↦ absurd (ground arith)
]

complete-complete :
    (llm : ℕ → Reply) (attempt left : ℕ) (w : World) (c : Completion)
    → SucceedsWithin llm attempt left c
    → (complete llm attempt left w).0 ≡ ok c
unfolding complete
complete-complete llm attempt zero w c (zero, le, refused, answered) =
    let e = this_attempt llm attempt ∙ answered in ground arith
complete-complete llm attempt zero w c (suc k, le, refused, answered) = absurd (omega arith)
complete-complete llm attempt (suc left) w c (zero, le, refused, answered) =
    let e = this_attempt llm attempt ∙ answered in ground arith
complete-complete llm attempt (suc left) w c (suc k, le, refused, answered) =
    let e = this_attempt llm attempt ∙ refused 0 (omega arith) in
    let slept = record w { llm_calls = w.llm_calls + 1; waits = backoff * 2 ^ attempt ∷ w.waits } in
    ground (
      arith,
      complete-complete llm (attempt + 1) left slept c (
        k,
        omega arith,
        λ j lt. sym (next_attempt llm attempt j) ∙ refused (suc j) (omega arith),
        sym (next_attempt llm attempt k) ∙ answered,
      ),
    )

complete_counts :
    (llm : ℕ → Reply) (attempt left : ℕ) (w : World)
    → (w.llm_calls + 1 ≤ (complete llm attempt left w).1.llm_calls)
      × ((complete llm attempt left w).1.llm_calls ≤ w.llm_calls + (left + 1))
unfolding complete
complete_counts llm attempt zero w = elim (Reply-cases (llm attempt)) [
  | inl (c, e) ↦ ground arith
  | inr other ↦ ground arith
]
complete_counts llm attempt (suc left) w = elim (Reply-cases (llm attempt)) [
  | inl (c, e) ↦ ground arith
  | inr (inl e) ↦
      let slept = record w {
        llm_calls = w.llm_calls + 1;
        waits = backoff * 2 ^ attempt ∷ w.waits;
      } in
      ground (arith, complete_counts llm (attempt + 1) left slept)
  | inr (inr e) ↦ ground arith
]

-- The loop, begun at attempt 0 with 3 retries left, makes between one and four calls of the API, and
-- gives an answer exactly if some attempt is answered with it and all before it are refused for
-- their rate.
pub complete_exact :
    (llm : ℕ → Reply) (w : World)
    → ((c : Completion)
        → ((complete llm 0 max_retries w).0 ≡ ok c) ↔ SucceedsWithin llm 0 max_retries c)
      × (w.llm_calls + 1 ≤ (complete llm 0 max_retries w).1.llm_calls)
      × ((complete llm 0 max_retries w).1.llm_calls ≤ w.llm_calls + 4)
complete_exact llm w =
    let (least, most) = complete_counts llm 0 max_retries w in
    (
      λ c. (complete_sound llm 0 max_retries w c, complete-complete llm 0 max_retries w c),
      least,
      most,
    )
