-- ===== src/Planner/Questions.antt =====
-- How many questions `ClarificationLoop.run` asks.
use url_copilot.Prelude.{
  List, Option, Option-cases, Result-cases, String, [], arith, err, inl, inr, length,
  length-take-le, map, ok, or_else, refl, take, ◌∷◌, ◌≡◌, ◌≤◌,
}
use url_copilot.Gateway.Models.{Request}
use url_copilot.Planner.{
  Reading, array_at, clarify, collect_answers, content_or_empty, generate_questions, max_questions,
  parse_questions, questions_system, request_of, resolve_requirement,
}

length-map : {A B : Type 0} (f : A → B) (xs : List A) → length (map f xs) ≡ length xs
length-map f [] = refl
length-map f (x ∷ xs) = omega (arith, length-map f xs)

parse_questions-few :
    (r : Reading) (raw : String) (questions : List String)
    → parse_questions r raw ≡ ok questions
    → length questions ≤ max_questions
unfolding parse_questions
parse_questions-few r raw questions h = elim (Option-cases (r.load_object raw)) [
  | inl malformed ↦ absurd (ground arith)
  | inr (fields, loaded) ↦ elim (Result-cases (array_at r "questions" fields)) [
    | inl (x, bad) ↦ absurd (ground arith)
    | inr (values, good) ↦
        let same : questions ≡ map r.str (take max_questions values) = ground arith in
        rw (same, length-map r.str (take max_questions values))
          (length-take-le max_questions values)
  ]
]

-- every question has its answer, in order, and no line is read that is not needed
abbrev pub answered : (String → String) → List String → List String → List (String × String)
answered strip [] lines = []
answered strip (q ∷ qs) [] = []
answered strip (q ∷ qs) (line ∷ lines) = (q, strip line) ∷ answered strip qs lines

collect_answers_enough :
    (strip : String → String) (questions lines : List String)
    → length questions ≤ length lines
    → collect_answers strip questions lines ≡ ok (answered strip questions lines)
unfolding collect_answers
collect_answers_enough strip [] lines h = refl
collect_answers_enough strip (q ∷ qs) [] h = absurd (omega arith)
collect_answers_enough strip (q ∷ qs) (line ∷ lines) h =
    rw (collect_answers_enough strip qs lines (omega arith)) refl

module _ {W : Type 0} (r : Reading) (call : Request → W → Option (Option String) × W)
    (prompt : Option (String × String)) where
  generate_questions-few :
      (requirement token run_id : String) (w : W) (questions : List String)
      → (generate_questions r call prompt requirement token run_id w).0 ≡ ok questions
      → length questions ≤ max_questions
  unfolding generate_questions
  generate_questions-few requirement token run_id w questions h =
      let request =
        request_of token (or_else run_id "clarify-questions") "clarification_questions"
          "questions_v1" questions_system requirement in
      elim (Option-cases (call request w).0) [
        | inl refused ↦ absurd (ground arith)
        | inr (content, replied) ↦
            parse_questions-few r (content_or_empty content) questions (ground arith)
      ]

  -- Four lines suffice: whatever questions the model asks, with four lines typed the clarification does
  -- not run out of input, and its outcome is that of the second call of the model on the first four
  -- questions at most with their lines, or the error of the first.
  pub clarify_asks_four :
      (lines : List String) (requirement token run_id : String) (w : W)
      → 4 ≤ length lines
      → let (generated, w1) = generate_questions r call prompt requirement token run_id w in
        clarify r call prompt lines requirement token run_id w ≡ (elim generated [
          | err x ↦ (err x, w1)
          | ok questions ↦
              resolve_requirement r call prompt requirement
                (answered r.strip questions lines)
                token
                run_id
                w1
        ])
  unfolding clarify
  clarify_asks_four lines requirement token run_id w enough =
      let (generated, w1) = generate_questions r call prompt requirement token run_id w in
      elim (Result-cases generated) [
        | inl (x, bad) ↦ ground arith
        | inr (questions, good) ↦
            let few = generate_questions-few requirement token run_id w questions good in
            let enough_lines = collect_answers_enough r.strip questions lines (omega arith) in
            ground arith
      ]
