-- ===== src/Scenarios/Graph/Progress.antt =====
-- An execution of the graph that has not ended can go on, and to its end.
use mathlib.Core.List.{append_assoc}
use mathlib.Core.Path.{subst}
use url_copilot.Prelude.{
  ==_refl, All, Bool, Bool-cases, In, In→contains, List, String, [], ap, arith, contains,
  contains→In, false, if◌then◌else◌, inl, inr, length, length-append, nat_eq, not, refl, string_eq,
  suc, sym, true, zero, ℕ, ◌&&◌, ◌++◌, ◌+◌, ◌<◌, ◌||◌, ◌∙◌, ◌∷◌, ◌≡◌, ◌≤◌,
}
use url_copilot.Scenarios.Graph.{Edge, Execution, edges, graph_end, graph_start}
use url_copilot.Scenarios.Graph.Gates.{all_in}

-- an edge whose target is done if its sources are
abbrev is_followed : List String → Edge → Bool
is_followed done e = not (all_in e.sources done) || contains e.target done

abbrev all_followed : List String → List Edge → Bool
all_followed done [] = true
all_followed done (e ∷ es) = is_followed done e && all_followed done es

-- where every edge is followed from the start, the end is done
followed_to_the_end :
    (c : Bool) (done : List String)
    → contains graph_start done ≡ true
    → all_followed done (edges c) ≡ true
    → contains graph_end done ≡ true
followed_to_the_end true done started followed = ground arith
followed_to_the_end false done started followed = ground arith

open_edge :
    (done : List String) (es : List Edge)
    → all_followed done es ≡ false
    → (e : Edge) × In e es × (all_in e.sources done ≡ true) × (contains e.target done ≡ false)
open_edge done [] h = cc
open_edge done (e ∷ es) h = elim (Bool-cases (is_followed done e)) [
  | inl followed ↦
      let (f, i, ready, absent) = open_edge done es (ground arith) in (f, inr i, ready, absent)
  | inr skipped ↦ (e, inl refl, ground arith, ground arith)
]

all_in-All : (xs ys : List String) → all_in xs ys ≡ true → All (λ x. In x ys) xs
all_in-All [] ys h = tt
all_in-All (x ∷ xs) ys h = (contains→In x ys (ground arith), all_in-All xs ys (ground arith))

-- the targets that are not done
abbrev missing : List String → List Edge → ℕ
missing done [] = 0
missing done (e ∷ es) = (if contains e.target done then 0 else 1) + missing done es

missing-cons-le :
    (node : String) (done : List String) (es : List Edge)
    → missing (node ∷ done) es ≤ missing done es
missing-cons-le node done [] = omega arith
missing-cons-le node done (e ∷ es) = ground (arith, missing-cons-le node done es)

missing-cons-lt :
    (node : String) (done : List String) (es : List Edge) (e : Edge)
    → In e es
    → e.target ≡ node
    → contains node done ≡ false
    → missing (node ∷ done) es < missing done es
missing-cons-lt node done [] e i same absent = absurd i
missing-cons-lt node done (f ∷ es) e (inl p) same absent =
    let here : f.target ≡ node = sym (ap (λ (x : Edge). x.target) p) ∙ same in
    rw here (ground (arith, missing-cons-le node done es, ==_refl node))
missing-cons-lt node done (f ∷ es) e (inr i) same absent =
    ground (arith, missing-cons-lt node done es e i same absent)

Execution-started : (c : Bool) (done : List String) → Execution c done → In graph_start done
Execution-started c _ Execution.begun = inl refl
Execution-started c _ (Execution.next {done} {node} run ready) = inr (Execution-started c done run)

-- an execution that has not ended has a node to go on with, which is not done
next_node :
    (c : Bool) (done : List String)
    → Execution c done
    → contains graph_end done ≡ false
    → (e : Edge) × In e (edges c)
      × All (λ s. In s done) e.sources
      × (contains e.target done ≡ false)
next_node c done run unfinished = elim (Bool-cases (all_followed done (edges c))) [
  | inl followed ↦
      let started = In→contains graph_start done (Execution-started c done run) in
      absurd (ground (arith, followed_to_the_end c done started followed))
  | inr skipped ↦
      let (e, i, ready, absent) = open_edge done (edges c) skipped in
      (e, i, all_in-All e.sources done ready, absent)
]

finish_within :
    (c : Bool) (n : ℕ) (done : List String)
    → missing done (edges c) ≤ n
    → Execution c done
    → (later : List String) × Execution c (later ++ done)
      × In graph_end (later ++ done)
      × (length later ≤ n)
finish_within c zero done few run = elim (Bool-cases (contains graph_end done)) [
  | inl finished ↦ ([], run, contains→In graph_end done finished, omega arith)
  | inr unfinished ↦
      let (e, i, ready, absent) = next_node c done run unfinished in
      absurd (omega (arith, missing-cons-lt e.target done (edges c) e i refl absent))
]
finish_within c (suc n) done few run = elim (Bool-cases (contains graph_end done)) [
  | inl finished ↦ ([], run, contains→In graph_end done finished, omega arith)
  | inr unfinished ↦
      let (e, i, ready, absent) = next_node c done run unfinished in
      let fewer = missing-cons-lt e.target done (edges c) e i refl absent in
      let (later, rest, ended, short) =
        finish_within c n (e.target ∷ done) (omega arith)
          (Execution.next run (e, i, refl, ready)) in
      let regroup = sym (append_assoc later (e.target ∷ []) done) in
      (
        later ++ e.target ∷ [],
        subst (Execution c) regroup rest,
        subst (In graph_end) regroup ended,
        omega (arith, length-append later (e.target ∷ [])),
      )
]

-- the edges, each with a target
missing-le : (done : List String) (es : List Edge) → missing done es ≤ length es
missing-le done [] = omega arith
missing-le done (e ∷ es) = ground (arith, missing-le done es)

-- No execution of the graph is stuck: however it has begun, with or without a schema change, it can go
-- on through at most sixteen nodes to the end of the graph.
pub never_stuck :
    (schema_change : Bool) (done : List String)
    → Execution schema_change done
    → (later : List String) × Execution schema_change (later ++ done)
      × In graph_end (later ++ done)
      × (length later ≤ 16)
never_stuck true done run =
    finish_within true 16 done (omega (arith, missing-le done (edges true))) run
never_stuck false done run =
    finish_within false 16 done (omega (arith, missing-le done (edges false))) run
