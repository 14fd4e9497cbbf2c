-- ===== src/Scenarios/Graph/Gates.antt =====
-- Which gates stand before a node.
use mathlib.Core.Path.{subst}
use url_copilot.Prelude.{
  All, Bool, Dict, In, In-append, List, String, [], arith, contains, contains→In, false,
  if◌then◌else◌, inl, inr, lookup, nat_eq, none, refl, some, string_eq, sym, true, ◌&&◌, ◌++◌, ◌∷◌,
  ◌≡◌,
}
use url_copilot.Scenarios.Graph.{Edge, Execution, Ready, begun, edges, graph_end, next}

-- the nodes of the graph that come before each node
abbrev pub needs : Bool → Dict String (List String)
needs schema_change =
    let planned = "architecture_gate" ∷ "architecture_design" ∷ "requirements_analysis" ∷ [] in
    let built = "implementation" ∷ "implementation_plan" ∷ "test_plan" ∷ planned in
    let cleared = if schema_change then "schema_gate" ∷ built else built in
    let tested = "unit_tests" ∷ "integration_tests" ∷ cleared in
    let released = "documentation" ∷ "tests_gate" ∷ tested in
    ("architecture_design", "requirements_analysis" ∷ [])
    ∷ ("architecture_gate", "architecture_design" ∷ "requirements_analysis" ∷ [])
    ∷ ("implementation_plan", planned)
    ∷ ("test_plan", planned)
    ∷ ("implementation", "implementation_plan" ∷ "test_plan" ∷ planned)
    ∷ ("schema_gate", built)
    ∷ ("unit_tests", cleared)
    ∷ ("integration_tests", cleared)
    ∷ ("tests_gate", tested)
    ∷ ("documentation", "tests_gate" ∷ tested)
    ∷ ("pr_gate", released)
    ∷ ("release_readiness", "pr_gate" ∷ released)
    ∷ ("release_gate", "release_readiness" ∷ "pr_gate" ∷ released)
    ∷ (graph_end, "release_gate" ∷ "release_readiness" ∷ "pr_gate" ∷ released)
    ∷ []

abbrev pub needed_by : Bool → String → List String
needed_by c node = elim (lookup node (needs c)) [ none ↦ [] | some ns ↦ ns ]

-- what is done when these nodes and all that they need are
abbrev with_needs : Bool → List String → List String
with_needs c [] = []
with_needs c (s ∷ ss) = s ∷ (needed_by c s ++ with_needs c ss)

abbrev pub all_in : List String → List String → Bool
all_in [] ys = true
all_in (x ∷ xs) ys = contains x ys && all_in xs ys

abbrev edge_covers : Bool → Edge → Bool
edge_covers c e = all_in (needed_by c e.target) (with_needs c e.sources)

abbrev all_cover : Bool → List Edge → Bool
all_cover c [] = true
all_cover c (e ∷ es) = edge_covers c e && all_cover c es

-- each edge: what its target needs is among its sources and what they need
edges_cover : (c : Bool) → all_cover c (edges c) ≡ true
edges_cover true = refl
edges_cover false = refl

all_cover-In :
    (c : Bool) (es : List Edge) (e : Edge)
    → all_cover c es ≡ true
    → In e es
    → edge_covers c e ≡ true
all_cover-In c [] e h i = absurd i
all_cover-In c (x ∷ xs) e h (inl p) = subst (λ y. edge_covers c y ≡ true) (sym p) (ground arith)
all_cover-In c (x ∷ xs) e h (inr i) = all_cover-In c xs e (ground arith) i

pub all_in-In : (xs ys : List String) (x : String) → all_in xs ys ≡ true → In x xs → In x ys
all_in-In [] ys x h i = absurd i
all_in-In (z ∷ zs) ys x h (inl p) = subst (λ y. In y ys) (sym p) (contains→In z ys (ground arith))
all_in-In (z ∷ zs) ys x h (inr i) = all_in-In zs ys x (ground arith) i

-- In an execution, a node is done only after everything that it needs.
abbrev pub IsComplete : Bool → List String → Type 0
IsComplete c done =
    (node : String) → In node done → (x : String) → In x (needed_by c node) → In x done

with_needs_done :
    (c : Bool) (done ss : List String) (x : String)
    → IsComplete c done
    → All (λ s. In s done) ss
    → In x (with_needs c ss)
    → In x done
with_needs_done c done [] x complete h i = absurd i
with_needs_done c done (s ∷ ss) x complete h (inl p) = subst (λ y. In y done) (sym p) h.0
with_needs_done c done (s ∷ ss) x complete h (inr i) =
    elim (In-append x (needed_by c s) (with_needs c ss) i) [
      | inl j ↦ complete s h.0 x j
      | inr j ↦ with_needs_done c done ss x complete h.1 j
    ]

-- what a ready node needs is done
needs_done :
    (c : Bool) (done : List String) (node x : String)
    → IsComplete c done
    → Ready c done node
    → In x (needed_by c node)
    → In x done
needs_done c done node x before (e, here, target, ready) i =
    let covers = all_cover-In c (edges c) e (edges_cover c) here in
    let needed = subst (λ n. In x (needed_by c n)) (sym target) i in
    with_needs_done c done e.sources x before ready
      (all_in-In (needed_by c e.target) (with_needs c e.sources) x covers needed)

Execution-IsComplete : (c : Bool) (done : List String) → Execution c done → IsComplete c done
Execution-IsComplete c _ begun node (inl p) x i = absurd (subst (λ n. In x (needed_by c n)) p i)
Execution-IsComplete c _ begun node (inr j) x i = absurd j
Execution-IsComplete c _ (next {done} {node} run r) m (inl p) x i = inr (
    needs_done c done node x (Execution-IsComplete c done run) r
      (subst (λ n. In x (needed_by c n)) p i))
Execution-IsComplete c _ (next {done} {node} run r) m (inr j) x i =
    inr (Execution-IsComplete c done run m j x i)

-- what stands before a node that can be executed now is done
pub needs_before :
    (c : Bool) (done : List String) (node x : String)
    → Execution c done
    → Ready c done node
    → In x (needed_by c node)
    → In x done
needs_before c done node x run ready i =
    needs_done c done node x (Execution-IsComplete c done run) ready i

-- In every execution of the graph, with or without a schema change, a node is done only after all
-- nodes that it needs: both plans before the implementation, the architecture gate before them, the
-- schema gate before the tests if the schema changes, both kinds of tests before their gate, and all
-- gates before the end.
pub nothing_before_its_needs :
    (schema_change : Bool) (done : List String)
    → Execution schema_change done
    → (node needed : String) → In node done
    → In needed (needed_by schema_change node)
    → In needed done
nothing_before_its_needs schema_change done run node needed i j =
    Execution-IsComplete schema_change done run node i needed j
