-- ===== src/Scenarios/Pipeline/Artifacts.antt =====
-- What the prompts find of the earlier stages.
use mathlib.Core.Path.{subst}
use url_copilot.Prelude.{
  All, Bool, Bool-cases, Dict, In, In→contains, List, String, [], arith, contains, false, inl, inr,
  map, nat_eq, not, refl, string_eq, sym, true, ◌&&◌, ◌==◌, ◌∷◌, ◌≡◌, ◌≢◌,
}
use url_copilot.Prelude.Json.{Fields}
use url_copilot.Scenarios.Pipeline.Updates.{Has, Has-merge_left, Has-merge_right, Returns-Has}
use url_copilot.Scenarios.Pipeline.{Pipeline, merge, node_done, planned, superstep}
use url_copilot.Scenarios.Graph.{Execution, Ready, begun, graph_start, next}
use url_copilot.Scenarios.Graph.Gates.{all_in, all_in-In, needed_by, needs_before}
use url_copilot.Prompts.Builder.{listed, prior_stages, relevant}

-- what the prompts' table lists stands before the stage in the graph
abbrev lists_earlier : Bool → Dict String (List String) → Bool
lists_earlier c [] = true
lists_earlier c ((name, names) ∷ table) =
    all_in names (needed_by c name) && (not (contains graph_start names) && lists_earlier c table)

prior_stages-earlier : (c : Bool) → lists_earlier c prior_stages ≡ true
prior_stages-earlier true = refl
prior_stages-earlier false = refl

lists_earlier-In :
    (c : Bool) (table : Dict String (List String)) (name x : String)
    → lists_earlier c table ≡ true
    → In x (listed table name)
    → In x (needed_by c name) × (x ≢ graph_start)
lists_earlier-In c [] name x h i = absurd i
lists_earlier-In c ((key, names) ∷ table) name x h i = elim (Bool-cases (name == key)) [
  | inl same ↦
      let here : In x names = subst (In x) (ground (arith, same)) i in
      let equal = (string_eq.beq_iff name key).0 same in
      (
        subst (λ k. In x (needed_by c k)) (sym equal)
            (all_in-In names (needed_by c key) x (ground arith) here),
        λ e.
            let found = In→contains graph_start names (subst (λ k. In k names) e here) in
            absurd (ground arith),
      )
  | inr different ↦
      lists_earlier-In c table name x (ground arith) (subst (In x) (ground (arith, different)) i)
]

abbrev AllHave : List String → Dict String Fields → Type 0
AllHave names artifacts = (x : String) → In x names → x ≢ graph_start → Has x artifacts

-- the nodes done have run as the graph says, and their artifacts are there
abbrev IsSound : Bool → List String → List String → Dict String Fields → Dict String Fields → Type 0
IsSound c before done seen artifacts =
    Execution c before
    × Execution c done
    × ((x : String) → In x before → In x done)
    × AllHave before seen
    × AllHave done artifacts

All-map :
    (P Q : String → Type 0) (xs : List String) → ((x : String) → P x → Q x) → All P xs → All Q xs
All-map P Q [] f h = tt
All-map P Q (x ∷ xs) f h = (f x h.0, All-map P Q xs f h.1)

Pipeline-IsSound :
    (c : Bool) (before done : List String) (seen artifacts : Dict String Fields)
    → Pipeline c before done seen artifacts
    → IsSound c before done seen artifacts
Pipeline-IsSound c _ _ _ _ planned = (
  begun,
  begun,
  (λ x i. i),
  (λ x i other_than. elim i [ inl e ↦ absurd (other_than e) | inr j ↦ absurd j ]),
  λ x i other_than. elim i [ inl e ↦ absurd (other_than e) | inr j ↦ absurd j ],
)
Pipeline-IsSound c _ _ _ _ (superstep {before} {done} {seen} {artifacts} run) =
    let (_, later, _, _, have) = Pipeline-IsSound c before done seen artifacts run in
    (later, later, (λ x i. i), have, have)
Pipeline-IsSound c _ _ _ _
      (node_done {before} {done} {seen} {artifacts} {update} {node} run named
        (e, here, target, ready)
        returns) =
    let (first_run, later, within, had, have) = Pipeline-IsSound c before done seen artifacts run in
    let (own, kept) = Returns-Has node seen update returns in
    let still = All-map (λ s. In s before) (λ s. In s done) e.sources within ready in
    (
      first_run,
      next later (e, here, target, still),
      (λ x i. inr (within x i)),
      had,
      λ x i other_than. elim i [
        | inl same ↦
            subst (λ k. Has k (merge artifacts update)) (sym same)
              (Has-merge_right node artifacts update own)
        | inr j ↦ Has-merge_left x artifacts update (have x j other_than)
      ],
    )

relevant-whole :
    (names : List String) (artifacts : Dict String Fields)
    → ((x : String) → In x names → Has x artifacts)
    → map (λ a. a.0) (relevant names artifacts) ≡ names
unfolding relevant
relevant-whole [] artifacts have = refl
relevant-whole (name ∷ names) artifacts have =
    let (fields, here) = have name (inl refl) in
    let rest = relevant-whole names artifacts (λ x i. have x (inr i)) in ground (arith, here, rest)

-- In every run of the pipeline, with or without a schema change, whatever the nodes produce and in
-- whatever order those of one superstep finish, the state that a node reads when the graph runs it has
-- the artifacts of all stages that the node's prompt takes: the prompt leaves none of them out.
pub prompts_see_prior :
    (schema_change : Bool) (before done : List String) (seen artifacts : Dict String Fields)
    → Pipeline schema_change before done seen artifacts
    → (node : String) → Ready schema_change before node
    → map (λ a. a.0) (relevant (listed prior_stages node) seen) ≡ listed prior_stages node
prompts_see_prior c before done seen artifacts run node ready =
    let (first_run, _, _, had, _) = Pipeline-IsSound c before done seen artifacts run in
    relevant-whole (listed prior_stages node) seen (λ x i.
      let (needed, other_than) =
        lists_earlier-In c prior_stages node x (prior_stages-earlier c) i in
      had x (needs_before c before node x first_run ready needed) other_than)
