-- ===== src/Tests/Planner.antt =====
-- The theorems about src/joinlint/runtime/planner.py at one request.
use joinlint.Prelude.{
  ℕ, String, Bool, true, none, some, List, [], ◌∷◌, ◌≡◌, refl, contains, distinct_from, distinct,
  if◌then◌else◌, ◌+◌, ◌==◌, concat_map, sym, ◌∙◌, ◌≢◌, ◌↔◌, ◌≤◌, length, Memᴰ, All, arith, subst,
  inl, inr,
}
use mathlib.Core.List.Memᴰ
use joinlint.Prelude.Dict.{get, put, from_items}
use joinlint.Prelude.Sort.{sorted}
use joinlint.Prelude.Order.{text_le, text_ord, nat_ord, pair_ord}
use joinlint.Errors.{ok, err}
use joinlint.Domain.{LifecycleStatus, EntityRef, AuthorizedRelationship, ProofBody, proof, nil}
use joinlint.Domain.Text.{is_digest, is_identifier, is_bounded_text}
use joinlint.Domain.Json.{hash}
use joinlint.Domain.Ids.{plan_id_for}
use joinlint.Grain.{neighbours, is_parent, scan, search}
use joinlint.Grain.Ends.{visits}
use joinlint.Grain.Walks.{children}
use joinlint.Planner.{CandidateEdge}
use joinlint.Planner.Candidates.{
  forward_edge, reverse_edge, edges_between, invert_cardinality, candidate_edges,
}
use joinlint.Planner.Grow.{grow, include, spanning_trees}
use joinlint.Planner.Safety.{grain_compatible, tree_is_safe, safe_trees, entity_has_stable_grain}
use joinlint.Planner.Plan.{
  PlanRequest, edge_with, proof_body, predicates_of, proof_edge, collect, proof_for,
  checked_grain_ref, only_source, usable_trees, plan_join,
}
use joinlint.Planner.Candidates.Exact.{Follows, mem-candidate_edges}
use joinlint.Planner.Grow.Tree.{Attached, IsSpanningTree}
use joinlint.Planner.Grow.Spans.{spanning_trees-IsSpanningTree}
use joinlint.Planner.Grow.Fuel.{length-spanning_trees-le, spanning_trees-fuel}
use joinlint.Planner.Grow.Complete.{IsDepth, spanning_trees-complete}
use joinlint.Planner.Safety.Decides.{IsSafe, tree_is_safe-decides}
use joinlint.Planner.Lifecycle.{EvidenceAvailable, proof_lifecycle, proof_lifecycle-current}
use joinlint.Planner.Plan.Finds.{not_found, IsJoin, plan_join-finds}
use joinlint.Planner.Plan.Trees.{trees_of}
use joinlint.Planner.Plan.Sound.{IsJustified, plan_join-IsJustified}
use joinlint.Tests.{sample_hashing, orders, customers, authorized, order_ref, customer_ref, digest}

abbrev request : PlanRequest
request = record {
  entity_refs = order_ref ∷ customer_ref ∷ [];
  start_ref = "o";
  expected_grain_ref = none;
  max_depth = 2;
  include_alternatives = true;
}

abbrev tree : List CandidateEdge
tree = forward_edge authorized order_ref customer_ref ∷ []

abbrev body : ProofBody
body =
    proof_body sample_hashing "now" "shop" digest "policy" (order_ref ∷ customer_ref ∷ []) "o" "o" 2
      (edge_with (forward_edge authorized order_ref customer_ref)
          ("shop.orders.customer_id = shop.customers.id" ∷ [])
        ∷ [])

trees_found :
    spanning_trees 2 2 4 (candidate_edges request.entity_refs (authorized ∷ [])) "o" ≡ tree ∷ []
unfolding spanning_trees grow include candidate_edges edges_between concat_map sorted text_le
    contains ◌==◌ put get
trees_found = refl

planned :
    plan_join sample_hashing "now" request (authorized ∷ []) "policy" (orders ∷ customers ∷ [])
    ≡ ok (proof body nil)
unfolding visits children plan_join checked_grain_ref only_source usable_trees
    entity_has_stable_grain safe_trees tree_is_safe grain_compatible search neighbours scan
    is_parent spanning_trees grow include candidate_edges edges_between concat_map sorted text_le
    contains distinct distinct_from ◌==◌ put get from_items collect proof_for proof_edge
    predicates_of is_digest is_identifier is_bounded_text hash plan_id_for
planned = refl

plan_join-IsJustified_example : IsJustified request (authorized ∷ []) "policy" body
plan_join-IsJustified_example =
    plan_join-IsJustified sample_hashing "now" request (authorized ∷ []) "policy"
      (orders ∷ customers ∷ []) body nil planned

attached : Attached ("o" ∷ []) tree
unfolding contains ◌==◌
attached = (refl, refl, tt)

safe_now : tree_is_safe "o" tree ≡ some true
unfolding tree_is_safe grain_compatible search neighbours scan is_parent visits children ◌==◌
safe_now = refl

tree_is_safe-decides_example :
    (answer : Bool) × (tree_is_safe "o" tree ≡ some answer) × ((answer ≡ true) ↔ IsSafe "o" tree)
tree_is_safe-decides_example = tree_is_safe-decides "o" ("o" ∷ []) tree attached

tree_keeps : IsSafe "o" tree
tree_keeps =
    let (answer, e, decides) = tree_is_safe-decides_example in
    decides.0 (some-inj (sym e ∙ safe_now))
  where
    some-inj : {a b : Bool} → some a ≡ some b → a ≡ b
    some-inj q = cc

checked : checked_grain_ref request (orders ∷ customers ∷ []) ≡ ok "o"
unfolding checked_grain_ref entity_has_stable_grain contains ◌==◌ put get from_items
checked = refl

one_source : only_source (authorized ∷ []) ≡ ok "shop"
unfolding only_source contains distinct distinct_from ◌==◌
one_source = refl

few : length (trees_of request (authorized ∷ [])) ≡ 1
unfolding spanning_trees grow include candidate_edges edges_between concat_map sorted text_le
    contains ◌==◌ put get from_items
few = refl

abbrev candidates : List CandidateEdge
candidates =
    forward_edge authorized order_ref customer_ref
    ∷ reverse_edge authorized customer_ref order_ref
    ∷ []

candidates_found : candidate_edges request.entity_refs (authorized ∷ []) ≡ candidates
unfolding candidate_edges edges_between invert_cardinality concat_map sorted text_le ◌==◌
candidates_found = refl

is_candidate : All (λ e. Memᴰ e candidates) tree
is_candidate e m = Memᴰ.head (Memᴰ.eq_of_singleton m)

abbrev depth : String → ℕ
depth ref = if ref == "o" then 0 else 1

root : depth "o" ≡ 0
unfolding ◌==◌
root = refl

below_root : (depth "c" ≡ 1) × (depth "o" ≡ 0)
unfolding ◌==◌
below_root = (refl, refl)

shallow : IsDepth depth 2 tree
shallow e m =
    subst (λ (x : CandidateEdge). (depth x.to_ref ≡ depth x.from_ref + 1) × (depth x.to_ref ≤ 2))
      (sym (Memᴰ.eq_of_singleton m)) (omega (arith, below_root), omega (arith, below_root))

join : IsJoin request (authorized ∷ []) tree
unfolding from_items put ◌==◌
join = record {
  depth = depth;
  root = root;
  attached = attached;
  from_candidates = λ e m. subst (λ l. Memᴰ e l) (sym candidates_found) (is_candidate e m);
  shallow = shallow;
  joins_all = refl;
}

plan_join-finds_example :
    plan_join sample_hashing "now" request (authorized ∷ []) "policy" (orders ∷ customers ∷ [])
    ≢ err not_found
plan_join-finds_example =
    plan_join-finds sample_hashing "now" request (authorized ∷ []) "policy"
      (orders ∷ customers ∷ []) "o" "shop" tree checked one_source (omega (arith, few)) join
      tree_keeps

start_named : contains "o" ("o" ∷ "c" ∷ []) ≡ true
unfolding contains ◌==◌
start_named = refl

ends_named : (e : CandidateEdge) → Memᴰ e candidates → contains e.to_ref ("o" ∷ "c" ∷ []) ≡ true
unfolding contains ◌==◌
ends_named e m = elim (Memᴰ.cases_cons m) [
  | inl q ↦ subst (λ (x : CandidateEdge). contains x.to_ref ("o" ∷ "c" ∷ []) ≡ true) (sym q) refl
  | inr n ↦
      subst (λ (x : CandidateEdge). contains x.to_ref ("o" ∷ "c" ∷ []) ≡ true)
        (sym (Memᴰ.eq_of_singleton n)) refl
]

spanned : spanning_trees 2 2 4 candidates "o" ≡ tree ∷ []
unfolding spanning_trees grow include contains ◌==◌ put get
spanned = refl

spanning_trees-IsSpanningTree_example : IsSpanningTree ("o" ∷ "c" ∷ []) "o" 2 candidates tree
spanning_trees-IsSpanningTree_example =
    spanning_trees-IsSpanningTree ("o" ∷ "c" ∷ []) "o" 2 candidates start_named ends_named 4 tree
      (subst (λ l. Memᴰ tree l) (sym spanned) (Memᴰ.head refl))

few_spanned : length (spanning_trees 2 2 4 candidates "o") ≡ 1
unfolding spanning_trees grow include contains ◌==◌ put get
few_spanned = refl

spanning_trees-complete_example : Memᴰ tree (spanning_trees 2 2 4 candidates "o")
spanning_trees-complete_example =
    spanning_trees-complete 2 2 4 candidates "o" depth tree root attached is_candidate shallow refl
      (omega (arith, few_spanned))

length-spanning_trees-le_example : length (spanning_trees 2 2 4 candidates "o") ≤ 4
length-spanning_trees-le_example = length-spanning_trees-le 2 2 4 candidates "o"

spanning_trees-fuel_example :
    grow 2 2 4 candidates 9 ("o" ∷ []) (("o", 0) ∷ []) [] [] ≡ spanning_trees 2 2 4 candidates "o"
spanning_trees-fuel_example = spanning_trees-fuel 2 2 4 candidates "o" 9 (omega arith) (omega arith)

mem-candidate_edges_example :
    Memᴰ
      (forward_edge authorized order_ref customer_ref)
      (candidate_edges (order_ref ∷ customer_ref ∷ []) (authorized ∷ []))
    ↔ ((relationship : AuthorizedRelationship) × (left : EntityRef) × (right : EntityRef) × Memᴰ
          relationship
          (authorized ∷ [])
        × Memᴰ left (order_ref ∷ customer_ref ∷ [])
        × Memᴰ right (order_ref ∷ customer_ref ∷ [])
        × Follows relationship left right (forward_edge authorized order_ref customer_ref))
mem-candidate_edges_example =
    mem-candidate_edges (order_ref ∷ customer_ref ∷ []) (authorized ∷ [])
      (forward_edge authorized order_ref customer_ref)

abbrev status : LifecycleStatus
status = (proof_lifecycle body digest "policy" (digest ∷ []) none "now").status

proof_lifecycle-current_example :
    ((status ≡ LifecycleStatus.current) ↔ (
      (digest ≡ digest) × (body.policy_version ≡ "policy") × EvidenceAvailable body (digest ∷ [])))
    × ((status ≡ LifecycleStatus.stale) ↔ ¬ ((digest ≡ digest) × (body.policy_version ≡ "policy")))
proof_lifecycle-current_example =
    proof_lifecycle-current body digest "policy" (digest ∷ []) none "now"
