-- ===== src/Planner/Plan.antt =====
-- `plan_join`, `_proof` and `_proof_edge` of src/joinlint/runtime/planner.py. The clock is the
-- argument `now`, and hashing the argument `h`.
pub mod Trees
pub mod Sound
pub mod Returns
pub mod Finds
use Prim.Native.String.{◌++◌ as text_append}
use joinlint.Prelude.{
  ℕ, String, Bool, not, ◌&&◌, ◌||◌, Option, none, some, List, [], ◌∷◌, map, nat_eq, if◌then◌else◌,
  ◌==◌, length, take, is_empty, contains, distinct,
}
use joinlint.Prelude.Order.{text_ord}
use joinlint.Prelude.Sort.{sorted}
use joinlint.Prelude.Dict.{Dict, get, keys, from_items}
use joinlint.Errors.{Failure, value_error, diverges, Result, ok, err, ◌>>=◌, ◌>>◌, require, failure}
use joinlint.Domain.{
  AuthorizedRelationship, EntityDefinition, EntityRef, JoinProof, proof, Alternatives, nil, cons,
  ProofBody, ProofEdge,
}
use joinlint.Domain.Text.{between}
use joinlint.Domain.Valid.{valid_proof, valid_proof_edge}
use joinlint.Domain.Json.{Hashing}
use joinlint.Domain.Ids.{plan_id_for, entity_ref_key}
use joinlint.Planner.{CandidateEdge}
use joinlint.Planner.Candidates.{candidate_edges}
use joinlint.Planner.Grow.{spanning_trees}
use joinlint.Planner.Safety.{safe_trees, entity_has_stable_grain}

infixr 65 ◌⧺◌
abbrev ◌⧺◌ : String → String → String
◌⧺◌ = text_append

-- `tuple(... for child, parent in zip(child.columns, parent.columns, strict=True))`
unfoldable pub predicates_of : String → String → List String → List String → Result (List String)
predicates_of child_entity parent_entity [] [] = ok []
predicates_of child_entity parent_entity (c ∷ cs) (p ∷ ps) = do
  rest ← predicates_of child_entity parent_entity cs ps
  ok ((child_entity ⧺ "." ⧺ c ⧺ " = " ⧺ parent_entity ⧺ "." ⧺ p) ∷ rest)
predicates_of child_entity parent_entity _ _ = err value_error

abbrev pub edge_with : CandidateEdge → List String → ProofEdge
edge_with edge predicates = record {
  from_ref = edge.from_ref;
  to_ref = edge.to_ref;
  relationship_id = edge.relationship.definition.relationship_id;
  evidence_id = edge.relationship.evidence.evidence_id;
  child = edge.relationship.definition.child;
  parent = edge.relationship.definition.parent;
  traversal = edge.traversal;
  cardinality = edge.cardinality;
  provenance = edge.relationship.evidence.provenance;
  predicates = predicates;
}

unfoldable pub proof_edge : CandidateEdge → Result ProofEdge
proof_edge edge = do
  predicates ←
      predicates_of edge.relationship.definition.child.entity_id
        edge.relationship.definition.parent.entity_id edge.relationship.definition.child.columns
        edge.relationship.definition.parent.columns
  require (valid_proof_edge (edge_with edge predicates)) value_error
  ok (edge_with edge predicates)

-- `tuple(f(x) for x in xs)`, where `f` may raise.
unfoldable pub collect {ℓ κ} : {A : Type ℓ} {B : Type κ} → (A → Result B) → List A → Result (List B)
collect f [] = ok []
collect f (x ∷ xs) = do y ← f x; ys ← collect f xs; ok (y ∷ ys)

module _ (h : Hashing) (now source_id snapshot_id policy_version : String)
    (entity_refs : List EntityRef) (start_ref expected_grain_ref : String) (max_depth : ℕ) where
  abbrev pub proof_body : List ProofEdge → ProofBody
  proof_body edges = record {
    plan_id =
        plan_id_for h source_id snapshot_id policy_version entity_refs start_ref expected_grain_ref
          max_depth edges;
    source_id = source_id;
    snapshot_id = snapshot_id;
    policy_version = policy_version;
    entity_refs = sorted entity_ref_key entity_refs;
    start_ref = start_ref;
    expected_grain_ref = expected_grain_ref;
    max_depth = max_depth;
    edges = edges;
    verified_at = now;
    freshness_checked_at = now;
  }

  -- `_proof`, whose result has no alternatives.
  unfoldable pub proof_for : List CandidateEdge → Result ProofBody
  proof_for tree = do
    edges ← collect proof_edge tree
    require (valid_proof (proof_body edges)) value_error
    ok (proof_body edges)

abbrev pub as_alternatives : List ProofBody → Alternatives
as_alternatives [] = nil
as_alternatives (b ∷ bs) = cons (proof b nil) (as_alternatives bs)

abbrev pub ref_name : EntityRef → String
ref_name r = r.ref

-- `{item.ref: item for item in entity_refs}`
abbrev pub refs_of : List EntityRef → Dict EntityRef
refs_of = from_items ref_name (λ r. r) []

-- `expected_grain_ref or start_ref`
abbrev pub or_start : Option String → String → String
or_start none start_ref = start_ref
or_start (some expected) start_ref = if expected == "" then start_ref else expected

abbrev pub no_path : String → Failure
no_path message = failure "NO_VERIFIED_PATH" message 3

abbrev pub invalid : String → Failure
invalid message = failure "INVALID_ARGUMENT" message 2

-- `refs[expected].entity`, behind the test that the reference is there.
abbrev entity_of : Option EntityRef → String
entity_of none = ""
entity_of (some r) = r.entity

-- The first element of a set of one.
abbrev pub only : List String → String
only [] = ""
only (x ∷ xs) = x

abbrev pub first_tree : List (List CandidateEdge) → List CandidateEdge
first_tree [] = []
first_tree (t ∷ ts) = t

abbrev pub snapshot_ids_of : List CandidateEdge → List String
snapshot_ids_of tree =
    distinct (map (λ (e : CandidateEdge). e.relationship.evidence.snapshot_id) tree)

abbrev pub source_ids_of : List AuthorizedRelationship → List String
source_ids_of graph = distinct (map (λ (r : AuthorizedRelationship). r.definition.source_id) graph)

abbrev pub or_diverges {ℓ} : {A : Type ℓ} → Option A → Result A
or_diverges none = err diverges
or_diverges (some a) = ok a

-- `primary.model_copy(update={"alternatives": alternatives})`
abbrev pub with_alternatives : Bool → List ProofBody → Result JoinProof
with_alternatives include [] = err value_error
with_alternatives include (primary ∷ others) =
    ok (proof primary (if include then as_alternatives (take 3 others) else nil))

pub record PlanRequest : Type 0 where
  pub entity_refs : List EntityRef
  pub start_ref : String
  pub expected_grain_ref : Option String
  pub max_depth : ℕ
  pub include_alternatives : Bool

abbrev pub expected_of : PlanRequest → String
expected_of request = or_start request.expected_grain_ref request.start_ref

-- The four tests of the arguments, in the order of the code.
abbrev pub refs_are_unique : PlanRequest → Bool
refs_are_unique request =
    between 2 8 (length (refs_of request.entity_refs))
    && nat_eq (length (refs_of request.entity_refs)) (length request.entity_refs)

abbrev pub start_is_valid : PlanRequest → Bool
start_is_valid request =
    between 1 4 request.max_depth && contains request.start_ref (keys (refs_of request.entity_refs))

abbrev pub grain_is_present : PlanRequest → Bool
grain_is_present request = contains (expected_of request) (keys (refs_of request.entity_refs))

abbrev pub grain_is_stable : PlanRequest → List EntityDefinition → Bool
grain_is_stable request definitions =
    is_empty definitions
    || entity_has_stable_grain (entity_of (get (expected_of request) (refs_of request.entity_refs)))
        definitions

-- The result is the reference of the expected grain.
unfoldable pub checked_grain_ref : PlanRequest → List EntityDefinition → Result String
checked_grain_ref request definitions = do
  require (refs_are_unique request) (invalid "entity_refs must contain 2 to 8 unique refs")
  require (start_is_valid request) (invalid "start_ref or max_depth is invalid")
  require (grain_is_present request) (invalid "expected_grain_ref is not present")
  require (grain_is_stable request definitions) (no_path "expected grain has no stable unique key")
  ok (expected_of request)

-- The one source of the graph.
unfoldable pub only_source : List AuthorizedRelationship → Result String
only_source graph = do
  require (not (is_empty (source_ids_of graph))) (no_path "no current authorized join proof exists")
  require (nat_eq (length (source_ids_of graph)) 1)
      (failure "CROSS_SOURCE_UNSUPPORTED" "one source is required" 2)
  ok (only (source_ids_of graph))

-- The trees that the request may use, in order of preference.
unfoldable pub usable_trees :
    PlanRequest → String → List AuthorizedRelationship → Result (List (List CandidateEdge))
usable_trees request expected graph = do
  safe ← or_diverges (
      safe_trees expected (
        spanning_trees (length (refs_of request.entity_refs)) request.max_depth 4
          (candidate_edges request.entity_refs graph) request.start_ref))
  require (not (is_empty safe)) (no_path "no current authorized join proof exists")
  ok safe

unfoldable pub plan_join :
    Hashing
    → String
    → PlanRequest
    → List AuthorizedRelationship
    → String
    → List EntityDefinition
    → Result JoinProof
plan_join h now request graph policy_version definitions = do
  expected ← checked_grain_ref request definitions
  source_id ← only_source graph
  safe ← usable_trees request expected graph
  let snapshots = snapshot_ids_of (first_tree safe)
  require (nat_eq (length snapshots) 1)
      (failure "EVIDENCE_UNVERIFIABLE" "proof evidence spans snapshots" 3)
  proofs ←
      collect
        (proof_for h now source_id (only snapshots) policy_version request.entity_refs
          request.start_ref expected request.max_depth)
        safe
  with_alternatives request.include_alternatives proofs
