-- ===== src/Service/Plan.antt =====
-- `get_join_plan` of src/joinlint/runtime/service.py.
use joinlint.Prelude.{String, true, Option, none, some, List, [], ◌∷◌, map}
use joinlint.Errors.{Result, ok, err, failure, require, value_error}
use joinlint.Action.{Action, pure, lift, ◌>>=◌, ◌>>◌}
use joinlint.Domain.{
  EntityRef, AuthorizedRelationship, JoinProof, Alternatives, nil, cons, body, alternatives,
  ProofLifecycleProjection, policy_version, SourceCatalog,
}
use joinlint.Cache.{CacheState, store_proof}
use joinlint.Planner.Plan.{PlanRequest, plan_join}
use joinlint.Planner.Lifecycle.{proof_lifecycle}
use joinlint.Mcp.{
  GetJoinPlanRequest, GetJoinPlanResponse, ok_status, valid_plan_response, validated_scope_for,
  not_validated_scope_for,
}
use joinlint.Service.Inputs.{Environment, RuntimeContext, resolve_entity}
use joinlint.Service.Contexts.{open_contexts}

abbrev resolved_with : String → Option String → Option (List EntityRef) → Option (List EntityRef)
resolved_with ref (some entity) (some rest) = some (record { ref = ref; entity = entity } ∷ rest)
resolved_with ref _ _ = none

-- The inner loop of `_resolve_plan_context`; `none` is `break`.
unfoldable pub resolve_refs : SourceCatalog → List EntityRef → Option (List EntityRef)
resolve_refs catalog [] = some []
resolve_refs catalog (item ∷ items) =
    resolved_with item.ref (resolve_entity catalog item.entity) (resolve_refs catalog items)

abbrev pub Match : Type 0
Match = RuntimeContext × List EntityRef

abbrev matched_first : RuntimeContext → Option (List EntityRef) → List Match → List Match
matched_first context none rest = rest
matched_first context (some resolved) rest = (context, resolved) ∷ rest

unfoldable pub matching : List EntityRef → List RuntimeContext → List Match
matching requested [] = []
matching requested (context ∷ contexts) =
    matched_first context (resolve_refs context.catalog requested) (matching requested contexts)

abbrev pub only_match : List Match → Result Match
only_match [] = err (failure "ENTITY_NOT_FOUND" "requested entities were not found" 3)
only_match (m ∷ []) = ok m
only_match (m ∷ n ∷ ms) =
    err (failure "SOURCE_AMBIGUOUS" "requested entities match multiple sources" 3)

-- `_resolve_plan_context`
abbrev pub resolve_plan_context : List RuntimeContext → List EntityRef → Result Match
resolve_plan_context contexts requested = only_match (matching requested contexts)

abbrev pub plan_request : GetJoinPlanRequest → List EntityRef → PlanRequest
plan_request r resolved = record {
  entity_refs = resolved;
  start_ref = r.start_ref;
  expected_grain_ref = r.expected_grain_ref;
  max_depth = r.max_depth;
  include_alternatives = r.include_alternatives;
}

abbrev pub evidence_ids_of : List AuthorizedRelationship → List String
evidence_ids_of graph = map (λ (r : AuthorizedRelationship). r.evidence.evidence_id) graph

module _ (env : Environment) where
  unfoldable pub store_alternatives : Alternatives → Action CacheState (Unit {0})
  store_alternatives nil = pure tt
  store_alternatives (cons p rest) = do
    store_proof env.hashing env.codecs p
    store_alternatives rest

  abbrev pub lifecycle_in : RuntimeContext → JoinProof → ProofLifecycleProjection
  lifecycle_in context p =
      proof_lifecycle (body p) context.snapshot.snapshot_id policy_version
        (evidence_ids_of context.graph) none env.now

  abbrev pub plan_response : RuntimeContext → JoinProof → GetJoinPlanResponse
  plan_response context p = record {
    schema_version = 2;
    command = "get_join_plan";
    status = ok_status;
    data_ = some (record {
      proof = p;
      lifecycle = lifecycle_in context p;
      validated_scope = validated_scope_for true;
      not_validated_scope = not_validated_scope_for true;
      execution_count = 0;
    });
    findings = [];
    error_ = none;
  }

  unfoldable pub get_join_plan : GetJoinPlanRequest → Action CacheState GetJoinPlanResponse
  get_join_plan request = do
    contexts ← open_contexts env
    found ← lift (resolve_plan_context contexts request.entity_refs)
    p ← lift (
        plan_join env.hashing env.now (plan_request request found.1) found.0.graph policy_version
          found.0.catalog.entities)
    store_proof env.hashing env.codecs p
    store_alternatives (alternatives p)
    lift (require (valid_plan_response (plan_response found.0 p)) value_error)
    pure (plan_response found.0 p)
