-- ===== src/Service/Validate.antt =====
-- `validate_sql` of src/joinlint/runtime/service.py.
use joinlint.Prelude.{
  String, Bool, true, false, not, Option, none, some, List, [], ◌∷◌, map, keep_if, if◌then◌else◌,
  ◌==◌, is_empty, contains,
}
use joinlint.Prelude.Sort.{sorted}
use joinlint.Prelude.Order.{text_ord}
use joinlint.Errors.{Failure, sql_validation, value_error, Result, ok, err, failure, require}
use joinlint.Action.{Action, pure, lift, ◌>>=◌, ◌>>◌}
use joinlint.Domain.{
  EntityRef, JoinProof, body, NormalizedJoinGraph, SqlValidationOutcome, LifecycleStatus,
}
use joinlint.Domain.Valid.{is_none}
use joinlint.Cache.{CacheState, load_proof}
use joinlint.Sql.Validate.{validate_sql_graph}
use joinlint.Mcp.{
  ValidateSqlRequest, ValidateSqlResponse, ok_status, findings_status, valid_sql_response,
  validated_scope_for, not_validated_scope_for,
}
use joinlint.Service.Inputs.{Environment, RuntimeContext}
use joinlint.Service.Contexts.{open_contexts}
use joinlint.Service.Plan.{lifecycle_in}

abbrev pub first_context : List RuntimeContext → Result RuntimeContext
first_context [] = err (failure "PROOF_UNVERIFIABLE" "proof source is unavailable" 3)
first_context (c ∷ cs) = ok c

-- `_context_for_source`
abbrev pub context_for_source : List RuntimeContext → String → Result RuntimeContext
context_for_source contexts source_id =
    first_context (keep_if (λ (c : RuntimeContext). c.identity.source_id == source_id) contexts)

-- `except ValueError`
abbrev pub as_invalid {ℓ} : {A : Type ℓ} → Result A → Result A
as_invalid (err value_error) = err (failure "INVALID_ARGUMENT" "plan_id is invalid" 2)
as_invalid (err raised) = err raised
as_invalid (ok a) = ok a

abbrev pub available : Option JoinProof → Result (Option JoinProof)
available none = err (failure "PROOF_NOT_AVAILABLE" "proof is not available" 3)
available (some p) = ok (some p)

abbrev pub none_or {ℓ} : {A : Type ℓ} → (A → Bool) → Option A → Bool
none_or test none = true
none_or test (some a) = test a

abbrev pub proof_refs : JoinProof → List String
proof_refs p = map (λ (r : EntityRef). r.ref) (body p).entity_refs

abbrev pub is_stale : LifecycleStatus → Bool
is_stale LifecycleStatus.stale = true
is_stale _ = false

abbrev pub is_unverifiable : LifecycleStatus → Bool
is_unverifiable LifecycleStatus.unverifiable = true
is_unverifiable _ = false

-- `error.code != "UNKNOWN_ENTITY"`, negated, of an `SQLValidationError`
abbrev pub is_unknown_entity : Failure → Bool
is_unknown_entity (sql_validation e) = e.code == "UNKNOWN_ENTITY"
is_unknown_entity _ = false

abbrev pub Normalized : Type 0
Normalized = RuntimeContext × NormalizedJoinGraph

abbrev no_match : Option Failure → Result Normalized
no_match (some unknown_error) = err unknown_error
no_match none = err (failure "SOURCE_NOT_FOUND" "no source can validate SQL" 3)

abbrev pub only_normalized : List Normalized → Option Failure → Result Normalized
only_normalized [] unknown_error = no_match unknown_error
only_normalized (m ∷ []) unknown_error = ok m
only_normalized (m ∷ n ∷ ms) unknown_error =
    err (failure "SOURCE_AMBIGUOUS" "SQL matches multiple sources" 3)

abbrev pub with_first :
    Normalized
    → Result (List Normalized × Option Failure)
    → Result (List Normalized × Option Failure)
with_first m (err raised) = err raised
with_first m (ok (ms, unknown_error)) = ok (m ∷ ms, unknown_error)

abbrev pub chosen : Result (List Normalized × Option Failure) → Result Normalized
chosen (err raised) = err raised
chosen (ok (ms, unknown_error)) = only_normalized ms unknown_error

module _ (env : Environment) where
  abbrev pub normalize_in : String → RuntimeContext → Result NormalizedJoinGraph
  normalize_in sql context = env.normalize_sql_graph sql context.catalog context.identity.source_id

  -- The loop of `_normalize_without_proof`, with the last error of an unknown entity.
  unfoldable pub normalize_each :
      String → Option Failure → List RuntimeContext → Result (List Normalized × Option Failure)
  normalize_each sql unknown_error [] = ok ([], unknown_error)
  normalize_each sql unknown_error (context ∷ contexts) = elim (normalize_in sql context) [
    | ok graph ↦ with_first (context, graph) (normalize_each sql unknown_error contexts)
    | err raised ↦
        if is_unknown_entity raised then normalize_each sql (some raised) contexts else err raised
  ]

  abbrev pub paired : RuntimeContext → Result NormalizedJoinGraph → Result Normalized
  paired context (err raised) = err raised
  paired context (ok graph) = ok (context, graph)

  abbrev pub normalized_in : String → Result RuntimeContext → Result Normalized
  normalized_in sql (err raised) = err raised
  normalized_in sql (ok context) = paired context (normalize_in sql context)

  -- `_normalize_without_proof`
  abbrev pub normalize_without_proof : List RuntimeContext → ValidateSqlRequest → Result Normalized
  normalize_without_proof contexts request = elim request.source_id [
    | some source_id ↦ normalized_in request.sql (context_for_source contexts source_id)
    | none ↦ chosen (normalize_each request.sql none contexts)
  ]

  -- `_proof`
  unfoldable pub proof_with : Option String → Action CacheState (Option JoinProof)
  proof_with none s = (ok none, s)
  proof_with (some plan_id) s =
      let (loaded, left) = load_proof env.hashing env.codecs plan_id s in
      (lift (as_invalid loaded) >>= (λ found. lift (available found))) left

  abbrev text_key : String → String
  text_key t = t

  abbrev pub sql_response : Option JoinProof → SqlValidationOutcome → ValidateSqlResponse
  sql_response given outcome = record {
    schema_version = 2;
    command = "validate_sql";
    status = if is_empty outcome.findings then ok_status else findings_status;
    data_ = some (record {
      normalized_join_graph = outcome.graph;
      matched_relationship_ids = sorted text_key outcome.matched_relationship_ids;
      matched_evidence_ids = sorted text_key outcome.matched_evidence_ids;
      proof_matched = outcome.proof_matched;
      repair_proof = none;
      validated_scope = validated_scope_for (not (is_none given));
      not_validated_scope = not_validated_scope_for (not (is_none given));
      execution_count = 0;
    });
    findings = outcome.findings;
    error_ = none;
  }

  -- `_validation_response`
  unfoldable pub validation_response :
      NormalizedJoinGraph
      → RuntimeContext
      → Option JoinProof
      → Option String
      → Action CacheState ValidateSqlResponse
  validation_response graph context given expected_grain_ref = do
    outcome ← lift (
        validate_sql_graph env.fuel graph context.graph given expected_grain_ref
          context.catalog.entities)
    lift (require (valid_sql_response (sql_response given outcome)) value_error)
    pure (sql_response given outcome)

  -- The statements under `if proof is not None`.
  unfoldable pub validate_with_proof :
      List RuntimeContext → ValidateSqlRequest → JoinProof → Action CacheState ValidateSqlResponse
  validate_with_proof contexts request p = do
    context ← lift (context_for_source contexts (body p).source_id)
    lift (
        require (none_or (λ source_id. source_id == (body p).source_id) request.source_id)
          (failure "INVALID_ARGUMENT" "source_id does not match proof" 2))
    lift (
        require (not (is_stale (lifecycle_in env context p).status))
          (failure "PROOF_STALE" "proof must be replanned" 3))
    lift (
        require (not (is_unverifiable (lifecycle_in env context p).status))
          (failure "PROOF_UNVERIFIABLE" "proof evidence is unavailable" 3))
    lift (
        require (none_or (λ ref. contains ref (proof_refs p)) request.expected_grain_ref)
          (failure "INVALID_ARGUMENT" "expected_grain_ref is not present in proof" 2))
    graph ← lift (normalize_in request.sql context)
    validation_response graph context (some p) request.expected_grain_ref

  abbrev pub validate_given :
      List RuntimeContext
      → ValidateSqlRequest
      → Option JoinProof
      → Action CacheState ValidateSqlResponse
  validate_given contexts request (some p) = validate_with_proof contexts request p
  validate_given contexts request none = do
    m ← lift (normalize_without_proof contexts request)
    validation_response m.1 m.0 none request.expected_grain_ref

  unfoldable pub validate_sql : ValidateSqlRequest → Action CacheState ValidateSqlResponse
  validate_sql request = do
    lift (
        require (request.dialect == "sqlite")
          (failure "UNSUPPORTED_DIALECT" "only SQLite is supported" 2))
    given ← proof_with request.plan_id
    contexts ← open_contexts env
    validate_given contexts request given
