-- ===== src/Mcp.antt =====
-- The requests and responses of src/joinlint/mcp_contracts.py, with their validators as tests.
use joinlint.Prelude.{
  ℕ, String, Bool, true, not, ◌&&◌, Option, none, some, List, [], ◌∷◌, ◌++◌, map, nat_eq,
  if◌then◌else◌, ◌==◌, length, is_empty, any, contains, distinct,
}
use joinlint.Domain.{
  EntityRef, JoinProof, NormalizedJoinGraph, ProofLifecycleProjection, RuntimeFinding,
  validated_scope, not_validated_scope,
}
use joinlint.Domain.Text.{between}
use joinlint.Domain.Valid.{is_none}
use joinlint.Evidence.{blocks}

pub data McpStatus : Type 0 where
  ok_status findings_status inconclusive error : McpStatus

pub record McpError : Type 0 where
  pub code : String
  pub message : String

pub record GetJoinPlanRequest : Type 0 where
  pub entity_refs : List EntityRef
  pub start_ref : String
  pub expected_grain_ref : Option String
  pub max_depth : ℕ
  pub include_alternatives : Bool

-- `value is None or value in refs`
abbrev absent_or_in : List String → Option String → Bool
absent_or_in refs none = true
absent_or_in refs (some value) = contains value refs

abbrev pub valid_plan_request : GetJoinPlanRequest → Bool
valid_plan_request r =
    let refs = map (λ (x : EntityRef). x.ref) r.entity_refs in
    between 1 4 r.max_depth
    && between 2 8 (length refs)
    && nat_eq (length refs) (length (distinct refs))
    && contains r.start_ref refs
    && absent_or_in refs r.expected_grain_ref

pub record ValidateSqlRequest : Type 0 where
  pub sql : String
  pub dialect : String
  pub source_id : Option String
  pub plan_id : Option String
  pub expected_grain_ref : Option String

abbrev pub valid_sql_request : ValidateSqlRequest → Bool
valid_sql_request r = not (r.sql == "") && r.dialect == "sqlite"

pub record JoinPlanData : Type 0 where
  pub proof : JoinProof
  pub lifecycle : ProofLifecycleProjection
  pub validated_scope : List String
  pub not_validated_scope : List String
  pub execution_count : ℕ

pub record SqlValidationData : Type 0 where
  pub normalized_join_graph : NormalizedJoinGraph
  pub matched_relationship_ids : List String
  pub matched_evidence_ids : List String
  pub proof_matched : Option Bool
  pub repair_proof : Option JoinProof
  pub validated_scope : List String
  pub not_validated_scope : List String
  pub execution_count : ℕ

pub record GetJoinPlanResponse : Type 0 where
  pub schema_version : ℕ
  pub command : String
  pub status : McpStatus
  pub data_ : Option JoinPlanData
  pub findings : List RuntimeFinding
  pub error_ : Option McpError

pub record ValidateSqlResponse : Type 0 where
  pub schema_version : ℕ
  pub command : String
  pub status : McpStatus
  pub data_ : Option SqlValidationData
  pub findings : List RuntimeFinding
  pub error_ : Option McpError

-- `_validate_envelope`, where `false` is `ValueError`.
unfoldable pub valid_envelope {ℓ} :
    {D : Type ℓ} → McpStatus → Option D → List RuntimeFinding → Option McpError → Bool
valid_envelope inconclusive data_ findings error_ =
    is_none data_ && is_empty findings && not (is_none error_)
valid_envelope error data_ findings error_ =
    is_none data_ && is_empty findings && not (is_none error_)
valid_envelope findings_status data_ findings error_ = is_none error_ && any blocks findings
valid_envelope ok_status data_ findings error_ =
    is_none error_ && not (is_none data_) && not (any blocks findings)

abbrev pub valid_plan_response : GetJoinPlanResponse → Bool
valid_plan_response r = valid_envelope r.status r.data_ r.findings r.error_

abbrev pub valid_sql_response : ValidateSqlResponse → Bool
valid_sql_response r = valid_envelope r.status r.data_ r.findings r.error_

abbrev pub validated_scope_for : Bool → List String
validated_scope_for proof_bound =
    validated_scope ++ (if proof_bound then "proof_binding" ∷ [] else [])

abbrev pub not_validated_scope_for : Bool → List String
not_validated_scope_for proof_bound =
    not_validated_scope ++ (if not proof_bound then "proof_binding" ∷ [] else [])

abbrev failed_status : Bool → McpStatus
failed_status inconclusive_ = if inconclusive_ then inconclusive else error

abbrev stable_error : String → Option McpError
stable_error code = some (record { code = code; message = code })

-- `error_response`, for each of the two commands.
unfoldable pub plan_error_response : String → Bool → GetJoinPlanResponse
plan_error_response code inconclusive_ = record {
  schema_version = 2;
  command = "get_join_plan";
  status = failed_status inconclusive_;
  data_ = none;
  findings = [];
  error_ = stable_error code;
}

unfoldable pub sql_error_response : String → Bool → ValidateSqlResponse
sql_error_response code inconclusive_ = record {
  schema_version = 2;
  command = "validate_sql";
  status = failed_status inconclusive_;
  data_ = none;
  findings = [];
  error_ = stable_error code;
}
