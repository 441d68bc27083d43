-- ===== src/Domain.antt =====
-- src/joinlint/runtime/domain.py: the values that the runtime passes around. The pydantic models
-- are records; what a model's validators accept is a Boolean test of `Domain.Valid`; the
-- identifiers derived by hashing are in `Domain.Ids`.
pub mod Text
pub mod Valid
pub mod Json
pub mod Ids
use joinlint.Prelude.{ℕ, String, Bool, Option, List, [], ◌∷◌}

abbrev pub policy_version : String
policy_version = "declared-curated-v1"

abbrev pub verifier_version : String
verifier_version = "sqlite-exact-v1"

abbrev pub claim_scope : String
claim_scope = "physical_join_only"

abbrev pub validated_scope : List String
validated_scope =
    "physical_join_endpoints" ∷ "relationship_evidence" ∷ "join_cardinality" ∷ "join_grain"
    ∷ "join_fanout" ∷ []

abbrev pub not_validated_scope : List String
not_validated_scope =
    "selected_columns" ∷ "filters" ∷ "aggregations" ∷ "metric_definitions" ∷ "business_semantics"
    ∷ "answer_correctness" ∷ []

pub data Provenance : Type 0 where
  declared curated : Provenance

pub data Cardinality : Type 0 where
  one_to_one one_to_many many_to_one many_to_many : Cardinality

pub data Severity : Type 0 where
  info warning blocking : Severity

pub data Traversal : Type 0 where
  forward reverse : Traversal

pub record RuntimeFinding : Type 0 where
  pub code : String
  pub severity : Severity
  pub message : String

pub record SourceIdentity : Type 0 where
  pub source_id : String
  pub boundary_digest : String
  pub relative_locator : String

pub record SourceSnapshot : Type 0 where
  pub source_id : String
  pub snapshot_id : String
  pub schema_digest : String
  pub content_digest : String

pub record ColumnDefinition : Type 0 where
  pub name : String
  pub physical_type : String
  pub nullable : Bool
  pub primary_key_position : ℕ
  pub unique : Bool

pub record EntityDefinition : Type 0 where
  pub entity_id : String
  pub source_id : String
  pub physical_name : String
  pub columns : List ColumnDefinition
  pub primary_key : List String
  pub unique_keys : List (List String)

pub record Endpoint : Type 0 where
  pub entity_id : String
  pub columns : List String

pub record RelationshipDefinition : Type 0 where
  pub relationship_id : String
  pub source_id : String
  pub child : Endpoint
  pub parent : Endpoint

pub record RelationshipSeed : Type 0 where
  pub definition : RelationshipDefinition
  pub provenance : Provenance
  pub declared_cardinality : Cardinality

pub record SourceCatalog : Type 0 where
  pub source_id : String
  pub snapshot_id : String
  pub entities : List EntityDefinition
  pub declared_relationships : List RelationshipSeed

pub record EvidenceMeasurements : Type 0 where
  pub child_row_count : ℕ
  pub parent_row_count : ℕ
  pub child_non_null_count : ℕ
  pub child_null_count : ℕ
  pub child_distinct_count : ℕ
  pub parent_distinct_count : ℕ
  pub inclusion_numerator : ℕ
  pub inclusion_denominator : ℕ
  pub orphan_count : ℕ
  pub parent_unique : Bool
  pub observed_cardinality : Cardinality
  pub max_children_per_parent : ℕ
  pub max_parents_per_child : ℕ

-- `evidence_mode` has the one value "exact".
pub data EvidenceMode : Type 0 where
  exact : EvidenceMode

pub record EvidenceRecord : Type 0 where
  pub evidence_id : String
  pub relationship_id : String
  pub snapshot_id : String
  pub provenance : Provenance
  pub verifier_version : String
  pub evidence_mode : EvidenceMode
  pub measurements : EvidenceMeasurements
  pub findings : List RuntimeFinding
  pub verified_at : String

pub record AuthorizationProjection : Type 0 where
  pub policy_version : String
  pub current : Bool
  pub exact : Bool
  pub usable : Bool
  pub blocking_reasons : List String

pub record AuthorizedRelationship : Type 0 where
  pub definition : RelationshipDefinition
  pub evidence : EvidenceRecord
  pub authorization : AuthorizationProjection
  pub declared_cardinality : Cardinality

pub record EntityRef : Type 0 where
  pub ref : String
  pub entity : String

pub record ProofEdge : Type 0 where
  pub from_ref : String
  pub to_ref : String
  pub relationship_id : String
  pub evidence_id : String
  pub child : Endpoint
  pub parent : Endpoint
  pub traversal : Traversal
  pub cardinality : Cardinality
  pub provenance : Provenance
  pub predicates : List String

-- A `JoinProof` without its `alternatives`.
pub record ProofBody : Type 0 where
  pub plan_id : String
  pub source_id : String
  pub snapshot_id : String
  pub policy_version : String
  pub entity_refs : List EntityRef
  pub start_ref : String
  pub expected_grain_ref : String
  pub max_depth : ℕ
  pub edges : List ProofEdge
  pub verified_at : String
  pub freshness_checked_at : String

mutual
  pub data JoinProof : Type 0 where
    proof : ProofBody → Alternatives → JoinProof

  pub data Alternatives : Type 0 where
    nil : Alternatives
    cons : JoinProof → Alternatives → Alternatives

abbrev pub body : JoinProof → ProofBody
body (proof b _) = b

abbrev pub alternatives : JoinProof → Alternatives
alternatives (proof _ a) = a

pub data LifecycleStatus : Type 0 where
  current stale unverifiable : LifecycleStatus

pub record ProofLifecycleProjection : Type 0 where
  pub status : LifecycleStatus
  pub reason : Option String
  pub freshness_checked_at : String

pub data JoinKind : Type 0 where
  inner left unsupported : JoinKind

pub record NormalizedJoinEdge : Type 0 where
  pub left_ref : String
  pub right_ref : String
  pub endpoint_pairs : List (String × String)
  pub join_kind : JoinKind

pub record NormalizedJoinGraph : Type 0 where
  pub source_id : String
  pub entity_refs : List EntityRef
  pub edges : List NormalizedJoinEdge

pub data Decision : Type 0 where
  pass block : Decision

pub record SqlValidationOutcome : Type 0 where
  pub decision : Decision
  pub graph : NormalizedJoinGraph
  pub matched_relationship_ids : List String
  pub matched_evidence_ids : List String
  pub proof_matched : Option Bool
  pub findings : List RuntimeFinding
