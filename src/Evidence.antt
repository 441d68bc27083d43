-- ===== src/Evidence.antt =====
-- `authorize`, `build_authorized_graph`, `_findings`, `_cardinality` and `_cardinality_is_compatible`
-- of src/joinlint/runtime/evidence.py. `Evidence.Measure` has the queries.
pub mod Measure
pub mod Definitions
pub mod Verify
pub mod Authorize
pub mod Graph
use joinlint.Prelude.{
  ℕ, String, Bool, true, false, not, ◌&&◌, Option, none, some, List, [], ◌∷◌, ◌++◌, map, leb,
  nat_eq, if◌then◌else◌, ◌==◌, is_empty, keep_if,
}
use joinlint.Prelude.Order.{text_ord}
use joinlint.Prelude.Sort.{sorted}
use joinlint.Prelude.Dict.{Dict, get, from_items}
use joinlint.Errors.{value_error, Result, ok, ◌>>=◌, ◌>>◌, require}
use joinlint.Domain.{
  Cardinality, one_to_one, one_to_many, many_to_one, many_to_many, Severity, warning, blocking,
  RuntimeFinding, RelationshipSeed, EvidenceMeasurements, EvidenceMode, exact, EvidenceRecord,
  AuthorizationProjection, AuthorizedRelationship,
}
use joinlint.Domain.Valid.{is_blocking, valid_authorization, valid_authorized}

unfoldable pub cardinality : ℕ → ℕ → Cardinality
cardinality max_children max_parents =
    if leb max_children 1 && leb max_parents 1
    then one_to_one
    else if leb max_children 1
    then one_to_many
    else if leb max_parents 1
    then many_to_one
    else many_to_many

-- Whether an observed cardinality is in the set that `allowed_observations` has for a declared one.
abbrev pub cardinality_is_compatible : Cardinality → Cardinality → Bool
cardinality_is_compatible one_to_one _ = true
cardinality_is_compatible one_to_many one_to_many = true
cardinality_is_compatible many_to_one many_to_one = true
cardinality_is_compatible _ many_to_many = true
cardinality_is_compatible _ _ = false

abbrev pub is_many_to_many : Cardinality → Bool
is_many_to_many many_to_many = true
is_many_to_many _ = false

abbrev pub finding : String → Severity → RuntimeFinding
finding code severity = record { code = code; severity = severity; message = code }

-- `if test: findings.append(_finding(code, severity))`
abbrev pub when : Bool → String → Severity → List RuntimeFinding
when true code severity = finding code severity ∷ []
when false code severity = []

abbrev pub finding_code : RuntimeFinding → String
finding_code f = f.code

-- The findings on the cardinality.
abbrev pub raised_on_cardinality : EvidenceMeasurements → Cardinality → List RuntimeFinding
raised_on_cardinality m declared =
    when (not (cardinality_is_compatible m.observed_cardinality declared)) "CARDINALITY_DRIFT"
      blocking
    ++ when (is_many_to_many m.observed_cardinality) "MANY_TO_MANY_FANOUT" blocking

-- The list that the tests fill.
abbrev pub raised : EvidenceMeasurements → Cardinality → List RuntimeFinding
raised m declared =
    when (not m.parent_unique) "REFERENCED_KEY_NOT_UNIQUE" blocking
    ++ when (not (nat_eq m.child_null_count 0)) "CHILD_KEY_NULL" warning
    ++ when (not (nat_eq m.orphan_count 0)) "ORPHAN_CHILD_ROW" blocking
    ++ raised_on_cardinality m declared

unfoldable pub findings : EvidenceMeasurements → Cardinality → List RuntimeFinding
findings m declared = sorted finding_code (raised m declared)

-- `record.evidence_mode == "exact"`
abbrev pub is_exact : EvidenceMode → Bool
is_exact exact = true

abbrev pub blocks : RuntimeFinding → Bool
blocks f = is_blocking f.severity

-- The codes of the blocking findings, in their order.
abbrev pub blocking_codes : List RuntimeFinding → List String
blocking_codes fs = map finding_code (keep_if blocks (sorted finding_code fs))

abbrev pub projection : EvidenceRecord → String → String → AuthorizationProjection
projection record_ current_snapshot_id policy_version =
    let blocked = blocking_codes record_.findings in
    let current = record_.snapshot_id == current_snapshot_id in
    record {
      policy_version = policy_version;
      current = current;
      exact = is_exact record_.evidence_mode;
      usable = current && is_exact record_.evidence_mode && is_empty blocked;
      blocking_reasons = blocked;
    }

unfoldable pub authorize : EvidenceRecord → String → String → Result AuthorizationProjection
authorize record_ current_snapshot_id policy_version = do
  require (valid_authorization (projection record_ current_snapshot_id policy_version)) value_error
  ok (projection record_ current_snapshot_id policy_version)

-- `{record.relationship_id: record for record in evidence}`
abbrev pub records_of : List EvidenceRecord → Dict EvidenceRecord
records_of = from_items (λ (r : EvidenceRecord). r.relationship_id) (λ r. r) []

abbrev pub authorized_by :
    RelationshipSeed → EvidenceRecord → AuthorizationProjection → AuthorizedRelationship
authorized_by seed record_ projected = record {
  definition = seed.definition;
  evidence = record_;
  authorization = projected;
  declared_cardinality = seed.declared_cardinality;
}

-- The body of the loop over the seeds: what it appends for one of them.
unfoldable pub authorized_seed :
    Option EvidenceRecord
    → RelationshipSeed
    → String
    → String
    → Result (List AuthorizedRelationship)
authorized_seed none seed current_snapshot_id policy_version = ok []
authorized_seed (some record_) seed current_snapshot_id policy_version = do
  projected ← authorize record_ current_snapshot_id policy_version
  if projected.usable
      then require (valid_authorized (authorized_by seed record_ projected)) value_error
        >> ok (authorized_by seed record_ projected ∷ [])
      else ok []

unfoldable pub authorized_seeds :
    Dict EvidenceRecord
    → List RelationshipSeed
    → String
    → String
    → Result (List AuthorizedRelationship)
authorized_seeds records [] current_snapshot_id policy_version = ok []
authorized_seeds records (seed ∷ seeds) current_snapshot_id policy_version = do
  first ←
      authorized_seed (get seed.definition.relationship_id records) seed current_snapshot_id
        policy_version
  rest ← authorized_seeds records seeds current_snapshot_id policy_version
  ok (first ++ rest)

unfoldable pub build_authorized_graph :
    List RelationshipSeed
    → List EvidenceRecord
    → String
    → String
    → Result (List AuthorizedRelationship)
build_authorized_graph seeds evidence current_snapshot_id policy_version = do
  authorized ← authorized_seeds (records_of evidence) seeds current_snapshot_id policy_version
  ok (sorted (λ (r : AuthorizedRelationship). r.definition.relationship_id) authorized)
