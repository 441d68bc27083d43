-- ===== src/Domain/Ids.antt =====
-- `relationship_id_for`, `evidence_id_for` and `plan_id_for` of src/joinlint/runtime/domain.py.
pub mod Order
use joinlint.Prelude.{ℕ, String, List}
use joinlint.Prelude.Order.{nat_ord, text_ord, pair_ord}
use joinlint.Prelude.Sort.{sorted}
use joinlint.Domain.{
  Endpoint, Provenance, Cardinality, Traversal, Severity, EvidenceMeasurements, RuntimeFinding,
  EntityRef, ProofEdge, claim_scope,
}
use joinlint.Domain.Json.{Json, num, bool, text, arr, obj, end, field, array, Hashing, hash}

abbrev pub provenance_text : Provenance → String
provenance_text Provenance.declared = "declared"
provenance_text Provenance.curated = "curated"

abbrev pub cardinality_text : Cardinality → String
cardinality_text Cardinality.one_to_one = "one_to_one"
cardinality_text Cardinality.one_to_many = "one_to_many"
cardinality_text Cardinality.many_to_one = "many_to_one"
cardinality_text Cardinality.many_to_many = "many_to_many"

abbrev pub severity_text : Severity → String
severity_text Severity.info = "info"
severity_text Severity.warning = "warning"
severity_text Severity.blocking = "blocking"

abbrev pub traversal_text : Traversal → String
traversal_text Traversal.forward = "forward"
traversal_text Traversal.reverse = "reverse"

-- `endpoint.model_dump(mode="json")`
abbrev endpoint_json : Endpoint → Json
endpoint_json e =
    obj (field "entity_id" (text e.entity_id) (field "columns" (arr (array text e.columns)) end))

unfoldable pub relationship_id_for : Hashing → String → Endpoint → Endpoint → String
unfolding hash
relationship_id_for h source_id child parent = hash h "joinlint-relationship-v2" (
    obj (
      field "source_id" (text source_id)
        (field "child" (endpoint_json child) (field "parent" (endpoint_json parent) end))))

abbrev measurements_json : EvidenceMeasurements → Json
measurements_json m = obj (
    field "child_row_count" (num m.child_row_count) (
      field "parent_row_count" (num m.parent_row_count) (
        field "child_non_null_count" (num m.child_non_null_count) (
          field "child_null_count" (num m.child_null_count) (
            field "child_distinct_count" (num m.child_distinct_count) (
              field "parent_distinct_count" (num m.parent_distinct_count) (
                field "inclusion_numerator" (num m.inclusion_numerator) (
                  field "inclusion_denominator" (num m.inclusion_denominator) (
                    field "orphan_count" (num m.orphan_count) (
                      field "parent_unique" (bool m.parent_unique) (
                        field "observed_cardinality"
                          (text (cardinality_text m.observed_cardinality))
                          (field "max_children_per_parent" (num m.max_children_per_parent) (
                            field "max_parents_per_child" (num m.max_parents_per_child)
                              end)))))))))))))

abbrev finding_json : RuntimeFinding → Json
finding_json f = obj (
    field "code" (text f.code)
      (field "severity" (text (severity_text f.severity)) (field "message" (text f.message) end)))

abbrev pub finding_key : RuntimeFinding → String × String
finding_key f = (f.code, severity_text f.severity)

unfoldable pub evidence_id_for :
    Hashing
    → String
    → String
    → Provenance
    → String
    → EvidenceMeasurements
    → List RuntimeFinding
    → String
unfolding hash
evidence_id_for h relationship_id snapshot_id provenance verifier_version measurements findings =
    hash h "joinlint-evidence-v2" (
      obj (
        field "relationship_id" (text relationship_id) (
          field "snapshot_id" (text snapshot_id) (
            field "provenance" (text (provenance_text provenance)) (
              field "verifier_version" (text verifier_version) (
                field "measurements" (measurements_json measurements) (
                  field "findings" (arr (array finding_json (sorted finding_key findings)))
                    end)))))))

abbrev entity_ref_json : EntityRef → Json
entity_ref_json r = obj (field "ref" (text r.ref) (field "entity" (text r.entity) end))

abbrev edge_json : ProofEdge → Json
edge_json e = obj (
    field "from_ref" (text e.from_ref) (
      field "to_ref" (text e.to_ref) (
        field "relationship_id" (text e.relationship_id) (
          field "evidence_id" (text e.evidence_id) (
            field "traversal" (text (traversal_text e.traversal)) (
              field "cardinality" (text (cardinality_text e.cardinality)) (
                field "child" (endpoint_json e.child)
                  (field "parent" (endpoint_json e.parent) end))))))))

abbrev pub entity_ref_key : EntityRef → String
entity_ref_key r = r.ref

abbrev pub edge_key : ProofEdge → String × (String × (String × String))
edge_key e = (e.from_ref, (e.to_ref, (e.relationship_id, e.evidence_id)))

unfoldable pub plan_id_for :
    Hashing
    → String
    → String
    → String
    → List EntityRef
    → String
    → String
    → ℕ
    → List ProofEdge
    → String
unfolding hash
plan_id_for h source_id snapshot_id policy_version entity_refs start_ref expected_grain_ref
      max_depth edges =
    hash h "joinlint-plan-v2" (
      obj (
        field "schema_version" (num 2) (
          field "claim_scope" (text claim_scope) (
            field "source_id" (text source_id) (
              field "snapshot_id" (text snapshot_id) (
                field "policy_version" (text policy_version) (
                  field "entity_refs"
                    (arr (array entity_ref_json (sorted entity_ref_key entity_refs)))
                    (field "start_ref" (text start_ref) (
                      field "expected_grain_ref" (text expected_grain_ref) (
                        field "max_depth" (num max_depth) (
                          field "edges" (arr (array edge_json (sorted edge_key edges)))
                            end)))))))))))
