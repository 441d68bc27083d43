-- ===== src/Evidence/Verify.antt =====
-- `verify_relationship` of src/joinlint/runtime/evidence.py. `execute` stands for
-- `connection.execute(statement).fetchone()`, whose `none` is no row; `now` is the clock.
use joinlint.Prelude.{ℕ, String, Option, none, some, []}
use joinlint.Errors.{value_error, key_error, Result, ok, err, ◌>>=◌, ◌>>◌, require}
use joinlint.Domain.{
  EntityDefinition, SourceCatalog, RelationshipSeed, EvidenceMeasurements, EvidenceRecord, exact,
  verifier_version,
}
use joinlint.Domain.Json.{Hashing}
use joinlint.Domain.Valid.{valid_evidence}
use joinlint.Domain.Ids.{evidence_id_for}
use joinlint.Prelude.Dict.{get, from_items}
use joinlint.Evidence.{findings}
use joinlint.Evidence.Measure.{measure}

-- `query`, without its observer.
abbrev pub first_column : Option ℕ → Result ℕ
first_column none = err value_error
first_column (some n) = ok n

abbrev or_key_error {ℓ} : {A : Type ℓ} → Option A → Result A
or_key_error none = err key_error
or_key_error (some e) = ok e

-- `entities[entity_id]`
abbrev pub entity_at : SourceCatalog → String → Result EntityDefinition
entity_at catalog entity_id = or_key_error (
    get entity_id (from_items (λ (e : EntityDefinition). e.entity_id) (λ e. e) [] catalog.entities))

module _ (h : Hashing) (now snapshot_id : String) (seed : RelationshipSeed) where
  abbrev pub evidence_record : EvidenceMeasurements → EvidenceRecord
  evidence_record measured = record {
    evidence_id =
        evidence_id_for h seed.definition.relationship_id snapshot_id seed.provenance
          verifier_version measured (findings measured seed.declared_cardinality);
    relationship_id = seed.definition.relationship_id;
    snapshot_id = snapshot_id;
    provenance = seed.provenance;
    verifier_version = verifier_version;
    evidence_mode = exact;
    measurements = measured;
    findings = findings measured seed.declared_cardinality;
    verified_at = now;
  }

  unfoldable pub verify_relationship : (String → Option ℕ) → SourceCatalog → Result EvidenceRecord
  verify_relationship execute catalog = do
    child_entity ← entity_at catalog seed.definition.child.entity_id
    parent_entity ← entity_at catalog seed.definition.parent.entity_id
    measured ←
        measure (λ statement. first_column (execute statement)) child_entity parent_entity seed
    require (valid_evidence (evidence_record measured)) value_error
    ok (evidence_record measured)
