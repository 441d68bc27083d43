-- ===== src/Domain/Ids/Order.antt =====
-- The derived identifiers of src/joinlint/runtime/domain.py do not depend on the order in which a
-- caller lists references, edges or findings.
use mathlib.Core.List.{Permᴰ}
use joinlint.Prelude.{ℕ, String, ◌≡◌, List}
use joinlint.Prelude.Order.{text_ord, pair_ord}
use joinlint.Prelude.Sort.{KeysDistinct, sorted-perm-eq}
use joinlint.Domain.{EntityRef, ProofEdge, RuntimeFinding, EvidenceMeasurements, Provenance}
use joinlint.Domain.Json.{Hashing}
use joinlint.Domain.Ids.{plan_id_for, evidence_id_for, entity_ref_key, edge_key, finding_key}

-- The plan id is the same for every order of the references and of the edges, where references
-- with one name are equal and edges with the same ends, relationship and evidence are equal.
pub plan_id_for-perm :
    (h : Hashing) (source_id snapshot_id policy_version start_ref expected_grain_ref : String)
    (max_depth : ℕ) {refs refs' : List EntityRef} {edges edges' : List ProofEdge}
    → Permᴰ refs refs'
    → KeysDistinct entity_ref_key refs
    → Permᴰ edges edges'
    → KeysDistinct edge_key edges
    → plan_id_for h source_id snapshot_id policy_version refs start_ref expected_grain_ref max_depth
        edges
      ≡ plan_id_for h source_id snapshot_id policy_version refs' start_ref expected_grain_ref
          max_depth edges'
unfolding plan_id_for
plan_id_for-perm h source snapshot policy start grain depth p d q e =
    rw (sorted-perm-eq entity_ref_key p d, sorted-perm-eq edge_key q e)

-- The evidence id is the same for every order of the findings, where findings with one code and
-- severity are equal.
pub evidence_id_for-perm :
    (h : Hashing) (relationship_id snapshot_id : String) (provenance : Provenance)
    (verifier_version : String) (m : EvidenceMeasurements)
    {findings findings' : List RuntimeFinding}
    → Permᴰ findings findings'
    → KeysDistinct finding_key findings
    → evidence_id_for h relationship_id snapshot_id provenance verifier_version m findings
      ≡ evidence_id_for h relationship_id snapshot_id provenance verifier_version m findings'
unfolding evidence_id_for
evidence_id_for-perm h relationship snapshot provenance verifier m p d =
    rw (sorted-perm-eq finding_key p d)
