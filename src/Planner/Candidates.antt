-- ===== src/Planner/Candidates.antt =====
-- `_candidate_edges` and `_candidate_key` of src/joinlint/runtime/planner.py: the ways in which the
-- requested references can be joined.
pub mod Exact
use joinlint.Prelude.{
  ℕ, String, Bool, ◌&&◌, List, [], ◌∷◌, ◌++◌, ltb, if◌then◌else◌, ◌==◌, concat_map,
}
use joinlint.Prelude.Order.{nat_ord, text_ord, pair_ord}
use joinlint.Prelude.Sort.{sorted}
use joinlint.Domain.{AuthorizedRelationship, Cardinality, EntityRef, Provenance, Traversal}
use joinlint.Planner.{CandidateEdge}

unfoldable pub invert_cardinality : Cardinality → Cardinality
invert_cardinality Cardinality.one_to_one = Cardinality.one_to_one
invert_cardinality Cardinality.one_to_many = Cardinality.many_to_one
invert_cardinality Cardinality.many_to_one = Cardinality.one_to_many
invert_cardinality Cardinality.many_to_many = Cardinality.many_to_many

-- The relationship taken from its child to its parent.
abbrev pub forward_edge : AuthorizedRelationship → EntityRef → EntityRef → CandidateEdge
forward_edge relationship left right = record {
  from_ref = left.ref;
  to_ref = right.ref;
  relationship = relationship;
  traversal = Traversal.forward;
  cardinality = relationship.evidence.measurements.observed_cardinality;
  max_matches = relationship.evidence.measurements.max_parents_per_child;
}

-- The relationship taken from its parent to its child.
abbrev pub reverse_edge : AuthorizedRelationship → EntityRef → EntityRef → CandidateEdge
reverse_edge relationship left right = record {
  from_ref = left.ref;
  to_ref = right.ref;
  relationship = relationship;
  traversal = Traversal.reverse;
  cardinality = invert_cardinality relationship.evidence.measurements.observed_cardinality;
  max_matches = relationship.evidence.measurements.max_children_per_parent;
}

abbrev pub only_if {ℓ} : {A : Type ℓ} → Bool → A → List A
only_if test x = if test then x ∷ [] else []

-- The body of the three loops.
unfoldable pub edges_between : AuthorizedRelationship → EntityRef → EntityRef → List CandidateEdge
edges_between relationship left right =
    let child_entity = relationship.definition.child.entity_id in
    let parent_entity = relationship.definition.parent.entity_id in
    if left.ref == right.ref
    then []
    else only_if (left.entity == child_entity && right.entity == parent_entity)
        (forward_edge relationship left right)
      ++ only_if (left.entity == parent_entity && right.entity == child_entity)
          (reverse_edge relationship left right)

abbrev provenance_rank : Provenance → ℕ
provenance_rank Provenance.curated = 0
provenance_rank Provenance.declared = 1

-- Curated before declared, without fan-out before with, then by relationship and references.
abbrev pub candidate_key : CandidateEdge → ℕ × (ℕ × (String × (String × String)))
candidate_key edge = (
  provenance_rank edge.relationship.evidence.provenance,
  (
    if ltb 1 edge.max_matches then 1 else 0,
    (edge.relationship.definition.relationship_id, (edge.from_ref, edge.to_ref)),
  ),
)

unfoldable pub candidate_edges : List EntityRef → List AuthorizedRelationship → List CandidateEdge
candidate_edges entity_refs graph = sorted candidate_key (
    concat_map
      (λ relationship.
        concat_map (λ left. concat_map (edges_between relationship left) entity_refs) entity_refs)
      graph)
