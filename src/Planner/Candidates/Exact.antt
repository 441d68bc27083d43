-- ===== src/Planner/Candidates/Exact.antt =====
-- `_candidate_edges` offers exactly the ways to join two requested references by an authorized
-- relationship.
use mathlib.Core.List.Memᴰ
use joinlint.Prelude.{
  String, ◌≡◌, refl, ◌≢◌, ◌↔◌, ◌⊎◌, inl, inr, Bool, true, false, ◌&&◌, List, Memᴰ, arith, ◌==◌,
  ==_iff, ==_cases, mem-concat_map,
}
use joinlint.Prelude.Order.{nat_ord, text_ord, pair_ord}
use joinlint.Prelude.Sort.{mem-sorted}
use joinlint.Domain.{AuthorizedRelationship, EntityRef}
use joinlint.Planner.{CandidateEdge}
use joinlint.Planner.Candidates.{
  candidate_edges, candidate_key, edges_between, forward_edge, reverse_edge, only_if,
}

-- `left` and `right` are two references, and `edge` follows `relationship` from one to the other:
-- from the child's entity to the parent's, or back.
pub record Follows (relationship : AuthorizedRelationship) (left right : EntityRef)
    (edge : CandidateEdge) : Type 0 where
  pub differ : left.ref ≢ right.ref
  pub direction :
      (left.entity ≡ relationship.definition.child.entity_id)
        × (right.entity ≡ relationship.definition.parent.entity_id)
        × (edge ≡ forward_edge relationship left right)
      ⊎ (left.entity ≡ relationship.definition.parent.entity_id)
        × (right.entity ≡ relationship.definition.child.entity_id)
        × (edge ≡ reverse_edge relationship left right)

mem-only_if {ℓ} : {A : Type ℓ} (t : Bool) (x y : A) → Memᴰ y (only_if t x) ↔ ((t ≡ true) × (y ≡ x))
mem-only_if true x y = (λ m. (refl, Memᴰ.eq_of_singleton m), λ h. Memᴰ.head h.1)
mem-only_if false x y = (λ m. absurd (Memᴰ.not-nil m), λ h. cc)

both_eq : (a b c d : String) → ((a == b && c == d) ≡ true) ↔ ((a ≡ b) × (c ≡ d))
both_eq a b c d = ground (arith, ==_iff a b, ==_iff c d)

mem-edges_between :
    (relationship : AuthorizedRelationship) (left right : EntityRef) (edge : CandidateEdge)
    → Memᴰ edge (edges_between relationship left right) ↔ Follows relationship left right edge
unfolding edges_between
mem-edges_between relationship left right edge = elim (==_cases left.ref right.ref) [
  | inl (q, e) ↦ rw e (λ m. absurd (Memᴰ.not-nil m), λ f. absurd (f.differ q))
  | inr (n, e) ↦ rw e (
    λ m. record {
      differ = n;
      direction = elim (Memᴰ.append_cases (only_if forward _) m) [
        | inl f ↦
            let (t, p) = (mem-only_if forward _ edge).0 f in
            let (a, b) = (both_eq left.entity child right.entity parent).0 t in inl (a, b, p)
        | inr r ↦
            let (t, p) = (mem-only_if backward _ edge).0 r in
            let (a, b) = (both_eq left.entity parent right.entity child).0 t in inr (a, b, p)
      ];
    },
    λ f. elim f.direction [
      | inl (a, b, p) ↦ Memᴰ.append_left _ (
          (mem-only_if forward _ edge).1
            ((both_eq left.entity child right.entity parent).1 (a, b), p))
      | inr (a, b, p) ↦ Memᴰ.append_right (only_if forward _) (
          (mem-only_if backward _ edge).1
            ((both_eq left.entity parent right.entity child).1 (a, b), p))
    ],
  )
]
  where
    child : String
    child = relationship.definition.child.entity_id

    parent : String
    parent = relationship.definition.parent.entity_id

    forward : Bool
    forward = left.entity == child && right.entity == parent

    backward : Bool
    backward = left.entity == parent && right.entity == child

-- An edge is a candidate exactly if it follows a relationship of the graph between two requested
-- references of different names, in one of the two directions.
pub mem-candidate_edges :
    (refs : List EntityRef) (graph : List AuthorizedRelationship) (edge : CandidateEdge)
    → Memᴰ edge (candidate_edges refs graph) ↔ (
        (relationship : AuthorizedRelationship) × (left : EntityRef) × (right : EntityRef) × Memᴰ
          relationship graph
        × Memᴰ left refs
        × Memᴰ right refs
        × Follows relationship left right edge)
unfolding candidate_edges
mem-candidate_edges refs graph edge = (
  λ m.
      let (relationship, in_graph, m₁) =
        (mem-concat_map _ edge graph).0 ((mem-sorted candidate_key edge _).0 m) in
      let (left, in_left, m₂) = (mem-concat_map _ edge refs).0 m₁ in
      let (right, in_right, m₃) = (mem-concat_map _ edge refs).0 m₂ in
      (
        relationship,
        left,
        right,
        in_graph,
        in_left,
        in_right,
        (mem-edges_between relationship left right edge).0 m₃,
      ),
  λ (relationship, left, right, in_graph, in_left, in_right, f).
      (mem-sorted candidate_key edge _).1 (
        (mem-concat_map _ edge graph).1 (
          relationship,
          in_graph,
          (mem-concat_map _ edge refs).1 (
            left,
            in_left,
            (mem-concat_map _ edge refs).1
                (right, in_right, (mem-edges_between relationship left right edge).1 f),
          ),
        )),
)
