-- ===== src/Planner/Plan/Returns.antt =====
-- How the proofs of the safe trees in `plan_join` of src/joinlint/runtime/planner.py fail.
use joinlint.Prelude.{ℕ, String, Bool, List, [], ◌∷◌}
use joinlint.Errors.{
  Failure, value_error, Result, Raises, Raises-ok, Raises-err, Raises->>=, Raises-require,
}
use joinlint.Domain.{EntityRef, ProofBody}
use joinlint.Domain.Json.{Hashing}
use joinlint.Domain.Valid.{valid_proof, valid_proof_edge}
use joinlint.Planner.{CandidateEdge}
use joinlint.Planner.Plan.{
  predicates_of, edge_with, proof_edge, collect, proof_body, proof_for, with_alternatives,
}

-- What a set of exceptions contains when every step of a proof may raise one of them.
module _ {κ} (P : Failure → Type κ) (ill : P value_error) where
  predicates_of-Raises : (c p : String) (xs ys : List String) → Raises P (predicates_of c p xs ys)
  unfolding predicates_of
  predicates_of-Raises c p [] [] = Raises-ok P []
  predicates_of-Raises c p (x ∷ xs) (y ∷ ys) =
      Raises->>= P (predicates_of c p xs ys) _ (predicates_of-Raises c p xs ys)
        (λ r _. Raises-ok P _)
  predicates_of-Raises c p [] (y ∷ ys) = Raises-err P value_error ill
  predicates_of-Raises c p (x ∷ xs) [] = Raises-err P value_error ill

  proof_edge-Raises : (e : CandidateEdge) → Raises P (proof_edge e)
  unfolding proof_edge
  proof_edge-Raises e =
      Raises->>= P
        (predicates_of _ _ e.relationship.definition.child.columns
          e.relationship.definition.parent.columns)
        _ (predicates_of-Raises _ _ _ _)
        (λ ps _.
          Raises-require P (valid_proof_edge (edge_with e ps)) value_error _ ill
            (λ _. Raises-ok P _))

  pub collect-Raises {ℓ μ} :
      {A : Type ℓ} {B : Type μ} (f : A → Result B) (xs : List A)
      → ((x : A) → Raises P (f x))
      → Raises P (collect f xs)
  unfolding collect
  collect-Raises f [] r = Raises-ok P []
  collect-Raises f (x ∷ xs) r =
      Raises->>= P (f x) _ (r x)
        (λ y _. Raises->>= P (collect f xs) _ (collect-Raises f xs r) (λ ys _. Raises-ok P _))

  pub with_alternatives-Raises :
      (include : Bool) (proofs : List ProofBody) → Raises P (with_alternatives include proofs)
  with_alternatives-Raises include [] = Raises-err P value_error ill
  with_alternatives-Raises include (b ∷ bs) = Raises-ok P _

  module _ (h : Hashing) (now source_id snapshot_id policy_version : String)
      (entity_refs : List EntityRef) (start_ref expected_grain_ref : String) (max_depth : ℕ) where
    pub proof_for-Raises :
        (tree : List CandidateEdge)
        → Raises P (
            proof_for h now source_id snapshot_id policy_version entity_refs start_ref
              expected_grain_ref max_depth tree)
    unfolding proof_for
    proof_for-Raises tree =
        Raises->>= P (collect proof_edge tree) _ (collect-Raises proof_edge tree proof_edge-Raises)
          (λ edges _.
            Raises-require P
              (valid_proof (
                proof_body h now source_id snapshot_id policy_version entity_refs start_ref
                  expected_grain_ref max_depth edges))
              value_error _ ill (λ _. Raises-ok P _))
