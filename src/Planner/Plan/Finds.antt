-- ===== src/Planner/Plan/Finds.antt =====
-- `plan_join` of src/joinlint/runtime/planner.py finds a safe tree when the search for trees was not
-- cut off at its limit.
use joinlint.Prelude.{
  ℕ, ◌+◌, ◌<◌, String, ◌≡◌, ◌≢◌, refl, inl, inr, List, [], ◌∷◌, nat_eq, length, Memᴰ, All,
}
use joinlint.Errors.{Failure, failure, ok, err, Raises->>=, Raises-require}
use joinlint.Domain.{AuthorizedRelationship, EntityDefinition}
use joinlint.Domain.Json.{Hashing}
use joinlint.Planner.{CandidateEdge}
use joinlint.Planner.Candidates.{candidate_edges}
use joinlint.Planner.Grow.Tree.{Attached}
use joinlint.Planner.Grow.Complete.{IsDepth, spanning_trees-complete}
use joinlint.Planner.Safety.Decides.{IsSafe}
use joinlint.Planner.Plan.{
  PlanRequest, no_path, refs_of, checked_grain_ref, only_source, snapshot_ids_of, first_tree, only,
  plan_join,
}
use joinlint.Planner.Plan.Trees.{checked_grain_ref-Checked, trees_of, usable_trees_cases}
use joinlint.Planner.Plan.Returns.{collect-Raises, proof_for-Raises, with_alternatives-Raises}

-- The exception that says that there is no proof.
abbrev pub not_found : Failure
not_found = no_path "no current authorized join proof exists"

NotNotFound : Failure → Type 0
NotNotFound e = e ≢ not_found

spans-differs : NotNotFound (failure "EVIDENCE_UNVERIFIABLE" "proof evidence spans snapshots" 3)
unfolding NotNotFound
spans-differs q = cc

-- `tree` is a way to join the references of the request: it grows from the start, edge by edge, to
-- as many references as the request has, and no reference is deeper than the bound.
pub record IsJoin (request : PlanRequest) (graph : List AuthorizedRelationship)
    (tree : List CandidateEdge) : Type 0 where
  pub depth : String → ℕ
  pub root : depth request.start_ref ≡ 0
  pub attached : Attached (request.start_ref ∷ []) tree
  pub from_candidates : All (λ e. Memᴰ e (candidate_edges request.entity_refs graph)) tree
  pub shallow : IsDepth depth request.max_depth tree
  pub joins_all : 1 + length tree ≡ length (refs_of request.entity_refs)

-- If the search had fewer than four results, then a request with a tree that joins its references,
-- has at most one edge that fans out and keeps the grain of the expected reference is not refused
-- for lack of a proof.
pub plan_join-finds :
    (h : Hashing) (now : String) (request : PlanRequest) (graph : List AuthorizedRelationship)
    (policy_version : String) (definitions : List EntityDefinition) (expected source_id : String)
    (tree : List CandidateEdge)
    → checked_grain_ref request definitions ≡ ok expected
    → only_source graph ≡ ok source_id
    → length (trees_of request graph) < 4
    → IsJoin request graph tree
    → IsSafe expected tree
    → plan_join h now request graph policy_version definitions ≢ err not_found
unfolding plan_join NotNotFound
plan_join-finds h now request graph policy_version definitions expected source_id tree c s few j k =
    let checked = checked_grain_ref-Checked request definitions c in
    let found =
      spanning_trees-complete (length (refs_of request.entity_refs)) request.max_depth 4
        (candidate_edges request.entity_refs graph) request.start_ref j.depth tree j.root j.attached
        j.from_candidates j.shallow j.joins_all few in
    elim (usable_trees_cases request checked graph) [
      | inr (e, none_kept) ↦ absurd (none_kept tree found k)
      | inl (safe, e) ↦
          rw (c, s, e)
            (λ q.
              Raises-require NotNotFound (nat_eq (length (snapshot_ids_of (first_tree safe))) 1) _ _
                spans-differs
                (λ _.
                  Raises->>= NotNotFound _ _
                    (collect-Raises NotNotFound (λ x. cc) _ safe
                      (proof_for-Raises NotNotFound (λ x. cc) h now source_id
                        (only (snapshot_ids_of (first_tree safe))) policy_version
                        request.entity_refs request.start_ref expected request.max_depth))
                    (λ proofs _.
                      with_alternatives-Raises NotNotFound (λ x. cc) request.include_alternatives
                        proofs))
                not_found q refl)
    ]
