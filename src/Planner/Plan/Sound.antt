-- ===== src/Planner/Plan/Sound.antt =====
-- A plan that `plan_join` of src/joinlint/runtime/planner.py returns is one that the evidence
-- supports.
use mathlib.Core.List.Memᴰ
use mathlib.Core.Bool.{false≢true}
use joinlint.Prelude.{
  ℕ, suc, ◌≢◌, String, ◌≡◌, refl, sym, ap, ◌∙◌, subst, Bool, true, List, [], ◌∷◌, map, Memᴰ, arith,
  nat_eq, length, is_empty, eq_of_nat_eq, contains-map, contains_iff, not, distinct,
  distinct-contains, distinct_from,
}
use joinlint.Errors.{ok, Result, require-eq-ok, >>=-eq-ok}
use joinlint.Domain.{
  AuthorizedRelationship, EntityDefinition, EntityRef, proof, Alternatives, ProofBody, ProofEdge,
}
use joinlint.Domain.Valid.{valid_proof}
use joinlint.Domain.Json.{Hashing}
use joinlint.Planner.{CandidateEdge}
use joinlint.Planner.Plan.{
  PlanRequest, only_source, source_ids_of, snapshot_ids_of, first_tree, only, collect, proof_edge,
  proof_body, proof_for, usable_trees, with_alternatives, checked_grain_ref, plan_join, expected_of,
}
use joinlint.Planner.Plan.Trees.{ok-inj, Spans, checked_grain_ref-Checked, usable_trees_sound}
use joinlint.Planner.Safety.Decides.{IsSafe}

abbrev snapshot_of : CandidateEdge → String
snapshot_of e = e.relationship.evidence.snapshot_id

module _ (h : Hashing) (now source_id snapshot_id policy_version : String)
    (entity_refs : List EntityRef) (start_ref expected_grain_ref : String) (max_depth : ℕ) where
  proof_for-eq :
      (tree : List CandidateEdge) {body : ProofBody}
      → proof_for h now source_id snapshot_id policy_version entity_refs start_ref
          expected_grain_ref max_depth tree
        ≡ ok body
      → (edges : List ProofEdge) × (collect proof_edge tree ≡ ok edges)
        × (proof_body h now source_id snapshot_id policy_version entity_refs start_ref
              expected_grain_ref max_depth edges
            ≡ body)
  unfolding proof_for
  proof_for-eq tree e =
      let (edges, g, e₁) = >>=-eq-ok (collect proof_edge tree) _ e in
      let (valid, e₂) =
        require-eq-ok
          (valid_proof (
            proof_body h now source_id snapshot_id policy_version entity_refs start_ref
              expected_grain_ref max_depth edges))
          _ _ e₁ in
      (edges, g, ok-inj e₂)

-- What a proof shows of the request: a spanning tree of the requested references, with an edge, that
-- keeps the expected grain and has at most one edge that fans out, whose edges are the edges of the
-- proof, and whose evidence is of one snapshot.
pub record IsJustified (request : PlanRequest) (graph : List AuthorizedRelationship)
    (policy_version : String) (body : ProofBody) : Type 0 where
  pub tree : List CandidateEdge
  pub spans : Spans request graph tree
  pub safe : IsSafe (expected_of request) tree
  pub joins : (e : CandidateEdge) × Memᴰ e tree
  pub edges : collect proof_edge tree ≡ ok body.edges
  pub one_source :
      (r : AuthorizedRelationship) → Memᴰ r graph → r.definition.source_id ≡ body.source_id
  pub one_snapshot :
      (e : CandidateEdge) → Memᴰ e tree → e.relationship.evidence.snapshot_id ≡ body.snapshot_id
  pub grain : body.expected_grain_ref ≡ expected_of request
  pub policy : body.policy_version ≡ policy_version

not_one : (n : ℕ) → suc (suc n) ≢ 1
not_one n e = omega arith

-- The elements of a list whose set has one element.
only-eq :
    (xs : List String)
    → length (distinct xs) ≡ 1
    → (x : String) → Memᴰ x xs
    → x ≡ only (distinct xs)
only-eq xs n x m =
    is_only (distinct xs) n
      ((contains_iff x (distinct xs)).0 (distinct-contains x xs ((contains_iff x xs).1 m)))
  where
    is_only : (ys : List String) → length ys ≡ 1 → Memᴰ x ys → x ≡ only ys
    is_only [] e m = absurd (Memᴰ.not-nil m)
    is_only (y ∷ []) e m = Memᴰ.eq_of_singleton m
    is_only (y ∷ z ∷ ys) e m = absurd (not_one (length ys) e)

only_source-eq :
    (graph : List AuthorizedRelationship) {source_id : String}
    → only_source graph ≡ ok source_id
    → (r : AuthorizedRelationship) → Memᴰ r graph
    → r.definition.source_id ≡ source_id
unfolding only_source
only_source-eq graph h r m =
    let (nonempty, h₁) = require-eq-ok (not (is_empty (source_ids_of graph))) _ _ h in
    let (one, h₂) = require-eq-ok (nat_eq (length (source_ids_of graph)) 1) _ _ h₁ in
    only-eq (map source_of graph) (eq_of_nat_eq _ _ one) (source_of r)
      ((contains_iff _ _).0 (contains-map source_of graph r m))
    ∙ ok-inj h₂
  where
    source_of : AuthorizedRelationship → String
    source_of r = r.definition.source_id

same_snapshot :
    (tree : List CandidateEdge)
    → nat_eq (length (snapshot_ids_of tree)) 1 ≡ true
    → (e : CandidateEdge) → Memᴰ e tree
    → snapshot_of e ≡ only (snapshot_ids_of tree)
same_snapshot tree one e m =
    only-eq (map snapshot_of tree) (eq_of_nat_eq (length (snapshot_ids_of tree)) 1 one)
      (snapshot_of e)
      ((contains_iff (snapshot_of e) (map snapshot_of tree)).0 (contains-map snapshot_of tree e m))

some_edge :
    (tree : List CandidateEdge)
    → nat_eq (length (snapshot_ids_of tree)) 1 ≡ true
    → (e : CandidateEdge) × Memᴰ e tree
unfolding distinct distinct_from
some_edge [] one = absurd (false≢true one)
some_edge (e ∷ es) one = (e, Memᴰ.head refl)

-- The first of the proofs is that of the first tree.
first_proof :
    (f : List CandidateEdge → Result ProofBody) (include : Bool) (safe : List (List CandidateEdge))
    {proofs : List ProofBody} {body : ProofBody} {others : Alternatives}
    → collect f safe ≡ ok proofs
    → with_alternatives include proofs ≡ ok (proof body others)
    → Memᴰ (first_tree safe) safe × (f (first_tree safe) ≡ ok body)
unfolding collect
first_proof f include [] {proofs} {body} {others} e w = absurd (
    nothing
      (subst (λ ps. with_alternatives include ps ≡ ok (proof body others)) (sym (ok-inj e)) w))
  where
    nothing : with_alternatives include [] ≢ ok (proof body others)
    nothing h = cc
first_proof f include (t ∷ ts) {proofs} {body} {others} e w =
    let (y, f₁, e₁) = >>=-eq-ok (f t) _ e in
    let (ys, f₂, e₂) = >>=-eq-ok (collect f ts) _ e₁ in
    let q =
      subst (λ ps. with_alternatives include ps ≡ ok (proof body others)) (sym (ok-inj e₂)) w in
    (Memᴰ.head refl, f₁ ∙ ap (λ b. ok b) (body-inj (ok-inj q)))
  where
    body-inj : {a b : ProofBody} {x y : Alternatives} → proof a x ≡ proof b y → a ≡ b
    body-inj e = cc

-- A plan that `plan_join` returns comes from a tree of authorized relationships that joins every
-- requested reference to the start within the depth bound, keeps the grain of the expected
-- reference, has at most one edge that fans out, and rests on evidence of one snapshot of one
-- source; the plan's edges are the tree's.
pub plan_join-IsJustified :
    (h : Hashing) (now : String) (request : PlanRequest) (graph : List AuthorizedRelationship)
    (policy_version : String) (definitions : List EntityDefinition) (body : ProofBody)
    (others : Alternatives)
    → plan_join h now request graph policy_version definitions ≡ ok (proof body others)
    → IsJustified request graph policy_version body
unfolding plan_join
plan_join-IsJustified h now request graph policy_version definitions body others e =
    let (expected, c, e₁) = >>=-eq-ok (checked_grain_ref request definitions) _ e in
    let (source_id, s, e₂) = >>=-eq-ok (only_source graph) _ e₁ in
    let (safe, u, e₃) = >>=-eq-ok (usable_trees request expected graph) _ e₂ in
    let (one, e₄) = require-eq-ok (nat_eq (length (snapshot_ids_of (first_tree safe))) 1) _ _ e₃ in
    let (proofs, p, e₅) =
      >>=-eq-ok
        (collect
          (proof_for h now source_id (only (snapshot_ids_of (first_tree safe))) policy_version
            request.entity_refs request.start_ref expected request.max_depth)
          safe)
        _ e₄ in
    let (m, f) = first_proof _ request.include_alternatives safe p e₅ in
    let checked = checked_grain_ref-Checked request definitions c in
    let (spans, keeps) = usable_trees_sound request checked graph u (first_tree safe) m in
    let (edges, g, b) =
      proof_for-eq h now source_id (only (snapshot_ids_of (first_tree safe))) policy_version
        request.entity_refs request.start_ref expected request.max_depth (first_tree safe) f in
    record {
      tree = first_tree safe;
      joins = some_edge (first_tree safe) one;
      spans = spans;
      safe = subst (λ x. IsSafe x (first_tree safe)) checked.chosen keeps;
      edges = g ∙ ap (λ (p : ProofBody). ok p.edges) b;
      one_source = λ r r_m. only_source-eq graph s r r_m ∙ ap (λ (p : ProofBody). p.source_id) b;
      one_snapshot = λ x x_m.
          same_snapshot (first_tree safe) one x x_m ∙ ap (λ (p : ProofBody). p.snapshot_id) b;
      grain = sym (ap (λ (p : ProofBody). p.expected_grain_ref) b) ∙ checked.chosen;
      policy = sym (ap (λ (p : ProofBody). p.policy_version) b);
    }
