-- ===== src/Service/Stored.antt =====
-- A plan that `get_join_plan` of src/joinlint/runtime/service.py returned is the one that
-- `validate_sql` uses under its id.
use joinlint.Prelude.{
  String, ◌≡◌, refl, sym, ap, ◌∙◌, subst, false, List, [], ◌∷◌, some, nat_eq, length,
}
use joinlint.Errors.{Result, ok, require, >>=-eq-ok, require-eq-ok, value_error}
use joinlint.Action.{lift-eq-ok, then_run-eq-ok}
use joinlint.Domain.{
  AuthorizedRelationship, EntityDefinition, JoinProof, nil, ProofBody, alternatives, policy_version,
}
use joinlint.Domain.Json.{Hashing}
use joinlint.Cache.{CacheState, store_proof, load_proof, plan_id_of}
use joinlint.Cache.View.{load-store}
use joinlint.Planner.Plan.{
  PlanRequest, checked_grain_ref, only_source, usable_trees, snapshot_ids_of, first_tree, only,
  collect, proof_for, with_alternatives, plan_join,
}
use joinlint.Mcp.{GetJoinPlanRequest, GetJoinPlanResponse, JoinPlanData, valid_plan_response}
use joinlint.Service.Inputs.{Environment}
use joinlint.Service.Contexts.{open_contexts}
use joinlint.Service.Plan.{
  resolve_plan_context, plan_request, plan_response, get_join_plan, store_alternatives,
}
use joinlint.Service.Validate.{proof_with}

ok-inj {ℓ} : {A : Type ℓ} {a b : A} → ok a ≡ ok b → a ≡ b
ok-inj e = cc

some-inj {ℓ} : {A : Type ℓ} {a b : A} → some a ≡ some b → a ≡ b
some-inj e = cc

-- Without the request for them, a plan has no alternatives.
with_alternatives-nil :
    (proofs : List ProofBody) (p : JoinProof)
    → with_alternatives false proofs ≡ ok p
    → alternatives p ≡ nil
with_alternatives-nil [] p e = cc
with_alternatives-nil (b ∷ others) p e = sym (ap alternatives (ok-inj e))

plan_join-nil :
    (h : Hashing) (now : String) (request : PlanRequest) (graph : List AuthorizedRelationship)
    (policy : String) (definitions : List EntityDefinition) (p : JoinProof)
    → request.include_alternatives ≡ false
    → plan_join h now request graph policy definitions ≡ ok p
    → alternatives p ≡ nil
unfolding plan_join
plan_join-nil h now request graph policy definitions p off e =
    let (expected, _, e₁) = >>=-eq-ok (checked_grain_ref request definitions) _ e in
    let (source_id, _, e₂) = >>=-eq-ok (only_source graph) _ e₁ in
    let (safe, _, e₃) = >>=-eq-ok (usable_trees request expected graph) _ e₂ in
    let (_, e₄) = require-eq-ok (nat_eq (length (snapshot_ids_of (first_tree safe))) 1) _ _ e₃ in
    let (proofs, _, e₅) =
      >>=-eq-ok
        (collect
          (proof_for h now source_id (only (snapshot_ids_of (first_tree safe))) policy
            request.entity_refs request.start_ref expected request.max_depth)
          safe)
        _ e₄ in
    with_alternatives-nil proofs p (subst (λ b. with_alternatives b proofs ≡ ok p) off e₅)

module _ (env : Environment) where
  found_again :
      (p : JoinProof) (s s' : CacheState)
      → env.codecs.proofs.decode (env.codecs.proofs.encode p) ≡ some p
      → store_proof env.hashing env.codecs p s ≡ (ok tt, s')
      → (load_proof env.hashing env.codecs (plan_id_of p) s').0 ≡ ok (some p)
  unfolding store_proof load_proof
  found_again p s s' back e =
      load-store env.codecs.proofs plan_id_of p s.proofs s'.proofs back
        (λ i. ((e i).0, ((e i).1).proofs))

  nothing_more :
      (p : JoinProof) (s s' : CacheState)
      → alternatives p ≡ nil
      → store_alternatives env (alternatives p) s ≡ (ok tt, s')
      → s ≡ s'
  unfolding store_alternatives
  nothing_more p s s' none_ e =
      ap (λ (a : Result (Unit {0}) × CacheState). a.1)
        (subst (λ a. store_alternatives env a s ≡ (ok tt, s')) none_ e)

  -- When a plan without alternatives was asked for and returned, and the proof that the response
  -- holds reads back as it was written, `_proof` then finds that proof under its id.
  pub proof_with-get_join_plan :
      (request : GetJoinPlanRequest) (s s' : CacheState) (response : GetJoinPlanResponse)
      (answer : JoinPlanData)
      → request.include_alternatives ≡ false
      → get_join_plan env request s ≡ (ok response, s')
      → response.data_ ≡ some answer
      → env.codecs.proofs.decode (env.codecs.proofs.encode answer.proof) ≡ some answer.proof
      → (proof_with env (some (plan_id_of answer.proof)) s').0 ≡ ok (some answer.proof)
  unfolding get_join_plan proof_with
  proof_with-get_join_plan request s s' response answer off e holds back =
      let (contexts, s₁, _, e₁) = then_run-eq-ok _ (open_contexts env s) e in
      let (found, _, e₂) = lift-eq-ok _ (resolve_plan_context contexts request.entity_refs) s₁ e₁ in
      let context = found.0 in
      let (p, planned, e₃) =
        lift-eq-ok _
          (plan_join env.hashing env.now (plan_request request found.1) context.graph policy_version
            context.catalog.entities)
          s₁ e₂ in
      let (u, s₂, stored, e₄) = then_run-eq-ok _ (store_proof env.hashing env.codecs p s₁) e₃ in
      let (v, s₃, more, e₅) = then_run-eq-ok _ (store_alternatives env (alternatives p) s₂) e₄ in
      let (_, _, e₆) =
        lift-eq-ok _ (require (valid_plan_response (plan_response env context p)) value_error) s₃
          e₅ in
      let none_ = plan_join-nil _ _ (plan_request request found.1) _ _ _ p off planned in
      let same : s₂ ≡ s' =
        nothing_more p s₂ s₃ none_ more
        ∙ ap (λ (a : Result GetJoinPlanResponse × CacheState). a.1) e₆ in
      let made : plan_response env context p ≡ response =
        ok-inj (ap (λ (a : Result GetJoinPlanResponse × CacheState). a.0) e₆) in
      let is_p : p ≡ answer.proof =
        ap (λ (d : JoinPlanData). d.proof)
          (some-inj (ap (λ (r : GetJoinPlanResponse). r.data_) made ∙ holds)) in
      let found_p : (load_proof env.hashing env.codecs (plan_id_of p) s').0 ≡ ok (some p) =
        subst (λ x. (load_proof env.hashing env.codecs (plan_id_of p) x).0 ≡ ok (some p)) same
          (found_again p s₁ s₂
            (subst (λ x. env.codecs.proofs.decode (env.codecs.proofs.encode x) ≡ some x) (sym is_p)
              back)
            stored) in
      subst (λ x. (proof_with env (some (plan_id_of x)) s').0 ≡ ok (some x)) is_p (rw found_p refl)
