-- ===== src/Service/Current.antt =====
-- A plan of `get_join_plan` of src/joinlint/runtime/service.py is current.
use mathlib.Core.List.Memᴰ
use joinlint.Prelude.{
  Option-cases, ◌≡◌, refl, sym, ap, ◌∙◌, subst, inl, inr, List, [], ◌∷◌, Memᴰ, none, some,
  contains-map,
}
use joinlint.Errors.{Result, ok, require, >>=-eq-ok, require-eq-ok, value_error}
use joinlint.Action.{lift-eq-ok, then_run-eq-ok}
use joinlint.Domain.{
  AuthorizedRelationship, JoinProof, proof, ProofEdge, EntityRef, LifecycleStatus, body,
  alternatives, policy_version,
}
use joinlint.Cache.{CacheState, store_proof}
use joinlint.Planner.{CandidateEdge}
use joinlint.Planner.Candidates.{candidate_edges}
use joinlint.Planner.Candidates.Exact.{mem-candidate_edges}
use joinlint.Planner.Lifecycle.{proof_lifecycle-current, EvidenceAvailable}
use joinlint.Planner.Plan.{PlanRequest, predicates_of, proof_edge, collect, plan_join}
use joinlint.Planner.Plan.Sound.{IsJustified, plan_join-IsJustified}
use joinlint.Mcp.{GetJoinPlanRequest, GetJoinPlanResponse, valid_plan_response}
use joinlint.Service.Inputs.{Environment, RuntimeContext}
use joinlint.Service.Contexts.{open_contexts}
use joinlint.Service.Authorized.{IsAuthorized, open_contexts-IsAuthorized}
use joinlint.Service.Plan.{
  Match, resolve_refs, matching, only_match, resolve_plan_context, plan_request, evidence_ids_of,
  lifecycle_in, plan_response, get_join_plan, store_alternatives,
}

ok-inj {ℓ} : {A : Type ℓ} {a b : A} → ok a ≡ ok b → a ≡ b
ok-inj e = cc

mem-collect {ℓ κ} :
    {A : Type ℓ} {B : Type κ} (f : A → Result B) (xs : List A) {ys : List B}
    → collect f xs ≡ ok ys
    → (y : B) → Memᴰ y ys
    → (x : A) × Memᴰ x xs × (f x ≡ ok y)
unfolding collect
mem-collect f [] {ys} e y m = absurd (Memᴰ.not-nil (subst (λ l. Memᴰ y l) (sym (ok-inj e)) m))
mem-collect f (x ∷ xs) {ys} e y m =
    let (first, g, e₁) = >>=-eq-ok (f x) _ e in
    let (rest, r, e₂) = >>=-eq-ok (collect f xs) _ e₁ in
    elim (Memᴰ.cases_cons (subst (λ l. Memᴰ y l) (sym (ok-inj e₂)) m)) [
      | inl q ↦ (x, Memᴰ.head refl, g ∙ ap ok (sym q))
      | inr t ↦ let (z, n, h) = mem-collect f xs r y t in (z, Memᴰ.tail n, h)
    ]

proof_edge-evidence :
    (e : CandidateEdge) (p : ProofEdge)
    → proof_edge e ≡ ok p
    → p.evidence_id ≡ e.relationship.evidence.evidence_id
unfolding proof_edge
proof_edge-evidence e p h =
    let (predicates, _, e₁) = >>=-eq-ok (predicates_of _ _ _ _) _ h in
    let (_, e₂) = require-eq-ok _ value_error _ e₁ in
    ap (λ (x : ProofEdge). x.evidence_id) (sym (ok-inj e₂))

-- The relationship of a candidate edge is one of the graph.
candidate-relationship :
    (refs : List EntityRef) (graph : List AuthorizedRelationship) (e : CandidateEdge)
    → Memᴰ e (candidate_edges refs graph)
    → Memᴰ e.relationship graph
candidate-relationship refs graph e m =
    let (r, left, right, in_graph, _, _, follows) = (mem-candidate_edges refs graph e).0 m in
    elim follows.direction [ inl (_, _, q) ↦ rw q in_graph | inr (_, _, q) ↦ rw q in_graph ]

module _ (env : Environment) (context : RuntimeContext) (authorized : IsAuthorized context)
    (request : PlanRequest) (p : JoinProof)
    (justified : IsJustified request context.graph policy_version (body p)) where
  in_graph : (e : CandidateEdge) → Memᴰ e justified.tree → Memᴰ e.relationship context.graph
  in_graph e m =
      candidate-relationship request.entity_refs context.graph e
        (justified.spans.from_candidates e m)

  same_snapshot : (body p).snapshot_id ≡ context.snapshot.snapshot_id
  same_snapshot =
      let (e, m) = justified.joins in
      sym (justified.one_snapshot e m) ∙ (authorized e.relationship (in_graph e m)).current

  evidence-available : EvidenceAvailable (body p) (evidence_ids_of context.graph)
  evidence-available edge m =
      let (e, n, made) = mem-collect proof_edge justified.tree justified.edges edge m in
      rw (proof_edge-evidence e edge made) (
        contains-map (λ (r : AuthorizedRelationship). r.evidence.evidence_id) context.graph
          e.relationship (in_graph e n))

  justified-current : (lifecycle_in env context p).status ≡ LifecycleStatus.current
  justified-current =
      (proof_lifecycle-current (body p) context.snapshot.snapshot_id policy_version
          (evidence_ids_of context.graph) none env.now).0.1
        (same_snapshot, justified.policy, evidence-available)

mem-matching :
    (requested : List EntityRef) (contexts : List RuntimeContext) (m : Match)
    → Memᴰ m (matching requested contexts)
    → Memᴰ (m.0) contexts × (resolve_refs ((m.0).catalog) requested ≡ some m.1)
unfolding matching
mem-matching requested [] m h = absurd (Memᴰ.not-nil h)
mem-matching requested (c ∷ cs) m h = elim (Option-cases (resolve_refs c.catalog requested)) [
  | inl n ↦ let (there, found) = mem-matching requested cs m (rw n at h) in (Memᴰ.tail there, found)
  | inr (resolved, y) ↦ elim (Memᴰ.cases_cons (rw y at h)) [
    | inl q ↦ rw q (Memᴰ.head refl, y)
    | inr t ↦ let (there, found) = mem-matching requested cs m t in (Memᴰ.tail there, found)
  ]
]

only_match-mem : (ms : List Match) (m : Match) → only_match ms ≡ ok m → Memᴰ m ms
only_match-mem [] m e = cc
only_match-mem (n ∷ []) m e = Memᴰ.head (sym (ok-inj e))
only_match-mem (n ∷ o ∷ ms) m e = cc

-- The plan for a request, in the one context that knows its entities.
pub record IsCurrentPlan (env : Environment) (request : GetJoinPlanRequest)
    (contexts : List RuntimeContext) (context : RuntimeContext) (p : JoinProof) : Type 0 where
  pub is_open : Memᴰ context contexts
  pub authorized : IsAuthorized context
  pub resolved : List EntityRef
  pub resolves : resolve_refs context.catalog request.entity_refs ≡ some resolved
  pub justified : IsJustified (plan_request request resolved) context.graph policy_version (body p)
  pub is_current : (lifecycle_in env context p).status ≡ LifecycleStatus.current

plan_join-body :
    (env : Environment) (request : PlanRequest) (context : RuntimeContext) (p : JoinProof)
    → plan_join env.hashing env.now request context.graph policy_version context.catalog.entities
      ≡ ok p
    → IsJustified request context.graph policy_version (body p)
plan_join-body env request context (proof b others) e =
    plan_join-IsJustified env.hashing env.now request context.graph policy_version
      context.catalog.entities b others e

-- A response of `get_join_plan` carries a plan for the requested entities in an open context, made
-- of relationships whose evidence is of the context's snapshot, and the lifecycle that it reports is
-- current.
pub get_join_plan-IsCurrentPlan :
    (env : Environment) (request : GetJoinPlanRequest) (s s' : CacheState)
    (response : GetJoinPlanResponse)
    → get_join_plan env request s ≡ (ok response, s')
    → (contexts : List RuntimeContext) × (context : RuntimeContext) × (p : JoinProof)
      × ((open_contexts env s).0 ≡ ok contexts)
      × IsCurrentPlan env request contexts context p
      × (response ≡ plan_response env context p)
unfolding get_join_plan
get_join_plan-IsCurrentPlan env request s s' response e =
    let (contexts, s₁, opened, e₁) = then_run-eq-ok _ (open_contexts env s) e in
    let ((context, resolved), found, e₂) =
      lift-eq-ok _ (resolve_plan_context contexts request.entity_refs) s₁ e₁ in
    let (p, planned, e₃) =
      lift-eq-ok _
        (plan_join env.hashing env.now (plan_request request resolved) context.graph policy_version
          context.catalog.entities)
        s₁ e₂ in
    let (_, s₂, _, e₄) = then_run-eq-ok _ (store_proof env.hashing env.codecs p s₁) e₃ in
    let (_, s₃, _, e₅) = then_run-eq-ok _ (store_alternatives env (alternatives p) s₂) e₄ in
    let (_, _, e₆) =
      lift-eq-ok _ (require (valid_plan_response (plan_response env context p)) value_error) s₃
        e₅ in
    let here = only_match-mem (matching request.entity_refs contexts) (context, resolved) found in
    let (is_open, resolves) = mem-matching request.entity_refs contexts (context, resolved) here in
    let authorized = open_contexts-IsAuthorized env s s₁ contexts opened context is_open in
    let justified = plan_join-body env (plan_request request resolved) context p planned in
    (
      contexts,
      context,
      p,
      ap (λ (a : Result (List RuntimeContext) × CacheState). a.0) opened,
      record {
        is_open = is_open;
        authorized = authorized;
        resolved = resolved;
        resolves = resolves;
        justified = justified;
        is_current =
            justified-current env context authorized (plan_request request resolved) p justified;
      },
      sym (ok-inj (ap (λ (a : Result GetJoinPlanResponse × CacheState). a.0) e₆)),
    )
