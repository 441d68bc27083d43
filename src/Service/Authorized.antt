-- ===== src/Service/Authorized.antt =====
-- The contexts that src/joinlint/runtime/service.py opens hold only relationships with current
-- evidence.
use mathlib.Core.List.Memᴰ
use joinlint.Prelude.{String, ◌≡◌, sym, ap, ◌∙◌, subst, inl, inr, List, [], ◌∷◌, Memᴰ}
use joinlint.Errors.{Result, ok}
use joinlint.Action.{lift-eq-ok, then_run-eq-ok}
use joinlint.Domain.{
  AuthorizedRelationship, EvidenceRecord, RelationshipSeed, SourceIdentity, policy_version,
}
use joinlint.Cache.{CacheState}
use joinlint.Evidence.{build_authorized_graph}
use joinlint.Evidence.Authorize.{IsUsable}
use joinlint.Evidence.Definitions.{relationship_definitions}
use joinlint.Evidence.Graph.{mem-build_authorized_graph}
use joinlint.Service.Inputs.{Environment, RuntimeContext, LegacyInputs, legacy_inputs, curated_for}
use joinlint.Service.Contexts.{evidence_of_seeds, context_of, contexts_from, open_contexts}

-- The evidence of each relationship is of the snapshot, without a blocking finding.
abbrev pub IsAuthorized : RuntimeContext → Type 0
IsAuthorized c =
    (r : AuthorizedRelationship) → Memᴰ r c.graph → IsUsable r.evidence c.snapshot.snapshot_id

ok-inj {ℓ} : {A : Type ℓ} {a b : A} → ok a ≡ ok b → a ≡ b
ok-inj e = cc

built-IsUsable :
    (seeds : List RelationshipSeed) (evidence : List EvidenceRecord) (snapshot_id : String)
    (graph : List AuthorizedRelationship)
    → build_authorized_graph seeds evidence snapshot_id policy_version ≡ ok graph
    → (r : AuthorizedRelationship) → Memᴰ r graph
    → IsUsable r.evidence snapshot_id
built-IsUsable seeds evidence snapshot_id graph e r m =
    let (built, f, exact) = mem-build_authorized_graph snapshot_id policy_version seeds evidence in
    let here : Memᴰ r built = subst (λ g. Memᴰ r g) (ok-inj (sym e ∙ f)) m in
    let (seed, n, grants) = (exact r).0 here in rw grants.made grants.usable

module _ (env : Environment) where
  context_of-IsAuthorized :
      (inputs : LegacyInputs) (identity : SourceIdentity) (s s' : CacheState) (c : RuntimeContext)
      → context_of env inputs identity s ≡ (ok c, s')
      → IsAuthorized c
  unfolding context_of
  context_of-IsAuthorized inputs identity s s' c e =
      let (snapshot, _, e₁) = lift-eq-ok _ (env.snapshot_sqlite identity) s e in
      let (catalog, _, e₂) = lift-eq-ok _ (env.extract_sqlite_catalog snapshot) s e₁ in
      let (seeds, _, e₃) =
        lift-eq-ok _
          (relationship_definitions env.hashing env.without_suffix catalog inputs.model
            (curated_for inputs identity.relative_locator))
          s e₂ in
      let (evidence, s₄, _, e₄) =
        then_run-eq-ok _ (evidence_of_seeds env snapshot catalog seeds s) e₃ in
      let (graph, built, e₅) =
        lift-eq-ok _ (build_authorized_graph seeds evidence snapshot.snapshot_id policy_version) s₄
          e₄ in
      subst IsAuthorized (ok-inj (ap (λ (p : Result RuntimeContext × CacheState). p.0) e₅))
        (built-IsUsable seeds evidence snapshot.snapshot_id graph built)

  contexts_from-IsAuthorized :
      (inputs : LegacyInputs) (identities : List SourceIdentity) (s s' : CacheState)
      (contexts : List RuntimeContext)
      → contexts_from env inputs identities s ≡ (ok contexts, s')
      → (c : RuntimeContext) → Memᴰ c contexts
      → IsAuthorized c
  unfolding contexts_from
  contexts_from-IsAuthorized inputs [] s s' contexts e c m =
      let same : [] ≡ contexts =
        ok-inj (ap (λ (p : Result (List RuntimeContext) × CacheState). p.0) e) in
      absurd (Memᴰ.not-nil (subst (λ cs. Memᴰ c cs) (sym same) m))
  contexts_from-IsAuthorized inputs (identity ∷ identities) s s' contexts e c m =
      let (first, s₁, f, e₁) = then_run-eq-ok _ (context_of env inputs identity s) e in
      let (rest, s₂, g, e₂) = then_run-eq-ok _ (contexts_from env inputs identities s₁) e₁ in
      let same : (first ∷ rest) ≡ contexts =
        ok-inj (ap (λ (p : Result (List RuntimeContext) × CacheState). p.0) e₂) in
      elim (Memᴰ.cases_cons (subst (λ cs. Memᴰ c cs) (sym same) m)) [
        | inl q ↦ subst IsAuthorized (sym q) (context_of-IsAuthorized inputs identity s s₁ first f)
        | inr t ↦ contexts_from-IsAuthorized inputs identities s₁ s₂ rest g c t
      ]

  -- Every relationship of a context that is opened, whatever the cache holds, rests on evidence of
  -- the context's snapshot in which nothing blocks.
  pub open_contexts-IsAuthorized :
      (s s' : CacheState) (contexts : List RuntimeContext)
      → open_contexts env s ≡ (ok contexts, s')
      → (c : RuntimeContext) → Memᴰ c contexts
      → IsAuthorized c
  unfolding open_contexts
  open_contexts-IsAuthorized s s' contexts e =
      let (identities, _, e₁) = lift-eq-ok _ env.locate_sqlite_sources s e in
      let (inputs, _, e₂) = lift-eq-ok _ (legacy_inputs env) s e₁ in
      contexts_from-IsAuthorized inputs identities s s' contexts e₂
