-- ===== src/Service/Contexts.antt =====
-- `_evidence` and `_contexts` of src/joinlint/runtime/service.py: the sources of a project with their
-- authorized relationships. The state is that of the evidence cache.
use joinlint.Prelude.{Option, none, some, List, [], ◌∷◌}
use joinlint.Prelude.Order.{text_ord}
use joinlint.Action.{Action, pure, lift, ◌>>=◌, ◌>>◌}
use joinlint.Domain.{
  SourceIdentity, SourceCatalog, EvidenceRecord, RelationshipSeed, policy_version, verifier_version,
}
use joinlint.Cache.{CacheState, evidence_selector, load_evidence_for, store_evidence}
use joinlint.Evidence.Definitions.{relationship_definitions}
use joinlint.Evidence.Verify.{verify_relationship}
use joinlint.Evidence.{build_authorized_graph}
use joinlint.Service.Inputs.{
  SqliteSnapshot, Environment, RuntimeContext, LegacyInputs, legacy_inputs, curated_for,
}

-- `if cached is not None: return cached`, and the statements after it.
abbrev pub unless_cached :
    Option EvidenceRecord → Action CacheState EvidenceRecord → Action CacheState EvidenceRecord
unless_cached (some cached) rest = pure cached
unless_cached none rest = rest

module _ (env : Environment) where
  abbrev pub cached_evidence :
      SqliteSnapshot → RelationshipSeed → Action CacheState (Option EvidenceRecord)
  cached_evidence snapshot seed =
      load_evidence_for env.hashing env.codecs seed.definition.relationship_id snapshot.snapshot_id
        seed.provenance verifier_version

  abbrev pub measured_evidence :
      SqliteSnapshot → SourceCatalog → RelationshipSeed → Action CacheState EvidenceRecord
  measured_evidence snapshot catalog seed = do
    r ←
        lift (
          verify_relationship env.hashing env.now snapshot.snapshot_id seed snapshot.execute
            catalog)
    store_evidence env.hashing env.codecs r
    pure r

  abbrev pub locked_evidence :
      SqliteSnapshot → SourceCatalog → RelationshipSeed → Action CacheState EvidenceRecord
  locked_evidence snapshot catalog seed = do
    cached ← cached_evidence snapshot seed
    unless_cached cached (measured_evidence snapshot catalog seed)

  -- `_evidence`
  unfoldable pub evidence_for :
      SqliteSnapshot → SourceCatalog → RelationshipSeed → Action CacheState EvidenceRecord
  evidence_for snapshot catalog seed = do
    selector ← lift (
        evidence_selector env.hashing env.codecs seed.definition.relationship_id
          snapshot.snapshot_id seed.provenance verifier_version)
    cached ← cached_evidence snapshot seed
    unless_cached cached (locked_evidence snapshot catalog seed)

  unfoldable pub evidence_of_seeds :
      SqliteSnapshot
      → SourceCatalog
      → List RelationshipSeed
      → Action CacheState (List EvidenceRecord)
  evidence_of_seeds snapshot catalog [] = pure []
  evidence_of_seeds snapshot catalog (seed ∷ seeds) = do
    r ← evidence_for snapshot catalog seed
    rs ← evidence_of_seeds snapshot catalog seeds
    pure (r ∷ rs)

  -- The body of the loop of `_contexts`.
  unfoldable pub context_of : LegacyInputs → SourceIdentity → Action CacheState RuntimeContext
  context_of inputs identity = do
    snapshot ← lift (env.snapshot_sqlite identity)
    catalog ← lift (env.extract_sqlite_catalog snapshot)
    seeds ← lift (
        relationship_definitions env.hashing env.without_suffix catalog inputs.model
          (curated_for inputs identity.relative_locator))
    evidence ← evidence_of_seeds snapshot catalog seeds
    graph ← lift (build_authorized_graph seeds evidence snapshot.snapshot_id policy_version)
    pure (record { identity = identity; snapshot = snapshot; catalog = catalog; graph = graph })

  unfoldable pub contexts_from :
      LegacyInputs → List SourceIdentity → Action CacheState (List RuntimeContext)
  contexts_from inputs [] = pure []
  contexts_from inputs (identity ∷ identities) = do
    context ← context_of inputs identity
    contexts ← contexts_from inputs identities
    pure (context ∷ contexts)

  -- `_contexts`
  unfoldable pub open_contexts : Action CacheState (List RuntimeContext)
  open_contexts = do
    identities ← lift env.locate_sqlite_sources
    inputs ← lift (legacy_inputs env)
    contexts_from inputs identities
