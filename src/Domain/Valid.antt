-- ===== src/Domain/Valid.antt =====
-- The validators of src/joinlint/runtime/domain.py: each test says what a model accepts, and its
-- `false` is a `ValidationError` of the constructor.
use joinlint.Prelude.{
  ℕ, ◌+◌, String, Bool, true, false, not, ◌&&◌, Option, none, some, List, [], ◌∷◌, ltb, leb, nat_eq,
  if◌then◌else◌, ◌==◌, length, is_empty, all, any, map, contains, distinct, subset,
}
use joinlint.Domain.Text.{codes, text_length, between, is_digest, is_identifier, is_bounded_text}
use joinlint.Domain.{
  RuntimeFinding, Severity, SourceIdentity, SourceSnapshot, ColumnDefinition, EntityDefinition,
  Endpoint, RelationshipDefinition, RelationshipSeed, SourceCatalog, EvidenceMeasurements,
  EvidenceRecord, AuthorizationProjection, AuthorizedRelationship, EntityRef, ProofEdge, ProofBody,
  LifecycleStatus, ProofLifecycleProjection, Decision, SqlValidationOutcome,
}

-- `value.split(sep)`
split_at : ℕ → List ℕ → List (List ℕ)
split_at sep [] = [] ∷ []
split_at sep (c ∷ cs) = elim (split_at sep cs) [
  | [] ↦ []
  | w ∷ ws ↦ if nat_eq c sep then [] ∷ w ∷ ws else (c ∷ w) ∷ ws
]

codes_eq : List ℕ → List ℕ → Bool
codes_eq [] [] = true
codes_eq (x ∷ xs) (y ∷ ys) = nat_eq x y && codes_eq xs ys
codes_eq _ _ = false

starts_with : List ℕ → List ℕ → Bool
starts_with [] s = true
starts_with (p ∷ ps) [] = false
starts_with (p ∷ ps) (c ∷ cs) = nat_eq p c && starts_with ps cs

-- A bounded path relative to the project: not absolute, not of the home directory, with no
-- backslash, no NUL and no component "..".
unfoldable pub is_relative_locator : String → Bool
unfolding split_at codes_eq starts_with
is_relative_locator value =
    let cs = codes value in
    not (is_empty cs)
    && not (starts_with (codes "/") cs)
    && not (starts_with (codes "~/") cs)
    && all (λ c. not (nat_eq c 92) && ltb 0 c) cs
    && not (any (codes_eq (codes "..")) (split_at b'/' cs))
    && leb (text_length value) 512

abbrev pub valid_finding : RuntimeFinding → Bool
valid_finding f = is_identifier f.code

abbrev pub valid_source_identity : SourceIdentity → Bool
valid_source_identity s =
    is_identifier s.source_id
    && is_digest s.boundary_digest
    && is_relative_locator s.relative_locator

abbrev pub valid_source_snapshot : SourceSnapshot → Bool
valid_source_snapshot s =
    is_identifier s.source_id
    && is_digest s.snapshot_id
    && is_digest s.schema_digest
    && is_digest s.content_digest

abbrev pub valid_column : ColumnDefinition → Bool
valid_column c = is_bounded_text c.name && is_bounded_text c.physical_type

-- `len(names) == len(set(names))`
abbrev pub all_distinct : List String → Bool
all_distinct names = nat_eq (length names) (length (distinct names))

abbrev pub valid_entity : EntityDefinition → Bool
valid_entity e =
    let names = map (λ (c : ColumnDefinition). c.name) e.columns in
    is_identifier e.entity_id
    && is_identifier e.source_id
    && not (is_empty names)
    && all_distinct names
    && subset e.primary_key names
    && all (λ key. subset key names) e.unique_keys

abbrev pub valid_endpoint : Endpoint → Bool
valid_endpoint e =
    is_identifier e.entity_id
    && not (is_empty e.columns)
    && all_distinct e.columns
    && all is_bounded_text e.columns

abbrev pub valid_relationship : RelationshipDefinition → Bool
valid_relationship r =
    is_digest r.relationship_id
    && is_identifier r.source_id
    && valid_endpoint r.child
    && valid_endpoint r.parent
    && nat_eq (length r.child.columns) (length r.parent.columns)

abbrev pub valid_catalog : SourceCatalog → Bool
valid_catalog c =
    let ids = map (λ (e : EntityDefinition). e.entity_id) c.entities in
    not (is_empty ids)
    && all_distinct ids
    && all_distinct
        (map (λ (s : RelationshipSeed). s.definition.relationship_id) c.declared_relationships)

-- The counts are not negative by their type.
abbrev pub valid_measurements : EvidenceMeasurements → Bool
valid_measurements m =
    nat_eq (m.child_non_null_count + m.child_null_count) m.child_row_count
    && nat_eq m.inclusion_denominator m.child_non_null_count
    && nat_eq (m.inclusion_numerator + m.orphan_count) m.inclusion_denominator

abbrev pub valid_evidence : EvidenceRecord → Bool
valid_evidence r = is_digest r.evidence_id && is_digest r.relationship_id && is_digest r.snapshot_id

abbrev pub bool_eq : Bool → Bool → Bool
bool_eq true b = b
bool_eq false b = not b

abbrev pub valid_authorization : AuthorizationProjection → Bool
valid_authorization a = bool_eq a.usable (a.current && a.exact && is_empty a.blocking_reasons)

abbrev pub valid_authorized : AuthorizedRelationship → Bool
valid_authorized a =
    a.definition.relationship_id == a.evidence.relationship_id && a.authorization.usable

abbrev pub valid_entity_ref : EntityRef → Bool
valid_entity_ref r = is_identifier r.ref && is_identifier r.entity

abbrev pub valid_proof_edge : ProofEdge → Bool
valid_proof_edge e =
    is_identifier e.from_ref
    && is_identifier e.to_ref
    && is_digest e.relationship_id
    && is_digest e.evidence_id
    && nat_eq (length e.predicates) (length e.child.columns)

abbrev pub valid_proof : ProofBody → Bool
valid_proof p =
    let refs = map (λ (r : EntityRef). r.ref) p.entity_refs in
    is_digest p.plan_id
    && is_digest p.snapshot_id
    && between 1 4 p.max_depth
    && between 2 8 (length refs)
    && all_distinct refs
    && contains p.start_ref refs
    && contains p.expected_grain_ref refs
    && not (is_empty p.edges)

abbrev is_current : LifecycleStatus → Bool
is_current LifecycleStatus.current = true
is_current LifecycleStatus.stale = false
is_current LifecycleStatus.unverifiable = false

abbrev pub is_none {ℓ} : {A : Type ℓ} → Option A → Bool
is_none none = true
is_none (some _) = false

abbrev pub valid_lifecycle : ProofLifecycleProjection → Bool
valid_lifecycle p = bool_eq (is_current p.status) (is_none p.reason)

abbrev pub is_blocking : Severity → Bool
is_blocking Severity.info = false
is_blocking Severity.warning = false
is_blocking Severity.blocking = true

abbrev pub is_block : Decision → Bool
is_block Decision.pass = false
is_block Decision.block = true

abbrev pub valid_outcome : SqlValidationOutcome → Bool
valid_outcome o =
    bool_eq (is_block o.decision) (any (λ (f : RuntimeFinding). is_blocking f.severity) o.findings)
