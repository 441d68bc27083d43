-- ===== src/Tests/Evidence.antt =====
-- The theorems about src/joinlint/runtime/evidence.py and the ids of src/joinlint/runtime/domain.py at
-- the sample.
use mathlib.Core.List.Memᴰ
use mathlib.Core.List.{Permᴰ}
use joinlint.Prelude.{
  ℕ, String, true, Option, none, some, List, [], ◌∷◌, ◌≡◌, refl, sym, ap, ◌∙◌, ◌≢◌, inl, inr, Memᴰ,
  ◌↔◌, contains, ◌==◌, ==_iff, if◌then◌else◌,
}
use joinlint.Prelude.Dict.{get, put, from_items}
use joinlint.Prelude.Sort.{sorted, KeysDistinct}
use joinlint.Prelude.Order.{text_le, text_ord, nat_ord, pair_ord}
use joinlint.Errors.{ok}
use joinlint.Domain.{
  AuthorizedRelationship, AuthorizationProjection, EvidenceRecord, Provenance, RelationshipSeed,
  RuntimeFinding, ProofEdge, exact, warning, blocking, verifier_version,
}
use joinlint.Domain.Text.{is_digest}
use joinlint.Domain.Json.{hash}
use joinlint.Domain.Ids.{plan_id_for, evidence_id_for, entity_ref_key, finding_key}
use joinlint.Domain.Ids.Order.{plan_id_for-perm, evidence_id_for-perm}
use joinlint.Evidence.{
  cardinality, findings, finding, finding_code, authorize, records_of, build_authorized_graph,
}
use joinlint.Evidence.Measure.{
  SqlParts, quote, sql_parts, counts, measure, child_rows_sql, parent_rows_sql,
  child_non_null_rows_sql, parent_non_null_rows_sql, child_distinct_sql, parent_distinct_sql,
  included_sql, largest_child_group_sql, largest_parent_group_sql,
}
use joinlint.Model.{ModelV1}
use joinlint.Evidence.Definitions.{
  curated, seed_between, seed_of_entities, add_curated, relationship_definitions,
}
use joinlint.Evidence.Definitions.Chosen.{AreChosen, relationship_definitions-AreChosen}
use joinlint.Evidence.Verify.{verify_relationship}
use joinlint.Evidence.Authorize.{IsUsable, authorize-IsUsable}
use joinlint.Evidence.Graph.{Grants, mem-build_authorized_graph}
use joinlint.Planner.Candidates.{forward_edge}
use joinlint.Planner.Plan.{edge_with}
use joinlint.Domain.{many_to_one}
use joinlint.Domain.Ids.{relationship_id_for}
use joinlint.Tests.{
  placed_by, sample_hashing, digest, catalog, seed, measured, authorized, order_ref, customer_ref,
}

abbrev child_keys : List (Option String)
child_keys = some "7" ∷ some "7" ∷ none ∷ []

abbrev parent_keys : List (Option String)
parent_keys = some "7" ∷ some "8" ∷ []

abbrev parts : SqlParts
parts = record {
  child_table = "\"orders\"";
  parent_table = "\"customers\"";
  child_non_null = "c.\"customer_id\" IS NOT NULL";
  parent_non_null = "p.\"id\" IS NOT NULL";
  equality = "c.\"customer_id\" = p.\"id\"";
  child_group = "c.\"customer_id\"";
  parent_group = "p.\"id\"";
}

-- The database with these tables.
abbrev pub execute : String → Option ℕ
execute statement =
    if statement == child_rows_sql parts
    then some 3
    else if statement == parent_rows_sql parts
    then some 2
    else if statement == child_non_null_rows_sql parts
    then some 2
    else if statement == parent_non_null_rows_sql parts
    then some 2
    else if statement == child_distinct_sql parts
    then some 1
    else if statement == parent_distinct_sql parts
    then some 2
    else if statement == included_sql parts
    then some 2
    else if statement == largest_child_group_sql parts
    then some 2
    else if statement == largest_parent_group_sql parts
    then some 1
    else none

abbrev null_warning : List RuntimeFinding
null_warning = finding "CHILD_KEY_NULL" warning ∷ []

abbrev pub verified : EvidenceRecord
verified = record {
  evidence_id = digest;
  relationship_id = digest;
  snapshot_id = digest;
  provenance = Provenance.declared;
  verifier_version = verifier_version;
  evidence_mode = exact;
  measurements = measured;
  findings = null_warning;
  verified_at = "now";
}

verified_now : verify_relationship sample_hashing "now" digest seed execute catalog ≡ ok verified
unfolding verify_relationship measure counts sql_parts quote cardinality findings sorted text_le get
    put from_items ◌==◌ is_digest hash evidence_id_for
verified_now = refl

authorize-IsUsable_example :
    (projected : AuthorizationProjection) × (authorize verified digest "policy" ≡ ok projected)
    × ((projected.usable ≡ true) ↔ IsUsable verified digest)
authorize-IsUsable_example = authorize-IsUsable verified digest "policy"

mem-build_authorized_graph_example :
    (graph : List AuthorizedRelationship) × (build_authorized_graph
        (seed ∷ [])
        (verified ∷ [])
        digest
        "policy"
      ≡ ok graph)
    × ((a : AuthorizedRelationship)
        → Memᴰ a graph ↔ (
            (s : RelationshipSeed) × Memᴰ s (seed ∷ [])
            × Grants digest "policy"
                (get s.definition.relationship_id (records_of (verified ∷ [])))
                s
                a))
mem-build_authorized_graph_example =
    mem-build_authorized_graph digest "policy" (seed ∷ []) (verified ∷ [])

-- Two items whose keys differ.
pair_distinct {ℓ} :
    {A : Type ℓ} (key : A → String) (a b : A)
    → key a ≢ key b
    → (x y : A) → Memᴰ x (a ∷ b ∷ [])
    → Memᴰ y (a ∷ b ∷ [])
    → key x ≡ key y
    → x ≡ y
pair_distinct key a b d x y m n q = elim (Memᴰ.cases_cons m) [
  | inl e ↦ elim (Memᴰ.cases_cons n) [
    | inl f ↦ e ∙ sym f
    | inr k ↦ absurd (d (ap key (sym e) ∙ q ∙ ap key (Memᴰ.eq_of_singleton k)))
  ]
  | inr l ↦ elim (Memᴰ.cases_cons n) [
    | inl f ↦ absurd (d (ap key (sym f) ∙ sym q ∙ ap key (Memᴰ.eq_of_singleton l)))
    | inr k ↦ Memᴰ.eq_of_singleton l ∙ sym (Memᴰ.eq_of_singleton k)
  ]
]

names_differ : entity_ref_key order_ref ≢ entity_ref_key customer_ref
unfolding ◌==◌
names_differ q = let t : ("o" == "c") ≡ true = (==_iff "o" "c").1 q in cc

refs_distinct : KeysDistinct entity_ref_key (order_ref ∷ customer_ref ∷ [])
refs_distinct = pair_distinct entity_ref_key order_ref customer_ref names_differ

abbrev edge : ProofEdge
edge = edge_with (forward_edge authorized order_ref customer_ref) []

plan_id_for-perm_example :
    plan_id_for sample_hashing "shop" digest "policy"
      (order_ref ∷ customer_ref ∷ [])
      "o"
      "o"
      2
      (edge ∷ [])
    ≡ plan_id_for sample_hashing "shop" digest "policy"
        (customer_ref ∷ order_ref ∷ [])
        "o"
        "o"
        2
        (edge ∷ [])
plan_id_for-perm_example =
    plan_id_for-perm sample_hashing "shop" digest "policy" "o" "o" 2 (Permᴰ.swap refl refl)
      refs_distinct (Permᴰ.cons refl Permᴰ.nil)
      (λ x y m n q. Memᴰ.eq_of_singleton m ∙ sym (Memᴰ.eq_of_singleton n))

abbrev orphan : RuntimeFinding
orphan = finding "ORPHAN_CHILD_ROW" blocking

abbrev null_key : RuntimeFinding
null_key = finding "CHILD_KEY_NULL" warning

findings_distinct : KeysDistinct finding_key (null_key ∷ orphan ∷ [])
findings_distinct x y m n q =
    pair_distinct finding_code null_key orphan (λ e. cc) x y m n
      (ap (λ (k : String × String). k.0) q)

evidence_id_for-perm_example :
    evidence_id_for sample_hashing digest digest Provenance.declared verifier_version measured
      (null_key ∷ orphan ∷ [])
    ≡ evidence_id_for sample_hashing digest digest Provenance.declared verifier_version measured
        (orphan ∷ null_key ∷ [])
evidence_id_for-perm_example =
    evidence_id_for-perm sample_hashing digest digest Provenance.declared verifier_version measured
      (Permᴰ.swap refl refl) findings_distinct

abbrev model : ModelV1
model = record {
  entities =
      ("o", record { source = "shop"; object = "orders"; grain = record { keys = "id" ∷ [] } })
      ∷ ("c", record { source = "shop"; object = "customers"; grain = record { keys = "id" ∷ [] } })
      ∷ [];
  relationships =
      record { id = "r"; from = "o.customer_id"; to = "c.id"; cardinality = many_to_one } ∷ [];
}

abbrev curated_seeds : List RelationshipSeed
curated_seeds =
    record {
      definition = placed_by;
      provenance = Provenance.curated;
      declared_cardinality = many_to_one;
    }
    ∷ []

defined :
    relationship_definitions sample_hashing (λ s. s) catalog (some model) ("shop" ∷ [])
    ≡ ok curated_seeds
unfolding relationship_definitions add_curated curated seed_of_entities seed_between
    relationship_id_for hash get put from_items contains sorted text_le ◌==◌
defined = refl

relationship_definitions-AreChosen_example :
    AreChosen sample_hashing (λ s. s) catalog (some model) ("shop" ∷ []) curated_seeds
relationship_definitions-AreChosen_example =
    relationship_definitions-AreChosen sample_hashing (λ s. s) catalog (some model) ("shop" ∷ [])
      curated_seeds defined
