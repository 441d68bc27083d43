-- ===== src/Tests.antt =====
-- A small source, with two tables joined by one relationship, on which the theorems about
-- src/joinlint/runtime are applied.
pub mod Contracts
pub mod Planner
pub mod Evidence
pub mod Sql
pub mod Cache
pub mod Config
pub mod Service
pub mod Validation
use joinlint.Prelude.{String, Bool, true, false, [], ◌∷◌}
use joinlint.Domain.{
  AuthorizationProjection, AuthorizedRelationship, ColumnDefinition, EntityDefinition, EntityRef,
  EvidenceMeasurements, EvidenceRecord, exact, Provenance, many_to_one, RelationshipDefinition,
  RelationshipSeed, SourceCatalog,
}
use joinlint.Domain.Json.{Hashing}

abbrev pub digest : String
digest = "0123456789abcdef0123456789abcdef0123456789abcdef0123456789abcdef"

abbrev pub sample_hashing : Hashing
sample_hashing = record { canonical_json = λ _. []; sha256 = λ _. digest }

abbrev pub column : String → Bool → ColumnDefinition
column name nullable = record {
  name = name;
  physical_type = "INTEGER";
  nullable = nullable;
  primary_key_position = 0;
  unique = false;
}

abbrev pub orders : EntityDefinition
orders = record {
  entity_id = "shop.orders";
  source_id = "shop";
  physical_name = "orders";
  columns = column "id" false ∷ column "customer_id" true ∷ [];
  primary_key = "id" ∷ [];
  unique_keys = [];
}

abbrev pub customers : EntityDefinition
customers = record {
  entity_id = "shop.customers";
  source_id = "shop";
  physical_name = "customers";
  columns = column "id" false ∷ [];
  primary_key = "id" ∷ [];
  unique_keys = [];
}

abbrev pub placed_by : RelationshipDefinition
placed_by = record {
  relationship_id = digest;
  source_id = "shop";
  child = record { entity_id = "shop.orders"; columns = "customer_id" ∷ [] };
  parent = record { entity_id = "shop.customers"; columns = "id" ∷ [] };
}

abbrev pub seed : RelationshipSeed
seed = record {
  definition = placed_by;
  provenance = Provenance.declared;
  declared_cardinality = many_to_one;
}

abbrev pub catalog : SourceCatalog
catalog = record {
  source_id = "shop";
  snapshot_id = digest;
  entities = orders ∷ customers ∷ [];
  declared_relationships = seed ∷ [];
}

-- Two orders of one customer, one order without a customer; two customers.
abbrev pub measured : EvidenceMeasurements
measured = record {
  child_row_count = 3;
  parent_row_count = 2;
  child_non_null_count = 2;
  child_null_count = 1;
  child_distinct_count = 1;
  parent_distinct_count = 2;
  inclusion_numerator = 2;
  inclusion_denominator = 2;
  orphan_count = 0;
  parent_unique = true;
  observed_cardinality = many_to_one;
  max_children_per_parent = 2;
  max_parents_per_child = 1;
}

abbrev pub evidence : EvidenceRecord
evidence = record {
  evidence_id = digest;
  relationship_id = digest;
  snapshot_id = digest;
  provenance = Provenance.declared;
  verifier_version = "sqlite-exact-v1";
  evidence_mode = exact;
  measurements = measured;
  findings = [];
  verified_at = "now";
}

abbrev pub granted_now : AuthorizationProjection
granted_now = record {
  policy_version = "policy";
  current = true;
  exact = true;
  usable = true;
  blocking_reasons = [];
}

abbrev pub authorized : AuthorizedRelationship
authorized = record {
  definition = placed_by;
  evidence = evidence;
  authorization = granted_now;
  declared_cardinality = many_to_one;
}

abbrev pub order_ref : EntityRef
order_ref = record { ref = "o"; entity = "shop.orders" }

abbrev pub customer_ref : EntityRef
customer_ref = record { ref = "c"; entity = "shop.customers" }
