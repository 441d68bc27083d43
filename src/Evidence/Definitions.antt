-- ===== src/Evidence/Definitions.antt =====
-- `relationship_definitions` of src/joinlint/runtime/evidence.py.
pub mod Curates
pub mod Loop
pub mod Chosen
use mathlib.Core.List.Memᴰ
use joinlint.Prelude.{
  String, ◌&&◌, Option, none, some, List, [], ◌∷◌, map, Memᴰ, if◌then◌else◌, contains,
}
use joinlint.Prelude.Order.{text_ord}
use joinlint.Prelude.Sort.{sorted}
use joinlint.Prelude.Dict.{Dict, get, put, from_items}
use joinlint.Errors.{Result, ok, ◌>>=◌}
use joinlint.Domain.{
  ColumnDefinition, EntityDefinition, Endpoint, Provenance, RelationshipSeed, SourceCatalog,
}
use joinlint.Domain.Json.{Hashing}
use joinlint.Domain.Ids.{relationship_id_for}
use joinlint.Model.{Entity, Relationship, ModelV1, endpoint_parts, entity_table_name}

abbrev pub column_names : EntityDefinition → List String
column_names entity = map (λ (c : ColumnDefinition). c.name) entity.columns

abbrev pub seed_id : RelationshipSeed → String
seed_id seed = seed.definition.relationship_id

module _ (h : Hashing) (without_suffix : String → String) (catalog : SourceCatalog) where
  abbrev pub by_physical : Dict EntityDefinition
  by_physical = from_items (λ (e : EntityDefinition). e.physical_name) (λ e. e) [] catalog.entities

  abbrev endpoint : EntityDefinition → String → Endpoint
  endpoint entity column = record { entity_id = entity.entity_id; columns = column ∷ [] }

  abbrev curated_seed :
      Relationship → EntityDefinition → String → EntityDefinition → String → RelationshipSeed
  curated_seed r child child_column parent parent_column = record {
    definition = record {
      relationship_id =
          relationship_id_for h catalog.source_id (endpoint child child_column)
            (endpoint parent parent_column);
      source_id = catalog.source_id;
      child = endpoint child child_column;
      parent = endpoint parent parent_column;
    };
    provenance = Provenance.curated;
    declared_cardinality = r.cardinality;
  }

  -- From the entities of the catalog on; `none` is `continue`.
  unfoldable pub seed_between :
      Relationship
      → Option EntityDefinition
      → String
      → Option EntityDefinition
      → String
      → Option RelationshipSeed
  seed_between r (some child) child_column (some parent) parent_column =
      if contains child_column (column_names child) && contains parent_column (column_names parent)
      then some (curated_seed r child child_column parent parent_column)
      else none
  seed_between r _ child_column _ parent_column = none

  -- From the entities of the model on.
  unfoldable pub seed_of_entities :
      List String
      → Relationship
      → Option Entity
      → String
      → Option Entity
      → String
      → Option RelationshipSeed
  seed_of_entities allowed r (some child) child_column (some parent) parent_column =
      if contains child.source allowed && contains parent.source allowed
      then seed_between r (get (entity_table_name without_suffix child "sqlite") by_physical)
          child_column (get (entity_table_name without_suffix parent "sqlite") by_physical)
          parent_column
      else none
  seed_of_entities allowed r _ child_column _ parent_column = none

  -- The seed that a relationship of the model adds, if any.
  unfoldable pub curated : ModelV1 → List String → Relationship → Result (Option RelationshipSeed)
  curated model allowed r = do
    child ← endpoint_parts r.from
    parent ← endpoint_parts r.to
    ok (
        seed_of_entities allowed r (get child.0 model.entities) child.1
          (get parent.0 model.entities) parent.1)

  abbrev pub put_seed : Option RelationshipSeed → Dict RelationshipSeed → Dict RelationshipSeed
  put_seed none by_id = by_id
  put_seed (some seed) by_id = put (seed_id seed) seed by_id

  -- The loop over the relationships of the model.
  unfoldable pub add_curated :
      ModelV1
      → List String
      → List Relationship
      → Dict RelationshipSeed
      → Result (Dict RelationshipSeed)
  add_curated model allowed [] by_id = ok by_id
  add_curated model allowed (r ∷ rs) by_id = do
    seed ← curated model allowed r
    add_curated model allowed rs (put_seed seed by_id)

  -- `tuple(by_id[key] for key in sorted(by_id))`
  abbrev pub entry_key : String × RelationshipSeed → String
  entry_key e = e.0

  abbrev pub entry_seed : String × RelationshipSeed → RelationshipSeed
  entry_seed e = e.1

  abbrev pub seeds_in_order : Dict RelationshipSeed → List RelationshipSeed
  seeds_in_order by_id = map entry_seed (sorted entry_key by_id)

  abbrev pub declared_by_id : Dict RelationshipSeed
  declared_by_id = from_items seed_id (λ s. s) [] catalog.declared_relationships

  unfoldable pub relationship_definitions :
      Option ModelV1 → List String → Result (List RelationshipSeed)
  relationship_definitions none curated_source_ids = ok (seeds_in_order declared_by_id)
  relationship_definitions (some model) curated_source_ids = do
    by_id ← add_curated model curated_source_ids model.relationships declared_by_id
    ok (seeds_in_order by_id)
