-- ===== src/Service/Inputs.antt =====
-- What a call of src/joinlint/runtime/service.py reads: `_legacy_inputs` and `_resolve_entity`.
--
-- `Environment` holds the SQLite sources with their catalogs, which
-- src/joinlint/runtime/sources.py reads, the files of the project, sqlglot's parser behind
-- `normalize_sql_graph`, and one reading of the clock. `fuel` bounds the search of
-- `validate_sql_graph`.
use joinlint.Prelude.{
  ℕ, String, Bool, true, false, ◌&&◌, Option, none, some, List, [], ◌∷◌, ◌++◌, map, if◌then◌else◌,
  ◌==◌, keep_if,
}
use joinlint.Prelude.Order.{text_ord}
use joinlint.Prelude.Sort.{sorted}
use joinlint.Prelude.Dict.{Dict, get, put}
use joinlint.Errors.{Result, ok, ◌>>=◌}
use joinlint.Domain.{
  SourceIdentity, SourceCatalog, EntityDefinition, AuthorizedRelationship, NormalizedJoinGraph,
}
use joinlint.Domain.Json.{Hashing}
use joinlint.Model.{ModelV1}
use joinlint.Config.{
  ConfigV1, SourceConfig, sqlite, kind_eq, Yaml, Project, parsed_config, parsed_model,
}
use joinlint.Config.Path.{as_posix, from_last_dot}
use joinlint.Cache.{Codecs}

pub record SqliteSnapshot : Type 0 where
  pub snapshot_id : String
  pub execute : String → Option ℕ

pub record Environment : Type 0 where
  pub locate_sqlite_sources : Result (List SourceIdentity)
  pub snapshot_sqlite : SourceIdentity → Result SqliteSnapshot
  pub extract_sqlite_catalog : SqliteSnapshot → Result SourceCatalog
  pub exists_relative : String → Result Bool
  pub project : Project String
  pub yaml : Yaml String
  pub without_suffix : String → String
  pub hashing : Hashing
  pub codecs : Codecs
  pub now : String
  pub normalize_sql_graph : String → SourceCatalog → String → Result NormalizedJoinGraph
  pub fuel : ℕ

pub record RuntimeContext : Type 0 where
  pub identity : SourceIdentity
  pub snapshot : SqliteSnapshot
  pub catalog : SourceCatalog
  pub graph : List AuthorizedRelationship

pub record LegacyInputs : Type 0 where
  pub model : Option ModelV1
  pub curated_by_locator : Dict (List String)

abbrev no_inputs : LegacyInputs
no_inputs = record { model = none; curated_by_locator = [] }

abbrev or_empty {ℓ} : {A : Type ℓ} → Option (List A) → List A
or_empty none = []
or_empty (some xs) = xs

-- `by_locator.setdefault(locator, []).append(source_id)`
abbrev append_at : Dict (List String) → String → String → Dict (List String)
append_at by_locator locator source_id =
    put locator (or_empty (get locator by_locator) ++ (source_id ∷ [])) by_locator

abbrev add_locator : String → SourceConfig → Dict (List String) → Dict (List String)
add_locator source_id source by_locator =
    if kind_eq source.kind sqlite
    then append_at by_locator (as_posix source.path) source_id
    else by_locator

unfoldable pub by_locator_from : Dict (List String) → Dict SourceConfig → Dict (List String)
by_locator_from by_locator [] = by_locator
by_locator_from by_locator ((source_id, source) ∷ sources) =
    by_locator_from (add_locator source_id source by_locator) sources

abbrev text_itself : String → String
text_itself value = value

abbrev ids_in_order : String × List String → String × List String
ids_in_order (locator, source_ids) = (locator, sorted text_itself source_ids)

abbrev curated_ids_by_locator : ConfigV1 → Dict (List String)
curated_ids_by_locator config = map ids_in_order (by_locator_from [] config.sources)

-- What `rsplit(".", 1)[-1]` leaves of a text.
abbrev without_first : String → String
without_first String.[] = ""
without_first (String.◌∷◌ c s) = s

abbrev after_last_dot : String → String
after_last_dot value = elim (from_last_dot value) [ none ↦ value | some rest ↦ without_first rest ]

abbrev first_entity : List EntityDefinition → Option String
first_entity [] = none
first_entity (e ∷ es) = some e.entity_id

abbrev only_entity : List EntityDefinition → Option String
only_entity (e ∷ []) = some e.entity_id
only_entity _ = none

abbrev or_else {ℓ} : {A : Type ℓ} → Option A → Option A → Option A
or_else none other = other
or_else (some a) other = some a

unfoldable pub resolve_entity : SourceCatalog → String → Option String
resolve_entity catalog requested =
    or_else
      (first_entity (keep_if (λ (e : EntityDefinition). e.entity_id == requested) catalog.entities))
      (only_entity (
        keep_if (λ (e : EntityDefinition). e.physical_name == after_last_dot requested)
          catalog.entities))

-- `curated_by_locator.get(locator, ())`
abbrev pub curated_for : LegacyInputs → String → List String
curated_for inputs locator = or_empty (get locator inputs.curated_by_locator)

module _ (env : Environment) where
  abbrev load_inputs : Result LegacyInputs
  load_inputs = do
    config ← parsed_config env.yaml env.project.config_yaml
    model ← parsed_model env.yaml env.project.model_yaml
    ok (record { model = some model; curated_by_locator = curated_ids_by_locator config })

  abbrev inputs_in : Bool → Result LegacyInputs
  inputs_in false = ok no_inputs
  inputs_in true = do
    has_config ← env.exists_relative ".joinlint/config.yaml"
    has_model ← env.exists_relative ".joinlint/model.yaml"
    if has_config && has_model then load_inputs else ok no_inputs

  -- `_legacy_inputs`
  unfoldable pub legacy_inputs : Result LegacyInputs
  legacy_inputs = do present ← env.exists_relative ".joinlint"; inputs_in present
