-- ===== src/Config.antt =====
-- src/joinlint/config.py, `load_model` and `write_model` of src/joinlint/model.py.
--
-- The state is the text of the two YAML files of a project, or what `SafeProject.open_relative`
-- raises for them; `Text` is the type of such texts. `Yaml` stands for the `yaml` package, with pydantic's conversion of a document to
-- the fields of a class. The checks of the validators are here.
pub mod Path
pub mod Checks
pub mod Storable
pub mod Commands
pub mod RoundTrip
use joinlint.Prelude.{
  ℕ, String, Bool, true, false, not, ◌&&◌, Option, none, some, [], ◌∷◌, if◌then◌else◌, ◌==◌, all,
  contains, ltb,
}
use joinlint.Prelude.Dict.{Dict, get, put, keys, remove}
use joinlint.Errors.{Failure, Result, ok, err, failure, require, value_error}
use joinlint.Action.{Action, lift, modify, ◌>>=◌, ◌>>◌}
use joinlint.Model.{Entity, Relationship, ModelV1, valid_grain, valid_model_endpoint, valid_model}
use joinlint.Config.Path.{PurePosixPath, parse_path, safe_path, suffix, has_nul}

pub data SourceKind : Type 0 where
  csv_directory sqlite : SourceKind

abbrev pub kind_eq : SourceKind → SourceKind → Bool
kind_eq csv_directory csv_directory = true
kind_eq sqlite sqlite = true
kind_eq _ _ = false

-- A limit below 0 is refused like 0, and has no value here.
pub record Limits : Type 0 where
  pub max_source_bytes : ℕ
  pub max_scan_seconds : ℕ

abbrev pub default_limits : Limits
default_limits = record { max_source_bytes = 1073741824; max_scan_seconds = 60 }

-- `require_positive`
abbrev pub positive_limits : Limits → Bool
positive_limits l = ltb 0 l.max_source_bytes && ltb 0 l.max_scan_seconds

pub record SourceConfig : Type 0 where
  pub kind : SourceKind
  pub path : PurePosixPath
  pub limits : Limits

pub record ConfigV1 : Type 0 where
  pub sources : Dict SourceConfig

-- `not source_id or "\x00" in source_id`, negated
abbrev pub valid_source_id : String → Bool
valid_source_id source_id = not (source_id == "") && not (has_nul source_id)

-- The validators of the three classes, for a document in which each path is parsed.
abbrev pub valid_source : SourceConfig → Bool
valid_source s = safe_path s.path && positive_limits s.limits

abbrev pub valid_entry : String × SourceConfig → Bool
valid_entry (source_id, s) = valid_source_id source_id && valid_source s

abbrev pub valid_config : ConfigV1 → Bool
valid_config c = all valid_entry c.sources

-- Every validator of the model's document.
abbrev valid_model_document : ModelV1 → Bool
valid_model_document m =
    all (λ (e : String × Entity). valid_grain (e.1).grain) m.entities
    && all (λ (r : Relationship). valid_model_endpoint r.from && valid_model_endpoint r.to)
        m.relationships
    && valid_model m

-- A text that is not YAML reads as `none`, a document of another shape as `some none`.
pub record Yaml (Text : Type 0) : Type 0 where
  pub parse_config : Text → Option (Option ConfigV1)
  pub dump_config : ConfigV1 → Text
  pub parse_model : Text → Option (Option ModelV1)
  pub dump_model : ModelV1 → Text

pub record Project (Text : Type 0) : Type 0 where
  pub config_yaml : Result Text
  pub model_yaml : Result Text

abbrev pub duplicate_source : Failure
duplicate_source = failure "DUPLICATE_SOURCE_ID" "source ID already exists" 2

abbrev pub kind_mismatch : Failure
kind_mismatch = failure "SOURCE_KIND_MISMATCH" "source kind cannot change" 2

abbrev pub source_in_use : Failure
source_in_use = failure "SOURCE_IN_USE" "" 2

abbrev pub invalid_source : Failure
invalid_source = failure "INVALID_ARGUMENT" "source path or kind is invalid" 2

abbrev invalid_source_id : Failure
invalid_source_id = failure "INVALID_ARGUMENT" "source ID is invalid" 2

abbrev unreadable : String → Failure
unreadable code = failure code "YAML document is malformed" 2

abbrev pub malformed_config : Failure
malformed_config = failure "MALFORMED_CONFIG" "config.yaml does not match schema version 1" 2

abbrev malformed_model : Failure
malformed_model = failure "MALFORMED_MODEL" "model.yaml does not match schema version 1" 2

-- `_read_yaml`, and the validation of the document.
abbrev pub checked {ℓ} :
    {A : Type ℓ} → Failure → Failure → (A → Bool) → Option (Option A) → Result A
checked unreadable malformed is_valid none = err unreadable
checked unreadable malformed is_valid (some none) = err malformed
checked unreadable malformed is_valid (some (some document)) =
    if is_valid document then ok document else err malformed

-- `SourceConfig(kind=kind, path=path)`
unfoldable pub validate_source_argument : SourceKind → String → Result SourceConfig
validate_source_argument kind path =
    if not (has_nul path) && safe_path (parse_path path)
    then ok (record { kind = kind; path = parse_path path; limits = default_limits })
    else err invalid_source

abbrev pub source_kind_for_path : PurePosixPath → SourceKind
source_kind_for_path path = if suffix path == ".sqlite" then sqlite else csv_directory

-- `_validate_source_id`
abbrev pub validate_source_id : String → Result (Unit {0})
validate_source_id source_id = require (valid_source_id source_id) invalid_source_id

-- `ConfigV1(version=1, sources=sources)`, whose sources are objects and not checked again.
abbrev pub config_of : Dict SourceConfig → Result ConfigV1
config_of sources =
    if all valid_source_id (keys sources)
    then ok (record { sources = sources })
    else err value_error

abbrev is_of_source : String → String × Entity → Bool
is_of_source source_id (_, entity) = entity.source == source_id

-- `dependents`, without their names.
unfoldable pub in_use : String → Dict Entity → Bool
in_use source_id [] = false
in_use source_id ((entity_id, entity) ∷ es) =
    if entity.source == source_id then true else in_use source_id es

abbrev pub required {ℓ} : {A : Type ℓ} → Failure → Option A → Result A
required missing none = err missing
required missing (some a) = ok a

abbrev pub source_not_found : Failure
source_not_found = failure "SOURCE_NOT_FOUND" "source ID does not exist" 2

module _ {Text : Type 0} (yaml : Yaml Text) where
  unfoldable pub parsed_config : Result Text → Result ConfigV1
  parsed_config (err raised) = err raised
  parsed_config (ok written) =
      checked (unreadable "MALFORMED_CONFIG") malformed_config valid_config
        (yaml.parse_config written)

  unfoldable pub parsed_model : Result Text → Result ModelV1
  parsed_model (err raised) = err raised
  parsed_model (ok written) =
      checked (unreadable "MALFORMED_MODEL") malformed_model valid_model_document
        (yaml.parse_model written)

  abbrev pub load_config : Action (Project Text) ConfigV1
  load_config p = (parsed_config p.config_yaml, p)

  abbrev pub load_model : Action (Project Text) ModelV1
  load_model p = (parsed_model p.model_yaml, p)

  -- `write_yaml_atomically` of `config.yaml`
  abbrev pub write_config : ConfigV1 → Action (Project Text) (Unit {0})
  write_config c = modify (λ p. record p { config_yaml = ok (yaml.dump_config c) })

  abbrev pub write_model : ModelV1 → Action (Project Text) (Unit {0})
  write_model m = modify (λ p. record p { model_yaml = ok (yaml.dump_model m) })

  unfoldable pub add_source : String → String → SourceKind → Action (Project Text) (Unit {0})
  add_source source_id path kind = do
    config ← load_config
    lift (validate_source_id source_id)
    lift (require (not (contains source_id (keys config.sources))) duplicate_source)
    source ← lift (validate_source_argument kind path)
    updated ← lift (config_of (put source_id source config.sources))
    write_config updated

  unfoldable pub set_source_path : String → String → Action (Project Text) (Unit {0})
  set_source_path source_id path = do
    config ← load_config
    existing ← lift (required source_not_found (get source_id config.sources))
    argument ← lift (validate_source_argument existing.kind path)
    lift (require (kind_eq (source_kind_for_path argument.path) existing.kind) kind_mismatch)
    updated ←
        lift (config_of (put source_id (record existing { path = argument.path }) config.sources))
    write_config updated

  -- The message of `SOURCE_IN_USE`, which lists the entities, is left out.
  unfoldable pub remove_source : String → Action (Project Text) (Unit {0})
  remove_source source_id = do
    config ← load_config
    lift (require (contains source_id (keys config.sources)) source_not_found)
    model ← load_model
    lift (require (not (in_use source_id model.entities)) source_in_use)
    updated ← lift (config_of (remove source_id config.sources))
    write_config updated
