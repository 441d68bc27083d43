-- ===== src/Model.antt =====
-- The curated model of src/joinlint/model.py: its types, the checks of its validators, and
-- `entity_table_name`. `without_suffix` stands for `PurePosixPath(...).with_suffix("").as_posix()`.
use joinlint.Prelude.{
  String, Bool, true, false, not, ◌&&◌, Option, none, some, List, [], ◌∷◌, nat_eq, if◌then◌else◌,
  ◌==◌, length, all, contains,
}
use joinlint.Prelude.Dict.{Dict, keys}
use joinlint.Errors.{value_error, Result, ok, err}
use joinlint.Domain.{Cardinality}

pub record Grain : Type 0 where
  pub keys : List String

pub record Entity : Type 0 where
  pub source : String
  pub object : String
  pub grain : Grain

pub record Relationship : Type 0 where
  pub id : String
  pub from : String
  pub to : String
  pub cardinality : Cardinality

pub record ModelV1 : Type 0 where
  pub entities : Dict Entity
  pub relationships : List Relationship

-- `value.split(".", maxsplit=1)`; `none` is one part.
abbrev pub split_once : String → Option (String × String)
split_once String.[] = none
split_once (String.◌∷◌ c s) =
    if String.◌∷◌ c String.[] == "."
    then some ("", s)
    else elim (split_once s) [ none ↦ none | some (a, b) ↦ some (String.◌∷◌ c a, b) ]

-- `a, b = value.split(".", maxsplit=1)`
abbrev pub endpoint_parts : String → Result (String × String)
endpoint_parts value = elim (split_once value) [ none ↦ err value_error | some parts ↦ ok parts ]

abbrev two_parts : Option (String × String) → Bool
two_parts none = false
two_parts (some (a, b)) = elim (split_once b) [
  | none ↦ not (a == "") && not (b == "")
  | some _ ↦ false
]

-- Exactly one dot, and both parts are not empty.
abbrev pub valid_model_endpoint : String → Bool
valid_model_endpoint value = two_parts (split_once value)

abbrev pub valid_grain : Grain → Bool
valid_grain g = nat_eq (length g.keys) 1 && all (λ key. not (key == "")) g.keys

-- `entity_id in self.entities`
abbrev known_entity : List String → Option (String × String) → Bool
known_entity entities none = false
known_entity entities (some (entity_id, _)) = contains entity_id entities

-- The loop over the relationships, with the ids that were seen.
unfoldable pub valid_relationships : List String → List String → List Relationship → Bool
valid_relationships entities seen [] = true
valid_relationships entities seen (r ∷ rs) =
    not (r.id == "")
    && not (contains r.id seen)
    && known_entity entities (split_once r.from)
    && known_entity entities (split_once r.to)
    && valid_relationships entities (r.id ∷ seen) rs

abbrev pub valid_model : ModelV1 → Bool
valid_model m = valid_relationships (keys m.entities) [] m.relationships

abbrev pub entity_table_name : (String → String) → Entity → String → String
entity_table_name without_suffix entity source_kind =
    if source_kind == "csv_directory" then without_suffix entity.object else entity.object
