-- ===== src/Validation.antt =====
-- src/joinlint/validation.py: a relationship of the curated model against the values of a source.
--
-- The catalog is that of src/joinlint/scanner.py. A value is its text, or `none` for NULL.
-- `normalize_value` of src/joinlint/candidates.py, which formats decimals, and the values that it is
-- applied to are fields of `ValueSource`, and so is `without_suffix` of Python's paths. `Finding` of
-- src/joinlint/contracts.py has the fields of `RuntimeFinding`.
pub mod Counts
pub mod Passes
use joinlint.Prelude.{
  ℕ, ◌+◌, ◌-◌, String, Bool, true, false, not, ◌&&◌, ◌||◌, Option, none, some, List, [], ◌∷◌, ◌++◌,
  map, if◌then◌else◌, ◌==◌, length, count_if, keep_if, contains, concat_map, distinct, leb, ltb,
  nat_eq, find,
}
use joinlint.Prelude.Order.{text_ord}
use joinlint.Prelude.Sort.{sorted}
use joinlint.Prelude.Dict.{Dict, get, put, from_items}
use joinlint.Errors.{Failure, key_error, Result, ok, err, failure, ◌>>=◌}
use joinlint.Domain.{
  Cardinality, one_to_one, one_to_many, many_to_one, many_to_many, RuntimeFinding, blocking,
  warning,
}
use joinlint.Domain.Ids.{cardinality_text}
use joinlint.Domain.Json.{Hashing, obj, field, end, text}
use joinlint.Evidence.{finding, finding_code, when, is_many_to_many}
use joinlint.Model.{Entity, Relationship, ModelV1, endpoint_parts, entity_table_name}

pub record ColumnProfile : Type 0 where
  pub name : String
  pub physical_type : String
  pub null_count : ℕ
  pub distinct_count : ℕ
  pub is_unique : Bool

pub record TableProfile : Type 0 where
  pub name : String
  pub row_count : ℕ
  pub columns : List ColumnProfile

pub record ScanCatalog : Type 0 where
  pub source_id : String
  pub tables : List TableProfile

pub record ValueSource : Type 0 where
  pub source_id : String
  pub kind : String
  pub values : Dict (Dict (List (Option String)))
  pub normalize_value : String → String → String
  pub without_suffix : String → String

pub record ValidationResult : Type 0 where
  pub relationship_id : String
  pub relationship_digest : String
  pub observed_cardinality : Cardinality
  pub from_rows_per_to : ℕ
  pub to_rows_per_from : ℕ
  pub findings : List RuntimeFinding

abbrev or_key_error {ℓ} : {A : Type ℓ} → Option A → Result A
or_key_error none = err key_error
or_key_error (some a) = ok a

-- `table.column(name)` and `catalog.table(name)`
abbrev column_of : TableProfile → String → Result ColumnProfile
column_of t name = or_key_error (find (λ (c : ColumnProfile). c.name == name) t.columns)

abbrev table_of : ScanCatalog → String → Result TableProfile
table_of catalog name = or_key_error (find (λ (t : TableProfile). t.name == name) catalog.tables)

abbrev missing : String → Failure
missing message = failure "MODEL_REFERENCE_MISSING" message 2

-- `except KeyError`
abbrev or_missing {ℓ} : {A : Type ℓ} → Result A → Result A
or_missing (err key_error) = err (missing "relationship endpoint is missing from source")
or_missing (err raised) = err raised
or_missing (ok a) = ok a

abbrev table_of_entity : ValueSource → Option Entity → Result String
table_of_entity source none = err (missing "relationship entity is missing from source")
table_of_entity source (some entity) =
    if entity.source == source.source_id
    then ok (entity_table_name source.without_suffix entity source.kind)
    else err (missing "relationship entity is missing from source")

abbrev table_name_of : ValueSource → Option ModelV1 → String → Result String
table_name_of source none entity_id = ok entity_id
table_name_of source (some model) entity_id = table_of_entity source (get entity_id model.entities)

abbrev pub column_in : ScanCatalog → String → String → Result ColumnProfile
column_in catalog table_name column_name = do
  t ← table_of catalog table_name
  column_of t column_name

-- `_endpoint`
unfoldable pub endpoint_in :
    ValueSource → ScanCatalog → Option ModelV1 → String → Result (String × String)
endpoint_in source catalog model endpoint = do
  parts ← endpoint_parts endpoint
  table_name ← table_name_of source model parts.0
  column ← or_missing (column_in catalog table_name parts.1)
  ok (table_name, parts.1)

-- `value not in (None, "")`
abbrev filled : List (Option String) → List String
filled [] = []
filled (none ∷ cells) = filled cells
filled (some t ∷ cells) = if t == "" then filled cells else t ∷ filled cells

-- `len(from_values) - len(normalized_from)`, which is never negative: `filled` leaves cells out.
abbrev pub nulls_in : List (Option String) → ℕ
nulls_in cells = length cells - length (filled cells)

abbrev pub normalized : ValueSource → String → List (Option String) → List String
normalized source physical_type cells =
    map (λ t. source.normalize_value t physical_type) (filled cells)

-- `Counter(xs)[value]`
abbrev pub count_of : String → List String → ℕ
count_of value xs = count_if (λ x. x == value) xs

-- `from_counts.keys() & to_counts.keys()`
abbrev pub matched_values : List String → List String → List String
matched_values from to = keep_if (λ v. contains v to) (distinct from)

abbrev pub max_of : ℕ → ℕ → ℕ
max_of a b = if leb a b then b else a

-- `max((counts[value] for value in values), default=0)`
unfoldable pub largest_count : List String → List String → ℕ
largest_count xs [] = 0
largest_count xs (v ∷ vs) = max_of (count_of v xs) (largest_count xs vs)

-- `sum(count for value, count in from_counts.items() if value not in to_counts)`
unfoldable pub orphans_among : List String → List String → List String → ℕ
orphans_among from to [] = 0
orphans_among from to (v ∷ vs) =
    (if contains v to then 0 else count_of v from) + orphans_among from to vs

abbrev pub orphan_count : List String → List String → ℕ
orphan_count from to = orphans_among from to (distinct from)

-- `_cardinality`
unfoldable pub cardinality_of : ℕ → ℕ → Cardinality
cardinality_of from_rows_per_to to_rows_per_from =
    if leb from_rows_per_to 1 && leb to_rows_per_from 1
    then one_to_one
    else if leb from_rows_per_to 1
    then one_to_many
    else if leb to_rows_per_from 1
    then many_to_one
    else many_to_many

abbrev pub same_cardinality : Cardinality → Cardinality → Bool
same_cardinality a b = cardinality_text a == cardinality_text b

-- The findings, in the order of the tests.
abbrev pub raised_for : Bool → ℕ → ℕ → Cardinality → Cardinality → List RuntimeFinding
raised_for is_unique nulls orphans observed declared =
    when (not is_unique) "REFERENCED_KEY_NOT_UNIQUE" blocking
    ++ when (not (nat_eq nulls 0)) "CHILD_KEY_NULL" warning
    ++ when (not (nat_eq orphans 0)) "ORPHAN_CHILD_ROW" blocking
    ++ when (not (same_cardinality observed declared)) "CARDINALITY_DRIFT" blocking
    ++ when (not (same_cardinality observed one_to_one)) "GRAIN_CHANGE" warning
    ++ when (is_many_to_many observed) "MANY_TO_MANY_FANOUT" blocking

-- `relationship_digest`
abbrev relationship_digest : Hashing → Relationship → String
relationship_digest h r = h.sha256 (
    h.canonical_json (
      obj (
        field "id" (text r.id) (
          field "from" (text r.from) (
            field "to" (text r.to) (
              field "cardinality" (text (cardinality_text r.cardinality))
                (field "status" (text "confirmed") end)))))))

abbrev pub result_of :
    Hashing → Relationship → Bool → ℕ → List String → List String → ValidationResult
result_of h r is_unique nulls from to =
    let from_rows = largest_count from (matched_values from to) in
    let to_rows = largest_count to (matched_values from to) in
    record {
      relationship_id = r.id;
      relationship_digest = relationship_digest h r;
      observed_cardinality = cardinality_of from_rows to_rows;
      from_rows_per_to = from_rows;
      to_rows_per_from = to_rows;
      findings = sorted finding_code (
          raised_for is_unique nulls (orphan_count from to) (cardinality_of from_rows to_rows)
            r.cardinality);
    }

-- `values[table][column]`
abbrev pub values_at : ValueSource → String × String → Result (List (Option String))
values_at source (table_name, column_name) = do
  columns ← or_key_error (get table_name source.values)
  or_key_error (get column_name columns)

unfoldable pub validate_relationship :
    Hashing → Relationship → ValueSource → ScanCatalog → Option ModelV1 → Result ValidationResult
validate_relationship h r source catalog model = do
  from ← endpoint_in source catalog model r.from
  to ← endpoint_in source catalog model r.to
  from_values ← values_at source from
  to_values ← values_at source to
  from_column ← column_in catalog from.0 from.1
  to_column ← column_in catalog to.0 to.1
  let child = normalized source from_column.physical_type from_values
  let parent = normalized source to_column.physical_type to_values
  ok (result_of h r to_column.is_unique (nulls_in from_values) child parent)

pub record PathValidationResult : Type 0 where
  pub results : List ValidationResult
  pub findings : List RuntimeFinding

abbrev fans_out : ValidationResult → Bool
fans_out r = ltb 1 r.from_rows_per_to || ltb 1 r.to_rows_per_from

-- `{finding.code: finding for result in results for finding in result.findings}`
abbrev findings_by_code : List ValidationResult → Dict RuntimeFinding
findings_by_code results =
    from_items finding_code (λ f. f) [] (concat_map (λ (r : ValidationResult). r.findings) results)

abbrev with_fanout : Bool → Dict RuntimeFinding → Dict RuntimeFinding
with_fanout true by_code = put "COMPOUND_FANOUT" (finding "COMPOUND_FANOUT" blocking) by_code
with_fanout false by_code = by_code

abbrev entry_finding : String × RuntimeFinding → RuntimeFinding
entry_finding e = e.1

abbrev path_result : List ValidationResult → PathValidationResult
path_result results = record {
  results = results;
  findings = sorted finding_code (
      map entry_finding
        (with_fanout (ltb 1 (count_if fans_out results)) (findings_by_code results)));
}

unfoldable pub validate_each :
    Hashing
    → List Relationship
    → ValueSource
    → ScanCatalog
    → Option ModelV1
    → Result (List ValidationResult)
validate_each h [] source catalog model = ok []
validate_each h (r ∷ rs) source catalog model = do
  first ← validate_relationship h r source catalog model
  rest ← validate_each h rs source catalog model
  ok (first ∷ rest)

unfoldable pub validate_path :
    Hashing
    → List Relationship
    → ValueSource
    → ScanCatalog
    → Option ModelV1
    → Result PathValidationResult
validate_path h relationships source catalog model = do
  results ← validate_each h relationships source catalog model
  ok (path_result results)
