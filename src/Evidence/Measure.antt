-- ===== src/Evidence/Measure.antt =====
-- `_measure` and `_quote` of src/joinlint/runtime/evidence.py. `query` runs a statement on the
-- snapshot and returns the first column of its row; it is code of the database.
use Prim.Native.Char.{code}
use Prim.Native.String.{◌++◌ as text_append}
use joinlint.Prelude.{ℕ, ◌-◌, String, List, [], ◌∷◌, map, leb, nat_eq, if◌then◌else◌}
use joinlint.Errors.{value_error, Result, ok, err, ◌>>=◌, ◌>>◌, require}
use joinlint.Domain.{EntityDefinition, EvidenceMeasurements, RelationshipSeed}
use joinlint.Domain.Valid.{valid_measurements}
use joinlint.Evidence.{cardinality}

infixr 65 ◌⧺◌
abbrev pub ◌⧺◌ : String → String → String
◌⧺◌ = text_append

-- `identifier.replace('"', '""')`
abbrev pub double_quotes : String → String
double_quotes String.[] = ""
double_quotes (String.◌∷◌ c s) =
    if nat_eq (code c) b'"'
    then String.◌∷◌ c (String.◌∷◌ c (double_quotes s))
    else String.◌∷◌ c (double_quotes s)

unfoldable pub quote : String → String
quote identifier = "\"" ⧺ double_quotes identifier ⧺ "\""

-- `separator.join(texts)`
abbrev pub join_texts : String → List String → String
join_texts separator [] = ""
join_texts separator (x ∷ []) = x
join_texts separator (x ∷ y ∷ xs) = x ⧺ separator ⧺ join_texts separator (y ∷ xs)

-- `zip(children, parents, strict=True)`, each pair as an equality.
abbrev pub equalities : List String → List String → Result (List String)
equalities [] [] = ok []
equalities (c ∷ cs) (p ∷ ps) = do rest ← equalities cs ps; ok (("c." ⧺ c ⧺ " = p." ⧺ p) ∷ rest)
equalities _ _ = err value_error

-- The parts of the statements.
pub record SqlParts : Type 0 where
  pub child_table : String
  pub parent_table : String
  pub child_non_null : String
  pub parent_non_null : String
  pub equality : String
  pub child_group : String
  pub parent_group : String

unfoldable pub sql_parts : EntityDefinition → EntityDefinition → RelationshipSeed → Result SqlParts
sql_parts child_entity parent_entity seed =
    let child_columns = map quote seed.definition.child.columns in
    let parent_columns = map quote seed.definition.parent.columns in
    do
      equal ← equalities child_columns parent_columns
      ok (record {
        child_table = quote child_entity.physical_name;
        parent_table = quote parent_entity.physical_name;
        child_non_null = join_texts " AND " (map (λ c. "c." ⧺ c ⧺ " IS NOT NULL") child_columns);
        parent_non_null = join_texts " AND " (map (λ p. "p." ⧺ p ⧺ " IS NOT NULL") parent_columns);
        equality = join_texts " AND " equal;
        child_group = join_texts ", " (map (λ c. "c." ⧺ c) child_columns);
        parent_group = join_texts ", " (map (λ p. "p." ⧺ p) parent_columns);
      })

-- The nine statements.
abbrev pub child_rows_sql : SqlParts → String
child_rows_sql s = "SELECT COUNT(*) FROM " ⧺ s.child_table ⧺ " AS c"

abbrev pub parent_rows_sql : SqlParts → String
parent_rows_sql s = "SELECT COUNT(*) FROM " ⧺ s.parent_table ⧺ " AS p"

abbrev pub child_non_null_rows_sql : SqlParts → String
child_non_null_rows_sql s = child_rows_sql s ⧺ " WHERE " ⧺ s.child_non_null

abbrev pub parent_non_null_rows_sql : SqlParts → String
parent_non_null_rows_sql s = parent_rows_sql s ⧺ " WHERE " ⧺ s.parent_non_null

abbrev pub child_distinct_sql : SqlParts → String
child_distinct_sql s =
    "SELECT COUNT(*) FROM (SELECT 1 FROM " ⧺ s.child_table ⧺ " AS c WHERE " ⧺ s.child_non_null
    ⧺ " GROUP BY " ⧺ s.child_group ⧺ ")"

abbrev pub parent_distinct_sql : SqlParts → String
parent_distinct_sql s =
    "SELECT COUNT(*) FROM (SELECT 1 FROM " ⧺ s.parent_table ⧺ " AS p WHERE " ⧺ s.parent_non_null
    ⧺ " GROUP BY " ⧺ s.parent_group ⧺ ")"

abbrev pub included_sql : SqlParts → String
included_sql s =
    child_non_null_rows_sql s
    ⧺ " AND EXISTS (SELECT 1 FROM "
    ⧺ s.parent_table
    ⧺ " AS p WHERE "
    ⧺ s.equality
    ⧺ ")"

abbrev pub largest_child_group_sql : SqlParts → String
largest_child_group_sql s =
    "SELECT COALESCE(MAX(n), 0) FROM (SELECT COUNT(*) AS n FROM " ⧺ s.child_table ⧺ " AS c WHERE "
    ⧺ s.child_non_null ⧺ " GROUP BY " ⧺ s.child_group ⧺ ")"

abbrev pub largest_parent_group_sql : SqlParts → String
largest_parent_group_sql s =
    "SELECT COALESCE(MAX(n), 0) FROM (SELECT COUNT(*) AS n FROM " ⧺ s.parent_table ⧺ " AS p WHERE "
    ⧺ s.parent_non_null ⧺ " GROUP BY " ⧺ s.parent_group ⧺ ")"

-- The answers.
pub record Counts : Type 0 where
  pub child_rows : ℕ
  pub parent_rows : ℕ
  pub child_non_null : ℕ
  pub parent_non_null : ℕ
  pub child_distinct : ℕ
  pub parent_distinct : ℕ
  pub included : ℕ
  pub max_children : ℕ
  pub max_parents : ℕ

unfoldable pub counts : (String → Result ℕ) → SqlParts → Result Counts
counts query s = do
  child_rows ← query (child_rows_sql s)
  parent_rows ← query (parent_rows_sql s)
  child_non_null ← query (child_non_null_rows_sql s)
  parent_non_null ← query (parent_non_null_rows_sql s)
  child_distinct ← query (child_distinct_sql s)
  parent_distinct ← query (parent_distinct_sql s)
  included ← query (included_sql s)
  max_children ← query (largest_child_group_sql s)
  max_parents ← query (largest_parent_group_sql s)
  ok (record {
    child_rows = child_rows;
    parent_rows = parent_rows;
    child_non_null = child_non_null;
    parent_non_null = parent_non_null;
    child_distinct = child_distinct;
    parent_distinct = parent_distinct;
    included = included;
    max_children = max_children;
    max_parents = max_parents;
  })

abbrev pub measurements_of : Counts → EvidenceMeasurements
measurements_of n = record {
  child_row_count = n.child_rows;
  parent_row_count = n.parent_rows;
  child_non_null_count = n.child_non_null;
  child_null_count = n.child_rows - n.child_non_null;
  child_distinct_count = n.child_distinct;
  parent_distinct_count = n.parent_distinct;
  inclusion_numerator = n.included;
  inclusion_denominator = n.child_non_null;
  orphan_count = n.child_non_null - n.included;
  parent_unique = nat_eq n.parent_non_null n.parent_distinct;
  observed_cardinality = cardinality n.max_children n.max_parents;
  max_children_per_parent = n.max_children;
  max_parents_per_child = n.max_parents;
}

-- A difference below zero is refused by the fields' `ge=0`, like the counts that do not add up.
unfoldable pub measure :
    (String → Result ℕ)
    → EntityDefinition
    → EntityDefinition
    → RelationshipSeed
    → Result EvidenceMeasurements
measure query child_entity parent_entity seed = do
  s ← sql_parts child_entity parent_entity seed
  n ← counts query s
  require (leb n.child_non_null n.child_rows) value_error
  require (leb n.included n.child_non_null) value_error
  require (valid_measurements (measurements_of n)) value_error
  ok (measurements_of n)
