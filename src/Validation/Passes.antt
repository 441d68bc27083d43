-- ===== src/Validation/Passes.antt =====
-- When src/joinlint/validation.py finds nothing that blocks.
pub mod Declared
pub mod Findings
use mathlib.Core.List.Memᴰ
use joinlint.Prelude.{ℕ, String, ◌≡◌, refl, ◌↔◌, true, Option, List, [], Memᴰ, All, arith, nat_eq}
use joinlint.Prelude.Order.{text_ord}
use joinlint.Errors.{ok}
use joinlint.Domain.Json.{Hashing}
use joinlint.Model.{Relationship, ModelV1}
use joinlint.Validation.{
  ColumnProfile, ScanCatalog, ValueSource, ValidationResult, normalized, nulls_in, matched_values,
  largest_count, orphan_count, cardinality_of, result_of, endpoint_in, values_at, column_in,
  validate_relationship,
}
use joinlint.Validation.Counts.{MatchedOnce, orphan_count-zero_iff}
use joinlint.Validation.Passes.Declared.{AsDeclared, cardinality_of-AsDeclared_iff}
use joinlint.Validation.Passes.Findings.{Unblocked, raised_for-Unblocked_iff, Unblocked-sorted_iff}

-- What the validation reads of the source and its catalog.
pub record Reads (r : Relationship) (source : ValueSource) (catalog : ScanCatalog)
    (model : Option ModelV1) : Type 0 where
  pub from : String × String
  pub to : String × String
  pub from_values : List (Option String)
  pub to_values : List (Option String)
  pub from_column : ColumnProfile
  pub to_column : ColumnProfile
  pub from_endpoint : endpoint_in source catalog model r.from ≡ ok from
  pub to_endpoint : endpoint_in source catalog model r.to ≡ ok to
  pub from_cells : values_at source from ≡ ok from_values
  pub to_cells : values_at source to ≡ ok to_values
  pub from_profile : column_in catalog from.0 from.1 ≡ ok from_column
  pub to_profile : column_in catalog to.0 to.1 ≡ ok to_column

abbrev pub child_of :
    (r : Relationship) (source : ValueSource) (catalog : ScanCatalog) (model : Option ModelV1)
    → Reads r source catalog model
    → List String
child_of r source catalog model reads =
    normalized source reads.from_column.physical_type reads.from_values

abbrev pub parent_of :
    (r : Relationship) (source : ValueSource) (catalog : ScanCatalog) (model : Option ModelV1)
    → Reads r source catalog model
    → List String
parent_of r source catalog model reads =
    normalized source reads.to_column.physical_type reads.to_values

zero_iff : (n : ℕ) → (nat_eq n 0 ≡ true) ↔ (n ≡ 0)
zero_iff n = ground arith

-- When the relationship's columns can be read, the validation returns a result. Nothing that it
-- finds blocks exactly if the referenced column is unique in the catalog, every child value has a
-- parent, and the rows match as the declared cardinality says, which is not many to many.
pub validate_relationship-Unblocked_iff :
    (h : Hashing) (r : Relationship) (source : ValueSource) (catalog : ScanCatalog)
    (model : Option ModelV1) (reads : Reads r source catalog model)
    → let child = child_of r source catalog model reads in
      let parent = parent_of r source catalog model reads in
      (result : ValidationResult) × (validate_relationship h r source catalog model ≡ ok result)
      × (Unblocked result.findings ↔ (
          (reads.to_column.is_unique ≡ true)
          × All (λ v. Memᴰ v parent) child
          × AsDeclared r.cardinality
              (MatchedOnce child parent child)
              (MatchedOnce child parent parent)))
unfolding validate_relationship
validate_relationship-Unblocked_iff h r source catalog model reads =
    let child = child_of r source catalog model reads in
    let parent = parent_of r source catalog model reads in
    let nulls = nulls_in reads.from_values in
    let observed =
      cardinality_of (largest_count child (matched_values child parent))
        (largest_count parent (matched_values child parent)) in
    let found =
      raised_for-Unblocked_iff reads.to_column.is_unique nulls (orphan_count child parent) observed
        r.cardinality in
    let as_declared = cardinality_of-AsDeclared_iff child parent r.cardinality in
    let orphans = orphan_count-zero_iff child parent in
    (
      result_of h r reads.to_column.is_unique nulls child parent,
      rw
          (
            reads.from_endpoint, reads.to_endpoint, reads.from_cells, reads.to_cells,
            reads.from_profile, reads.to_profile,
          )
          refl,
      (
        λ u.
            let (a, b, c) = found.0 ((Unblocked-sorted_iff _).0 u) in
            (a, orphans.0 ((zero_iff _).0 b), as_declared.0 c),
        λ (a, b, c).
            (Unblocked-sorted_iff _).1 (found.1 (a, (zero_iff _).1 (orphans.1 b), as_declared.1 c)),
      ),
    )
