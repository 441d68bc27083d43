-- ===== src/Tests/Validation.antt =====
-- src/joinlint/validation.py at the orders of two customers.
use joinlint.Prelude.{
  String, Bool, true, false, Option, none, some, List, [], ◌∷◌, ◌≡◌, refl, ◌↔◌, Memᴰ, All, ◌==◌,
}
use joinlint.Prelude.Dict.{get}
use joinlint.Errors.{ok}
use joinlint.Domain.{many_to_one}
use joinlint.Model.{Relationship}
use joinlint.Validation.{
  ColumnProfile, ScanCatalog, ValueSource, ValidationResult, endpoint_in, validate_relationship,
}
use joinlint.Validation.Counts.{MatchedOnce}
use joinlint.Validation.Passes.Declared.{AsDeclared}
use joinlint.Validation.Passes.Findings.{Unblocked}
use joinlint.Validation.Passes.{Reads, validate_relationship-Unblocked_iff}
use joinlint.Tests.{sample_hashing}

abbrev profile : String → Bool → ColumnProfile
profile name is_unique = record {
  name = name;
  physical_type = "text";
  null_count = 0;
  distinct_count = 2;
  is_unique = is_unique;
}

abbrev scanned : ScanCatalog
scanned = record {
  source_id = "shop";
  tables =
      record { name = "customers"; row_count = 2; columns = profile "id" true ∷ [] }
      ∷ record { name = "orders"; row_count = 4; columns = profile "customer_id" false ∷ [] }
      ∷ [];
}

abbrev child_cells : List (Option String)
child_cells = some "7" ∷ none ∷ some "8" ∷ some "7" ∷ []

abbrev parent_cells : List (Option String)
parent_cells = some "7" ∷ some "8" ∷ []

abbrev shop : ValueSource
shop = record {
  source_id = "shop";
  kind = "sqlite";
  values =
      ("customers", ("id", parent_cells) ∷ []) ∷ ("orders", ("customer_id", child_cells) ∷ []) ∷ [];
  normalize_value = λ t _. t;
  without_suffix = λ name. name;
}

abbrev placed_by : Relationship
placed_by = record {
  id = "placed_by";
  from = "orders.customer_id";
  to = "customers.id";
  cardinality = many_to_one;
}

reads : Reads placed_by shop scanned none
unfolding endpoint_in get ◌==◌
reads = record {
  from = ("orders", "customer_id");
  to = ("customers", "id");
  from_values = child_cells;
  to_values = parent_cells;
  from_column = profile "customer_id" false;
  to_column = profile "id" true;
  from_endpoint = refl;
  to_endpoint = refl;
  from_cells = refl;
  to_cells = refl;
  from_profile = refl;
  to_profile = refl;
}

abbrev child : List String
child = "7" ∷ "8" ∷ "7" ∷ []

abbrev parent : List String
parent = "7" ∷ "8" ∷ []

validate_relationship-Unblocked_iff_example :
    (result : ValidationResult) × (validate_relationship sample_hashing placed_by shop scanned none
      ≡ ok result)
    × (Unblocked result.findings ↔ (
        (true ≡ true)
        × All (λ v. Memᴰ v parent) child
        × AsDeclared many_to_one
            (MatchedOnce child parent child)
            (MatchedOnce child parent parent)))
unfolding reads ◌==◌
validate_relationship-Unblocked_iff_example =
    validate_relationship-Unblocked_iff sample_hashing placed_by shop scanned none reads
