-- ===== src/Sql/Sound/Keeps.antt =====
-- The grain in `validate_sql_graph` of src/joinlint/runtime/sql.py.
use joinlint.Prelude.{
  ℕ, String, ◌≡◌, refl, inl, inr, Bool, true, false, not, ◌&&◌, Option, none, some, List, [], ◌∷◌,
  if◌then◌else◌, Bool-cases, contains, is_empty,
}
use joinlint.Prelude.Order.{text_ord, pair_ord}
use joinlint.Errors.{ok}
use joinlint.Domain.{EntityDefinition, NormalizedJoinGraph, RuntimeFinding, blocking}
use joinlint.Grain.{neighbours}
use joinlint.Grain.Walks.{IsCompatible, search-decides}
use joinlint.Evidence.{finding}
use joinlint.Sql.{
  MatchedEdge, nullable_refs, links_of_matches, sql_grain_compatible, of_answer, grain_findings,
  expected_entity_has_stable_grain,
}

-- The expected reference keeps its grain: the edges do not make its rows optional, and no walk from
-- it that never turns straight back takes an edge with more than one match.
pub record KeepsSqlGrain (expected_ref : String) (matched : List MatchedEdge) : Type 0 where
  pub required : contains expected_ref (nullable_refs matched) ≡ false
  pub compatible : IsCompatible (neighbours (links_of_matches matched)) (expected_ref, none)

sql_grain_compatible-KeepsSqlGrain :
    (fuel : ℕ) (expected_ref : String) (matched : List MatchedEdge)
    → sql_grain_compatible fuel expected_ref matched ≡ some true
    → KeepsSqlGrain expected_ref matched
unfolding sql_grain_compatible
sql_grain_compatible-KeepsSqlGrain fuel expected_ref matched h =
    elim (Bool-cases (contains expected_ref (nullable_refs matched))) [
      | inl y ↦ let q : some false ≡ some true = rw y at h in cc
      | inr n ↦ record {
        required = n;
        compatible =
            (search-decides (neighbours (links_of_matches matched)) fuel expected_ref true
                (rw n at h)).0
              refl;
      }
    ]

pub grain_findings-KeepsSqlGrain :
    (fuel : ℕ) (graph : NormalizedJoinGraph) (matched : List MatchedEdge)
    (definitions : List EntityDefinition) (expected_ref : String)
    → grain_findings fuel graph matched definitions (some expected_ref) ≡ ok []
    → KeepsSqlGrain expected_ref matched
unfolding grain_findings
grain_findings-KeepsSqlGrain fuel graph matched definitions expected_ref h =
    branch
      (not (is_empty definitions)
        && not (expected_entity_has_stable_grain graph expected_ref definitions))
      (sql_grain_compatible fuel expected_ref matched) (finding "GRAIN_INCOMPATIBLE" blocking) refl
      h
  where
    branch :
        (test : Bool) (answer : Option Bool) (f : RuntimeFinding)
        → sql_grain_compatible fuel expected_ref matched ≡ answer
        → (if test then ok (f ∷ []) else of_answer answer) ≡ ok []
        → KeepsSqlGrain expected_ref matched
    branch false (some true) f e k = sql_grain_compatible-KeepsSqlGrain fuel expected_ref matched e
    branch false (some false) f e k = cc
    branch false none f e k = cc
    branch true answer f e k = cc
