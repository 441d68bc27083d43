-- ===== src/Sql/Sound.antt =====
-- What a query that `validate_sql_graph` of src/joinlint/runtime/sql.py passes is known to do.
pub mod Matches
pub mod ProofMap
pub mod Keeps
pub mod Expected
use mathlib.Core.List.Memᴰ
use mathlib.Core.List.Permᴰ
use mathlib.Core.List.{Permᴰ}
use joinlint.Prelude.{String, ◌≡◌, Option, some, List, Memᴰ}
use joinlint.Prelude.Order.{text_ord, pair_ord}
use joinlint.Prelude.Dict.{Dict}
use joinlint.Domain.{
  AuthorizedRelationship, JoinProof, proof, Alternatives, ProofBody, NormalizedJoinGraph,
}
use joinlint.Sql.{MatchedEdge}
use joinlint.Sql.Sound.Matches.{MatchesAll}
use joinlint.Sql.Sound.ProofMap.{Carries}
use joinlint.Sql.Sound.Expected.{IsExpected}
use joinlint.Sql.Sound.Keeps.{KeepsSqlGrain}

-- What is known of a query that passes.
pub record IsPassed (graph : NormalizedJoinGraph) (authorized : List AuthorizedRelationship)
    (given : Option JoinProof) (expected_grain_ref : Option String) : Type 0 where
  pub matched : List MatchedEdge
  pub supported : MatchesAll authorized graph.edges matched
  pub mapping : Option (Dict String)
  pub follows_proof :
      (body : ProofBody) (others : Alternatives)
      → given ≡ some (proof body others)
      → (m : Dict String) × (mapping ≡ some m) × Carries m matched body
  pub keeps_grain :
      (expected_ref : String)
      → IsExpected graph given mapping expected_grain_ref expected_ref
      → KeepsSqlGrain expected_ref matched
