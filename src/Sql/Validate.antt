-- ===== src/Sql/Validate.antt =====
-- `validate_sql_graph` of src/joinlint/runtime/sql.py.
use joinlint.Prelude.{
  ℕ, String, Bool, not, Option, none, some, List, [], ◌∷◌, map, if◌then◌else◌, is_empty,
}
use joinlint.Prelude.Order.{text_ord}
use joinlint.Prelude.Sort.{sorted}
use joinlint.Prelude.Dict.{Dict}
use joinlint.Errors.{value_error, Result, ok, ◌>>=◌, ◌>>◌, require}
use joinlint.Domain.{
  AuthorizedRelationship, EntityDefinition, JoinProof, proof, NormalizedJoinGraph, RuntimeFinding,
  blocking, pass, block, SqlValidationOutcome,
}
use joinlint.Domain.Valid.{valid_outcome, is_none}
use joinlint.Evidence.{finding, finding_code}
use joinlint.Sql.{MatchedEdge, match_edges, expected_sql_ref, grain_findings}
use joinlint.Sql.Mapping.{proof_mapping}

-- `proof_mapping`, and the findings after it.
abbrev pub mapping_step :
    Option JoinProof
    → NormalizedJoinGraph
    → List MatchedEdge
    → List RuntimeFinding
    → Result (Option (Dict String) × List RuntimeFinding)
mapping_step none graph matched found = ok (none, found)
mapping_step (some _) graph matched (f ∷ found) =
    ok (none, finding "PROOF_GRAPH_MISMATCH" blocking ∷ [])
mapping_step (some (proof body _)) graph matched [] = do
  mapping ← proof_mapping graph matched body
  ok (mapping, if is_none mapping then finding "PROOF_GRAPH_MISMATCH" blocking ∷ [] else [])

-- `if ... and not findings`: the findings on the grain are made when there is none yet.
abbrev pub grain_step :
    ℕ
    → NormalizedJoinGraph
    → List MatchedEdge
    → List EntityDefinition
    → Option String
    → List RuntimeFinding
    → Result (List RuntimeFinding)
grain_step fuel graph matched definitions expected_ref [] =
    grain_findings fuel graph matched definitions expected_ref
grain_step fuel graph matched definitions expected_ref (f ∷ found) = ok (f ∷ found)

-- `None if proof is None else proof_mapping is not None`
abbrev pub proof_matched_of : Option JoinProof → Option (Dict String) → Option Bool
proof_matched_of none mapping = none
proof_matched_of (some _) mapping = some (not (is_none mapping))

abbrev pub outcome :
    NormalizedJoinGraph
    → List MatchedEdge
    → Option Bool
    → List RuntimeFinding
    → SqlValidationOutcome
outcome graph matched proof_matched found = record {
  decision = if is_empty found then pass else block;
  graph = graph;
  matched_relationship_ids =
      map (λ (m : MatchedEdge). m.relationship.definition.relationship_id) matched;
  matched_evidence_ids = map (λ (m : MatchedEdge). m.relationship.evidence.evidence_id) matched;
  proof_matched = proof_matched;
  findings = sorted finding_code found;
}

unfoldable pub validate_sql_graph :
    ℕ
    → NormalizedJoinGraph
    → List AuthorizedRelationship
    → Option JoinProof
    → Option String
    → List EntityDefinition
    → Result SqlValidationOutcome
validate_sql_graph fuel graph authorized given expected_grain_ref definitions = do
  first ← match_edges graph.edges authorized
  mapping ← mapping_step given graph first.0 first.1
  found ←
      grain_step fuel graph first.0 definitions
        (expected_sql_ref graph given mapping.0 expected_grain_ref) mapping.1
  let result = outcome graph first.0 (proof_matched_of given mapping.0) found
  require (valid_outcome result) value_error
  ok result
