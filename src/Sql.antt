-- ===== src/Sql.antt =====
-- `validate_sql_graph` of src/joinlint/runtime/sql.py and what it calls. The graph that it takes comes
-- from `normalize_sql_graph`, which parses SQL with sqlglot.
--
-- The `while` loop of `_grain_compatible` takes fuel, an argument of `validate_sql_graph`, and
-- `diverges` is its result when the fuel runs out: `Grain.Endless` shows that on some graphs no fuel is
-- enough.
pub mod Mapping
pub mod Validate
pub mod Sound
use joinlint.Prelude.{
  ℕ, String, Bool, true, false, not, ◌&&◌, ◌||◌, Option, none, some, List, [], ◌∷◌, map,
  if◌then◌else◌, ◌==◌, is_empty, keep_if, any, all, find, contains, subset,
}
use joinlint.Prelude.Order.{text_ord, text_le}
use joinlint.Prelude.Sort.{sorted}
use joinlint.Prelude.Dict.{Dict}
use joinlint.Errors.{value_error, diverges, Result, ok, err, ◌>>=◌, ◌>>◌}
use joinlint.Domain.{
  AuthorizedRelationship, EntityDefinition, EntityRef, JoinProof, proof, JoinKind, left,
  NormalizedJoinEdge, NormalizedJoinGraph, RuntimeFinding, blocking,
}
use joinlint.Grain.{Link, neighbours, search}
use joinlint.Evidence.{finding}
use joinlint.Evidence.Measure.{◌⧺◌}
use joinlint.Planner.Plan.{or_start}
use joinlint.Planner.Safety.{has_stable_key}

pub record MatchedEdge : Type 0 where
  pub normalized : NormalizedJoinEdge
  pub relationship : AuthorizedRelationship
  pub child_ref : String
  pub parent_ref : String

-- `tuple(sorted((left, right)))`
unfoldable pub canonical_pair : String → String → String × String
canonical_pair a b = if text_le a b then (a, b) else (b, a)

abbrev pub pair_eq : String × String → String × String → Bool
pair_eq (a, b) (c, d) = a == c && b == d

-- Equality of two sets of pairs.
unfoldable pub same_pairs : List (String × String) → List (String × String) → Bool
same_pairs xs ys = all (λ x. any (pair_eq x) ys) xs && all (λ y. any (pair_eq y) xs) ys

abbrev pub endpoint_text : String → String → String
endpoint_text entity_id column = entity_id ⧺ "." ⧺ column

-- The set `observed`.
abbrev pub observed_pairs : NormalizedJoinEdge → List (String × String)
observed_pairs edge = map (λ (p : String × String). canonical_pair p.0 p.1) edge.endpoint_pairs

-- The set `expected`, by `zip(..., strict=True)`.
unfoldable pub paired :
    String → String → List String → List String → Result (List (String × String))
paired child_entity parent_entity [] [] = ok []
paired child_entity parent_entity (c ∷ cs) (p ∷ ps) = do
  rest ← paired child_entity parent_entity cs ps
  ok (canonical_pair (endpoint_text child_entity c) (endpoint_text parent_entity p) ∷ rest)
paired child_entity parent_entity _ _ = err value_error

abbrev pub expected_pairs : AuthorizedRelationship → Result (List (String × String))
expected_pairs r =
    paired r.definition.child.entity_id r.definition.parent.entity_id r.definition.child.columns
      r.definition.parent.columns

-- The relationships of the graph with the pairs of the edge.
unfoldable pub matches_of :
    NormalizedJoinEdge → List AuthorizedRelationship → Result (List AuthorizedRelationship)
matches_of edge [] = ok []
matches_of edge (r ∷ rs) = do
  expected ← expected_pairs r
  rest ← matches_of edge rs
  ok (if same_pairs (observed_pairs edge) expected then r ∷ rest else rest)

abbrev pub first {ℓ} : {A : Type ℓ} → List A → Option A
first [] = none
first (x ∷ xs) = some x

-- `min(matches, key=..., default=None)`: the first of the least.
unfoldable pub match_relationship :
    NormalizedJoinEdge → List AuthorizedRelationship → Result (Option AuthorizedRelationship)
match_relationship edge graph = do
  matches ← matches_of edge graph
  ok (first (sorted (λ (r : AuthorizedRelationship). r.definition.relationship_id) matches))

-- `_relationship_refs`: the reference of the child, then that of the parent.
unfoldable pub relationship_refs : NormalizedJoinEdge → AuthorizedRelationship → String × String
relationship_refs edge r =
    let child_endpoints =
      map (endpoint_text r.definition.child.entity_id) r.definition.child.columns in
    let left_endpoints = map (λ (p : String × String). p.0) edge.endpoint_pairs in
    if subset left_endpoints child_endpoints && subset child_endpoints left_endpoints
    then (edge.left_ref, edge.right_ref)
    else (edge.right_ref, edge.left_ref)

abbrev pub matched_edge : NormalizedJoinEdge → AuthorizedRelationship → MatchedEdge
matched_edge edge r = record {
  normalized = edge;
  relationship = r;
  child_ref = (relationship_refs edge r).0;
  parent_ref = (relationship_refs edge r).1;
}

-- What the loop over the edges appends to `matched` and `findings`.
abbrev pub add_match :
    NormalizedJoinEdge
    → Option AuthorizedRelationship
    → List MatchedEdge × List RuntimeFinding
    → List MatchedEdge × List RuntimeFinding
add_match edge none (matched, findings) =
    (matched, finding "UNSUPPORTED_JOIN_EDGE" blocking ∷ findings)
add_match edge (some r) (matched, findings) = (matched_edge edge r ∷ matched, findings)

unfoldable pub match_edges :
    List NormalizedJoinEdge
    → List AuthorizedRelationship
    → Result (List MatchedEdge × List RuntimeFinding)
match_edges [] graph = ok ([], [])
match_edges (edge ∷ edges) graph = do
  relationship ← match_relationship edge graph
  rest ← match_edges edges graph
  ok (add_match edge relationship rest)

-- `item.entity.rsplit(".", 1)[-1]`
abbrev pub after_last_dot : String → String → String
after_last_dot found String.[] = found
after_last_dot found (String.◌∷◌ c s) =
    if String.◌∷◌ c String.[] == "." then after_last_dot s s else after_last_dot found s

abbrev pub last_segment : String → String
last_segment entity = after_last_dot entity entity

abbrev only_one : List EntityRef → Option String
only_one (r ∷ []) = some r.ref
only_one _ = none

-- The key of the first entry with the value.
abbrev pub key_of : String → Dict String → Option String
key_of target [] = none
key_of target ((sql_ref, proof_ref) ∷ rest) =
    if proof_ref == target then some sql_ref else key_of target rest

-- The branch of `_expected_sql_ref` without a mapping.
abbrev pub named_ref : NormalizedJoinGraph → Option String → Option String
named_ref graph none = none
named_ref graph (some name) = only_one (
    keep_if (λ (r : EntityRef). r.ref == name || r.entity == name || last_segment r.entity == name)
      graph.entity_refs)

unfoldable pub expected_sql_ref :
    NormalizedJoinGraph → Option JoinProof → Option (Dict String) → Option String → Option String
expected_sql_ref graph (some (proof body _)) (some mapping) expected_grain_ref =
    key_of (or_start expected_grain_ref body.expected_grain_ref) mapping
expected_sql_ref graph _ _ expected_grain_ref = named_ref graph expected_grain_ref

abbrev is_left : JoinKind → Bool
is_left left = true
is_left _ = false

abbrev pub nullable_refs : List MatchedEdge → List String
nullable_refs matched =
    map (λ (m : MatchedEdge). m.normalized.right_ref)
      (keep_if (λ (m : MatchedEdge). is_left m.normalized.join_kind) matched)

abbrev pub link_of_match : MatchedEdge → Link
link_of_match m = record {
  a = m.child_ref;
  b = m.parent_ref;
  forth = m.relationship.evidence.measurements.max_parents_per_child;
  back = m.relationship.evidence.measurements.max_children_per_parent;
}

abbrev pub links_of_matches : List MatchedEdge → List Link
links_of_matches [] = []
links_of_matches (m ∷ ms) = link_of_match m ∷ links_of_matches ms

-- `none` means that the loop had not ended when the fuel ran out.
unfoldable pub sql_grain_compatible : ℕ → String → List MatchedEdge → Option Bool
sql_grain_compatible fuel expected_ref matched =
    if contains expected_ref (nullable_refs matched)
    then some false
    else search (neighbours (links_of_matches matched)) fuel ((expected_ref, none) ∷ [])

abbrev stable_entity : Option EntityRef → List EntityDefinition → Bool
stable_entity none definitions = false
stable_entity (some r) definitions =
    elim (find (λ (e : EntityDefinition). e.entity_id == r.entity) definitions) [
      | none ↦ false
      | some entity ↦ has_stable_key entity
    ]

unfoldable pub expected_entity_has_stable_grain :
    NormalizedJoinGraph → String → List EntityDefinition → Bool
expected_entity_has_stable_grain graph expected_ref definitions =
    stable_entity (find (λ (r : EntityRef). r.ref == expected_ref) graph.entity_refs) definitions

abbrev pub of_answer : Option Bool → Result (List RuntimeFinding)
of_answer none = err diverges
of_answer (some true) = ok []
of_answer (some false) = ok (finding "GRAIN_INCOMPATIBLE" blocking ∷ [])

-- The findings on the grain of the expected reference.
unfoldable pub grain_findings :
    ℕ
    → NormalizedJoinGraph
    → List MatchedEdge
    → List EntityDefinition
    → Option String
    → Result (List RuntimeFinding)
grain_findings fuel graph matched definitions none = ok []
grain_findings fuel graph matched definitions (some expected_ref) =
    if not (is_empty definitions)
      && not (expected_entity_has_stable_grain graph expected_ref definitions)
    then ok (finding "GRAIN_INCOMPATIBLE" blocking ∷ [])
    else of_answer (sql_grain_compatible fuel expected_ref matched)
