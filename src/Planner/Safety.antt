-- ===== src/Planner/Safety.antt =====
-- `grain_compatible`, `_tree_is_safe`, `_reverse_matches` and `_entity_has_stable_grain` of
-- src/joinlint/runtime/planner.py.
--
-- `grain_compatible` runs the search of `Grain`. Its fuel is one more than the number of queue
-- entries that follow from the start within 2 n + 2 rounds, for a tree of n edges; `Safety.Decides`
-- shows that this is enough on a tree.
pub mod Grain
pub mod Decides
use joinlint.Prelude.{
  ℕ, suc, ◌+◌, ◌*◌, String, Bool, true, false, not, Option, none, some, List, [], ◌∷◌, map, ltb,
  leb, if◌then◌else◌, ◌==◌, length, is_empty, keep_if, any, find, count_if, contains,
}
use joinlint.Domain.{ColumnDefinition, EntityDefinition, Traversal}
use joinlint.Grain.{Link, neighbours, search}
use joinlint.Grain.Ends.{visits}
use joinlint.Planner.{CandidateEdge}

abbrev pick : Traversal → ℕ → ℕ → ℕ
pick Traversal.forward children parents = children
pick Traversal.reverse children parents = parents

abbrev pub reverse_matches : CandidateEdge → ℕ
reverse_matches edge =
    pick edge.traversal edge.relationship.evidence.measurements.max_children_per_parent
      edge.relationship.evidence.measurements.max_parents_per_child

-- What the loop over the tree enters into `adjacency` for an edge.
abbrev pub link_of : CandidateEdge → Link
link_of edge = record {
  a = edge.from_ref;
  b = edge.to_ref;
  forth = edge.max_matches;
  back = reverse_matches edge;
}

abbrev pub links_of : List CandidateEdge → List Link
links_of [] = []
links_of (e ∷ es) = link_of e ∷ links_of es

abbrev pub search_fuel : List Link → String → ℕ
search_fuel links start = suc (visits (neighbours links) (2 * length links + 2) (start, none))

-- `none` means that the loop had not ended when the fuel ran out.
unfoldable pub grain_compatible : String → List CandidateEdge → Option Bool
grain_compatible expected_grain_ref tree =
    let links = links_of tree in
    search (neighbours links) (search_fuel links expected_grain_ref)
      ((expected_grain_ref, none) ∷ [])

abbrev pub fans_out : CandidateEdge → Bool
fans_out edge = ltb 1 edge.max_matches

unfoldable pub tree_is_safe : String → List CandidateEdge → Option Bool
unfolding grain_compatible
tree_is_safe expected_grain_ref tree =
    if leb (count_if fans_out tree) 1 then grain_compatible expected_grain_ref tree else some false

-- `[tree for tree in trees if _tree_is_safe(expected, tree)]`
unfoldable pub safe_trees : String → List (List CandidateEdge) → Option (List (List CandidateEdge))
unfolding tree_is_safe
safe_trees expected [] = some []
safe_trees expected (tree ∷ trees) = elim (tree_is_safe expected tree) [
  | none ↦ none
  | some safe ↦ elim (safe_trees expected trees) [
    | none ↦ none
    | some rest ↦ some (if safe then tree ∷ rest else rest)
  ]
]

-- The names of the columns that may be NULL.
abbrev pub nullable_columns : EntityDefinition → List String
nullable_columns entity =
    map (λ (c : ColumnDefinition). c.name)
      (keep_if (λ (c : ColumnDefinition). c.nullable) entity.columns)

-- `set(a) & set(b)` is not empty.
abbrev pub overlap : List String → List String → Bool
overlap a b = any (λ x. contains x b) a

abbrev pub has_stable_key : EntityDefinition → Bool
has_stable_key entity =
    if not (is_empty entity.primary_key)
    then true
    else any (λ key. not (overlap key (nullable_columns entity))) entity.unique_keys

unfoldable pub entity_has_stable_grain : String → List EntityDefinition → Bool
unfolding contains
entity_has_stable_grain entity_id definitions =
    elim (find (λ (e : EntityDefinition). e.entity_id == entity_id) definitions) [
      | none ↦ false
      | some entity ↦ has_stable_key entity
    ]
