-- ===== src/Grain.antt =====
-- The search that `grain_compatible` of src/joinlint/runtime/planner.py and `_grain_compatible` of
-- src/joinlint/runtime/sql.py share: from the reference of the expected grain along the join edges,
-- never straight back, until an edge is met that has more than one match.
--
-- The queue of the `while` loop is a list. The loop takes fuel; `none` means that the fuel ran out.
pub mod Walks
pub mod Ends
pub mod Trees
pub mod Endless
use joinlint.Prelude.{
  ℕ, zero, suc, ◌+◌, String, Bool, true, false, Option, none, some, List, [], ◌∷◌, ◌++◌, ltb,
  if◌then◌else◌, ◌==◌,
}

-- A queue entry: a reference, and the one from which it was reached.
abbrev pub Item : Type 0
Item = String × Option String

-- `adjacency[ref]`: the references next to `ref`, each with the matches of the edge to it.
abbrev pub Adjacency : Type 0
Adjacency = String → List (String × ℕ)

-- A join edge as the search sees it: from `a` there are at most `forth` matches at `b`, and from `b`
-- at most `back` matches at `a`.
pub record Link : Type 0 where
  pub a : String
  pub b : String
  pub forth : ℕ
  pub back : ℕ

-- The adjacency that the loop over the edges builds.
unfoldable pub neighbours : List Link → Adjacency
neighbours [] ref = []
neighbours (l ∷ ls) ref =
    (if l.a == ref then (l.b, l.forth) ∷ [] else [])
    ++ (if l.b == ref then (l.a, l.back) ∷ [] else [])
    ++ neighbours ls ref

-- `other == parent`
unfoldable pub is_parent : Option String → String → Bool
is_parent none other = false
is_parent (some parent) other = other == parent

-- The `for` loop. `none` is `return False`.
unfoldable pub scan : Option String → String → List (String × ℕ) → List Item → Option (List Item)
scan parent ref [] queue = some queue
scan parent ref ((other, matches) ∷ rest) queue = elim (is_parent parent other) [
  | true ↦ scan parent ref rest queue
  | false ↦ elim (ltb 1 matches) [
    | true ↦ none
    | false ↦ scan parent ref rest (queue ++ (other, some ref) ∷ [])
  ]
]

module _ (adjacency : Adjacency) where
  -- The `while` loop.
  unfoldable pub search : ℕ → List Item → Option Bool
  search zero queue = none
  search (suc fuel) [] = some true
  search (suc fuel) ((ref, parent) ∷ queue) = elim (scan parent ref (adjacency ref) queue) [
    | none ↦ some false
    | some queue' ↦ search fuel queue'
  ]
