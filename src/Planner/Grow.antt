-- ===== src/Planner/Grow.antt =====
-- `_spanning_trees` of src/joinlint/runtime/planner.py: the search for trees of candidate edges that
-- connect every requested reference to the start.
--
-- The recursion of `grow` adds to the set `connected` a reference that is not in it on each level,
-- since `options` asks for that, so the number of requested references is enough fuel
-- (`Grow.Fuel`).
pub mod Tree
pub mod Rule
pub mod Spans
pub mod Fuel
pub mod Complete
use joinlint.Prelude.{
  ℕ, zero, suc, ◌+◌, String, ◌≡◌, ◌≤◌, arith, true, false, Bool, not, ◌&&◌, none, some, List, [],
  ◌∷◌, ◌++◌, foldl, leb, nat_eq, if◌then◌else◌, length, keep_if, contains,
}
use joinlint.Prelude.Dict.{Dict, get, put}
use joinlint.Planner.{CandidateEdge}

-- `depths[ref]`; a reference that has no depth would be a `KeyError`, and is never asked for
-- (`Grow.Spans`).
abbrev pub depth_of : Dict ℕ → String → ℕ
depth_of depths ref = elim (get ref depths) [ none ↦ 0 | some n ↦ n ]

-- `connected | {ref}`: the set is a list without repetitions, which stays as it is where the
-- reference is in it.
unfoldable pub include : String → List String → List String
include ref connected = if contains ref connected then connected else ref ∷ connected

pub include-new :
    (ref : String) (connected : List String)
    → contains ref connected ≡ false
    → include ref connected ≡ ref ∷ connected
unfolding include
include-new ref connected h = rw h

-- The test of `options`.
abbrev pub is_option : List String → Dict ℕ → ℕ → CandidateEdge → Bool
is_option connected depths max_depth edge =
    contains edge.from_ref connected
    && not (contains edge.to_ref connected)
    && leb (depth_of depths edge.from_ref + 1) max_depth

pub is_option_facts :
    (connected : List String) (depths : Dict ℕ) (max_depth : ℕ) (edge : CandidateEdge)
    → is_option connected depths max_depth edge ≡ true
    → (contains edge.from_ref connected ≡ true)
      × (contains edge.to_ref connected ≡ false)
      × (depth_of depths edge.from_ref + 1 ≤ max_depth)
is_option_facts connected depths max_depth edge h = ground arith

module _ (ref_count max_depth limit : ℕ) (candidates : List CandidateEdge) where
  -- `grow(connected, depths, edges)`, which appends to `results`.
  unfoldable pub grow :
      ℕ
      → List String
      → Dict ℕ
      → List CandidateEdge
      → List (List CandidateEdge)
      → List (List CandidateEdge)
  grow zero connected depths edges results =
      if leb limit (length results)
      then results
      else if nat_eq (length connected) ref_count
      then results ++ edges ∷ []
      else results
  grow (suc fuel) connected depths edges results =
      if leb limit (length results)
      then results
      else if nat_eq (length connected) ref_count
      then results ++ edges ∷ []
      else foldl
          (λ found edge.
            grow fuel (include edge.to_ref connected)
              (put edge.to_ref (depth_of depths edge.from_ref + 1) depths) (edges ++ edge ∷ [])
              found)
          results (keep_if (is_option connected depths max_depth) candidates)

  unfoldable pub spanning_trees : String → List (List CandidateEdge)
  unfolding grow
  spanning_trees start_ref = grow ref_count (start_ref ∷ []) ((start_ref, 0) ∷ []) [] []
