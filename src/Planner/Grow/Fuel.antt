-- ===== src/Planner/Grow/Fuel.antt =====
-- The recursion of `grow` in src/joinlint/runtime/planner.py ends by itself: with as many levels as
-- there are requested references, more fuel changes nothing. And no more than `limit` trees are
-- collected.
use joinlint.Prelude.{
  ℕ, zero, suc, ◌+◌, ◌≤◌, ◌<◌, String, ◌≡◌, refl, inl, inr, false, List, [], ◌∷◌, ◌++◌, arith, leb,
  Memᴰ, mem-keep_if, nat_eq, length, keep_if, length-append, foldl_congr, Bool-cases,
}
use joinlint.Prelude.Dict.{Dict}
use joinlint.Planner.{CandidateEdge}
use joinlint.Planner.Grow.{include, include-new, is_option, is_option_facts, grow, spanning_trees}
use joinlint.Planner.Grow.Rule.{Rule, grow_rule}

module _ (ref_count max_depth limit : ℕ) (candidates : List CandidateEdge) where
  length-snoc-le :
      (results : List (List CandidateEdge)) (edges : List CandidateEdge)
      → leb limit (length results) ≡ false
      → length (results ++ edges ∷ []) ≤ limit
  length-snoc-le results edges room = ground (arith, length-append results (edges ∷ []))

  abbrev Always : List String → Dict ℕ → List CandidateEdge → Type 0
  Always _ _ _ = Unit

  limit_rule : Rule ref_count max_depth limit candidates Always (λ results. length results ≤ limit)
  limit_rule = record {
    collect = λ _ _ edges results room _ _ _. length-snoc-le results edges room;
    extend = λ _ _ _ _ _ _ _. tt;
  }

  -- The search never collects more than `limit` trees.
  pub length-spanning_trees-le :
      (start : String) → length (spanning_trees ref_count max_depth limit candidates start) ≤ limit
  unfolding spanning_trees
  length-spanning_trees-le start =
      grow_rule ref_count max_depth limit candidates Always (λ results. length results ≤ limit)
        limit_rule ref_count (start ∷ []) ((start, 0) ∷ []) [] [] tt (omega arith)

  new :
      (connected : List String) (depths : Dict ℕ) (edge : CandidateEdge)
      → Memᴰ edge (keep_if (is_option connected depths max_depth) candidates)
      → include edge.to_ref connected ≡ edge.to_ref ∷ connected
  new connected depths edge m =
      let t = ((mem-keep_if (is_option connected depths max_depth) edge candidates).0 m).1 in
      include-new edge.to_ref connected (is_option_facts connected depths max_depth edge t).1

  grow-more :
      (f g : ℕ) (connected : List String) (depths : Dict ℕ) (edges : List CandidateEdge)
      (results : List (List CandidateEdge))
      → length connected ≤ ref_count
      → ref_count ≤ length connected + f
      → ref_count ≤ length connected + g
      → grow ref_count max_depth limit candidates f connected depths edges results
        ≡ grow ref_count max_depth limit candidates g connected depths edges results
  unfolding grow
  grow-more zero zero connected depths edges results c hf hg = refl
  grow-more zero (suc g) connected depths edges results c hf hg = ground arith
  grow-more (suc f) zero connected depths edges results c hf hg = ground arith
  grow-more (suc f) (suc g) connected depths edges results c hf hg =
      elim (Bool-cases (leb limit (length results))) [
        | inl e ↦ rw e
        | inr e ↦ rw e (elim (Bool-cases (nat_eq (length connected) ref_count)) [
          | inl full ↦ rw full
          | inr more ↦ rw more (
              foldl_congr _ _ (keep_if (is_option connected depths max_depth) candidates)
                (λ found edge m. rw (new connected depths edge m) (
                  grow-more f g (edge.to_ref ∷ connected) _ _ found (ground arith) (omega arith)
                    (omega arith)))
                results)
        ])
      ]

  -- The search stops by itself: with any fuel above the number of references it returns what it
  -- returns with that number, where at least one reference is requested.
  pub spanning_trees-fuel :
      (start : String) (fuel : ℕ)
      → 0 < ref_count
      → ref_count ≤ fuel
      → grow ref_count max_depth limit candidates fuel (start ∷ []) ((start, 0) ∷ []) [] []
        ≡ spanning_trees ref_count max_depth limit candidates start
  unfolding spanning_trees
  spanning_trees-fuel start fuel pos h =
      grow-more fuel ref_count (start ∷ []) ((start, 0) ∷ []) [] [] (omega arith) (omega arith)
        (omega arith)
