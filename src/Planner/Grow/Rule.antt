-- ===== src/Planner/Grow/Rule.antt =====
-- A proof rule for the recursion of `grow` in src/joinlint/runtime/planner.py.
use joinlint.Prelude.{
  ℕ, zero, suc, ◌+◌, String, ◌≡◌, true, false, List, ◌∷◌, ◌++◌, [], Memᴰ, leb, nat_eq, length,
  keep_if, mem-keep_if, contains, foldl_inv, if_ind,
}
use joinlint.Prelude.Dict.{Dict, put}
use joinlint.Planner.{CandidateEdge}
use joinlint.Planner.Grow.{depth_of, include, include-new, is_option, is_option_facts, grow}

abbrev pub Results : Type 0
Results = List (List CandidateEdge)

module _ {ℓ κ} (ref_count max_depth limit : ℕ) (candidates : List CandidateEdge)
    (Inv : List String → Dict ℕ → List CandidateEdge → Type ℓ) (P : Results → Type κ) where
  -- What to show of an invariant of the arguments of `grow` and a property of its results.
  pub record Rule : Type (ℓ ⊔ κ) where
    pub collect :
        (connected : List String) (depths : Dict ℕ) (edges : List CandidateEdge) (results : Results)
        → leb limit (length results) ≡ false
        → nat_eq (length connected) ref_count ≡ true
        → Inv connected depths edges
        → P results
        → P (results ++ edges ∷ [])
    pub extend :
        (connected : List String) (depths : Dict ℕ) (edges : List CandidateEdge)
        (edge : CandidateEdge)
        → Memᴰ edge candidates
        → is_option connected depths max_depth edge ≡ true
        → Inv connected depths edges
        → Inv
            (edge.to_ref ∷ connected)
            (put edge.to_ref (depth_of depths edge.from_ref + 1) depths)
            (edges ++ edge ∷ [])

  pub grow_rule :
      Rule
      → (fuel : ℕ) (connected : List String) (depths : Dict ℕ) (edges : List CandidateEdge)
        (results : Results)
      → Inv connected depths edges
      → P results
      → P (grow ref_count max_depth limit candidates fuel connected depths edges results)
  unfolding grow
  grow_rule rule zero connected depths edges results i h =
      if_ind P (leb limit (length results)) (λ _. h)
        (λ room.
          if_ind P (nat_eq (length connected) ref_count)
            (λ full. rule.collect connected depths edges results room full i h) (λ _. h))
  grow_rule rule (suc fuel) connected depths edges results i h =
      if_ind P (leb limit (length results)) (λ _. h)
        (λ room.
          if_ind P (nat_eq (length connected) ref_count)
            (λ full. rule.collect connected depths edges results room full i h)
            (λ _.
              foldl_inv P _ (keep_if (is_option connected depths max_depth) candidates)
                (λ found edge m kept.
                  let (listed, t) =
                    (mem-keep_if (is_option connected depths max_depth) edge candidates).0 m in
                  let new : contains edge.to_ref connected ≡ false =
                    (is_option_facts connected depths max_depth edge t).1 in
                  grow_rule rule fuel (include edge.to_ref connected)
                    (put edge.to_ref (depth_of depths edge.from_ref + 1) depths)
                    (edges ++ edge ∷ []) found
                    (rw (include-new edge.to_ref connected new)
                      (rule.extend connected depths edges edge listed t i))
                    kept)
                results h))
