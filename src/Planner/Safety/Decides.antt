-- ===== src/Planner/Safety/Decides.antt =====
-- On every tree that the planner builds, `_tree_is_safe` of src/joinlint/runtime/planner.py returns,
-- and it says whether the tree keeps the expected grain.
use mathlib.Core.List.Memᴰ
use joinlint.Prelude.{
  ◌+◌, ◌*◌, ◌≤◌, String, ◌≡◌, refl, sym, subst, ◌↔◌, inl, inr, Bool, true, false, some, List, [],
  ◌∷◌, Memᴰ, arith, leb, ltb, if◌then◌else◌, length, count_if, Bool-cases, not-le_of_leb-false, All,
}
use joinlint.Grain.{neighbours}
use joinlint.Grain.Walks.{search-decides}
use joinlint.Grain.Ends.{search_returns}
use joinlint.Grain.Trees.{GrowsFrom, tree-WalksBelow}
use joinlint.Planner.{CandidateEdge}
use joinlint.Planner.Grow.Tree.{Attached}
use joinlint.Planner.Safety.Grain.{KeepsGrain, IsCompatible-iff}
use joinlint.Planner.Safety.{
  links_of, search_fuel, grain_compatible, fans_out, tree_is_safe, safe_trees,
}

links-GrowsFrom :
    (seen : List String) (tree : List CandidateEdge)
    → Attached seen tree
    → GrowsFrom seen (links_of tree)
links-GrowsFrom seen [] a = tt
links-GrowsFrom seen (e ∷ es) a = (a.0, a.1, links-GrowsFrom (e.to_ref ∷ seen) es a.2)

-- What the planner asks of a tree: at most one edge fans out, which means that on it a row can have
-- more than one match, and the tree keeps the grain of the expected reference.
pub record IsSafe (expected : String) (tree : List CandidateEdge) : Type 0 where
  pub one_fan_out : count_if (λ (e : CandidateEdge). ltb 1 e.max_matches) tree ≤ 1
  pub keeps_grain : KeepsGrain expected tree

module _ (expected : String) (seen : List String) (tree : List CandidateEdge)
    (a : Attached seen tree) where
  grain_compatible_returns : (answer : Bool) × (grain_compatible expected tree ≡ some answer)
  unfolding grain_compatible
  grain_compatible_returns =
      search_returns (neighbours (links_of tree)) (2 * length (links_of tree) + 2)
        (search_fuel (links_of tree) expected) expected
        (tree-WalksBelow seen (links_of tree) (links-GrowsFrom seen tree a) expected) (omega arith)

  grain_compatible-decides :
      (answer : Bool)
      → grain_compatible expected tree ≡ some answer
      → (answer ≡ true) ↔ KeepsGrain expected tree
  unfolding grain_compatible
  grain_compatible-decides answer e =
      let found =
        search-decides (neighbours (links_of tree)) (search_fuel (links_of tree) expected) expected
          answer e in
      let compatible = IsCompatible-iff expected tree in
      (λ t. compatible.0 (found.0 t), λ k. found.1 (compatible.1 k))

  -- On a tree `_tree_is_safe` returns, and its answer is whether at most one edge of the tree fans
  -- out and no walk along the edges from the expected reference, which never turns straight back,
  -- takes a step on which a row can have more than one match.
  pub tree_is_safe-decides :
      (answer : Bool) × (tree_is_safe expected tree ≡ some answer)
      × ((answer ≡ true) ↔ IsSafe expected tree)
  unfolding tree_is_safe
  tree_is_safe-decides = elim (Bool-cases (leb (count_if fans_out tree) 1)) [
    | inl few ↦
        let (answer, e) = grain_compatible_returns in
        let decides = grain_compatible-decides answer e in
        rw few (
          answer,
          e,
          (
            λ h. record { one_fan_out = ground arith; keeps_grain = decides.0 h },
            λ k. decides.1 k.keeps_grain,
          ),
        )
    | inr many ↦
        rw many (false, refl, (λ h. cc, λ k. absurd (not-le_of_leb-false _ 1 many k.one_fan_out)))
  ]

-- The filter returns on a list of trees, and keeps those that are safe.
pub safe_trees-keeps :
    (expected start : String) (trees : List (List CandidateEdge))
    → All (Attached (start ∷ [])) trees
    → (safe : List (List CandidateEdge)) × (safe_trees expected trees ≡ some safe)
      × ((t : List CandidateEdge) → Memᴰ t safe ↔ (Memᴰ t trees × IsSafe expected t))
unfolding safe_trees
safe_trees-keeps expected start [] a =
    ([], refl, λ t. (λ m. absurd (Memᴰ.not-nil m), λ h. absurd (Memᴰ.not-nil h.0)))
safe_trees-keeps expected start (tree ∷ trees) a =
    let (answer, e, decides) =
      tree_is_safe-decides expected (start ∷ []) tree (a tree (Memᴰ.head refl)) in
    let (rest, found, keeps) = safe_trees-keeps expected start trees (λ t m. a t (Memᴰ.tail m)) in
    (
      if answer then tree ∷ rest else rest,
      rw (e, safe_trees, found) refl,
      λ t. elim (Bool-cases answer) [
        | inl y ↦ rw y (
          λ m. elim (Memᴰ.cases_cons m) [
            | inl q ↦ (Memᴰ.head q, subst (IsSafe expected) (sym q) (decides.0 y))
            | inr r ↦ let (n, k) = (keeps t).0 r in (Memᴰ.tail n, k)
          ],
          λ (m, k). elim (Memᴰ.cases_cons m) [
            | inl q ↦ Memᴰ.head q
            | inr r ↦ Memᴰ.tail ((keeps t).1 (r, k))
          ],
        )
        | inr n ↦ rw n (
          λ m. let (r, k) = (keeps t).0 m in (Memᴰ.tail r, k),
          λ (m, k). elim (Memᴰ.cases_cons m) [
            | inl q ↦ cc (decides.1 (subst (IsSafe expected) q k))
            | inr r ↦ (keeps t).1 (r, k)
          ],
        )
      ],
    )
