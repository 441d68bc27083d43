-- ===== src/Planner/Plan/Trees.antt =====
-- The trees that `plan_join` of src/joinlint/runtime/planner.py works with, once it has checked its
-- arguments.
use mathlib.Core.List.Memᴰ
use joinlint.Prelude.{
  ℕ, String, ◌≡◌, ◌⊎◌, refl, ◌∙◌, sym, ap, subst, ◌↔◌, inl, inr, true, some, List, [], ◌∷◌, map,
  Memᴰ, arith, length, is_empty, contains, Bool-cases, All, eq_of_nat_eq, &&-eq-true, contains-map,
  not,
}
use joinlint.Prelude.Dict.{keys, contains-keys-from_items}
use joinlint.Errors.{ok, err, require, ◌>>◌, require-eq-ok}
use joinlint.Domain.{AuthorizedRelationship, EntityDefinition, EntityRef}
use joinlint.Domain.Text.{between}
use joinlint.Planner.{CandidateEdge}
use joinlint.Planner.Candidates.{candidate_edges}
use joinlint.Planner.Candidates.Exact.{Follows, mem-candidate_edges}
use joinlint.Planner.Grow.{spanning_trees}
use joinlint.Planner.Grow.Tree.{IsSpanningTree}
use joinlint.Planner.Grow.Spans.{spanning_trees-IsSpanningTree}
use joinlint.Planner.Safety.{safe_trees}
use joinlint.Planner.Safety.Decides.{IsSafe, safe_trees-keeps}
use joinlint.Planner.Plan.{
  PlanRequest, no_path, refs_are_unique, start_is_valid, grain_is_present, grain_is_stable,
  expected_of, refs_of, ref_name, checked_grain_ref, usable_trees,
}

-- The names of the requested references.
abbrev pub names_of : PlanRequest → List String
names_of request = map ref_name request.entity_refs

-- What the tests of the arguments establish.
pub record Checked (request : PlanRequest) (expected : String) : Type 0 where
  pub count : length (refs_of request.entity_refs) ≡ length (names_of request)
  pub size : between 2 8 (length (refs_of request.entity_refs)) ≡ true
  pub depth : between 1 4 request.max_depth ≡ true
  pub start : contains request.start_ref (names_of request) ≡ true
  pub grain : contains expected (names_of request) ≡ true
  pub chosen : expected ≡ expected_of request

pub ok-inj {ℓ} : {A : Type ℓ} {a b : A} → ok a ≡ ok b → a ≡ b
ok-inj e = cc

length-map {ℓ} : {A : Type ℓ} (f : A → String) (xs : List A) → length (map f xs) ≡ length xs
length-map f [] = refl
length-map f (x ∷ xs) = omega (arith, length-map f xs)

contains-refs_of :
    (refs : List EntityRef) (name : String)
    → contains name (keys (refs_of refs)) ≡ true
    → contains name (map ref_name refs) ≡ true
unfolding contains
contains-refs_of refs name h =
    ground (arith, contains-keys-from_items ref_name (λ (r : EntityRef). r) [] refs name)

pub checked_grain_ref-Checked :
    (request : PlanRequest) (definitions : List EntityDefinition) {expected : String}
    → checked_grain_ref request definitions ≡ ok expected
    → Checked request expected
unfolding checked_grain_ref
checked_grain_ref-Checked request definitions h =
    let (a, h₁) = require-eq-ok (refs_are_unique request) _ _ h in
    let (b, h₂) = require-eq-ok (start_is_valid request) _ _ h₁ in
    let (c, h₃) = require-eq-ok (grain_is_present request) _ _ h₂ in
    let (d, h₄) = require-eq-ok (grain_is_stable request definitions) _ _ h₃ in
    let (size, count) = &&-eq-true (between 2 8 (length (refs_of request.entity_refs))) _ a in
    let (depth, start) = &&-eq-true (between 1 4 request.max_depth) _ b in
    let chosen = ok-inj h₄ in
    record {
      count = count_names (eq_of_nat_eq _ _ count);
      size = size;
      depth = depth;
      start = contains-refs_of request.entity_refs request.start_ref start;
      grain =
          subst (λ (name : String). contains name (names_of request) ≡ true) chosen
            (contains-refs_of request.entity_refs (expected_of request) c);
      chosen = sym chosen;
    }
  where
    count_names :
        length (refs_of request.entity_refs) ≡ length request.entity_refs
        → length (refs_of request.entity_refs) ≡ length (names_of request)
    count_names e = omega (arith, length-map ref_name request.entity_refs, e)

ends-at :
    (relationship : AuthorizedRelationship) (left right : EntityRef) (e : CandidateEdge)
    → Follows relationship left right e
    → right.ref ≡ e.to_ref
ends-at relationship left right e f = elim f.direction [
  | inl (a, b, q) ↦ ap (λ (x : CandidateEdge). x.to_ref) (sym q)
  | inr (a, b, q) ↦ ap (λ (x : CandidateEdge). x.to_ref) (sym q)
]

ends_named :
    (request : PlanRequest) (graph : List AuthorizedRelationship) (e : CandidateEdge)
    → Memᴰ e (candidate_edges request.entity_refs graph)
    → contains e.to_ref (names_of request) ≡ true
ends_named request graph e m =
    let (relationship, left, right, g, l, r, f) =
      (mem-candidate_edges request.entity_refs graph e).0 m in
    subst (λ (name : String). contains name (names_of request) ≡ true)
      (ends-at relationship left right e f) (contains-map ref_name request.entity_refs right r)

-- The trees that `_spanning_trees` finds for a request.
abbrev pub trees_of : PlanRequest → List AuthorizedRelationship → List (List CandidateEdge)
trees_of request graph =
    spanning_trees (length (refs_of request.entity_refs)) request.max_depth 4
      (candidate_edges request.entity_refs graph) request.start_ref

-- `tree` spans the references of the request.
abbrev pub Spans : PlanRequest → List AuthorizedRelationship → List CandidateEdge → Type 0
Spans request graph tree =
    IsSpanningTree (names_of request) request.start_ref request.max_depth
      (candidate_edges request.entity_refs graph) tree

module _ (request : PlanRequest) {expected : String} (checked : Checked request expected)
    (graph : List AuthorizedRelationship) where
  trees_of-Spans : All (Spans request graph) (trees_of request graph)
  trees_of-Spans tree m =
      spanning_trees-IsSpanningTree (names_of request) request.start_ref request.max_depth
        (candidate_edges request.entity_refs graph) checked.start (ends_named request graph) 4 tree
        (subst
          (λ (n : ℕ). Memᴰ tree (
            spanning_trees n request.max_depth 4 (candidate_edges request.entity_refs graph)
              request.start_ref))
          checked.count m)

  -- The filter returns on the trees of the request, and keeps those that are safe.
  pub filtered :
      (safe : List (List CandidateEdge)) × (safe_trees expected (trees_of request graph)
        ≡ some safe)
      × ((t : List CandidateEdge)
          → Memᴰ t safe ↔ (Memᴰ t (trees_of request graph) × IsSafe expected t))
  filtered =
      safe_trees-keeps expected request.start_ref (trees_of request graph)
        (λ t m. IsSpanningTree.attached (trees_of-Spans t m))

  usable_trees_eq :
      {kept : List (List CandidateEdge)}
      → safe_trees expected (trees_of request graph) ≡ some kept
      → usable_trees request expected graph ≡ (
          require (not (is_empty kept)) (no_path "no current authorized join proof exists")
          >> ok kept)
  unfolding usable_trees
  usable_trees_eq e = rw e refl

  pub usable_trees_sound :
      {safe : List (List CandidateEdge)}
      → usable_trees request expected graph ≡ ok safe
      → All (λ t. Spans request graph t × IsSafe expected t) safe
  usable_trees_sound {safe} h t m =
      let (kept, e, keeps) = filtered in
      let (nonempty, q) = require-eq-ok (not (is_empty kept)) _ _ (sym (usable_trees_eq e) ∙ h) in
      let (found, k) = (keeps t).0 (subst (λ ts. Memᴰ t ts) (sym (ok-inj q)) m) in
      (trees_of-Spans t found, k)

  -- With the arguments in order, the trees are computed, or none of them is safe.
  pub usable_trees_cases :
      ((safe : List (List CandidateEdge)) × (usable_trees request expected graph ≡ ok safe))
      ⊎ (usable_trees request expected graph
          ≡ err (no_path "no current authorized join proof exists"))
        × All (λ t. ¬ IsSafe expected t) (trees_of request graph)
  usable_trees_cases =
      let (kept, e, keeps) = filtered in
      elim (Bool-cases (is_empty kept)) [
        | inl none_kept ↦ inr (
          usable_trees_eq e ∙ rw none_kept refl,
          λ t m k. empty kept none_kept ((keeps t).1 (m, k)),
        )
        | inr some_kept ↦ inl (kept, usable_trees_eq e ∙ rw some_kept refl)
      ]
    where
      empty :
          (kept : List (List CandidateEdge))
          → is_empty kept ≡ true
          → {t : List CandidateEdge} → ¬ Memᴰ t kept
      empty [] h m = Memᴰ.not-nil m
      empty (t ∷ ts) h m = cc
