-- ===== src/Planner/Grow/Complete.antt =====
-- `_spanning_trees` misses no tree unless it stopped at its limit.
use mathlib.Core.List.{append-nil, append_assoc}
use mathlib.Core.List.Memᴰ
use joinlint.Prelude.{
  ℕ, zero, suc, ◌+◌, ◌≤◌, ◌<◌, String, ◌≡◌, refl, sym, ap, ◌∙◌, subst, inl, inr, true, false, some,
  List, [], ◌∷◌, ◌++◌, foldl, Memᴰ, arith, leb, nat_eq, length, keep_if, contains, All,
  length-append, mem-keep_if, foldl_inv, ==_cases, contains-cons_cases,
}
use joinlint.Prelude.Dict.{Dict, get, put, get-put, get-first}
use joinlint.Planner.{CandidateEdge}
use joinlint.Planner.Grow.{depth_of, include, include-new, is_option, grow, spanning_trees}
use joinlint.Planner.Grow.Spans.{depth_of_found, not-contains-nil}
use joinlint.Planner.Grow.Rule.{Results, Rule, grow_rule}
use joinlint.Planner.Grow.Tree.{Attached}

-- What one item brings into a loop stays, if later steps keep it. `Small` is a bound on the result
-- that earlier results meet too.
foldl_hits {ℓ κ μ ν} :
    {A : Type ℓ} {B : Type κ} (Q : B → Type μ) (Small : B → Type ν) (f : B → A → B)
    → ((b : B) (y : A) → Q b → Q (f b y))
    → ((b : B) (y : A) → Small (f b y) → Small b)
    → (x : A) → ((b : B) → Small (f b x) → Q (f b x))
    → (xs : List A) → Memᴰ x xs
    → (b : B) → Small (foldl f b xs)
    → Q (foldl f b xs)
foldl_hits Q Small f keep back x hit [] m b s = absurd (Memᴰ.not-nil m)
foldl_hits Q Small f keep back x hit (y ∷ ys) m b s = elim (Memᴰ.cases_cons m) [
  | inl q ↦
      foldl_inv Q f ys (λ c z _. keep c z) (f b y)
        (subst (λ z. Small (f b z) → Q (f b z)) q (hit b) (small_back ys (f b y) s))
  | inr t ↦ foldl_hits Q Small f keep back x hit ys t (f b y) s
]
  where
    small_back : (zs : List _) (c : _) → Small (foldl f c zs) → Small c
    small_back [] c h = h
    small_back (z ∷ zs) c h = back c z (small_back zs (f c z) h)

-- `depth` numbers the references by their distance from the start along the edges.
abbrev pub IsDepth : (String → ℕ) → ℕ → List CandidateEdge → Type 0
IsDepth depth max_depth tree =
    All (λ e. (depth e.to_ref ≡ depth e.from_ref + 1) × (depth e.to_ref ≤ max_depth)) tree

module _ (ref_count max_depth limit : ℕ) (candidates : List CandidateEdge) where
  abbrev run : ℕ → List String → Dict ℕ → List CandidateEdge → Results → Results
  run = grow ref_count max_depth limit candidates

  abbrev Always : List String → Dict ℕ → List CandidateEdge → Type 0
  Always _ _ _ = Unit

  -- A call only adds results.
  abbrev Grows : Results → Results → Type 0
  Grows before after =
      ((tree : List CandidateEdge) → Memᴰ tree before → Memᴰ tree after)
      × (length before ≤ length after)

  Grows-rule : (before : Results) → Rule ref_count max_depth limit candidates Always (Grows before)
  Grows-rule before = record {
    collect = λ _ _ edges results _ _ _ h. (
      λ tree m. Memᴰ.append_left _ (h.0 tree m),
      omega (arith, length-append results (edges ∷ [])),
    );
    extend = λ _ _ _ _ _ _ _. tt;
  }

  grow-Grows :
      (fuel : ℕ) (connected : List String) (depths : Dict ℕ) (edges : List CandidateEdge)
      (results : Results)
      → Grows results (run fuel connected depths edges results)
  grow-Grows fuel connected depths edges results =
      grow_rule ref_count max_depth limit candidates Always (Grows results) (Grows-rule results)
        fuel connected depths edges results tt (λ tree m. m, omega arith)

  -- The depths that the search keeps are those of the numbering.
  abbrev Agrees : (String → ℕ) → List String → Dict ℕ → Type 0
  Agrees depth connected depths =
      (name : String) → contains name connected ≡ true → get name depths ≡ some (depth name)

  Agrees-put :
      (depth : String → ℕ) (connected : List String) (depths : Dict ℕ) (edge : CandidateEdge)
      → Agrees depth connected depths
      → contains edge.from_ref connected ≡ true
      → depth edge.to_ref ≡ depth edge.from_ref + 1
      → Agrees depth
          (edge.to_ref ∷ connected)
          (put edge.to_ref (depth_of depths edge.from_ref + 1) depths)
  Agrees-put depth connected depths edge agree from step name h = elim (==_cases edge.to_ref name) [
    | inl (q, e) ↦
        rw (get-put, e)
          (cc (depth_of_found depths edge.from_ref (agree edge.from_ref from), step, ap depth q))
    | inr (ne, e) ↦
        rw (get-put, e)
          (elim (contains-cons_cases edge.to_ref name connected h) [
            | inl q ↦ absurd (ne q)
            | inr old ↦ agree name old
          ])
  ]

  -- The three ways in which a call of `grow` goes on.
  grow_collects :
      (fuel : ℕ) (connected : List String) (depths : Dict ℕ) (edges : List CandidateEdge)
      (results : Results)
      → leb limit (length results) ≡ false
      → nat_eq (length connected) ref_count ≡ true
      → run fuel connected depths edges results ≡ results ++ edges ∷ []
  unfolding grow
  grow_collects zero connected depths edges results room full = rw (room, full)
  grow_collects (suc fuel) connected depths edges results room full = rw (room, full)

  abbrev child : ℕ → List String → Dict ℕ → List CandidateEdge → Results → CandidateEdge → Results
  child fuel connected depths edges found edge =
      run fuel (include edge.to_ref connected)
        (put edge.to_ref (depth_of depths edge.from_ref + 1) depths) (edges ++ edge ∷ []) found

  grow_branches :
      (fuel : ℕ) (connected : List String) (depths : Dict ℕ) (edges : List CandidateEdge)
      (results : Results)
      → leb limit (length results) ≡ false
      → nat_eq (length connected) ref_count ≡ false
      → run (suc fuel) connected depths edges results
        ≡ foldl
            (child fuel connected depths edges)
            results
            (keep_if (is_option connected depths max_depth) candidates)
  unfolding grow
  grow_branches fuel connected depths edges results room more = rw (room, more)

  room_of_small :
      (fuel : ℕ) (connected : List String) (depths : Dict ℕ) (edges : List CandidateEdge)
      (results : Results)
      → length (run fuel connected depths edges results) < limit
      → leb limit (length results) ≡ false
  room_of_small fuel connected depths edges results small =
      ground (arith, (grow-Grows fuel connected depths edges results).1)

  is_option_of :
      (depth : String → ℕ) (connected : List String) (depths : Dict ℕ) (edge : CandidateEdge)
      → Agrees depth connected depths
      → contains edge.from_ref connected ≡ true
      → contains edge.to_ref connected ≡ false
      → depth edge.to_ref ≡ depth edge.from_ref + 1
      → depth edge.to_ref ≤ max_depth
      → is_option connected depths max_depth edge ≡ true
  is_option_of depth connected depths edge agree from to step fits =
      ground (arith, depth_of_found depths edge.from_ref (agree edge.from_ref from))

  grow-complete :
      (depth : String → ℕ) (rest : List CandidateEdge) (fuel : ℕ) (connected : List String)
      (depths : Dict ℕ) (edges : List CandidateEdge) (results : Results)
      → Agrees depth connected depths
      → Attached connected rest
      → All (λ e. Memᴰ e candidates) rest
      → IsDepth depth max_depth rest
      → length connected + length rest ≡ ref_count
      → length rest ≤ fuel
      → length (run fuel connected depths edges results) < limit
      → Memᴰ (edges ++ rest) (run fuel connected depths edges results)
  grow-complete depth [] fuel connected depths edges results g a c d n f small =
      rw
        (
          grow_collects fuel connected depths edges results
              (room_of_small fuel connected depths edges results small) (ground arith),
          append-nil,
        )
        (Memᴰ.append_right results (Memᴰ.head refl))
  grow-complete depth (e ∷ rest) zero connected depths edges results g a c d n f small =
      absurd (omega arith)
  grow-complete depth (e ∷ rest) (suc fuel) connected depths edges results g a c d n f small =
      let (step, fits) = d e (Memᴰ.head refl) in
      let (from, to, later) = a in
      let opened =
        grow_branches fuel connected depths edges results
          (room_of_small (suc fuel) connected depths edges results small) (ground arith) in
      rw opened (
        foldl_hits (Memᴰ (edges ++ e ∷ rest)) (λ (r : Results). length r < limit)
          (child fuel connected depths edges)
          (λ found y. (grow-Grows fuel _ _ _ found).0 (edges ++ e ∷ rest))
          (λ found y fewer. omega (
            arith,
            (grow-Grows fuel (include y.to_ref connected)
                (put y.to_ref (depth_of depths y.from_ref + 1) depths) (edges ++ y ∷ []) found).1,
          ))
          e
          (λ found fewer.
            subst (λ t. Memᴰ t (child fuel connected depths edges found e))
              (append_assoc edges (e ∷ []) rest)
              (rw (include-new e.to_ref connected to) (
                grow-complete depth rest fuel (e.to_ref ∷ connected) _ (edges ++ e ∷ []) found
                  (Agrees-put depth connected depths e g from step) later (λ x m. c x (Memᴰ.tail m))
                  (λ x m. d x (Memᴰ.tail m)) (omega arith) (omega arith)
                  (subst
                    (λ c.
                      length (
                        run fuel c (put e.to_ref (depth_of depths e.from_ref + 1) depths)
                          (edges ++ e ∷ []) found)
                      < limit)
                    (include-new e.to_ref connected to) fewer))))
          (keep_if (is_option connected depths max_depth) candidates)
          ((mem-keep_if (is_option connected depths max_depth) e candidates).1
            (c e (Memᴰ.head refl), is_option_of depth connected depths e g from to step fits))
          results (subst (λ (r : Results). length r < limit) opened small))

  -- A tree of candidate edges that grows from the start to as many references as were requested,
  -- with no reference deeper than the bound, is among the results, unless the search stopped at
  -- its limit.
  pub spanning_trees-complete :
      (start : String) (depth : String → ℕ) (tree : List CandidateEdge)
      → depth start ≡ 0
      → Attached (start ∷ []) tree
      → All (λ e. Memᴰ e candidates) tree
      → IsDepth depth max_depth tree
      → 1 + length tree ≡ ref_count
      → length (spanning_trees ref_count max_depth limit candidates start) < limit
      → Memᴰ tree (spanning_trees ref_count max_depth limit candidates start)
  unfolding spanning_trees
  spanning_trees-complete start depth tree root a c d n small =
      grow-complete depth tree ref_count (start ∷ []) ((start, 0) ∷ []) [] [] from_root a c d
        (omega arith) (omega arith) small
    where
      from_root : Agrees depth (start ∷ []) ((start, 0) ∷ [])
      from_root name h = elim (contains-cons_cases start name [] h) [
        | inl q ↦
            subst (λ w. get w ((start, 0) ∷ []) ≡ some (depth w)) q
              (get-first start 0 [] ∙ ap some (sym root))
        | inr n ↦ absurd (not-contains-nil name n)
      ]
