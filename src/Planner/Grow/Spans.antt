-- ===== src/Planner/Grow/Spans.antt =====
-- Every result of `_spanning_trees` is a spanning tree of the requested references, within the
-- depth bound, and there are at most `limit` results.
use mathlib.Core.List.Memᴰ
use joinlint.Prelude.{
  ℕ, ◌+◌, ◌≤◌, String, ◌≡◌, refl, sym, ap, subst, inl, inr, ◌⊎◌, ◌≢◌, true, false, some, List, [],
  ◌∷◌, ◌++◌, Memᴰ, arith, nat_eq, ==_cases, length, contains, All, Nodup, contains-cons_cases,
  contains_of_length, All-snoc,
}
use joinlint.Prelude.Dict.{Dict, get, put, get-put, get-first}
use joinlint.Planner.{CandidateEdge}
use joinlint.Planner.Grow.{depth_of, is_option, is_option_facts, spanning_trees}
use joinlint.Planner.Grow.Rule.{Rule, grow_rule}
use joinlint.Planner.Grow.Tree.{
  reached, Attached, HasDepth, root, below, IsSpanningTree, reached-snoc, Attached-snoc,
  reached-Nodup, HasDepth-append,
}

pub depth_of_found :
    (depths : Dict ℕ) (ref : String) {n : ℕ} → get ref depths ≡ some n → depth_of depths ref ≡ n
depth_of_found depths ref e = rw (e, depth_of)

pub not-contains-nil : (name : String) → contains name [] ≢ true
unfolding contains
not-contains-nil name h = cc

contains_nothing : (name : String) → contains name [] ≡ false
unfolding contains
contains_nothing name = refl

module _ (names : List String) (start : String) (max_depth : ℕ) (candidates : List CandidateEdge)
    (start_named : contains start names ≡ true)
    (ends_named : (e : CandidateEdge) → Memᴰ e candidates → contains e.to_ref names ≡ true) where
  -- What holds of the arguments of every call of `grow`.
  pub record Growing (connected : List String) (depths : Dict ℕ) (edges : List CandidateEdge)
      : Type 0 where
    pub connects : connected ≡ reached (start ∷ []) edges
    pub attached : Attached (start ∷ []) edges
    pub from_candidates : All (λ e. Memᴰ e candidates) edges
    pub inside : (name : String) → contains name connected ≡ true → contains name names ≡ true
    pub shallow :
        (name : String)
        → contains name connected ≡ true
        → (n : ℕ) × (get name depths ≡ some n) × (n ≤ max_depth) × HasDepth edges start name n

  abbrev Spans : List (List CandidateEdge) → Type 0
  Spans = All (IsSpanningTree names start max_depth candidates)

  pub Growing-start : Growing (start ∷ []) ((start, 0) ∷ []) []
  Growing-start = record {
    connects = refl;
    attached = tt;
    from_candidates = λ e m. absurd (Memᴰ.not-nil m);
    inside = λ name h. elim (contains-cons_cases start name [] h) [
      | inl q ↦ subst (λ w. contains w names ≡ true) q start_named
      | inr n ↦ absurd (not-contains-nil name n)
    ];
    shallow = λ name h. elim (contains-cons_cases start name [] h) [
      | inl q ↦
          subst
            (λ w.
              (n : ℕ) × (get w ((start, 0) ∷ []) ≡ some n)
              × (n ≤ max_depth)
              × HasDepth [] start w n)
            q (0, get-first start 0 [], omega arith, root)
      | inr n ↦ absurd (not-contains-nil name n)
    ];
  }

  pub Growing-attach :
      (connected : List String) (depths : Dict ℕ) (edges : List CandidateEdge)
      (edge : CandidateEdge)
      → Growing connected depths edges
      → Memᴰ edge candidates
      → is_option connected depths max_depth edge ≡ true
      → Growing
          (edge.to_ref ∷ connected)
          (put edge.to_ref (depth_of depths edge.from_ref + 1) depths)
          (edges ++ edge ∷ [])
  Growing-attach connected depths edges edge g m t =
      let (from, to, deep) = is_option_facts connected depths max_depth edge t in
      let (n, found, fits, path) = g.shallow edge.from_ref from in
      let depth : depth_of depths edge.from_ref ≡ n = depth_of_found depths edge.from_ref found in
      record {
        connects = rw reached-snoc (ap (λ c. edge.to_ref ∷ c) g.connects);
        attached =
            Attached-snoc (start ∷ []) edges edge g.attached
              (subst (λ c. contains edge.from_ref c ≡ true) g.connects from)
              (subst (λ c. contains edge.to_ref c ≡ false) g.connects to);
        from_candidates = All-snoc _ edges g.from_candidates m;
        inside = λ name h. elim (contains-cons_cases edge.to_ref name connected h) [
          | inl q ↦ subst (λ w. contains w names ≡ true) q (ends_named edge m)
          | inr old ↦ g.inside name old
        ];
        shallow = λ name h. elim (==_cases edge.to_ref name) [
          | inl (q, e) ↦ (
            n + 1,
            rw (get-put, e, depth) refl,
            omega arith,
            subst (λ w. HasDepth (edges ++ edge ∷ []) start w (n + 1)) q
                (below edge (Memᴰ.append_right edges (Memᴰ.head refl))
                  (HasDepth-append (edge ∷ []) path)),
          )
          | inr (ne, e) ↦
              let old = or_false (contains-cons_cases edge.to_ref name connected h) ne in
              let (k, got, small, way) = g.shallow name old in
              (k, rw (get-put, e) got, small, HasDepth-append (edge ∷ []) way)
        ];
      }
    where
      or_false : {A B : Type 0} → A ⊎ B → ¬ A → B
      or_false (inl a) n = absurd (n a)
      or_false (inr b) n = b

  -- The `if` that ends a branch of the search, at a call whose references are all connected.
  complete-IsSpanningTree :
      {connected : List String} {depths : Dict ℕ} {edges : List CandidateEdge}
      → Growing connected depths edges
      → nat_eq (length connected) (length names) ≡ true
      → IsSpanningTree names start max_depth candidates edges
  complete-IsSpanningTree {connected} {depths} {edges} g full = record {
    from_candidates = g.from_candidates;
    attached = g.attached;
    covers = λ name h.
        subst (λ c. contains name c ≡ true) g.connects
          (contains_of_length connected names
            (subst Nodup (sym g.connects)
              (reached-Nodup (start ∷ []) edges (contains_nothing start, tt) g.attached))
            g.inside (ground arith) name h);
    shallow = λ name h.
        let (n, _, fits, path) =
          g.shallow name (subst (λ c. contains name c ≡ true) (sym g.connects) h) in
        (n, fits, path);
  }

  Spans-rule : (limit : ℕ) → Rule (length names) max_depth limit candidates Growing Spans
  Spans-rule limit = record {
    collect = λ _ _ _ results _ full g h. All-snoc _ results h (complete-IsSpanningTree g full);
    extend = λ connected depths edges edge m t g. Growing-attach connected depths edges edge g m t;
  }

  -- Every result of the search is a spanning tree of the names within the depth bound, made of
  -- candidate edges, where the start and the ends of the candidates are among the names.
  pub spanning_trees-IsSpanningTree :
      (limit : ℕ) (tree : List CandidateEdge)
      → Memᴰ tree (spanning_trees (length names) max_depth limit candidates start)
      → IsSpanningTree names start max_depth candidates tree
  unfolding spanning_trees
  spanning_trees-IsSpanningTree limit tree =
      grow_rule (length names) max_depth limit candidates Growing Spans (Spans-rule limit)
        (length names) (start ∷ []) ((start, 0) ∷ []) [] [] Growing-start
        (λ t m. absurd (Memᴰ.not-nil m)) tree
