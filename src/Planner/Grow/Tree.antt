-- ===== src/Planner/Grow/Tree.antt =====
-- What a spanning tree of the requested references is, said without the search of
-- src/joinlint/runtime/planner.py.
use joinlint.Prelude.{
  ℕ, ◌+◌, ◌≤◌, String, ◌≡◌, refl, true, false, List, [], ◌∷◌, ◌++◌, Memᴰ, arith, contains, length,
  Nodup, All,
}
use mathlib.Core.List.Memᴰ
use joinlint.Planner.{CandidateEdge}

-- The references that are connected after the edges, the latest first.
abbrev pub reached : List String → List CandidateEdge → List String
reached seen [] = seen
reached seen (e ∷ es) = reached (e.to_ref ∷ seen) es

-- Each edge leaves a reference that is connected already, and enters one that is not.
abbrev pub Attached : List String → List CandidateEdge → Type 0
Attached seen [] = Unit
Attached seen (e ∷ es) =
    (contains e.from_ref seen ≡ true)
    × (contains e.to_ref seen ≡ false)
    × Attached (e.to_ref ∷ seen) es

-- `HasDepth edges start ref n`: a path of n edges leads from the start to the reference.
pub data HasDepth (edges : List CandidateEdge) (start : String) : String → ℕ → Type 0 where
  root : HasDepth edges start start 0
  below :
      (e : CandidateEdge) {n : ℕ}
      → Memᴰ e edges
      → HasDepth edges start e.from_ref n
      → HasDepth edges start e.to_ref (n + 1)

-- `edges` is a tree of candidate edges that grows from the start, reaches every name, and has no
-- reference deeper than `max_depth`.
pub record IsSpanningTree (names : List String) (start : String) (max_depth : ℕ)
    (candidates edges : List CandidateEdge) : Type 0 where
  pub from_candidates : All (λ e. Memᴰ e candidates) edges
  pub attached : Attached (start ∷ []) edges
  pub covers :
      (name : String)
      → contains name names ≡ true
      → contains name (reached (start ∷ []) edges) ≡ true
  pub shallow :
      (name : String)
      → contains name (reached (start ∷ []) edges) ≡ true
      → (n : ℕ) × (n ≤ max_depth) × HasDepth edges start name n

pub reached-snoc :
    (seen : List String) (es : List CandidateEdge) (e : CandidateEdge)
    → reached seen (es ++ e ∷ []) ≡ e.to_ref ∷ reached seen es
reached-snoc seen [] e = refl
reached-snoc seen (x ∷ es) e = reached-snoc (x.to_ref ∷ seen) es e

pub Attached-snoc :
    (seen : List String) (es : List CandidateEdge) (e : CandidateEdge)
    → Attached seen es
    → contains e.from_ref (reached seen es) ≡ true
    → contains e.to_ref (reached seen es) ≡ false
    → Attached seen (es ++ e ∷ [])
Attached-snoc seen [] e a from to = (from, to, tt)
Attached-snoc seen (x ∷ es) e a from to =
    (a.0, a.1, Attached-snoc (x.to_ref ∷ seen) es e a.2 from to)

-- The references that a tree reaches are distinct.
pub reached-Nodup :
    (seen : List String) (es : List CandidateEdge)
    → Nodup seen
    → Attached seen es
    → Nodup (reached seen es)
reached-Nodup seen [] d a = d
reached-Nodup seen (e ∷ es) d a = reached-Nodup (e.to_ref ∷ seen) es (a.1, d) a.2

-- A tree has one edge for each reference that it adds.
pub length-reached :
    (seen : List String) (es : List CandidateEdge)
    → length (reached seen es) ≡ length seen + length es
length-reached seen [] = omega arith
length-reached seen (e ∷ es) = omega (arith, length-reached (e.to_ref ∷ seen) es)

pub HasDepth-append :
    {es : List CandidateEdge} {start ref : String} {n : ℕ} (more : List CandidateEdge)
    → HasDepth es start ref n
    → HasDepth (es ++ more) start ref n
HasDepth-append more root = root
HasDepth-append more (below e m d) = below e (Memᴰ.append_left more m) (HasDepth-append more d)
