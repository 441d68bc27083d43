-- ===== src/Planner/Safety/Grain.antt =====
-- What it means that a tree of joins keeps the grain of a reference, said without the adjacency and
-- the queue of `grain_compatible` in src/joinlint/runtime/planner.py.
use mathlib.Core.List.Memᴰ
use joinlint.Prelude.{
  ℕ, ◌≤◌, String, ◌≡◌, ◌≢◌, refl, sym, ap, subst, ◌↔◌, ◌⊎◌, inl, inr, false, Option, none, some,
  List, [], ◌∷◌, Memᴰ, ==_cases,
}
use joinlint.Domain.{Traversal}
use joinlint.Grain.{Item, Link, is_parent, neighbours}
use joinlint.Grain.Walks.{Walk, here, on, IsCompatible}
use joinlint.Grain.Trees.{Joins, mem-neighbours, neighbours-Joins}
use joinlint.Planner.{CandidateEdge}
use joinlint.Planner.Safety.{link_of, links_of, reverse_matches}

-- `Step tree a b n`: an edge of the tree joins the two references, in the direction in which it was
-- planned or against it, and a row of `a` has at most `n` matches in `b`. A relationship that was
-- planned from child to parent has its greatest number of children per parent against it, one
-- planned from parent to child its greatest number of parents per child.
pub data Step (tree : List CandidateEdge) : String → String → ℕ → Type 0 where
  along : (e : CandidateEdge) → Memᴰ e tree → Step tree e.from_ref e.to_ref e.max_matches
  to_children :
      (e : CandidateEdge)
      → Memᴰ e tree
      → e.traversal ≡ Traversal.forward
      → Step tree e.to_ref e.from_ref e.relationship.evidence.measurements.max_children_per_parent
  to_parents :
      (e : CandidateEdge)
      → Memᴰ e tree
      → e.traversal ≡ Traversal.reverse
      → Step tree e.to_ref e.from_ref e.relationship.evidence.measurements.max_parents_per_child

-- `Way tree p a q b`: a walk along edges of the tree leads from `a` to `b` and never turns straight
-- back. It came to `a` from `p`, if from anywhere, and comes to `b` from `q`.
pub data Way (tree : List CandidateEdge)
    : Option String → String → Option String → String → Type 0 where
  stay : (p : Option String) (a : String) → Way tree p a p a
  walk :
      (p : Option String) (a b : String) (n : ℕ) {q : Option String} {c : String}
      → Step tree a b n
      → p ≢ some b
      → Way tree (some a) b q c
      → Way tree p a q c

-- No walk from the reference takes a step on which a row can have more than one match.
abbrev pub KeepsGrain : String → List CandidateEdge → Type 0
KeepsGrain expected tree =
    (q : Option String) (a b : String) (n : ℕ)
    → Way tree none expected q a
    → Step tree a b n
    → q ≢ some b
    → n ≤ 1

Traversal_cases : (t : Traversal) → (t ≡ Traversal.forward) ⊎ (t ≡ Traversal.reverse)
Traversal_cases Traversal.forward = inl refl
Traversal_cases Traversal.reverse = inr refl

is_parent_iff : (p : Option String) (b : String) → (is_parent p b ≡ false) ↔ (p ≢ some b)
unfolding is_parent
is_parent_iff none b = (λ _ q. cc, λ _. refl)
is_parent_iff (some a) b = elim (==_cases b a) [
  | inl (q, e) ↦ (λ h. cc, λ n. absurd (n (ap some (sym q))))
  | inr (n, e) ↦ (λ _ q. n (sym (some-inj q)), λ _. e)
]
  where
    some-inj : {x y : String} → some x ≡ some y → x ≡ y
    some-inj q = cc

mem-links_of :
    (tree : List CandidateEdge) (l : Link)
    → Memᴰ l (links_of tree)
    → (e : CandidateEdge) × Memᴰ e tree × (l ≡ link_of e)
mem-links_of [] l m = absurd (Memᴰ.not-nil m)
mem-links_of (e ∷ es) l m = elim (Memᴰ.cases_cons m) [
  | inl q ↦ (e, Memᴰ.head refl, q)
  | inr t ↦ let (f, n, q) = mem-links_of es l t in (f, Memᴰ.tail n, q)
]

links_of-mem :
    (tree : List CandidateEdge) (e : CandidateEdge) → Memᴰ e tree → Memᴰ (link_of e) (links_of tree)
links_of-mem [] e m = absurd (Memᴰ.not-nil m)
links_of-mem (f ∷ es) e m = elim (Memᴰ.cases_cons m) [
  | inl q ↦ Memᴰ.head (ap link_of q)
  | inr t ↦ Memᴰ.tail (links_of-mem es e t)
]

neighbours-Step :
    {tree : List CandidateEdge} {a b : String} {n : ℕ}
    → Step tree a b n
    → Memᴰ (b, n) (neighbours (links_of tree) a)
neighbours-Step {tree} {a} {b} {n} (along e m) =
    neighbours-Joins (links_of tree) a b n (link_of e) (links_of-mem tree e m)
      (inl (refl, refl, refl))
neighbours-Step {tree} {a} {b} {n} (to_children e m t) =
    neighbours-Joins (links_of tree) a b n (link_of e) (links_of-mem tree e m)
      (inr (refl, refl, rw t refl))
neighbours-Step {tree} {a} {b} {n} (to_parents e m t) =
    neighbours-Joins (links_of tree) a b n (link_of e) (links_of-mem tree e m)
      (inr (refl, refl, rw t refl))

back-Step :
    (tree : List CandidateEdge) (e : CandidateEdge)
    → Memᴰ e tree
    → Step tree e.to_ref e.from_ref (reverse_matches e)
back-Step tree e m = elim (Traversal_cases e.traversal) [
  | inl q ↦ rw q (to_children e m q)
  | inr q ↦ rw q (to_parents e m q)
]

Step-neighbours :
    {tree : List CandidateEdge} {a b : String} {n : ℕ}
    → Memᴰ (b, n) (neighbours (links_of tree) a)
    → Step tree a b n
Step-neighbours {tree} {a} {b} {n} h =
    let (l, m, j) = mem-neighbours (links_of tree) a b n h in
    let (e, found, q) = mem-links_of tree l m in of_edge e found (subst (λ x. Joins x a b n) q j)
  where
    of_edge : (e : CandidateEdge) → Memᴰ e tree → Joins (link_of e) a b n → Step tree a b n
    of_edge e m (inl (from, to, matches)) = rw (sym from, to, matches) (along e m)
    of_edge e m (inr (from, to, matches)) = rw (sym from, to, matches) (back-Step tree e m)

Way-Walk :
    {tree : List CandidateEdge} {i k : Item}
    → Walk (neighbours (links_of tree)) i k
    → Way tree i.1 i.0 k.1 k.0
Way-Walk (here i) = stay i.1 i.0
Way-Walk (on i b n l w) =
    walk i.1 i.0 b n (Step-neighbours l.listed) ((is_parent_iff i.1 b).0 l.onward) (Way-Walk w)

Walk-Way :
    {tree : List CandidateEdge} {p q : Option String} {a c : String}
    → Way tree p a q c
    → Walk (neighbours (links_of tree)) (a, p) (c, q)
Walk-Way (stay p a) = here (a, p)
Walk-Way (walk p a b n s f w) =
    on (a, p) b n (record { listed = neighbours-Step s; onward = (is_parent_iff p b).1 f })
      (Walk-Way w)

-- The search of `grain_compatible` looks for the steps that break the grain.
pub IsCompatible-iff :
    (expected : String) (tree : List CandidateEdge)
    → IsCompatible (neighbours (links_of tree)) (expected, none) ↔ KeepsGrain expected tree
IsCompatible-iff expected tree = (
  λ c q a b n w s f.
      c (a, q) b n (Walk-Way w)
        (record { listed = neighbours-Step s; onward = (is_parent_iff q b).1 f }),
  λ k i b n w l.
      k i.1 i.0 b n (Way-Walk w) (Step-neighbours l.listed) ((is_parent_iff i.1 b).0 l.onward),
)
