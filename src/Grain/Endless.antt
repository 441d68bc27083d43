-- ===== src/Grain/Endless.antt =====
-- Where every reference has two different neighbours, the shared search never returns.
use mathlib.Core.List.Memᴰ
use joinlint.Prelude.{
  ℕ, zero, suc, ◌≤◌, String, ◌≡◌, refl, sym, subst, inl, inr, false, Option, none, some, List, [],
  ◌∷◌, ◌++◌, Memᴰ, arith, All,
}
use joinlint.Grain.{Item, Adjacency, is_parent, search}
use joinlint.Grain.Walks.{children, mem-children, scan_cases}

-- The references of `In` lead only to one another, without fan-out, and whatever reference one of
-- them was reached from, it has another neighbour.
pub record IsCrowded (adjacency : Adjacency) (In : String → Type 0) : Type 0 where
  pub closed :
      (ref other : String) (matches : ℕ)
      → In ref
      → Memᴰ (other, matches) (adjacency ref)
      → In other × (matches ≤ 1)
  pub another :
      (ref : String) (parent : Option String)
      → In ref
      → (other : String) × (matches : ℕ) × Memᴰ (other, matches) (adjacency ref)
        × (is_parent parent other ≡ false)

module _ (adjacency : Adjacency) (In : String → Type 0) (crowded : IsCrowded adjacency In) where
  endless :
      (fuel : ℕ) (i : Item) (queue : List Item)
      → Memᴰ i queue
      → All (λ (j : Item). In j.0) queue
      → search adjacency fuel queue ≡ none
  unfolding search
  endless zero i queue m inside = refl
  endless (suc fuel) i [] m inside = absurd (Memᴰ.not-nil m)
  endless (suc fuel) i ((ref, parent) ∷ queue) m inside =
      let at_ref = inside (ref, parent) (Memᴰ.head refl) in
      elim (scan_cases parent ref (adjacency ref) queue) [
        | inl (q, _) ↦
            rw (q, search)
              (let (o, k, n, p) = crowded.another ref parent at_ref in
                endless fuel (o, some ref) (queue ++ children parent ref (adjacency ref))
                  (Memᴰ.append_right queue
                    ((mem-children parent ref (adjacency ref) (o, some ref)).1 (o, k, n, p, refl)))
                  (λ j l. elim (Memᴰ.append_cases queue l) [
                    | inl old ↦ inside j (Memᴰ.tail old)
                    | inr new ↦
                        let (x, y, z, _, e) = (mem-children parent ref (adjacency ref) j).0 new in
                        subst (λ (w : Item). In w.0) (sym e) (crowded.closed ref x y at_ref z).0
                  ]))
        | inr (q, (o, k, n, p, w)) ↦ absurd (too_many (crowded.closed ref o k at_ref n).1 w)
      ]
    where
      too_many : {n : ℕ} → n ≤ 1 → suc 1 ≤ n → ⊥
      too_many p q = omega arith

  -- The search from a reference of such a set returns with no amount of fuel.
  pub search_endless :
      (fuel : ℕ) (start : String) → In start → search adjacency fuel ((start, none) ∷ []) ≡ none
  search_endless fuel start h =
      endless fuel (start, none) ((start, none) ∷ []) (Memᴰ.head refl)
        (λ j m. subst (λ (w : Item). In w.0) (sym (Memᴰ.eq_of_singleton m)) h)
