-- ===== src/Grain/Ends.antt =====
-- The shared search ends where the walks that never turn straight back are bounded.
use joinlint.Prelude.{
  ℕ, zero, suc, ◌+◌, ◌<◌, String, ◌≡◌, ◌≢◌, refl, sym, ap, subst, inl, inr, Bool, none, some, List,
  [], ◌∷◌, ◌++◌, Memᴰ, arith, All, Option-cases,
}
use joinlint.Grain.{Item, Adjacency, search}
use joinlint.Grain.Walks.{Leaves, children, mem-children, scan_cases}

-- Every walk from the entry has fewer than `k` edges.
abbrev pub WalksBelow : Adjacency → ℕ → Item → Type 0
WalksBelow adjacency zero i = ⊥
WalksBelow adjacency (suc k) i =
    (other : String) (matches : ℕ)
    → Leaves adjacency i other matches
    → WalksBelow adjacency k (other, some i.0)

pub WalksBelow-mono :
    (adjacency : Adjacency) (k : ℕ) (i : Item)
    → WalksBelow adjacency k i
    → WalksBelow adjacency (suc k) i
WalksBelow-mono adjacency zero i w = absurd w
WalksBelow-mono adjacency (suc k) i w = λ o m l. WalksBelow-mono adjacency k _ (w o m l)

-- `sum(weight(x) for x in xs)`
abbrev pub total {ℓ} : {A : Type ℓ} → (A → ℕ) → List A → ℕ
total weight [] = 0
total weight (x ∷ xs) = weight x + total weight xs

pub total-append {ℓ} :
    {A : Type ℓ} (weight : A → ℕ) (xs ys : List A)
    → total weight (xs ++ ys) ≡ total weight xs + total weight ys
total-append weight [] ys = omega arith
total-append weight (x ∷ xs) ys = omega (arith, total-append weight xs ys)

-- The number of entries that the search takes from the queue for one entry and those that follow
-- from it, within `k` rounds.
unfoldable pub visits : Adjacency → ℕ → Item → ℕ
visits adjacency zero i = 0
visits adjacency (suc k) (ref, parent) =
    suc (total (visits adjacency k) (children parent ref (adjacency ref)))

module _ (adjacency : Adjacency) where
  abbrev items : List (ℕ × Item) → List Item
  items [] = []
  items ((k, i) ∷ ks) = i ∷ items ks

  abbrev Bounds : List (ℕ × Item) → Type 0
  Bounds [] = Unit
  Bounds ((k, i) ∷ ks) = WalksBelow adjacency k i × Bounds ks

  abbrev cost : List (ℕ × Item) → ℕ
  cost [] = 0
  cost ((k, i) ∷ ks) = visits adjacency k i + cost ks

  abbrev within : ℕ → List Item → List (ℕ × Item)
  within k [] = []
  within k (i ∷ is) = (k, i) ∷ within k is

  items-append :
      (ks : List (ℕ × Item)) (k : ℕ) (is : List Item) → items (ks ++ within k is) ≡ items ks ++ is
  items-append [] k [] = refl
  items-append [] k (i ∷ is) = ap (λ l. i ∷ l) (items-append [] k is)
  items-append ((j, x) ∷ ks) k is = ap (λ l. x ∷ l) (items-append ks k is)

  cost-append :
      (ks : List (ℕ × Item)) (k : ℕ) (is : List Item)
      → cost (ks ++ within k is) ≡ cost ks + total (visits adjacency k) is
  cost-append [] k [] = omega arith
  cost-append [] k (i ∷ is) = omega (arith, cost-append [] k is)
  cost-append ((j, x) ∷ ks) k is = omega (arith, cost-append ks k is)

  Bounds-append :
      (ks : List (ℕ × Item)) (k : ℕ) (is : List Item)
      → Bounds ks
      → All (WalksBelow adjacency k) is
      → Bounds (ks ++ within k is)
  Bounds-append [] k [] b w = tt
  Bounds-append [] k (i ∷ is) b w =
      (w i (Memᴰ.head refl), Bounds-append [] k is tt (λ j m. w j (Memᴰ.tail m)))
  Bounds-append ((j, x) ∷ ks) k is b w = (b.0, Bounds-append ks k is b.1 w)

  search_ends :
      (fuel : ℕ) (ks : List (ℕ × Item))
      → Bounds ks
      → cost ks < fuel
      → search adjacency fuel (items ks) ≢ none
  unfolding search visits
  search_ends zero ks b h = absurd (omega arith)
  search_ends (suc fuel) [] b h = λ e. cc
  search_ends (suc fuel) ((zero, i) ∷ ks) b h = absurd b.0
  search_ends (suc fuel) ((suc k, (ref, parent)) ∷ ks) b h =
      let next = children parent ref (adjacency ref) in
      elim (scan_cases parent ref (adjacency ref) (items ks)) [
        | inl (q, narrow) ↦
            rw (q, search)
              (subst (λ l. search adjacency fuel l ≢ none) (items-append ks k next)
                (search_ends fuel (ks ++ within k next)
                  (Bounds-append ks k next b.1 (λ j m.
                    let (o, n, l, p, e) = (mem-children parent ref (adjacency ref) j).0 m in
                    subst (WalksBelow adjacency k) (sym e)
                      (b.0 o n (record { listed = l; onward = p }))))
                  (omega (arith, cost-append ks k next))))
        | inr (q, _) ↦ rw (q, search) (λ e. cc)
      ]

  -- Where every walk from the start has fewer than `k` edges, the search returns with any fuel above
  -- the number of entries that it visits within `k` rounds.
  pub search_returns :
      (k fuel : ℕ) (start : String)
      → WalksBelow adjacency k (start, none)
      → visits adjacency k (start, none) < fuel
      → (answer : Bool) × (search adjacency fuel ((start, none) ∷ []) ≡ some answer)
  search_returns k fuel start w h =
      elim (Option-cases (search adjacency fuel ((start, none) ∷ []))) [
        | inl e ↦ absurd (search_ends fuel ((k, (start, none)) ∷ []) (w, tt) (omega arith) e)
        | inr found ↦ found
      ]
