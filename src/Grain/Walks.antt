-- ===== src/Grain/Walks.antt =====
-- What the shared search decides: whether some walk from the expected reference that never turns
-- straight back takes an edge with more than one match.
use mathlib.Core.List.{append-nil, append_assoc}
use mathlib.Core.List.Memᴰ
use joinlint.Prelude.{
  ℕ, zero, suc, ◌≤◌, ◌<◌, String, ◌≡◌, refl, sym, ap, ◌∙◌, subst, ◌↔◌, ◌⊎◌, inl, inr, Bool, true,
  false, Option, none, some, List, [], ◌∷◌, ◌++◌, Memᴰ, arith, ltb, All, Bool-cases,
}
use joinlint.Grain.{Item, Adjacency, is_parent, scan, search}

-- The steps out of a queue entry: to any neighbour but the one it came from.
pub record Leaves (adjacency : Adjacency) (i : Item) (other : String) (matches : ℕ) : Type 0 where
  pub listed : Memᴰ (other, matches) (adjacency i.0)
  pub onward : is_parent i.1 other ≡ false

pub data Walk (adjacency : Adjacency) : Item → Item → Type 0 where
  here : (i : Item) → Walk adjacency i i
  on :
      (i : Item) (other : String) (matches : ℕ) {k : Item}
      → Leaves adjacency i other matches
      → Walk adjacency (other, some i.0) k
      → Walk adjacency i k

-- No walk from the entry takes an edge with more than one match.
abbrev pub IsCompatible : Adjacency → Item → Type 0
IsCompatible adjacency i =
    (k : Item) (other : String) (matches : ℕ)
    → Walk adjacency i k
    → Leaves adjacency k other matches
    → matches ≤ 1

-- A walk from the entry takes an edge with more than one match.
pub record FansOut (adjacency : Adjacency) (i : Item) : Type 0 where
  pub at : Item
  pub other : String
  pub matches : ℕ
  pub walk : Walk adjacency i at
  pub leaves : Leaves adjacency at other matches
  pub many : 1 < matches

-- The entries that `scan` adds to the queue.
unfoldable pub children : Option String → String → List (String × ℕ) → List Item
children parent ref [] = []
children parent ref ((other, matches) ∷ rest) = elim (is_parent parent other) [
  | true ↦ children parent ref rest
  | false ↦ (other, some ref) ∷ children parent ref rest
]

pub mem-children :
    (parent : Option String) (ref : String) (ns : List (String × ℕ)) (j : Item)
    → Memᴰ j (children parent ref ns) ↔ (
        (other : String) × (matches : ℕ) × Memᴰ (other, matches) ns
        × (is_parent parent other ≡ false)
        × (j ≡ (other, some ref)))
unfolding children
mem-children parent ref [] j =
    (λ m. absurd (Memᴰ.not-nil m), λ (o, k, m, _, _). absurd (Memᴰ.not-nil m))
mem-children parent ref ((other, matches) ∷ rest) j = elim (Bool-cases (is_parent parent other)) [
  | inl e ↦
      rw (e, children)
        (
          λ m.
              let (o, k, n, q, p) = (mem-children parent ref rest j).0 m in
              (o, k, Memᴰ.tail n, q, p),
          λ (o, k, m, q, p). elim (Memᴰ.cases_cons m) [
            | inl h ↦ cc (ap (λ (x : String × ℕ). is_parent parent x.0) h)
            | inr t ↦ (mem-children parent ref rest j).1 (o, k, t, q, p)
          ],
        )
  | inr e ↦
      rw (e, children)
        (
          λ m. elim (Memᴰ.cases_cons m) [
            | inl h ↦ (other, matches, Memᴰ.head refl, e, h)
            | inr t ↦
                let (o, k, n, q, p) = (mem-children parent ref rest j).0 t in
                (o, k, Memᴰ.tail n, q, p)
          ],
          λ (o, k, m, q, p). elim (Memᴰ.cases_cons m) [
            | inl h ↦ Memᴰ.head (p ∙ ap (λ (x : String × ℕ). (x.0, some ref)) h)
            | inr t ↦ Memᴰ.tail ((mem-children parent ref rest j).1 (o, k, t, q, p))
          ],
        )
]

-- All steps of a scan without fan-out; or a step with fan-out.
abbrev pub Narrow : Option String → List (String × ℕ) → Type 0
Narrow parent ns =
    (other : String) (matches : ℕ)
    → Memᴰ (other, matches) ns
    → is_parent parent other ≡ false
    → matches ≤ 1

abbrev pub Wide : Option String → List (String × ℕ) → Type 0
Wide parent ns =
    (other : String) × (matches : ℕ) × Memᴰ (other, matches) ns
    × (is_parent parent other ≡ false)
    × (1 < matches)

pub scan_cases :
    (parent : Option String) (ref : String) (ns : List (String × ℕ)) (queue : List Item)
    → (scan parent ref ns queue ≡ some (queue ++ children parent ref ns)) × Narrow parent ns
      ⊎ (scan parent ref ns queue ≡ none) × Wide parent ns
unfolding scan children
scan_cases parent ref [] queue =
    inl (ap some (sym (append-nil queue)), λ o k m _. absurd (Memᴰ.not-nil m))
scan_cases parent ref ((other, matches) ∷ rest) queue = elim (Bool-cases (is_parent parent other)) [
  | inl e ↦
      rw (e, scan, children)
        (elim (scan_cases parent ref rest queue) [
          | inl (q, n) ↦ inl (
            q,
            λ o k m p. elim (Memᴰ.cases_cons m) [
              | inl h ↦ cc (ap (λ (x : String × ℕ). is_parent parent x.0) h)
              | inr t ↦ n o k t p
            ],
          )
          | inr (q, (o, k, m, p, w)) ↦ inr (q, (o, k, Memᴰ.tail m, p, w))
        ])
  | inr e ↦
      rw (e, scan, children)
        (elim (Bool-cases (ltb 1 matches)) [
          | inl w ↦ rw w (inr (refl, (other, matches, Memᴰ.head refl, e, ground arith)))
          | inr w ↦ rw w (elim (scan_cases parent ref rest (queue ++ (other, some ref) ∷ [])) [
            | inl (q, n) ↦ inl (
              q ∙ ap some (append_assoc queue ((other, some ref) ∷ []) (children parent ref rest)),
              λ o k m p. elim (Memᴰ.cases_cons m) [
                | inl h ↦ let same : k ≡ matches = ap (λ (x : String × ℕ). x.1) h in ground arith
                | inr t ↦ n o k t p
              ],
            )
            | inr (q, (o, k, m, p, v)) ↦ inr (q, (o, k, Memᴰ.tail m, p, v))
          ])
        ])
]

-- The first step of a walk.
Walk-cases :
    {adjacency : Adjacency} {i k : Item}
    → Walk adjacency i k
    → (i ≡ k)
      ⊎ ((other : String) × (matches : ℕ) × Leaves adjacency i other matches
          × Walk adjacency (other, some i.0) k)
Walk-cases (here i) = inl refl
Walk-cases (on i other matches l w) = inr (other, matches, l, w)

module _ (adjacency : Adjacency) where
  IsCompatible-of :
      (ref : String) (parent : Option String)
      → Narrow parent (adjacency ref)
      → All (IsCompatible adjacency) (children parent ref (adjacency ref))
      → IsCompatible adjacency (ref, parent)
  IsCompatible-of ref parent narrow below k other matches walk leaves = elim (Walk-cases walk) [
    | inl e ↦
        let l : Leaves adjacency (ref, parent) other matches =
          subst (λ x. Leaves adjacency x other matches) (sym e) leaves in
        narrow other matches l.listed l.onward
    | inr (o, m, l, w) ↦
        below (o, some ref)
          ((mem-children parent ref (adjacency ref) (o, some ref)).1
            (o, m, l.listed, l.onward, refl))
          k other matches w leaves
  ]

  search-true :
      (fuel : ℕ) (queue : List Item)
      → search adjacency fuel queue ≡ some true
      → All (IsCompatible adjacency) queue
  unfolding search
  search-true zero queue h = cc
  search-true (suc fuel) [] h = λ i m. absurd (Memᴰ.not-nil m)
  search-true (suc fuel) ((ref, parent) ∷ queue) h =
      elim (scan_cases parent ref (adjacency ref) queue) [
        | inl (q, narrow) ↦
            let later = search-true fuel _ (rw (q, search) at h) in
            λ i m. elim (Memᴰ.cases_cons m) [
              | inl e ↦
                  subst (IsCompatible adjacency) (sym e)
                    (IsCompatible-of ref parent narrow (λ j n. later j (Memᴰ.append_right queue n)))
              | inr t ↦ later i (Memᴰ.append_left _ t)
            ]
        | inr (q, _) ↦ cc (rw (q, search) at h)
      ]

  search-false :
      (fuel : ℕ) (queue : List Item)
      → search adjacency fuel queue ≡ some false
      → (i : Item) × Memᴰ i queue × FansOut adjacency i
  unfolding search
  search-false zero queue h = cc
  search-false (suc fuel) [] h = cc
  search-false (suc fuel) ((ref, parent) ∷ queue) h =
      elim (scan_cases parent ref (adjacency ref) queue) [
        | inl (q, narrow) ↦
            let (i, m, f) = search-false fuel _ (rw (q, search) at h) in
            elim (Memᴰ.append_cases queue m) [
              | inl old ↦ (i, Memᴰ.tail old, f)
              | inr new ↦
                  let (o, k, n, p, e) = (mem-children parent ref (adjacency ref) i).0 new in
                  (
                    (ref, parent),
                    Memᴰ.head refl,
                    record {
                      at = f.at;
                      other = f.other;
                      matches = f.matches;
                      walk =
                          on (ref, parent) o k (record { listed = n; onward = p })
                            (subst (λ x. Walk adjacency x f.at) e f.walk);
                      leaves = f.leaves;
                      many = f.many;
                    },
                  )
            ]
        | inr (q, (o, k, m, p, w)) ↦ (
          (ref, parent),
          Memᴰ.head refl,
          record {
            at = (ref, parent);
            other = o;
            matches = k;
            walk = here (ref, parent);
            leaves = record { listed = m; onward = p };
            many = w;
          },
        )
      ]

  -- When the search from a reference returns, it answers `True` exactly if no walk from it that
  -- never turns straight back takes an edge with more than one match.
  pub search-decides :
      (fuel : ℕ) (start : String) (answer : Bool)
      → search adjacency fuel ((start, none) ∷ []) ≡ some answer
      → (answer ≡ true) ↔ IsCompatible adjacency (start, none)
  search-decides fuel start true h =
      (λ _. search-true fuel _ h (start, none) (Memᴰ.head refl), λ _. refl)
  search-decides fuel start false h =
      let (i, m, f) = search-false fuel _ h in
      let walk : Walk adjacency (start, none) f.at =
        subst (λ x. Walk adjacency x f.at) (Memᴰ.eq_of_singleton m) f.walk in
      (λ e. cc, λ all. absurd (too_many (all f.at f.other f.matches walk f.leaves) f.many))
    where
      too_many : {n : ℕ} → n ≤ 1 → 1 < n → ⊥
      too_many p q = omega arith
