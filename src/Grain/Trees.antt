-- ===== src/Grain/Trees.antt =====
-- On a tree the walks that never turn straight back are bounded, so the shared search returns.
use mathlib.Core.List.Memᴰ
use joinlint.Prelude.{
  ℕ, zero, suc, ◌+◌, ◌*◌, ◌≤◌, ◌<◌, String, ◌≡◌, refl, sym, ap, ◌∙◌, subst, inl, inr, ◌⊎◌, Bool,
  true, false, Option, none, some, List, [], ◌∷◌, ◌++◌, ap₂, subst, Memᴰ, arith, if◌then◌else◌,
  ◌==◌, ==_iff, ==_refl, All, contains, length, contains-head, contains-cons, contains-tail,
  not-eq_of_contains,
}
use joinlint.Grain.{Link, neighbours, is_parent}
use joinlint.Grain.Ends.{WalksBelow}

-- Each link leaves a reference that was seen before, and enters one that was not.
abbrev pub GrowsFrom : List String → List Link → Type 0
GrowsFrom seen [] = Unit
GrowsFrom seen (l ∷ ls) =
    (contains l.a seen ≡ true) × (contains l.b seen ≡ false) × GrowsFrom (l.b ∷ seen) ls

-- `o` stands next to `r` along the link, with `m` matches.
abbrev pub Joins : Link → String → String → ℕ → Type 0
Joins l r o m = (l.a ≡ r) × (o ≡ l.b) × (m ≡ l.forth) ⊎ (l.b ≡ r) × (o ≡ l.a) × (m ≡ l.back)

mem-if {ℓ} :
    {A : Type ℓ} (t : Bool) (x y : A) → Memᴰ y (if t then x ∷ [] else []) → (t ≡ true) × (y ≡ x)
mem-if true x y m = (refl, Memᴰ.eq_of_singleton m)
mem-if false x y m = absurd (Memᴰ.not-nil m)

pub mem-neighbours :
    (ls : List Link) (r o : String) (m : ℕ)
    → Memᴰ (o, m) (neighbours ls r)
    → (l : Link) × Memᴰ l ls × Joins l r o m
unfolding neighbours
mem-neighbours [] r o m h = absurd (Memᴰ.not-nil h)
mem-neighbours (l ∷ ls) r o m h =
    elim (Memᴰ.append_cases
      ((if l.a == r then (l.b, l.forth) ∷ [] else [])
        ++ (if l.b == r then (l.a, l.back) ∷ [] else []))
      h) [
        | inl here ↦ elim (Memᴰ.append_cases (if l.a == r then (l.b, l.forth) ∷ [] else []) here) [
          | inl f ↦
              let (t, e) = mem-if (l.a == r) (l.b, l.forth) (o, m) f in
              (
                l,
                Memᴰ.head refl,
                inl (
                  (==_iff l.a r).0 t,
                  ap (λ (x : String × ℕ). x.0) e,
                  ap (λ (x : String × ℕ). x.1) e,
                ),
              )
          | inr b ↦
              let (t, e) = mem-if (l.b == r) (l.a, l.back) (o, m) b in
              (
                l,
                Memᴰ.head refl,
                inr (
                  (==_iff l.b r).0 t,
                  ap (λ (x : String × ℕ). x.0) e,
                  ap (λ (x : String × ℕ). x.1) e,
                ),
              )
        ]
        | inr later ↦ let (k, n, j) = mem-neighbours ls r o m later in (k, Memᴰ.tail n, j)
      ]

pub neighbours-Joins :
    (ls : List Link) (r o : String) (m : ℕ) (l : Link)
    → Memᴰ l ls
    → Joins l r o m
    → Memᴰ (o, m) (neighbours ls r)
unfolding neighbours
neighbours-Joins [] r o m l h j = absurd (Memᴰ.not-nil h)
neighbours-Joins (k ∷ ls) r o m l h j = elim (Memᴰ.cases_cons h) [
  | inr later ↦
      Memᴰ.append_right
        ((if k.a == r then (k.b, k.forth) ∷ [] else [])
          ++ (if k.b == r then (k.a, k.back) ∷ [] else []))
        (neighbours-Joins ls r o m l later j)
  | inl q ↦ Memᴰ.append_left (neighbours ls r) (first k (subst (λ x. Joins x r o m) q j))
]
  where
    first :
        (k : Link)
        → Joins k r o m
        → Memᴰ {A = String × ℕ}
            (o, m)
            ((if k.a == r then (k.b, k.forth) ∷ [] else [])
              ++ (if k.b == r then (k.a, k.back) ∷ [] else []))
    first k (inl (a, b, f)) =
        rw ((==_iff k.a r).1 a) (Memᴰ.head (ap₂ (λ (x : String) (y : ℕ). (x, y)) b f))
    first k (inr (a, b, f)) = rw ((==_iff k.b r).1 a) (
        Memᴰ.append_right (if k.a == r then (k.b, k.forth) ∷ [] else [])
          (Memᴰ.head (ap₂ (λ (x : String) (y : ℕ). (x, y)) b f)))

-- `l.b` lies one below `l.a`.
abbrev lower : (String → ℕ) → Link → String → ℕ
lower d l r = if l.b == r then suc (d l.a) else d r

-- The depth of every reference, from the depths `d` of those that are seen already.
depths : (String → ℕ) → List Link → String → ℕ
depths d [] = d
depths d (l ∷ ls) = depths (lower d l) ls

depths_keep :
    (d : String → ℕ) (seen : List String) (ls : List Link) (r : String)
    → GrowsFrom seen ls
    → contains r seen ≡ true
    → depths d ls r ≡ d r
unfolding depths
depths_keep d seen [] r g h = refl
depths_keep d seen (l ∷ ls) r g h =
    depths_keep (lower d l) (l.b ∷ seen) ls r g.2 (contains-cons l.b r seen h)
    ∙ rw (not-eq_of_contains l.b r seen g.1 h) refl

depths_step :
    (d : String → ℕ) (seen : List String) (ls : List Link)
    → GrowsFrom seen ls
    → All (λ l. depths d ls l.b ≡ suc (depths d ls l.a)) ls
unfolding depths
depths_step d seen [] g = λ l m. absurd (Memᴰ.not-nil m)
depths_step d seen (l ∷ ls) g = λ k m. elim (Memᴰ.cases_cons m) [
  | inl e ↦
      let after = λ (r : String). depths_keep (lower d l) (l.b ∷ seen) ls r g.2 in
      let at_b = after l.b (contains-head l.b seen) in
      let at_a = after l.a (contains-cons l.b l.a seen g.0) in
      rw e (rw (at_b, at_a, ==_refl l.b, not-eq_of_contains l.b l.a seen g.1 g.0) refl)
  | inr t ↦ depths_step (lower d l) (l.b ∷ seen) ls g.2 k t
]

depths-le :
    (d : String → ℕ) (n : ℕ) (ls : List Link) (r : String)
    → ((x : String) → d x ≤ n)
    → depths d ls r ≤ n + length ls
unfolding depths
depths-le d n [] r h = omega (arith, h r)
depths-le d n (l ∷ ls) r h =
    let later = depths-le (lower d l) (suc n) ls r (λ x. ground (arith, h l.a, h x)) in
    omega (arith, later)

-- What a tree enters was not seen before, and is entered once.
entered-unseen :
    (seen : List String) (ls : List Link) (l : Link)
    → GrowsFrom seen ls
    → Memᴰ l ls
    → contains l.b seen ≡ false
entered-unseen seen [] l g m = absurd (Memᴰ.not-nil m)
entered-unseen seen (k ∷ ls) l g m = elim (Memᴰ.cases_cons m) [
  | inl e ↦ subst (λ (x : Link). contains x.b seen ≡ false) (sym e) g.1
  | inr t ↦ contains-tail k.b l.b seen (entered-unseen (k.b ∷ seen) ls l g.2 t)
]

entered_once :
    (seen : List String) (ls : List Link) (k l : Link)
    → GrowsFrom seen ls
    → Memᴰ k ls
    → Memᴰ l ls
    → k.b ≡ l.b
    → k ≡ l
entered_once seen [] k l g m n e = absurd (Memᴰ.not-nil m)
entered_once seen (x ∷ ls) k l g m n e = elim (Memᴰ.cases_cons m) [
  | inl p ↦ elim (Memᴰ.cases_cons n) [
    | inl q ↦ p ∙ sym q
    | inr t ↦ cc (
      entered-unseen (x.b ∷ seen) ls l g.2 t,
      contains-head x.b seen,
      ap (λ w. contains w (x.b ∷ seen)) e,
      ap (λ (w : Link). contains w.b (x.b ∷ seen)) p,
    )
  ]
  | inr s ↦ elim (Memᴰ.cases_cons n) [
    | inl q ↦ cc (
      entered-unseen (x.b ∷ seen) ls k g.2 s,
      contains-head x.b seen,
      ap (λ w. contains w (x.b ∷ seen)) e,
      ap (λ (w : Link). contains w.b (x.b ∷ seen)) q,
    )
    | inr t ↦ entered_once (x.b ∷ seen) ls k l g.2 s t e
  ]
]

module _ (seen : List String) (links : List Link) (g : GrowsFrom seen links) where
  depth : String → ℕ
  unfolding depths
  depth = depths (λ _. 0) links

  depth-step : (l : Link) → Memᴰ l links → depth l.b ≡ suc (depth l.a)
  unfolding depth
  depth-step = depths_step (λ _. 0) seen links g

  depth-le : (r : String) → depth r ≤ length links
  unfolding depth
  depth-le r = omega (arith, depths-le (λ _. 0) 0 links r (λ x. omega arith))

  -- Below the start of the walk: only deeper references lie ahead.
  down :
      (k : ℕ) (l : Link)
      → Memᴰ l links
      → length links < depth l.b + k
      → WalksBelow (neighbours links) k (l.b, some l.a)
  unfolding is_parent
  down zero l m h = absurd (omega (arith, depth-le l.b))
  down (suc k) l m h = λ o n leaves.
      let (l', m', j) = mem-neighbours links l.b o n leaves.listed in
      elim j [
        | inl (from, to, _) ↦
            let ahead = down k l' m' (omega (arith, depth-step l' m', ap depth from)) in
            rw (to, ← from) ahead
        | inr (entered, back, _) ↦
            let same = entered_once seen links l' l g m' m entered in
            let home : o ≡ l.a = back ∙ ap (λ (x : Link). x.a) same in
            cc (leaves.onward, (==_iff o l.a).1 home)
      ]

  up :
      (k : ℕ) (r : String) (parent : Option String)
      → depth r + length links + 1 < k
      → WalksBelow (neighbours links) k (r, parent)
  up zero r parent h = elim h [ ]
  up (suc k) r parent h = λ o n leaves.
      let (l, m, j) = mem-neighbours links r o n leaves.listed in
      elim j [
        | inl (from, to, _) ↦ rw (to, ← from) (down k l m (omega (arith, depth-step l m)))
        | inr (entered, back, _) ↦
            rw back (up k l.a (some r) (omega (arith, depth-step l m, ap depth entered)))
      ]

  -- Every walk on the tree that never turns straight back has at most twice as many edges as the
  -- tree, and one.
  pub tree-WalksBelow :
      (start : String) → WalksBelow (neighbours links) (2 * length links + 2) (start, none)
  tree-WalksBelow start = up (2 * length links + 2) start none (omega (arith, depth-le start))
