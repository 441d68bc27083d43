-- ===== src/Prelude/Lists.antt =====
-- Lists measured by native numbers, and Boolean searches.
use Prim.Native.Nat.{ℕ, zero, suc, ◌+◌, ◌≤◌, ◌<◌}
use Prim.Native.String.{String}
use mathlib.Core.Path.{◌≡◌, refl, sym, ap, subst}
use mathlib.Core.Logic.{◌⊎◌, ◌↔◌, inl, inr}
use mathlib.Core.Bool.{Bool, true, false, not, ◌&&◌, ◌||◌}
use mathlib.Core.Option.{Option, none, some}
use mathlib.Core.List.{List, [], ◌∷◌, ◌++◌, foldl, map, Memᴰ}
use mathlib.Core.List.Memᴰ
use native.Mathlib.Omega.{arith}
use joinlint.Prelude.Tests.{if◌then◌else◌, ◌==◌, ==_iff, ==_refl, ==_cases, Bool-cases}

module _ {ℓ} {A : Type ℓ} where
  abbrev pub length : List A → ℕ
  length [] = 0
  length (x ∷ xs) = suc (length xs)

  pub length-append : (xs ys : List A) → length (xs ++ ys) ≡ length xs + length ys
  length-append [] ys = omega arith
  length-append (x ∷ xs) ys = omega (arith, length-append xs ys)

  abbrev pub take : ℕ → List A → List A
  take zero xs = []
  take (suc n) [] = []
  take (suc n) (x ∷ xs) = x ∷ take n xs

  abbrev pub drop : ℕ → List A → List A
  drop zero xs = xs
  drop (suc n) [] = []
  drop (suc n) (x ∷ xs) = drop n xs

  -- `not xs`
  abbrev pub is_empty : List A → Bool
  is_empty [] = true
  is_empty (x ∷ xs) = false

  -- `[x for x in xs if p(x)]`
  abbrev pub keep_if : (A → Bool) → List A → List A
  keep_if p [] = []
  keep_if p (x ∷ xs) = if p x then x ∷ keep_if p xs else keep_if p xs

  -- `any(p(x) for x in xs)` and `all(p(x) for x in xs)`
  abbrev pub any : (A → Bool) → List A → Bool
  any p [] = false
  any p (x ∷ xs) = p x || any p xs

  abbrev pub all : (A → Bool) → List A → Bool
  all p [] = true
  all p (x ∷ xs) = p x && all p xs

  -- `next((x for x in xs if p(x)), None)`
  abbrev pub find : (A → Bool) → List A → Option A
  find p [] = none
  find p (x ∷ xs) = if p x then some x else find p xs

  -- `sum(p(x) for x in xs)`
  abbrev pub count_if : (A → Bool) → List A → ℕ
  count_if p [] = 0
  count_if p (x ∷ xs) = (if p x then 1 else 0) + count_if p xs

  -- Every item has the property.
  abbrev pub All {κ} : (A → Type κ) → List A → Type (ℓ ⊔ κ)
  All P xs = (x : A) → Memᴰ x xs → P x

  pub mem-keep_if :
      (p : A → Bool) (x : A) (xs : List A) → Memᴰ x (keep_if p xs) ↔ (Memᴰ x xs × (p x ≡ true))
  mem-keep_if p x [] = (λ m. absurd (Memᴰ.not-nil m), λ m. m.0)
  mem-keep_if p x (y ∷ ys) = elim (Bool-cases (p y)) [
    | inl e ↦ rw e (
      λ m. elim (Memᴰ.cases_cons m) [
        | inl q ↦ (Memᴰ.head q, rw q e)
        | inr t ↦ (Memᴰ.tail ((mem-keep_if p x ys).0 t).0, ((mem-keep_if p x ys).0 t).1)
      ],
      λ (m, h). elim (Memᴰ.cases_cons m) [
        | inl q ↦ Memᴰ.head q
        | inr t ↦ Memᴰ.tail ((mem-keep_if p x ys).1 (t, h))
      ],
    )
    | inr e ↦ rw e (
      λ m. (Memᴰ.tail ((mem-keep_if p x ys).0 m).0, ((mem-keep_if p x ys).0 m).1),
      λ (m, h). elim (Memᴰ.cases_cons m) [
        | inl q ↦ cc (ap p q)
        | inr t ↦ (mem-keep_if p x ys).1 (t, h)
      ],
    )
  ]

  pub find-eq-some :
      (p : A → Bool) (xs : List A) {x : A} → find p xs ≡ some x → Memᴰ x xs × (p x ≡ true)
  find-eq-some p [] h = cc
  find-eq-some p (y ∷ ys) h = elim (Bool-cases (p y)) [
    | inl e ↦
        let q : some y ≡ some _ = rw e at h in ground (arith, Memᴰ.head {xs = ys} (sym (unsome q)))
    | inr e ↦ let r = find-eq-some p ys (rw e at h) in (Memᴰ.tail r.0, r.1)
  ]
    where
      unsome : {a b : A} → some a ≡ some b → a ≡ b
      unsome q = cc

-- `x in xs` of texts.
unfoldable pub contains : String → List String → Bool
contains x [] = false
contains x (y ∷ ys) = y == x || contains x ys

pub contains_iff : (x : String) (xs : List String) → (contains x xs ≡ true) ↔ Memᴰ x xs
unfolding contains
contains_iff x [] = (λ h. cc, λ m. absurd (Memᴰ.not-nil m))
contains_iff x (y ∷ ys) = elim (==_cases y x) [
  | inl (q, e) ↦ rw e (λ _. Memᴰ.head (sym q), λ _. refl)
  | inr (n, e) ↦ rw e (
    λ h. Memᴰ.tail ((contains_iff x ys).0 h),
    λ m. elim (Memᴰ.cases_cons m) [ inl q ↦ absurd (n (sym q)) | inr t ↦ (contains_iff x ys).1 t ],
  )
]

-- The distinct texts of a list, in order of first occurrence: the elements of `set(xs)`.
unfoldable pub distinct_from : List String → List String → List String
distinct_from seen [] = []
distinct_from seen (x ∷ xs) = elim (contains x seen) [
  | true ↦ distinct_from seen xs
  | false ↦ x ∷ distinct_from (x ∷ seen) xs
]

unfoldable pub distinct : List String → List String
unfolding distinct_from contains
distinct xs = distinct_from [] xs

-- `a <= b` of two sets of texts.
unfoldable pub subset : List String → List String → Bool
unfolding contains
subset xs ys = all (λ x. contains x ys) xs

-- Every text occurs once.
abbrev pub Nodup : List String → Type 0
Nodup [] = Unit
Nodup (x ∷ xs) = (contains x xs ≡ false) × Nodup xs

module _ {ℓ κ} {A : Type ℓ} {B : Type κ} where
  -- `[y for x in xs for y in f(x)]`
  unfoldable pub concat_map : (A → List B) → List A → List B
  concat_map f [] = []
  concat_map f (x ∷ xs) = f x ++ concat_map f xs

  pub mem-concat_map :
      (f : A → List B) (y : B) (xs : List A)
      → Memᴰ y (concat_map f xs) ↔ ((x : A) × Memᴰ x xs × Memᴰ y (f x))
  unfolding concat_map
  mem-concat_map f y [] = (λ m. absurd (Memᴰ.not-nil m), λ (x, m, _). absurd (Memᴰ.not-nil m))
  mem-concat_map f y (x ∷ xs) = (
    λ m. elim (Memᴰ.append_cases (f x) m) [
      | inl h ↦ (x, Memᴰ.head refl, h)
      | inr t ↦ let (z, n, h) = (mem-concat_map f y xs).0 t in (z, Memᴰ.tail n, h)
    ],
    λ (z, n, h). elim (Memᴰ.cases_cons n) [
      | inl q ↦ Memᴰ.append_left _ (subst (λ w. Memᴰ y (f w)) q h)
      | inr t ↦ Memᴰ.append_right (f x) ((mem-concat_map f y xs).1 (z, t, h))
    ],
  )

-- A property that each step keeps holds after a loop.
pub foldl_inv {ℓ κ μ} :
    {A : Type ℓ} {B : Type κ} (P : B → Type μ) (f : B → A → B) (xs : List A)
    → ((b : B) (x : A) → Memᴰ x xs → P b → P (f b x))
    → (b : B) → P b
    → P (foldl f b xs)
foldl_inv P f [] keep b h = h
foldl_inv P f (x ∷ xs) keep b h =
    foldl_inv P f xs (λ c y m. keep c y (Memᴰ.tail m)) (f b x) (keep b x (Memᴰ.head refl) h)

-- Loops whose steps agree agree.
pub foldl_congr {ℓ κ} :
    {A : Type ℓ} {B : Type κ} (f g : B → A → B) (xs : List A)
    → ((b : B) (x : A) → Memᴰ x xs → f b x ≡ g b x)
    → (b : B) → foldl f b xs ≡ foldl g b xs
foldl_congr f g [] same b = refl
foldl_congr f g (x ∷ xs) same b =
    rw (same b x (Memᴰ.head refl)) (foldl_congr f g xs (λ c y m. same c y (Memᴰ.tail m)) (g b x))

-- `[x for x in xs if x != k]`
without : String → List String → List String
without k [] = []
without k (x ∷ xs) = if x == k then without k xs else x ∷ without k xs

length-without-le : (k : String) (xs : List String) → length (without k xs) ≤ length xs
unfolding without
length-without-le k [] = omega arith
length-without-le k (x ∷ xs) = ground (arith, length-without-le k xs)

length-without-lt :
    (k : String) (xs : List String) → contains k xs ≡ true → length (without k xs) < length xs
unfolding without contains
length-without-lt k [] h = cc
length-without-lt k (x ∷ xs) h = ground (arith, length-without-lt k xs, length-without-le k xs)

contains-without :
    (k x : String) (xs : List String) → contains x (without k xs) ≡ (not (k == x) && contains x xs)
unfolding without contains
contains-without k x [] = ground arith
contains-without k x (y ∷ ys) =
    ground (arith, ==_iff y k, ==_iff y x, ==_iff k x, contains-without k x ys)

pub contains-head : (x : String) (xs : List String) → contains x (x ∷ xs) ≡ true
unfolding contains
contains-head x xs = rw (==_refl x)

pub contains-cons :
    (x y : String) (xs : List String) → contains y xs ≡ true → contains y (x ∷ xs) ≡ true
unfolding contains
contains-cons x y xs h = ground arith

pub contains-cons-eq :
    (x y : String) (xs : List String) → (x == y) ≡ true → contains y (x ∷ xs) ≡ true
unfolding contains
contains-cons-eq x y xs h = ground arith

-- What a list with no `x` holds is not `x`.
pub not-eq_of_contains :
    (x y : String) (xs : List String)
    → contains x xs ≡ false
    → contains y xs ≡ true
    → (x == y) ≡ false
not-eq_of_contains x y xs h m = elim (==_cases x y) [
  | inl (q, e) ↦ cc (ap (λ w. contains w xs) q)
  | inr (n, e) ↦ e
]

-- Distinct texts out of a list that is no longer are all of its texts.
pub contains_of_length :
    (xs ys : List String)
    → Nodup xs
    → ((x : String) → contains x xs ≡ true → contains x ys ≡ true)
    → length ys ≤ length xs
    → (y : String) → contains y ys ≡ true
    → contains y xs ≡ true
contains_of_length [] [] d sub h y m = m
contains_of_length [] (z ∷ ys) d sub h y m = absurd (omega arith)
contains_of_length (x ∷ xs) ys d sub h y m =
    let has_x : contains x ys ≡ true = sub x (contains-head x xs) in
    elim (==_cases x y) [
      | inl (q, e) ↦ contains-cons-eq x y xs e
      | inr (n, e) ↦ contains-cons x y xs (
          contains_of_length xs (without x ys) d.1
            (λ z k. ground (
              arith,
              contains-without x z ys,
              sub z (contains-cons x z xs k),
              not-eq_of_contains x z xs d.0 k,
            ))
            (omega (arith, length-without-lt x ys has_x)) y
            (ground (arith, contains-without x y ys)))
    ]

pub contains-cons_cases :
    (x y : String) (xs : List String)
    → contains y (x ∷ xs) ≡ true
    → (x ≡ y) ⊎ (contains y xs ≡ true)
unfolding contains
contains-cons_cases x y xs h = ground (arith, ==_iff x y)

pub All-snoc {ℓ κ} :
    {A : Type ℓ} (P : A → Type κ) (xs : List A) {y : A} → All P xs → P y → All P (xs ++ y ∷ [])
All-snoc P xs h p x m = elim (Memᴰ.append_cases xs m) [
  | inl t ↦ h x t
  | inr l ↦ subst P (sym (Memᴰ.eq_of_singleton l)) p
]

pub contains-tail :
    (x y : String) (xs : List String) → contains y (x ∷ xs) ≡ false → contains y xs ≡ false
unfolding contains
contains-tail x y xs h = ground arith

distinct_from-contains :
    (x : String) (seen xs : List String)
    → contains x xs ≡ true
    → (contains x seen ≡ true) ⊎ (contains x (distinct_from seen xs) ≡ true)
unfolding distinct_from
distinct_from-contains x seen [] h = absurd (nothing x h)
  where
    nothing : (y : String) → contains y [] ≡ true → ⊥
    nothing y k = let unfolded : false ≡ true = unfold contains in k in cc
distinct_from-contains x seen (y ∷ ys) h = elim (Bool-cases (contains y seen)) [
  | inl old ↦
      rw (old, distinct_from)
        (elim (contains-cons_cases y x ys h) [
          | inl q ↦ inl (subst (λ w. contains w seen ≡ true) q old)
          | inr t ↦ distinct_from-contains x seen ys t
        ])
  | inr new ↦
      rw (new, distinct_from)
        (elim (contains-cons_cases y x ys h) [
          | inl q ↦ inr (
              subst (λ w. contains w (y ∷ distinct_from (y ∷ seen) ys) ≡ true) q
                (contains-head y _))
          | inr t ↦ elim (distinct_from-contains x (y ∷ seen) ys t) [
            | inl s ↦ elim (contains-cons_cases y x seen s) [
              | inl q ↦ inr (
                  subst (λ w. contains w (y ∷ distinct_from (y ∷ seen) ys) ≡ true) q
                    (contains-head y _))
              | inr o ↦ inl o
            ]
            | inr d ↦ inr (contains-cons y x _ d)
          ]
        ])
]

-- `set(xs)` holds every text of `xs`.
pub distinct-contains :
    (x : String) (xs : List String) → contains x xs ≡ true → contains x (distinct xs) ≡ true
unfolding distinct
distinct-contains x xs h = elim (distinct_from-contains x [] xs h) [
  | inl n ↦ absurd (nothing x n)
  | inr d ↦ d
]
  where
    nothing : (y : String) → contains y [] ≡ true → ⊥
    nothing y k = let unfolded : false ≡ true = unfold contains in k in cc

pub contains-map {ℓ} :
    {A : Type ℓ} (f : A → String) (xs : List A) (a : A)
    → Memᴰ a xs
    → contains (f a) (map f xs) ≡ true
contains-map f [] a m = absurd (Memᴰ.not-nil m)
contains-map f (x ∷ xs) a m = elim (Memᴰ.cases_cons m) [
  | inl q ↦ subst (λ w. contains (f w) (f x ∷ map f xs) ≡ true) (sym q) (contains-head (f x) _)
  | inr t ↦ contains-cons (f x) (f a) (map f xs) (contains-map f xs a t)
]

-- No element fails a test exactly if all pass it.
pub none_fails_iff {ℓ} :
    {A : Type ℓ} (p : A → Bool) (xs : List A)
    → (any (λ x. not (p x)) xs ≡ false) ↔ All (λ x. p x ≡ true) xs
none_fails_iff p [] = (λ _ x m. absurd (Memᴰ.not-nil m), λ _. refl)
none_fails_iff p (x ∷ xs) = elim (Bool-cases (p x)) [
  | inl y ↦ rw y (
    λ h z m. elim (Memᴰ.cases_cons m) [
      | inl q ↦ subst (λ w. p w ≡ true) (sym q) y
      | inr r ↦ (none_fails_iff p xs).0 h z r
    ],
    λ a. (none_fails_iff p xs).1 (λ z m. a z (Memᴰ.tail m)),
  )
  | inr n ↦ rw n (λ h. cc, λ a. cc (a x (Memᴰ.head refl), n))
]
