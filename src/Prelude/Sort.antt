-- ===== src/Prelude/Sort.antt =====
-- Python's `sorted(xs, key=...)`: a stable sort, here by insertion.
use mathlib.Core.Path.{◌≡◌, refl, ap₂, ◌∙◌}
use mathlib.Core.Logic.{◌↔◌, inl, inr}
use mathlib.Core.Bool.{true}
use mathlib.Core.List.{List, [], ◌∷◌, Memᴰ, Permᴰ}
use mathlib.Core.List.Memᴰ
use mathlib.Core.List.Permᴰ
use native.Mathlib.Omega.{arith}
use joinlint.Prelude.Tests.{if◌then◌else◌, Bool-cases}
use joinlint.Prelude.Lists.{All}
use joinlint.Prelude.Order.{Ord}

pub mem-perm {ℓ} : {A : Type ℓ} {x : A} {xs ys : List A} → Permᴰ xs ys → Memᴰ x xs → Memᴰ x ys
mem-perm Permᴰ.nil m = m
mem-perm (Permᴰ.cons e p) m = elim (Memᴰ.cases_cons m) [
  | inl q ↦ Memᴰ.head (q ∙ e)
  | inr t ↦ Memᴰ.tail (mem-perm p t)
]
mem-perm (Permᴰ.swap e f) m = elim (Memᴰ.cases_cons m) [
  | inl q ↦ Memᴰ.tail (Memᴰ.head (q ∙ e))
  | inr t ↦ elim (Memᴰ.cases_cons t) [ inl q ↦ Memᴰ.head (q ∙ f) | inr u ↦ Memᴰ.tail (Memᴰ.tail u) ]
]
mem-perm (Permᴰ.trans p q) m = mem-perm q (mem-perm p m)

module _ {ℓ κ} {A : Type ℓ} {K : Type κ} ⦃o : Ord K⦄ (key : A → K) where
  -- An item goes in front of the items with an equal key, which stand behind it in the input.
  pub insert : A → List A → List A
  insert x [] = x ∷ []
  insert x (y ∷ ys) = if o.le (key x) (key y) then x ∷ y ∷ ys else y ∷ insert x ys

  unfoldable pub sorted : List A → List A
  unfolding insert
  sorted [] = []
  sorted (x ∷ xs) = insert x (sorted xs)

  insert-perm : (x : A) (ys : List A) → Permᴰ (insert x ys) (x ∷ ys)
  unfolding insert
  insert-perm x [] = Permᴰ.refl _
  insert-perm x (y ∷ ys) = elim (Bool-cases (o.le (key x) (key y))) [
    | inl e ↦ rw e (Permᴰ.refl _)
    | inr e ↦ rw e (Permᴰ.trans (Permᴰ.cons refl (insert-perm x ys)) (Permᴰ.swap refl refl))
  ]

  -- Sorting keeps the items, each as often as it occurs.
  pub sorted-perm : (xs : List A) → Permᴰ (sorted xs) xs
  unfolding sorted
  sorted-perm [] = Permᴰ.nil
  sorted-perm (x ∷ xs) = Permᴰ.trans (insert-perm x (sorted xs)) (Permᴰ.cons refl (sorted-perm xs))

  -- Each item's key is below the keys behind it.
  abbrev pub IsSorted : List A → Type (ℓ ⊔ κ)
  IsSorted [] = Unit
  IsSorted (x ∷ xs) = All (λ y. o.le (key x) (key y) ≡ true) xs × IsSorted xs

  insert-IsSorted : (x : A) (ys : List A) → IsSorted ys → IsSorted (insert x ys)
  unfolding insert
  insert-IsSorted x [] h = (λ y m. absurd (Memᴰ.not-nil m), tt)
  insert-IsSorted x (y ∷ ys) h = elim (Bool-cases (o.le (key x) (key y))) [
    | inl e ↦ rw e (
      λ z m. elim (Memᴰ.cases_cons m) [
        | inl q ↦ rw q e
        | inr t ↦ o.le_trans (key x) (key y) (key z) e (h.0 z t)
      ],
      h,
    )
    | inr e ↦ rw e (
      λ z m. elim (Memᴰ.cases_cons (mem-perm (insert-perm x ys) m)) [
        | inl q ↦ rw q (o.le_total (key x) (key y) e)
        | inr t ↦ h.0 z t
      ],
      insert-IsSorted x ys h.1,
    )
  ]

  -- The result is in order.
  pub sorted-IsSorted : (xs : List A) → IsSorted (sorted xs)
  unfolding sorted
  sorted-IsSorted [] = tt
  sorted-IsSorted (x ∷ xs) = insert-IsSorted x (sorted xs) (sorted-IsSorted xs)

  pub mem-sorted : (x : A) (xs : List A) → Memᴰ x (sorted xs) ↔ Memᴰ x xs
  mem-sorted x xs = (mem-perm (sorted-perm xs), mem-perm (Permᴰ.symm (sorted-perm xs)))

  insert_comm :
      (x y : A) (l : List A)
      → (key x ≡ key y → x ≡ y)
      → insert x (insert y l) ≡ insert y (insert x l)
  unfolding insert
  insert_comm x y [] h =
      ground (arith, o.le_antisymm (key x) (key y), o.le_total (key x) (key y), h)
  insert_comm x y (z ∷ l) h = ground (
    arith,
    o.le_antisymm (key x) (key y),
    o.le_total (key x) (key y),
    o.le_trans (key x) (key z) (key y),
    o.le_trans (key y) (key z) (key x),
    o.le_total (key x) (key z),
    o.le_total (key y) (key z),
    h,
    insert_comm x y l h,
  )

  -- Items with equal keys are equal.
  abbrev pub KeysDistinct : List A → Type (ℓ ⊔ κ)
  KeysDistinct xs = (x y : A) → Memᴰ x xs → Memᴰ y xs → key x ≡ key y → x ≡ y

  -- Where items with equal keys are equal, sorting forgets the order of its input.
  pub sorted-perm-eq : {xs ys : List A} → Permᴰ xs ys → KeysDistinct xs → sorted xs ≡ sorted ys
  unfolding sorted
  sorted-perm-eq Permᴰ.nil d = refl
  sorted-perm-eq (Permᴰ.cons {a = a} {b = b} e p) d =
      ap₂ insert e (sorted-perm-eq p (λ x y m n. d x y (Memᴰ.tail m) (Memᴰ.tail n)))
  sorted-perm-eq (Permᴰ.swap {a = a} {b = b} {l = l} e f) d =
      rw (← e, ← f)
        (insert_comm a b (sorted l) (d a b (Memᴰ.head refl) (Memᴰ.tail (Memᴰ.head refl))))
  sorted-perm-eq (Permᴰ.trans p q) d =
      sorted-perm-eq p d
      ∙ sorted-perm-eq q (λ x y m n. d x y (mem-perm (Permᴰ.symm p) m) (mem-perm (Permᴰ.symm p) n))
