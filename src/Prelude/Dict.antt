-- ===== src/Prelude/Dict.antt =====
-- Python's `dict` with text keys, as an association list in order of first insertion.
pub mod Entries
pub mod Distinct
use Prim.Native.String.{String}
use mathlib.Core.List.Memᴰ
use mathlib.Core.Path.{◌≡◌, refl, subst}
use mathlib.Core.Logic.{◌⊎◌, inl, inr}
use mathlib.Core.List.{Memᴰ}
use mathlib.Core.Bool.{◌||◌}
use mathlib.Core.Option.{Option, none, some}
use mathlib.Core.List.{List, [], ◌∷◌, map}
use native.Mathlib.Omega.{arith}
use joinlint.Prelude.Tests.{if◌then◌else◌, ◌==◌, ==_iff, ==_refl, ==_cases}
use joinlint.Prelude.Lists.{contains}

abbrev pub Dict {ℓ} : Type ℓ → Type ℓ
Dict V = List (String × V)

module _ {ℓ} {V : Type ℓ} where
  -- `d.get(k)`
  unfoldable pub get : String → Dict V → Option V
  get k [] = none
  get k ((j, v) ∷ d) = if j == k then some v else get k d

  -- `d[k] = v`: an old key keeps its place.
  unfoldable pub put : String → V → Dict V → Dict V
  put k v [] = (k, v) ∷ []
  put k v ((j, w) ∷ d) = if j == k then (k, v) ∷ d else (j, w) ∷ put k v d

  -- `list(d)`
  abbrev pub keys : Dict V → List String
  keys [] = []
  keys ((k, v) ∷ d) = k ∷ keys d

  pub get-put :
      (k j : String) (v : V) (d : Dict V) → get j (put k v d) ≡ (if k == j then some v else get j d)
  unfolding get put
  get-put k j v [] = refl
  get-put k j v ((i, w) ∷ d) = ground (arith, ==_iff k j, ==_iff i k, ==_iff i j, get-put k j v d)

  -- `{key(x): value(x) for x in xs}`: of items with one key, the last one counts.
  unfoldable pub from_items {κ} : {A : Type κ} → (A → String) → (A → V) → Dict V → List A → Dict V
  unfolding put
  from_items key value d [] = d
  from_items key value d (x ∷ xs) = from_items key value (put (key x) (value x) d) xs

  pub get-first : (k : String) (v : V) (d : Dict V) → get k ((k, v) ∷ d) ≡ some v
  unfolding get
  get-first k v d = rw (==_refl k)

  pub contains-keys-put :
      (k j : String) (v : V) (d : Dict V)
      → contains j (keys (put k v d)) ≡ (k == j || contains j (keys d))
  unfolding put contains
  contains-keys-put k j v [] = refl
  contains-keys-put k j v ((i, w) ∷ d) =
      ground (arith, ==_iff i k, ==_iff i j, ==_iff k j, contains-keys-put k j v d)

  -- The keys of a dictionary that is filled from a list are the old ones and those of its items.
  pub contains-keys-from_items {κ} :
      {A : Type κ} (key : A → String) (value : A → V) (d : Dict V) (xs : List A) (j : String)
      → contains j (keys (from_items key value d xs))
        ≡ (contains j (map key xs) || contains j (keys d))
  unfolding from_items contains
  contains-keys-from_items key value d [] j = refl
  contains-keys-from_items key value d (x ∷ xs) j = ground (
    arith,
    contains-keys-from_items key value (put (key x) (value x) d) xs j,
    contains-keys-put (key x) j (value x) d,
  )

  -- What holds of every item holds of every entry of the dictionary that they fill.
  pub from_items_inv {κ μ} :
      {A : Type κ} (key : A → String) (value : A → V) (Q : String → V → Type μ) (d : Dict V)
      (xs : List A)
      → ((x : A) → Memᴰ x xs → Q (key x) (value x))
      → ((k : String) (v : V) → get k d ≡ some v → Q k v)
      → (k : String) (v : V) → get k (from_items key value d xs) ≡ some v
      → Q k v
  unfolding from_items
  from_items_inv key value Q d [] items old k v h = old k v h
  from_items_inv key value Q d (x ∷ xs) items old k v h =
      from_items_inv key value Q (put (key x) (value x) d) xs (λ y m. items y (Memᴰ.tail m))
        (λ j w g. put_inv j w g) k v h
    where
      some-inj : {a b : V} → some a ≡ some b → a ≡ b
      some-inj q = cc

      put_inv : (j : String) (w : V) → get j (put (key x) (value x) d) ≡ some w → Q j w
      put_inv j w g = elim (==_cases (key x) j) [
        | inl (q, e) ↦
            let got : some (value x) ≡ some w = rw (get-put, e) at g in
            subst (λ i. Q i w) q (subst (Q (key x)) (some-inj got) (items x (Memᴰ.head refl)))
        | inr (n, e) ↦ let got : get j d ≡ some w = rw (get-put, e) at g in old j w got
      ]

  pub mem-put :
      (k : String) (v : V) (d : Dict V) (e : String × V)
      → Memᴰ e (put k v d)
      → (e ≡ (k, v)) ⊎ Memᴰ e d
  unfolding put
  mem-put k v [] e m = inl (Memᴰ.eq_of_singleton m)
  mem-put k v ((j, w) ∷ d) e m = elim (==_cases j k) [
    | inl (q, t) ↦ elim (Memᴰ.cases_cons (rw t at m)) [ inl a ↦ inl a | inr n ↦ inr (Memᴰ.tail n) ]
    | inr (q, f) ↦ elim (Memᴰ.cases_cons (rw f at m)) [
      | inl a ↦ inr (Memᴰ.head a)
      | inr n ↦ elim (mem-put k v d e n) [ inl a ↦ inl a | inr o ↦ inr (Memᴰ.tail o) ]
    ]
  ]

  -- An entry of a dictionary that is filled from a list is an old one or comes from an item.
  pub mem-from_items {κ} :
      {A : Type κ} (key : A → String) (value : A → V) (d : Dict V) (xs : List A) (e : String × V)
      → Memᴰ e (from_items key value d xs)
      → Memᴰ e d ⊎ ((x : A) × Memᴰ x xs × (e ≡ (key x, value x)))
  unfolding from_items
  mem-from_items key value d [] e m = inl m
  mem-from_items key value d (x ∷ xs) e m =
      elim (mem-from_items key value (put (key x) (value x) d) xs e m) [
        | inl p ↦ elim (mem-put (key x) (value x) d e p) [
          | inl q ↦ inr (x, Memᴰ.head refl, q)
          | inr o ↦ inl o
        ]
        | inr (y, n, q) ↦ inr (y, Memᴰ.tail n, q)
      ]

  -- `d.pop(k, None)`, the entries of another key kept.
  unfoldable pub remove : String → Dict V → Dict V
  remove k [] = []
  remove k ((j, v) ∷ d) = if j == k then remove k d else (j, v) ∷ remove k d

  pub get-remove :
      (k j : String) (d : Dict V) → get j (remove k d) ≡ (if k == j then none else get j d)
  unfolding get remove
  get-remove k j [] = ground arith
  get-remove k j ((i, w) ∷ d) = ground (arith, ==_iff k j, ==_iff i k, ==_iff i j, get-remove k j d)
