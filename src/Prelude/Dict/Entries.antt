-- ===== src/Prelude/Dict/Entries.antt =====
-- What every entry of a dictionary satisfies, after an entry is written or removed.
use Prim.Native.String.{String}
use mathlib.Core.Path.{◌≡◌, refl, subst}
use mathlib.Core.Logic.{inl, inr}
use mathlib.Core.Bool.{true≢false, Bool, true, false, not, ◌&&◌}
use mathlib.Core.Option.{some}
use mathlib.Core.List.{[], ◌∷◌}
use native.Mathlib.Omega.{arith}
use joinlint.Prelude.Tests.{◌==◌, ==_iff, ==_refl, ==_cases, &&-eq-true}
use joinlint.Prelude.Lists.{contains, all}
use joinlint.Prelude.Dict.{Dict, get, put, keys, remove}

module _ {ℓ} {V : Type ℓ} where
  pub all-put :
      (p : String × V → Bool) (k : String) (v : V) (d : Dict V)
      → all p d ≡ true
      → p (k, v) ≡ true
      → all p (put k v d) ≡ true
  unfolding put
  all-put p k v [] h t = rw t refl
  all-put p k v ((j, w) ∷ d) h t =
      let (first, rest) = &&-eq-true (p (j, w)) (all p d) h in
      elim (==_cases j k) [
        | inl (q, y) ↦ rw (y, t, rest) refl
        | inr (q, n) ↦ rw (n, first, all-put p k v d rest t) refl
      ]

  pub all-remove :
      (p : String × V → Bool) (k : String) (d : Dict V) → all p d ≡ true → all p (remove k d) ≡ true
  unfolding remove
  all-remove p k [] h = refl
  all-remove p k ((j, w) ∷ d) h =
      let (first, rest) = &&-eq-true (p (j, w)) (all p d) h in
      elim (==_cases j k) [
        | inl (q, y) ↦ rw y (all-remove p k d rest)
        | inr (q, n) ↦ rw (n, first, all-remove p k d rest) refl
      ]

  some-inj : {a b : V} → some a ≡ some b → a ≡ b
  some-inj e = cc

  pub all-get :
      (p : String × V → Bool) (k : String) (v : V) (d : Dict V)
      → all p d ≡ true
      → get k d ≡ some v
      → p (k, v) ≡ true
  unfolding get
  all-get p k v [] h g = cc
  all-get p k v ((j, w) ∷ d) h g =
      let (first, rest) = &&-eq-true (p (j, w)) (all p d) h in
      elim (==_cases j k) [
        | inl (q, y) ↦
            let same : w ≡ v = some-inj (rw y at g) in
            subst (λ (e : String × V). p e ≡ true) (λ i. (q i, same i)) first
        | inr (q, n) ↦ all-get p k v d rest (rw n at g)
      ]

  pub contains-keys-remove :
      (k j : String) (d : Dict V)
      → contains j (keys (remove k d)) ≡ (not (k == j) && contains j (keys d))
  unfolding remove contains
  contains-keys-remove k j [] = ground arith
  contains-keys-remove k j ((i, w) ∷ d) =
      ground (arith, ==_iff k j, ==_iff i k, ==_iff i j, contains-keys-remove k j d)

  -- An entry that was new is the only one that its removal takes away.
  pub remove-put :
      (k : String) (v : V) (d : Dict V) → contains k (keys d) ≡ false → remove k (put k v d) ≡ d
  unfolding put remove contains
  remove-put k v [] h = rw (==_refl k) refl
  remove-put k v ((j, w) ∷ d) h = elim (==_cases j k) [
    | inl (q, y) ↦ absurd (true≢false (rw (q, ==_refl k) at h))
    | inr (q, n) ↦
        let later : contains k (keys d) ≡ false = rw n at h in
        rw (n, n, remove-put k v d later) refl
  ]

  pub get-contains :
      (k : String) (v : V) (d : Dict V) → get k d ≡ some v → contains k (keys d) ≡ true
  unfolding get contains
  get-contains k v [] g = cc
  get-contains k v ((j, w) ∷ d) g = ground (arith, ==_iff j k, get-contains k v d)
