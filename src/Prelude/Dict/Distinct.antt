-- ===== src/Prelude/Dict/Distinct.antt =====
-- Dictionaries in which each key stands once, as in Python, are told by what `get` answers.
use Prim.Native.String.{String}
use mathlib.Core.Path.{◌≡◌, refl, sym, ap, ◌∙◌}
use mathlib.Core.Logic.{inl, inr}
use mathlib.Core.Bool.{Bool, true, false, true≢false}
use mathlib.Core.Option.{Option, none, some}
use mathlib.Core.List.Memᴰ
use mathlib.Core.List.{List, Memᴰ, [], ◌∷◌}
use native.Mathlib.Omega.{arith}
use joinlint.Prelude.Tests.{==_refl, ==_cases, ==_sym}
use joinlint.Prelude.Lists.{contains, all, Nodup}
use joinlint.Prelude.Dict.{Dict, get, put, keys, remove, from_items, contains-keys-put}
use joinlint.Prelude.Dict.Entries.{get-contains, contains-keys-remove}

module _ {ℓ} {V : Type ℓ} where
  -- The dictionaries have the same value under every key.
  abbrev pub SameEntries : Dict V → Dict V → Type ℓ
  SameEntries d e = (k : String) → get k d ≡ get k e

  abbrev is_some : Option V → Bool
  is_some none = false
  is_some (some v) = true

  contains-keys-get : (k : String) (d : Dict V) → contains k (keys d) ≡ is_some (get k d)
  unfolding get contains
  contains-keys-get k [] = refl
  contains-keys-get k ((j, v) ∷ d) = elim (==_cases j k) [
    | inl (q, e) ↦ rw e refl
    | inr (n, e) ↦ rw e (contains-keys-get k d)
  ]

  pub SameEntries-contains :
      (d e : Dict V) → SameEntries d e → (k : String) → contains k (keys d) ≡ contains k (keys e)
  SameEntries-contains d e same k =
      contains-keys-get k d ∙ ap is_some (same k) ∙ sym (contains-keys-get k e)

  pub get-absent : (k : String) (d : Dict V) → contains k (keys d) ≡ false → get k d ≡ none
  unfolding get contains
  get-absent k [] h = refl
  get-absent k ((j, v) ∷ d) h = elim (==_cases j k) [
    | inl (q, e) ↦ absurd (true≢false (rw e at h))
    | inr (n, e) ↦ rw e (get-absent k d (rw e at h))
  ]

  -- What holds of every value that `get` finds holds of every entry.
  pub all-of_get :
      (p : String × V → Bool) (d : Dict V)
      → Nodup (keys d)
      → ((k : String) (v : V) → get k d ≡ some v → p (k, v) ≡ true)
      → all p d ≡ true
  unfolding get
  all-of_get p [] once h = refl
  all-of_get p ((j, w) ∷ d) once h =
      rw
        (
          h j w (rw (==_refl j) refl),
          all-of_get p d once.1 (λ k v g. h k v (elim (==_cases j k) [
            | inl (q, e) ↦ absurd (
                true≢false
                  (sym (get-contains k v d g) ∙ ap (λ x. contains x (keys d)) (sym q) ∙ once.0))
            | inr (n, e) ↦ rw e g
          ])),
        )
        refl

  pub Nodup-keys-put : (k : String) (v : V) (d : Dict V) → Nodup (keys d) → Nodup (keys (put k v d))
  unfolding put contains
  Nodup-keys-put k v [] once = (refl, tt)
  Nodup-keys-put k v ((j, w) ∷ d) once = elim (==_cases j k) [
    | inl (q, e) ↦ rw (e, sym q) once
    | inr (n, e) ↦
        rw (e, contains-keys-put k j v d)
          (ground (arith, once.0, e, ==_sym j k), Nodup-keys-put k v d once.1)
  ]

  pub Nodup-keys-remove : (k : String) (d : Dict V) → Nodup (keys d) → Nodup (keys (remove k d))
  unfolding remove
  Nodup-keys-remove k [] once = tt
  Nodup-keys-remove k ((j, w) ∷ d) once = elim (==_cases j k) [
    | inl (q, e) ↦ rw e (Nodup-keys-remove k d once.1)
    | inr (n, e) ↦
        rw (e, contains-keys-remove k j d) (ground (arith, once.0), Nodup-keys-remove k d once.1)
  ]

  pub get-mem :
      (k : String) (v : V) (d : Dict V) → Nodup (keys d) → Memᴰ (k, v) d → get k d ≡ some v
  unfolding get
  get-mem k v [] once m = absurd (Memᴰ.not-nil m)
  get-mem k v ((j, w) ∷ d) once m = elim (Memᴰ.cases_cons m) [
    | inl q ↦
        rw (sym (ap (λ (x : String × V). x.0) q), ==_refl k)
          (ap (λ (x : String × V). some x.1) (sym q))
    | inr t ↦ elim (==_cases j k) [
      | inl (q, e) ↦
          let found = get-contains k v d (get-mem k v d once.1 t) in
          absurd (true≢false (sym found ∙ ap (λ x. contains x (keys d)) (sym q) ∙ once.0))
      | inr (n, e) ↦ rw e (get-mem k v d once.1 t)
    ]
  ]

  pub mem-keys : (k : String) (d : Dict V) → contains k (keys d) ≡ true → (v : V) × Memᴰ (k, v) d
  unfolding contains
  mem-keys k [] h = cc
  mem-keys k ((j, w) ∷ d) h = elim (==_cases j k) [
    | inl (q, e) ↦ (w, Memᴰ.head (λ i. (sym q i, w)))
    | inr (n, e) ↦ let (v, m) = mem-keys k d (rw e at h) in (v, Memᴰ.tail m)
  ]

  pub Nodup-keys-from_items {κ} :
      {A : Type κ} (key : A → String) (value : A → V) (d : Dict V) (xs : List A)
      → Nodup (keys d)
      → Nodup (keys (from_items key value d xs))
  unfolding from_items
  Nodup-keys-from_items key value d [] once = once
  Nodup-keys-from_items key value d (x ∷ xs) once =
      Nodup-keys-from_items key value (put (key x) (value x) d) xs
        (Nodup-keys-put (key x) (value x) d once)
