-- ===== src/Evidence/Definitions/Loop.antt =====
-- What the loop of `relationship_definitions` of src/joinlint/runtime/evidence.py leaves in its
-- dictionary.
use mathlib.Core.List.Memᴰ
use joinlint.Prelude.{
  String, ◌≡◌, ◌≢◌, refl, sym, ap, ◌∙◌, subst, ◌⊎◌, inl, inr, true, Option, none, some, List, [],
  ◌∷◌, Memᴰ, contains, Nodup, ==_cases, ==_refl, arith,
}
use joinlint.Prelude.Order.{text_ord}
use joinlint.Prelude.Dict.{Dict, get, keys, get-put, contains-keys-put}
use joinlint.Prelude.Dict.Distinct.{Nodup-keys-put}
use joinlint.Errors.{ok, >>=-eq-ok}
use joinlint.Domain.{RelationshipSeed, SourceCatalog}
use joinlint.Domain.Json.{Hashing}
use joinlint.Model.{Relationship, ModelV1}
use joinlint.Evidence.Definitions.{seed_id, curated, put_seed, add_curated}
use joinlint.Evidence.Definitions.Curates.{Curates, Curates-curated, curated-Curates}

ok-inj {ℓ} : {A : Type ℓ} {a b : A} → ok a ≡ ok b → a ≡ b
ok-inj e = cc

some-inj {ℓ} : {A : Type ℓ} {a b : A} → some a ≡ some b → a ≡ b
some-inj e = cc

module _ (h : Hashing) (without_suffix : String → String) (catalog : SourceCatalog) where
  -- What the loop leaves under an id: the seed of a relationship of that id, or what was there
  -- before, where no relationship has the id.
  abbrev pub Curated : ModelV1 → List String → List Relationship → RelationshipSeed → Type 0
  Curated model allowed rs s =
      (r : Relationship) × Memᴰ r rs × Curates h without_suffix catalog model allowed r s

  abbrev pub Left :
      ModelV1
      → List String
      → List Relationship
      → Dict RelationshipSeed
      → String
      → RelationshipSeed
      → Type 0
  Left model allowed rs by_id k s =
      Curated model allowed rs s × (seed_id s ≡ k)
      ⊎ (get k by_id ≡ some s)
        × ((t : RelationshipSeed) → Curated model allowed rs t → seed_id t ≢ k)

  Left-step :
      (model : ModelV1) (allowed : List String) (r : Relationship) (rs : List Relationship)
      (by_id : Dict RelationshipSeed) (seed : Option RelationshipSeed) (k : String)
      (s : RelationshipSeed)
      → curated h without_suffix catalog model allowed r ≡ ok seed
      → Left model allowed rs (put_seed h without_suffix catalog seed by_id) k s
      → Left model allowed (r ∷ rs) by_id k s
  Left-step model allowed r rs by_id seed k s c (inl ((x, m, made), q)) =
      inl ((x, Memᴰ.tail m, made), q)
  Left-step model allowed r rs by_id none k s c (inr (g, others)) = inr (
    g,
    λ t (x, m, made). elim (Memᴰ.cases_cons m) [
      | inl q ↦
          let found =
            Curates-curated h without_suffix catalog model allowed r t
              (subst (λ y. Curates h without_suffix catalog model allowed y t) q made) in
          absurd (nothing (ok-inj (sym c ∙ found)))
      | inr n ↦ others t (x, n, made)
    ],
  )
    where
      nothing : {t : RelationshipSeed} → ¬ (none ≡ some t)
      nothing q = cc
  Left-step model allowed r rs by_id (some v) k s c (inr (g, others)) =
      elim (==_cases (seed_id v) k) [
        | inl (q, e) ↦
            let same : v ≡ s = some-inj (rw (get-put, e) at g) in
            inl (
              (
                r,
                Memᴰ.head refl,
                subst (λ x. Curates h without_suffix catalog model allowed r x) same
                    (curated-Curates h without_suffix catalog model allowed r v c),
              ),
              ap seed_id (sym same) ∙ q,
            )
        | inr (n, e) ↦
            let old : get k by_id ≡ some s = rw (get-put, e) at g in
            inr (
              old,
              λ t (x, m, made). elim (Memᴰ.cases_cons m) [
                | inl q ↦
                    let found =
                      Curates-curated h without_suffix catalog model allowed r t
                        (subst (λ y. Curates h without_suffix catalog model allowed y t) q made) in
                    let same : v ≡ t = some-inj (ok-inj (sym c ∙ found)) in
                    (λ w. n (ap seed_id same ∙ w))
                | inr l ↦ others t (x, l, made)
              ],
            )
      ]

  pub add_curated-Left :
      (model : ModelV1) (allowed : List String) (rs : List Relationship)
      (by_id result : Dict RelationshipSeed) (k : String) (s : RelationshipSeed)
      → add_curated h without_suffix catalog model allowed rs by_id ≡ ok result
      → get k result ≡ some s
      → Left model allowed rs by_id k s
  unfolding add_curated
  add_curated-Left model allowed [] by_id result k s e g =
      inr (
        subst (λ d. get k d ≡ some s) (sym (ok-inj e)) g,
        λ t (x, m, made). absurd (Memᴰ.not-nil m),
      )
  add_curated-Left model allowed (r ∷ rs) by_id result k s e g =
      let (seed, c, e₁) = >>=-eq-ok (curated h without_suffix catalog model allowed r) _ e in
      Left-step model allowed r rs by_id seed k s c (
        add_curated-Left model allowed rs (put_seed h without_suffix catalog seed by_id) result k s
          e₁ g)

  Nodup-put_seed :
      (seed : Option RelationshipSeed) (by_id : Dict RelationshipSeed)
      → Nodup (keys by_id)
      → Nodup (keys (put_seed h without_suffix catalog seed by_id))
  Nodup-put_seed none by_id once = once
  Nodup-put_seed (some v) by_id once = Nodup-keys-put (seed_id v) v by_id once

  kept-put_seed :
      (seed : Option RelationshipSeed) (by_id : Dict RelationshipSeed) (k : String)
      → contains k (keys by_id) ≡ true
      → contains k (keys (put_seed h without_suffix catalog seed by_id)) ≡ true
  kept-put_seed none by_id k present = present
  kept-put_seed (some v) by_id k present = ground (arith, contains-keys-put (seed_id v) k v by_id)

  -- The loop keeps the ids apart and loses none, and each seed that a relationship makes has its id.
  pub add_curated-keys :
      (model : ModelV1) (allowed : List String) (rs : List Relationship)
      (by_id result : Dict RelationshipSeed)
      → Nodup (keys by_id)
      → add_curated h without_suffix catalog model allowed rs by_id ≡ ok result
      → Nodup (keys result)
        × ((k : String) → contains k (keys by_id) ≡ true → contains k (keys result) ≡ true)
        × ((t : RelationshipSeed)
            → Curated model allowed rs t
            → contains (seed_id t) (keys result) ≡ true)
  unfolding add_curated
  add_curated-keys model allowed [] by_id result once e =
      subst
        (λ (d : Dict RelationshipSeed).
          Nodup (keys d)
          × ((k : String) → contains k (keys by_id) ≡ true → contains k (keys d) ≡ true)
          × ((t : RelationshipSeed)
              → Curated model allowed [] t
              → contains (seed_id t) (keys d) ≡ true))
        (ok-inj e) (once, λ k p. p, λ t (x, m, made). absurd (Memᴰ.not-nil m))
  add_curated-keys model allowed (r ∷ rs) by_id result once e =
      let (seed, c, e₁) = >>=-eq-ok (curated h without_suffix catalog model allowed r) _ e in
      let (apart, stay, made_in) =
        add_curated-keys model allowed rs (put_seed h without_suffix catalog seed by_id) result
          (Nodup-put_seed seed by_id once) e₁ in
      (
        apart,
        λ k p. stay k (kept-put_seed seed by_id k p),
        λ t (x, m, made). elim (Memᴰ.cases_cons m) [
          | inr l ↦ made_in t (x, l, made)
          | inl q ↦
              let found : seed ≡ some t = ok-inj (
                sym c
                ∙ Curates-curated h without_suffix catalog model allowed r t
                    (subst (λ y. Curates h without_suffix catalog model allowed y t) q made)) in
              stay (seed_id t) (
                rw (found, contains-keys-put (seed_id t) (seed_id t) t by_id, ==_refl (seed_id t))
                  refl)
        ],
      )
