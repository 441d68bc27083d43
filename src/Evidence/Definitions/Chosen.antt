-- ===== src/Evidence/Definitions/Chosen.antt =====
-- Which seeds `relationship_definitions` of src/joinlint/runtime/evidence.py returns.
use mathlib.Core.List.Memᴰ
use joinlint.Prelude.{
  String, ◌≡◌, ◌≢◌, refl, sym, ap, ◌∙◌, subst, ◌⊎◌, inl, inr, true, Option, none, some, List, [],
  ◌∷◌, map, Memᴰ, contains, contains-map, Nodup, arith,
}
use joinlint.Prelude.Order.{text_ord}
use joinlint.Prelude.Sort.{sorted, mem-sorted}
use joinlint.Prelude.Dict.{Dict, get, keys, from_items_inv, contains-keys-from_items}
use joinlint.Prelude.Dict.Distinct.{get-mem, mem-keys, Nodup-keys-from_items}
use joinlint.Errors.{ok, >>=-eq-ok}
use joinlint.Domain.{RelationshipSeed, SourceCatalog}
use joinlint.Domain.Json.{Hashing}
use joinlint.Model.{Relationship, ModelV1}
use joinlint.Evidence.Definitions.{
  seed_id, add_curated, entry_key, entry_seed, seeds_in_order, declared_by_id,
  relationship_definitions,
}
use joinlint.Evidence.Definitions.Curates.{Curates}
use joinlint.Evidence.Definitions.Loop.{Curated, add_curated-Left, add_curated-keys}

ok-inj {ℓ} : {A : Type ℓ} {a b : A} → ok a ≡ ok b → a ≡ b
ok-inj e = cc

some-inj {ℓ} : {A : Type ℓ} {a b : A} → some a ≡ some b → a ≡ b
some-inj e = cc

module _ (h : Hashing) (without_suffix : String → String) (catalog : SourceCatalog) where
  mem-seeds_in_order :
      (d : Dict RelationshipSeed) (s : RelationshipSeed)
      → Memᴰ s (seeds_in_order h without_suffix catalog d)
      → (k : String) × Memᴰ (k, s) d
  mem-seeds_in_order d s m =
      let (e, n, q) = entry_of (sorted (entry_key h without_suffix catalog) d) m in
      (
        e.0,
        subst (λ (x : RelationshipSeed). Memᴰ (e.0, x) d) q
            ((mem-sorted (entry_key h without_suffix catalog) e d).0 n),
      )
    where
      entry_of :
          (es : Dict RelationshipSeed)
          → Memᴰ s (map (entry_seed h without_suffix catalog) es)
          → (e : String × RelationshipSeed) × Memᴰ e es × (e.1 ≡ s)
      entry_of [] n = absurd (Memᴰ.not-nil n)
      entry_of (e ∷ es) n = elim (Memᴰ.cases_cons n) [
        | inl q ↦ (e, Memᴰ.head refl, sym q)
        | inr t ↦ let (x, l, q) = entry_of es t in (x, Memᴰ.tail l, q)
      ]

  seeds_in_order-mem :
      (d : Dict RelationshipSeed) (e : String × RelationshipSeed)
      → Memᴰ e d
      → Memᴰ e.1 (seeds_in_order h without_suffix catalog d)
  seeds_in_order-mem d e m =
      seed_in (sorted (entry_key h without_suffix catalog) d)
        ((mem-sorted (entry_key h without_suffix catalog) e d).1 m)
    where
      seed_in :
          (es : Dict RelationshipSeed)
          → Memᴰ e es
          → Memᴰ e.1 (map (entry_seed h without_suffix catalog) es)
      seed_in [] n = absurd (Memᴰ.not-nil n)
      seed_in (x ∷ es) n = elim (Memᴰ.cases_cons n) [
        | inl q ↦ Memᴰ.head (ap (λ (y : String × RelationshipSeed). y.1) q)
        | inr t ↦ Memᴰ.tail (seed_in es t)
      ]

  -- Some relationship of the model, where one is given, makes the seed.
  abbrev pub Makes : Option ModelV1 → List String → RelationshipSeed → Type 0
  Makes given allowed s =
      (model : ModelV1) × (r : Relationship) × (given ≡ some model)
      × Memᴰ r model.relationships
      × Curates h without_suffix catalog model allowed r s

  -- The seeds are those of the model and, for the other ids, declared ones; each id has one seed.
  pub record AreChosen (given : Option ModelV1) (allowed : List String)
      (seeds : List RelationshipSeed) : Type 0 where
    pub sound :
        (s : RelationshipSeed)
        → Memᴰ s seeds
        → Makes given allowed s
          ⊎ Memᴰ s catalog.declared_relationships
            × ((t : RelationshipSeed) → Makes given allowed t → seed_id t ≢ seed_id s)
    pub complete :
        (s : RelationshipSeed)
        → Makes given allowed s ⊎ Memᴰ s catalog.declared_relationships
        → (t : RelationshipSeed) × Memᴰ t seeds × (seed_id t ≡ seed_id s)
    pub one_each :
        (s t : RelationshipSeed) → Memᴰ s seeds → Memᴰ t seeds → seed_id s ≡ seed_id t → s ≡ t

  declared_entry :
      (k : String) (s : RelationshipSeed)
      → get k (declared_by_id h without_suffix catalog) ≡ some s
      → Memᴰ s catalog.declared_relationships × (seed_id s ≡ k)
  unfolding get
  declared_entry =
      from_items_inv seed_id (λ s. s)
        (λ k s. Memᴰ s catalog.declared_relationships × (seed_id s ≡ k)) []
        catalog.declared_relationships (λ s m. (m, refl)) (λ k s e. cc)

  AreChosen-of :
      (given : Option ModelV1) (allowed : List String) (d : Dict RelationshipSeed)
      → Nodup (keys d)
      → ((k : String) (s : RelationshipSeed)
          → get k d ≡ some s
          → (Makes given allowed s
              ⊎ Memᴰ s catalog.declared_relationships
                × ((t : RelationshipSeed) → Makes given allowed t → seed_id t ≢ k))
            × (seed_id s ≡ k))
      → ((s : RelationshipSeed)
          → Makes given allowed s ⊎ Memᴰ s catalog.declared_relationships
          → contains (seed_id s) (keys d) ≡ true)
      → AreChosen given allowed (seeds_in_order h without_suffix catalog d)
  AreChosen-of given allowed d once entry present = record {
    sound = λ s m.
        let (k, n) = mem-seeds_in_order d s m in
        let (origin, q) = entry k s (get-mem k s d once n) in
        elim origin [
          | inl made ↦ inl made
          | inr (declared, others) ↦ inr (declared, λ t made w. others t made (w ∙ q))
        ];
    complete = λ s o.
        let (t, n) = mem-keys (seed_id s) d (present s o) in
        let (_, q) = entry (seed_id s) t (get-mem (seed_id s) t d once n) in
        (t, seeds_in_order-mem d (seed_id s, t) n, q);
    one_each = λ s t m n q.
        let (k, a) = mem-seeds_in_order d s m in
        let (j, b) = mem-seeds_in_order d t n in
        let found = get-mem k s d once a in
        let other = get-mem j t d once b in
        let same : k ≡ j = sym ((entry k s found).1) ∙ q ∙ (entry j t other).1 in
        some-inj (sym found ∙ ap (λ (x : String). get x d) same ∙ other);
  }

  declared-keys :
      (s : RelationshipSeed)
      → Memᴰ s catalog.declared_relationships
      → contains (seed_id s) (keys (declared_by_id h without_suffix catalog)) ≡ true
  unfolding contains
  declared-keys s m = ground (
    arith,
    contains-keys-from_items seed_id (λ (x : RelationshipSeed). x) [] catalog.declared_relationships
        (seed_id s),
    contains-map seed_id catalog.declared_relationships s m,
  )

  -- The call returns one seed for each id of a declared relationship or of one that the curated
  -- model makes: the model's, where it makes one, and else a declared one. A relationship of the
  -- model makes a seed where both its ends name entities of allowed sources that stand for an entity
  -- of the catalog with the column.
  pub relationship_definitions-AreChosen :
      (given : Option ModelV1) (allowed : List String) (seeds : List RelationshipSeed)
      → relationship_definitions h without_suffix catalog given allowed ≡ ok seeds
      → AreChosen given allowed seeds
  unfolding relationship_definitions
  relationship_definitions-AreChosen none allowed seeds e =
      subst (AreChosen none allowed) (ok-inj e) (
        AreChosen-of none allowed (declared_by_id h without_suffix catalog)
          (Nodup-keys-from_items seed_id (λ s. s) [] catalog.declared_relationships tt)
          (λ k s g.
            let (m, q) = declared_entry k s g in
            (inr (m, λ t (model, r, no_model, n, made). cc), q))
          (λ s o. elim o [ inl (model, r, no_model, n, made) ↦ cc | inr m ↦ declared-keys s m ]))
  relationship_definitions-AreChosen (some model) allowed seeds e =
      let (d, loop, e₁) =
        >>=-eq-ok
          (add_curated h without_suffix catalog model allowed model.relationships
            (declared_by_id h without_suffix catalog))
          _ e in
      let (once, stay, made_in) =
        add_curated-keys h without_suffix catalog model allowed model.relationships
          (declared_by_id h without_suffix catalog) d
          (Nodup-keys-from_items seed_id (λ s. s) [] catalog.declared_relationships tt) loop in
      subst (AreChosen (some model) allowed) (ok-inj e₁) (
        AreChosen-of (some model) allowed d once
          (λ k s g.
            elim (add_curated-Left h without_suffix catalog model allowed model.relationships
              (declared_by_id h without_suffix catalog) d k s loop g) [
                | inl ((r, n, made), q) ↦ (inl (model, r, refl, n, made), q)
                | inr (old, others) ↦
                    let (m, q) = declared_entry k s old in
                    (
                      inr (
                        m,
                        λ t (other, r, same, n, made).
                            others t (made_by_model other r t same n made),
                      ),
                      q,
                    )
              ])
          (λ s o. elim o [
            | inl (other, r, same, n, made) ↦ made_in s (made_by_model other r s same n made)
            | inr m ↦ stay (seed_id s) (declared-keys s m)
          ]))
    where
      made_by_model :
          (other : ModelV1) (r : Relationship) (t : RelationshipSeed)
          → some model ≡ some other
          → Memᴰ r other.relationships
          → Curates h without_suffix catalog other allowed r t
          → Curated h without_suffix catalog model allowed model.relationships t
      made_by_model other r t same n made =
          subst (λ (x : ModelV1). Curated h without_suffix catalog x allowed x.relationships t)
            (sym (some-inj same)) (r, n, made)
