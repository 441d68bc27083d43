-- ===== src/Evidence/Definitions/Curates.antt =====
-- Which seed a relationship of the curated model makes: the body of the loop of
-- `relationship_definitions` of src/joinlint/runtime/evidence.py.
use joinlint.Prelude.{
  String, ◌≡◌, refl, ap, inl, inr, true, ◌&&◌, Option, none, some, List, [], ◌∷◌, map, contains,
  &&-eq-true, Bool-cases,
}
use joinlint.Prelude.Order.{text_ord}
use joinlint.Prelude.Dict.{get, from_items}
use joinlint.Errors.{ok, >>=-eq-ok}
use joinlint.Domain.{
  ColumnDefinition, EntityDefinition, Provenance, RelationshipSeed, SourceCatalog,
}
use joinlint.Domain.Json.{Hashing}
use joinlint.Domain.Ids.{relationship_id_for}
use joinlint.Model.{Entity, Relationship, ModelV1, endpoint_parts, entity_table_name}
use joinlint.Evidence.Definitions.{column_names, seed_between, seed_of_entities, curated}

ok-inj {ℓ} : {A : Type ℓ} {a b : A} → ok a ≡ ok b → a ≡ b
ok-inj e = cc

some-inj {ℓ} : {A : Type ℓ} {a b : A} → some a ≡ some b → a ≡ b
some-inj e = cc

module _ (h : Hashing) (without_suffix : String → String) (catalog : SourceCatalog) where
  -- An end of a relationship of the model stands for a column of the catalog: it names an entity of
  -- the model and a column, the entity is of an allowed source, and the last entity of the catalog
  -- with the name of its table has the column.
  pub record StandsFor (model : ModelV1) (allowed : List String) (end : String)
      (entity : EntityDefinition) (column : String) : Type 0 where
    pub entity_id : String
    pub modelled : Entity
    pub split : endpoint_parts end ≡ ok (entity_id, column)
    pub known : get entity_id model.entities ≡ some modelled
    pub permitted : contains modelled.source allowed ≡ true
    pub physical :
        get
          (entity_table_name without_suffix modelled "sqlite")
          (from_items (λ (e : EntityDefinition). e.physical_name) (λ e. e) [] catalog.entities)
        ≡ some entity
    pub has_column : contains column (map (λ (c : ColumnDefinition). c.name) entity.columns) ≡ true

  -- The relationship of the model makes the seed: one between the two columns that its ends stand
  -- for, which is curated and has the cardinality of the relationship.
  pub record Curates (model : ModelV1) (allowed : List String) (r : Relationship)
      (s : RelationshipSeed) : Type 0 where
    pub child : EntityDefinition
    pub child_column : String
    pub parent : EntityDefinition
    pub parent_column : String
    pub from : StandsFor model allowed r.from child child_column
    pub to : StandsFor model allowed r.to parent parent_column
    pub made :
        record {
          definition = record {
            relationship_id =
                relationship_id_for h catalog.source_id
                  (record { entity_id = child.entity_id; columns = child_column ∷ [] })
                  (record { entity_id = parent.entity_id; columns = parent_column ∷ [] });
            source_id = catalog.source_id;
            child = record { entity_id = child.entity_id; columns = child_column ∷ [] };
            parent = record { entity_id = parent.entity_id; columns = parent_column ∷ [] };
          };
          provenance = Provenance.curated;
          declared_cardinality = r.cardinality;
        }
        ≡ s

  pub Curates-curated :
      (model : ModelV1) (allowed : List String) (r : Relationship) (s : RelationshipSeed)
      → Curates model allowed r s
      → curated h without_suffix catalog model allowed r ≡ ok (some s)
  unfolding curated seed_of_entities seed_between
  Curates-curated model allowed r s c =
      rw
        (
          c.from.split, c.to.split, c.from.known, c.to.known, c.from.permitted, c.to.permitted,
          c.from.physical, c.to.physical, c.from.has_column, c.to.has_column,
        )
        (ap (λ x. ok (some x)) c.made)

  seed_of_entities-inv :
      (allowed : List String) (r : Relationship) (child : Option Entity) (child_column : String)
      (parent : Option Entity) (parent_column : String) (s : RelationshipSeed)
      → seed_of_entities h without_suffix catalog allowed r child child_column parent parent_column
        ≡ some s
      → (c : Entity) × (p : Entity) × (child ≡ some c)
        × (parent ≡ some p)
        × (contains c.source allowed ≡ true)
        × (contains p.source allowed ≡ true)
        × (seed_between h without_suffix catalog r
              (get (entity_table_name without_suffix c "sqlite") (
                from_items
                  (λ (e : EntityDefinition). e.physical_name)
                  (λ e. e)
                  []
                  catalog.entities))
              child_column
              (get (entity_table_name without_suffix p "sqlite") (
                from_items
                  (λ (e : EntityDefinition). e.physical_name)
                  (λ e. e)
                  []
                  catalog.entities))
              parent_column
            ≡ some s)
  unfolding seed_of_entities
  seed_of_entities-inv allowed r none cc_ p pc s e = cc
  seed_of_entities-inv allowed r (some c) cc_ none pc s e = cc
  seed_of_entities-inv allowed r (some c) cc_ (some p) pc s e =
      elim (Bool-cases (contains c.source allowed && contains p.source allowed)) [
        | inl y ↦
            let (a, b) = &&-eq-true (contains c.source allowed) (contains p.source allowed) y in
            (c, p, refl, refl, a, b, rw y at e)
        | inr n ↦ let q : none ≡ some s = rw n at e in cc
      ]

  seed_between-inv :
      (r : Relationship) (child : Option EntityDefinition) (child_column : String)
      (parent : Option EntityDefinition) (parent_column : String) (s : RelationshipSeed)
      → seed_between h without_suffix catalog r child child_column parent parent_column ≡ some s
      → (c : EntityDefinition) × (p : EntityDefinition) × (child ≡ some c)
        × (parent ≡ some p)
        × (contains child_column (column_names c) ≡ true)
        × (contains parent_column (column_names p) ≡ true)
        × (seed_between h without_suffix catalog r (some c) child_column (some p) parent_column
            ≡ some s)
  unfolding seed_between
  seed_between-inv r none cc_ p pc s e = cc
  seed_between-inv r (some c) cc_ none pc s e = cc
  seed_between-inv r (some c) cc_ (some p) pc s e =
      elim (Bool-cases (contains cc_ (column_names c) && contains pc (column_names p))) [
        | inl y ↦
            let (a, b) =
              &&-eq-true (contains cc_ (column_names c)) (contains pc (column_names p)) y in
            (c, p, refl, refl, a, b, e)
        | inr n ↦ let q : none ≡ some s = rw n at e in cc
      ]

  pub curated-Curates :
      (model : ModelV1) (allowed : List String) (r : Relationship) (s : RelationshipSeed)
      → curated h without_suffix catalog model allowed r ≡ ok (some s)
      → Curates model allowed r s
  unfolding curated seed_between
  curated-Curates model allowed r s e =
      let (from, f, e₁) = >>=-eq-ok (endpoint_parts r.from) _ e in
      let (to, t, e₂) = >>=-eq-ok (endpoint_parts r.to) _ e₁ in
      let (c, p, cf, pf, ca, pa, e₃) =
        seed_of_entities-inv allowed r (get from.0 model.entities) from.1 (get to.0 model.entities)
          to.1 s (ok-inj e₂) in
      let (ce, pe, cp, pp, cc_, pc, e₄) = seed_between-inv r _ from.1 _ to.1 s e₃ in
      record {
        child = ce;
        child_column = from.1;
        parent = pe;
        parent_column = to.1;
        from = record {
          entity_id = from.0;
          modelled = c;
          split = f;
          known = cf;
          permitted = ca;
          physical = cp;
          has_column = cc_;
        };
        to = record {
          entity_id = to.0;
          modelled = p;
          split = t;
          known = pf;
          permitted = pa;
          physical = pp;
          has_column = pc;
        };
        made = some-inj (rw (cc_, pc) at e₄);
      }
