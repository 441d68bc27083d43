-- ===== src/Evidence/Graph.antt =====
-- `build_authorized_graph` of src/joinlint/runtime/evidence.py authorizes exactly the relationships
-- that the evidence supports.
use mathlib.Core.List.Memᴰ
use joinlint.Prelude.{
  String, ◌≡◌, refl, sym, ◌∙◌, subst, ap, ◌↔◌, inl, inr, Bool, true, false, ◌&&◌, Option, none,
  some, List, [], ◌∷◌, ◌++◌, Memᴰ, arith, if◌then◌else◌, ◌==◌, ==_refl,
}
use joinlint.Prelude.Order.{text_ord}
use joinlint.Prelude.Sort.{sorted, mem-sorted}
use joinlint.Prelude.Dict.{Dict, get, from_items_inv}
use joinlint.Errors.{value_error, ok, ◌>>◌, require}
use joinlint.Domain.{RelationshipSeed, EvidenceRecord, AuthorizedRelationship}
use joinlint.Domain.Valid.{valid_authorized}
use joinlint.Evidence.{
  projection, records_of, authorized_by, authorized_seed, authorized_seeds, build_authorized_graph,
}
use joinlint.Evidence.Authorize.{IsUsable, authorize-projection, projection-usable_iff}

module _ (current_snapshot_id policy_version : String) where
  abbrev pub granted : RelationshipSeed → EvidenceRecord → AuthorizedRelationship
  granted seed record_ =
      authorized_by seed record_ (projection record_ current_snapshot_id policy_version)

  -- The record that was found authorizes the relationship.
  pub record Grants (found : Option EvidenceRecord) (seed : RelationshipSeed)
      (a : AuthorizedRelationship) : Type 0 where
    pub record_ : EvidenceRecord
    pub is_found : found ≡ some record_
    pub usable : IsUsable record_ current_snapshot_id
    pub made : a ≡ granted seed record_

  -- What one seed contributes, when a record was found for it.
  abbrev contribution : RelationshipSeed → EvidenceRecord → List AuthorizedRelationship
  contribution seed r =
      if (projection r current_snapshot_id policy_version).usable then granted seed r ∷ [] else []

  checked_branch {ℓ} :
      {A : Type ℓ} (b v : Bool) (x : List A)
      → (b ≡ true → v ≡ true)
      → (if b then (require v value_error >> ok x) else ok []) ≡ ok (if b then x else [])
  checked_branch true v x valid = rw (valid refl) refl
  checked_branch false v x valid = refl

  authorized_seed-some :
      (r : EvidenceRecord) (seed : RelationshipSeed)
      → r.relationship_id ≡ seed.definition.relationship_id
      → authorized_seed (some r) seed current_snapshot_id policy_version ≡ ok (contribution seed r)
  unfolding authorized_seed
  authorized_seed-some r seed same =
      rw (authorize-projection r current_snapshot_id policy_version) (
        checked_branch (projection r current_snapshot_id policy_version).usable
          (valid_authorized (granted seed r)) (granted seed r ∷ []) valid)
    where
      valid :
          (projection r current_snapshot_id policy_version).usable ≡ true
          → valid_authorized (granted seed r) ≡ true
      valid usable =
          both (seed.definition.relationship_id == r.relationship_id) _ (rw (same, ==_refl) refl)
            usable
        where
          both : (a b : Bool) → a ≡ true → b ≡ true → (a && b) ≡ true
          both a b p q = ground arith

  mem-contribution :
      (r : EvidenceRecord) (seed : RelationshipSeed) (a : AuthorizedRelationship)
      → Memᴰ a (contribution seed r) ↔ (IsUsable r current_snapshot_id × (a ≡ granted seed r))
  mem-contribution r seed a =
      mem_if (projection r current_snapshot_id policy_version).usable (granted seed r)
        (projection-usable_iff r current_snapshot_id policy_version)
    where
      mem_if :
          (b : Bool) (x : AuthorizedRelationship)
          → (b ≡ true) ↔ IsUsable r current_snapshot_id
          → Memᴰ a (if b then x ∷ [] else []) ↔ (IsUsable r current_snapshot_id × (a ≡ x))
      mem_if true x u = (λ m. (u.0 refl, Memᴰ.eq_of_singleton m), λ h. Memᴰ.head h.1)
      mem_if false x u = (λ m. absurd (Memᴰ.not-nil m), λ h. cc (u.1 h.0))

  seed-Exact :
      (found : Option EvidenceRecord) (seed : RelationshipSeed)
      → ((r : EvidenceRecord)
          → found ≡ some r
          → r.relationship_id ≡ seed.definition.relationship_id)
      → (graph : List AuthorizedRelationship) × (authorized_seed found seed current_snapshot_id
            policy_version
          ≡ ok graph)
        × ((a : AuthorizedRelationship) → Memᴰ a graph ↔ Grants found seed a)
  unfolding authorized_seed
  seed-Exact none seed same =
      ([], refl, λ a. (λ m. absurd (Memᴰ.not-nil m), λ g. absurd (nothing g.is_found)))
    where
      nothing : {r : EvidenceRecord} → ¬ (none ≡ some r)
      nothing q = cc
  seed-Exact (some r) seed same = (
    contribution seed r,
    authorized_seed-some r seed (same r refl),
    λ a. (
      λ m.
          let (u, e) = (mem-contribution r seed a).0 m in
          record { record_ = r; is_found = refl; usable = u; made = e },
      λ g.
          let q = some-inj g.is_found in
          (mem-contribution r seed a).1 (
            subst (λ x. IsUsable x current_snapshot_id) (sym q) g.usable,
            g.made ∙ ap (granted seed) (sym q),
          ),
    ),
  )
    where
      some-inj : {a b : EvidenceRecord} → some a ≡ some b → a ≡ b
      some-inj q = cc

  seeds-Exact :
      (records : Dict EvidenceRecord) (seeds : List RelationshipSeed)
      → ((k : String) (r : EvidenceRecord) → get k records ≡ some r → r.relationship_id ≡ k)
      → (graph : List AuthorizedRelationship) × (authorized_seeds records seeds current_snapshot_id
            policy_version
          ≡ ok graph)
        × ((a : AuthorizedRelationship)
            → Memᴰ a graph ↔ (
                (seed : RelationshipSeed) × Memᴰ seed seeds
                × Grants (get seed.definition.relationship_id records) seed a))
  unfolding authorized_seeds
  seeds-Exact records [] keyed =
      ([], refl, λ a. (λ m. absurd (Memᴰ.not-nil m), λ (s, m, g). absurd (Memᴰ.not-nil m)))
  seeds-Exact records (seed ∷ seeds) keyed =
      let (first, e, f) =
        seed-Exact (get seed.definition.relationship_id records) seed
          (keyed seed.definition.relationship_id) in
      let (rest, e', g) = seeds-Exact records seeds keyed in
      (
        first ++ rest,
        rw (e, e') refl,
        λ a. (
          λ m. elim (Memᴰ.append_cases first m) [
            | inl l ↦ (seed, Memᴰ.head refl, (f a).0 l)
            | inr r ↦ let (s, n, h) = (g a).0 r in (s, Memᴰ.tail n, h)
          ],
          λ (s, m, h). elim (Memᴰ.cases_cons m) [
            | inl q ↦
                Memᴰ.append_left rest
                  ((f a).1 (subst (λ x. Grants (get x.definition.relationship_id records) x a) q h))
            | inr n ↦ Memᴰ.append_right first ((g a).1 (s, n, h))
          ],
        ),
      )

  -- The graph is always built, and a relationship is in it exactly if it comes from a seed whose
  -- latest record is of the current snapshot and has no blocking finding.
  pub mem-build_authorized_graph :
      (seeds : List RelationshipSeed) (evidence : List EvidenceRecord)
      → (graph : List AuthorizedRelationship) × (build_authorized_graph seeds evidence
            current_snapshot_id policy_version
          ≡ ok graph)
        × ((a : AuthorizedRelationship)
            → Memᴰ a graph ↔ (
                (seed : RelationshipSeed) × Memᴰ seed seeds
                × Grants (get seed.definition.relationship_id (records_of evidence)) seed a))
  unfolding build_authorized_graph get
  mem-build_authorized_graph seeds evidence =
      let (authorized, e, exact) = seeds-Exact (records_of evidence) seeds (
        from_items_inv (λ (r : EvidenceRecord). r.relationship_id) (λ r. r)
          (λ k (r : EvidenceRecord). r.relationship_id ≡ k) [] evidence (λ r m. refl)
          (λ k r h. absurd (nothing k h))) in
      (
        sorted by_id authorized,
        rw e refl,
        λ a. (
          λ m. (exact a).0 ((mem-sorted by_id a authorized).0 m),
          λ h. (mem-sorted by_id a authorized).1 ((exact a).1 h),
        ),
      )
    where
      by_id : AuthorizedRelationship → String
      by_id r = r.definition.relationship_id

      nothing : (k : String) {r : EvidenceRecord} → ¬ (get k [] ≡ some r)
      nothing k q = cc
