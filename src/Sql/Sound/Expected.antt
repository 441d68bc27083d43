-- ===== src/Sql/Sound/Expected.antt =====
-- Which reference of a query is the expected one: `_expected_sql_ref` of src/joinlint/runtime/sql.py.
use joinlint.Prelude.{
  String, ◌≡◌, ◌≢◌, refl, ap, ◌⊎◌, inl, inr, Bool, true, ◌||◌, Option, none, some, List, [], ◌∷◌,
  ◌++◌, Memᴰ, ◌==◌, ==_iff, ==_refl, ==_cases, Bool-cases, keep_if, All, arith,
}
use joinlint.Prelude.Dict.{Dict}
use joinlint.Domain.{JoinProof, proof, Alternatives, ProofBody, EntityRef, NormalizedJoinGraph}
use joinlint.Planner.Plan.{or_start}
use joinlint.Sql.{last_segment, key_of, expected_sql_ref}

-- `target` is the reference of the proof that the request expects, or by default the proof's own.
abbrev pub IsTarget : Option String → String → String → Type 0
IsTarget expected default target =
    (expected ≡ some target) × (target ≢ "")
    ⊎ ((expected ≡ none) ⊎ (expected ≡ some "")) × (target ≡ default)

-- The entity reference has the name: as its reference, as its entity, or as the last part of it.
abbrev pub HasName : String → EntityRef → Type 0
HasName name r = (r.ref ≡ name) ⊎ (r.entity ≡ name) ⊎ (last_segment r.entity ≡ name)

-- `x` is the only one of the list with the property.
pub record IsOnly {ℓ κ} {A : Type ℓ} (P : A → Type κ) (x : A) (xs : List A) : Type (ℓ ⊔ κ) where
  pub before : List A
  pub after : List A
  pub split : xs ≡ before ++ x ∷ after
  pub holds : P x
  pub not_before : All (λ y. ¬ (P y)) before
  pub not_after : All (λ y. ¬ (P y)) after

-- `sql_ref` is the reference of the query for which the grain is expected: the first that the
-- mapping carries to the target in the proof; without a proof, the only one of that name.
pub data IsExpected (graph : NormalizedJoinGraph) (given : Option JoinProof)
    (mapping : Option (Dict String)) (expected : Option String) (sql_ref : String) : Type 0 where
  by_proof :
      (body : ProofBody) (others : Alternatives) (target : String) (before after : Dict String)
      → given ≡ some (proof body others)
      → mapping ≡ some (before ++ (sql_ref, target) ∷ after)
      → IsTarget expected body.expected_grain_ref target
      → All (λ (e : String × String). e.1 ≢ target) before
      → IsExpected graph given mapping expected sql_ref
  by_name :
      (name : String) (r : EntityRef)
      → given ≡ none
      → expected ≡ some name
      → r.ref ≡ sql_ref
      → IsOnly (HasName name) r graph.entity_refs
      → IsExpected graph given mapping expected sql_ref

or_start-IsTarget :
    (expected : Option String) (default target : String)
    → IsTarget expected default target
    → or_start expected default ≡ target
unfolding ◌==◌
or_start-IsTarget expected default target (inl (e, named)) = elim (==_cases target "") [
  | inl (q, _) ↦ absurd (named q)
  | inr (_, e') ↦ rw (e, e') refl
]
or_start-IsTarget expected default target (inr (inl e, q)) = rw (e, q) refl
or_start-IsTarget expected default target (inr (inr e, q)) = rw (e, q) refl

key_of-first :
    (target sql_ref : String) (before after : Dict String)
    → All (λ (e : String × String). e.1 ≢ target) before
    → key_of target (before ++ (sql_ref, target) ∷ after) ≡ some sql_ref
key_of-first target sql_ref [] after free = rw (==_refl target) refl
key_of-first target sql_ref ((k, v) ∷ before) after free = elim (==_cases v target) [
  | inl (q, e) ↦ absurd (free (k, v) (Memᴰ.head refl) q)
  | inr (n, e) ↦ rw e (key_of-first target sql_ref before after (λ x m. free x (Memᴰ.tail m)))
]

module _ {ℓ κ} {A : Type ℓ} (P : A → Type κ) (test : A → Bool)
    (decides : (x : A) → (test x ≡ true → P x) × (P x → test x ≡ true)) where
  keep_if-none : (xs : List A) → All (λ y. ¬ (P y)) xs → keep_if test xs ≡ []
  keep_if-none [] free = refl
  keep_if-none (x ∷ xs) free = elim (Bool-cases (test x)) [
    | inl y ↦ absurd (free x (Memᴰ.head refl) ((decides x).0 y))
    | inr n ↦ rw n (keep_if-none xs (λ z m. free z (Memᴰ.tail m)))
  ]

  keep_if-only :
      (x : A) (before after : List A)
      → P x
      → All (λ y. ¬ (P y)) before
      → All (λ y. ¬ (P y)) after
      → keep_if test (before ++ x ∷ after) ≡ x ∷ []
  keep_if-only x [] after p free later =
      rw ((decides x).1 p) (ap (λ l. x ∷ l) (keep_if-none after later))
  keep_if-only x (b ∷ before) after p free later = elim (Bool-cases (test b)) [
    | inl y ↦ absurd (free b (Memᴰ.head refl) ((decides b).0 y))
    | inr n ↦ rw n (keep_if-only x before after p (λ z m. free z (Memᴰ.tail m)) later)
  ]

HasName-decides :
    (name : String) (r : EntityRef)
    → ((r.ref == name || r.entity == name || last_segment r.entity == name) ≡ true → HasName name r)
      × (HasName name r
          → (r.ref == name || r.entity == name || last_segment r.entity == name) ≡ true)
HasName-decides name r =
    ground (arith, ==_iff r.ref name, ==_iff r.entity name, ==_iff (last_segment r.entity) name)

pub expected_sql_ref-IsExpected :
    (graph : NormalizedJoinGraph) (given : Option JoinProof) (mapping : Option (Dict String))
    (expected : Option String) (sql_ref : String)
    → IsExpected graph given mapping expected sql_ref
    → expected_sql_ref graph given mapping expected ≡ some sql_ref
unfolding expected_sql_ref
expected_sql_ref-IsExpected graph given mapping expected sql_ref
      (by_proof body others target before after g m t free) =
    rw (g, m, or_start-IsTarget expected body.expected_grain_ref target t)
      (key_of-first target sql_ref before after free)
expected_sql_ref-IsExpected graph given mapping expected sql_ref (by_name name r g e q only) =
    rw
      (
        g,
        e,
        only.split,
        keep_if-only (HasName name)
            (λ (r : EntityRef). r.ref == name || r.entity == name || last_segment r.entity == name)
            (HasName-decides name) r only.before only.after only.holds only.not_before
            only.not_after,
      )
      (ap (λ x. some x) q)
