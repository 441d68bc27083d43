-- ===== src/Sql/Mapping.antt =====
-- `_proof_mapping` of src/joinlint/runtime/sql.py, with the permutations and products of itertools
-- that it runs through.
use joinlint.Prelude.{
  ℕ, zero, suc, String, Bool, true, false, ◌&&◌, Option, none, some, List, [], ◌∷◌, ◌++◌, map,
  nat_eq, if◌then◌else◌, ◌==◌, keep_if, length, concat_map, distinct, subset,
}
use joinlint.Prelude.Order.{text_ord, pair_ord}
use joinlint.Prelude.Sort.{sorted}
use joinlint.Prelude.Dict.{Dict, get, put}
use joinlint.Errors.{key_error, Result, ok, err, ◌>>=◌}
use joinlint.Domain.{EntityRef, ProofBody, ProofEdge, Traversal, NormalizedJoinGraph}
use joinlint.Sql.{MatchedEdge}

module _ {ℓ} {A : Type ℓ} where
  -- Each element with the others, in order.
  abbrev pub picks : List A → List (A × List A)
  picks [] = []
  picks (x ∷ xs) = (x, xs) ∷ map (λ (p : A × List A). (p.0, x ∷ p.1)) (picks xs)

  -- Each element of a list, put before each list that `f` makes of the others.
  abbrev pub each_first : (List A → List (List A)) → List (A × List A) → List (List A)
  each_first f [] = []
  each_first f ((x, rest) ∷ ps) = map (λ p. x ∷ p) (f rest) ++ each_first f ps

  -- `itertools.permutations`, on fuel: the length of the list.
  unfoldable pub permutations_from : ℕ → List A → List (List A)
  permutations_from zero xs = [] ∷ []
  permutations_from (suc fuel) xs = each_first (permutations_from fuel) (picks xs)

  abbrev pub permutations : List A → List (List A)
  permutations xs = permutations_from (length xs) xs

  -- `itertools.product(*choices)`
  unfoldable pub product : List (List A) → List (List A)
  product [] = [] ∷ []
  product (choice ∷ choices) = concat_map (λ x. map (λ rest. x ∷ rest) (product choices)) choice

-- `dict(zip(keys, values, strict=True))` for distinct keys and lists of one length.
abbrev pub zip_dict : List String → List String → Dict String
zip_dict (k ∷ ks) (v ∷ vs) = (k, v) ∷ zip_dict ks vs
zip_dict _ _ = []

-- `{key: value for partial in combination for key, value in partial.items()}`
abbrev pub put_all : Dict String → Dict String → Dict String
put_all d [] = d
put_all d ((k, v) ∷ rest) = put_all (put k v d) rest

abbrev pub merged : Dict String → List (Dict String) → Dict String
merged d [] = d
merged d (partial ∷ rest) = merged (put_all d partial) rest

abbrev pub refs_with : String → List EntityRef → List String
refs_with entity refs =
    map (λ (r : EntityRef). r.ref) (keep_if (λ (r : EntityRef). r.entity == entity) refs)

abbrev pub entities_in : List EntityRef → List String
entities_in refs = distinct (map (λ (r : EntityRef). r.entity) refs)

abbrev pub text_key : String → String
text_key s = s

-- The mappings of the references of one entity.
abbrev pub choices_for : List String → List String → List (Dict String)
choices_for sql_refs proof_refs = map (zip_dict sql_refs) (permutations proof_refs)

-- `choices`. `none` is `return None`.
unfoldable pub choices_of :
    List EntityRef → List EntityRef → List String → Option (List (List (Dict String)))
choices_of sql_refs proof_refs [] = some []
choices_of sql_refs proof_refs (entity ∷ entities) =
    let sqls = sorted text_key (refs_with entity sql_refs) in
    let proofs = sorted text_key (refs_with entity proof_refs) in
    elim (choices_of sql_refs proof_refs entities) [
      | none ↦ none
      | some rest ↦
          if nat_eq (length sqls) (length proofs)
          then some (choices_for sqls proofs ∷ rest)
          else none
    ]

-- An edge as the relationship, the reference of the child and that of the parent.
abbrev pub Triple : Type 0
Triple = String × (String × String)

abbrev pub triple_key : Triple → Triple
triple_key t = t

abbrev pub expected_triple : ProofEdge → Triple
expected_triple e = elim e.traversal [
  | Traversal.forward ↦ (e.relationship_id, (e.from_ref, e.to_ref))
  | Traversal.reverse ↦ (e.relationship_id, (e.to_ref, e.from_ref))
]

-- `mapping[ref]`
abbrev pub mapped : Option String → Result String
mapped none = err key_error
mapped (some ref) = ok ref

unfoldable pub actual_triples : Dict String → List MatchedEdge → Result (List Triple)
actual_triples mapping [] = ok []
actual_triples mapping (m ∷ ms) = do
  child ← mapped (get m.child_ref mapping)
  parent ← mapped (get m.parent_ref mapping)
  rest ← actual_triples mapping ms
  ok ((m.relationship.definition.relationship_id, (child, parent)) ∷ rest)

unfoldable pub triples_eq : List Triple → List Triple → Bool
triples_eq [] [] = true
triples_eq ((a, (b, c)) ∷ xs) ((d, (e, f)) ∷ ys) = a == d && b == e && c == f && triples_eq xs ys
triples_eq _ _ = false

-- The loop over the combinations.
unfoldable pub first_mapping :
    List (List (Dict String)) → List MatchedEdge → List Triple → Result (Option (Dict String))
first_mapping [] matched expected = ok none
first_mapping (combination ∷ rest) matched expected = do
  actual ← actual_triples (merged [] combination) matched
  let later = first_mapping rest matched expected
  if triples_eq (sorted triple_key actual) expected
      then ok (some (merged [] combination))
      else later

abbrev pub with_choices :
    Option (List (List (Dict String)))
    → List MatchedEdge
    → List Triple
    → Result (Option (Dict String))
with_choices none matched expected = ok none
with_choices (some choices) matched expected = first_mapping (product choices) matched expected

unfoldable pub proof_mapping :
    NormalizedJoinGraph → List MatchedEdge → ProofBody → Result (Option (Dict String))
proof_mapping graph matched body =
    let sql_entities = entities_in graph.entity_refs in
    let proof_entities = entities_in body.entity_refs in
    let found =
      with_choices (choices_of graph.entity_refs body.entity_refs (sorted text_key sql_entities))
        matched (sorted triple_key (map expected_triple body.edges)) in
    if subset sql_entities proof_entities && subset proof_entities sql_entities
    then found
    else ok none
