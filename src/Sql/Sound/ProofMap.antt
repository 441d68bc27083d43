-- ===== src/Sql/Sound/ProofMap.antt =====
-- The mapping of a query onto a proof in `validate_sql_graph` of src/joinlint/runtime/sql.py.
use mathlib.Core.List.Permᴰ
use mathlib.Core.List.{Permᴰ}
use joinlint.Prelude.{
  String, ◌≡◌, refl, sym, ap, ap₂, ◌∙◌, subst, inl, inr, Bool, true, false, ◌&&◌, Option, none,
  some, List, [], ◌∷◌, map, if◌then◌else◌, ◌==◌, ==_iff, Bool-cases, &&-eq-true,
}
use joinlint.Prelude.Order.{text_ord, pair_ord}
use joinlint.Prelude.Sort.{sorted, sorted-perm}
use joinlint.Prelude.Dict.{Dict}
use joinlint.Errors.{ok, >>=-eq-ok}
use joinlint.Domain.{
  JoinProof, proof, Alternatives, ProofBody, NormalizedJoinGraph, RuntimeFinding, blocking,
}
use joinlint.Domain.Valid.{is_none}
use joinlint.Evidence.{finding}
use joinlint.Sql.{MatchedEdge}
use joinlint.Sql.Mapping.{
  Triple, triple_key, expected_triple, actual_triples, triples_eq, merged, first_mapping,
  with_choices, product, proof_mapping,
}
use joinlint.Sql.Validate.{mapping_step}
use joinlint.Sql.Sound.Matches.{ok-inj, some-inj}

eq_of_triples_eq : (xs ys : List Triple) → triples_eq xs ys ≡ true → xs ≡ ys
unfolding triples_eq
eq_of_triples_eq [] [] h = refl
eq_of_triples_eq ((a, (b, c)) ∷ xs) ((d, (e, f)) ∷ ys) h =
    let (h₁, later) = &&-eq-true (a == d && b == e && c == f) _ h in
    let (h₂, q₃) = &&-eq-true (a == d && b == e) _ h₁ in
    let (q₁, q₂) = &&-eq-true (a == d) _ h₂ in
    ap₂ (λ x l. x ∷ l)
      (ap₂ (λ x y. (x, y)) ((==_iff a d).0 q₁)
        (ap₂ (λ x y. (x, y)) ((==_iff b e).0 q₂) ((==_iff c f).0 q₃)))
      (eq_of_triples_eq xs ys later)
eq_of_triples_eq [] (y ∷ ys) h = cc
eq_of_triples_eq (x ∷ xs) [] h = cc

-- The mapping carries the matched edges onto the edges of the proof, each as often as it occurs.
pub record Carries (mapping : Dict String) (matched : List MatchedEdge) (body : ProofBody)
    : Type 0 where
  pub triples : List Triple
  pub carried : actual_triples mapping matched ≡ ok triples
  pub onto : Permᴰ triples (map expected_triple body.edges)

first_mapping-Carries :
    (combinations : List (List (Dict String))) (matched : List MatchedEdge) (body : ProofBody)
    {mapping : Dict String}
    → first_mapping combinations matched (sorted triple_key (map expected_triple body.edges))
      ≡ ok (some mapping)
    → Carries mapping matched body
unfolding first_mapping
first_mapping-Carries [] matched body h = absurd (nothing (ok-inj h))
  where
    nothing : {m : Dict String} → ¬ (none ≡ some m)
    nothing q = cc
first_mapping-Carries (combination ∷ rest) matched body {mapping} h =
    let (actual, e, h₁) = >>=-eq-ok (actual_triples (merged [] combination) matched) _ h in
    elim (Bool-cases (
      triples_eq (sorted triple_key actual) (sorted triple_key (map expected_triple body.edges)))) [
        | inl y ↦
            let q : merged [] combination ≡ mapping = some-inj (ok-inj (rw y at h₁)) in
            record {
              triples = actual;
              carried = ap (λ d. actual_triples d matched) (sym q) ∙ e;
              onto = Permᴰ.trans (Permᴰ.symm (sorted-perm triple_key actual)) (
                  subst (λ l. Permᴰ l (map expected_triple body.edges))
                    (sym (eq_of_triples_eq _ _ y))
                    (sorted-perm triple_key (map expected_triple body.edges)));
            }
        | inr n ↦ first_mapping-Carries rest matched body (rw n at h₁)
      ]

with_choices-Carries :
    (choices : Option (List (List (Dict String)))) (matched : List MatchedEdge) (body : ProofBody)
    {mapping : Dict String}
    → with_choices choices matched (sorted triple_key (map expected_triple body.edges))
      ≡ ok (some mapping)
    → Carries mapping matched body
with_choices-Carries none matched body h = absurd (nothing (ok-inj h))
  where
    nothing : {m : Dict String} → ¬ (none ≡ some m)
    nothing q = cc
with_choices-Carries (some choices) matched body h =
    first_mapping-Carries (product choices) matched body h

proof_mapping-Carries :
    (graph : NormalizedJoinGraph) (matched : List MatchedEdge) (body : ProofBody)
    {mapping : Dict String}
    → proof_mapping graph matched body ≡ ok (some mapping)
    → Carries mapping matched body
unfolding proof_mapping
proof_mapping-Carries graph matched body h = branch _ _ h
  where
    branch :
        (test : Bool) (choices : Option (List (List (Dict String)))) {m : Dict String}
        → (if test
            then with_choices choices matched (sorted triple_key (map expected_triple body.edges))
            else ok none)
          ≡ ok (some m)
        → Carries m matched body
    branch true choices k = with_choices-Carries choices matched body k
    branch false choices k = cc

-- A step that leaves no finding had none before, and found a mapping where there is a proof.
pub mapping_step-Carries :
    (given : Option JoinProof) (graph : NormalizedJoinGraph) (matched : List MatchedEdge)
    (found : List RuntimeFinding) {answer : Option (Dict String)}
    → mapping_step given graph matched found ≡ ok (answer, [])
    → (found ≡ [])
      × ((body : ProofBody) (others : Alternatives)
          → given ≡ some (proof body others)
          → (mapping : Dict String) × (answer ≡ some mapping) × Carries mapping matched body)
mapping_step-Carries none graph matched found h =
    (ap (λ (p : Option (Dict String) × List RuntimeFinding). p.1) (ok-inj h), λ b o q. cc)
mapping_step-Carries (some p) graph matched (f ∷ found) h = cc
mapping_step-Carries (some (proof body others)) graph matched [] h =
    let (mapping, e, h₁) = >>=-eq-ok (proof_mapping graph matched body) _ h in
    (
      refl,
      λ body' others' q.
          found_one mapping (finding "PROOF_GRAPH_MISMATCH" blocking) e
            (ap (λ (p : Option (Dict String) × List RuntimeFinding). p.0) (ok-inj h₁))
            (ap (λ (p : Option (Dict String) × List RuntimeFinding). p.1) (ok-inj h₁)) body'
            (body-inj (some-inj q)),
    )
  where
    body-inj : {a b : ProofBody} {x y : Alternatives} → proof a x ≡ proof b y → a ≡ b
    body-inj q = cc

    found_one :
        (mapping : Option (Dict String)) (f : RuntimeFinding) {answer : Option (Dict String)}
        → proof_mapping graph matched body ≡ ok mapping
        → mapping ≡ answer
        → (if is_none mapping then f ∷ [] else []) ≡ []
        → (body' : ProofBody) → body ≡ body'
        → (m : Dict String) × (answer ≡ some m) × Carries m matched body'
    found_one none f e a q body' b = cc
    found_one (some m) f e a q body' b =
        (m, sym a, subst (Carries m matched) b (proof_mapping-Carries graph matched body e))
