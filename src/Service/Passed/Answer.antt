-- ===== src/Service/Passed/Answer.antt =====
-- A response of `_validation_response` of src/joinlint/runtime/service.py without findings.
use mathlib.Core.Bool.{true≢false}
use joinlint.Prelude.{
  ℕ, String, ◌≡◌, refl, sym, subst, Bool, true, false, List, [], ◌∷◌, Option, is_empty, any,
  if◌then◌else◌,
}
use joinlint.Errors.{ok, >>=-eq-ok, require-eq-ok}
use joinlint.Domain.{
  AuthorizedRelationship, EntityDefinition, JoinProof, NormalizedJoinGraph, SqlValidationOutcome,
  Decision, pass, RuntimeFinding,
}
use joinlint.Domain.Valid.{valid_outcome, is_block, bool_eq, is_blocking}
use joinlint.Sql.{match_edges, expected_sql_ref}
use joinlint.Sql.Validate.{validate_sql_graph, mapping_step, grain_step, outcome, proof_matched_of}
use joinlint.Mcp.{ok_status, findings_status}

pub ok-inj {ℓ} : {A : Type ℓ} {a b : A} → ok a ≡ ok b → a ≡ b
ok-inj e = cc

pub validate_sql_graph-valid :
    (fuel : ℕ) (graph : NormalizedJoinGraph) (authorized : List AuthorizedRelationship)
    (given : Option JoinProof) (expected : Option String) (definitions : List EntityDefinition)
    (result : SqlValidationOutcome)
    → validate_sql_graph fuel graph authorized given expected definitions ≡ ok result
    → valid_outcome result ≡ true
unfolding validate_sql_graph
validate_sql_graph-valid fuel graph authorized given expected definitions result h =
    let ((matched, unmatched), _, h₁) = >>=-eq-ok (match_edges graph.edges authorized) _ h in
    let ((mapping, before), _, h₂) = >>=-eq-ok (mapping_step given graph matched unmatched) _ h₁ in
    let (found, _, h₃) =
      >>=-eq-ok
        (grain_step fuel graph matched definitions (expected_sql_ref graph given mapping expected)
          before)
        _ h₂ in
    let (valid, h₄) =
      require-eq-ok (valid_outcome (outcome graph matched (proof_matched_of given mapping) found)) _
        _ h₃ in
    subst (λ o. valid_outcome o ≡ true) (ok-inj h₄) valid

-- Without findings, a valid outcome passes.
pub valid_outcome-pass :
    (o : SqlValidationOutcome)
    → valid_outcome o ≡ true
    → is_empty o.findings ≡ true
    → o.decision ≡ pass
valid_outcome-pass o valid empty = go o.decision o.findings valid empty
  where
    go :
        (d : Decision) (fs : List RuntimeFinding)
        → bool_eq (is_block d) (any (λ (f : RuntimeFinding). is_blocking f.severity) fs) ≡ true
        → is_empty fs ≡ true
        → d ≡ pass
    go Decision.pass fs v e = refl
    go Decision.block [] v e = absurd (true≢false (sym v))
    go Decision.block (f ∷ fs) v e = absurd (true≢false (sym e))

pub ok_when_empty :
    (empty : Bool) → (if empty then ok_status else findings_status) ≡ ok_status → empty ≡ true
ok_when_empty true e = refl
ok_when_empty false e = cc
