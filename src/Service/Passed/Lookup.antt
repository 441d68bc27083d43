-- ===== src/Service/Passed/Lookup.antt =====
-- Where `_normalize_without_proof` and `_context_for_source` of
-- src/joinlint/runtime/service.py find the join graph of a query.
use mathlib.Core.List.Memᴰ
use joinlint.Prelude.{
  Option-cases, String, ◌≡◌, refl, sym, ap, subst, inl, inr, Bool, true, false, List, [], ◌∷◌, Memᴰ,
  Option, none, some, keep_if, mem-keep_if, ◌==◌, ==_iff, if◌then◌else◌,
}
use joinlint.Errors.{Result-cases, Failure, Result, ok, err}
use joinlint.Domain.{NormalizedJoinGraph}
use joinlint.Mcp.{ValidateSqlRequest}
use joinlint.Service.Inputs.{Environment, RuntimeContext}
use joinlint.Service.Validate.{
  Normalized, first_context, context_for_source, normalize_in, normalize_each, only_normalized,
  with_first, chosen, paired, normalized_in, normalize_without_proof, is_unknown_entity,
}
use joinlint.Service.Passed.Answer.{ok-inj}

pub mem-context_for_source :
    (contexts : List RuntimeContext) (source_id : String) (c : RuntimeContext)
    → context_for_source contexts source_id ≡ ok c
    → Memᴰ c contexts × (c.identity.source_id ≡ source_id)
mem-context_for_source contexts source_id c e =
    let test : RuntimeContext → Bool = λ x. x.identity.source_id == source_id in
    let (m, y) = (mem-keep_if test c contexts).0 (first_mem (keep_if test contexts) e) in
    (m, (==_iff _ _).0 y)
  where
    first_mem : (cs : List RuntimeContext) → first_context cs ≡ ok c → Memᴰ c cs
    first_mem [] h = cc
    first_mem (d ∷ ds) h = Memᴰ.head (sym (ok-inj h))

with_first_inv :
    (m : Normalized) (r : Result (List Normalized × Option Failure)) {ms : List Normalized}
    {last : Option Failure}
    → with_first m r ≡ ok (ms, last)
    → (rest : List Normalized) × (r ≡ ok (rest, last)) × ((m ∷ rest) ≡ ms)
with_first_inv m (err raised) e = cc
with_first_inv m (ok (rest, unknown)) e =
    (rest, ap (λ u. ok (rest, u)) (ap (λ p. p.1) (ok-inj e)), ap (λ p. p.0) (ok-inj e))

continued_inv :
    (t : Bool) (raised : Failure) (rest : Result (List Normalized × Option Failure))
    {ms : List Normalized} {last : Option Failure}
    → (if t then rest else err raised) ≡ ok (ms, last)
    → rest ≡ ok (ms, last)
continued_inv true raised rest e = e
continued_inv false raised rest e = cc

chosen_inv :
    (r : Result (List Normalized × Option Failure)) {m : Normalized}
    → chosen r ≡ ok m
    → (ms : List Normalized) × (last : Option Failure) × (r ≡ ok (ms, last))
      × (only_normalized ms last ≡ ok m)
chosen_inv (err raised) e = cc
chosen_inv (ok (ms, last)) e = (ms, last, refl, e)

only_normalized_inv :
    (ms : List Normalized) (last : Option Failure) (m : Normalized)
    → only_normalized ms last ≡ ok m
    → Memᴰ m ms
only_normalized_inv [] none m e = cc
only_normalized_inv [] (some unknown) m e = cc
only_normalized_inv (n ∷ []) last m e = Memᴰ.head (sym (ok-inj e))
only_normalized_inv (n ∷ o ∷ ms) last m e = cc

module _ (env : Environment) where
  paired_inv :
      (c : RuntimeContext) (r : Result NormalizedJoinGraph) (m : Normalized)
      → paired env c r ≡ ok m
      → (m.0 ≡ c) × (r ≡ ok m.1)
  paired_inv c (err raised) m e = cc
  paired_inv c (ok graph) m e =
      (sym (ap (λ (x : Normalized). x.0) (ok-inj e)), ap (λ (x : Normalized). ok x.1) (ok-inj e))

  normalized_in_inv :
      (sql : String) (r : Result RuntimeContext) (m : Normalized)
      → normalized_in env sql r ≡ ok m
      → (c : RuntimeContext) × (r ≡ ok c) × ((m.0 ≡ c) × (normalize_in env sql m.0 ≡ ok m.1))
  normalized_in_inv sql (err raised) m e = cc
  normalized_in_inv sql (ok c) m e =
      let (same, found) = paired_inv c (normalize_in env sql c) m e in
      (c, refl, (same, subst (λ x. normalize_in env sql x ≡ ok m.1) (sym same) found))

  -- Each pair of the loop is an open context and the graph that the query has there.
  mem-normalize_each :
      (sql : String) (unknown : Option Failure) (contexts : List RuntimeContext)
      {ms : List Normalized} {last : Option Failure}
      → normalize_each env sql unknown contexts ≡ ok (ms, last)
      → (m : Normalized) → Memᴰ m ms
      → Memᴰ (m.0) contexts × (normalize_in env sql m.0 ≡ ok m.1)
  unfolding normalize_each
  mem-normalize_each sql unknown [] {ms} e m h =
      absurd (Memᴰ.not-nil (subst (λ l. Memᴰ m l) (sym (ap (λ p. p.0) (ok-inj e))) h))
  mem-normalize_each sql unknown (c ∷ cs) {ms} {last} e m h =
      elim (Result-cases (normalize_in env sql c)) [
        | inl (raised, n) ↦
            let (there, found) =
              mem-normalize_each sql (some raised) cs
                (continued_inv (is_unknown_entity raised) raised _ (rw (normalize_each, n) at e)) m
                h in
            (Memᴰ.tail there, found)
        | inr (graph, n) ↦
            let (rest, e₁, same) =
              with_first_inv (c, graph) (normalize_each env sql unknown cs)
                (rw (normalize_each, n) at e) in
            elim (Memᴰ.cases_cons (subst (λ l. Memᴰ m l) (sym same) h)) [
              | inl q ↦ rw q (Memᴰ.head refl, n)
              | inr t ↦
                  let (there, found) = mem-normalize_each sql unknown cs e₁ m t in
                  (Memᴰ.tail there, found)
            ]
      ]

  pub mem-normalize_without_proof :
      (contexts : List RuntimeContext) (request : ValidateSqlRequest) (m : Normalized)
      → normalize_without_proof env contexts request ≡ ok m
      → Memᴰ (m.0) contexts × (normalize_in env request.sql m.0 ≡ ok m.1)
  mem-normalize_without_proof contexts request m e = elim (Option-cases request.source_id) [
    | inl n ↦
        let (ms, last, each, only) =
          chosen_inv (normalize_each env request.sql none contexts) (rw n at e) in
        mem-normalize_each request.sql none contexts each m (only_normalized_inv ms last m only)
    | inr (source_id, y) ↦
        let (c, found, there) =
          normalized_in_inv request.sql (context_for_source contexts source_id) m (rw y at e) in
        (
          subst (λ x. Memᴰ x contexts) (sym there.0)
              (mem-context_for_source contexts source_id c found).0,
          there.1,
        )
  ]
