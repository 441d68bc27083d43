-- ===== src/Sql/Sound/Matches.antt =====
-- The edges that `validate_sql_graph` of src/joinlint/runtime/sql.py matches.
use mathlib.Core.List.Memᴰ
use joinlint.Prelude.{
  String, ◌≡◌, sym, ap, ◌∙◌, subst, inl, inr, true, Option, none, some, List, [], ◌∷◌, Memᴰ,
  Bool-cases,
}
use joinlint.Prelude.Order.{text_ord, pair_ord}
use joinlint.Prelude.Sort.{sorted, mem-sorted}
use joinlint.Errors.{ok, >>=-eq-ok}
use joinlint.Domain.{AuthorizedRelationship, NormalizedJoinEdge, RuntimeFinding}
use joinlint.Sql.{
  MatchedEdge, same_pairs, observed_pairs, expected_pairs, matches_of, match_relationship,
  matched_edge, match_edges, add_match, first,
}

-- The relationship is an authorized one that joins the same columns as the edge.
pub record Supports (authorized : List AuthorizedRelationship) (edge : NormalizedJoinEdge)
    (r : AuthorizedRelationship) : Type 0 where
  pub is_authorized : Memᴰ r authorized
  pub pairs : List (String × String)
  pub joins : expected_pairs r ≡ ok pairs
  pub same : same_pairs (observed_pairs edge) pairs ≡ true

-- The edges are matched one by one, in order.
pub data MatchesAll (authorized : List AuthorizedRelationship)
    : List NormalizedJoinEdge → List MatchedEdge → Type 0 where
  done : MatchesAll authorized [] []
  next :
      (edge : NormalizedJoinEdge) (r : AuthorizedRelationship) {edges : List NormalizedJoinEdge}
      {matched : List MatchedEdge}
      → Supports authorized edge r
      → MatchesAll authorized edges matched
      → MatchesAll authorized (edge ∷ edges) (matched_edge edge r ∷ matched)

pub ok-inj {ℓ} : {A : Type ℓ} {a b : A} → ok a ≡ ok b → a ≡ b
ok-inj e = cc

pub some-inj {ℓ} : {A : Type ℓ} {a b : A} → some a ≡ some b → a ≡ b
some-inj e = cc

mem-matches_of :
    (edge : NormalizedJoinEdge) (graph : List AuthorizedRelationship)
    {found : List AuthorizedRelationship}
    → matches_of edge graph ≡ ok found
    → (r : AuthorizedRelationship) → Memᴰ r found
    → Supports graph edge r
unfolding matches_of
mem-matches_of edge [] h r m = absurd (Memᴰ.not-nil (subst (λ l. Memᴰ r l) (sym (ok-inj h)) m))
mem-matches_of edge (x ∷ xs) h r m =
    let (expected, e, h₁) = >>=-eq-ok (expected_pairs x) _ h in
    let (rest, e', h₂) = >>=-eq-ok (matches_of edge xs) _ h₁ in
    let m' = subst (λ l. Memᴰ r l) (sym (ok-inj h₂)) m in
    let later : Memᴰ r rest → Supports (x ∷ xs) edge r = λ n.
      let s = mem-matches_of edge xs e' r n in
      record {
        is_authorized = Memᴰ.tail s.is_authorized;
        pairs = s.pairs;
        joins = s.joins;
        same = s.same;
      } in
    elim (Bool-cases (same_pairs (observed_pairs edge) expected)) [
      | inl y ↦ elim (Memᴰ.cases_cons (rw y at m')) [
        | inl q ↦ record {
          is_authorized = Memᴰ.head q;
          pairs = expected;
          joins = ap expected_pairs q ∙ e;
          same = y;
        }
        | inr n ↦ later n
      ]
      | inr n ↦ later (rw n at m')
    ]

first-mem : {A : Type 0} (xs : List A) {a : A} → first xs ≡ some a → Memᴰ a xs
first-mem [] h = cc
first-mem (x ∷ xs) h = Memᴰ.head (sym (some-inj h))

match_relationship-Supports :
    (edge : NormalizedJoinEdge) (graph : List AuthorizedRelationship) {r : AuthorizedRelationship}
    → match_relationship edge graph ≡ ok (some r)
    → Supports graph edge r
unfolding match_relationship
match_relationship-Supports edge graph {r} h =
    let (found, e, h₁) = >>=-eq-ok (matches_of edge graph) _ h in
    mem-matches_of edge graph e r (
      (mem-sorted (λ (x : AuthorizedRelationship). x.definition.relationship_id) r found).0 (
        first-mem (sorted (λ (x : AuthorizedRelationship). x.definition.relationship_id) found)
          (ok-inj h₁)))

pub match_edges-MatchesAll :
    (edges : List NormalizedJoinEdge) (graph : List AuthorizedRelationship)
    {matched : List MatchedEdge}
    → match_edges edges graph ≡ ok (matched, [])
    → MatchesAll graph edges matched
unfolding match_edges
match_edges-MatchesAll [] graph h =
    subst (MatchesAll graph [])
      (ap (λ (p : List MatchedEdge × List RuntimeFinding). p.0) (ok-inj h)) done
match_edges-MatchesAll (edge ∷ edges) graph {matched} h =
    let (r, e, h₁) = >>=-eq-ok (match_relationship edge graph) _ h in
    let (rest, e', h₂) = >>=-eq-ok (match_edges edges graph) _ h₁ in
    step r rest e e' (λ ms q. match_edges-MatchesAll edges graph q) (ok-inj h₂)
  where
    step :
        (r : Option AuthorizedRelationship) (rest : List MatchedEdge × List RuntimeFinding)
        → match_relationship edge graph ≡ ok r
        → match_edges edges graph ≡ ok rest
        → ((ms : List MatchedEdge)
            → match_edges edges graph ≡ ok (ms, [])
            → MatchesAll graph edges ms)
        → add_match edge r rest ≡ (matched, [])
        → MatchesAll graph (edge ∷ edges) matched
    step none (ms, fs) e e' ih q =
        absurd (cons_not_nil (ap (λ (p : List MatchedEdge × List RuntimeFinding). p.1) q))
      where
        cons_not_nil : {f : RuntimeFinding} {l : List RuntimeFinding} → ¬ (f ∷ l ≡ [])
        cons_not_nil z = cc
    step (some r) (ms, fs) e e' ih q =
        subst (MatchesAll graph (edge ∷ edges))
          (ap (λ (p : List MatchedEdge × List RuntimeFinding). p.0) q)
          (next edge r (match_relationship-Supports edge graph e) (
            ih ms (
              e'
              ∙ ap (λ l. ok (ms, l)) (ap (λ (p : List MatchedEdge × List RuntimeFinding). p.1) q))))
