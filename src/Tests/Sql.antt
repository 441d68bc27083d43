-- ===== src/Tests/Sql.antt =====
-- `validate_sql_graph` of src/joinlint/runtime/sql.py at the query that joins the orders of the sample
-- to their customers.
use joinlint.Prelude.{true, some, [], ◌∷◌}
use joinlint.Prelude.Order.{text_ord, pair_ord}
use joinlint.Domain.{
  JoinProof, proof, nil, NormalizedJoinEdge, NormalizedJoinGraph, inner, pass, SqlValidationOutcome,
}
use joinlint.Planner.Candidates.{forward_edge}
use joinlint.Planner.Plan.{edge_with, proof_body}
use joinlint.Tests.{sample_hashing, digest, authorized, order_ref, customer_ref}

abbrev edge : NormalizedJoinEdge
edge = record {
  left_ref = "i0";
  right_ref = "i1";
  endpoint_pairs = ("shop.customers.id", "shop.orders.customer_id") ∷ [];
  join_kind = inner;
}

abbrev pub graph : NormalizedJoinGraph
graph = record {
  source_id = "shop";
  entity_refs =
      record { ref = "i0"; entity = "shop.customers" }
      ∷ record { ref = "i1"; entity = "shop.orders" }
      ∷ [];
  edges = edge ∷ [];
}

abbrev pub given : JoinProof
given =
    proof
      (proof_body sample_hashing "now" "shop" digest "policy" (order_ref ∷ customer_ref ∷ []) "o"
        "o" 2
        (edge_with (forward_edge authorized order_ref customer_ref)
            ("shop.orders.customer_id = shop.customers.id" ∷ [])
          ∷ []))
      nil

abbrev pub passed : SqlValidationOutcome
passed = record {
  decision = pass;
  graph = graph;
  matched_relationship_ids = digest ∷ [];
  matched_evidence_ids = digest ∷ [];
  proof_matched = some true;
  findings = [];
}
