-- ===== src/Tests/Service.antt =====
-- The theorems about src/joinlint/runtime/service.py on a project with one source and an empty cache.
use joinlint.Prelude.{
  String, true, false, none, some, List, [], ◌∷◌, ◌≡◌, refl, Memᴰ, contains, distinct_from,
  distinct, concat_map, ◌==◌,
}
use joinlint.Prelude.Dict.{get, put, from_items, remove}
use joinlint.Prelude.Sort.{sorted}
use joinlint.Prelude.Order.{text_le, text_ord, pair_ord, nat_ord}
use joinlint.Errors.{ok, err, value_error}
use joinlint.Domain.{SourceIdentity, JoinProof, proof, nil, policy_version}
use joinlint.Domain.Text.{is_digest, is_identifier, is_bounded_text}
use joinlint.Domain.Json.{hash}
use joinlint.Domain.Ids.{plan_id_for, evidence_id_for}
use joinlint.Config.{Yaml}
use joinlint.Config.Path.{from_last_dot}
use joinlint.Cache.{
  CacheState, Codecs, load, store, load_pointer, store_pointer, evidence_selector, load_evidence,
  store_evidence, load_evidence_for, store_proof, plan_id_of,
}
use joinlint.Evidence.{
  authorized_seeds, authorized_seed, authorize, build_authorized_graph, cardinality, findings,
  projection,
}
use joinlint.Evidence.Measure.{sql_parts, quote, counts, measure}
use joinlint.Evidence.Verify.{verify_relationship}
use joinlint.Evidence.Definitions.{relationship_definitions}
use joinlint.Grain.{neighbours, is_parent, scan, search}
use joinlint.Grain.Ends.{visits}
use joinlint.Grain.Walks.{children}
use joinlint.Planner.Candidates.{forward_edge, edges_between, candidate_edges}
use joinlint.Planner.Grow.{grow, include, spanning_trees}
use joinlint.Planner.Safety.{grain_compatible, tree_is_safe, safe_trees, entity_has_stable_grain}
use joinlint.Planner.Plan.{
  edge_with, proof_body, predicates_of, proof_edge, collect, proof_for, checked_grain_ref,
  only_source, usable_trees, plan_join,
}
use joinlint.Planner.Lifecycle.{proof_lifecycle}
use joinlint.Mcp.{
  GetJoinPlanRequest, JoinPlanData, ValidateSqlRequest, valid_envelope, validated_scope_for,
  not_validated_scope_for,
}
use joinlint.Service.Inputs.{Environment, RuntimeContext, legacy_inputs, resolve_entity}
use joinlint.Service.Contexts.{
  evidence_for, evidence_of_seeds, context_of, contexts_from, open_contexts,
}
use joinlint.Service.Plan.{
  resolve_refs, matching, store_alternatives, plan_response, lifecycle_in, get_join_plan,
}
use joinlint.Service.Validate.{proof_with, validate_sql}
use joinlint.Service.Authorized.{IsAuthorized, open_contexts-IsAuthorized}
use joinlint.Service.Current.{IsCurrentPlan, get_join_plan-IsCurrentPlan}
use joinlint.Service.Stored.{proof_with-get_join_plan}
use joinlint.Tests.{sample_hashing, digest, catalog, authorized, order_ref, customer_ref}
use joinlint.Tests.Evidence.{execute, verified}
use joinlint.Tests.Sql.{graph}

abbrev plan : JoinProof
plan =
    proof
      (proof_body sample_hashing "now" "shop" digest policy_version (order_ref ∷ customer_ref ∷ [])
        "o" "o" 2
        (edge_with (forward_edge authorized order_ref customer_ref)
            ("shop.orders.customer_id = shop.customers.id" ∷ [])
          ∷ []))
      nil

abbrev yaml : Yaml String
yaml = record {
  parse_config = λ _. none;
  dump_config = λ _. "";
  parse_model = λ _. none;
  dump_model = λ _. "";
}

abbrev pub codecs : Codecs
codecs = record {
  evidence = record { encode = λ _. "evidence"; decode = λ _. some verified };
  proofs = record { encode = λ _. "proof"; decode = λ _. some plan };
}

abbrev shop : SourceIdentity
shop = record { source_id = "shop"; boundary_digest = digest; relative_locator = "shop.sqlite" }

abbrev env : Environment
env = record {
  locate_sqlite_sources = ok (shop ∷ []);
  snapshot_sqlite = λ _. ok (record { snapshot_id = digest; execute = execute });
  extract_sqlite_catalog = λ _. ok catalog;
  exists_relative = λ _. ok false;
  project = record { config_yaml = err value_error; model_yaml = err value_error };
  yaml = yaml;
  without_suffix = λ name. name;
  hashing = sample_hashing;
  codecs = codecs;
  now = "now";
  normalize_sql_graph = λ _ _ _. ok graph;
  fuel = 9;
}

abbrev pub empty_cache : CacheState
empty_cache = record { evidence = []; evidence_index = []; proofs = [] }

abbrev request : GetJoinPlanRequest
request = record {
  entity_refs =
      record { ref = "o"; entity = "orders" }
      ∷ record { ref = "c"; entity = "shop.customers" }
      ∷ [];
  start_ref = "o";
  expected_grain_ref = none;
  max_depth = 2;
  include_alternatives = false;
}

abbrev context : RuntimeContext
context = record {
  identity = shop;
  snapshot = record { snapshot_id = digest; execute = execute };
  catalog = catalog;
  graph =
      record authorized {
        evidence = verified;
        authorization = projection verified digest policy_version;
      }
      ∷ [];
}

opened : (open_contexts env empty_cache).0 ≡ ok (context ∷ [])
unfolding open_contexts contexts_from context_of evidence_of_seeds evidence_for legacy_inputs
    load_evidence_for evidence_selector load_pointer load_evidence load store store_pointer
    store_evidence relationship_definitions verify_relationship build_authorized_graph authorize
    measure counts sql_parts quote cardinality findings sorted text_le get put remove from_items
    ◌==◌ is_digest hash evidence_id_for authorized_seeds authorized_seed
opened = refl

planned : (get_join_plan env request empty_cache).0 ≡ ok (plan_response env context plan)
unfolding get_join_plan open_contexts contexts_from context_of evidence_of_seeds evidence_for
    legacy_inputs load_evidence_for evidence_selector load_pointer load_evidence load store
    store_pointer store_evidence relationship_definitions verify_relationship build_authorized_graph
    authorize measure counts sql_parts quote cardinality findings sorted text_le get put remove
    from_items ◌==◌ is_digest hash evidence_id_for matching resolve_refs resolve_entity store_proof
    store_alternatives valid_envelope visits children plan_join checked_grain_ref only_source
    usable_trees entity_has_stable_grain safe_trees tree_is_safe grain_compatible search neighbours
    scan is_parent spanning_trees grow include candidate_edges edges_between concat_map contains
    distinct distinct_from collect proof_for proof_edge predicates_of is_identifier is_bounded_text
    plan_id_for from_last_dot proof_lifecycle authorized_seeds authorized_seed
planned = refl

abbrev after_opening : CacheState
after_opening = (open_contexts env empty_cache).1

abbrev after_planning : CacheState
after_planning = (get_join_plan env request empty_cache).1

open_contexts-IsAuthorized_example : IsAuthorized context
open_contexts-IsAuthorized_example =
    open_contexts-IsAuthorized env empty_cache after_opening (context ∷ [])
      (λ i. (opened i, after_opening)) context (Memᴰ.head refl)

get_join_plan-IsCurrentPlan_example :
    (contexts : List RuntimeContext) × (c : RuntimeContext) × (p : JoinProof) × ((open_contexts env
        empty_cache).0
      ≡ ok contexts)
    × IsCurrentPlan env request contexts c p
    × (plan_response env context plan ≡ plan_response env c p)
get_join_plan-IsCurrentPlan_example =
    get_join_plan-IsCurrentPlan env request empty_cache after_planning
      (plan_response env context plan) (λ i. (planned i, after_planning))

abbrev pub plan_data : JoinPlanData
plan_data = record {
  proof = plan;
  lifecycle = lifecycle_in env context plan;
  validated_scope = validated_scope_for true;
  not_validated_scope = not_validated_scope_for true;
  execution_count = 0;
}

proof_with-get_join_plan_example :
    (proof_with env (some (plan_id_of plan)) after_planning).0 ≡ ok (some plan)
proof_with-get_join_plan_example =
    proof_with-get_join_plan env request empty_cache after_planning (plan_response env context plan)
      plan_data refl (λ i. (planned i, after_planning)) refl refl

abbrev query : ValidateSqlRequest
query = record {
  sql = "SELECT o.id FROM orders o JOIN customers c ON o.customer_id = c.id";
  dialect = "sqlite";
  source_id = none;
  plan_id = some digest;
  expected_grain_ref = none;
}

abbrev after_query : CacheState
after_query = (validate_sql env query after_planning).1
