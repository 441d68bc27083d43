-- ===== src/Lib.antt =====
-- Verification of joinlint, a tool that plans SQL joins from evidence about the data and checks
-- that SQL joins only as planned.
--
-- The program's runtime has four parts. The evidence (src/joinlint/runtime/evidence.py) measures a
-- foreign-key relationship on a snapshot of the database and authorizes it where nothing blocks. The
-- planner (src/joinlint/runtime/planner.py) takes the authorized relationships as the edges of a
-- graph, searches it for trees that join the requested references, keeps the trees that keep the
-- expected grain, and returns the first as a proof. The SQL validation (src/joinlint/runtime/sql.py)
-- takes the join graph of a query, matches its edges with the authorized relationships, maps it onto
-- a proof, and checks the grain again. The service (src/joinlint/runtime/service.py) opens the sources
-- of a project, takes their evidence from the cache (src/joinlint/runtime/cache.py) or measures it,
-- plans and stores the plan, or validates a query against a stored plan; its requests and responses
-- are those of src/joinlint/mcp_contracts.py. All use the types of src/joinlint/runtime/domain.py.
--
-- Files:
-- Prelude        Boolean tests, lists, dictionaries, the order of texts and Python's stable `sorted`
-- Errors         the exceptions as values: src/joinlint/errors.py
-- Contracts      src/joinlint/contracts.py: `envelope_for`
-- Domain         src/joinlint/runtime/domain.py: types; Domain.Valid its validators, Domain.Ids its ids
-- Grain          the search for fan-out that the planner and the SQL validation share: `search` is
--                the `while` loop of `grain_compatible`
-- Evidence       src/joinlint/runtime/evidence.py: `authorize`, `build_authorized_graph`, `findings`;
--                Evidence.Measure the statements, Evidence.Verify `verify_relationship`
-- Model          src/joinlint/model.py: the curated model that Evidence.Definitions,
--                `relationship_definitions`, reads; Curates, Loop and Chosen below it say which
--                seeds it gives
-- Action         calls that change a state and may raise
-- Cache          src/joinlint/runtime/cache.py: `RuntimeCache` on the files of its directories; View
--                and Client the map that a client sees, Cache.Evidence the index of the evidence
-- Mcp            src/joinlint/mcp_contracts.py: requests, responses and their validators
-- Config         src/joinlint/config.py, `load_model` and `write_model`: the commands on the sources of a
--                project; Config.Path is `PurePosixPath`, Checks what the validators
--                establish, Storable how a configuration is read again
-- Planner        src/joinlint/runtime/planner.py: Candidates `_candidate_edges`, Grow
--                `_spanning_trees`, Safety `_tree_is_safe`, Plan `plan_join`, Lifecycle
--                `proof_lifecycle`; Safety.Grain says what keeps the grain of a reference
-- Sql            src/joinlint/runtime/sql.py: Sql.Validate `validate_sql_graph`, Sql.Mapping
--                `_proof_mapping`
-- Service        src/joinlint/runtime/service.py: Inputs `_legacy_inputs` and `_resolve_entity`,
--                Contexts `_evidence` and `_contexts`, Plan `get_join_plan`, Validate `validate_sql`;
--                Authorized, Current, Passed and Stored hold the proofs
-- Validation     src/joinlint/validation.py, with the catalog of src/joinlint/scanner.py; Counts and
--                Passes hold the proofs
-- Tests          the theorems at a small source
--
-- An operation that may raise returns a `Result`. The `now` of the clock, canonical JSON and SHA-256
-- (the record `Hashing`) and the answers of the database are parameters: what SQL's texts mean is not modelled. Counts are natural numbers.
--
-- Fuel: each call of `grow` adds to the set of connected references one that is not in it, and has the
-- number of requested references as fuel. `Grow.Fuel` shows that more fuel changes nothing.
-- `search` is a loop that need not end on a graph with a cycle. The planner calls it on trees, with
-- fuel one above the number of queue entries within 2 n + 2 rounds for n edges, which is enough there;
-- for the SQL validation the fuel is an argument, and running out of it is the failure `diverges`.
--
-- The service is an action on the state of the cache. Its other inputs are the fields of
-- `Environment`: the located sources with their snapshots and catalogs, the project's files, and
-- `normalize_sql_graph`. One reading of the clock serves a whole call. The JSON and YAML of files is a
-- parameter (`Codec`, `Yaml`), with the hypothesis that what was written reads back where it is needed;
-- a configuration reads back with the same source under each id, in any order, since the dump sorts
-- the ids, and only a configuration with distinct ids, valid entries and paths that are those of texts
-- is meant (`Config.Storable`).
--
-- Not modelled: `normalize_sql_graph` with `_canonicalize_instances`, which walk sqlglot's syntax tree;
-- the reading of sources and snapshots, the file system below `SafeProject`, the command line, MCP
-- servers and reports, which are input and output around these parts; the older commands on curated
-- models (candidates, baseline, scanning); the benchmarks.
pub mod Prelude
pub mod Errors
pub mod Domain
pub mod Contracts
pub mod Model
pub mod Grain
pub mod Evidence
pub mod Action
pub mod Cache
pub mod Mcp
pub mod Config
pub mod Planner
pub mod Sql
pub mod Service
pub mod Validation
pub mod Tests
