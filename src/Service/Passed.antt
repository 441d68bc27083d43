-- ===== src/Service/Passed.antt =====
-- A query that `validate_sql` of src/joinlint/runtime/service.py passes.
pub mod Answer
pub mod Lookup
pub mod Named
use mathlib.Core.List.Memᴰ
use joinlint.Prelude.{◌≡◌, Bool, List, [], Memᴰ, Option, some}
use joinlint.Errors.{ok}
use joinlint.Domain.{JoinProof, NormalizedJoinGraph, LifecycleStatus, body}
use joinlint.Sql.Sound.{IsPassed}
use joinlint.Mcp.{ValidateSqlRequest}
use joinlint.Service.Inputs.{Environment, RuntimeContext}
use joinlint.Service.Plan.{lifecycle_in}
use joinlint.Service.Validate.{normalize_in}

-- What is known of a query for which the service answers `ok`.
pub record IsAccepted (env : Environment) (request : ValidateSqlRequest)
    (contexts : List RuntimeContext) (given : Option JoinProof) : Type 0 where
  pub context : RuntimeContext
  pub is_open : Memᴰ context contexts
  pub graph : NormalizedJoinGraph
  pub normalized : normalize_in env request.sql context ≡ ok graph
  pub passed : IsPassed graph context.graph given request.expected_grain_ref
  pub follows_current :
      (p : JoinProof)
      → given ≡ some p
      → (context.identity.source_id ≡ (body p).source_id)
        × ((lifecycle_in env context p).status ≡ LifecycleStatus.current)

some-inj {ℓ} : {A : Type ℓ} {a b : A} → some a ≡ some b → a ≡ b
some-inj e = cc
