-- ===== src/Planner.antt =====
-- src/joinlint/runtime/planner.py: join planning over the authorized relationships.
pub mod Candidates
pub mod Grow
pub mod Safety
pub mod Plan
pub mod Lifecycle
use joinlint.Prelude.{ℕ, String}
use joinlint.Domain.{AuthorizedRelationship, Cardinality, Traversal}

pub record CandidateEdge : Type 0 where
  pub from_ref : String
  pub to_ref : String
  pub relationship : AuthorizedRelationship
  pub traversal : Traversal
  pub cardinality : Cardinality
  pub max_matches : ℕ
