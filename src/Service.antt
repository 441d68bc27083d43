-- ===== src/Service.antt =====
-- src/joinlint/runtime/service.py, and the calls of it by src/joinlint/mcp_server.py.
pub mod Inputs
pub mod Contexts
pub mod Plan
pub mod Validate
pub mod Authorized
pub mod Current
pub mod Passed
pub mod Stored
