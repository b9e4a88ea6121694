-- ===== src/Apperr.antt =====
-- apperr/errors.go: the error model that the gRPC, HTTP and MCP transports share. `Code` has the
-- gRPC status codes, `Types` the categories, the table and the errors, `Registry` the registry and
-- its invariant, `Resolve` the reduction of an error to its mapping and the adapters.
pub mod Code
pub mod Types
pub mod Registry
pub mod Resolve
pub mod Default
mod Examples
