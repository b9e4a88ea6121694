-- ===== src/Mcp.antt =====
-- mcp: the masker of secrets, the schemas and tools of a service, and the formats they are exported in.
pub mod Masker
pub mod Schema
pub mod Tools
pub mod Downgrade
pub mod Bridge
mod Examples
