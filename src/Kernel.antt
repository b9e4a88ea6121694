-- ===== src/Kernel.antt =====
-- kernel: the composition root of a server.
pub mod Lifecycle
pub mod Mux
pub mod Options
mod Examples
