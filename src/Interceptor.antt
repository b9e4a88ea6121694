-- ===== src/Interceptor.antt =====
-- interceptor/: the stages of the governance chain.
pub mod Run
pub mod Breaker
pub mod LoadShedding
pub mod RateLimit
pub mod RequestId
pub mod Chain
