-- ===== src/Common.antt =====
-- The helpers of internal/common that keep a state.
pub mod RateLimit
pub mod Breakers
