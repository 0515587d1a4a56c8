-- ===== src/Throttle.antt =====
-- internal/throttle: the pacing of API calls, and their counts.
pub mod Limiter
pub mod Queue
