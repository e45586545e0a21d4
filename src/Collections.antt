-- ===== src/Collections.antt =====
-- Python's dict and set, as the in-memory adapters and the rate limiter use them.
pub mod Dict
pub mod KeySet
