-- ===== src/Plan/Lifecycle/Atomic.antt =====
-- A runtime operation that is refused.
