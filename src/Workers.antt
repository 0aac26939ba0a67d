-- ===== src/Workers.antt =====
-- internal/workers: the pool's queue of order ids, and the sweep that fills it again.
pub mod Pool
