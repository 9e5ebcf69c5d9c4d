-- ===== src/Pool.antt =====
-- The thread pool of Code/liuting1/lt_thread_pool: queue.c and thread_pool.c.
pub mod Queue
pub mod Threads
