-- ===== src/ThreadPool.antt =====
-- common/thpool.c: the job queue of the thread pool.
pub mod Store
pub mod Queue
pub mod Chain
pub mod Workers
pub mod Creation
pub mod Pausing
