-- ===== src/Worker.antt =====
-- core/queue_worker.py: one job of the in-process queue, and the queue with its worker loop.
mod Recovery
pub mod Claims
pub mod Delivery
pub mod Verdict
pub mod Pool
pub mod Drain
pub mod Retry
mod Tests
