-- ===== src/Semaphore.antt =====
-- includes/zab/async_semaphore.hpp: the binary and the counting semaphore.
pub mod Binary
pub mod Counting
