-- ===== src/Caches.antt =====
-- The caches of the server: queues in Redis, one for each device and each kind of value.
pub mod Chunks
pub mod Payloads
pub mod Messages
