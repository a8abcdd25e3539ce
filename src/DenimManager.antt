-- ===== src/DenimManager.antt =====
-- server/src/managers/denim: the buffers of deniable traffic that the server keeps for each device.
pub mod Payloads
pub mod Buffers
pub mod Outgoing
