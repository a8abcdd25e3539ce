-- ===== src/Chunk.antt =====
-- common/src/deniable/chunk.rs, constants.rs and mod.rs, with the chunk type of
-- common/src/web_api/mod.rs: how deniable data is cut into the spare room of a regular message.
pub mod Types
pub mod Sort
pub mod Buffer
pub mod Ordered
