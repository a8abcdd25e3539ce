-- ===== src/DenimManager/Buffers.antt =====
-- The buffers of chunks of server/src/managers/denim/denim_manager.rs: chunks are stored as they
-- arrive, and put together to payloads when they are flushed.
pub mod Flush
use denim.Prelude.{ℕ, ◌+◌, Bool, String, List, [], ◌∷◌, ltb, Outcome, ok, panic, Run, if◌then◌else◌}
use denim.Prelude.Effects.{Action, return, lift, ◌>>=◌, ◌>>◌}
use denim.Chunk.Types.{DenimChunk}
use denim.Account.{ProtocolAddress}
use denim.DenimManager.Payloads.{Codec, create_deniable_payloads}

-- server/src/managers/denim/buffer.rs
pub data Buffer : Type 0 where
  sender receiver : Buffer

-- The operations of `ChunkCache` that the manager calls, and what the cache holds. The identifier of
-- a chunk, which the manager draws at random, is left to the cache.
pub record ChunkCache (S : Type 0) : Type 0 where
  pub insert : ProtocolAddress → Buffer → DenimChunk → Action S String ℕ
  pub dequeue_chunks : ProtocolAddress → Buffer → Action S String (List DenimChunk)
  pub chunks : S → Buffer → ProtocolAddress → List DenimChunk

abbrev pub u64_range : ℕ
u64_range = 18446744073709551616

-- `count += n`
abbrev pub add_u64 : ℕ → ℕ → Run ℕ
add_u64 count n = if ltb (count + n) u64_range then ok (count + n) else panic

module _ {S : Type 0} (cache : ChunkCache S) where
  unfoldable pub enqueue_loop : ProtocolAddress → Buffer → List DenimChunk → ℕ → Action S String ℕ
  enqueue_loop address buffer [] count = return count
  enqueue_loop address buffer (chunk ∷ chunks) count = do
    n ← cache.insert address buffer chunk
    count' ← lift (add_u64 count n)
    enqueue_loop address buffer chunks count'

  -- What the two operations below have in common.
  unfoldable pub enqueue_chunk_buffer :
      ProtocolAddress → Buffer → List DenimChunk → Action S String ℕ
  unfolding enqueue_loop
  enqueue_chunk_buffer address buffer chunks = enqueue_loop address buffer chunks 0

  unfoldable pub enqueue_incoming_chunk_buffer :
      ProtocolAddress → List DenimChunk → Action S String ℕ
  unfolding enqueue_chunk_buffer
  enqueue_incoming_chunk_buffer address chunks = enqueue_chunk_buffer address sender chunks

  unfoldable pub enqueue_outgoing_chunk_buffer :
      ProtocolAddress → List DenimChunk → Action S String ℕ
  unfolding enqueue_chunk_buffer
  enqueue_outgoing_chunk_buffer address chunks = enqueue_chunk_buffer address receiver chunks

  -- What `flush` does with the chunks that wait for more.
  unfoldable pub put_back : ProtocolAddress → Buffer → List DenimChunk → Action S String (Unit {0})
  unfolding enqueue_chunk_buffer
  put_back address buffer [] = return tt
  put_back address buffer (c ∷ cs) = do _ ← enqueue_chunk_buffer address buffer (c ∷ cs); return tt

  -- What the two operations below have in common.
  unfoldable pub flush_chunk_buffer :
      {P : Type 0} → Codec P → ProtocolAddress → Buffer → Action S String (List P)
  unfolding put_back create_deniable_payloads
  flush_chunk_buffer codec address buffer = do
    chunks ← cache.dequeue_chunks address buffer
    (payloads, pending_chunks) ← lift (create_deniable_payloads codec chunks)
    put_back address buffer pending_chunks
    return payloads

  unfoldable pub flush_incoming_chunk_buffer :
      {P : Type 0} → Codec P → ProtocolAddress → Action S String (List P)
  unfolding flush_chunk_buffer
  flush_incoming_chunk_buffer codec address = flush_chunk_buffer codec address sender

  unfoldable pub flush_outgoing_chunk_buffer :
      {P : Type 0} → Codec P → ProtocolAddress → Action S String (List P)
  unfolding flush_chunk_buffer
  flush_outgoing_chunk_buffer codec address = flush_chunk_buffer codec address receiver
