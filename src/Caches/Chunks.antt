-- ===== src/Caches/Chunks.antt =====
-- server/src/managers/denim/chunk_cache.rs: the queues of chunks. The notification of listeners,
-- which runs in a task of its own, is not modelled.
pub mod Page
use denim.Prelude.{ℕ, ℤ, negsuc, String, List, [], ◌∷◌, ◌++◌, Bool, Run, ok, if◌then◌else◌}
use denim.Text.{Text, codes, decimal}
use denim.Account.{ProtocolAddress}
use denim.Chunk.Types.{DenimChunk}
use denim.DenimManager.Buffers.{Buffer, sender, receiver}
use denim.Redis.{Exchange, connect, query, as_unit, finish, return, ◌>>=◌, ◌>>◌}
use denim.Redis.Entries.{Base64, object_decode}
use denim.Redis.Operations as redis
use denim.Redis.Operations.{Keys}

-- `impl Display for Buffer`
abbrev pub buffer_name : Buffer → Text
buffer_name sender = codes "sender"
buffer_name receiver = codes "receiver"

-- `{{{}::{}}}`; the names of addresses are ASCII.
abbrev pub braced : ProtocolAddress → Text
braced address =
    codes "{" ++ codes address.name ++ codes "::" ++ decimal address.device_id ++ codes "}"

unfoldable pub get_queue_key : ProtocolAddress → Buffer → Text
get_queue_key address buffer =
    codes "chunk_" ++ buffer_name buffer ++ codes "_queue::" ++ braced address

unfoldable pub get_persist_in_progress_key : ProtocolAddress → Buffer → Text
get_persist_in_progress_key address buffer =
    codes "chunk_" ++ buffer_name buffer ++ codes "_queue_persisting::" ++ braced address

unfoldable pub get_queue_metadata_key : ProtocolAddress → Buffer → Text
get_queue_metadata_key address buffer =
    codes "chunk_" ++ buffer_name buffer ++ codes "_queue_metadata::" ++ braced address

unfoldable pub get_queue_index_key : Buffer → Text
get_queue_index_key buffer = codes "chunk_" ++ buffer_name buffer ++ codes "_queue_index_key"

abbrev pub keys_of : ProtocolAddress → Buffer → Keys
keys_of address buffer = record {
  queue = get_queue_key address buffer;
  metadata = get_queue_metadata_key address buffer;
  total_index = get_queue_index_key buffer;
  lock = get_persist_in_progress_key address buffer;
}

-- bincode of a value, a library's.
pub record Bincode (P : Type 0) : Type 0 where
  pub serialize : P → Run (List ℕ)
  pub deserialize : List ℕ → Run P

-- `is_empty`
abbrev pub no_values : {A : Type 0} → List A → Bool
no_values [] = Bool.true
no_values (x ∷ xs) = Bool.false

module _ (base64 : Base64) (bincode : Bincode DenimChunk) where
  unfoldable pub insert : Run ℕ → ProtocolAddress → Buffer → DenimChunk → Text → Exchange ℕ
  unfolding redis.insert
  insert now address buffer chunk chunk_guid = do
    query as_unit connect
    value ← finish (bincode.serialize chunk)
    redis.insert base64 (keys_of address buffer) now chunk_guid value

  unfoldable pub remove : ProtocolAddress → Buffer → List Text → Exchange (List DenimChunk)
  unfolding redis.remove object_decode
  remove address buffer chunk_guid = do
    query as_unit connect
    redis.remove base64 (keys_of address buffer) (object_decode base64 bincode.deserialize)
        chunk_guid

  -- The hash of guids is that of the receiver's buffer; what is read from it is not used.
  unfoldable pub get_all_chunks : ProtocolAddress → Buffer → Exchange (List DenimChunk)
  unfolding redis.get_values object_decode
  get_all_chunks address buffer = do
    query as_unit connect
    (values, _) ←
        redis.get_values base64
          (record (keys_of address buffer) { metadata = get_queue_metadata_key address receiver })
          (negsuc 0)
    (if no_values values
        then return []
        else finish (object_decode base64 bincode.deserialize values))

  -- What the two operations below have in common.
  unfoldable pub dequeue_chunks : ProtocolAddress → Buffer → Exchange (List DenimChunk)
  unfolding redis.get_values remove
  dequeue_chunks address buffer = do
    query as_unit connect
    (values, chunk_guids) ← redis.get_values base64 (keys_of address buffer) (negsuc 0)
    (if no_values values then return [] else remove address buffer chunk_guids)

  unfoldable pub dequeue_incoming_chunks : ProtocolAddress → Exchange (List DenimChunk)
  unfolding dequeue_chunks
  dequeue_incoming_chunks address = dequeue_chunks address sender

  unfoldable pub dequeue_outgoing_chunks : ProtocolAddress → Exchange (List DenimChunk)
  unfolding dequeue_chunks
  dequeue_outgoing_chunks address = dequeue_chunks address receiver
