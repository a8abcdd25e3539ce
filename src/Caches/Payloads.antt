-- ===== src/Caches/Payloads.antt =====
-- server/src/managers/denim/payload_cache.rs: the queues of payloads, from which bytes are taken.
use denim.Prelude.{ℕ, ℤ, negsuc, List, [], ◌++◌, Run, if◌then◌else◌}
use denim.Text.{Text, codes}
use denim.Account.{ProtocolAddress}
use denim.DenimManager.Buffers.{Buffer}
use denim.DenimManager.Outgoing.{PayloadCache}
use denim.Caches.Chunks.{buffer_name, braced, Bincode, no_values}
use denim.Redis.{Server, Exchange, connect, query, as_unit, finish, return, run, ◌>>=◌, ◌>>◌}
use denim.Redis.Entries.{Base64, object_decode, bytes_decode}
use denim.Redis.Operations as redis
use denim.Redis.Operations.{Keys}

unfoldable pub get_queue_key : ProtocolAddress → Buffer → Text
get_queue_key address buffer =
    codes "payload_" ++ buffer_name buffer ++ codes "_queue::" ++ braced address

unfoldable pub get_persist_in_progress_key : ProtocolAddress → Buffer → Text
get_persist_in_progress_key address buffer =
    codes "payload_" ++ buffer_name buffer ++ codes "_queue_persisting::" ++ braced address

unfoldable pub get_queue_metadata_key : ProtocolAddress → Buffer → Text
get_queue_metadata_key address buffer =
    codes "payload_" ++ buffer_name buffer ++ codes "_queue_metadata::" ++ braced address

unfoldable pub get_queue_index_key : Buffer → Text
get_queue_index_key buffer = codes "payload_" ++ buffer_name buffer ++ codes "_queue_index_key"

abbrev pub keys_of : ProtocolAddress → Buffer → Keys
keys_of address buffer = record {
  queue = get_queue_key address buffer;
  metadata = get_queue_metadata_key address buffer;
  total_index = get_queue_index_key buffer;
  lock = get_persist_in_progress_key address buffer;
}

module _ {P : Type 0} (base64 : Base64) (bincode : Bincode P) where
  unfoldable pub insert : Run ℕ → ProtocolAddress → Buffer → P → Text → Exchange ℕ
  unfolding redis.insert
  insert now address buffer payload payload_guid = do
    query as_unit connect
    value ← finish (bincode.serialize payload)
    redis.insert base64 (keys_of address buffer) now payload_guid value

  unfoldable pub remove : ProtocolAddress → Buffer → List Text → Exchange (List P)
  unfolding redis.remove object_decode
  remove address buffer payload_guid = do
    query as_unit connect
    redis.remove base64 (keys_of address buffer) (object_decode base64 bincode.deserialize)
        payload_guid

  unfoldable pub get_all_payloads : ProtocolAddress → Buffer → Exchange (List P)
  unfolding redis.get_values object_decode
  get_all_payloads address buffer = do
    query as_unit connect
    (values, _) ← redis.get_values base64 (keys_of address buffer) (negsuc 0)
    (if no_values values
        then return []
        else finish (object_decode base64 bincode.deserialize values))

  unfoldable pub get_all_payloads_raw : ProtocolAddress → Buffer → Exchange (List (List ℕ))
  unfolding redis.get_values bytes_decode
  get_all_payloads_raw address buffer = do
    query as_unit connect
    (values, _) ← redis.get_values base64 (keys_of address buffer) (negsuc 0)
    (if no_values values then return [] else finish (bytes_decode base64 values))

  -- What a round of `dequeue_payload_data` asks of Redis.
  unfoldable pub dequeue_bytes : ProtocolAddress → Buffer → ℕ → Exchange (List ℕ × ℕ × ℤ)
  unfolding redis.dequeue_bytes
  dequeue_bytes address buffer bytes_amount = do
    query as_unit connect
    redis.dequeue_bytes base64 (keys_of address buffer) bytes_amount

  -- The cache as the manager of deniable messages uses it, with a source of guids and a clock.
  abbrev pub payload_cache : {S : Type 0} → Server S → (S → Text) → (S → Run ℕ) → PayloadCache S P
  payload_cache execute guid_of now_of = record {
    insert = λ address buffer payload s.
        run execute (insert (now_of s) address buffer payload (guid_of s)) s;
    dequeue_bytes = λ address buffer n. run execute (dequeue_bytes address buffer n);
  }
