-- ===== src/Caches/Messages.antt =====
-- `MessageCache` of server/src/managers/message/message_cache.rs: the queues of envelopes. The
-- notification of listeners, which runs in a task of its own, is not modelled.
use denim.Prelude.{
  ℕ, negsuc, String, none, some, List, [], ◌∷◌, ◌++◌, Bool, Run, ok, panic, get_elem?, ltb, ◌==◌,
  if◌then◌else◌,
}
use denim.Text.{Text, codes, decimal}
use denim.Account.{ProtocolAddress}
use denim.WebApi.{Envelope}
use denim.Caches.Chunks.{braced, Bincode, no_values}
use denim.Redis.{
  Exchange, connect, query, as_unit, as_int, as_texts, finish, return, ◌>>=◌, ◌>>◌, zcard, zrange,
  zrange_byscore, zrem, setex, del_key, at,
}
use denim.Redis.Entries.{Base64, object_decode, expect}
use denim.Redis.Operations as redis
use denim.Redis.Operations.{Keys}

unfoldable pub get_message_queue_key : ProtocolAddress → Text
get_message_queue_key address = codes "user_queue::" ++ braced address

unfoldable pub get_persist_in_progress_key : ProtocolAddress → Text
get_persist_in_progress_key address = codes "user_queue_persisting::" ++ braced address

unfoldable pub get_message_queue_metadata_key : ProtocolAddress → Text
get_message_queue_metadata_key address = codes "user_queue_metadata::" ++ braced address

abbrev pub get_queue_index_key : Text
get_queue_index_key = codes "user_queue_index_key"

abbrev pub keys_of : ProtocolAddress → Keys
keys_of address = record {
  queue = get_message_queue_key address;
  metadata = get_message_queue_metadata_key address;
  total_index = get_queue_index_key;
  lock = get_persist_in_progress_key address;
}

-- `s.split("::")`
unfoldable pub split_colons : Text → List Text
split_colons [] = [] ∷ []
split_colons (a ∷ []) = (a ∷ []) ∷ []
split_colons (a ∷ b ∷ s) =
    let rest = split_colons s in
    let later = split_colons (b ∷ s) in
    if a == b':' then (if b == b':' then [] ∷ rest else onto a later) else onto a later
  where
    onto : ℕ → List Text → List Text
    onto a [] = (a ∷ []) ∷ []
    onto a (part ∷ parts) = (a ∷ part) ∷ parts

-- `s.trim_start_matches(c)`, `s.trim_end_matches(c)` and `s.trim_matches(c)`
unfoldable pub trim_start : ℕ → Text → Text
trim_start c [] = []
trim_start c (b ∷ s) = let rest = trim_start c s in if b == c then rest else b ∷ s

unfoldable pub trim_end : ℕ → Text → Text
trim_end c [] = []
trim_end c (b ∷ s) = let rest = trim_end c s in if b == c then kept rest else b ∷ rest
  where
    kept : Text → Text
    kept [] = []
    kept (a ∷ t) = c ∷ a ∷ t

unfoldable pub trim_matches : ℕ → Text → Text
unfolding trim_start trim_end
trim_matches c s = trim_end c (trim_start c s)

-- The index of a missing part panics.
unfoldable pub get_account_and_device_id_from_queue_key : Text → Run (Text × Text)
unfolding split_colons trim_matches
get_account_and_device_id_from_queue_key queue_key = elim (get_elem? (split_colons queue_key) 1) [
  | none ↦ panic
  | some account ↦ elim (get_elem? (split_colons queue_key) 2) [
    | none ↦ panic
    | some device ↦ ok (trim_matches b'{' account, trim_end b'}' device)
  ]
]

module _ (base64 : Base64) (bincode : Bincode Envelope) where
  unfoldable pub insert : Run ℕ → ProtocolAddress → Envelope → String → Exchange ℕ
  unfolding redis.insert
  insert now address envelope message_guid = do
    query as_unit connect
    value ← finish (bincode.serialize (record envelope { server_guid = some message_guid }))
    redis.insert base64 (keys_of address) now (codes message_guid) value

  unfoldable pub remove : ProtocolAddress → List Text → Exchange (List Envelope)
  unfolding redis.remove object_decode
  remove address message_guids = do
    query as_unit connect
    redis.remove base64 (keys_of address) (object_decode base64 bincode.deserialize) message_guids

  unfoldable pub has_messages : ProtocolAddress → Exchange Bool
  has_messages address = do
    query as_unit connect
    msg_count ← query as_int (zcard (get_message_queue_key address))
    return (ltb 0 msg_count)

  unfoldable pub get_all_messages : ProtocolAddress → Exchange (List Envelope)
  unfolding redis.get_values object_decode
  get_all_messages address = do
    query as_unit connect
    (values, _) ← redis.get_values base64 (keys_of address) (negsuc 0)
    (if no_values values
        then return []
        else finish (object_decode base64 bincode.deserialize values))

  -- `ZRANGE` includes both ends.
  unfoldable pub get_messages_to_persist : ProtocolAddress → ℕ → Exchange (List Envelope)
  unfolding object_decode
  get_messages_to_persist address limit = do
    query as_unit connect
    values ← query as_texts (zrange (get_message_queue_key address) 0 limit)
    finish (expect base64 (object_decode base64 bincode.deserialize values))

  unfoldable pub get_message_queues_to_persist : ℕ → ℕ → Exchange (List Text)
  get_message_queues_to_persist max_time limit = do
    query as_unit connect
    results ←
        query as_texts
          (zrange_byscore get_queue_index_key (at (decimal 0)) (at (decimal max_time)) (some limit))
    (if no_values results then return tt else query as_unit (zrem get_queue_index_key results))
    return results

  unfoldable pub lock_queue_for_persistence : ProtocolAddress → Exchange (Unit {0})
  lock_queue_for_persistence address = do
    query as_unit connect
    query as_unit (setex (get_persist_in_progress_key address) (codes "1"))

  unfoldable pub unlock_queue_for_persistence : ProtocolAddress → Exchange (Unit {0})
  unlock_queue_for_persistence address = do
    query as_unit connect
    query as_unit (del_key (get_persist_in_progress_key address))
