-- ===== src/Messages.antt =====
-- Messages of devices that are away: server/src/managers/message/messages_manager.rs and
-- server/src/persisters/message_persister.rs, over the cache of messages and the database.
pub mod Persister
use denim.Prelude.{
  ℕ, zero, suc, String, Option, none, some, List, [], ◌∷◌, ◌++◌, map, length, Bool, true, false,
  ◌&&◌, ◌||◌, Run, ok, ltb, if◌then◌else◌,
}
use denim.Prelude.Effects.{Action, return, lift, ◌>>=◌, ◌>>◌}
use denim.Text.{Text, codes}
use denim.Account.{ProtocolAddress}
use denim.WebApi.{Envelope}
use denim.Caches.Chunks.{Bincode}
use denim.Caches.Messages as cache
use denim.Redis.{Server, run}
use denim.Redis.Entries.{Base64}

-- What the manager asks of the database (server/src/storage/database.rs).
pub record Database (S : Type 0) : Type 0 where
  pub push_message_queue : ProtocolAddress → List Envelope → Action S String (Unit {0})
  pub count_messages : ProtocolAddress → Action S String ℕ
  pub get_messages : ProtocolAddress → Action S String (List Envelope)
  pub delete_messages : ProtocolAddress → Action S String (List Envelope)

-- `Envelope::server_guid()` of prost: the default of an absent text is the empty one.
abbrev pub server_guid : Envelope → Text
server_guid e = elim e.server_guid [ none ↦ [] | some guid ↦ codes guid ]

module _ {S : Type 0} (execute : Server S) (db : Database S) (base64 : Base64)
    (bincode : Bincode Envelope) where
  -- `Uuid::new_v4()` and the clock are arguments.
  unfoldable pub insert : Run ℕ → String → ProtocolAddress → Envelope → Action S String ℕ
  unfolding cache.insert
  insert now uuid address envelope =
      run execute (cache.insert base64 bincode now address envelope uuid)

  unfoldable pub has_messages : ProtocolAddress → Action S String Bool
  has_messages address = do count ← db.count_messages address; return (ltb 0 count)

  -- The word that goes with the two answers.
  abbrev pub outcome : Bool → Bool → String
  outcome true true = "both"
  outcome true false = "cached"
  outcome false true = "persisted"
  outcome false false = "none"

  unfoldable pub may_have_persisted_messages : ProtocolAddress → Action S String (Bool × String)
  unfolding cache.has_messages has_messages
  may_have_persisted_messages address = do
    cache_has_messages ← run execute (cache.has_messages base64 bincode address)
    db_has_messages ← has_messages address
    return (cache_has_messages || db_has_messages, outcome cache_has_messages db_has_messages)

  unfoldable pub get_messages_for_device : ProtocolAddress → Bool → Action S String (List Envelope)
  unfolding cache.get_all_messages
  get_messages_for_device address cached_msg_only = do
    cached_messages ← run execute (cache.get_all_messages base64 bincode address)
    db_messages ← (if cached_msg_only then return [] else db.get_messages address)
    return (cached_messages ++ db_messages)

  unfoldable pub delete : ProtocolAddress → List Text → Action S String (List Envelope)
  unfolding cache.remove
  delete address message_guids = do
    cache_removed_messages ← run execute (cache.remove base64 bincode address message_guids)
    db_removed_messages ← db.delete_messages address
    return (cache_removed_messages ++ db_removed_messages)

  unfoldable pub persist_messages : ProtocolAddress → List Envelope → Action S String ℕ
  unfolding cache.remove
  persist_messages address messages = do
    db.push_message_queue address messages
    removed ← run execute (cache.remove base64 bincode address (map server_guid messages))
    return (length removed)
