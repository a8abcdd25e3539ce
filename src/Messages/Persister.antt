-- ===== src/Messages/Persister.antt =====
-- server/src/persisters/message_persister.rs: the queues whose oldest message is old are moved to the
-- database.
pub mod Moves
pub mod Batches
use denim.Prelude.{
  ℕ, zero, suc, ◌-◌, String, Option, none, some, List, [], ◌∷◌, Outcome, ok, err, panic,
  out_of_fuel, Run, or_err, or_panic, checked_sub, ◌==◌, if◌then◌else◌,
}
use denim.Prelude.Effects.{Action, return, lift, ◌>>=◌, ◌>>◌}
use denim.Text.{Text, codes, parse_u32}
use denim.Account.{Account, Device, ServiceId, ServiceIds, ProtocolAddress}
use denim.WebApi.{Envelope}
use denim.Caches.Chunks.{Bincode}
use denim.Caches.Messages as cache
use denim.Redis.{Server, run}
use denim.Redis.Entries.{Base64}
use denim.Messages.{Database, persist_messages}

abbrev pub queue_batch_limit : ℕ
queue_batch_limit = 100

abbrev pub message_batch_limit : ℕ
message_batch_limit = 100

abbrev pub persist_delay : ℕ
persist_delay = 600

-- What else the persister asks for: the clock, the account of a service id, and libsignal's texts of
-- service ids.
pub record Surroundings (S : Type 0) : Type 0 where
  pub now : Action S String ℕ
  pub parse_service_id : Text → Option ServiceId
  pub service_ids : ServiceIds
  pub get_account : ServiceId → Action S String Account

-- `devices.iter().find(…)`
abbrev pub device_with : ℕ → List Device → Option Device
device_with id [] = none
device_with id (d ∷ ds) = if d.device_id == id then some d else device_with id ds

module _ {S : Type 0} (execute : Server S) (db : Database S) (base64 : Base64)
    (bincode : Bincode Envelope) where
  -- The `while` of `persist_queue`, on fuel.
  unfoldable pub persist_loop : ℕ → ProtocolAddress → Action S String (Unit {0})
  unfolding persist_messages cache.get_messages_to_persist
  persist_loop zero address = lift out_of_fuel
  persist_loop (suc fuel) address =
      run execute (cache.get_messages_to_persist base64 bincode address message_batch_limit)
      >>= λ messages. after_batch (persist_loop fuel address) address messages
    where
      after_batch :
          Action S String (Unit {0}) → ProtocolAddress → List Envelope → Action S String (Unit {0})
      after_batch rest address [] = return tt
      after_batch rest address (m ∷ ms) =
          persist_messages execute db base64 bincode address (m ∷ ms) >>= λ _. rest

  unfoldable pub persist_queue : ℕ → ProtocolAddress → Action S String (Unit {0})
  unfolding persist_loop cache.lock_queue_for_persistence cache.unlock_queue_for_persistence
  persist_queue fuel protocol_address = do
    run execute (cache.lock_queue_for_persistence base64 bincode protocol_address)
    persist_loop fuel protocol_address
    run execute (cache.unlock_queue_for_persistence base64 bincode protocol_address)

  module _ (around : Surroundings S) where
    -- The body of the `for` over the queues.
    unfoldable pub persist_key : ℕ → Text → Action S String (Unit {0})
    unfolding persist_queue cache.get_account_and_device_id_from_queue_key parse_u32
    persist_key fuel queue_key = do
      (account_id, device_id) ← lift (cache.get_account_and_device_id_from_queue_key queue_key)
      service_id ←
          lift (or_err (around.parse_service_id account_id) "Failed to parse service id from queue")
      account ← around.get_account service_id
      device_number ← lift (or_err (parse_u32 device_id) "invalid digit found in string")
      device ←
          lift
            (or_err (device_with device_number account.devices) "Could not find device in account.")
      persist_queue fuel (record {
        name = around.service_ids.aci_string account.aci;
        device_id = device.device_id;
      })

    unfoldable pub persist_keys : ℕ → List Text → Action S String (Unit {0})
    unfolding persist_key
    persist_keys fuel [] = return tt
    persist_keys fuel (k ∷ ks) = do persist_key fuel k; persist_keys fuel ks

    -- `persist`: its `while` is on fuel too.
    unfoldable pub persist : ℕ → Action S String (Unit {0})
    unfolding persist_keys cache.get_message_queues_to_persist
    persist zero = lift out_of_fuel
    persist (suc fuel) = around.now >>= λ time_in_secs.
        lift (checked_sub time_in_secs persist_delay) >>= λ max_time.
        run execute (cache.get_message_queues_to_persist base64 bincode max_time queue_batch_limit)
        >>= λ queues. after_keys (persist fuel) queues
      where
        after_keys : Action S String (Unit {0}) → List Text → Action S String (Unit {0})
        after_keys rest [] = return tt
        after_keys rest (k ∷ ks) = persist_keys (suc fuel) (k ∷ ks) >>= λ _. rest
