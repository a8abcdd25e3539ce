-- ===== src/Storage/Device/Keys.antt =====
-- client/src/storage/device.rs: pre-keys, sessions and sender keys.
use denim.Prelude.{ℕ, nat_eq, String, string_eq, Option, Outcome, ok, List}
use Prim.Native.String
use denim.Prelude.Dict.{get, insert, remove}
use denim.Prelude.Effects.{return, lift, ◌>>=◌}
use denim.Text.{Text}
use denim.Account.{ProtocolAddress}
use denim.Redis.Entries.{Base64}
use denim.KeyManagers.Client.{PreKeyRecord, SignedPreKeyRecord}
use denim.Storage.{
  SignalProtocolError, Libsignal, Engine, Steps, reading, writing, decoded_with, row_or_err,
  reworded,
}
use denim.Storage.Device.{decoded}

module _ {E I P R N : Type 0} (engine : Engine E) (base64 : Base64)
    (signal : Libsignal I P R N) where
  -- A record that serializes, as the text that is stored.
  abbrev pub encoded : Outcome SignalProtocolError (List ℕ) → Steps E Text
  encoded bytes = lift bytes >>= λ b. return (base64.encode b)

  unfoldable pub get_pre_key : ℕ → Steps E PreKeyRecord
  get_pre_key prekey_id = do
    row ← reading engine λ t. row_or_err (get t.device_pre_key_store prekey_id)
    lift (decoded_with base64 (λ b. reworded signal (signal.pre_key.deserialize b)) row)

  unfoldable pub save_pre_key : ℕ → PreKeyRecord → Steps E (Unit {0})
  save_pre_key prekey_id key_record = do
    rec ← encoded (signal.pre_key.serialize key_record)
    writing engine
        λ t. record t { device_pre_key_store = insert t.device_pre_key_store prekey_id rec }

  unfoldable pub remove_pre_key : ℕ → Steps E (Unit {0})
  remove_pre_key prekey_id =
      writing engine
        λ t. record t { device_pre_key_store = remove t.device_pre_key_store prekey_id }

  unfoldable pub get_signed_pre_key : ℕ → Steps E SignedPreKeyRecord
  get_signed_pre_key id = do
    row ← reading engine λ t. row_or_err (get t.device_signed_pre_key_store id)
    lift (decoded_with base64 (λ b. reworded signal (signal.signed_pre_key.deserialize b)) row)

  unfoldable pub save_signed_pre_key : ℕ → SignedPreKeyRecord → Steps E (Unit {0})
  save_signed_pre_key id key_record = do
    rec ← encoded (signal.signed_pre_key.serialize key_record)
    writing engine
        λ t. record t { device_signed_pre_key_store = insert t.device_signed_pre_key_store id rec }

  unfoldable pub get_kyber_pre_key : ℕ → Steps E SignedPreKeyRecord
  get_kyber_pre_key kyber_prekey_id = do
    row ← reading engine λ t. row_or_err (get t.device_kyber_pre_key_store kyber_prekey_id)
    lift (decoded_with base64 signal.kyber_pre_key.deserialize row)

  unfoldable pub save_kyber_pre_key : ℕ → SignedPreKeyRecord → Steps E (Unit {0})
  save_kyber_pre_key kyber_prekey_id key_record = do
    rec ← encoded (signal.kyber_pre_key.serialize key_record)
    writing engine λ t. record t {
      device_kyber_pre_key_store = insert t.device_kyber_pre_key_store kyber_prekey_id rec;
    }

  unfoldable pub load_session : ProtocolAddress → Steps E (Option R)
  load_session address = do
    row ← reading engine λ t. ok (get t.device_session_store (signal.address_text address))
    lift (decoded (decoded_with base64 signal.session.deserialize) row)

  unfoldable pub load_deniable_session : ProtocolAddress → Steps E (Option R)
  load_deniable_session address = do
    row ← reading engine λ t. ok (get t.deniable_device_session_store (signal.address_text address))
    lift (decoded (decoded_with base64 signal.session.deserialize) row)

  unfoldable pub store_session : ProtocolAddress → R → Steps E (Unit {0})
  store_session address session = do
    rec ← encoded (signal.session.serialize session)
    writing engine λ t. record t {
      device_session_store = insert t.device_session_store (signal.address_text address) rec;
    }

  unfoldable pub store_deniable_session : ProtocolAddress → R → Steps E (Unit {0})
  store_deniable_session address session = do
    rec ← encoded (signal.session.serialize session)
    writing engine λ t. record t {
      deniable_device_session_store =
          insert t.deniable_device_session_store (signal.address_text address) rec;
    }

  -- `{}:{}` of an address and a distribution.
  abbrev pub sender_key_name : ProtocolAddress → String → String
  sender_key_name sender distribution_id =
      String.◌++◌ (signal.address_text sender) (String.◌++◌ ":" distribution_id)

  unfoldable pub store_sender_key : ProtocolAddress → String → N → Steps E (Unit {0})
  store_sender_key sender distribution_id key_record = do
    rec ← encoded (signal.sender_key.serialize key_record)
    writing engine λ t. record t {
      device_sender_key_store =
          insert t.device_sender_key_store (sender_key_name sender distribution_id) rec;
    }

  unfoldable pub load_sender_key : ProtocolAddress → String → Steps E (Option N)
  load_sender_key sender distribution_id = do
    row ←
        reading engine
          λ t. ok (get t.device_sender_key_store (sender_key_name sender distribution_id))
    lift (decoded (decoded_with base64 signal.sender_key.deserialize) row)
