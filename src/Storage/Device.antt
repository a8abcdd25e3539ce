-- ===== src/Storage/Device.antt =====
-- client/src/storage/device.rs: `impl ClientDB for Device`. This file has the identities of other
-- devices; keys and sessions, the account, and what is deniable stand in the files below.
pub mod Keys
pub mod Reliable
pub mod KeyIds
pub mod Chunks
pub mod Sound
pub mod History
pub mod Profile
pub mod Deniable
use denim.Prelude.{
  ℕ, Bool, true, false, String, string_eq, Option, none, some, Outcome, ok, err, panic, out_of_fuel,
  map_err, if◌then◌else◌,
}
use denim.Prelude.Equality.{Eq}
use denim.Prelude.Dict.{Dict, get, insert}
use denim.Prelude.Effects.{return, lift, on_err, ◌>>=◌, ◌>>◌}
use denim.Text.{Text}
use denim.Account.{ProtocolAddress}
use denim.Redis.Entries.{Base64}
use denim.Storage.{
  SignalProtocolError, invalid_argument, Libsignal, Tables, Engine, Steps, reading, writing,
  decoded_with,
}

-- `match row { Some(text) => decode(…).map(Some), None => Ok(None) }`
abbrev pub decoded :
    {A : Type 0}
    → (Text → Outcome SignalProtocolError A)
    → Option Text
    → Outcome SignalProtocolError (Option A)
decoded decode none = ok none
decoded decode (some text) = wrapped (decode text)
  where
    wrapped : {A : Type 0} → Outcome SignalProtocolError A → Outcome SignalProtocolError (Option A)
    wrapped (ok a) = ok (some a)
    wrapped (err e) = err e
    wrapped panic = panic
    wrapped out_of_fuel = out_of_fuel

-- `expect`
abbrev pub expected : {E A : Type 0} → Steps E A → Steps E A
expected call st = unwrapped (call st)
  where
    unwrapped :
        {E A : Type 0}
        → Outcome SignalProtocolError A × (Tables × E)
        → Outcome SignalProtocolError A × (Tables × E)
    unwrapped (err e, s) = (panic, s)
    unwrapped (ok a, s) = (ok a, s)
    unwrapped (panic, s) = (panic, s)
    unwrapped (out_of_fuel, s) = (out_of_fuel, s)

module _ {E I P R N : Type 0} ⦃key : Eq I⦄ (engine : Engine E) (base64 : Base64)
    (signal : Libsignal I P R N) where
  abbrev pub rewording : {A : Type 0} → Steps E A → Steps E A
  rewording call = on_err (λ e. invalid_argument (signal.error_text e)) call

  unfoldable pub insert_identity : ProtocolAddress → I → Steps E (Unit {0})
  insert_identity address identity = writing engine λ t. record t {
    device_identity_key_store =
        insert t.device_identity_key_store (signal.address_text address)
          (base64.encode (signal.serialize_identity identity));
  }

  unfoldable pub insert_deniable_identity : ProtocolAddress → I → Steps E (Unit {0})
  insert_deniable_identity address identity = writing engine λ t. record t {
    deniable_device_identity_key_store =
        insert t.deniable_device_identity_key_store (signal.address_text address)
          (base64.encode (signal.serialize_identity identity));
  }

  abbrev pub identity_of_text : Text → Outcome SignalProtocolError I
  identity_of_text text = decoded_with base64 signal.decode_identity text

  unfoldable pub get_identity : ProtocolAddress → Steps E (Option I)
  get_identity address = do
    row ← reading engine λ t. ok (get t.device_identity_key_store (signal.address_text address))
    lift (decoded identity_of_text row)

  unfoldable pub get_deniable_identity : ProtocolAddress → Steps E (Option I)
  get_deniable_identity address = do
    row ←
        reading engine
          λ t. ok (get t.deniable_device_identity_key_store (signal.address_text address))
    lift (decoded identity_of_text row)

  -- What is done with the key that is known.
  abbrev pub saving : Steps E (Unit {0}) → I → Option I → Steps E Bool
  saving store identity none = store >> return true
  saving store identity (some known) =
      if key.eqb known identity then return false else (store >> return false)

  unfoldable pub save_identity : ProtocolAddress → I → Steps E Bool
  unfolding get_identity insert_identity
  save_identity address identity =
      rewording (get_identity address) >>= saving (insert_identity address identity) identity

  unfoldable pub save_deniable_identity : ProtocolAddress → I → Steps E Bool
  unfolding get_deniable_identity insert_deniable_identity
  save_deniable_identity address identity =
      rewording (get_deniable_identity address)
      >>= saving (insert_deniable_identity address identity) identity

  abbrev pub trusts : I → Option I → Bool
  trusts identity none = true
  trusts identity (some known) = key.eqb known identity

  unfoldable pub is_trusted_identity : ProtocolAddress → I → Steps E Bool
  unfolding get_identity
  is_trusted_identity address identity =
      expected (get_identity address) >>= λ known. return (trusts identity known)

  unfoldable pub is_trusted_deniable_identity : ProtocolAddress → I → Steps E Bool
  unfolding get_deniable_identity
  is_trusted_deniable_identity address identity =
      expected (get_deniable_identity address) >>= λ known. return (trusts identity known)
