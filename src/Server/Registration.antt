-- ===== src/Server/Registration.antt =====
-- `handle_post_registration` of server/src/server/server.rs, with `AccountManager::create_account` of
-- server/src/managers/account_manager.rs.
pub mod Stored
use denim.Prelude.{
  ℕ, Bool, true, false, String, Option, none, some, List, [], ◌∷◌, Outcome, ok, err,
}
use denim.Prelude.Effects.{Action, return, lift, on_err, ◌>>=◌, ◌>>◌}
use denim.WebApi.{
  UploadSignedPreKey, DevicePreKeyBundle, AccountAttributes, RegistrationRequest,
  RegistrationResponse,
}
use denim.Account.{Account, Device, ServiceIds, ProtocolAddress}
use denim.Server.{ApiError, internal_server_error}

-- Why the database refuses an account: the constraint on phone numbers, or anything else.
pub data AddAccountError : Type 0 where
  phone_number_constraint : AddAccountError
  other_error : AddAccountError

-- The database, the identifiers and salts that are drawn at random, and the clock.
pub record Database (S : Type 0) : Type 0 where
  pub add_account : Account → Action S AddAccountError (Unit {0})
  pub store_key_bundle : DevicePreKeyBundle → ProtocolAddress → Action S String (Unit {0})
  pub draw_identifier : Action S ApiError String
  pub generate_hash : String → Action S ApiError (String × String)
  pub time_now : S → Outcome ApiError ℕ

abbrev pub add_account_error : AddAccountError → ApiError
add_account_error phone_number_constraint = record {
  status_code = 400;
  body = "Could not create account, phone number already in use";
}
add_account_error other_error = internal_server_error "Could not create account"

abbrev pub primary_device : AccountAttributes → ℕ → String → String → Device
primary_device attributes now hash salt = record {
  device_id = 1;
  name = attributes.name;
  last_seen = now;
  created = now;
  auth_token = hash;
  salt = salt;
  registration_id = attributes.registration_id;
  pni_registration_id = attributes.pni_registration_id;
  capabilities = attributes.capabilities;
}

abbrev pub key_bundle : RegistrationRequest → DevicePreKeyBundle
key_bundle registration = record {
  aci_signed_pre_key = registration.aci_signed_pre_key;
  pni_signed_pre_key = registration.pni_signed_pre_key;
  aci_pq_pre_key = registration.aci_pq_last_resort_pre_key;
  pni_pq_pre_key = registration.pni_pq_last_resort_pre_key;
}

module _ {S : Type 0} (ids : ServiceIds) (db : Database S) where
  unfoldable pub create_account : String → List ℕ → List ℕ → Device → Action S ApiError Account
  create_account phone_number aci_identity_key pni_identity_key primary_device = do
    pni ← db.draw_identifier
    aci ← db.draw_identifier
    on_err add_account_error (
        db.add_account (record {
          aci = aci;
          pni = pni;
          aci_identity_key = aci_identity_key;
          pni_identity_key = pni_identity_key;
          devices = primary_device ∷ [];
          phone_number = phone_number;
        }))
    return (record {
      aci = aci;
      pni = pni;
      aci_identity_key = aci_identity_key;
      pni_identity_key = pni_identity_key;
      devices = primary_device ∷ [];
      phone_number = phone_number;
    })

  -- The header's user name is the phone number.
  unfoldable pub handle_post_registration :
      String → String → RegistrationRequest → Action S ApiError RegistrationResponse
  unfolding create_account
  handle_post_registration phone_number password registration = do
    now ← λ s. (db.time_now s, s)
    (hash, salt) ← db.generate_hash password
    account ←
        create_account phone_number registration.aci_identity_key registration.pni_identity_key
          (primary_device registration.account_attributes now hash salt)
    on_err (λ e. internal_server_error e)
        (db.store_key_bundle (key_bundle registration)
          (record { name = ids.aci_string account.aci; device_id = 1 }))
    return (record {
      uuid = account.aci;
      number = phone_number;
      pni = account.pni;
      username_hash = none;
      storage_capable = true;
    })
