-- ===== src/Tests/Devices.antt =====
-- Removing and linking devices at concrete inputs.
use denim.Prelude.{
  Option, map, ℕ, ◌≡◌, ◌≢◌, ◌↔◌, ◌⊎◌, refl, Bool, true, false, not, ◌&&◌, String, some, List, [],
  ◌∷◌, arith, ok, err, Outcome,
}
use denim.Prelude.Effects.{Gives}
use denim.Account.{
  Account, Device, AuthenticatedDevice, DeviceCapabilityType, delete_sync, aci_id, ProtocolAddress,
  protocol_address_eqb, capability_eq,
}
use denim.WebApi.{UploadSignedPreKey, DevicePreKeyBundle, LinkDeviceRequest, RegistrationRequest}
use denim.Server.Devices
use denim.Server.Devices.{handle_delete_device}
use denim.Server.Devices.Primary.{
  RemovesOne, after_requests, handle_delete_device_iff, handle_delete_device-keeps_primary,
}
use denim.Server.LinkCode.{Crypto}
use denim.Server.Linking
use denim.Server.Linking.{handle_post_link_device}
use denim.Server.Linking.Checks.{IsTable, handle_post_link_device-once}
use denim.Server.Registration
use denim.Tests.Requests.{ids}

abbrev device : ℕ → Device
device id = record {
  device_id = id;
  name = "phone";
  last_seen = 0;
  created = 0;
  auth_token = "token";
  salt = "salt";
  registration_id = 10;
  pni_registration_id = 20;
  capabilities = delete_sync ∷ [];
}

abbrev account : Account
account = record {
  aci = "a";
  pni = "p";
  aci_identity_key = [];
  pni_identity_key = [];
  devices = device 1 ∷ device 3 ∷ [];
  phone_number = "1234";
}

abbrev authenticated : ℕ → AuthenticatedDevice
authenticated id = record { account = account; device = device id }

-- The state tells which devices are registered.
abbrev accounts : Devices.Accounts (ProtocolAddress → Bool)
accounts = record {
  delete_account = λ id s. (ok tt, s);
  delete_device = λ a s. (ok tt, λ b. not (protocol_address_eqb a b) && s b);
  registered = λ s a. s a;
}

accounts-RemovesOne : RemovesOne accounts
accounts-RemovesOne a b s differ = ground arith

handle_delete_device_iff_example :
    ((handle_delete_device ids accounts 3 (authenticated 1) (λ a. true)).0 ≡ ok tt)
    ↔ ((◌≢◌ {A = ℕ} 3 1) × ((◌≡◌ {A = ℕ} 1 1) ⊎ (◌≡◌ {A = ℕ} 1 3)))
handle_delete_device_iff_example =
    handle_delete_device_iff ids accounts (λ a s. refl) 3 (authenticated 1) (λ a. true)

handle_delete_device-keeps_primary_example :
    after_requests ids accounts
      ((3, authenticated 1) ∷ (1, authenticated 1) ∷ [])
      (λ a. true)
      (record { name = "Aa"; device_id = 1 })
    ≡ true
handle_delete_device-keeps_primary_example =
    handle_delete_device-keeps_primary ids accounts accounts-RemovesOne
      ((3, authenticated 1) ∷ (1, authenticated 1) ∷ []) "Aa" λ a. true

-- The state tells whether the one code is used. A hash is the text itself.
abbrev crypto : Crypto Bool
crypto = record {
  mac = λ text. text;
  sha256 = λ text. text;
  url_safe_encode = λ bytes. bytes;
  url_safe_decode = λ text. some text;
  url_safe_no_pad_encode = λ bytes. bytes;
  parse_service_id = λ text. some (aci_id "a");
  service_id_text = λ account. b'a' ∷ [];
  verify = λ key public signature. some true;
  now_millis = λ s. 1000;
}

abbrev take_code : Bool → Outcome String (Unit {0}) × Bool
take_code true = (err "used", true)
take_code false = (ok tt, true)

abbrev link_accounts : Linking.Accounts Bool
link_accounts = record {
  get_account = λ s id. some account;
  add_device = λ id d s. (ok tt, s);
  add_used_device_link_token = λ code s. take_code s;
  generate_hash = λ password s. (ok (password, "salt"), s);
}

take_code-once : (s : Bool) → Gives (take_code s) λ _ s'. (s ≡ false) × (s' ≡ true)
take_code-once true = tt
take_code-once false = (refl, refl)

link_accounts-IsTable : IsTable link_accounts (λ s code. s)
link_accounts-IsTable = record {
  add-used = λ code s. take_code-once s;
  keeps-add_device = λ id d code s. refl;
  keeps-generate_hash = λ password code s. refl;
}

abbrev key : UploadSignedPreKey
key = record { key_id = 1; public_key = 1 ∷ []; signature = 2 ∷ [] }

-- The code of the account at time 5: "a.5:a.5".
abbrev request : List DeviceCapabilityType → LinkDeviceRequest
request offered = record {
  verification_code = b'a' ∷ b'.' ∷ b'5' ∷ b':' ∷ b'a' ∷ b'.' ∷ b'5' ∷ [];
  account_attributes = record {
    name = "tablet";
    fetches_messages = true;
    registration_id = 11;
    pni_registration_id = 12;
    capabilities = offered;
    unidentified_access_key = [];
  };
  device_activation_request = record {
    aci_signed_pre_key = key;
    pni_signed_pre_key = key;
    aci_pq_last_resort_pre_key = key;
    pni_pq_last_resort_pre_key = key;
  };
}

handle_post_link_device-once_example :
    Gives
      (handle_post_link_device crypto ids link_accounts "password"
        (request (delete_sync ∷ []))
        false)
      λ _ s'.
        Gives
          (handle_post_link_device crypto ids link_accounts "other" (request (delete_sync ∷ [])) s')
          λ _ _. ⊥
handle_post_link_device-once_example =
    handle_post_link_device-once crypto ids link_accounts (λ s code. s) link_accounts-IsTable
      "password" "other" (request (delete_sync ∷ [])) (request (delete_sync ∷ [])) false refl

linked :
    handle_post_link_device crypto ids link_accounts "password" (request (delete_sync ∷ [])) false
    ≡ (ok (record { aci = "Aa"; pni = "Pp"; device_id = 4 }), true)
unfolding handle_post_link_device
linked = refl

-- The last account and the last bundle that are stored.
abbrev Row : Type 0
Row = Option Account × Option DevicePreKeyBundle

-- The database loses the capabilities and the times of the devices.
abbrev forgetful_device : Device → Device
forgetful_device d = record d { last_seen = 0; created = 0; capabilities = [] }

abbrev forgetful : Account → Account
forgetful a = record a { devices = map forgetful_device a.devices }

abbrev database : Registration.Database Row
database = record {
  add_account = λ a s. (ok tt, (some (forgetful a), s.1));
  store_key_bundle = λ b address s. (ok tt, (s.0, some b));
  draw_identifier = λ s. (ok "id", s);
  generate_hash = λ password s. (ok (password, "salt"), s);
  time_now = λ s. ok 5;
}

abbrev registration : RegistrationRequest
registration = record {
  session_id = "";
  recovery_password = "";
  account_attributes = (request []).account_attributes;
  require_atomic = true;
  skip_device_transfer = true;
  aci_identity_key = 1 ∷ [];
  pni_identity_key = 2 ∷ [];
  aci_signed_pre_key = key;
  pni_signed_pre_key = key;
  aci_pq_last_resort_pre_key = key;
  pni_pq_last_resort_pre_key = key;
}
