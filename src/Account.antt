-- ===== src/Account.antt =====
-- server/src/account.rs, with the device capabilities of common/src/web_api/mod.rs.
pub mod DeviceId
use denim.Prelude.{
  ℕ, suc, ◌+◌, ◌≡◌, Bool, true, false, ◌&&◌, ◌||◌, String, Option, none, some, List, [], ◌∷◌, ◌++◌,
  Eq, ltb, leb, ◌==◌, Run, u32_max, ok, err, panic, ◌>>=◌, or_panic, if◌then◌else◌, contains,
  string_eq, arith, ◌↔◌,
}

pub data AccountCapabilityMode : Type 0 where
  primary_device any_device all_devices : AccountCapabilityMode

pub data DeviceCapabilityType : Type 0 where
  storage transfer delete_sync versioned_expiration_timer : DeviceCapabilityType
  storage_service_record_key_rotation : DeviceCapabilityType

pub record DeviceCapability : Type 0 where
  pub name : String
  pub account_capability_mode : AccountCapabilityMode
  pub prevent_downgrade : Bool
  pub include_in_profile : Bool

-- `DeviceCapabilityType::VALUES`
abbrev pub values : List DeviceCapabilityType
values =
    storage ∷ transfer ∷ delete_sync ∷ versioned_expiration_timer
    ∷ storage_service_record_key_rotation ∷ []

-- `DeviceCapabilityType::value`
unfoldable pub value : DeviceCapabilityType → DeviceCapability
value storage = record {
  name = "storage";
  account_capability_mode = any_device;
  prevent_downgrade = false;
  include_in_profile = false;
}
value transfer = record {
  name = "transfer";
  account_capability_mode = primary_device;
  prevent_downgrade = false;
  include_in_profile = false;
}
value delete_sync = record {
  name = "deleteSync";
  account_capability_mode = all_devices;
  prevent_downgrade = true;
  include_in_profile = true;
}
value versioned_expiration_timer = record {
  name = "versionedExpirationTimer";
  account_capability_mode = all_devices;
  prevent_downgrade = true;
  include_in_profile = true;
}
value storage_service_record_key_rotation = record {
  name = "ssre2";
  account_capability_mode = all_devices;
  prevent_downgrade = true;
  include_in_profile = true;
}

-- The derived `PartialEq`.
abbrev pub capability_code : DeviceCapabilityType → ℕ
capability_code storage = 0
capability_code transfer = 1
capability_code delete_sync = 2
capability_code versioned_expiration_timer = 3
capability_code storage_service_record_key_rotation = 4

pub capability_eqb_iff :
    (a b : DeviceCapabilityType) → ((capability_code a == capability_code b) ≡ true) ↔ (a ≡ b)
capability_eqb_iff a b = ground arith

instance abbrev pub capability_eq : Eq DeviceCapabilityType
capability_eq = record {
  eqb = λ a b. capability_code a == capability_code b;
  eqb_iff = capability_eqb_iff;
}

-- `Device`
pub record Device : Type 0 where
  pub device_id : ℕ
  pub name : String
  pub last_seen : ℕ
  pub created : ℕ
  pub auth_token : String
  pub salt : String
  pub registration_id : ℕ
  pub pni_registration_id : ℕ
  pub capabilities : List DeviceCapabilityType

-- `aci` and `pni` are the identifiers without their kind.
pub record Account : Type 0 where
  pub aci : String
  pub pni : String
  pub aci_identity_key : List ℕ
  pub pni_identity_key : List ℕ
  pub devices : List Device
  pub phone_number : String

-- libsignal's identifiers: `ServiceId::Aci(_)`, `ServiceId::Pni(_)`.
pub data ServiceId : Type 0 where
  aci_id : String → ServiceId
  pni_id : String → ServiceId

unfoldable pub service_id_eqb : ServiceId → ServiceId → Bool
service_id_eqb (aci_id a) (aci_id b) = string_eq.eqb a b
service_id_eqb (pni_id a) (pni_id b) = string_eq.eqb a b
service_id_eqb _ _ = false

pub service_id_eqb_iff : (a b : ServiceId) → (service_id_eqb a b ≡ true) ↔ (a ≡ b)
unfolding service_id_eqb
service_id_eqb_iff (aci_id a) (aci_id b) = ground (arith, string_eq.eqb_iff a b)
service_id_eqb_iff (pni_id a) (pni_id b) = ground (arith, string_eq.eqb_iff a b)
service_id_eqb_iff (aci_id a) (pni_id b) = ground arith
service_id_eqb_iff (pni_id a) (aci_id b) = ground arith

instance abbrev pub service_id_eq : Eq ServiceId
service_id_eq = record { eqb = service_id_eqb; eqb_iff = service_id_eqb_iff }

pub data ServiceIdKind : Type 0 where
  aci_kind pni_kind : ServiceIdKind

pub record ProtocolAddress : Type 0 where
  pub name : String
  pub device_id : ℕ

abbrev pub protocol_address_eqb : ProtocolAddress → ProtocolAddress → Bool
protocol_address_eqb a b = string_eq.eqb a.name b.name && a.device_id == b.device_id

pub record AuthenticatedDevice : Type 0 where
  pub account : Account
  pub device : Device

-- The derived `PartialEq` of a device.
unfoldable pub capabilities_eqb : List DeviceCapabilityType → List DeviceCapabilityType → Bool
capabilities_eqb [] [] = true
capabilities_eqb (x ∷ xs) (y ∷ ys) =
    capability_code x == capability_code y && capabilities_eqb xs ys
capabilities_eqb _ _ = false

unfoldable pub device_eqb : Device → Device → Bool
unfolding capabilities_eqb
device_eqb a b =
    a.device_id == b.device_id
    && string_eq.eqb a.name b.name
    && a.last_seen == b.last_seen
    && a.created == b.created
    && string_eq.eqb a.auth_token b.auth_token
    && string_eq.eqb a.salt b.salt
    && a.registration_id == b.registration_id
    && a.pni_registration_id == b.pni_registration_id
    && capabilities_eqb a.capabilities b.capabilities

unfoldable pub contains_device : List Device → Device → Bool
unfolding device_eqb
contains_device [] d = false
contains_device (e ∷ es) d = device_eqb e d || contains_device es d

unfoldable pub add_device : Account → Device → Run Account
unfolding contains_device
add_device a device =
    if contains_device a.devices device
    then err "Device is already registered on the account"
    else ok (record a { devices = a.devices ++ device ∷ [] })

-- `Device::has_capability`
unfoldable pub device_has_capability : Device → DeviceCapabilityType → Bool
device_has_capability d capability = contains d.capabilities capability

unfoldable pub find_device : ℕ → List Device → Option Device
find_device id [] = none
find_device id (d ∷ ds) = if d.device_id == id then some d else find_device id ds

unfoldable pub any_has : List Device → DeviceCapabilityType → Bool
unfolding device_has_capability
any_has [] c = false
any_has (d ∷ ds) c = device_has_capability d c || any_has ds c

unfoldable pub all_have : List Device → DeviceCapabilityType → Bool
unfolding device_has_capability
all_have [] c = true
all_have (d ∷ ds) c = device_has_capability d c && all_have ds c

-- `Account::has_capability`: an account with no primary device makes it panic.
unfoldable pub has_capability : Account → DeviceCapabilityType → Run Bool
unfolding value find_device any_has all_have
has_capability a c = elim (value c).account_capability_mode [
  | primary_device ↦ (do d ← or_panic (find_device 1 a.devices); ok (device_has_capability d c))
  | any_device ↦ ok (any_has a.devices c)
  | all_devices ↦ ok (all_have a.devices c)
]

-- `.map(…).max()`
unfoldable pub max_device_id : List Device → Option ℕ
max_device_id [] = none
max_device_id (d ∷ ds) = elim (max_device_id ds) [
  | none ↦ some d.device_id
  | some m ↦ some (if leb m d.device_id then d.device_id else m)
]

unfoldable pub get_next_device_id : Account → Run ℕ
unfolding max_device_id
get_next_device_id a = do
  greatest ← or_panic (max_device_id a.devices)
  if ltb greatest u32_max then ok (greatest + 1) else panic

-- `service_id_string` of an ACI and a PNI are libsignal's.
pub record ServiceIds : Type 0 where
  pub aci_string : String → String
  pub pni_string : String → String
  pub parse : String → Option ServiceId
  pub parse-aci_string : (id : String) → parse (aci_string id) ≡ some (aci_id id)
  pub parse-pni_string : (id : String) → parse (pni_string id) ≡ some (pni_id id)

abbrev pub service_id_string : ServiceIds → ServiceId → String
service_id_string ids (aci_id id) = ids.aci_string id
service_id_string ids (pni_id id) = ids.pni_string id

-- `Account::get_protocol_address`
unfoldable pub get_protocol_address : ServiceIds → Account → ServiceIdKind → ℕ → ProtocolAddress
get_protocol_address ids a aci_kind id = record { name = ids.aci_string a.aci; device_id = id }
get_protocol_address ids a pni_kind id = record { name = ids.pni_string a.pni; device_id = id }

-- `AuthenticatedDevice::get_protocol_address`
unfoldable pub device_protocol_address :
    ServiceIds → AuthenticatedDevice → ServiceIdKind → ProtocolAddress
unfolding get_protocol_address
device_protocol_address ids d kind = get_protocol_address ids d.account kind d.device.device_id
