-- ===== src/Server/Registration/Stored.antt =====
-- What a registration leaves in the database.
use denim.Prelude.{nat_eq, ℕ, ◌≡◌, true, String, Option, some, List, [], ◌∷◌, map, contains}
use denim.Prelude.Effects.{Gives}
use denim.WebApi.{DevicePreKeyBundle}
use denim.Account.{Account, Device, ServiceIds, ProtocolAddress}
use denim.Server.Registration.{Database}

abbrev pub device_numbers : Account → List ℕ
device_numbers a = map (λ (d : Device). d.device_id) a.devices

-- What a read account keeps of the one that was stored; the times of its devices and their capabilities need not
-- come back.
abbrev pub IsKept : Account → Account → Type 0
IsKept a kept =
    (kept.phone_number ≡ a.phone_number)
    × (kept.aci_identity_key ≡ a.aci_identity_key)
    × (kept.pni_identity_key ≡ a.pni_identity_key)
    × (device_numbers kept ≡ device_numbers a)

-- What is in the database, by account identifier and by address. Keys are stored for a device that is there.
pub record IsDatabase {S : Type 0} (ids : ServiceIds) (db : Database S)
    (account_of : S → String → Option Account)
    (bundle_of : S → ProtocolAddress → Option DevicePreKeyBundle) : Type 0 where
  pub stores-account :
      (a : Account) (s : S)
      → Gives
          (db.add_account a s)
          λ _ s'. (kept : Account) × (account_of s' a.aci ≡ some kept) × IsKept a kept
  pub stores-bundle :
      (b : DevicePreKeyBundle) (aci : String) (device_id : ℕ) (a : Account) (s : S)
      → account_of s aci ≡ some a
      → contains (device_numbers a) device_id ≡ true
      → Gives
          (db.store_key_bundle b (record { name = ids.aci_string aci; device_id = device_id }) s)
          λ _ s'.
            (bundle_of s' (record { name = ids.aci_string aci; device_id = device_id }) ≡ some b)
            × ((other : String) → account_of s' other ≡ account_of s other)

module _ {S : Type 0} (ids : ServiceIds) (db : Database S)
    (account_of : S → String → Option Account)
    (bundle_of : S → ProtocolAddress → Option DevicePreKeyBundle)
    (store : IsDatabase ids db account_of bundle_of) where
  abbrev IsNew : String → List ℕ → List ℕ → Device → Account → Type 0
  IsNew phone aci_key pni_key d a =
      (a.phone_number ≡ phone)
      × (a.aci_identity_key ≡ aci_key)
      × (a.pni_identity_key ≡ pni_key)
      × (device_numbers a ≡ d.device_id ∷ [])

  abbrev StoredNew : String → List ℕ → List ℕ → Device → Account → S → Type 0
  StoredNew phone aci_key pni_key d a s' =
      (kept : Account) × (account_of s' a.aci ≡ some kept) × IsNew phone aci_key pni_key d kept
