-- ===== src/Postgres/Accounts.antt =====
-- server/src/storage/postgres.rs: accounts, devices, capabilities and used codes.
use denim.Prelude.{
  ℕ, Bool, not, ◌&&◌, ◌||◌, String, string_eq, Option, some, List, [], ◌∷◌, map, length, ltb,
  Outcome, ok, err, Run, or_panic, ◌==◌, if◌then◌else◌, ◌>>=◌,
}
use denim.Prelude.Effects as effects
use denim.Text.{decimal, parse_u32, text_eqb}
use denim.Account.{
  Account, Device, DeviceCapabilityType, storage, transfer, delete_sync, versioned_expiration_timer,
  storage_service_record_key_rotation, ServiceId, aci_id, pni_id, ServiceIds, service_id_string,
  ProtocolAddress,
}
use denim.Postgres.{
  AccountRow, DeviceRow, Tables, Engine, Steps, reading, writing, first_row, where_rows, any_row,
  account_rows, owned_devices, addressed_devices, is_one_of,
}

-- `impl From<i32> for DeviceCapabilityType`, of common/src/web_api/mod.rs.
abbrev pub capability_of : ℕ → Run DeviceCapabilityType
capability_of n =
    if n == 0
    then ok storage
    else if n == 1
    then ok transfer
    else if n == 2
    then ok delete_sync
    else if n == 3
    then ok versioned_expiration_timer
    else if n == 4
    then ok storage_service_record_key_rotation
    else Outcome.panic

-- `map` with a function that may panic.
abbrev pub each : {A B : Type 0} → (A → Run B) → List A → Run (List B)
each f [] = ok []
each f (a ∷ rows) = f a >>= λ b. each f rows >>= λ bs. ok (b ∷ bs)

-- `Aci::parse_from_service_id_string(…).unwrap()`, and that of `Pni`.
abbrev pub aci_of : Option ServiceId → Run String
aci_of (some (aci_id a)) = ok a
aci_of _ = Outcome.panic

abbrev pub pni_of : Option ServiceId → Run String
pni_of (some (pni_id p)) = ok p
pni_of _ = Outcome.panic

-- `Device::builder()` on a row.
unfoldable pub device_of : List DeviceCapabilityType → DeviceRow → Run Device
unfolding parse_u32
device_of capabilities row = or_panic (parse_u32 row.device_id) >>= λ id.
    or_panic (parse_u32 row.registration_id) >>= λ registration_id.
    or_panic (parse_u32 row.pni_registration_id) >>= λ pni_registration_id. ok (record {
      device_id = id;
      name = row.name;
      last_seen = 0;
      created = 0;
      auth_token = row.auth_token;
      salt = row.salt;
      registration_id = registration_id;
      pni_registration_id = pni_registration_id;
      capabilities = capabilities;
    })

-- The capabilities with this owner.
abbrev pub owned_by : ℕ → List (ℕ × DeviceCapabilityType) → List DeviceCapabilityType
owned_by id [] = []
owned_by id ((owner, c) ∷ rest) = if owner == id then c ∷ owned_by id rest else owned_by id rest

-- The rows that a device leaves behind go with it.
abbrev pub without_devices : List DeviceRow → Tables → Tables
without_devices ds t = record t {
  devices = where_rows (λ d. not (is_one_of ds d.id)) t.devices;
  device_capabilities = where_rows (λ r. not (is_one_of ds r.owner)) t.device_capabilities;
  msq_queue = where_rows (λ r. not (is_one_of ds r.receiver)) t.msq_queue;
  aci_signed_pre_key_store =
      where_rows (λ r. not (is_one_of ds r.owner)) t.aci_signed_pre_key_store;
  pni_signed_pre_key_store =
      where_rows (λ r. not (is_one_of ds r.owner)) t.pni_signed_pre_key_store;
  aci_pq_last_resort_pre_key_store =
      where_rows (λ r. not (is_one_of ds r.owner)) t.aci_pq_last_resort_pre_key_store;
  pni_pq_last_resort_pre_key_store =
      where_rows (λ r. not (is_one_of ds r.owner)) t.pni_pq_last_resort_pre_key_store;
  device_keys = where_rows (λ r. not (is_one_of ds r.owner)) t.device_keys;
  one_time_ec_pre_key_store =
      where_rows (λ r. not (is_one_of ds r.owner)) t.one_time_ec_pre_key_store;
  one_time_pq_pre_key_store =
      where_rows (λ r. not (is_one_of ds r.owner)) t.one_time_pq_pre_key_store;
}

abbrev pub violation : {A : Type 0} → Run A
violation = err "duplicate key value violates unique constraint"

module _ {E : Type 0} (engine : Engine E) (ids : ServiceIds) where
  -- `Account::from_db` on a row.
  unfoldable pub account_of : List Device → AccountRow → Run Account
  account_of devices row = aci_of (ids.parse row.aci) >>= λ aci.
      pni_of (ids.parse row.pni) >>= λ pni. ok (record {
        aci = aci;
        pni = pni;
        aci_identity_key = row.aci_identity_key;
        pni_identity_key = row.pni_identity_key;
        devices = devices;
        phone_number = row.phone_number;
      })

  unfoldable pub insert_account : Account → Tables → Run Tables
  insert_account account t =
      let aci = ids.aci_string account.aci in
      let pni = ids.pni_string account.pni in
      if any_row
        (λ a.
          string_eq.eqb a.aci aci
          || (string_eq.eqb a.pni pni || string_eq.eqb a.phone_number account.phone_number))
        t.accounts
      then violation
      else ok (record t {
        accounts =
            record {
              id = engine.fresh_id (map (λ a. a.id) t.accounts);
              aci = aci;
              pni = pni;
              aci_identity_key = account.aci_identity_key;
              pni_identity_key = account.pni_identity_key;
              phone_number = account.phone_number;
            }
            ∷ t.accounts;
      })

  -- A row for each account that is found.
  unfoldable pub insert_devices : List AccountRow → Device → Tables → Run Tables
  unfolding decimal
  insert_devices [] device t = ok t
  insert_devices (a ∷ accounts) device t =
      let more = insert_devices accounts device (record t {
        devices =
            record {
              id = engine.fresh_id (map (λ d. d.id) t.devices);
              owner = a.id;
              device_id = decimal device.device_id;
              name = device.name;
              auth_token = device.auth_token;
              salt = device.salt;
              registration_id = decimal device.registration_id;
              pni_registration_id = decimal device.pni_registration_id;
            }
            ∷ t.devices;
      }) in
      if any_row (λ d. d.owner == a.id && text_eqb d.device_id (decimal device.device_id)) t.devices
      then violation
      else more

  unfoldable pub add_device : ServiceId → Device → Steps E (Unit {0})
  unfolding insert_devices
  add_device service_id device =
      writing engine
        λ t. insert_devices (account_rows (service_id_string ids service_id) t) device t

  unfoldable pub add_account : Account → Steps E (Unit {0})
  unfolding insert_account add_device
  add_account account =
      effects.◌>>◌ (writing engine (insert_account account)) (first_device account.devices)
    where
      first_device : List Device → Steps E (Unit {0})
      first_device [] = effects.lift Outcome.panic
      first_device (d ∷ ds) = add_device (aci_id account.aci) d

  unfoldable pub get_all_device_capabilities : ServiceId → Steps E (List (ℕ × DeviceCapabilityType))
  get_all_device_capabilities service_id = reading engine λ t.
      owned_devices (service_id_string ids service_id) t >>= λ ds.
      each (λ r. capability_of r.capability_type >>= λ c. ok (r.owner, c))
        (engine.arrange (where_rows (λ r. is_one_of ds r.owner) t.device_capabilities))

  unfoldable pub get_all_devices : ServiceId → Steps E (List Device)
  unfolding get_all_device_capabilities device_of
  get_all_devices service_id =
      effects.◌>>=◌ (get_all_device_capabilities service_id) λ capabilities. reading engine λ t.
        owned_devices (service_id_string ids service_id) t >>= λ ds.
        each (λ row. device_of (owned_by row.id capabilities) row) (engine.arrange ds)

  unfoldable pub get_account : ServiceId → Steps E Account
  unfolding get_all_devices account_of
  get_account service_id = effects.◌>>=◌ (get_all_devices service_id) λ devices. reading engine λ t.
      first_row (engine.arrange (account_rows (service_id_string ids service_id) t))
      >>= account_of devices

  unfoldable pub get_account_from_phonenumber_without_devices : String → Steps E Account
  unfolding account_of
  get_account_from_phonenumber_without_devices phone_number = reading engine λ t.
      first_row
        (engine.arrange (where_rows (λ a. string_eq.eqb a.phone_number phone_number) t.accounts))
      >>= account_of []

  -- An update of a unique column fails if another row has the value, or gets it.
  unfoldable pub update_account_aci : ServiceId → String → Steps E (Unit {0})
  update_account_aci service_id new_aci =
      let name = service_id_string ids service_id in
      let chosen : AccountRow → Bool = λ a. string_eq.eqb a.aci name || string_eq.eqb a.pni name in
      writing engine λ t.
        if ltb 1 (length (account_rows name t))
          || any_row (λ a. not (chosen a) && string_eq.eqb a.aci (ids.aci_string new_aci))
              t.accounts
        then violation
        else ok (record t {
          accounts =
              map {A = AccountRow}
                (λ a. if chosen a then (record a { aci = ids.aci_string new_aci }) else a)
                t.accounts;
        })

  unfoldable pub update_account_pni : ServiceId → String → Steps E (Unit {0})
  update_account_pni service_id new_pni =
      let name = service_id_string ids service_id in
      let chosen : AccountRow → Bool = λ a. string_eq.eqb a.aci name || string_eq.eqb a.pni name in
      writing engine λ t.
        if ltb 1 (length (account_rows name t))
          || any_row (λ a. not (chosen a) && string_eq.eqb a.pni (ids.pni_string new_pni))
              t.accounts
        then violation
        else ok (record t {
          accounts =
              map {A = AccountRow}
                (λ a. if chosen a then (record a { pni = ids.pni_string new_pni }) else a)
                t.accounts;
        })

  unfoldable pub delete_account : ServiceId → Steps E (Unit {0})
  delete_account service_id =
      let name = service_id_string ids service_id in
      writing engine λ t.
        let gone = account_rows name t in
        ok (
          without_devices (where_rows (λ d. any_row (λ a. a.id == d.owner) gone) t.devices)
            (record t {
              accounts =
                  where_rows (λ a. not (string_eq.eqb a.aci name || string_eq.eqb a.pni name))
                    t.accounts;
            }))

  unfoldable pub get_device_capabilities : ProtocolAddress → Steps E (List DeviceCapabilityType)
  get_device_capabilities address = reading engine λ t. addressed_devices address t >>= λ ds.
      each (λ r. capability_of r.capability_type)
        (engine.arrange (where_rows (λ r. is_one_of ds r.owner) t.device_capabilities))

  unfoldable pub get_device : ProtocolAddress → Steps E Device
  unfolding get_device_capabilities device_of
  get_device address = effects.◌>>=◌ (get_device_capabilities address) λ capabilities.
      reading engine λ t. addressed_devices address t >>= λ ds.
      first_row (engine.arrange ds) >>= device_of capabilities

  unfoldable pub delete_device : ProtocolAddress → Steps E (Unit {0})
  delete_device address =
      writing engine λ t. addressed_devices address t >>= λ ds. ok (without_devices ds t)

  unfoldable pub add_used_device_link_token : String → Steps E (Unit {0})
  add_used_device_link_token device_link_token = writing engine λ t.
      if any_row (λ u. string_eq.eqb u device_link_token) t.used_device_link_tokens
      then violation
      else ok (record t { used_device_link_tokens = device_link_token ∷ t.used_device_link_tokens })
