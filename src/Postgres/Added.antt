-- ===== src/Postgres/Added.antt =====
-- server/src/storage/postgres.rs: a device that is added, and read back.
use denim.Prelude.{
  ◌≡◌, ◌≤◌, refl, sym, ap, ◌∙◌, Bool, true, false, ◌&&◌, ◌==◌, String, [], ◌∷◌, u32_max, map, ok,
  Run, arith, subst,
}
use denim.Prelude as errors
use denim.Prelude.Effects.{Gives, go_on-Gives, Gives-map, ◌>>◌}
use denim.Text.{decimal, text_eqb}
use denim.Text.Decimal.{parse_u32-decimal}
use denim.Account.{Device, ProtocolAddress, ServiceId, ServiceIds, service_id_string}
use denim.Postgres.{
  AccountRow, DeviceRow, CapabilityRow, Tables, Engine, reading, where_rows, any_row, first_row,
  account_rows, addressed_devices, is_one_of,
}
use denim.Postgres.Accounts.{
  insert_devices, add_device, get_device, get_device_capabilities, device_of,
}
use denim.Postgres.Reliable.{writing-Gives}
use denim.Postgres.Reading.{
  IsPostgres, no_row, one_row, reading_value, text_eqb_refl, where_both, any_row-same, unless_taken,
}

module _ {E : Type 0} (engine : Engine E) (ids : ServiceIds) (a : AccountRow)
    (device : Device) where
  -- The row of a new device of the account.
  abbrev pub new_row : Tables → DeviceRow
  new_row t = record {
    id = engine.fresh_id (map (λ d. d.id) t.devices);
    owner = a.id;
    device_id = decimal device.device_id;
    name = device.name;
    auth_token = device.auth_token;
    salt = device.salt;
    registration_id = decimal device.registration_id;
    pni_registration_id = decimal device.pni_registration_id;
  }

  abbrev pub with_device : Tables → Tables
  with_device t = record t { devices = new_row t ∷ t.devices }

  -- Whether the account has a device of this number.
  abbrev pub taken : DeviceRow → Bool
  taken d = d.owner == a.id && text_eqb d.device_id (decimal device.device_id)

  insert_devices-added :
      (t t' : Tables)
      → insert_devices engine ids (a ∷ []) device t ≡ ok t'
      → (t' ≡ with_device t) × (any_row taken t.devices ≡ false)
  unfolding insert_devices decimal
  insert_devices-added t t' h = unless_taken _ _ t' h

  -- The number finds the new device, and no other.
  addressed_devices-added :
      (name : String) (t : Tables)
      → account_rows name t ≡ a ∷ []
      → any_row taken t.devices ≡ false
      → addressed_devices (record { name = name; device_id = device.device_id }) (with_device t)
        ≡ ok (new_row t ∷ [])
  addressed_devices-added name t found free =
      let alone : where_rows (λ d. text_eqb d.device_id (decimal device.device_id))
            (where_rows {A = DeviceRow} (λ d. a.id == d.owner) t.devices)
          ≡ [] =
        where_both (λ d. a.id == d.owner) (λ d. text_eqb d.device_id (decimal device.device_id))
          t.devices (any_row-same _ taken t.devices (λ d. ground arith) ∙ free) in
      let own : (a.id == a.id) ≡ true = ground arith in
      rw (found, own, text_eqb_refl (decimal device.device_id), alone) refl

-- What a device is when it comes back.
abbrev pub read_back : Device → Device
read_back device = record device { last_seen = 0; created = 0; capabilities = [] }

module _ {E : Type 0} (engine : Engine E) (law : IsPostgres engine) (ids : ServiceIds) where
  get_device-alone :
      (address : ProtocolAddress) (d : DeviceRow) (got : Device) (t : Tables) (s : E)
      → addressed_devices address t ≡ ok (d ∷ [])
      → t.device_capabilities ≡ []
      → device_of [] d ≡ ok got
      → Gives (get_device engine ids address (t, s)) λ b st. (b ≡ got) × (st.0 ≡ t)
  unfolding get_device get_device_capabilities
  get_device-alone address d got t s found empty is =
      let none_left : engine.arrange
            (where_rows {A = CapabilityRow} (λ r. is_one_of (d ∷ []) r.owner) t.device_capabilities)
          ≡ [] =
        no_row (law.arranges _)
          (ap (where_rows {A = CapabilityRow} (λ r. is_one_of (d ∷ []) r.owner)) empty) in
      let single : engine.arrange (d ∷ []) ≡ d ∷ [] = one_row d (law.arranges (d ∷ [])) refl in
      go_on-Gives {E = String} (get_device_capabilities engine ids address (t, s)) _
        (λ b st. (b ≡ []) × (st.0 ≡ t)) (λ b st. (b ≡ got) × (st.0 ≡ t))
        (reading_value engine _ [] t s (rw (found, none_left) refl))
        λ b st (none_found, kept).
          let f : Tables → Run Device = λ t.
            errors.◌>>=◌ (addressed_devices address t)
              λ ds. errors.◌>>=◌ (first_row (engine.arrange ds)) (device_of b) in
          Gives-map {S = Tables × E} {E = String} {A = Device} (reading engine f st)
            (λ b' st'. (b' ≡ got) × (st'.0 ≡ st.0)) (λ b' st'. (b' ≡ got) × (st'.0 ≡ t))
            (reading_value engine f got st.0 st.1 (rw (kept, none_found, found, single, is) refl))
            λ b' st' (same, unchanged). (same, unchanged ∙ kept)

  device_of-new_row :
      (a : AccountRow) (device : Device) (t : Tables)
      → device.device_id ≤ u32_max
      → device.registration_id ≤ u32_max
      → device.pni_registration_id ≤ u32_max
      → device_of [] (new_row engine ids a device t) ≡ ok (read_back device)
  unfolding device_of
  device_of-new_row a device t fits fits' fits'' =
      rw
        (
          parse_u32-decimal device.device_id fits,
          parse_u32-decimal device.registration_id fits',
          parse_u32-decimal device.pni_registration_id fits'',
        )
        refl

  -- A device that is added to an account is read back as it was, but for its times, which are zero, and
  -- its capabilities, which are lost. Given that the numbers of the device fit into 32 bits, that both
  -- names are those of a single account, that no device has capabilities yet, and that a query gives
  -- every row.
  pub get_device-add_device :
      (service_id : ServiceId) (name : String) (a : AccountRow) (device : Device) (t : Tables)
      (s : E)
      → account_rows (service_id_string ids service_id) t ≡ a ∷ []
      → account_rows name t ≡ a ∷ []
      → t.device_capabilities ≡ []
      → device.device_id ≤ u32_max
      → device.registration_id ≤ u32_max
      → device.pni_registration_id ≤ u32_max
      → Gives
          ((add_device engine ids service_id device
              >> get_device engine ids (record { name = name; device_id = device.device_id }))
            (t, s))
          λ got _. got ≡ read_back device
  unfolding add_device
  get_device-add_device service_id name a device t s named found empty fits fits' fits'' =
      go_on-Gives {E = String} {A = Unit {0}} {B = Device}
        (add_device engine ids service_id device (t, s)) _
        (λ _ st.
          (st.0 ≡ with_device engine ids a device t)
          × (any_row (taken engine ids a device) t.devices ≡ false))
        _
        (writing-Gives engine _ t s _ λ t' h.
          insert_devices-added engine ids a device t t'
            (sym (ap (λ rows. insert_devices engine ids rows device t) named) ∙ h))
        λ _ st (added, free).
          let d = new_row engine ids a device t in
          let address : ProtocolAddress = record { name = name; device_id = device.device_id } in
          subst
            (λ x. Gives (get_device engine ids address (x, st.1)) λ got _. got ≡ read_back device)
            (sym added)
            (Gives-map {S = Tables × E} {E = String} {A = Device}
              (get_device engine ids address (with_device engine ids a device t, st.1))
              (λ got st'. (got ≡ read_back device) × (st'.0 ≡ with_device engine ids a device t))
              (λ got _. got ≡ read_back device)
              (get_device-alone address d (read_back device) (with_device engine ids a device t)
                st.1 (addressed_devices-added engine ids a device name t found free) empty
                (device_of-new_row a device t fits fits' fits''))
              λ got _ (same, _). same)
