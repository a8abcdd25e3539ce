-- ===== src/Client/Contacts.antt =====
-- The contacts of the client: `add_contact`, `remove_contact` and `update_contact` of
-- client/src/client.rs, which change the contact manager and the database.
pub mod Agreement
pub mod Keeps
pub mod Calls
pub mod Loads
use denim.Prelude.{
  ℕ, Bool, true, false, String, Option, none, some, List, [], ◌∷◌, ◌++◌, Outcome, ok, err, map_err,
  or_panic, if◌then◌else◌,
}
use denim.Prelude.Effects.{Action, return, lift, on_err, ◌>>=◌, ◌>>◌}
use denim.Account.{ServiceId, ServiceIds, service_id_string, ProtocolAddress}
use denim.Contacts as manager
use denim.Contacts.{Contact, ContactManager, ContactManagerError}
use denim.Redis.Entries.{Base64}
use denim.Storage.{SignalProtocolError, Libsignal, Tables, Engine, Steps}
use denim.Storage.Device.Profile as profile
use denim.Client.{SignalClientError, contact_manager_error, process_pre_key_bundle, stored}

-- The state of the client: its contacts, its database, and what stands around it.
abbrev pub State : Type 0 → Type 0
State E = ContactManager × (Tables × E)

abbrev pub Acts : Type 0 → Type 0 → Type 0
Acts E A = Action (State E) SignalClientError A

-- The server's bundles of keys, and libsignal's functions on them. `B` is a `PreKeyBundle`; the argument
-- of `process_prekey_bundle` says whether the stores are the deniable ones.
pub record Bundles (E B : Type 0) : Type 0 where
  pub fetch_pre_key_bundles : ServiceId → Action E SignalClientError (List B)
  pub device_id : B → Option ℕ
  pub process_prekey_bundle :
      Bool → ProtocolAddress → B → Action (Tables × E) SignalProtocolError (Unit {0})

module _ {E : Type 0} where
  -- A call of the database, of the contact manager, and of what stands around.
  abbrev pub device : {A : Type 0} → Steps E A → Acts E A
  device m (c, st) = let r = stored m st in (r.0, (c, r.1))

  abbrev pub around : {A : Type 0} → Action E SignalClientError A → Acts E A
  around m (c, (t, s)) = let r = m s in (r.0, (c, (t, r.1)))

  abbrev pub changed :
      Outcome ContactManagerError ContactManager
      → State E
      → Outcome SignalClientError (Unit {0}) × State E
  changed (ok c) st = (ok tt, (c, st.1))
  changed (err e) st = (err (contact_manager_error e), st)
  changed Outcome.panic st = (Outcome.panic, st)
  changed Outcome.out_of_fuel st = (Outcome.out_of_fuel, st)

  abbrev pub contact_of : ServiceId → Acts E Contact
  contact_of id st = (map_err contact_manager_error (manager.get_contact id st.0), st)

-- `is_ok()`
abbrev pub is_ok : {F A : Type 0} → Outcome F A → Bool
is_ok (ok a) = true
is_ok _ = false

module _ {E I P R N B : Type 0} (engine : Engine E) (base64 : Base64) (signal : Libsignal I P R N)
    (ids : ServiceIds) (b : Bundles E B) where
  -- The `for` over the bundles.
  unfoldable pub sessions_loop : ServiceId → Bool → List B → List ℕ → Acts E (List ℕ)
  sessions_loop service_id deniable [] device_ids = return device_ids
  sessions_loop service_id deniable (bundle ∷ bundles) device_ids =
      lift (or_panic (b.device_id bundle)) >>= λ device_id.
      processed device_id
      >> sessions_loop service_id deniable bundles (device_ids ++ device_id ∷ [])
    where
      processed : ℕ → Acts E (Unit {0})
      processed device_id (c, st) =
          let r =
            on_err process_pre_key_bundle
              (b.process_prekey_bundle deniable
                (record { name = service_id_string ids service_id; device_id = device_id }) bundle)
              st in
          (r.0, (c, r.1))

  unfoldable pub initialize_sessions_from_bundle : ServiceId → List B → Bool → Acts E (List ℕ)
  unfolding sessions_loop
  initialize_sessions_from_bundle service_id bundles deniable =
      sessions_loop service_id deniable bundles []

  unfoldable pub get_new_device_ids : ServiceId → Acts E (List ℕ)
  unfolding initialize_sessions_from_bundle
  get_new_device_ids service_id = around (b.fetch_pre_key_bundles service_id) >>= λ bundles.
      initialize_sessions_from_bundle service_id bundles false

  unfoldable pub update_contact : String → List ℕ → Acts E (Unit {0})
  unfolding manager.update_contact manager.get_contact
  update_contact alias device_ids =
      device (profile.get_service_id_by_nickname engine base64 signal ids alias) >>= λ service_id.
      ((λ st. changed (manager.update_contact service_id device_ids st.0) st)
        >> (contact_of service_id >>= λ contact.
            device (profile.store_contact engine base64 signal ids contact)))

  -- Without device identifiers, those of the server are asked for.
  abbrev pub ids_or_new : ServiceId → Option (List ℕ) → Acts E (List ℕ)
  ids_or_new service_id none = get_new_device_ids service_id
  ids_or_new service_id (some device_ids) = return device_ids

  -- What `add_contact` does for a contact that is not known.
  unfoldable pub add_new_contact : String → ServiceId → Option (List ℕ) → Acts E (Unit {0})
  unfolding update_contact get_new_device_ids manager.add_contact manager.get_contact
  add_new_contact alias service_id device_ids =
      (λ st. changed (manager.add_contact service_id st.0) st)
      >> (contact_of service_id >>= λ contact.
          (device (profile.store_contact engine base64 signal ids contact)
            >> (device
                  (profile.insert_service_id_for_nickname engine base64 signal ids alias service_id)
                >> (ids_or_new service_id device_ids >>= λ new_device_ids.
                    update_contact alias new_device_ids))))

  unfoldable pub add_contact : String → ServiceId → Option (List ℕ) → Acts E (Unit {0})
  unfolding add_new_contact manager.get_contact
  add_contact alias service_id device_ids st =
      if is_ok (manager.get_contact service_id st.0)
      then (ok tt, st)
      else add_new_contact alias service_id device_ids st

  unfoldable pub remove_contact : String → Acts E (Unit {0})
  unfolding manager.remove_contact
  remove_contact alias =
      device (profile.get_service_id_by_nickname engine base64 signal ids alias) >>= λ service_id.
      ((λ st. changed (manager.remove_contact service_id st.0) st)
        >> device (profile.remove_contact engine base64 signal ids service_id))
