-- ===== src/Client/Contacts/Loads.antt =====
-- What a later login reads of a contact: a row that `store_contact` of client/src/storage/device.rs has
-- written, as `load_contacts` reads it.
use denim.Prelude.{
  nat_eq, string_eq, ℕ, ◌≡◌, ◌≤◌, contains, Option, none, some, List, [], ◌∷◌, ok, u32_max,
}
use denim.Text.{Text}
use denim.Account.{service_id_eq, ServiceId, ServiceIds, service_id_string}
use denim.Contacts.{Contact}
use denim.Redis.Entries.{Base64}
use denim.Storage.{Libsignal, Engine}
use denim.Storage.Device.Profile.{contact_of}
use denim.Client.Contacts.{Bundles}

-- The identifiers are `u32`s.
abbrev pub Fits : List ℕ → Type 0
Fits [] = Unit {0}
Fits (d ∷ ds) = (d ≤ u32_max) × Fits ds

-- The devices of a contact that may be absent.
abbrev pub devices_of : Option Contact → List ℕ
devices_of none = []
devices_of (some k) = k.device_ids

module _ {E I P R N B : Type 0} (engine : Engine E) (base64 : Base64) (signal : Libsignal I P R N)
    (ids : ServiceIds) (b : Bundles E B) where
  -- The row is read as the contact, with the same devices; without a contact there is no row.
  abbrev pub Loads : ServiceId → Option Contact → Option Text → Type 0
  Loads id none row = row ≡ none
  Loads id (some k) row =
      (text : Text) × (loaded : Contact) × (row ≡ some text)
      × (contact_of engine base64 signal ids (service_id_string ids id, text) ≡ ok loaded)
      × (loaded.service_id ≡ id)
      × ((d : ℕ) → contains loaded.device_ids d ≡ contains k.device_ids d)
