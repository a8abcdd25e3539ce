-- ===== src/Contacts.antt =====
-- client/src/contact_manager.rs: the client's contacts. A `HashSet` of device identifiers is a list
-- of which only membership counts.
pub mod View
use denim.Prelude.{
  ℕ, Bool, true, false, String, Option, none, some, List, [], ◌∷◌, nat_eq, contains, Outcome, ok,
  err, ◌>>=◌, or_err, if◌then◌else◌,
}
use denim.Prelude.Dict.{Dict, empty, get, contains_key, insert, remove}
use denim.Account.{ServiceId, service_id_eq, ProtocolAddress}

pub data ContactManagerError : Type 0 where
  service_id_already_exists : ServiceId → ContactManagerError
  service_id_not_found : ServiceId → ContactManagerError
  device_not_found : ℕ → ContactManagerError

pub record Contact : Type 0 where
  pub service_id : ServiceId
  pub device_ids : List ℕ

unfoldable pub new_contact : ServiceId → Contact
new_contact id = record { service_id = id; device_ids = [] }

-- `service_id_string` is libsignal's.
unfoldable pub get_address :
    (ServiceId → String) → Contact → ℕ → Outcome ContactManagerError ProtocolAddress
get_address service_id_string c device_id =
    if contains c.device_ids device_id
    then ok (record { name = service_id_string c.service_id; device_id = device_id })
    else err (device_not_found device_id)

pub record ContactManager : Type 0 where
  pub contacts : Dict ServiceId Contact

abbrev pub new : ContactManager
new = record { contacts = empty }

unfoldable pub add_contact : ServiceId → ContactManager → Outcome ContactManagerError ContactManager
unfolding new_contact
add_contact id m =
    if contains_key m.contacts id
    then err (service_id_already_exists id)
    else ok (record { contacts = insert m.contacts id (new_contact id) })

unfoldable pub get_contact : ServiceId → ContactManager → Outcome ContactManagerError Contact
get_contact id m = or_err (get m.contacts id) (service_id_not_found id)

unfoldable pub remove_contact :
    ServiceId → ContactManager → Outcome ContactManagerError ContactManager
remove_contact id m =
    if contains_key m.contacts id
    then ok (record { contacts = remove m.contacts id })
    else err (service_id_not_found id)

-- `HashSet::insert` for each identifier.
unfoldable pub insert_ids : List ℕ → List ℕ → List ℕ
insert_ids [] ids = ids
insert_ids (new_id ∷ new_ids) ids =
    insert_ids new_ids (if contains ids new_id then ids else new_id ∷ ids)

-- The contact that `get_contact_mut` returns is changed in place: it is put back under its key.
unfoldable pub update_contact :
    ServiceId → List ℕ → ContactManager → Outcome ContactManagerError ContactManager
unfolding get_contact insert_ids
update_contact id device_ids m = do
  c ← get_contact id m
  ok (record {
    contacts = insert m.contacts id (record c { device_ids = insert_ids device_ids c.device_ids });
  })
