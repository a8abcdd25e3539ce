-- ===== src/Storage/Device/Profile.antt =====
-- client/src/storage/device.rs: the account of the device, the identifiers of its keys, and contacts.
use denim.Prelude.{
  ℕ, nat_eq, String, string_eq, Option, none, some, List, [], ◌∷◌, ◌++◌, map, Outcome, ok, err,
  panic, ltb, length, if◌then◌else◌, or_err, or_panic, ◌==◌,
}
use denim.Prelude.Dict.{contains_key, insert, remove}
use denim.Prelude.Effects.{return, lift, ◌>>=◌}
use denim.Text.{Text, split, decimal, parse_u32}
use denim.Account.{ServiceId, aci_id, pni_id, ServiceIds, service_id_string}
use denim.Contacts.{Contact, insert_ids}
use denim.Redis.Entries.{Base64}
use denim.Storage.{
  SignalProtocolError, invalid_argument, Libsignal, IdentityKeyPair, IdentityRow, Engine, Steps,
  reading, writing, writing_or_err, for_rows, first_row, decoded_with, reworded,
}

-- `max` of a column, or 0 without a row.
abbrev pub max_key : {A : Type 0} → List (ℕ × A) → ℕ
max_key [] = 0
max_key ((k, a) ∷ rows) = if ltb k (max_key rows) then max_key rows else k

-- `.map(|id| id.to_string()).collect().join(",")`
unfoldable pub joined : List ℕ → Text
unfolding decimal
joined [] = []
joined (id ∷ []) = decimal id
joined (id ∷ ids) = decimal id ++ b',' ∷ joined ids

-- The `for` over `row_device_ids.split(",")`.
unfoldable pub parse_ids : List Text → List ℕ → Outcome SignalProtocolError (List ℕ)
unfolding parse_u32 insert_ids
parse_ids [] ids = ok ids
parse_ids (t ∷ ts) ids = elim (parse_u32 t) [
  | none ↦ err (invalid_argument "Could not parse device id")
  | some id ↦ parse_ids ts (insert_ids (id ∷ []) ids)
]

unfoldable pub device_ids_of : Text → Outcome SignalProtocolError (List ℕ)
unfolding parse_ids split
device_ids_of text = if length text == 0 then ok [] else parse_ids (split b',' text) []

module _ {E I P R N : Type 0} (engine : Engine E) (base64 : Base64) (signal : Libsignal I P R N)
    (ids : ServiceIds) where
  unfoldable pub insert_account_information : String → String → String → Steps E (Unit {0})
  insert_account_information aci pni password = writing engine λ t. record t {
    identity =
        record { aci = ids.aci_string aci; pni = ids.pni_string pni; password = password }
        ∷ t.identity;
  }

  unfoldable pub insert_account_key_information : IdentityKeyPair I P → ℕ → Steps E (Unit {0})
  insert_account_key_information key_pair registration_id = writing engine λ t. record t {
    identity_keys =
        record {
          public_key = base64.encode (signal.serialize_identity key_pair.identity_key);
          private_key = base64.encode (signal.serialize_private key_pair.private_key);
          registration_id = registration_id;
        }
        ∷ t.identity_keys;
  }

  unfoldable pub get_key_ids : Steps E (ℕ × ℕ × ℕ)
  get_key_ids = reading engine λ t. ok (
    max_key t.device_pre_key_store.entries,
    max_key t.device_signed_pre_key_store.entries,
    max_key t.device_kyber_pre_key_store.entries,
  )

  unfoldable pub store_contact : Contact → Steps E (Unit {0})
  unfolding joined
  store_contact contact = writing engine λ t. record t {
    contacts =
        insert t.contacts (service_id_string ids contact.service_id) (joined contact.device_ids);
  }

  -- A row of `load_contacts`.
  unfoldable pub contact_of : String × Text → Outcome SignalProtocolError Contact
  unfolding device_ids_of
  contact_of (service_id, row_device_ids) = elim (device_ids_of row_device_ids) [
    | ok device_ids ↦ elim (ids.parse service_id) [
      | none ↦ err (invalid_argument "Could not parse service_id")
      | some id ↦ ok (record { service_id = id; device_ids = device_ids })
    ]
    | err e ↦ err e
    | panic ↦ panic
    | Outcome.out_of_fuel ↦ Outcome.out_of_fuel
  ]

  unfoldable pub load_contacts : Steps E (List Contact)
  unfolding contact_of
  load_contacts = do
    rows ← reading engine λ t. ok (engine.arrange t.contacts.entries)
    for_rows engine (λ row contacts. lift (contact_of row) >>= λ c. return (contacts ++ c ∷ []))
        rows []

  unfoldable pub remove_contact : ServiceId → Steps E (Unit {0})
  remove_contact service_id =
      writing engine
        λ t. record t { contacts = remove t.contacts (service_id_string ids service_id) }

  -- `ContactName`, of client/src/contact_manager.rs, with the parts in the order of the columns.
  unfoldable pub get_all_nicknames : Steps E (List (String × ServiceId))
  get_all_nicknames = do
    rows ← reading engine λ t. ok (engine.arrange t.nicknames.entries)
    for_rows engine
        (λ row names.
          lift (or_panic (ids.parse (row.0))) >>= λ id. return (names ++ (row.1, id) ∷ []))
        rows []

  unfoldable pub insert_service_id_for_nickname : String → ServiceId → Steps E (Unit {0})
  insert_service_id_for_nickname nickname service_id = writing_or_err engine λ t.
      if contains_key t.nicknames (service_id_string ids service_id)
      then err "UNIQUE constraint failed: Nicknames.service_id"
      else ok
          (record t { nicknames = insert t.nicknames (service_id_string ids service_id) nickname })

  -- The rows with this name.
  abbrev pub named : String → List (String × String) → List String
  named nickname [] = []
  named nickname ((id, name) ∷ rows) =
      if string_eq.eqb name nickname then id ∷ named nickname rows else named nickname rows

  unfoldable pub get_service_id_by_nickname : String → Steps E ServiceId
  get_service_id_by_nickname nickname = do
    row ← reading engine λ t. first_row (engine.arrange (named nickname t.nicknames.entries))
    lift (or_err (ids.parse row) (invalid_argument "Could not parse service_id"))

  unfoldable pub get_identity_key_pair : Steps E (IdentityKeyPair I P)
  get_identity_key_pair = do
    row ← reading engine λ t. first_row (engine.arrange t.identity_keys)
    identity ←
        lift (decoded_with base64 (λ b. reworded signal (signal.decode_identity b)) row.public_key)
    private ←
        lift (decoded_with base64 (λ b. reworded signal (signal.decode_private b)) row.private_key)
    return (record { identity_key = identity; private_key = private })

  unfoldable pub get_local_registration_id : Steps E ℕ
  get_local_registration_id =
      reading engine (λ t. first_row (engine.arrange t.identity_keys)) >>= λ row.
      return row.registration_id

  unfoldable pub set_password : String → Steps E (Unit {0})
  set_password new_password = writing engine λ t. record t {
    identity = map {A = IdentityRow} (λ row. record row { password = new_password }) t.identity;
  }

  unfoldable pub get_password : Steps E String
  get_password =
      reading engine (λ t. first_row (engine.arrange t.identity)) >>= λ row. return row.password

  unfoldable pub set_aci : String → Steps E (Unit {0})
  set_aci new_aci = writing engine λ t. record t {
    identity =
        map {A = IdentityRow} (λ row. record row { aci = ids.aci_string new_aci }) t.identity;
  }

  -- `Aci::parse_from_service_id_string`, and that of `Pni`.
  abbrev pub parse_aci : String → Option String
  parse_aci text = aci_of (ids.parse text)
    where
      aci_of : Option ServiceId → Option String
      aci_of (some (aci_id a)) = some a
      aci_of _ = none

  abbrev pub parse_pni : String → Option String
  parse_pni text = pni_of (ids.parse text)
    where
      pni_of : Option ServiceId → Option String
      pni_of (some (pni_id p)) = some p
      pni_of _ = none

  unfoldable pub get_aci : Steps E String
  get_aci = do
    row ← reading engine λ t. first_row (engine.arrange t.identity)
    lift (or_err (parse_aci row.aci) (invalid_argument "Could not convert to aci"))

  unfoldable pub set_pni : String → Steps E (Unit {0})
  set_pni new_pni = writing engine λ t. record t {
    identity =
        map {A = IdentityRow} (λ row. record row { pni = ids.pni_string new_pni }) t.identity;
  }

  unfoldable pub get_pni : Steps E String
  get_pni = do
    row ← reading engine λ t. first_row (engine.arrange t.identity)
    lift (or_err (parse_pni row.pni) (invalid_argument "Could not convert to pni"))
