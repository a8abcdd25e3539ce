-- ===== src/Client/Contacts/Agreement.antt =====
-- The contacts of client/src/client.rs: the contact manager and the database say the same.
use denim.Prelude.{◌≡◌, refl, sym, ap, ◌∙◌, string_eq, Option, none, some, Bool-cases, inl, inr}
use denim.Prelude.Equality.{eqb_ne}
use denim.Prelude.Dict.{get, insert, remove, get-insert, get-remove}
use denim.Text.{Text}
use denim.Account.{
  ServiceId, aci_id, pni_id, service_id_eq, service_id_eqb_iff, ServiceIds, service_id_string,
}
use denim.Contacts.{Contact, ContactManager}
use denim.Storage.{Tables}
use denim.Storage.Device.Profile.{joined}

-- The column of a contact.
abbrev pub row_of : Option Contact → Option Text
row_of none = none
row_of (some k) = some (joined k.device_ids)

-- Each contact is known under its own identifier, and the database has the same contacts with the same
-- devices.
abbrev pub Agrees : ServiceIds → ContactManager → Tables → Type 0
Agrees ids c t =
    ((id : ServiceId) (k : Contact) → get c.contacts id ≡ some k → k.service_id ≡ id)
    × ((id : ServiceId) → get t.contacts (service_id_string ids id) ≡ row_of (get c.contacts id))

module _ (ids : ServiceIds) where
  pub parse_printed : (id : ServiceId) → ids.parse (service_id_string ids id) ≡ some id
  parse_printed (aci_id a) = ids.parse-aci_string a
  parse_printed (pni_id p) = ids.parse-pni_string p

  printed_once : (a b : ServiceId) → service_id_string ids a ≡ service_id_string ids b → a ≡ b
  printed_once a b h =
      let left = parse_printed a in let right = parse_printed b in let both = ap ids.parse h in cc

  -- Texts of service ids are equal exactly if the ids are.
  same_text :
      (a b : ServiceId)
      → string_eq.eqb (service_id_string ids a) (service_id_string ids b) ≡ service_id_eq.eqb a b
  same_text a b = elim (Bool-cases (service_id_eq.eqb a b)) [
    | inl same ↦ rw same (
        (string_eq.eqb_iff (service_id_string ids a) (service_id_string ids b)).1
          (ap (service_id_string ids) ((service_id_eqb_iff a b).0 same)))
    | inr other ↦ rw other (
        eqb_ne (service_id_string ids a) (service_id_string ids b)
          λ h. let both = (service_id_eqb_iff a b).1 (printed_once a b h) in cc)
  ]

  pub Agrees-insert :
      (c : ContactManager) (t : Tables) (id : ServiceId) (k : Contact)
      → Agrees ids c t
      → k.service_id ≡ id
      → Agrees ids
          (record { contacts = insert c.contacts id k })
          (record t {
            contacts = insert t.contacts (service_id_string ids k.service_id) (joined k.device_ids);
          })
  Agrees-insert c t id k (own, rows) e = (
    (λ j k' found.
        let known = get-insert c.contacts id k j in
        elim (Bool-cases (service_id_eq.eqb id j)) [
          | inl same ↦
              let put : get (insert c.contacts id k) j ≡ some k = known ∙ rw same refl in
              let one : k ≡ k' = cc in
              ap (λ x. x.service_id) (sym one) ∙ e ∙ (service_id_eqb_iff id j).0 same
          | inr other ↦ own j k' (sym (known ∙ rw other refl) ∙ found)
        ]),
    (λ j.
        let known = get-insert c.contacts id k j in
        let row =
          get-insert t.contacts (service_id_string ids k.service_id) (joined k.device_ids)
            (service_id_string ids j) in
        elim (Bool-cases (service_id_eq.eqb id j)) [
          | inl same ↦ rw (row, known, e, same_text id j, same) refl
          | inr other ↦ rw (row, known, e, same_text id j, other) (rows j)
        ]),
  )

  pub Agrees-remove :
      (c : ContactManager) (t : Tables) (id : ServiceId)
      → Agrees ids c t
      → Agrees ids
          (record { contacts = remove c.contacts id })
          (record t { contacts = remove t.contacts (service_id_string ids id) })
  Agrees-remove c t id (own, rows) = (
    (λ j k found.
        let known = get-remove c.contacts id j in
        elim (Bool-cases (service_id_eq.eqb id j)) [
          | inl same ↦ let gone : get (remove c.contacts id) j ≡ none = known ∙ rw same refl in cc
          | inr other ↦ own j k (sym (known ∙ rw other refl) ∙ found)
        ]),
    (λ j.
        let known = get-remove c.contacts id j in
        let row = get-remove t.contacts (service_id_string ids id) (service_id_string ids j) in
        elim (Bool-cases (service_id_eq.eqb id j)) [
          | inl same ↦ rw (row, known, same_text id j, same) refl
          | inr other ↦ rw (row, known, same_text id j, other) (rows j)
        ]),
  )
