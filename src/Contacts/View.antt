-- ===== src/Contacts/View.antt =====
-- The contacts as an abstract relation: which identifiers are known, and which devices they have.
use denim.Prelude.{
  ℕ, Bool, true, false, not, ◌||◌, ◌&&◌, ◌≡◌, refl, inl, inr, none, some, List, [], ◌∷◌, arith,
  nat_eq, contains, Outcome, ok, err, ◌>>=◌, if◌then◌else◌, Option-cases, Bool-cases, String,
}
use denim.Prelude.Dict.{get, contains_key, get-insert, get-remove}
use denim.Account.{ServiceId, service_id_eq, service_id_eqb, service_id_eqb_iff}
use denim.Contacts.{
  ContactManagerError, service_id_not_found, device_not_found, Contact, new_contact, ContactManager,
  new, add_contact, get_contact, remove_contact, insert_ids, update_contact, get_address,
}

abbrev pub knows : ContactManager → ServiceId → Bool
knows m id = elim (get m.contacts id) [ none ↦ false | some c ↦ true ]

abbrev pub has_device : ContactManager → ServiceId → ℕ → Bool
has_device m id d = elim (get m.contacts id) [ none ↦ false | some c ↦ contains c.device_ids d ]

-- A call of one of the operations that change the contacts.
pub data Operation : Type 0 where
  add : ServiceId → Operation
  delete : ServiceId → Operation
  update : ServiceId → List ℕ → Operation

abbrev pub perform : Operation → ContactManager → Outcome ContactManagerError ContactManager
perform (add id) m = add_contact id m
perform (delete id) m = remove_contact id m
perform (update id ids) m = update_contact id ids m

-- The contacts after a call; one that ends in an error changes nothing.
abbrev pub unless_ok : ContactManager → Outcome ContactManagerError ContactManager → ContactManager
unless_ok m (ok m') = m'
unless_ok m _ = m

abbrev pub after : Operation → ContactManager → ContactManager
after op m = unless_ok m (perform op m)

abbrev pub fails : Outcome ContactManagerError ContactManager → Bool
fails (err e) = true
fails _ = false

-- What a call means for the relation.
abbrev pub refused : Operation → ContactManager → Bool
refused (add id) m = knows m id
refused (delete id) m = not (knows m id)
refused (update id ids) m = not (knows m id)

abbrev pub knows_after : Operation → ContactManager → ServiceId → Bool
knows_after (add id) m j = service_id_eqb id j || knows m j
knows_after (delete id) m j = not (service_id_eqb id j) && knows m j
knows_after (update id ids) m j = knows m j

abbrev pub has_device_after : Operation → ContactManager → ServiceId → ℕ → Bool
has_device_after (add id) m j d = has_device m j d
has_device_after (delete id) m j d = not (service_id_eqb id j) && has_device m j d
has_device_after (update id ids) m j d =
    has_device m j d || (service_id_eqb id j && knows m j && contains ids d)

pub contains-insert_ids :
    (new_ids ids : List ℕ) (d : ℕ)
    → contains (insert_ids new_ids ids) d ≡ (contains new_ids d || contains ids d)
unfolding insert_ids
contains-insert_ids [] ids d = refl
contains-insert_ids (n ∷ ns) ids d = elim (Bool-cases (contains ids n)) [
  | inl there ↦ rw there (ground (arith, contains-insert_ids ns ids d))
  | inr fresh ↦ rw fresh (ground (arith, contains-insert_ids ns (n ∷ ids) d))
]

abbrev Follows : Operation → ContactManager → ServiceId → ℕ → Type 0
Follows op m j d =
    (fails (perform op m) ≡ refused op m)
    × (knows (after op m) j ≡ knows_after op m j)
    × (has_device (after op m) j d ≡ has_device_after op m j d)

add_contact-Follows :
    (id : ServiceId) (m : ContactManager) (j : ServiceId) (d : ℕ) → Follows (add id) m j d
unfolding add_contact new_contact contains_key
add_contact-Follows id m j d =
    ground (arith, get-insert m.contacts id (new_contact id) j, service_id_eqb_iff id j)

remove_contact-Follows :
    (id : ServiceId) (m : ContactManager) (j : ServiceId) (d : ℕ) → Follows (delete id) m j d
unfolding remove_contact contains_key
remove_contact-Follows id m j d =
    ground (arith, get-remove m.contacts id j, service_id_eqb_iff id j)

update_contact-Follows :
    (id : ServiceId) (ids : List ℕ) (m : ContactManager) (j : ServiceId) (d : ℕ)
    → Follows (update id ids) m j d
unfolding update_contact get_contact
update_contact-Follows id ids m j d = elim (Option-cases (get m.contacts id)) [
  | inl missing ↦ rw missing (ground (arith, service_id_eqb_iff id j))
  | inr (c, found) ↦ rw found (
      ground (
        arith,
        get-insert m.contacts id (record c { device_ids = insert_ids ids c.device_ids }) j,
        service_id_eqb_iff id j,
        contains-insert_ids ids c.device_ids d,
      ))
]

-- Every call has the effect it should have on who is known and on which devices each contact has,
-- for all contacts and not only for the named one; and it fails exactly when it adds a known contact
-- or removes or updates an unknown one.
pub after_lem :
    (op : Operation) (m : ContactManager) (j : ServiceId) (d : ℕ)
    → (fails (perform op m) ≡ refused op m)
      × (knows (after op m) j ≡ knows_after op m j)
      × (has_device (after op m) j d ≡ has_device_after op m j d)
after_lem (add id) m j d = add_contact-Follows id m j d
after_lem (delete id) m j d = remove_contact-Follows id m j d
after_lem (update id ids) m j d = update_contact-Follows id ids m j d

abbrev pub after_all : List Operation → ContactManager → ContactManager
after_all [] m = m
after_all (op ∷ ops) m = after_all ops (after op m)

-- A contact stands under its own identifier.
abbrev IsValid : ContactManager → Type 0
IsValid m = (j : ServiceId) (c : Contact) → get m.contacts j ≡ some c → c.service_id ≡ j

some_inj : {a b : Contact} → some a ≡ some b → a ≡ b
some_inj e = cc

after-IsValid : (op : Operation) (m : ContactManager) → IsValid m → IsValid (after op m)
unfolding add_contact remove_contact update_contact get_contact new_contact contains_key
after-IsValid (add id) m h j c e =
    ground (arith, get-insert m.contacts id (new_contact id) j, service_id_eqb_iff id j, h j c)
after-IsValid (delete id) m h j c e =
    ground (arith, get-remove m.contacts id j, service_id_eqb_iff id j, h j c)
after-IsValid (update id ids) m h j c e = elim (Option-cases (get m.contacts id)) [
  | inl missing ↦ h j c (rw missing at e)
  | inr (c₀, found) ↦ ground (
    arith,
    get-insert m.contacts id (record c₀ { device_ids = insert_ids ids c₀.device_ids }) j,
    service_id_eqb_iff id j,
    h j c,
    h id c₀ found,
  )
]

after_all-IsValid :
    (ops : List Operation) (m : ContactManager) → IsValid m → IsValid (after_all ops m)
after_all-IsValid [] m h = h
after_all-IsValid (op ∷ ops) m h = after_all-IsValid ops (after op m) (after-IsValid op m h)

new-IsValid : IsValid new
unfolding get
new-IsValid j c e = cc

get_address_at :
    (service_id_string : ServiceId → String) (id : ServiceId) (d : ℕ) (m : ContactManager)
    → ((c : Contact) → get m.contacts id ≡ some c → c.service_id ≡ id)
    → (get_contact id m >>= λ c. get_address service_id_string c d) ≡ (
        if has_device m id d
        then ok (record { name = service_id_string id; device_id = d })
        else err (if knows m id then device_not_found d else service_id_not_found id))
unfolding get_contact get_address
get_address_at service_id_string id d m h = elim (Option-cases (get m.contacts id)) [
  | inl missing ↦ ground (arith, missing)
  | inr (c, found) ↦ ground (arith, found, h c found)
]

-- After any calls on a new contact manager, looking a contact up and asking it for the address of a
-- device gives an address of exactly this contact and device if it has the device, and an error that
-- names what is missing otherwise.
pub get_address_lem :
    (service_id_string : ServiceId → String) (ops : List Operation) (id : ServiceId) (d : ℕ)
    → (get_contact id (after_all ops new) >>= λ c. get_address service_id_string c d) ≡ (
        if has_device (after_all ops new) id d
        then ok (record { name = service_id_string id; device_id = d })
        else err
            (if knows (after_all ops new) id then device_not_found d else service_id_not_found id))
get_address_lem service_id_string ops id d =
    get_address_at service_id_string id d (after_all ops new)
      (after_all-IsValid ops new new-IsValid id)
