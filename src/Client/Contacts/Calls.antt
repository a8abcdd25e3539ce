-- ===== src/Client/Contacts/Calls.antt =====
-- The operations on contacts of client/src/client.rs keep the contact manager and the database alike.
use denim.Prelude.{
  string_eq, ℕ, ◌≡◌, refl, ap, true, false, String, Option, none, some, List, [], ◌∷◌, ok,
  Bool-cases, Option-cases, inl, inr,
}
use denim.Prelude.Dict.{get, insert, remove, contains_key, get-insert}
use denim.Prelude.Effects.{Gives, Gives-map, go_on-Gives, return, ◌>>=◌, ◌>>◌}
use denim.Account.{ServiceId, service_id_eq, service_id_eqb_iff, ServiceIds}
use denim.Contacts as manager
use denim.Contacts.{Contact, ContactManager, ContactManagerError, new_contact, insert_ids}
use denim.Redis.Entries.{Base64}
use denim.Storage.{Libsignal, Tables, Engine}
use denim.Storage.Device.Profile as profile
use denim.Storage.Device.Profile.{joined}
use denim.Client.{SignalClientError}
use denim.Client.Contacts.{
  State, Acts, Bundles, device, contact_of, ids_or_new, add_new_contact, add_contact,
  update_contact, remove_contact, is_ok,
}
use denim.Client.Contacts.Agreement.{Agrees, Agrees-insert, Agrees-remove}
use denim.Client.Contacts.Keeps.{
  Still, Agrees-Still, nickname-keeps, store_contact-leaves, named-keeps, remove_contact-leaves,
  LeavesContacts, InSync, get_new_device_ids-keeps,
}

-- A call of the client that changes contacts.
pub data ContactCall : Type 0 where
  add : String → ServiceId → Option (List ℕ) → ContactCall
  update : String → List ℕ → ContactCall
  delete : String → ContactCall

module _ {E I P R N B : Type 0} (engine : Engine E) (base64 : Base64) (signal : Libsignal I P R N)
    (ids : ServiceIds) (b : Bundles E B) where
  unfoldable pub perform : ContactCall → Acts E (Unit {0})
  unfolding add_contact update_contact remove_contact
  perform (add alias id device_ids) = add_contact engine base64 signal ids b alias id device_ids
  perform (update alias device_ids) = update_contact engine base64 signal ids b alias device_ids
  perform (delete alias) = remove_contact engine base64 signal ids b alias

  abbrev pub perform_all : List ContactCall → Acts E (Unit {0})
  perform_all [] = return tt
  perform_all (call ∷ calls) = perform call >> perform_all calls

module _ {E I P R N B : Type 0} (engine : Engine E) (base64 : Base64) (signal : Libsignal I P R N)
    (ids : ServiceIds) (b : Bundles E B) where
  abbrev Synced : State E → Type 0
  Synced = InSync engine base64 signal ids b

  module _ (leaves : LeavesContacts engine base64 signal ids b) where
    -- The contact that the manager has got is stored.
    stored_in_sync :
        (id : ServiceId) (k : Contact) (c : ContactManager) (t : Tables) (s : E)
        → Agrees ids c t
        → k.service_id ≡ id
        → Gives
            (device
              (profile.store_contact engine base64 signal ids k)
              (record { contacts = insert c.contacts id k }, (t, s)))
            λ _ st. Synced st
    stored_in_sync id k c t s agrees e =
        let c' : ContactManager = record { contacts = insert c.contacts id k } in
        Gives-map {S = State E} {E = SignalClientError} {A = Unit {0}}
          (device (profile.store_contact engine base64 signal ids k) (c', (t, s))) _ _
          (store_contact-leaves engine base64 signal ids b k c' t s)
          λ _ st (same, left). rw (same, left) (Agrees-insert ids c t id k agrees e)

    contact_of_self :
        (id : ServiceId) (k : Contact) (c : ContactManager) (st : Tables × E)
        → contact_of id (record { contacts = insert c.contacts id k }, st)
          ≡ (ok k, (record { contacts = insert c.contacts id k }, st))
    unfolding manager.get_contact
    contact_of_self id k c st =
        let found = get-insert c.contacts id k id in
        let self : service_id_eq.eqb id id ≡ true = (service_id_eqb_iff id id).1 refl in
        rw (found, self) refl

    pub update_contact-keeps :
        (alias : String) (device_ids : List ℕ) (st : State E)
        → Synced st
        → Gives (update_contact engine base64 signal ids b alias device_ids st) λ _ st'. Synced st'
    unfolding update_contact
    update_contact-keeps alias device_ids st h =
        go_on-Gives {S = State E} {E = SignalClientError} {A = ServiceId} {B = Unit {0}}
          (device (profile.get_service_id_by_nickname engine base64 signal ids alias) st) _
          (λ _ st'. Synced st') _
          (Gives-map {S = State E} {E = SignalClientError} {A = ServiceId}
            (device (profile.get_service_id_by_nickname engine base64 signal ids alias) st)
            (λ _ st'. Still st.0 st.1.0 st') _
            (nickname-keeps engine base64 signal ids b alias st.0 st.1.0 st.1.1)
            λ _ st' still. Agrees-Still ids st.0 st.1.0 st' h still)
          λ id st' agrees. elim (Option-cases (get st'.0.contacts id)) [
            | inl missing ↦ rw missing tt
            | inr (k, found) ↦
                let k' : Contact = record k { device_ids = insert_ids device_ids k.device_ids } in
                rw (found, contact_of_self id k' st'.0 st'.1)
                  (stored_in_sync id k' st'.0 st'.1.0 st'.1.1 agrees (agrees.0 id k found))
          ]

    contains_key-get :
        (c : ContactManager) (id : ServiceId) (o : Option Contact)
        → get c.contacts id ≡ o
        → contains_key c.contacts id ≡ elim o [ none ↦ false | some _ ↦ true ]
    unfolding contains_key get
    contains_key-get c id o h = ap (λ x. elim x [ none ↦ false | some _ ↦ true ]) h

    pub add_new_contact-keeps :
        (alias : String) (id : ServiceId) (device_ids : Option (List ℕ)) (st : State E)
        → Synced st
        → Gives
            (add_new_contact engine base64 signal ids b alias id device_ids st)
            λ _ st'. Synced st'
    unfolding add_new_contact manager.add_contact
    add_new_contact-keeps alias id device_ids st h = elim (Option-cases (get st.0.contacts id)) [
      | inl missing ↦
          rw (contains_key-get st.0 id none missing, contact_of_self id (new_contact id) st.0 st.1)
            (go_on-Gives {S = State E} {E = SignalClientError} {A = Unit {0}} {B = Unit {0}}
              (device (profile.store_contact engine base64 signal ids (new_contact id))
                (record { contacts = insert st.0.contacts id (new_contact id) }, st.1))
              _ (λ _ st'. Synced st') (λ _ st'. Synced st')
              (stored_in_sync id (new_contact id) st.0 st.1.0 st.1.1 h refl)
              λ _ st' h'. after_store st' h')
      | inr (k, found) ↦ rw (contains_key-get st.0 id (some k) found) tt
    ]
      where
        new_ids :
            (given : Option (List ℕ)) (st' : State E)
            → Synced st'
            → Gives (ids_or_new engine base64 signal ids b id given st') λ _ st''. Synced st''
        new_ids none st' h' = get_new_device_ids-keeps engine base64 signal ids b leaves id st' h'
        new_ids (some given) st' h' = h'

        after_store :
            (st' : State E)
            → Synced st'
            → Gives
                ((device (profile.insert_service_id_for_nickname engine base64 signal ids alias id)
                    >> (ids_or_new engine base64 signal ids b id device_ids >>= λ new_device_ids.
                        update_contact engine base64 signal ids b alias new_device_ids))
                  st')
                λ _ st''. Synced st''
        after_store st' h' =
            go_on-Gives {S = State E} {E = SignalClientError} {A = Unit {0}} {B = Unit {0}}
              (device (profile.insert_service_id_for_nickname engine base64 signal ids alias id)
                st')
              _ (λ _ st''. Synced st'') _
              (Gives-map {S = State E} {E = SignalClientError} {A = Unit {0}}
                (device (profile.insert_service_id_for_nickname engine base64 signal ids alias id)
                  st')
                (λ _ st''. Still st'.0 st'.1.0 st'') _
                (named-keeps engine base64 signal ids b alias id st'.0 st'.1.0 st'.1.1)
                λ _ st'' still. Agrees-Still ids st'.0 st'.1.0 st'' h' still)
              λ _ st'' h''.
                go_on-Gives {S = State E} {E = SignalClientError} {A = List ℕ} {B = Unit {0}}
                  (ids_or_new engine base64 signal ids b id device_ids st'') _ (λ _ st3. Synced st3)
                  _ (new_ids device_ids st'' h'')
                  λ new_device_ids st3 h3. update_contact-keeps alias new_device_ids st3 h3

    remove_contact-keeps :
        (alias : String) (st : State E)
        → Synced st
        → Gives (remove_contact engine base64 signal ids b alias st) λ _ st'. Synced st'
    unfolding remove_contact manager.remove_contact
    remove_contact-keeps alias st h =
        go_on-Gives {S = State E} {E = SignalClientError} {A = ServiceId} {B = Unit {0}}
          (device (profile.get_service_id_by_nickname engine base64 signal ids alias) st) _
          (λ _ st'. Synced st') _
          (Gives-map {S = State E} {E = SignalClientError} {A = ServiceId}
            (device (profile.get_service_id_by_nickname engine base64 signal ids alias) st)
            (λ _ st'. Still st.0 st.1.0 st') _
            (nickname-keeps engine base64 signal ids b alias st.0 st.1.0 st.1.1)
            λ _ st' still. Agrees-Still ids st.0 st.1.0 st' h still)
          λ id st' agrees.
            let c' : ContactManager = record { contacts = remove st'.0.contacts id } in
            elim (Option-cases (get st'.0.contacts id)) [
              | inl missing ↦ rw (contains_key-get st'.0 id none missing) tt
              | inr (k, found) ↦ rw (contains_key-get st'.0 id (some k) found) (
                  Gives-map {S = State E} {E = SignalClientError} {A = Unit {0}}
                    (device (profile.remove_contact engine base64 signal ids id) (c', st'.1)) _ _
                    (remove_contact-leaves engine base64 signal ids b id c' st'.1.0 st'.1.1)
                    λ _ st'' (same, left).
                      rw (same, left) (Agrees-remove ids st'.0 st'.1.0 id agrees))
            ]

    add_contact-keeps :
        (alias : String) (id : ServiceId) (device_ids : Option (List ℕ)) (st : State E)
        → Synced st
        → Gives (add_contact engine base64 signal ids b alias id device_ids st) λ _ st'. Synced st'
    unfolding add_contact
    add_contact-keeps alias id device_ids st h =
        elim (Bool-cases (is_ok (manager.get_contact id st.0))) [
          | inl known ↦ rw known h
          | inr fresh ↦ rw fresh (add_new_contact-keeps alias id device_ids st h)
        ]

    perform-keeps :
        (call : ContactCall) (st : State E)
        → Synced st
        → Gives (perform engine base64 signal ids b call st) λ _ st'. Synced st'
    unfolding perform
    perform-keeps (add alias id device_ids) st h = add_contact-keeps alias id device_ids st h
    perform-keeps (update alias device_ids) st h = update_contact-keeps alias device_ids st h
    perform-keeps (delete alias) st h = remove_contact-keeps alias st h

    -- Whatever contacts are added, updated and removed, the database has the same contacts as the contact
    -- manager, with the same devices, as long as the calls succeed: what a later login loads is what the
    -- client had. Given that libsignal, when it processes a bundle of keys, leaves the table of contacts alone.
    pub perform_all-keeps :
        (calls : List ContactCall) (st : State E)
        → Synced st
        → Gives (perform_all engine base64 signal ids b calls st) λ _ st'. Synced st'
    perform_all-keeps [] st h = h
    perform_all-keeps (call ∷ calls) st h =
        go_on-Gives {S = State E} {E = SignalClientError} {A = Unit {0}} {B = Unit {0}}
          (perform engine base64 signal ids b call st) _ (λ _ st'. Synced st') _
          (perform-keeps call st h) λ _ st' h'. perform_all-keeps calls st' h'
