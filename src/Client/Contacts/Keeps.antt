-- ===== src/Client/Contacts/Keeps.antt =====
-- client/src/client.rs: what the calls under the operations on contacts leave of contacts.
use denim.Prelude.{
  string_eq, ℕ, ◌≡◌, refl, ap, Bool, true, false, String, List, [], ◌∷◌, ◌++◌, Outcome, ok, err,
  panic, out_of_fuel, Run, map_err, or_panic, if◌then◌else◌,
}
use denim.Prelude.Dict.{insert, remove, contains_key}
use denim.Prelude.Effects.{Gives, Gives-map, go_on-Gives, go_on}
use denim.Account.{ServiceId, service_id_eq, ServiceIds, service_id_string, ProtocolAddress}
use denim.Contacts.{Contact, ContactManager}
use denim.Redis.Entries.{Base64}
use denim.Storage.{
  SignalProtocolError, invalid_argument, Libsignal, Tables, Engine, reading, writing, changing,
}
use denim.Storage.Device.Chunks.{after_call}
use denim.Storage.Device.Profile as profile
use denim.Storage.Device.Profile.{joined}
use denim.Client.{SignalClientError, database_error, process_pre_key_bundle}
use denim.Client.Contacts.{
  State, Bundles, device, sessions_loop, initialize_sessions_from_bundle, get_new_device_ids,
}
use denim.Client.Contacts.Agreement.{Agrees}

-- Neither the contact manager nor the table of contacts changes.
abbrev pub Still : {E : Type 0} → ContactManager → Tables → State E → Type 0
Still c t st = (st.0 ≡ c) × (st.1.0.contacts ≡ t.contacts)

pub Agrees-Still :
    {E : Type 0} (ids : ServiceIds) (c : ContactManager) (t : Tables) (st : State E)
    → Agrees ids c t
    → Still c t st
    → Agrees ids st.0 st.1.0
Agrees-Still ids c t st (own, rows) (same, kept) = rw (same, kept) (own, rows)

pub device_Gives :
    {E A : Type 0} (c : ContactManager) (r : Outcome SignalProtocolError A × (Tables × E))
    (P : A → Tables × E → Type 0)
    → Gives r P
    → Gives {S = State E} (map_err database_error r.0, (c, r.1)) λ a st. (st.0 ≡ c) × P a st.1
device_Gives c (ok a, st) P h = (refl, h)
device_Gives c (err e, st) P h = tt
device_Gives c (panic, st) P h = tt
device_Gives c (out_of_fuel, st) P h = tt

answering-keeps :
    {E A : Type 0} (o : Run A) (t : Tables) (s : E)
    → Gives {S = Tables × E} (map_err invalid_argument o, (t, s)) λ _ st. st.0 ≡ t
answering-keeps (ok a) t s = refl
answering-keeps (err e) t s = tt
answering-keeps panic t s = tt
answering-keeps out_of_fuel t s = tt

pub lift-keeps :
    {E A : Type 0} (o : Outcome SignalProtocolError A) (t : Tables) (st : Tables × E)
    → st.0 ≡ t
    → Gives (o, st) λ _ st. st.0 ≡ t
lift-keeps (ok a) t st h = h
lift-keeps (err e) t st h = tt
lift-keeps panic t st h = tt
lift-keeps out_of_fuel t st h = tt

pub unless-keeps :
    {E : Type 0} (b : Bool) (message : String) (t t' : Tables) (s : E)
    → t'.contacts ≡ t.contacts
    → Gives {S = Tables × E} {E = SignalProtocolError}
        (go_on
          (map_err invalid_argument (if b then err message else ok t'), (t, s))
          λ t'. changing λ _. t')
        λ _ st. st.0.contacts ≡ t.contacts
unless-keeps true message t t' s h = tt
unless-keeps false message t t' s h = h

-- A call that leaves a state for which something holds, whatever it ends in.
pub whatever :
    {S F A : Type 0} (o : Outcome F A) (s : S) (Q : S → Type 0) → Q s → Gives (o, s) λ _ s'. Q s'
whatever (ok a) s Q h = h
whatever (err e) s Q h = tt
whatever panic s Q h = tt
whatever out_of_fuel s Q h = tt

module _ {E : Type 0} (engine : Engine E) where
  pub reading-keeps :
      {A : Type 0} (f : Tables → Run A) (t : Tables) (s : E)
      → Gives (reading engine f (t, s)) λ _ st. st.0 ≡ t
  reading-keeps f t s =
      after_call (engine.prepare s) t _ (λ _ st. st.0 ≡ t)
        λ s1. after_call (engine.execute s1) t _ (λ _ st. st.0 ≡ t) λ s2. answering-keeps (f t) t s2

  pub writing_leaves :
      (f : Tables → Tables) (t : Tables) (s : E)
      → Gives (writing engine f (t, s)) λ _ st. st.0 ≡ f t
  writing_leaves f t s =
      after_call (engine.prepare s) t _ (λ _ st. st.0 ≡ f t)
        λ s1. after_call (engine.execute s1) t _ (λ _ st. st.0 ≡ f t) λ s2. refl

module _ {E I P R N B : Type 0} (engine : Engine E) (base64 : Base64) (signal : Libsignal I P R N)
    (ids : ServiceIds) (b : Bundles E B) where
  pub nickname-keeps :
      (alias : String) (c : ContactManager) (t : Tables) (s : E)
      → Gives
          (device (profile.get_service_id_by_nickname engine base64 signal ids alias) (c, (t, s)))
          λ _ st. Still c t st
  unfolding profile.get_service_id_by_nickname
  nickname-keeps alias c t s =
      Gives-map {S = State E} {E = SignalClientError} {A = ServiceId}
        (device (profile.get_service_id_by_nickname engine base64 signal ids alias) (c, (t, s)))
        (λ _ st. (st.0 ≡ c) × (st.1.0 ≡ t)) _
        (device_Gives c (profile.get_service_id_by_nickname engine base64 signal ids alias (t, s))
          (λ _ st. st.0 ≡ t)
          (go_on-Gives {E = SignalProtocolError} {A = String} {B = ServiceId}
            (reading engine _ (t, s)) _ (λ _ st. st.0 ≡ t) (λ _ st. st.0 ≡ t)
            (reading-keeps engine _ t s) λ row st kept. lift-keeps _ t st kept))
        λ _ st (same, kept). (same, ap (λ x. x.contacts) kept)

  pub store_contact-leaves :
      (k : Contact) (c : ContactManager) (t : Tables) (s : E)
      → Gives (device (profile.store_contact engine base64 signal ids k) (c, (t, s))) λ _ st.
        (st.0 ≡ c)
        × (st.1.0 ≡ record t {
          contacts = insert t.contacts (service_id_string ids k.service_id) (joined k.device_ids);
        })
  unfolding profile.store_contact
  store_contact-leaves k c t s =
      device_Gives c (profile.store_contact engine base64 signal ids k (t, s)) _
        (writing_leaves engine _ t s)

  pub named-keeps :
      (alias : String) (id : ServiceId) (c : ContactManager) (t : Tables) (s : E)
      → Gives
          (device
            (profile.insert_service_id_for_nickname engine base64 signal ids alias id)
            (c, (t, s)))
          λ _ st. Still c t st
  unfolding profile.insert_service_id_for_nickname
  named-keeps alias id c t s =
      device_Gives c
        (profile.insert_service_id_for_nickname engine base64 signal ids alias id (t, s))
        (λ _ st. st.0.contacts ≡ t.contacts)
        (after_call (engine.prepare s) t _ (λ _ st. st.0.contacts ≡ t.contacts)
          λ s1.
            after_call (engine.execute s1) t _ (λ _ st. st.0.contacts ≡ t.contacts)
              λ s2.
                unless-keeps (contains_key t.nicknames (service_id_string ids id)) _ t
                  (record t { nicknames = insert t.nicknames (service_id_string ids id) alias }) s2
                  refl)

  pub remove_contact-leaves :
      (id : ServiceId) (c : ContactManager) (t : Tables) (s : E)
      → Gives (device (profile.remove_contact engine base64 signal ids id) (c, (t, s))) λ _ st.
        (st.0 ≡ c) × (st.1.0 ≡ record t { contacts = remove t.contacts (service_id_string ids id) })
  unfolding profile.remove_contact
  remove_contact-leaves id c t s =
      device_Gives c (profile.remove_contact engine base64 signal ids id (t, s)) _
        (writing_leaves engine _ t s)

  -- What libsignal makes of a bundle changes sessions and identities, and no contact.
  abbrev pub LeavesContacts : Type 0
  LeavesContacts =
      (deniable : Bool) (address : ProtocolAddress) (bundle : B) (st : Tables × E)
      → (b.process_prekey_bundle deniable address bundle st).1.0.contacts ≡ st.0.contacts

  -- The state, and that it agrees.
  abbrev pub InSync : State E → Type 0
  InSync st = Agrees ids st.0 st.1.0

  module _ (leaves : LeavesContacts) where
    pub sessions_loop-keeps :
        (id : ServiceId) (deniable : Bool) (bundles : List B) (got : List ℕ) (st : State E)
        → InSync st
        → Gives
            (sessions_loop engine base64 signal ids b id deniable bundles got st)
            λ _ st'. InSync st'
    unfolding sessions_loop
    sessions_loop-keeps id deniable [] got st h = h
    sessions_loop-keeps id deniable (bundle ∷ bundles) got st h =
        go_on-Gives {S = State E} {E = SignalClientError} {A = ℕ} {B = List ℕ}
          (or_panic (b.device_id bundle), st) _ (λ _ st'. InSync st') _
          (whatever (or_panic (b.device_id bundle)) st InSync h)
          λ device_id st' h'.
            let address : ProtocolAddress = record {
              name = service_id_string ids id;
              device_id = device_id;
            } in
            let r = b.process_prekey_bundle deniable address bundle st'.1 in
            go_on-Gives {S = State E} {E = SignalClientError} {A = Unit {0}} {B = List ℕ}
              (map_err process_pre_key_bundle r.0, (st'.0, r.1)) _ (λ _ st''. InSync st'') _
              (whatever (map_err process_pre_key_bundle r.0) (st'.0, r.1) InSync
                (Agrees-Still ids st'.0 st'.1.0 (st'.0, r.1) h'
                  (refl, leaves deniable address bundle st'.1)))
              λ _ st'' h''. sessions_loop-keeps id deniable bundles (got ++ device_id ∷ []) st'' h''

    pub get_new_device_ids-keeps :
        (id : ServiceId) (st : State E)
        → InSync st
        → Gives (get_new_device_ids engine base64 signal ids b id st) λ _ st'. InSync st'
    unfolding get_new_device_ids initialize_sessions_from_bundle
    get_new_device_ids-keeps id st h =
        let r = b.fetch_pre_key_bundles id st.1.1 in
        go_on-Gives {S = State E} {E = SignalClientError} {A = List B} {B = List ℕ}
          (r.0, (st.0, (st.1.0, r.1))) _ (λ _ st'. InSync st') _
          (whatever r.0 (st.0, (st.1.0, r.1)) InSync h)
          λ bundles st' h'. sessions_loop-keeps id false bundles [] st' h'
