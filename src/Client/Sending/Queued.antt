-- ===== src/Client/Sending/Queued.antt =====
-- `add_deniable_contact_and_queue_message` of client/src/client.rs: a key request is queued once.
use mathlib.Core.List.{Permᴰ}
use mathlib.Core.List.Permᴰ
use denim.Prelude.{
  nat_eq, string_eq, ℕ, ℤ, ◌≡◌, refl, ap, ◌∙◌, String, Option, none, some, List, [], ◌∷◌, ◌++◌, map,
  pos, ok,
}
use denim.Prelude.Equality.{eqb_self}
use denim.Prelude.Dict.{get, insert, get-insert, insert_absent}
use denim.Prelude.Effects.{Action, Ends, go_on-Ends, Ends-map, return, ◌>>◌}
use denim.Account.{ServiceId, ServiceIds, service_id_string}
use denim.WebApi.{DeniablePayload}
use denim.Storage.{SignalProtocolError, Tables, Engine}
use denim.Storage.Device.Deniable as deniable
use denim.Storage.Device.Chunks.{IsTable}
use denim.Storage.Device.Sound.{IsSound, reading_value, writing_done}
use denim.Client.{SignalClientError, stored}
use denim.Client.Sending.{request_keys, add_deniable_contact_and_queue_message}
use denim.Client.Incoming.Arrival.{stored-Ends}

-- The payloads that wait to be sent, with their counters, and the texts that wait for keys.
abbrev pub queued : Tables → List (List ℕ × ℤ)
queued t = map (λ row. row.1) t.deniable_payload.entries

abbrev pub waiting : Tables → List (String × String)
waiting t = map (λ row. row.1) t.deniable_message_awaiting_encryption.entries

module _ {E : Type 0} (engine : Engine E) (ids : ServiceIds)
    (serialize_payload : DeniablePayload → List ℕ) where
  -- The calls for one contact, one after the other.
  abbrev pub queue_all :
      ServiceId → String → List String → Action (Tables × E) SignalClientError (Unit {0})
  queue_all service_id alias [] = return tt
  queue_all service_id alias (text ∷ texts) =
      add_deniable_contact_and_queue_message engine ids serialize_payload service_id text alias
      >> queue_all service_id alias texts

  abbrev pub request_of : ServiceId → List ℕ
  request_of id =
      serialize_payload
        (DeniablePayload.key_request (record { service_id = service_id_string ids id }))

  module _ (law : IsTable engine) (sound : IsSound engine) where
    -- A text that waits.
    text_waits :
        (text alias : String) (t : Tables) (s : E)
        → Ends
            (stored (deniable.store_message_awaiting_encryption engine text alias) (t, s))
            λ _ st.
              (queued st.0 ≡ queued t)
              × (waiting st.0 ≡ (text, alias) ∷ waiting t)
              × (st.0.deniable_key_requests_sent ≡ t.deniable_key_requests_sent)
    unfolding deniable.store_message_awaiting_encryption
    text_waits text alias t s =
        let d = t.deniable_message_awaiting_encryption in
        let k = engine.fresh_id d.entries in
        stored-Ends (deniable.store_message_awaiting_encryption engine text alias (t, s)) _ (
          Ends-map {E = SignalProtocolError} {A = Unit {0}}
            (deniable.store_message_awaiting_encryption engine text alias (t, s)) _ _
            (writing_done engine sound _ t s)
            λ _ st left.
              rw left (
                refl,
                ap (map (λ row. row.1)) (insert_absent d k (text, alias) (law.fresh d)),
                refl,
              ))

    request_queued :
        (id : ServiceId) (alias : String) (t : Tables) (s : E)
        → Ends (request_keys engine ids serialize_payload id alias none (t, s)) λ _ st.
          (queued st.0 ≡ (request_of id, pos 0) ∷ queued t)
          × (waiting st.0 ≡ waiting t)
          × (get st.0.deniable_key_requests_sent (service_id_string ids id) ≡ some alias)
    unfolding request_keys deniable.store_deniable_payload deniable.store_key_request_sent
    request_queued id alias t s =
        let d = t.deniable_payload in
        let k = engine.fresh_id d.entries in
        go_on-Ends {E = SignalClientError} {A = Unit {0}} {B = Unit {0}}
          (stored (deniable.store_deniable_payload engine none (pos 0) (request_of id)) (t, s)) _
          (λ _ st. st.0 ≡ record t { deniable_payload = insert d k (request_of id, pos 0) }) _
          (stored-Ends (deniable.store_deniable_payload engine none (pos 0) (request_of id) (t, s))
            _ (writing_done engine sound _ t s))
          λ _ st left.
            stored-Ends (deniable.store_key_request_sent engine (service_id_string ids id) alias st)
              _
              (Ends-map {E = SignalProtocolError} {A = Unit {0}}
                (deniable.store_key_request_sent engine (service_id_string ids id) alias st) _ _
                (writing_done engine sound _ st.0 st.1)
                λ _ st' left'.
                  rw (left', left)
                    (
                      ap (map (λ row. row.1))
                          (insert_absent d k (request_of id, pos 0) (law.fresh d)),
                      refl,
                      get-insert t.deniable_key_requests_sent (service_id_string ids id) alias
                            (service_id_string ids id)
                          ∙ rw (eqb_self (service_id_string ids id)) refl,
                    ))

    -- The request has been sent: only the text is added.
    queue_known :
        (id : ServiceId) (alias known text : String) (t : Tables) (s : E)
        → get t.deniable_key_requests_sent (service_id_string ids id) ≡ some known
        → Ends
            (add_deniable_contact_and_queue_message engine ids serialize_payload id text alias
              (t, s))
            λ _ st.
              (queued st.0 ≡ queued t)
              × (waiting st.0 ≡ (text, alias) ∷ waiting t)
              × (st.0.deniable_key_requests_sent ≡ t.deniable_key_requests_sent)
    unfolding add_deniable_contact_and_queue_message deniable.try_get_key_request_sent
    queue_known id alias known text t s sent =
        go_on-Ends {E = SignalClientError} {A = Option String} {B = Unit {0}}
          (stored (deniable.try_get_key_request_sent engine (service_id_string ids id)) (t, s)) _
          (λ o st. (o ≡ some known) × (st.0 ≡ t)) _
          (stored-Ends (deniable.try_get_key_request_sent engine (service_id_string ids id) (t, s))
            _
            (reading_value engine sound
              (λ t. ok (get t.deniable_key_requests_sent (service_id_string ids id))) (some known) t
              s (ap ok sent)))
          λ o st (same, kept). rw (same, ← kept) (text_waits text alias st.0 st.1)

    -- The request has not been sent: it is queued, and the text is added.
    queue_new :
        (id : ServiceId) (alias text : String) (t : Tables) (s : E)
        → get t.deniable_key_requests_sent (service_id_string ids id) ≡ none
        → Ends
            (add_deniable_contact_and_queue_message engine ids serialize_payload id text alias
              (t, s))
            λ _ st.
              (queued st.0 ≡ (request_of id, pos 0) ∷ queued t)
              × (waiting st.0 ≡ (text, alias) ∷ waiting t)
              × (get st.0.deniable_key_requests_sent (service_id_string ids id) ≡ some alias)
    unfolding add_deniable_contact_and_queue_message deniable.try_get_key_request_sent
    queue_new id alias text t s missing =
        go_on-Ends {E = SignalClientError} {A = Option String} {B = Unit {0}}
          (stored (deniable.try_get_key_request_sent engine (service_id_string ids id)) (t, s)) _
          (λ o st. (o ≡ none) × (st.0 ≡ t)) _
          (stored-Ends (deniable.try_get_key_request_sent engine (service_id_string ids id) (t, s))
            _
            (reading_value engine sound
              (λ t. ok (get t.deniable_key_requests_sent (service_id_string ids id))) none t s
              (ap ok missing)))
          λ o st (same, kept).
            rw (same, ← kept)
              (go_on-Ends {E = SignalClientError} {A = Unit {0}} {B = Unit {0}}
                (request_keys engine ids serialize_payload id alias none st) _
                (λ _ st'.
                  (queued st'.0 ≡ (request_of id, pos 0) ∷ queued st.0)
                  × (waiting st'.0 ≡ waiting st.0)
                  × (get st'.0.deniable_key_requests_sent (service_id_string ids id) ≡ some alias))
                _ (request_queued id alias st.0 st.1)
                λ _ st' (asked, same_texts, known).
                  Ends-map {E = SignalClientError} {A = Unit {0}}
                    (stored (deniable.store_message_awaiting_encryption engine text alias) st') _ _
                    (text_waits text alias st'.0 st'.1)
                    λ _ st'' (q, w, r). (
                      q ∙ asked,
                      w ∙ ap (λ x. (text, alias) ∷ x) same_texts,
                      ap (λ d. get d (service_id_string ids id)) r ∙ known,
                    ))

    all_known :
        (id : ServiceId) (alias known : String) (texts : List String) (t : Tables) (s : E)
        → get t.deniable_key_requests_sent (service_id_string ids id) ≡ some known
        → Ends (queue_all id alias texts (t, s)) λ _ st.
          (queued st.0 ≡ queued t)
          × Permᴰ (waiting st.0) (map (λ text. (text, alias)) texts ++ waiting t)
    all_known id alias known [] t s sent = (refl, Permᴰ.refl (waiting t))
    all_known id alias known (text ∷ texts) t s sent =
        go_on-Ends {E = SignalClientError} {A = Unit {0}} {B = Unit {0}}
          (add_deniable_contact_and_queue_message engine ids serialize_payload id text alias (t, s))
          _
          (λ _ st.
            (queued st.0 ≡ queued t)
            × (waiting st.0 ≡ (text, alias) ∷ waiting t)
            × (st.0.deniable_key_requests_sent ≡ t.deniable_key_requests_sent))
          _ (queue_known id alias known text t s sent)
          λ _ st (q, w, r).
            Ends-map {E = SignalClientError} {A = Unit {0}} (queue_all id alias texts st) _ _
              (all_known id alias known texts st.0 st.1
                (ap (λ d. get d (service_id_string ids id)) r ∙ sent))
              λ _ st' (q', perm). (
                q' ∙ q,
                Permᴰ.trans perm (
                    rw w
                      (Permᴰ.middle (text, alias) (map (λ text. (text, alias)) texts) (waiting t))),
              )

    -- However many texts are queued for a contact whose keys have not been asked for, the keys are asked
    -- for once: exactly one key request is added to the payloads that wait to be sent, and all the texts
    -- wait for the keys. Given that no call of the database fails and a new row gets an identifier of its own.
    pub queue_all-asks_once :
        (id : ServiceId) (alias text : String) (texts : List String) (t : Tables) (s : E)
        → get t.deniable_key_requests_sent (service_id_string ids id) ≡ none
        → Ends (queue_all id alias (text ∷ texts) (t, s)) λ _ st.
          (queued st.0 ≡ (request_of id, pos 0) ∷ queued t)
          × Permᴰ (waiting st.0) (map (λ x. (x, alias)) (text ∷ texts) ++ waiting t)
    queue_all-asks_once id alias text texts t s missing =
        go_on-Ends {E = SignalClientError} {A = Unit {0}} {B = Unit {0}}
          (add_deniable_contact_and_queue_message engine ids serialize_payload id text alias (t, s))
          _
          (λ _ st.
            (queued st.0 ≡ (request_of id, pos 0) ∷ queued t)
            × (waiting st.0 ≡ (text, alias) ∷ waiting t)
            × (get st.0.deniable_key_requests_sent (service_id_string ids id) ≡ some alias))
          _ (queue_new id alias text t s missing)
          λ _ st (q, w, known).
            Ends-map {E = SignalClientError} {A = Unit {0}} (queue_all id alias texts st) _ _
              (all_known id alias alias texts st.0 st.1 known)
              λ _ st' (q', perm). (
                q' ∙ q,
                Permᴰ.trans perm (
                    rw w
                      (Permᴰ.middle (text, alias) (map (λ text. (text, alias)) texts) (waiting t))),
              )
