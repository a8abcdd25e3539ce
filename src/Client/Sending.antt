-- ===== src/Client/Sending.antt =====
-- What the client sends: `send_message`, `send_deniable_message` and
-- `add_deniable_contact_and_queue_message` of client/src/client.rs, `encrypt` of client/src/encryption.rs,
-- and the sending buffer of client/src/storage/database.rs.
pub mod Queued
use denim.Prelude.{
  nat_eq, ℕ, Bool, true, false, String, Option, none, some, List, [], ◌∷◌, ℤ, pos, replicate,
  Outcome, ok, err, panic, out_of_fuel, Run, or_err,
}
use denim.Prelude.Dict.{Dict, empty, insert}
use denim.Prelude.Effects.{Action, return, lift, on_err, ◌>>=◌, ◌>>◌}
use denim.Account.{ServiceId, ServiceIds, service_id_string, ProtocolAddress}
use denim.Chunk.Types.{Chunker, Wire, DenimChunk}
use denim.Chunk.Buffer.{DeniableSendingBuffer, create_chunks}
use denim.WebApi.{
  SignalMessage, RegularPayload, DeniablePayload, PreKeyRequest, DenimMessage, DenimMessages,
}
use denim.Contacts.{Contact, get_address}
use denim.Padding.{pad_message}
use denim.Redis.Entries.{Base64}
use denim.Storage.{SignalProtocolError, Libsignal, Tables, Engine, Steps}
use denim.Storage.Device.Profile as profile
use denim.Storage.Device.Keys as keys
use denim.Storage.Device.Deniable as deniable
use denim.Client.{
  SignalClientError, contact_manager_error, send_message_error, no_session, protocol, stored,
}
use denim.Client.Contacts.{
  State, Acts, Bundles, device, around, contact_of, get_new_device_ids, update_contact,
}

-- The kinds of libsignal's `CiphertextMessage`.
pub data CiphertextKind : Type 0 where
  signal_message sender_key_message pre_key_signal_message plaintext_content : CiphertextKind

-- `envelope::Type` of common/proto, as an `i32`.
abbrev pub type_of : CiphertextKind → ℤ
type_of signal_message = pos 1
type_of sender_key_message = pos 2
type_of pre_key_signal_message = pos 3
type_of plaintext_content = pos 8

-- libsignal's encryption over the stores of the client, of which the Boolean says whether they are the
-- deniable ones; prost's encoding of a text with the sender's name; base64 and the sizes of bincode.
-- `R` is a session, `C` a ciphertext and `F` is `f32`.
pub record Crypto (E R C F : Type 0) : Type 0 where
  pub remote_registration_id : R → Outcome SignalProtocolError ℕ
  pub message_encrypt : Bool → List ℕ → ProtocolAddress → Action (Tables × E) SignalProtocolError C
  pub kind : C → CiphertextKind
  pub serialize : C → List ℕ
  pub encode_content : String → String → List ℕ
  pub base64_encode : List ℕ → String
  pub size_of : RegularPayload → F
  pub traversed : List (ℕ × (ℕ × C)) → List (ℕ × (ℕ × C))

-- The buffer that `create_chunks` takes payloads from.
unfoldable pub device_buffer : {E : Type 0} → Engine E → DeniableSendingBuffer (Tables × E)
unfolding deniable.get_deniable_payload deniable.store_deniable_payload
    deniable.remove_deniable_payload
device_buffer {E} engine = record {
  get_outgoing_message = λ st. found (deniable.get_deniable_payload engine st);
  set_outgoing_message =
      λ id count bytes st. written (deniable.store_deniable_payload engine id count bytes st);
  remove_outgoing_message = λ id st. written (deniable.remove_deniable_payload engine id st);
}
  where
    found :
        Outcome SignalProtocolError (ℕ × List ℕ × ℤ) × (Tables × E)
        → Option (ℕ × List ℕ × ℤ) × (Tables × E)
    found (ok m, st) = (some m, st)
    found (_, st) = (none, st)

    written : Outcome SignalProtocolError (Unit {0}) × (Tables × E) → Run (Tables × E)
    written (ok tt, st) = ok st
    written (err e, st) = err "InvalidArgument"
    written (panic, st) = panic
    written (out_of_fuel, st) = out_of_fuel

module _ {E I P R N C F : Type 0} (engine : Engine E) (base64 : Base64) (signal : Libsignal I P R N)
    (ids : ServiceIds) (crypto : Crypto E R C F) where
  -- The session store that `encrypt` is given.
  abbrev pub session_of : Bool → ProtocolAddress → Steps E (Option R)
  session_of true address = keys.load_deniable_session engine base64 signal address
  session_of false address = keys.load_session engine base64 signal address

  -- The `for` of `encrypt`.
  unfoldable pub encrypt_loop :
      Bool
      → Contact
      → List ℕ
      → List ℕ
      → Dict ℕ (ℕ × C)
      → Action (Tables × E) SignalClientError (Dict ℕ (ℕ × C))
  unfolding get_address
  encrypt_loop denied target msg [] msgs = return msgs
  encrypt_loop denied target msg (id ∷ device_ids) msgs =
      unwrapped (get_address (service_id_string ids) target id) >>= λ address.
      on_err protocol (session_of denied address) >>= λ session.
      lift (or_err session no_session) >>= λ record_of.
      on_err protocol (lift (crypto.remote_registration_id record_of)) >>= λ reg_id.
      on_err send_message_error (crypto.message_encrypt denied msg address) >>= λ res.
      encrypt_loop denied target msg device_ids (insert msgs id (reg_id, res))
    where
      unwrapped : {X A : Type 0} → Outcome X A → Action (Tables × E) SignalClientError A
      unwrapped (ok a) = return a
      unwrapped _ = lift panic

  unfoldable pub encrypt :
      Bool → Contact → List ℕ → Action (Tables × E) SignalClientError (Dict ℕ (ℕ × C))
  unfolding encrypt_loop
  encrypt denied target msg = encrypt_loop denied target msg target.device_ids empty

  -- `expect(…)` on a result.
  abbrev pub expected : {X A : Type 0} → Outcome X A → Outcome SignalClientError A
  expected (ok a) = ok a
  expected (err e) = panic
  expected panic = panic
  expected out_of_fuel = out_of_fuel

  abbrev pub signal_message_of : Option String → ℕ × (ℕ × C) → SignalMessage
  signal_message_of destination (id, (reg_id, c)) = record {
    kind = type_of (crypto.kind c);
    destination_device_id = id;
    destination_service_id = destination;
    destination_registration_id = reg_id;
    content = crypto.base64_encode (crypto.serialize c);
  }

  -- One round of the `for` of `send_message`.
  unfoldable pub denim_message :
      Wire F → Chunker F → ℕ × (ℕ × C) → Action (Tables × E) SignalClientError (DenimMessage F)
  unfolding create_chunks device_buffer
  denim_message wire chunker msg st =
      let regular_payload : RegularPayload =
        RegularPayload.signal_message (signal_message_of none msg) in
      with_chunks regular_payload (
        expected
          (create_chunks wire chunker (crypto.size_of regular_payload) (device_buffer engine) st))
    where
      with_chunks :
          RegularPayload
          → Outcome SignalClientError (List DenimChunk × ℕ × (Tables × E))
          → Outcome SignalClientError (DenimMessage F) × (Tables × E)
      with_chunks payload (ok (chunks, left, st')) = (
        ok (record {
          regular_payload = payload;
          chunks = chunks;
          counter = none;
          q = none;
          ballast = replicate left 0;
        }),
        st',
      )
      with_chunks payload (err e) = (err e, st)
      with_chunks payload panic = (panic, st)
      with_chunks payload out_of_fuel = (out_of_fuel, st)

  unfoldable pub denim_messages :
      Wire F
      → Chunker F
      → List (ℕ × (ℕ × C))
      → Action (Tables × E) SignalClientError (List (DenimMessage F))
  unfolding denim_message
  denim_messages wire chunker [] = return []
  denim_messages wire chunker (msg ∷ msgs) = denim_message wire chunker msg >>= λ m.
      denim_messages wire chunker msgs >>= λ ms. return (m ∷ ms)

  -- The `for` of `send_deniable_message`.
  unfoldable pub store_loop :
      (DeniablePayload → List ℕ)
      → ServiceId
      → List (ℕ × (ℕ × C))
      → Action (Tables × E) SignalClientError (Unit {0})
  store_loop serialize_payload service_id [] = return tt
  store_loop serialize_payload service_id (msg ∷ msgs) =
      stored (
        deniable.store_deniable_payload engine none (pos 0) (
          serialize_payload (
            DeniablePayload.signal_message
              (signal_message_of (some (service_id_string ids service_id)) msg))))
      >> store_loop serialize_payload service_id msgs

  -- The padded message, encrypted for the contact.
  abbrev pub encrypted : Bool → String → String → ServiceId → Acts E (Dict ℕ (ℕ × C))
  encrypted denied alias message service_id st =
      (contact_of service_id >>= λ contact.
      lift (expected (pad_message (crypto.encode_content message alias))) >>= λ padded.
      on_store (encrypt denied contact padded))
        st
    where
      on_store : {A : Type 0} → Action (Tables × E) SignalClientError A → Acts E A
      on_store m (c, st') = let r = m st' in (r.0, (c, r.1))

  -- `self.alias` and the clock are arguments.
  unfoldable pub send_deniable_message :
      (DeniablePayload → List ℕ) → String → String → String → Acts E (Unit {0})
  unfolding encrypt store_loop pad_message
  send_deniable_message serialize_payload own_alias message alias =
      device (profile.get_service_id_by_nickname engine base64 signal ids alias) >>= λ service_id.
      encrypted true own_alias message service_id >>= λ msgs.
      on_store (store_loop serialize_payload service_id (crypto.traversed msgs.entries))
    where
      on_store : Action (Tables × E) SignalClientError (Unit {0}) → Acts E (Unit {0})
      on_store m (c, st) = let r = m st in (r.0, (c, r.1))

  -- `match self.server_api.send_msg(…)`: after an error the devices are asked for again, and the same
  -- messages are sent once more.
  abbrev pub or_again : Acts E (Unit {0}) → Acts E (Unit {0}) → Acts E (Unit {0})
  or_again first again st = of_first (first st)
    where
      of_first :
          Outcome SignalClientError (Unit {0}) × State E
          → Outcome SignalClientError (Unit {0}) × State E
      of_first (ok tt, st') = (ok tt, st')
      of_first (err e, st') = again st'
      of_first (panic, st') = (panic, st')
      of_first (out_of_fuel, st') = (out_of_fuel, st')

  module _ {B : Type 0} (b : Bundles E B)
      (send_msg : DenimMessages F → ServiceId → Action E SignalClientError (Unit {0})) where
    unfoldable pub send_message :
        Wire F → Chunker F → ℕ → String → String → String → Acts E (Unit {0})
    unfolding encrypt denim_messages pad_message get_new_device_ids update_contact
    send_message wire chunker timestamp own_alias message alias =
        device (profile.get_service_id_by_nickname engine base64 signal ids alias) >>= λ service_id.
        encrypted false own_alias message service_id >>= λ encrypted_msgs.
        on_store (denim_messages wire chunker (crypto.traversed encrypted_msgs.entries))
        >>= λ messages.
            sent service_id
              (record { messages = messages; online = true; urgent = false; timestamp = timestamp })
      where
        on_store : {A : Type 0} → Action (Tables × E) SignalClientError A → Acts E A
        on_store m (c, st) = let r = m st in (r.0, (c, r.1))

        sent : ServiceId → DenimMessages F → Acts E (Unit {0})
        sent service_id msgs = or_again (around (send_msg msgs service_id)) (
            get_new_device_ids engine base64 signal ids b service_id >>= λ device_ids.
            update_contact engine base64 signal ids b alias device_ids
            >> around (send_msg msgs service_id))

-- A key request is queued once, and the text waits for the keys.
module _ {E : Type 0} (engine : Engine E) (ids : ServiceIds)
    (serialize_payload : DeniablePayload → List ℕ) where
  -- `if … .is_none() { … }`
  unfoldable pub request_keys :
      ServiceId → String → Option String → Action (Tables × E) SignalClientError (Unit {0})
  request_keys service_id alias (some known) = return tt
  request_keys service_id alias none =
      stored (
        deniable.store_deniable_payload engine none (pos 0) (
          serialize_payload (
            DeniablePayload.key_request
              (record { service_id = service_id_string ids service_id }))))
      >> stored (deniable.store_key_request_sent engine (service_id_string ids service_id) alias)

  unfoldable pub add_deniable_contact_and_queue_message :
      ServiceId → String → String → Action (Tables × E) SignalClientError (Unit {0})
  unfolding request_keys
  add_deniable_contact_and_queue_message service_id text alias =
      stored (deniable.try_get_key_request_sent engine (service_id_string ids service_id))
      >>= λ sent.
          (request_keys service_id alias sent
            >> stored (deniable.store_message_awaiting_encryption engine text alias))
