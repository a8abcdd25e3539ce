-- ===== src/Client/Receiving.antt =====
-- `receive_message` of client/src/client.rs: the envelope of a message from the server, and the deniable
-- payloads that its chunks complete.
use denim.Prelude.{
  ℕ, Bool, true, false, String, Option, none, some, List, [], ◌∷◌, ◌++◌, Outcome, ok, err, panic,
  out_of_fuel, map_err, or_err, or_panic,
}
use denim.Prelude.Effects.{Action, return, lift, on_err, ◌>>=◌, ◌>>◌}
use denim.Account.{ServiceIds, service_id_string}
use denim.Chunk.Types.{Chunker, set_q_value}
use denim.DenimManager.Payloads.{Codec}
use denim.NetHelper.{WebSocketRequestMessage}
use denim.Redis.Entries.{Base64}
use denim.Storage.{Libsignal, Tables, Engine}
use denim.Storage.Device.Deniable as deniable
use denim.WebApi.{DenimMessage, RegularPayload, DeniablePayload, Envelope, PreKeyResponse}
use denim.Client.{
  SignalClientError, key_error, receive_message_error, no_message_received, envelope_decode_error,
}
use denim.Client.Contacts.{
  State, Acts, Bundles, device, around, initialize_sessions_from_bundle, add_contact,
}
use denim.Client.Envelopes.{Decryption, ProcessedEnvelope, decrypt, BundleKeys, pre_key_bundles}
use denim.Client.Incoming.{receive_chunks}
use denim.Client.Sending.{Crypto, send_deniable_message}

-- The client's server: the queue of its messages, and what answers them; `read` is bincode's.
pub record ServerApi (E F : Type 0) : Type 0 where
  pub get_message : E → Option WebSocketRequestMessage × E
  pub send_response : WebSocketRequestMessage → ℕ → Action E SignalClientError (Unit {0})
  pub read : List ℕ → Option (DenimMessage F)

-- An absent body is empty.
abbrev pub body_of : WebSocketRequestMessage → List ℕ
body_of request = of_body request.body
  where
    of_body : Option (List ℕ) → List ℕ
    of_body none = []
    of_body (some bytes) = bytes

-- A call over the tables, and one over all but the chunker.
abbrev pub on_tables : {E A : Type 0} → Action (Tables × E) SignalClientError A → Acts E A
on_tables m (c, st) = let r = m st in (r.0, (c, r.1))

abbrev pub beside : {F E A : Type 0} → Acts E A → Action (Chunker F × State E) SignalClientError A
beside m (chunker, st) = let r = m st in (r.0, (chunker, r.1))

-- `let _ = …`: an error is dropped.
abbrev pub dropped : {E : Type 0} → Acts E (Unit {0}) → Acts E (Unit {0})
dropped m st = of_result (m st)
  where
    of_result :
        {S : Type 0}
        → Outcome SignalClientError (Unit {0}) × S
        → Outcome SignalClientError (Unit {0}) × S
    of_result (err e, st') = (ok tt, st')
    of_result (ok tt, st') = (ok tt, st')
    of_result (panic, st') = (panic, st')
    of_result (out_of_fuel, st') = (out_of_fuel, st')

module _ {E I P R N C F K Q B : Type 0} (engine : Engine E) (base64 : Base64)
    (signal : Libsignal I P R N) (ids : ServiceIds) (crypto : Crypto E R C F) (b : Bundles E B)
    (keys : BundleKeys K Q B) (decryption : Decryption E C)
    (serialize_payload : DeniablePayload → List ℕ) (own_alias : String) where
  -- The messages that wait for keys.
  unfoldable pub send_awaiting : String → List String → Acts E (Unit {0})
  unfolding send_deniable_message
  send_awaiting alias [] = return tt
  send_awaiting alias (message ∷ messages) =
      send_deniable_message engine base64 signal ids crypto serialize_payload own_alias message
        alias
      >> send_awaiting alias messages

  -- The arm of a key response.
  unfoldable pub handle_key_response : PreKeyResponse → Acts E (Unit {0})
  unfolding send_awaiting pre_key_bundles initialize_sessions_from_bundle add_contact
      deniable.try_get_key_request_sent deniable.remove_key_request_sent
      deniable.get_messages_awaiting_encryption
  handle_key_response response = lift (or_panic (ids.parse response.service_id)) >>= λ service_id.
      lift (map_err key_error (pre_key_bundles keys response)) >>= λ bundles.
      initialize_sessions_from_bundle engine base64 signal ids b service_id bundles true
      >>= λ device_ids.
          device (deniable.try_get_key_request_sent engine (service_id_string ids service_id))
          >>= λ sent. lift (or_panic sent) >>= λ alias.
              add_contact engine base64 signal ids b alias service_id (some device_ids)
              >> (device
                    (deniable.remove_key_request_sent engine (service_id_string ids service_id))
                  >> (device (deniable.get_messages_awaiting_encryption engine alias)
                      >>= λ messages. send_awaiting alias messages))

  abbrev pub decrypted : Bool → Envelope → Acts E ProcessedEnvelope
  decrypted denied e = on_tables (on_err SignalClientError.signal (decrypt ids decryption denied e))

  -- The `for` over the deniable payloads; `todo!()` panics.
  unfoldable pub handle_payloads :
      List DeniablePayload → List ProcessedEnvelope → Acts E (List ProcessedEnvelope)
  unfolding handle_key_response decrypt
  handle_payloads [] processed = return processed
  handle_payloads (DeniablePayload.envelope e ∷ payloads) processed =
      decrypted true e >>= λ p. handle_payloads payloads (processed ++ p ∷ [])
  handle_payloads (DeniablePayload.key_response response ∷ payloads) processed =
      handle_key_response response >> handle_payloads payloads processed
  handle_payloads (DeniablePayload.key_request request ∷ payloads) processed = lift panic
  handle_payloads (DeniablePayload.signal_message message ∷ payloads) processed = lift panic

  module _ (server : ServerApi E F) (codec : Codec DeniablePayload) where
    -- What follows the deserialization, with the regular payload.
    unfoldable pub handle_message :
        WebSocketRequestMessage → DenimMessage F → RegularPayload → Acts E (List ProcessedEnvelope)
    unfolding handle_payloads receive_chunks decrypt
    handle_message request denim_msg (RegularPayload.signal_message m) =
        around (server.send_response request 500)
        >> lift (err (receive_message_error envelope_decode_error))
    handle_message request denim_msg (RegularPayload.envelope e) = decrypted false e >>= λ p.
        dropped (around (server.send_response request 200))
        >> (on_tables (receive_chunks codec engine denim_msg.chunks) >>= λ deniable_payloads.
            handle_payloads deniable_payloads (p ∷ []))

    unfoldable pub receive_message :
        Action (Chunker F × State E) SignalClientError (List ProcessedEnvelope)
    unfolding handle_message set_q_value
    receive_message = beside got >>= λ request.
        lift (or_panic (server.read (body_of request))) >>= λ denim_msg.
        lift (or_panic denim_msg.q) >>= λ q.
        (λ (chunker, st). (ok tt, (set_q_value chunker q, st)))
        >> beside (handle_message request denim_msg denim_msg.regular_payload)
      where
        got : Acts E WebSocketRequestMessage
        got (c, (t, s)) =
            let r = server.get_message s in
            (or_err r.0 (receive_message_error no_message_received), (c, (t, r.1)))
