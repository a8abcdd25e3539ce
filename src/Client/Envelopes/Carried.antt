-- ===== src/Client/Envelopes/Carried.antt =====
-- A text on its way from the client that sends it, over the envelope that the server makes of it, to the client
-- that reads it.
use mathlib.Core.List.{Mem}
use denim.Prelude.{ℕ, ◌%◌, Bool, false, String, ◌≡◌, refl, Option, none, some, List, ok}
use denim.Prelude.Effects.{Ends}
use denim.Account.{Account, ServiceId, aci_id, pni_id, ServiceIds, service_id_string}
use denim.WebApi.{Envelope}
use denim.Padding.{terminator, pad_message, unpad_message}
use denim.Padding.RoundTrip.{unpad-pad_iff}
use denim.Redis.Entries.{Base64}
use denim.Server.Envelopes.{to_envelope}
use denim.Storage.{Libsignal, Tables, Engine}
use denim.Client.Sending.{
  Crypto, CiphertextKind, signal_message, sender_key_message, pre_key_signal_message,
  plaintext_content, type_of, signal_message_of,
}
use denim.Client.Envelopes.{
  EnvelopeType, ciphertext, key_exchange, prekey_bundle, Content, Decryption, type_from, kind_of,
  decode_ciphertext, remote_address, opened, decrypt, try_get_message_as_string, content_of,
  data_message,
}

-- The content of a text.
abbrev pub text_content : String → List (Option String) → Content
text_content text names = record {
  data_message = some (record { body = some text; contact = names });
}

-- What each kind of ciphertext is called in an envelope.
abbrev pub envelope_type : CiphertextKind → EnvelopeType
envelope_type signal_message = ciphertext
envelope_type sender_key_message = key_exchange
envelope_type pre_key_signal_message = prekey_bundle
envelope_type plaintext_content = EnvelopeType.plaintext_content

kind_of-type_of : (k : CiphertextKind) → kind_of (some (type_of k)) ≡ ok (envelope_type k)
unfolding type_from
kind_of-type_of signal_message = refl
kind_of-type_of sender_key_message = refl
kind_of-type_of pre_key_signal_message = refl
kind_of-type_of plaintext_content = refl

parse-service_id_string :
    (ids : ServiceIds) (id : ServiceId) → ids.parse (service_id_string ids id) ≡ some id
parse-service_id_string ids (aci_id a) = ids.parse-aci_string a
parse-service_id_string ids (pni_id p) = ids.parse-pni_string p

module _ {E E' I P R N C C' F : Type 0} (engine : Engine E) (base64 : Base64)
    (signal : Libsignal I P R N) (ids : ServiceIds) (crypto : Crypto E R C F)
    (receiver : Decryption E' C') (base64_decode : String → Option (List ℕ)) where
  -- The envelope of a message.
  abbrev pub envelope_of : C → ServiceId → Account → ℕ → ℕ → ℕ → Envelope
  envelope_of c destination sender device_id timestamp now = record {
    kind = some (type_of (crypto.kind c));
    source_service_id = some (ids.aci_string sender.aci);
    source_device = some device_id;
    timestamp = some timestamp;
    content = some (crypto.serialize c);
    server_guid = none;
    server_timestamp = some (now % 18446744073709551616);
    ephemeral = none;
    destination_service_id = some (service_id_string ids destination);
    urgent = some false;
    updated_pni = none;
    story = none;
    reporting_token = none;
  }

  envelope-opened :
      (c : C) (c' : C') (destination : ServiceId) (sender : Account) (device_id timestamp now : ℕ)
      → decode_ciphertext ids receiver (crypto.serialize c) (envelope_type (crypto.kind c)) ≡ ok c'
      → opened ids receiver (envelope_of c destination sender device_id timestamp now)
        ≡ ok (
          envelope_type (crypto.kind c),
          record { name = ids.aci_string sender.aci; device_id = device_id },
          c',
        )
  unfolding opened remote_address
  envelope-opened c c' destination sender device_id timestamp now reads =
      rw (kind_of-type_of (crypto.kind c), ids.parse-aci_string sender.aci, reads) refl

  -- A text that a client encrypts, that the server puts into an envelope, and that the other client decrypts, is
  -- read there as it was written, with the account and the device of the sender, the recipient's identifier and
  -- the time of the request, and libsignal is asked for the session with the sender's device. Given that base64
  -- and libsignal's ciphertexts are read back as they were written, that libsignal decrypts the ciphertext to the
  -- padded content, which is decoded as the text, and that the encoded content has no byte 0x80.
  pub decrypt-to_envelope :
      (denied : Bool) (c : C) (c' : C') (number registration : ℕ) (destination : ServiceId)
      (sender : Account) (device_id timestamp now : ℕ) (s s' : Tables × E')
      (message padded : List ℕ) (text : String) (names : List (Option String))
      → ((bytes : List ℕ) → base64_decode (crypto.base64_encode bytes) ≡ some bytes)
      → decode_ciphertext ids receiver (crypto.serialize c) (envelope_type (crypto.kind c)) ≡ ok c'
      → pad_message message ≡ ok padded
      → receiver.message_decrypt denied c'
          (record { name = ids.aci_string sender.aci; device_id = device_id })
          s
        ≡ (ok padded, s')
      → receiver.decode_content message ≡ ok (text_content text names)
      → ¬ Mem terminator message
      → (e : Envelope) × (to_envelope base64_decode ids now
            (signal_message_of engine base64 signal ids crypto none (number, (registration, c)))
            destination
            sender
            device_id
            timestamp
            false
          ≡ ok e)
        × Ends (decrypt ids receiver denied e s) λ p after.
          (try_get_message_as_string p ≡ ok text)
          × (p.source_service_id ≡ some (aci_id sender.aci))
          × (p.source_device ≡ some device_id)
          × (p.destination_service_id ≡ some destination)
          × (p.timestamp ≡ some timestamp)
          × (after ≡ s')
  unfolding to_envelope decrypt try_get_message_as_string content_of data_message
  decrypt-to_envelope denied c c' number registration destination sender device_id timestamp now s
        s' message padded text names readable reads pads decrypts decodes whole =
      let opens = envelope-opened c c' destination sender device_id timestamp now reads in
      let unpads : unpad_message padded ≡ ok message =
        rw pads at ((unpad-pad_iff message).1 whole) in
      (
        envelope_of c destination sender device_id timestamp now,
        rw (readable (crypto.serialize c)) refl,
        rw (opens, decrypts, unpads, decodes)
            (
              refl,
              ids.parse-aci_string sender.aci,
              refl,
              parse-service_id_string ids destination,
              refl,
              refl,
            ),
      )
