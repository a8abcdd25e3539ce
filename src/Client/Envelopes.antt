-- ===== src/Client/Envelopes.antt =====
-- What the client reads: `Envelope::decrypt` of common/src/envelope.rs, and the bundles of a response of keys
-- in common/src/web_api/mod.rs.
pub mod Carried
use denim.Prelude.{
  ℕ, Bool, String, Option, none, some, List, [], ◌∷◌, ◌++◌, ℤ, pos, eqb_ℤ, Outcome, ok, err, panic,
  map_err, or_err, if◌then◌else◌,
}
use denim.Prelude as errors
use denim.Prelude.Effects.{Action, return, lift, on_err, ◌>>=◌, ◌>>◌}
use denim.Account.{ServiceId, pni_id, ServiceIds, service_id_string, ProtocolAddress}
use denim.WebApi.{Envelope, PreKeyResponse, PreKeyResponseItem, UploadPreKey, UploadSignedPreKey}
use denim.Padding.{unpad_message}
use denim.Storage.{SignalProtocolError, Tables}
use denim.Client.{
  SignalError, decode_envelope, decode_content, decode_data_message, prost_decode, unpad_error,
  protocol,
}

-- `envelope::Type` of common/proto.
pub data EnvelopeType : Type 0 where
  unknown ciphertext key_exchange prekey_bundle receipt unidentified_sender plaintext_content :
      EnvelopeType

-- `Type::try_from`, of prost.
unfoldable pub type_from : ℤ → Option EnvelopeType
type_from n =
    if eqb_ℤ n (pos 0)
    then some unknown
    else if eqb_ℤ n (pos 1)
    then some ciphertext
    else if eqb_ℤ n (pos 2)
    then some key_exchange
    else if eqb_ℤ n (pos 3)
    then some prekey_bundle
    else if eqb_ℤ n (pos 5)
    then some receipt
    else if eqb_ℤ n (pos 6)
    then some unidentified_sender
    else if eqb_ℤ n (pos 8)
    then some plaintext_content
    else none

-- The parts of a `DataMessage` that are read: the text, and the display name of the first contact.
pub record DataMessage : Type 0 where
  pub body : Option String
  pub contact : List (Option String)

pub record Content : Type 0 where
  pub data_message : Option DataMessage

pub record ProcessedEnvelope : Type 0 where
  pub kind : Option EnvelopeType
  pub source_service_id : Option ServiceId
  pub source_device : Option ℕ
  pub destination_service_id : Option ServiceId
  pub timestamp : Option ℕ
  pub content : Option Content
  pub server_guid : Option String
  pub server_timestamp : Option ℕ
  pub ephemeral : Option Bool
  pub urgent : Option Bool
  pub updated_pni : Option String
  pub story : Option Bool
  pub reporting_token : Option (List ℕ)

-- libsignal's ciphertexts `C`, which it reads and decrypts over stores (the Boolean says whether they are
-- the deniable ones), and prost's decoding of a content.
pub record Decryption (E C : Type 0) : Type 0 where
  pub read_signal_message : List ℕ → Outcome SignalProtocolError C
  pub read_sender_key_message : List ℕ → Outcome SignalProtocolError C
  pub read_pre_key_signal_message : List ℕ → Outcome SignalProtocolError C
  pub read_plaintext_content : List ℕ → Outcome SignalProtocolError C
  pub message_decrypt :
      Bool → C → ProtocolAddress → Action (Tables × E) SignalProtocolError (List ℕ)
  pub decode_content : List ℕ → Outcome String Content

-- `data_message` of `Content`, and what is read of a processed envelope.
unfoldable pub data_message : Content → Outcome SignalError DataMessage
data_message c = or_err c.data_message (SignalError.decode_content "No data message in Content")

unfoldable pub content_of : ProcessedEnvelope → Outcome SignalError Content
content_of e = or_err e.content (decode_envelope "No content in Envelope.")

unfoldable pub try_get_message_as_string : ProcessedEnvelope → Outcome SignalError String
unfolding content_of data_message
try_get_message_as_string e = errors.◌>>=◌ (content_of e) λ c.
    errors.◌>>=◌ (data_message c)
      λ d. or_err d.body (decode_data_message "Could not decode message body - no message body.")

-- `contact[0]`; an absent display name is the empty text.
unfoldable pub try_get_name_as_string : ProcessedEnvelope → Outcome SignalError String
unfolding content_of data_message
try_get_name_as_string e =
    errors.◌>>=◌ (content_of e) λ c. errors.◌>>=◌ (data_message c) λ d. first_name d.contact
  where
    first_name : List (Option String) → Outcome SignalError String
    first_name [] = panic
    first_name (none ∷ rest) =
        err (decode_data_message "Could not decode message contact - no message contact.")
    first_name (some name ∷ rest) = ok name

-- `and_then(…)` on an absent text, with libsignal's parser.
abbrev pub parsed : ServiceIds → Option String → Option ServiceId
parsed ids none = none
parsed ids (some text) = ids.parse text

abbrev pub parsed_pni : ServiceIds → Option String → Option String
parsed_pni ids text = of_id (parsed ids text)
  where
    of_id : Option ServiceId → Option String
    of_id (some (pni_id p)) = some p
    of_id _ = none

-- The kind of an envelope.
abbrev pub kind_of : Option ℤ → Outcome SignalError EnvelopeType
kind_of none = err (decode_envelope "No message type in envelope.")
kind_of (some n) = or_err (type_from n) (decode_envelope "Unknown message type in envelope.")

unfoldable pub remote_address :
    ServiceIds → Option ServiceId → Option ℕ → Outcome SignalError ProtocolAddress
remote_address ids (some id) (some device) =
    ok (record { name = service_id_string ids id; device_id = device })
remote_address ids none device = err (decode_envelope "Missing Service ID.")
remote_address ids (some id) none = err (decode_envelope "Missing Device ID.")

module _ {E C : Type 0} (ids : ServiceIds) (signal : Decryption E C) where
  -- `CiphertextMessage::decode`
  unfoldable pub decode_ciphertext : List ℕ → EnvelopeType → Outcome SignalError C
  decode_ciphertext bytes ciphertext =
      map_err SignalError.protocol (signal.read_signal_message bytes)
  decode_ciphertext bytes key_exchange =
      map_err SignalError.protocol (signal.read_sender_key_message bytes)
  decode_ciphertext bytes prekey_bundle =
      map_err SignalError.protocol (signal.read_pre_key_signal_message bytes)
  decode_ciphertext bytes plaintext_content =
      map_err SignalError.protocol (signal.read_plaintext_content bytes)
  decode_ciphertext bytes unknown = err (decode_envelope "Invalid Message type: Unknown")
  decode_ciphertext bytes receipt = err (decode_envelope "Invalid Message type: Receipt")
  decode_ciphertext bytes unidentified_sender =
      err (decode_envelope "Invalid Message type: UnidentifiedSender")

  -- What is checked before anything is decrypted: the kind, the sender and the ciphertext.
  unfoldable pub opened : Envelope → Outcome SignalError (EnvelopeType × ProtocolAddress × C)
  unfolding type_from remote_address decode_ciphertext
  opened e = errors.◌>>=◌ (kind_of e.kind) λ kind.
      errors.◌>>=◌ (remote_address ids (parsed ids e.source_service_id) e.source_device) λ address.
        errors.◌>>=◌ (or_err e.content (decode_envelope "No content in message."))
          λ bytes. errors.◌>>=◌ (decode_ciphertext bytes kind) λ c. ok (kind, address, c)

  unfoldable pub decrypt : Bool → Envelope → Action (Tables × E) SignalError ProcessedEnvelope
  unfolding opened unpad_message
  decrypt denied e = lift (opened e) >>= λ (kind, address, c).
      on_err SignalError.protocol (signal.message_decrypt denied c address) >>= λ padded_msg.
      lift (map_err (λ _. unpad_error) (unpad_message padded_msg)) >>= λ message.
      lift (map_err prost_decode (signal.decode_content message)) >>= λ content. return (record {
        kind = some kind;
        source_service_id = parsed ids e.source_service_id;
        source_device = e.source_device;
        destination_service_id = parsed ids e.destination_service_id;
        timestamp = e.timestamp;
        content = some content;
        server_guid = e.server_guid;
        server_timestamp = e.server_timestamp;
        ephemeral = e.ephemeral;
        urgent = e.urgent;
        updated_pni = parsed_pni ids e.updated_pni;
        story = e.story;
        reporting_token = e.reporting_token;
      })

-- libsignal's keys `K` and key-encapsulation keys `Q`, and its bundles.
pub record BundleKeys (K Q B : Type 0) : Type 0 where
  pub decode_identity : List ℕ → Option K
  pub deserialize : List ℕ → Option K
  pub deserialize_kem : List ℕ → Option Q
  pub new_bundle : ℕ → ℕ → Option (ℕ × K) → ℕ → K → List ℕ → K → Option B
  pub with_kyber_pre_key : B → ℕ → Q → List ℕ → B

module _ {K Q B : Type 0} (keys : BundleKeys K Q B) where
  -- The pre-key of a device, if there is one.
  abbrev pub pre_key_of : Option UploadPreKey → Outcome String (Option (ℕ × K))
  pre_key_of none = ok none
  pre_key_of (some key) =
      errors.◌>>=◌ (or_err (keys.deserialize key.public_key) "Failed decoding pre key")
        λ k. ok (some (key.key_id, k))

  unfoldable pub bundle_of : K → PreKeyResponseItem → Outcome String B
  bundle_of identity_key item = errors.◌>>=◌ (pre_key_of item.pre_key) λ pre_key.
      errors.◌>>=◌
        (or_err (keys.deserialize item.signed_pre_key.public_key)
          "Failed decoding signed pre key key")
        λ signed.
          errors.◌>>=◌
            (or_err
              (keys.new_bundle item.registration_id item.device_id pre_key
                item.signed_pre_key.key_id signed item.signed_pre_key.signature identity_key)
              "Creation of key bundle failed")
            λ bundle.
              errors.◌>>=◌
                (or_err (keys.deserialize_kem item.pq_pre_key.public_key)
                  "Failed decoding kem pre key key")
                λ kem. ok (
                  keys.with_kyber_pre_key bundle item.pq_pre_key.key_id kem
                    item.pq_pre_key.signature)

  -- The `for` of `Vec<PreKeyBundle>::try_from`.
  unfoldable pub bundles_loop : K → List PreKeyResponseItem → List B → Outcome String (List B)
  unfolding bundle_of
  bundles_loop identity_key [] bundles = ok bundles
  bundles_loop identity_key (item ∷ items) bundles =
      errors.◌>>=◌ (bundle_of identity_key item)
        λ bundle. bundles_loop identity_key items (bundles ++ bundle ∷ [])

  unfoldable pub pre_key_bundles : PreKeyResponse → Outcome String (List B)
  unfolding bundles_loop
  pre_key_bundles items =
      errors.◌>>=◌ (or_err (keys.decode_identity items.identity_key) "Failed decoding identity key")
        λ identity_key. bundles_loop identity_key items.devices []
