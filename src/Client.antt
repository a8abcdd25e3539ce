-- ===== src/Client.antt =====
-- client/src/client.rs: the client over its database. This file has the errors of client/src/errors.rs
-- and common/src/errors.rs.
pub mod Incoming
pub mod Contacts
pub mod Sending
pub mod Envelopes
pub mod Receiving
use denim.Prelude.{String}
use denim.Prelude.Effects.{Action, on_err}
use denim.Storage.{SignalProtocolError, Tables, Steps}
use denim.Contacts.{ContactManagerError}

pub data SignalError : Type 0 where
  decode_envelope : String → SignalError
  decode_content : String → SignalError
  decode_data_message : String → SignalError
  prost_decode : String → SignalError
  unpad_error : SignalError
  protocol : SignalProtocolError → SignalError

-- Of the errors of a received message the code makes the last two.
pub data ReceiveMessageError : Type 0 where
  no_message_received : ReceiveMessageError
  envelope_decode_error : ReceiveMessageError

-- The errors of registering and of the key manager are not those of the modelled functions.
pub data SignalClientError : Type 0 where
  contact_manager_error : ContactManagerError → SignalClientError
  key_error : String → SignalClientError
  send_message_error : SignalProtocolError → SignalClientError
  websocket_error : String → SignalClientError
  database_error : SignalProtocolError → SignalClientError
  receive_message_error : ReceiveMessageError → SignalClientError
  process_pre_key_bundle : SignalProtocolError → SignalClientError
  no_session : SignalClientError
  protocol : SignalProtocolError → SignalClientError
  signal : SignalError → SignalClientError

-- A call of the database: `map_err(DatabaseError::from)?`.
abbrev pub stored : {E A : Type 0} → Steps E A → Action (Tables × E) SignalClientError A
stored m = on_err database_error m
