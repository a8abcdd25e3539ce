-- ===== src/Server/Chunks.antt =====
-- `handle_receiving_chunks` of server/src/server/server.rs: the server takes the deniable chunks of a
-- request, and forwards the payloads that they complete.
pub mod Dummies
use denim.Prelude.{
  ℕ, ◌%◌, Bool, true, false, not, ◌||◌, String, Option, none, some, List, [], ◌∷◌, ◌++◌, eqb_ℤ,
  Outcome, Run, ok, err, panic, or_err, or_panic, if◌then◌else◌,
}
use denim.Prelude.Effects.{Action, return, lift, ◌>>=◌, ◌>>◌}
use denim.Chunk.Types.{DenimChunk, is_dummy, is_final, to_i32, dummy, final}
use denim.WebApi.{DeniablePayload, PreKeyRequest, PreKeyResponse, SignalMessage}
use denim.Account.{
  Account, Device, AuthenticatedDevice, ServiceId, ServiceIds, ProtocolAddress, ServiceIdKind,
  aci_kind, get_protocol_address, device_protocol_address,
}
use denim.Validators.{keep_if}
use denim.Server.{ApiError, Host}
use denim.Server.Envelopes.{to_envelope}

-- What the handler asks of the managers: the three operations of `DenIMManager`,
-- `AccountManager::get_account` and `KeyManager::handle_get_keys_id_device_id`; and what Rust leaves
-- open of the `HashMap` from accounts to payloads: its key equality is that of accounts, and it is
-- traversed in some order.
pub record Managers (S : Type 0) : Type 0 where
  pub enqueue_incoming : ProtocolAddress → List DenimChunk → Action S String ℕ
  pub flush_incoming : ProtocolAddress → Action S String (List DeniablePayload)
  pub enqueue_outgoing : ProtocolAddress → List DeniablePayload → Action S String ℕ
  pub get_account : ServiceId → Action S String Account
  pub get_keys : AuthenticatedDevice → ServiceId → ℕ → Action S ApiError PreKeyResponse
  pub same_account : Account → Account → Bool
  pub traversed : List (Account × List DeniablePayload) → List (Account × List DeniablePayload)

abbrev pub any_final : List DenimChunk → Bool
any_final [] = false
any_final (c ∷ cs) = eqb_ℤ c.flags (to_i32 final) || any_final cs

-- `.expect(…)`
abbrev pub expecting : {S A : Type 0} → Action S ApiError A → Action S String A
expecting m s = elim (m s).0 [ ok a ↦ (ok a, (m s).1) | _ ↦ (panic, (m s).1) ]

module _ {S : Type 0} (host : Host S) (ids : ServiceIds) (m : Managers S) where
  -- `map.entry(account).or_insert_with(Vec::new).push(payload)`
  unfoldable pub push :
      Account
      → DeniablePayload
      → List (Account × List DeniablePayload)
      → List (Account × List DeniablePayload)
  push account payload [] = (account, payload ∷ []) ∷ []
  push account payload ((a, payloads) ∷ rest) =
      let later = push account payload rest in
      if m.same_account a account
      then (a, payloads ++ payload ∷ []) ∷ rest
      else (a, payloads) ∷ later

  -- One round of the loop over the payloads: the account to send to, and what to send.
  unfoldable pub answer :
      AuthenticatedDevice
      → ℕ
      → ℕ
      → DeniablePayload
      → Action S String (Option (Account × DeniablePayload))
  unfolding to_envelope
  answer device receiver_device_id timestamp (DeniablePayload.key_request request) = do
    receiver_service_id ← lift (or_err (ids.parse request.service_id) "Failed to get service id")
    response ← expecting (m.get_keys device receiver_service_id receiver_device_id)
    return (some (device.account, DeniablePayload.key_response response))
  answer device receiver_device_id timestamp (DeniablePayload.signal_message message) = do
    text ← lift (or_panic message.destination_service_id)
    receiver_service_id ← lift (or_panic (ids.parse text))
    envelope ← λ s. (
      to_envelope host.base64_decode ids (host.now_millis s) message receiver_service_id
          device.account (device.device.device_id % 256) timestamp false,
      s,
    )
    receiver_account ← m.get_account receiver_service_id
    return (some (receiver_account, DeniablePayload.envelope envelope))
  answer device receiver_device_id timestamp _ = return none

  abbrev pub push_answer :
      Option (Account × DeniablePayload)
      → List (Account × List DeniablePayload)
      → List (Account × List DeniablePayload)
  push_answer none map = map
  push_answer (some (account, payload)) map = push account payload map

  unfoldable pub answers :
      AuthenticatedDevice
      → ℕ
      → ℕ
      → List DeniablePayload
      → List (Account × List DeniablePayload)
      → Action S String (List (Account × List DeniablePayload))
  unfolding answer push
  answers device receiver_device_id timestamp [] map = return map
  answers device receiver_device_id timestamp (payload ∷ payloads) map = do
    answered ← answer device receiver_device_id timestamp payload
    answers device receiver_device_id timestamp payloads (push_answer answered map)

  unfoldable pub send_to_devices :
      Account → List Device → List DeniablePayload → Action S String (Unit {0})
  unfolding get_protocol_address
  send_to_devices account [] payloads = return tt
  send_to_devices account (d ∷ ds) payloads = do
    _ ← m.enqueue_outgoing (get_protocol_address ids account aci_kind d.device_id) payloads
    send_to_devices account ds payloads

  unfoldable pub send_all : List (Account × List DeniablePayload) → Action S String (Unit {0})
  unfolding send_to_devices
  send_all [] = return tt
  send_all ((account, payloads) ∷ rest) = do
    send_to_devices account account.devices payloads
    send_all rest

  -- The handler behind the test for a first device of the destination.
  unfoldable pub take_chunks :
      AuthenticatedDevice → ℕ → List DenimChunk → ℕ → Action S String (Unit {0})
  unfolding answers send_all device_protocol_address
  take_chunks device receiver_device_id chunks timestamp = do
    let sender = device_protocol_address ids device aci_kind
    _ ← m.enqueue_incoming sender chunks
    (if not (any_final chunks) then return tt else (do
      payloads ← m.flush_incoming sender
      map ← answers device receiver_device_id timestamp payloads []
      send_all (m.traversed map)))

  -- The handler behind the filter.
  unfoldable pub receive_chunks :
      AuthenticatedDevice → Account → List DenimChunk → ℕ → Action S String (Unit {0})
  unfolding take_chunks
  receive_chunks device destination [] timestamp = return tt
  receive_chunks device destination (c ∷ cs) timestamp = elim destination.devices [
    | [] ↦ lift (err "Error")
    | d ∷ ds ↦ take_chunks device d.device_id (c ∷ cs) timestamp
  ]

  unfoldable pub handle_receiving_chunks :
      AuthenticatedDevice → Account → List DenimChunk → ℕ → Action S String (Unit {0})
  unfolding receive_chunks keep_if
  handle_receiving_chunks device destination chunks timestamp =
      receive_chunks device destination
        (keep_if (λ (c : DenimChunk). not (eqb_ℤ c.flags (to_i32 dummy))) chunks) timestamp
