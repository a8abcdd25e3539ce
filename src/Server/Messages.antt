-- ===== src/Server/Messages.antt =====
-- `handle_put_messages` of server/src/server/server.rs.
pub mod Delivery
pub mod Answer
use denim.Prelude.{
  ℕ, ◌+◌, ◌%◌, Bool, true, false, not, ◌&&◌, String, Option, List, [], ◌∷◌, ◌++◌, map, length, ltb,
  Outcome, ok, err, panic, out_of_fuel, none, some, map_err, Run, if◌then◌else◌,
}
use denim.Prelude.Effects.{Action, return, lift, on_err, ◌>>=◌, ◌>>◌}
use denim.Chunk.Types.{DenimChunk}
use denim.WebApi.{SignalMessage, Envelope, RegularPayload, DenimMessage, DenimMessages}
use denim.Account.{
  Account, AuthenticatedDevice, ServiceId, aci_id, pni_id, ServiceIds, ProtocolAddress,
  service_id_eqb,
}
use denim.Validators.{validate_complete_device_list, validate_registration_id_from_messages}
use denim.Server.{ApiError, forbidden, internal_server_error, Host}
use Prim.Native.String
use denim.Server.Envelopes.{to_envelope}

-- What the handler asks of the managers: `AccountManager::get_account`, `MessagesManager::insert` and
-- `handle_receiving_chunks`. `inbox` is what `insert` has stored for a device.
pub record Managers (S : Type 0) : Type 0 where
  pub get_account : S → ServiceId → Option Account
  pub insert : ProtocolAddress → Envelope → Action S String ℕ
  pub receive_chunks :
      AuthenticatedDevice → Account → List DenimChunk → ℕ → Action S String (Unit {0})
  pub inbox : S → ProtocolAddress → List Envelope

abbrev pub regular_messages : {F : Type 0} → List (DenimMessage F) → List SignalMessage
regular_messages [] = []
regular_messages (m ∷ ms) = elim m.regular_payload [
  | RegularPayload.signal_message s ↦ s ∷ regular_messages ms
  | RegularPayload.envelope e ↦ regular_messages ms
]

abbrev pub all_chunks : {F : Type 0} → List (DenimMessage F) → List DenimChunk
all_chunks [] = []
all_chunks (m ∷ ms) = m.chunks ++ all_chunks ms

abbrev pub is_pni : ServiceId → Bool
is_pni (aci_id _) = false
is_pni (pni_id _) = true

-- Making an envelope ends in no error.
abbrev pub no_error : {A : Type 0} → Run A → Outcome ApiError A
no_error (ok a) = ok a
no_error _ = panic

pub record SendMessageResponse : Type 0 where
  pub needs_sync : Bool

module _ {S : Type 0} (host : Host S) (ids : ServiceIds) (m : Managers S) where
  -- The `for` loop over the regular messages.
  unfoldable pub store_messages :
      AuthenticatedDevice
      → Account
      → ServiceId
      → ℕ
      → List SignalMessage
      → Action S ApiError (Unit {0})
  unfolding to_envelope
  store_messages device destination destination_identifier timestamp [] = return tt
  store_messages device destination destination_identifier timestamp (msg ∷ msgs) = do
    envelope ← λ s. (
      no_error (
          to_envelope host.base64_decode ids (host.now_millis s) msg destination_identifier
            device.account (device.device.device_id % 256) timestamp false),
      s,
    )
    on_err (λ _. internal_server_error "Could not insert message")
          (m.insert
            (record {
              name = ids.aci_string destination.aci;
              device_id = msg.destination_device_id;
            })
            envelope)
        >>= λ _. store_messages device destination destination_identifier timestamp msgs

  -- Everything behind the choice of the destination account.
  unfoldable pub deliver :
      {F : Type 0}
      → AuthenticatedDevice
      → ServiceId
      → DenimMessages F
      → Bool
      → Account
      → Action S ApiError SendMessageResponse
  unfolding store_messages validate_complete_device_list validate_registration_id_from_messages
  deliver device destination_identifier payload is_sync_message destination = do
    lift (
        map_err (λ e. record { status_code = 409; body = host.mismatched_to_string e })
          (validate_complete_device_list destination
            (map (λ (s : SignalMessage). s.destination_device_id)
              (regular_messages payload.messages))
            (if is_sync_message then device.device.device_id ∷ [] else [])))
    lift (
        map_err (λ e. record { status_code = 410; body = host.stale_to_string e })
          (validate_registration_id_from_messages destination (regular_messages payload.messages)
            (is_pni destination_identifier)))
    store_messages device destination destination_identifier payload.timestamp
        (regular_messages payload.messages)
    on_err (λ e. internal_server_error (String.◌++◌ "internal error: " e))
        (m.receive_chunks device destination (all_chunks payload.messages) payload.timestamp)
    return (record { needs_sync = not is_sync_message && ltb 1 (length device.account.devices) })

  unfoldable pub handle_put_messages :
      {F : Type 0}
      → AuthenticatedDevice
      → ServiceId
      → DenimMessages F
      → Action S ApiError SendMessageResponse
  unfolding deliver
  handle_put_messages device destination_identifier payload s =
      let is_sync_message = service_id_eqb destination_identifier (aci_id device.account.aci) in
      if service_id_eqb destination_identifier (pni_id device.account.pni)
      then (err forbidden, s)
      else if is_sync_message
      then deliver device destination_identifier payload true device.account s
      else elim (m.get_account s destination_identifier) [
        | none ↦ (err (record { status_code = 404; body = "Destination account not found" }), s)
        | some destination ↦ deliver device destination_identifier payload false destination s
      ]
