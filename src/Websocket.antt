-- ===== src/Websocket.antt =====
-- server/src/managers/websocket/connection.rs: a client's connection to the server, the requests that
-- wait for an answer, and the requests of the client.
pub mod Acknowledged
pub mod Manager
use denim.Prelude.{
  ℕ, Bool, true, false, not, ◌&&◌, String, Option, none, some, List, [], ◌∷◌, ◌++◌, Outcome, ok,
  err, panic, out_of_fuel, or_err, or_panic, nat_eq, ◌==◌, if◌then◌else◌, Run,
}
use denim.Prelude.Dict.{Dict, empty, get, contains_key, insert, remove}
use denim.Prelude.Effects.{Action, return, lift, on_err, ◌>>=◌, ◌>>◌}
use denim.Text.{Text, codes, decimal, starts_with}
use denim.Account.{
  AuthenticatedDevice, ServiceId, ServiceIds, ProtocolAddress, aci_kind, device_protocol_address,
}
use denim.Server.{ApiError}
use denim.WebApi.{Envelope}
use denim.NetHelper.{
  WebSocketMessage, WebSocketRequestMessage, WebSocketResponseMessage, request_kind, response_kind,
  create_request, create_response, new_extractor, extract, unpack_messages,
}
use denim.Sockets.{
  ConnectionState, active, closed, state-is_active, Message, binary, close_message, type_of,
  outside, ignoring,
}

pub data UserIdentity : Type 0 where
  of_address : ProtocolAddress → UserIdentity
  of_device : AuthenticatedDevice → UserIdentity

pub record WebSocketConnection (W : Type 0) : Type 0 where
  pub identity : UserIdentity
  pub ws : ConnectionState W
  pub pending_requests : Dict ℕ Text

-- The rest of the server: the messages manager, the DenIM manager and the handlers of requests. `M` is
-- what a request carries, `R` the answer to it and `D` a message as it is delivered.
pub record Services (S M R D : Type 0) : Type 0 where
  pub delete : ProtocolAddress → List Text → Action S String (List Envelope)
  pub get_messages_for_device : ProtocolAddress → Bool → Action S String (List Envelope)
  pub create_denim_message : ProtocolAddress → Envelope → Action S String D
  pub handle_keepalive : AuthenticatedDevice → Action S ApiError (Unit {0})
  pub handle_put_messages : AuthenticatedDevice → ServiceId → M → Action S ApiError R
  pub parse_service_id : Text → Option ServiceId

-- The libraries: the half of a stream that is written to, random numbers, the clock, HTTP and serde.
pub record Host (S W M R D : Type 0) : Type 0 where
  pub write : W → Message → Action S String (Unit {0})
  pub close_stream : W → Action S String (Unit {0})
  pub generate_req_id : S → ℕ × S
  pub current_millis : Action S String ℕ
  pub encode : WebSocketMessage → List ℕ
  pub serialize : D → List ℕ
  pub canonical_reason : ℕ → Option Text
  pub uri_path : Text → Run Text
  pub from_utf8 : List ℕ → Option Text
  pub from_json : Text → Option M
  pub to_json : R → List ℕ

abbrev pub new_connection : {W : Type 0} → UserIdentity → W → WebSocketConnection W
new_connection identity ws = record {
  identity = identity;
  ws = active ws;
  pending_requests = empty;
}

-- `message.server_guid()`
abbrev pub server_guid : Envelope → Text
server_guid message = elim (message.server_guid) [ none ↦ [] | some g ↦ codes g ]

-- `ephemeral` and `story`, as `create_message` sets them.
abbrev pub delivered : Envelope → Envelope
delivered m = record {
  kind = m.kind;
  source_service_id = m.source_service_id;
  source_device = m.source_device;
  timestamp = m.timestamp;
  content = m.content;
  server_guid = m.server_guid;
  server_timestamp = m.server_timestamp;
  ephemeral = none;
  destination_service_id = m.destination_service_id;
  urgent = m.urgent;
  updated_pni = m.updated_pni;
  story = some false;
  reporting_token = m.reporting_token;
}

-- `match call { Ok(a) => …, Err(e) => … }`
abbrev pub handle :
    {S E F A B : Type 0} → Action S F A → (A → Action S E B) → (F → Action S E B) → Action S E B
handle call f g s = decide (call s) f g
  where
    decide :
        {S E F A B : Type 0}
        → Outcome F A × S
        → (A → Action S E B)
        → (F → Action S E B)
        → Outcome E B × S
    decide (ok a, s) f g = f a s
    decide (err e, s) f g = g e s
    decide (panic, s) f g = (panic, s)
    decide (out_of_fuel, s) f g = (out_of_fuel, s)

abbrev pub protocol_address : ServiceIds → UserIdentity → ProtocolAddress
protocol_address ids (of_device d) = device_protocol_address ids d aci_kind
protocol_address ids (of_address a) = a

module _ {S W M R D : Type 0} (ids : ServiceIds) (services : Services S M R D)
    (host : Host S W M R D) where
  abbrev pub Steps : Type 0 → Type 0
  Steps A = Action (WebSocketConnection W × S) String A

  abbrev pub address : Steps ProtocolAddress
  address (c, s) = (ok (protocol_address ids c.identity), (c, s))

  abbrev pub is_active : Steps Bool
  is_active (c, s) = (ok (state-is_active c.ws), (c, s))

  unfoldable pub send : Message → Steps (Unit {0})
  send msg (c, s) = over c.ws
    where
      over : ConnectionState W → Outcome String (Unit {0}) × (WebSocketConnection W × S)
      over (active w) = outside (host.write w msg) (c, s)
      over closed = (err "Connection is closed", (c, s))

  unfoldable pub close : Steps (Unit {0})
  close (c, s) = over c.ws
    where
      shut : WebSocketConnection W
      shut = record { identity = c.identity; ws = closed; pending_requests = c.pending_requests }

      over : ConnectionState W → Outcome String (Unit {0}) × (WebSocketConnection W × S)
      over (active w) = outside (ignoring (host.close_stream w)) (shut, s)
      over closed = (ok tt, (shut, s))

  unfoldable pub close_reason : ℕ → String → Steps (Unit {0})
  unfolding send
  close_reason code reason = send (close_message (some (record { code = code; reason = reason })))

  -- `pending_requests.insert`, of `create_message`
  abbrev pub await_response : ℕ → Text → Steps (Unit {0})
  await_response id guid (c, s) = (
    ok tt,
    (
      record {
        identity = c.identity;
        ws = c.ws;
        pending_requests = insert c.pending_requests id guid;
      },
      s,
    ),
  )

  abbrev pub req_id : Steps ℕ
  req_id (c, s) = (ok (host.generate_req_id s).0, (c, (host.generate_req_id s).1))

  abbrev pub unwrapped : {A : Type 0} → Action S String A → Steps A
  unwrapped call = handle (outside call) (λ a. return a) λ e. lift panic

  abbrev pub message_headers : ℕ → List Text
  message_headers millis =
      codes "X-Signal-Key: false" ∷ (codes "X-Signal-Timestamp: " ++ decimal millis) ∷ []

  unfoldable pub create_message : Envelope → Steps WebSocketMessage
  create_message message = do
    id ← req_id
    receiver ← address
    denim_message ← unwrapped (services.create_denim_message receiver (delivered message))
    millis ← outside host.current_millis
    guid ← lift (or_panic message.server_guid)
    await_response id (codes guid)
    return (
        create_request id (codes "PUT") (codes "/api/v1/message") (message_headers millis)
          (some (host.serialize denim_message)))

  unfoldable pub send_message : Envelope → Steps (Unit {0})
  send_message message = do
    msg ← on_err (λ _. "Time went backwards") (create_message message)
    send (binary (host.encode msg))
    receiver ← address
    deleted ← outside (services.delete receiver (server_guid message ∷ []))
    return tt

  -- The `for` of `send_messages`, which drops errors.
  unfoldable pub send_loop : List Envelope → Steps (Unit {0})
  unfolding send_message
  send_loop [] = return tt
  send_loop (m ∷ ms) = ignoring (send_message m) >> send_loop ms

  unfoldable pub send_messages : Bool → Steps Bool
  unfolding send_loop
  send_messages cached_only = address >>= λ receiver.
      handle (outside (services.get_messages_for_device receiver cached_only))
        (λ envelopes. send_loop envelopes >> return true) λ e. return false

  unfoldable pub send_queue_empty : Steps Bool
  unfolding send
  send_queue_empty = req_id >>= λ id.
      handle (outside host.current_millis)
        (λ time.
          handle
            (send (
              binary (
                host.encode (
                  create_request id (codes "PUT") (codes "/api/v1/queue/empty")
                    ((codes "X-Signal-Timestamp: " ++ decimal time) ∷ []) none))))
            (λ _. return true) λ e. return false)
        λ e. return false

  -- `send_cached` and `send_persisted`, by the flag.
  unfoldable pub send_available : Bool → Steps Bool
  unfolding send_messages send_queue_empty
  send_available cached_only = do
    is_open ← is_active
    (if is_open
        then (send_messages cached_only >>= λ sent. if sent then send_queue_empty else return false)
        else return false)

  unfoldable pub handle_displacement : Bool → Steps (Unit {0})
  unfolding close_reason
  handle_displacement connected_elsewhere = ignoring (
      if connected_elsewhere
      then close_reason 4409 "Connected elsewhere"
      else close_reason 1000 "OK")

  -- An answer without headers.
  unfoldable pub respond : ℕ → ℕ → Option (List ℕ) → Steps (Unit {0})
  unfolding create_response send
  respond id status body = do
    response ← lift (create_response host.canonical_reason id status [] body)
    send (binary (host.encode response))

  abbrev pub device_of : UserIdentity → Run AuthenticatedDevice
  device_of (of_address a) = panic
  device_of (of_device d) = ok d

  abbrev pub identity_of : Steps UserIdentity
  identity_of (c, s) = (ok c.identity, (c, s))

  unfoldable pub keepalive_request : ℕ → Steps (Unit {0})
  unfolding respond close_reason
  keepalive_request msq_id = do
    identity ← identity_of
    user ← lift (device_of identity)
    handle (outside (services.handle_keepalive user)) (λ _. respond msq_id 200 none)
        λ e. close_reason 1000 "OK"

  unfoldable pub messages_request : ℕ → Text → Option (List ℕ) → Steps (Unit {0})
  unfolding respond new_extractor extract unpack_messages
  messages_request msq_id path body = do
    identity ← identity_of
    device ← lift (device_of identity)
    uri ← lift (host.uri_path path)
    extractor ← lift (new_extractor uri)
    text ← lift (extract (λ t. some t) extractor 2)
    service_id ← lift (or_err (services.parse_service_id text) "Could not parse uri to service id")
    messages ← lift (unpack_messages host.from_utf8 host.from_json body)
    handle (outside (services.handle_put_messages device service_id messages))
        (λ res. respond msq_id 200 (some (host.to_json res))) λ e. respond msq_id 500 none

  -- The error for another path is without the path.
  unfoldable pub handle_request : WebSocketRequestMessage → Steps (Unit {0})
  unfolding respond keepalive_request messages_request starts_with
  handle_request request = do
    msq_id ← lift (or_err request.id "Request id was not present")
    path ← lift (or_err request.path "Request path was not present")
    (if not (starts_with path (codes "/v1/messages"))
          && not (starts_with path (codes "/v1/keepalive"))
        then respond msq_id 500 none >> lift (err "Incorret path")
        else if starts_with path (codes "/v1/keepalive")
        then keepalive_request msq_id
        else messages_request msq_id path request.body)

  abbrev pub pending_of : Steps (Dict ℕ Text)
  pending_of (c, s) = (ok c.pending_requests, (c, s))

  -- `pending_requests.remove`
  abbrev pub forget_pending : ℕ → Steps (Option Text)
  forget_pending id (c, s) = (
    ok (get c.pending_requests id),
    (
      record { identity = c.identity; ws = c.ws; pending_requests = remove c.pending_requests id },
      s,
    ),
  )

  unfoldable pub handle_response : WebSocketResponseMessage → Steps (Unit {0})
  handle_response response = do
    id ← lift (or_err response.id "Response message was not present")
    pending ← pending_of
    (if contains_key pending id
        then (do
          receiver ← address
          guid ← lift (or_panic (get pending id))
          deleted ← outside (services.delete receiver (guid ∷ []))
          removed ← forget_pending id
          known ← lift (or_err removed "Could not remove pending requests")
          return tt)
        else lift (err "pending_requests did not have the expected request"))

  unfoldable pub on_receive : WebSocketMessage → Steps (Unit {0})
  unfolding handle_request handle_response close_reason
  on_receive message =
      if type_of message == request_kind
      then elim (message.request) [
        | some req ↦ handle_request req
        | none ↦ close_reason 1007 "Badly formatted"
      ]
      else if type_of message == response_kind
      then elim (message.response) [
        | some res ↦ handle_response res
        | none ↦ close_reason 1007 "Badly formatted"
      ]
      else close_reason 1007 "Badly formatted"
