-- ===== src/Sockets.antt =====
-- client/src/socket_manager.rs and common/src/websocket/connection_state.rs: the client's websocket,
-- which delegates what arrives to its subscribers and waits for the answers to what it sends.
pub mod Receiving
pub mod Answers
use denim.Prelude.{
  ℕ, zero, suc, ◌+◌, ◌%◌, ◌^◌, Bool, true, false, String, Option, none, some, List, [], ◌∷◌,
  Outcome, ok, err, panic, out_of_fuel, or_panic, ◌==◌, if◌then◌else◌,
}
use denim.Prelude.Effects.{Action, return, lift, ◌>>=◌, ◌>>◌}
use denim.NetHelper.{WebSocketMessage, request_kind, response_kind}

-- `ConnectionState` over the type of the half of a stream that is written to.
pub data ConnectionState (W : Type 0) : Type 0 where
  active : W → ConnectionState W
  closed : ConnectionState W

abbrev pub state-is_active : {W : Type 0} → ConnectionState W → Bool
state-is_active (active w) = true
state-is_active closed = false

-- Messages of a websocket: the websocket library's.
pub record CloseFrame : Type 0 where
  pub code : ℕ
  pub reason : String

pub data Message : Type 0 where
  text binary ping pong frame : List ℕ → Message
  close_message : Option CloseFrame → Message

-- What a stream gives: an error or a message.
pub data Received : Type 0 where
  failed : String → Received
  received : Message → Received

pub record SocketManager (W : Type 0) : Type 0 where
  pub next_id_counter : ℕ
  pub connection : ConnectionState W

abbrev pub new_manager : {W : Type 0} → SocketManager W
new_manager = record { next_id_counter = 0; connection = closed }

-- The libraries: writing to a stream, the broadcast channel, and protobuf. Other tasks may go on
-- while a receiver waits.
pub record Sockets (S W : Type 0) : Type 0 where
  pub write : W → Message → Action S String (Unit {0})
  pub broadcast : WebSocketMessage → Action S String ℕ
  pub recv : Action (SocketManager W × S) String WebSocketMessage
  pub encode : WebSocketMessage → List ℕ
  pub decode : List ℕ → Option WebSocketMessage

-- `r#type()`: a message without a type has the first one, `UNKNOWN`.
abbrev pub type_of : WebSocketMessage → ℕ
type_of msg = number msg.kind
  where
    number : Option ℕ → ℕ
    number none = 0
    number (some k) = k

-- The identifier that `wait_for_id` compares.
unfoldable pub message_id : WebSocketMessage → Outcome String (Option ℕ)
message_id msg =
    if type_of msg == response_kind
    then response_id msg
    else if type_of msg == request_kind
    then request_id msg
    else ok none
  where
    given : Outcome String ℕ → Outcome String (Option ℕ)
    given (ok id) = ok (some id)
    given (err e) = err e
    given panic = panic
    given out_of_fuel = out_of_fuel

    response_id : WebSocketMessage → Outcome String (Option ℕ)
    response_id m = elim (m.response) [ none ↦ panic | some r ↦ given (or_panic r.id) ]

    request_id : WebSocketMessage → Outcome String (Option ℕ)
    request_id m = elim (m.request) [ none ↦ panic | some r ↦ given (or_panic r.id) ]

abbrev pub is_id : ℕ → Option ℕ → Bool
is_id id none = false
is_id id (some i) = i == id

-- A call on the shared part of the state.
abbrev pub outside : {S M E A : Type 0} → Action S E A → Action (M × S) E A
outside call (m, s) = ((call s).0, (m, (call s).1))

-- `let _ = call`
abbrev pub ignoring : {S E A : Type 0} → Action S E A → Action S E (Unit {0})
ignoring call s = settle (call s)
  where
    settle : {S E A : Type 0} → Outcome E A × S → Outcome E (Unit {0}) × S
    settle (ok a, s) = (ok tt, s)
    settle (err e, s) = (ok tt, s)
    settle (panic, s) = (panic, s)
    settle (out_of_fuel, s) = (out_of_fuel, s)

-- `if let Err(…) = call { failure } else { success }`
abbrev pub either_way :
    {S E A B : Type 0} → Action S E A → Action S E B → Action S E B → Action S E B
either_way call success failure s = decide (call s) success failure
  where
    decide : {S E A B : Type 0} → Outcome E A × S → Action S E B → Action S E B → Outcome E B × S
    decide (ok a, s) f g = f s
    decide (err e, s) f g = g s
    decide (panic, s) f g = (panic, s)
    decide (out_of_fuel, s) f g = (out_of_fuel, s)

module _ {S W : Type 0} (sockets : Sockets S W) where
  abbrev pub Steps : Type 0 → Type 0
  Steps A = Action (SocketManager W × S) String A

  abbrev pub is_active : Steps Bool
  is_active (m, s) = (ok (state-is_active m.connection), (m, s))

  -- `set_stream`, up to the task that it spawns, which is `receive_loop`.
  unfoldable pub set_stream : W → Steps (Unit {0})
  set_stream sender (m, s) = store m.connection
    where
      store : ConnectionState W → Outcome String (Unit {0}) × (SocketManager W × S)
      store (active w) = (err "A Stream is already present!", (m, s))
      store closed =
          (ok tt, (record { next_id_counter = m.next_id_counter; connection = active sender }, s))

  unfoldable pub close_reason : ℕ → String → Steps (Unit {0})
  close_reason code reason (m, s) = finish m.connection
    where
      shut : SocketManager W
      shut = record { next_id_counter = m.next_id_counter; connection = closed }

      last : Message
      last = close_message (some (record { code = code; reason = reason }))

      finish : ConnectionState W → Outcome String (Unit {0}) × (SocketManager W × S)
      finish (active w) = outside (ignoring (sockets.write w last)) (shut, s)
      finish closed = (ok tt, (shut, s))

  unfoldable pub close : Steps (Unit {0})
  unfolding close_reason
  close = close_reason 1000 "Goodbye"

  -- The task: the argument is what the stream gives until it ends.
  unfoldable pub receive_loop : List Received → Steps (Unit {0})
  unfolding close close_reason
  receive_loop [] = return tt
  receive_loop (failed e ∷ rest) = close
  receive_loop (received (text t) ∷ rest) = close
  receive_loop (received (binary bytes) ∷ rest) = elim (sockets.decode bytes) [
    | none ↦ close_reason 1007 "Badly formatted"
    | some msg ↦ either_way (outside (sockets.broadcast msg)) (receive_loop rest) close
  ]
  receive_loop (received (close_message c) ∷ rest) = close
  receive_loop (received (ping b) ∷ rest) = receive_loop rest
  receive_loop (received (pong b) ∷ rest) = receive_loop rest
  receive_loop (received (frame b) ∷ rest) = receive_loop rest

  -- `fetch_add` on a `u64` wraps around.
  unfoldable pub next_id : Steps ℕ
  next_id (m, s) = (
    ok m.next_id_counter,
    (record { next_id_counter = (m.next_id_counter + 1) % 2 ^ 64; connection = m.connection }, s),
  )

  -- The `loop`, on fuel.
  unfoldable pub wait_for_id : ℕ → ℕ → Steps WebSocketMessage
  unfolding message_id
  wait_for_id zero id = lift out_of_fuel
  wait_for_id (suc fuel) id = sockets.recv >>= λ msg. consider (wait_for_id fuel id) msg
    where
      consider : Steps WebSocketMessage → WebSocketMessage → Steps WebSocketMessage
      consider rest msg =
          lift (message_id msg) >>= λ found. if is_id id found then return msg else rest

  unfoldable pub send_response : WebSocketMessage → Steps (Unit {0})
  send_response message (m, s) = send_over m.connection
    where
      send_over : ConnectionState W → Outcome String (Unit {0}) × (SocketManager W × S)
      send_over (active w) = outside (sockets.write w (binary (sockets.encode message))) (m, s)
      send_over closed = (err "Closed", (m, s))

  -- Sending is that of `send_response`; then the answer is waited for.
  unfoldable pub send : ℕ → ℕ → WebSocketMessage → Steps WebSocketMessage
  unfolding send_response wait_for_id
  send fuel id message = send_response message >> wait_for_id fuel id
