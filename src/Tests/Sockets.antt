-- ===== src/Tests/Sockets.antt =====
-- The client's websocket at concrete inputs: a stream in memory, and a list for the channel.
use denim.Prelude.{
  ℕ, ◌≡◌, refl, Option, none, some, List, [], ◌∷◌, ◌++◌, ok, err, String, Outcome, arith,
}
use denim.Prelude.Effects.{Ends, Action}
use denim.NetHelper.{WebSocketMessage}
use denim.Sockets.{
  active, Message, binary, ping, text, Received, received, SocketManager, Sockets, message_id,
  receive_loop, send, set_stream, new_manager,
}
use denim.Sockets.Receiving.{
  IsOpen, Left, ended_by, messages_of, before_end, with_connection, receive_loop-forwards,
}
use denim.Sockets.Answers.{IsConnected, send-answered}

record Wire : Type 0 where
  written : List (ℕ × Message)
  arrived : List WebSocketMessage
  notified : List WebSocketMessage

abbrev response : ℕ → WebSocketMessage
response id = record {
  kind = some 2;
  request = none;
  response =
      some (record { id = some id; status = some 200; message = none; headers = []; body = none });
}

-- One byte is a response with that identifier.
abbrev decode_one : List ℕ → Option WebSocketMessage
decode_one [] = none
decode_one (b ∷ bs) = some (response b)

abbrev next_arrival : Action (SocketManager ℕ × Wire) String WebSocketMessage
next_arrival (m, s) = first s.arrived
  where
    first : List WebSocketMessage → Outcome String WebSocketMessage × (SocketManager ℕ × Wire)
    first [] = (err "channel closed", (m, s))
    first (x ∷ xs) =
        (ok x, (m, record { written = s.written; arrived = xs; notified = s.notified }))

abbrev wire : Sockets Wire ℕ
wire = record {
  write = λ w m s. (
    ok tt,
    record { written = s.written ++ (w, m) ∷ []; arrived = s.arrived; notified = s.notified },
  );
  broadcast = λ m s.
      (ok 1, record { written = s.written; arrived = s.arrived; notified = s.notified ++ m ∷ [] });
  recv = next_arrival;
  encode = λ m. [];
  decode = decode_one;
}

abbrev is_open : IsOpen wire (λ s. s.notified) (λ s. s.written)
is_open = record {
  writes = λ w m s. (_, refl, refl, refl);
  broadcasts = λ m s. (1, _, refl, refl, refl);
}

abbrev arrives :
    (s : Wire) (mgr : SocketManager ℕ) (m : WebSocketMessage) (ms : List WebSocketMessage)
    → s.arrived ≡ m ∷ ms
    → (st' : SocketManager ℕ × Wire) × (next_arrival (mgr, s) ≡ (ok m, st'))
      × (st'.1.arrived ≡ ms)
      × (st'.1.written ≡ s.written)
arrives s mgr m ms h = (
  (mgr, record { written = s.written; arrived = ms; notified = s.notified }),
  rw h refl,
  refl,
  refl,
)

abbrev is_connected : IsConnected wire (λ st. st.1.arrived) (λ s. s.written)
is_connected = record {
  receives = λ st m ms h. arrives st.1 st.0 m ms h;
  writes = λ w x m s. (_, refl, refl, refl);
}

abbrev quiet : Wire
quiet = record { written = []; arrived = response 7 ∷ response 3 ∷ response 9 ∷ []; notified = [] }

abbrev stream : List Received
stream =
    received (binary (5 ∷ []))
    ∷ received (ping [])
    ∷ received (binary (6 ∷ []))
    ∷ received (text [])
    ∷ received (binary (8 ∷ []))
    ∷ []

second_stream :
    (set_stream wire 4 (set_stream wire 3 (new_manager, quiet)).1).0
    ≡ err "A Stream is already present!"
unfolding set_stream
second_stream = refl

receive_loop-forwards_example :
    Ends (receive_loop wire stream (with_connection 0 (active 3), quiet)) λ _ st.
      Left wire
        (λ s. s.notified)
        (λ s. s.written)
        3
        0
        quiet
        (ended_by wire (λ s. s.notified) (λ s. s.written) stream)
        st
      × (st.1.notified
          ≡ []
            ++ messages_of wire
                (λ s. s.notified)
                (λ s. s.written)
                (before_end wire (λ s. s.notified) (λ s. s.written) stream))
receive_loop-forwards_example =
    receive_loop-forwards wire (λ s. s.notified) (λ s. s.written) is_open stream 3 0 quiet

response-id : (id : ℕ) → message_id (response id) ≡ ok (some id)
unfolding message_id
response-id id = refl

send-answered_example :
    Ends
      (send wire 2 3 (response 0) (record { next_id_counter = 4; connection = active 3 }, quiet))
      λ r st'.
        (r ≡ response 3) × (st'.1.arrived ≡ response 9 ∷ []) × (st'.1.written ≡ (3, binary []) ∷ [])
send-answered_example =
    send-answered wire is_connected 2 3 4 3 (response 0) (response 3) (response 7 ∷ [])
      (response 9 ∷ []) quiet refl ((some 7, response-id 7, refl), tt) (response-id 3) (omega arith)
