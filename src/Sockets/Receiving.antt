-- ===== src/Sockets/Receiving.antt =====
-- What the task that reads the client's websocket forwards, and how it leaves the connection.
use denim.Prelude.{
  ℕ, ◌≡◌, refl, sym, ap, ◌∙◌, Option, none, some, List, [], ◌∷◌, ◌++◌, append-nil, append_assoc,
  arith, ok, String, Option-cases, inl, inr,
}
use denim.Prelude.Effects.{Ends, Ends-map}
use denim.NetHelper.{WebSocketMessage}
use denim.Sockets.{
  ConnectionState, active, closed, CloseFrame, Message, text, binary, ping, pong, frame,
  close_message, Received, failed, received, SocketManager, Sockets, close_reason, close,
  receive_loop,
}

abbrev pub goodbye : CloseFrame
goodbye = record { code = 1000; reason = "Goodbye" }

abbrev pub badly_formatted : CloseFrame
badly_formatted = record { code = 1007; reason = "Badly formatted" }

abbrev pub with_connection : {W : Type 0} → ℕ → ConnectionState W → SocketManager W
with_connection n c = record { next_id_counter = n; connection = c }

module _ {S W : Type 0} (sockets : Sockets S W) (notified : S → List WebSocketMessage)
    (written : S → List (W × Message)) where
  -- The message that something received stands for.
  abbrev pub message_of : Received → Option WebSocketMessage
  message_of (received (binary bytes)) = sockets.decode bytes
  message_of r = none

  -- The close frame with which something received ends the connection.
  abbrev pub ends : Received → Option CloseFrame
  ends (failed e) = some goodbye
  ends (received (text t)) = some goodbye
  ends (received (binary bytes)) = undecoded (sockets.decode bytes)
    where
      undecoded : Option WebSocketMessage → Option CloseFrame
      undecoded none = some badly_formatted
      undecoded (some m) = none
  ends (received (close_message c)) = some goodbye
  ends (received (ping b)) = none
  ends (received (pong b)) = none
  ends (received (frame b)) = none

  -- What comes before the end, and the frame of the end.
  abbrev pub before_end : List Received → List Received
  before_end [] = []
  before_end (r ∷ rs) = elim (ends r) [ none ↦ r ∷ before_end rs | some c ↦ [] ]

  abbrev pub ended_by : List Received → Option CloseFrame
  ended_by [] = none
  ended_by (r ∷ rs) = elim (ends r) [ none ↦ ended_by rs | some c ↦ some c ]

  abbrev pub messages_of : List Received → List WebSocketMessage
  messages_of [] = []
  messages_of (r ∷ rs) = elim (message_of r) [ none ↦ messages_of rs | some m ↦ m ∷ messages_of rs ]

  -- Writing and the broadcast channel succeed, as far as can be seen from outside.
  pub record IsOpen : Type 0 where
    pub writes :
        (w : W) (m : Message) (s : S)
        → (s' : S) × (sockets.write w m s ≡ (ok tt, s'))
          × (written s' ≡ written s ++ (w, m) ∷ [])
          × (notified s' ≡ notified s)
    pub broadcasts :
        (m : WebSocketMessage) (s : S)
        → (b : ℕ) × (s' : S) × (sockets.broadcast m s ≡ (ok b, s'))
          × (written s' ≡ written s)
          × (notified s' ≡ notified s ++ m ∷ [])

  -- The connection as it is left: open, or closed with a last frame.
  abbrev pub Left : W → ℕ → S → Option CloseFrame → SocketManager W × S → Type 0
  Left w n s none st = (st.0 ≡ with_connection n (active w)) × (written st.1 ≡ written s)
  Left w n s (some c) st =
      (st.0 ≡ with_connection n closed)
      × (written st.1 ≡ written s ++ (w, close_message (some c)) ∷ [])

  module _ (law : IsOpen) where
    close_reason-Left :
        (c : CloseFrame) (w : W) (n : ℕ) (s : S)
        → Ends
            (close_reason sockets c.code c.reason (with_connection n (active w), s))
            λ _ st. Left w n s (some c) st × (notified st.1 ≡ notified s ++ [])
    unfolding close_reason
    close_reason-Left c w n s =
        let (s', eq, wrote, same) = law.writes w (close_message (some c)) s in
        rw eq ((refl, wrote), same ∙ sym (append-nil (notified s)))

    undecoded-bad :
        (b : List ℕ) (rest : List Received) (st : SocketManager W × S)
        → sockets.decode b ≡ none
        → (receive_loop sockets (received (binary b) ∷ rest) st
            ≡ close_reason sockets 1007 "Badly formatted" st)
          × (ended_by (received (binary b) ∷ rest) ≡ some badly_formatted)
          × (before_end (received (binary b) ∷ rest) ≡ [])
    unfolding receive_loop
    undecoded-bad b rest st h = (ground (arith, h), ground (arith, h), ground (arith, h))

    decoded_end :
        (b : List ℕ) (rest : List Received) (msg : WebSocketMessage)
        → sockets.decode b ≡ some msg
        → (ended_by (received (binary b) ∷ rest) ≡ ended_by rest)
          × (messages_of (before_end (received (binary b) ∷ rest))
              ≡ msg ∷ messages_of (before_end rest))
    decoded_end b rest msg h = (ground (arith, h), ground (arith, h))

    decoded_step :
        (b : List ℕ) (rest : List Received) (msg : WebSocketMessage) (m : SocketManager W)
        (s s' : S) (n : ℕ)
        → sockets.decode b ≡ some msg
        → sockets.broadcast msg s ≡ (ok n, s')
        → receive_loop sockets (received (binary b) ∷ rest) (m, s)
          ≡ receive_loop sockets rest (m, s')
    unfolding receive_loop
    decoded_step b rest msg m s s' n h eq = ground (arith, h, eq)

    Left-from :
        (w : W) (n : ℕ) (s s' : S) (c : Option CloseFrame) (st : SocketManager W × S)
        → written s' ≡ written s
        → Left w n s' c st
        → Left w n s c st
    Left-from w n s s' none st h (same, wrote) = (same, wrote ∙ h)
    Left-from w n s s' (some c) st h (same, wrote) =
        (same, wrote ∙ ap (λ x. x ++ (w, close_message (some c)) ∷ []) h)

    -- The task writes the messages that come before the end to the broadcast channel, each once and in
    -- order. If the stream ends the connection is left as it is; at the first error, text, close frame
    -- or bytes that are no message it is closed with one last frame. Given that it was open, and that
    -- the libraries' calls succeed.
    pub receive_loop-forwards :
        (incoming : List Received) (w : W) (n : ℕ) (s : S)
        → Ends (receive_loop sockets incoming (with_connection n (active w), s)) λ _ st.
          Left w n s (ended_by incoming) st
          × (notified st.1 ≡ notified s ++ messages_of (before_end incoming))
    unfolding receive_loop close
    receive_loop-forwards [] w n s = ((refl, refl), sym (append-nil (notified s)))
    receive_loop-forwards (failed e ∷ rest) w n s = close_reason-Left goodbye w n s
    receive_loop-forwards (received (text t) ∷ rest) w n s = close_reason-Left goodbye w n s
    receive_loop-forwards (received (close_message c) ∷ rest) w n s =
        close_reason-Left goodbye w n s
    receive_loop-forwards (received (ping b) ∷ rest) w n s = receive_loop-forwards rest w n s
    receive_loop-forwards (received (pong b) ∷ rest) w n s = receive_loop-forwards rest w n s
    receive_loop-forwards (received (frame b) ∷ rest) w n s = receive_loop-forwards rest w n s
    receive_loop-forwards (received (binary b) ∷ rest) w n s =
        elim (Option-cases (sockets.decode b)) [
          | inl bad ↦
              let (step, last, before) =
                undecoded-bad b rest (with_connection n (active w), s) bad in
              rw (step, last, before) (close_reason-Left badly_formatted w n s)
          | inr (msg, good) ↦
              let (k, s', eq, wrote, told) = law.broadcasts msg s in
              let (last, before) = decoded_end b rest msg good in
              rw
                (
                  decoded_step b rest msg (with_connection n (active w)) s s' k good eq,
                  last,
                  before,
                )
                (Ends-map {E = String} {A = Unit {0}}
                  (receive_loop sockets rest (with_connection n (active w), s')) _ _
                  (receive_loop-forwards rest w n s')
                  λ _ st (left, more). (
                    Left-from w n s s' (ended_by rest) st wrote left,
                    more
                        ∙ ap (λ x. x ++ messages_of (before_end rest)) told
                        ∙ append_assoc (notified s) (msg ∷ []) (messages_of (before_end rest)),
                  ))
        ]
