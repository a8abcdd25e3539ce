-- ===== src/Sockets/Answers.antt =====
-- What the client gets for a message that it sends over its websocket.
use denim.Prelude.{
  ℕ, zero, suc, ◌<◌, ◌≡◌, refl, ◌∙◌, true, false, Option, some, List, [], ◌∷◌, ◌++◌, length, ok,
  arith, ◌==◌,
}
use denim.Prelude.Effects.{Ends, Ends-map}
use denim.NetHelper.{WebSocketMessage}
use denim.Sockets.{
  active, Message, binary, SocketManager, Sockets, message_id, is_id, wait_for_id, send_response,
  send,
}

-- Messages that are well formed and carry another identifier, or none.
abbrev pub Others : ℕ → List WebSocketMessage → Type 0
Others id [] = Unit
Others id (x ∷ xs) = ((o : Option ℕ) × (message_id x ≡ ok o) × (is_id id o ≡ false)) × Others id xs

module _ {S W : Type 0} (sockets : Sockets S W) where
  -- `inbox` is what the receiver is going to get, in order, and `written` what the other side gets.
  pub record IsConnected (inbox : SocketManager W × S → List WebSocketMessage)
      (written : S → List (W × Message)) : Type 0 where
    pub receives :
        (st : SocketManager W × S) (m : WebSocketMessage) (ms : List WebSocketMessage)
        → inbox st ≡ m ∷ ms
        → (st' : SocketManager W × S) × (sockets.recv st ≡ (ok m, st'))
          × (inbox st' ≡ ms)
          × (written st'.1 ≡ written st.1)
    pub writes :
        (w : W) (x : Message) (m : SocketManager W) (s : S)
        → (s' : S) × (sockets.write w x s ≡ (ok tt, s'))
          × (inbox (m, s') ≡ inbox (m, s))
          × (written s' ≡ written s ++ (w, x) ∷ [])

  module _ {inbox : SocketManager W × S → List WebSocketMessage} {written : S → List (W × Message)}
      (law : IsConnected inbox written) where
    wait_for_id-first :
        (fuel id : ℕ) (before after : List WebSocketMessage) (msg : WebSocketMessage)
        (st : SocketManager W × S)
        → inbox st ≡ before ++ msg ∷ after
        → Others id before
        → message_id msg ≡ ok (some id)
        → length before < fuel
        → Ends
            (wait_for_id sockets fuel id st)
            λ r st'. (r ≡ msg) × (inbox st' ≡ after) × (written st'.1 ≡ written st.1)
    unfolding wait_for_id
    wait_for_id-first zero id before after msg st h o m f = absurd (omega arith)
    wait_for_id-first (suc fuel) id [] after msg st h o m f =
        let (st', eq, left, kept) = law.receives st msg after h in
        let same : (id == id) ≡ true = ground arith in rw (eq, m, same) (refl, left, kept)
    wait_for_id-first (suc fuel) id (x ∷ before) after msg st h ((i, is, other), o) m f =
        let (st', eq, left, kept) = law.receives st x (before ++ msg ∷ after) h in
        rw (eq, is, other)
          (Ends-map (wait_for_id sockets fuel id st') _ _
            (wait_for_id-first fuel id before after msg st' left o m (omega (arith, f)))
            λ r st2 (same, rest, wrote). (same, rest, wrote ∙ kept))

    -- A message that is sent over an open connection is written to it, once and nothing else, and `send` ends with the first
    -- message that comes with its identifier; what comes later stays for other calls. Given that such a
    -- message comes, that those before it are well formed, and one round for each of these and one
    -- more.
    pub send-answered :
        (fuel id n : ℕ) (w : W) (message msg : WebSocketMessage)
        (before after : List WebSocketMessage) (s : S)
        → inbox (record { next_id_counter = n; connection = active w }, s) ≡ before ++ msg ∷ after
        → Others id before
        → message_id msg ≡ ok (some id)
        → length before < fuel
        → Ends
            (send sockets fuel id message
              (record { next_id_counter = n; connection = active w }, s))
            λ r st'.
              (r ≡ msg)
              × (inbox st' ≡ after)
              × (written st'.1 ≡ written s ++ (w, binary (sockets.encode message)) ∷ [])
    unfolding send send_response
    send-answered fuel id n w message msg before after s h o m f =
        let mgr : SocketManager W = record { next_id_counter = n; connection = active w } in
        let (s', eq, kept, wrote) = law.writes w (binary (sockets.encode message)) mgr s in
        rw eq (
          Ends-map (wait_for_id sockets fuel id (mgr, s')) _ _
            (wait_for_id-first fuel id before after msg (mgr, s') (kept ∙ h) o m f)
            λ r st2 (same, rest, left). (same, rest, left ∙ wrote))
