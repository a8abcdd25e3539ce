-- ===== src/Websocket/Manager.antt =====
-- server/src/managers/websocket/websocket_manager.rs: the table of connections, and the task that
-- reads one of them.
use denim.Prelude.{ℕ, Bool, Option, none, some, List, [], ◌∷◌, String, panic, ok}
use denim.Prelude.Equality.{Eq}
use denim.Prelude.Dict.{Dict, empty, get, contains_key, insert, remove}
use denim.Prelude.Effects.{Action, return, lift, ◌>>=◌, ◌>>◌}
use denim.Account.{ServiceIds, ProtocolAddress}
use denim.NetHelper.{WebSocketMessage}
use denim.Sockets.{
  text, binary, ping, pong, frame, close_message, Received, failed, received, outside, ignoring,
}
use denim.Websocket.{
  WebSocketConnection, Services, Host, protocol_address, handle, send, close, close_reason,
  on_receive,
}

-- `H` is the type of a shared connection.
pub record WebSocketManager (H : Type 0) : Type 0 where
  pub sockets : Dict ProtocolAddress H

abbrev pub new_websocket_manager : {H : Type 0} → WebSocketManager H
new_websocket_manager = record { sockets = empty }

-- The state of the task of one connection: the table, and the connection itself.
abbrev pub Listening : Type 0 → Type 0 → Type 0 → Type 0 → Type 0
Listening S W H A = Action (WebSocketManager H × (WebSocketConnection W × S)) String A

module _ {H : Type 0} ⦃e : Eq ProtocolAddress⦄ where
  unfoldable pub register_new_connection :
      ProtocolAddress → H → WebSocketManager H → WebSocketManager H
  unfolding insert
  register_new_connection address connection m = record {
    sockets = insert m.sockets address connection;
  }

  unfoldable pub is_connected : ProtocolAddress → WebSocketManager H → Bool
  unfolding contains_key
  is_connected address m = contains_key m.sockets address

  unfoldable pub get_connection : ProtocolAddress → WebSocketManager H → Option H
  unfolding get
  get_connection address m = get m.sockets address

  module _ {S W M R D : Type 0} (ids : ServiceIds) (services : Services S M R D)
      (host : Host S W M R D) (decode : List ℕ → Option WebSocketMessage) where
    unfoldable pub close_connection : ProtocolAddress → Listening S W H (Option H)
    unfolding close get remove
    close_connection address = outside (close ids services host) >> removed
      where
        removed : Listening S W H (Option H)
        removed (m, s) =
            (ok (get m.sockets address), (record { sockets = remove m.sockets address }, s))

    -- The `while`; the list is what the stream gives until it ends.
    unfoldable pub listen_loop : ProtocolAddress → List Received → Listening S W H (Unit {0})
    unfolding close_connection close_reason on_receive send
    listen_loop address [] = return tt
    listen_loop address (failed e ∷ rest) = close_connection address >>= λ _. return tt
    listen_loop address (received (binary b) ∷ rest) = elim (decode b) [
      | none ↦ outside (ignoring (close_reason ids services host 1007 "Badly formatted"))
      | some msg ↦
          handle (outside (on_receive ids services host msg)) (λ _. listen_loop address rest)
            λ e. lift panic
    ]
    listen_loop address (received (text t) ∷ rest) =
        outside (ignoring (send ids services host (text t))) >> listen_loop address rest
    listen_loop address (received (close_message c) ∷ rest) = return tt
    listen_loop address (received (ping b) ∷ rest) = listen_loop address rest
    listen_loop address (received (pong b) ∷ rest) = listen_loop address rest
    listen_loop address (received (frame b) ∷ rest) = listen_loop address rest

    -- The connection is registered as `h`, then the spawned task.
    unfoldable pub listen : H → List Received → Listening S W H (Unit {0})
    unfolding register_new_connection listen_loop close_connection
    listen h incoming (m, (c, s)) =
        let address = protocol_address ids c.identity in
        ((listen_loop address incoming) >> (close_connection address >>= λ _. return tt))
          (register_new_connection address h m, (c, s))
