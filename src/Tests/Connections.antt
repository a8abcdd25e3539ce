-- ===== src/Tests/Connections.antt =====
-- A connection of the server at concrete inputs: the state is a clock with what was deleted.
use denim.Prelude.{
  panic, ℕ, ◌≡◌, ◌==◌, ◌+◌, if◌then◌else◌, nat_eq, refl, none, some, List, [], ◌∷◌, ◌++◌, ok, map,
}
use denim.Prelude.Dict.{empty, get, insert, contains_key}
use denim.Prelude.Effects.{Ends, ◌>>◌}
use denim.Text.{Text, codes}
use denim.Account.{ProtocolAddress}
use denim.WebApi.{Envelope}
use denim.NetHelper.{WebSocketMessage, WebSocketResponseMessage}
use denim.Sockets.{active, binary, received}
use denim.Websocket.{
  UserIdentity, of_address, Services, Host, send_message, on_receive, handle_response,
  protocol_address,
}
use denim.Websocket.Acknowledged.{IsServed, open_connection, send_message-answered}
use denim.Websocket.Manager.{listen, new_websocket_manager}
use denim.Prelude.Equality.{Eq}
use denim.Tests.Requests.{ids}

record Office : Type 0 where
  clock : ℕ
  deleted : List (ProtocolAddress × Text)

abbrev services : Services Office ℕ ℕ Envelope
services = record {
  delete =
      λ a gs s. (ok [], record { clock = s.clock; deleted = s.deleted ++ map (λ g. (a, g)) gs });
  get_messages_for_device = λ a c s. (ok [], s);
  create_denim_message = λ a m s. (ok m, s);
  handle_keepalive = λ d s. (ok tt, s);
  handle_put_messages = λ d i m s. (ok m, s);
  parse_service_id = λ t. none;
}

abbrev host : Host Office ℕ ℕ ℕ Envelope
host = record {
  write = λ w m s. (ok tt, s);
  close_stream = λ w s. (ok tt, s);
  generate_req_id = λ s. (s.clock, record { clock = s.clock + 1; deleted = s.deleted });
  current_millis = λ s. (ok s.clock, s);
  encode = λ m. [];
  serialize = λ m. [];
  canonical_reason = λ c. none;
  uri_path = λ t. ok t;
  from_utf8 = λ b. some b;
  from_json = λ t. none;
  to_json = λ r. [];
}

abbrev is_served : IsServed ids services host (λ s. s.deleted)
is_served = record {
  generates = λ s. refl;
  creates = λ a m s. (m, s, refl, refl);
  ticks = λ s. (s.clock, s, refl, refl);
  writes = λ w x s. (s, refl, refl);
  deletes = λ a g s. ([], _, refl, refl);
}

abbrev letter : Envelope
letter = record {
  kind = none;
  source_service_id = none;
  source_device = none;
  timestamp = none;
  content = some (1 ∷ []);
  server_guid = some "g";
  server_timestamp = none;
  ephemeral = none;
  destination_service_id = none;
  urgent = none;
  updated_pni = none;
  story = none;
  reporting_token = none;
}

abbrev answer : WebSocketResponseMessage
answer = record { id = some 8; status = some 200; message = none; headers = []; body = none }

abbrev here : UserIdentity
here = of_address (record { name = "a"; device_id = 1 })

abbrev before : Office
before = record { clock = 8; deleted = [] }

send_message-answered_example :
    Ends
      ((send_message ids services host letter >> handle_response ids services host answer) (
        open_connection ids services host (λ s. s.deleted) here 5 (insert empty 3 (codes "f")),
        before,
      ))
      λ _ st.
        (st.0.identity ≡ here)
        × (st.0.ws ≡ active 5)
        × ((k : ℕ)
            → get st.0.pending_requests k
              ≡ (if 8 == k then none else get (insert empty 3 (codes "f")) k))
        × (st.1.deleted
            ≡ []
              ++ (protocol_address ids here, codes "g")
                ∷ (protocol_address ids here, codes "g")
                ∷ [])
send_message-answered_example =
    send_message-answered ids services host (λ s. s.deleted) is_served letter "g" answer here 5
      (insert empty 3 (codes "f")) before refl refl

abbrev unasked : WebSocketMessage
unasked = record { kind = some 2; request = none; response = some answer }

-- An answer that nothing waits for ends the task, with the connection open and in the table.
unasked_panics :
    ⦃e : Eq ProtocolAddress⦄
    → (listen {H = ℕ} ids services host
        (λ b. some unasked)
        1
        (received (binary []) ∷ [])
        (
          new_websocket_manager,
          (open_connection ids services host (λ s. s.deleted) here 5 empty, before),
        )).0
      ≡ panic
unfolding listen on_receive contains_key
unasked_panics = refl
