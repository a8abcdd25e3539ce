-- ===== src/Websocket/Acknowledged.antt =====
-- A message from its delivery over a connection to the client's answer.
use denim.Prelude.{
  ℕ, ◌≡◌, refl, ap, ◌∙◌, true, none, some, List, [], ◌∷◌, ◌++◌, ok, String, nat_eq, ◌==◌,
  if◌then◌else◌, arith, append_assoc,
}
use denim.Prelude.Dict.{Dict, get, contains_key, insert, remove, get-insert, get-remove}
use denim.Prelude.Effects.{Ends, ◌>>◌}
use denim.Text.{Text, codes}
use denim.Account.{ServiceIds, ProtocolAddress}
use denim.WebApi.{Envelope}
use denim.NetHelper.{WebSocketMessage, create_request, WebSocketResponseMessage}
use denim.Sockets.{active, Message, binary}
use denim.Websocket.{
  UserIdentity, WebSocketConnection, Services, Host, protocol_address, create_message, send_message,
  handle_response, send, delivered, message_headers,
}

module _ {S W M R D : Type 0} (ids : ServiceIds) (services : Services S M R D)
    (host : Host S W M R D) (deleted : S → List (ProtocolAddress × Text)) where
  -- The libraries and the managers do as they are asked, and `deleted` is what the messages manager
  -- was asked to delete.
  pub record IsServed : Type 0 where
    pub generates : (s : S) → deleted (host.generate_req_id s).1 ≡ deleted s
    pub creates :
        (a : ProtocolAddress) (m : Envelope) (s : S)
        → (d : D) × (s' : S) × (services.create_denim_message a m s ≡ (ok d, s'))
          × (deleted s' ≡ deleted s)
    pub ticks :
        (s : S)
        → (t : ℕ) × (s' : S) × (host.current_millis s ≡ (ok t, s')) × (deleted s' ≡ deleted s)
    pub writes :
        (w : W) (x : Message) (s : S)
        → (s' : S) × (host.write w x s ≡ (ok tt, s')) × (deleted s' ≡ deleted s)
    pub deletes :
        (a : ProtocolAddress) (g : Text) (s : S)
        → (es : List Envelope) × (s' : S) × (services.delete a (g ∷ []) s ≡ (ok es, s'))
          × (deleted s' ≡ deleted s ++ (a, g) ∷ [])

  abbrev pub open_connection : UserIdentity → W → Dict ℕ Text → WebSocketConnection W
  open_connection i w d = record { identity = i; ws = active w; pending_requests = d }

  get-inserted : (d : Dict ℕ Text) (k : ℕ) (v : Text) → get (insert d k v) k ≡ some v
  get-inserted d k v =
      let same : (k == k) ≡ true = ground arith in get-insert d k v k ∙ rw same refl

  contains_key-get :
      (d : Dict ℕ Text) (k : ℕ) (v : Text) → get d k ≡ some v → contains_key d k ≡ true
  unfolding contains_key
  contains_key-get d k v h = ground (arith, h)

  forgotten :
      (d : Dict ℕ Text) (id : ℕ) (v : Text) (k : ℕ)
      → get (remove (insert d id v) id) k ≡ (if id == k then none else get d k)
  forgotten d id v k = ground (arith, get-remove (insert d id v) id k, get-insert d id v k)

  create_message-run :
      (m : Envelope) (guid : String) (i : UserIdentity) (w : W) (d : Dict ℕ Text) (s s2 s3 : S)
      (x : D) (t : ℕ)
      → m.server_guid ≡ some guid
      → services.create_denim_message
          (protocol_address ids i)
          (delivered m)
          (host.generate_req_id s).1
        ≡ (ok x, s2)
      → host.current_millis s2 ≡ (ok t, s3)
      → create_message ids services host m (open_connection i w d, s) ≡ (
        ok (
            create_request
              (host.generate_req_id s).0
              (codes "PUT")
              (codes "/api/v1/message")
              (message_headers ids services host t)
              (some (host.serialize x))),
        (open_connection i w (insert d (host.generate_req_id s).0 (codes guid)), s3),
      )
  unfolding create_message
  create_message-run m guid i w d s s2 s3 x t h made ticked = rw (made, ticked, h) refl

  send_message-run :
      (m : Envelope) (guid : String) (i : UserIdentity) (w : W) (c : WebSocketConnection W × S)
      (d : Dict ℕ Text) (s s' s'' : S) (body : WebSocketMessage) (es : List Envelope)
      → m.server_guid ≡ some guid
      → create_message ids services host m c ≡ (ok body, (open_connection i w d, s))
      → host.write w (binary (host.encode body)) s ≡ (ok tt, s')
      → services.delete (protocol_address ids i) (codes guid ∷ []) s' ≡ (ok es, s'')
      → send_message ids services host m c ≡ (ok tt, (open_connection i w d, s''))
  unfolding send_message send
  send_message-run m guid i w c d s s' s'' body es h made wrote gone =
      rw (made, wrote, h, gone) refl

  handle_response-run :
      (r : WebSocketResponseMessage) (id : ℕ) (g : Text) (i : UserIdentity) (w : W)
      (d : Dict ℕ Text) (s s' : S) (es : List Envelope)
      → r.id ≡ some id
      → get d id ≡ some g
      → services.delete (protocol_address ids i) (g ∷ []) s ≡ (ok es, s')
      → handle_response ids services host r (open_connection i w d, s)
        ≡ (ok tt, (open_connection i w (remove d id), s'))
  unfolding handle_response
  handle_response-run r id g i w d s s' es h known gone =
      rw (h, contains_key-get d id g known, known, gone, known) refl

  module _ (law : IsServed) where
    -- A message that is delivered over an open connection and then answered by the client leaves no
    -- request behind: the connection is as before, and none of its other pending requests is lost. Given
    -- that the calls of the other parts succeed, the message has a guid, and the answer carries the
    -- identifier of the request. The message is deleted twice, when it is sent and when it is answered.
    pub send_message-answered :
        (m : Envelope) (guid : String) (r : WebSocketResponseMessage) (i : UserIdentity) (w : W)
        (d : Dict ℕ Text) (s : S)
        → m.server_guid ≡ some guid
        → r.id ≡ some (host.generate_req_id s).0
        → Ends
            ((send_message ids services host m >> handle_response ids services host r)
              (open_connection i w d, s))
            λ _ st.
              (st.0.identity ≡ i)
              × (st.0.ws ≡ active w)
              × ((k : ℕ)
                  → get st.0.pending_requests k
                    ≡ (if (host.generate_req_id s).0 == k then none else get d k))
              × (deleted st.1
                  ≡ deleted s
                    ++ (protocol_address ids i, codes guid)
                      ∷ (protocol_address ids i, codes guid)
                      ∷ [])
    send_message-answered m guid r i w d s h answers =
        let a : ProtocolAddress = protocol_address ids i in
        let id : ℕ = (host.generate_req_id s).0 in
        let (x, s2, made, same) = law.creates a (delivered m) (host.generate_req_id s).1 in
        let (t, s3, ticked, same2) = law.ticks s2 in
        let body : WebSocketMessage =
          create_request id (codes "PUT") (codes "/api/v1/message")
            (message_headers ids services host t) (some (host.serialize x)) in
        let (s4, wrote, same3) = law.writes w (binary (host.encode body)) s3 in
        let (es, s5, gone, more) = law.deletes a (codes guid) s4 in
        let (es2, s6, gone2, more2) = law.deletes a (codes guid) s5 in
        let d2 : Dict ℕ Text = insert d id (codes guid) in
        rw
          (
            send_message-run m guid i w (open_connection i w d, s) d2 s3 s4 s5 body es h
                (create_message-run m guid i w d s s2 s3 x t h made ticked) wrote gone,
            handle_response-run r id (codes guid) i w d2 s5 s6 es2 answers
                (get-inserted d id (codes guid)) gone2,
          )
          (
            refl,
            refl,
            λ k. forgotten d id (codes guid) k,
            more2
                ∙ ap (λ l. l ++ (a, codes guid) ∷ [])
                    (more
                      ∙ ap (λ l. l ++ (a, codes guid) ∷ [])
                          (same3 ∙ same2 ∙ same ∙ law.generates s))
                ∙ append_assoc (deleted s) ((a, codes guid) ∷ []) ((a, codes guid) ∷ []),
          )
