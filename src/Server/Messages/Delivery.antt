-- ===== src/Server/Messages/Delivery.antt =====
-- What `handle_put_messages` stores, and where.
use denim.Prelude.{
  ℕ, ◌%◌, ◌≡◌, inl, inr, refl, sym, ap, subst, ◌∙◌, Bool, true, false, not, ◌&&◌, Option, none,
  some, List, [], ◌∷◌, ◌++◌, map, append_assoc, append-nil, contains, if◌then◌else◌, Bool-cases,
  Option-cases, nat_eq,
}
use denim.Prelude.Effects.{Gives, go_on-Gives, Gives-map, check-Gives, call-Gives}
use denim.WebApi.{SignalMessage, Envelope, DenimMessages}
use denim.Chunk.Types.{DenimChunk}
use denim.Account.{
  Account, AuthenticatedDevice, ServiceId, aci_id, pni_id, ServiceIds, ProtocolAddress,
  service_id_string, service_id_eqb, protocol_address_eqb,
}
use denim.Validators.{
  device_ids, validate_complete_device_list, validate_registration_id_from_messages,
}
use denim.Validators.Complete.{validate_complete_device_list_iff}
use Prim.Native.String
use denim.Server.{ApiError, internal_server_error, Host}
use denim.Server.Envelopes.{to_envelope}
use denim.Server.Messages.{
  Managers, regular_messages, all_chunks, is_pni, no_error, SendMessageResponse, store_messages,
  deliver, handle_put_messages,
}

-- The content that the sender decides, without the time and the identifier that storing adds.
abbrev pub body : Envelope → Envelope
body e = record e { server_guid = none; server_timestamp = none }

-- A message that is stored is added behind those of its device, under a fresh identifier, and
-- deniable chunks are kept apart from the messages.
pub record IsStore {S : Type 0} (m : Managers S) : Type 0 where
  pub inbox-insert :
      (a : ProtocolAddress) (e : Envelope) (s : S)
      → Gives (m.insert a e s) λ _ s'.
        (b : ProtocolAddress)
        → map body (m.inbox s' b)
          ≡ map body (m.inbox s b) ++ (if protocol_address_eqb a b then body e ∷ [] else [])
  pub inbox-receive_chunks :
      (d : AuthenticatedDevice) (a : Account) (cs : List DenimChunk) (t : ℕ) (s : S)
      → Gives
          (m.receive_chunks d a cs t s)
          λ _ s'. (b : ProtocolAddress) → m.inbox s' b ≡ m.inbox s b

-- The account that a request addresses.
abbrev pub recipient :
    {S : Type 0} → Managers S → AuthenticatedDevice → ServiceId → S → Option Account
recipient m device id s =
    if service_id_eqb id (aci_id device.account.aci)
    then some device.account
    else m.get_account s id

abbrev pub own_device : AuthenticatedDevice → ServiceId → List ℕ
own_device device id =
    if service_id_eqb id (aci_id device.account.aci) then device.device.device_id ∷ [] else []

module _ {S : Type 0} (host : Host S) (ids : ServiceIds) (m : Managers S) where
  -- The envelope that a device is to get for a message.
  abbrev pub expected : AuthenticatedDevice → ServiceId → ℕ → SignalMessage → Envelope
  expected device id timestamp msg = record {
    kind = some msg.kind;
    source_service_id = some (ids.aci_string device.account.aci);
    source_device = some (device.device.device_id % 256);
    timestamp = some timestamp;
    content = host.base64_decode msg.content;
    server_guid = none;
    server_timestamp = none;
    ephemeral = none;
    destination_service_id = some (service_id_string ids id);
    urgent = some false;
    updated_pni = none;
    story = none;
    reporting_token = none;
  }

  abbrev pub address_of : Account → SignalMessage → ProtocolAddress
  address_of a msg = record { name = ids.aci_string a.aci; device_id = msg.destination_device_id }

  -- The envelopes for one device, in the order of the request.
  abbrev pub envelopes_for :
      AuthenticatedDevice
      → ServiceId
      → ℕ
      → Account
      → ProtocolAddress
      → List SignalMessage
      → List Envelope
  envelopes_for device id timestamp a b [] = []
  envelopes_for device id timestamp a b (msg ∷ msgs) =
      (if protocol_address_eqb (address_of a msg) b
        then expected device id timestamp msg ∷ []
        else [])
      ++ envelopes_for device id timestamp a b msgs

  module _ (store : IsStore m) where
    HasBody : AuthenticatedDevice → ServiceId → ℕ → SignalMessage → S → Envelope → S → Type 0
    HasBody device id timestamp msg s e s' = (body e ≡ expected device id timestamp msg) × (s' ≡ s)

    -- The inbox of `b` has grown by the envelopes for it.
    abbrev Stores :
        AuthenticatedDevice
        → Account
        → ServiceId
        → ℕ
        → List SignalMessage
        → ProtocolAddress
        → S
        → S
        → Type 0
    Stores device a id timestamp msgs b s s' =
        map body (m.inbox s' b)
        ≡ map body (m.inbox s b) ++ envelopes_for device id timestamp a b msgs

    envelope_body :
        (device : AuthenticatedDevice) (id : ServiceId) (timestamp : ℕ) (msg : SignalMessage)
        (s : S)
        → Gives
            (
              no_error (
                  to_envelope host.base64_decode ids
                    (host.now_millis s)
                    msg
                    id
                    device.account
                    (device.device.device_id % 256)
                    timestamp
                    false),
              s,
            )
            (HasBody device id timestamp msg s)
    unfolding to_envelope HasBody
    envelope_body device id timestamp msg s = elim (Option-cases (host.base64_decode msg.content)) [
      | inl bad ↦ rw bad tt
      | inr (content, good) ↦
          rw good
            (ap (λ c. record (expected device id timestamp msg) { content = c }) (sym good), refl)
    ]

    store_messages-Stores :
        (device : AuthenticatedDevice) (a : Account) (id : ServiceId) (timestamp : ℕ)
        (msgs : List SignalMessage) (b : ProtocolAddress) (s : S)
        → Gives
            (store_messages host ids m device a id timestamp msgs s)
            λ _. Stores device a id timestamp msgs b s
    unfolding store_messages HasBody
    store_messages-Stores device a id timestamp [] b s = sym (append-nil (map body (m.inbox s b)))
    store_messages-Stores device a id timestamp (msg ∷ msgs) b s =
        go_on-Gives {E = ApiError} {A = Envelope} {B = Unit {0}} _ _
          (HasBody device id timestamp msg s) (λ _. Stores device a id timestamp (msg ∷ msgs) b s)
          (envelope_body device id timestamp msg s)
          λ e s' made.
            call-Gives {E = ApiError} {A = ℕ} {B = Unit {0}} _ (m.insert (address_of a msg) e s') _
              _ (λ _. Stores device a id timestamp (msg ∷ msgs) b s)
              (store.inbox-insert (address_of a msg) e s')
              λ n t stored.
                Gives-map {E = ApiError} (store_messages host ids m device a id timestamp msgs t)
                  (λ _. Stores device a id timestamp msgs b t)
                  (λ _. Stores device a id timestamp (msg ∷ msgs) b s)
                  (store_messages-Stores device a id timestamp msgs b t)
                  λ _ t' rest.
                    rest
                    ∙ ap (λ l. l ++ envelopes_for device id timestamp a b msgs) (stored b)
                    ∙ rw (made.0, made.1, append_assoc)

    abbrev Delivers :
        {F : Type 0}
        → AuthenticatedDevice
        → ServiceId
        → DenimMessages F
        → Bool
        → Account
        → ProtocolAddress
        → ℕ
        → S
        → S
        → Type 0
    Delivers device id payload sync a b d s s' =
        Stores device a id payload.timestamp (regular_messages payload.messages) b s s'
        × (contains
              (map (λ (msg : SignalMessage). msg.destination_device_id)
                (regular_messages payload.messages))
              d
            ≡ (contains (device_ids a.devices) d
                && not (contains (if sync then device.device.device_id ∷ [] else []) d)))

    deliver-Delivers :
        {F : Type 0} (device : AuthenticatedDevice) (id : ServiceId) (payload : DenimMessages F)
        (sync : Bool) (a : Account) (b : ProtocolAddress) (d : ℕ) (s : S)
        → Gives
            (deliver host ids m device id payload sync a s)
            λ _. Delivers device id payload sync a b d s
    unfolding deliver
    deliver-Delivers device id payload sync a b d s =
        let messages : List SignalMessage = regular_messages payload.messages in
        let goal : SendMessageResponse → S → Type 0 =
          λ _. Delivers device id payload sync a b d s in
        check-Gives {E = ApiError} {A = Unit {0}} {B = SendMessageResponse}
          (λ e. record { status_code = 409; body = host.mismatched_to_string e })
          (validate_complete_device_list a
            (map (λ (msg : SignalMessage). msg.destination_device_id) messages)
            (if sync then device.device.device_id ∷ [] else []))
          _ s goal
          λ _ complete.
            check-Gives {E = ApiError} {A = Unit {0}} {B = SendMessageResponse}
              (λ e. record { status_code = 410; body = host.stale_to_string e })
              (validate_registration_id_from_messages a messages (is_pni id)) _ s goal
              λ _ fresh.
                go_on-Gives {E = ApiError} {B = SendMessageResponse}
                  (store_messages host ids m device a id payload.timestamp messages s) _
                  (λ _. Stores device a id payload.timestamp messages b s) goal
                  (store_messages-Stores device a id payload.timestamp messages b s)
                  λ _ s₁ stored.
                    call-Gives {E = ApiError} {A = Unit {0}} {B = SendMessageResponse}
                      (λ e. internal_server_error (String.◌++◌ "internal error: " e))
                      (m.receive_chunks device a (all_chunks payload.messages) payload.timestamp s₁)
                      _ (λ _ s'. (c : ProtocolAddress) → m.inbox s' c ≡ m.inbox s₁ c) goal
                      (store.inbox-receive_chunks device a (all_chunks payload.messages)
                        payload.timestamp s₁)
                      λ _ s₂ kept.
                        let delivered : Delivers device id payload sync a b d s s₂ = (
                          ap (map body) (kept b) ∙ stored,
                          (validate_complete_device_list_iff a _ _).0 complete d,
                        ) in
                        delivered

    -- If `handle_put_messages` ends in a response, then each device of the recipient has got exactly
    -- the messages of the request for it, in their order and behind those it had, with the content,
    -- the sender and the time that the sender gave, and the inbox of no other address has changed;
    -- and the request had a message for each device of the recipient and for no other, except that
    -- one who writes to its own account leaves its own device out.
    pub handle_put_messages-Delivers :
        {F : Type 0} (device : AuthenticatedDevice) (id : ServiceId) (payload : DenimMessages F)
        (a : Account) (b : ProtocolAddress) (d : ℕ) (s : S)
        → recipient m device id s ≡ some a
        → Gives (handle_put_messages host ids m device id payload s) λ _ s'.
          (map body (m.inbox s' b)
            ≡ map body (m.inbox s b)
              ++ envelopes_for device id payload.timestamp a b (regular_messages payload.messages))
          × (contains
                (map
                  (λ (msg : SignalMessage). msg.destination_device_id)
                  (regular_messages payload.messages))
                d
              ≡ (contains (device_ids a.devices) d && not (contains (own_device device id) d)))
    unfolding handle_put_messages
    handle_put_messages-Delivers device id payload a b d s found =
        elim (Bool-cases (service_id_eqb id (pni_id device.account.pni))) [
          | inl own_pni ↦ rw own_pni tt
          | inr other ↦ elim (Bool-cases (service_id_eqb id (aci_id device.account.aci))) [
            | inl own ↦
                rw (other, own)
                  (subst
                    (λ x.
                      Gives (deliver host ids m device id payload true x s)
                        λ _. Delivers device id payload true a b d s)
                    (sym (some_inj (own_found own)))
                    (deliver-Delivers device id payload true a b d s))
            | inr foreign ↦
                rw (other, foreign, account_found foreign)
                  (deliver-Delivers device id payload false a b d s)
          ]
        ]
      where
        some_inj : {x y : Account} → some x ≡ some y → x ≡ y
        some_inj e = cc

        own_found :
            service_id_eqb id (aci_id device.account.aci) ≡ true → some device.account ≡ some a
        own_found e = rw e at found

        account_found :
            service_id_eqb id (aci_id device.account.aci) ≡ false → m.get_account s id ≡ some a
        account_found e = rw e at found
