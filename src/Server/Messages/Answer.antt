-- ===== src/Server/Messages/Answer.antt =====
-- When `handle_put_messages` accepts, and what an error leaves behind.
use denim.Prelude.{
  ℕ, ◌%◌, ◌≡◌, ◌⊎◌, inl, inr, refl, Bool, true, false, not, ◌&&◌, String, some, List, [], ◌∷◌, map,
  length, ltb, Outcome, ok, err, panic, out_of_fuel, contains, nat_eq, if◌then◌else◌, Bool-cases,
  Option-cases, subst, sym,
}
use denim.Prelude.Effects.{
  Action, go_on, Fails, check-Fails, call-Fails, go_on-Fails, Fails-map, call-ok,
}
use denim.WebApi.{SignalMessage, Envelope, DenimMessages}
use denim.Account.{
  Account, AuthenticatedDevice, ServiceId, aci_id, pni_id, ServiceIds, ProtocolAddress,
  service_id_eqb,
}
use denim.Validators.{
  device_ids, validate_complete_device_list, validate_registration_id_from_messages,
}
use denim.Validators.Complete.{
  validate_complete_device_list_iff, validate_registration_id_iff, AllFresh,
}
use denim.Server.{ApiError, internal_server_error, Host}
use Prim.Native.String
use denim.Server.Envelopes.{to_envelope}
use denim.Server.Messages.{
  Managers, regular_messages, all_chunks, is_pni, no_error, SendMessageResponse, store_messages,
  deliver, handle_put_messages,
}
use denim.Server.Messages.Delivery.{recipient, own_device}

abbrev pub registration_pairs : List SignalMessage → List (ℕ × ℕ)
registration_pairs =
    map (λ (msg : SignalMessage). (msg.destination_device_id, msg.destination_registration_id))

abbrev pub destination_ids : List SignalMessage → List ℕ
destination_ids = map (λ (msg : SignalMessage). msg.destination_device_id)

-- An internal error, or nothing has changed.
abbrev InternalOrSame : {S : Type 0} → S → ApiError → S → Type 0
InternalOrSame s e s' = (e.status_code ≡ 500) ⊎ (s' ≡ s)

module _ {S : Type 0} (host : Host S) (ids : ServiceIds) (m : Managers S) where
  to_envelope_no_error :
      (device : AuthenticatedDevice) (id : ServiceId) (timestamp : ℕ) (msg : SignalMessage) (s : S)
      (Q : ApiError → S → Type 0)
      → Fails
          (
            no_error (
                to_envelope host.base64_decode ids
                  (host.now_millis s)
                  msg
                  id
                  device.account
                  (device.device.device_id % 256)
                  timestamp
                  false),
            s,
          )
          Q
  unfolding to_envelope
  to_envelope_no_error device id timestamp msg s Q =
      elim (Option-cases (host.base64_decode msg.content)) [
        | inl bad ↦ rw bad tt
        | inr (content, good) ↦ rw good tt
      ]

  store_messages-internal :
      (device : AuthenticatedDevice) (a : Account) (id : ServiceId) (timestamp : ℕ)
      (msgs : List SignalMessage) (s : S)
      → Fails (store_messages host ids m device a id timestamp msgs s) λ e _. e.status_code ≡ 500
  unfolding store_messages
  store_messages-internal device a id timestamp [] s = tt
  store_messages-internal device a id timestamp (msg ∷ msgs) s =
      go_on-Fails {E = ApiError} {A = Envelope} {B = Unit {0}} _ _ (λ e _. e.status_code ≡ 500)
        (to_envelope_no_error device id timestamp msg s _)
        λ e s'.
          call-Fails {E = ApiError} {F = String} {A = ℕ} {B = Unit {0}}
            (λ _. internal_server_error "Could not insert message") _ _ (λ e _. e.status_code ≡ 500)
            (λ _ _. refl) λ n t. store_messages-internal device a id timestamp msgs t

  deliver-InternalOrSame :
      {F : Type 0} (device : AuthenticatedDevice) (id : ServiceId) (payload : DenimMessages F)
      (sync : Bool) (a : Account) (s : S)
      → Fails (deliver host ids m device id payload sync a s) (InternalOrSame s)
  unfolding deliver
  deliver-InternalOrSame device id payload sync a s =
      let messages : List SignalMessage = regular_messages payload.messages in
      check-Fails {E = ApiError} {A = Unit {0}} {B = SendMessageResponse}
        (λ e. record { status_code = 409; body = host.mismatched_to_string e })
        (validate_complete_device_list a (destination_ids messages)
          (if sync then device.device.device_id ∷ [] else []))
        _ s (InternalOrSame s) (λ _. inr refl)
        λ _.
          check-Fails {E = ApiError} {A = Unit {0}} {B = SendMessageResponse}
            (λ e. record { status_code = 410; body = host.stale_to_string e })
            (validate_registration_id_from_messages a messages (is_pni id)) _ s (InternalOrSame s)
            (λ _. inr refl)
            λ _.
              Fails-map {E = ApiError} {A = SendMessageResponse} _ (λ e _. e.status_code ≡ 500)
                (InternalOrSame s)
                (go_on-Fails {E = ApiError} {A = Unit {0}} {B = SendMessageResponse}
                  (store_messages host ids m device a id payload.timestamp messages s) _
                  (λ e _. e.status_code ≡ 500)
                  (store_messages-internal device a id payload.timestamp messages s)
                  λ _ s₁.
                    call-Fails {E = ApiError} {F = String} {A = Unit {0}} {B = SendMessageResponse}
                      (λ e. internal_server_error (String.◌++◌ "internal error: " e))
                      (m.receive_chunks device a (all_chunks payload.messages) payload.timestamp s₁)
                      _ (λ e _. e.status_code ≡ 500) (λ _ _. refl) λ _ _. tt)
                λ e s' h. inl h

  -- A request that `handle_put_messages` refuses, with any other status than an internal error, has
  -- changed nothing: no message of it is stored and no chunk of it is taken.
  pub handle_put_messages-refused :
      {F : Type 0} (device : AuthenticatedDevice) (id : ServiceId) (payload : DenimMessages F)
      (s : S)
      → Fails
          (handle_put_messages host ids m device id payload s)
          λ e s'. (e.status_code ≡ 500) ⊎ (s' ≡ s)
  unfolding handle_put_messages
  handle_put_messages-refused device id payload s =
      elim (Bool-cases (service_id_eqb id (pni_id device.account.pni))) [
        | inl own_pni ↦ rw own_pni (inr refl)
        | inr other ↦ elim (Bool-cases (service_id_eqb id (aci_id device.account.aci))) [
          | inl own ↦
              rw (other, own) (deliver-InternalOrSame device id payload true device.account s)
          | inr foreign ↦ elim (Option-cases (m.get_account s id)) [
            | inl missing ↦ rw (other, foreign, missing) (inr refl)
            | inr (a, found) ↦
                rw (other, foreign, found) (deliver-InternalOrSame device id payload false a s)
          ]
        ]
      ]

  -- Messages can be stored.
  pub record IsAvailable : Type 0 where
    pub inserts :
        (b : ProtocolAddress) (e : Envelope) (s : S) → (n : ℕ) × ((m.insert b e s).0 ≡ ok n)

  -- The chunks of the request can be taken when its messages have been stored.
  abbrev pub Takes :
      {F : Type 0} → AuthenticatedDevice → Account → ServiceId → DenimMessages F → S → Type 0
  Takes device a id payload s =
      (m.receive_chunks device a (all_chunks payload.messages) payload.timestamp
        (store_messages host ids m device a id payload.timestamp (regular_messages payload.messages)
          s).1).0
      ≡ ok tt

  then_ok :
      {A : Type 0} (r : Outcome ApiError (Unit {0}) × S) (k : Action S ApiError A) (a : A)
      → r.0 ≡ ok tt
      → (k r.1).0 ≡ ok a
      → (go_on {A = Unit {0}} r (λ _. k)).0 ≡ ok a
  then_ok (ok x, s) k a e h = h
  then_ok (err x, s) k a e h = cc
  then_ok (panic, s) k a e h = cc
  then_ok (out_of_fuel, s) k a e h = cc

  -- Every content is base64.
  abbrev pub AllDecode : List SignalMessage → Type 0
  AllDecode [] = Unit {0}
  AllDecode (msg ∷ msgs) =
      ((content : List ℕ) × (host.base64_decode msg.content ≡ some content)) × AllDecode msgs

  module _ (up : IsAvailable) where
    store_messages-ok :
        (device : AuthenticatedDevice) (a : Account) (id : ServiceId) (timestamp : ℕ)
        (msgs : List SignalMessage) (s : S)
        → AllDecode msgs
        → (store_messages host ids m device a id timestamp msgs s).0 ≡ ok tt
    unfolding store_messages to_envelope
    store_messages-ok device a id timestamp [] s h = refl
    store_messages-ok device a id timestamp (msg ∷ msgs) s ((content, good), h) = rw good (
        call-ok {E = ApiError} {F = String} {A = ℕ} {B = Unit {0}} _ _ _ tt (up.inserts _ _ s)
          λ n t. store_messages-ok device a id timestamp msgs t h)

    deliver-ok :
        {F : Type 0} (device : AuthenticatedDevice) (id : ServiceId) (payload : DenimMessages F)
        (sync : Bool) (a : Account) (s : S)
        → ((d : ℕ)
            → contains (destination_ids (regular_messages payload.messages)) d ≡ (
                contains (device_ids a.devices) d
                && not (contains (if sync then device.device.device_id ∷ [] else []) d)))
        → AllFresh a (is_pni id) (registration_pairs (regular_messages payload.messages))
        → AllDecode (regular_messages payload.messages)
        → Takes device a id payload s
        → (deliver host ids m device id payload sync a s).0
          ≡ ok (record { needs_sync = not sync && ltb 1 (length device.account.devices) })
    unfolding deliver validate_registration_id_from_messages
    deliver-ok device id payload sync a s complete fresh decode takes =
        let messages : List SignalMessage = regular_messages payload.messages in
        rw
          (
            (validate_complete_device_list_iff a (destination_ids messages)
                  (if sync then device.device.device_id ∷ [] else [])).1
                complete,
            (validate_registration_id_iff a (registration_pairs messages) (is_pni id)).1 fresh,
          )
          (then_ok (store_messages host ids m device a id payload.timestamp messages s) _ _
            (store_messages-ok device a id payload.timestamp messages s decode)
            (call-ok {E = ApiError} {F = String} {A = Unit {0}} {B = SendMessageResponse}
              (λ e. internal_server_error (String.◌++◌ "internal error: " e))
              (m.receive_chunks device a (all_chunks payload.messages) payload.timestamp
                (store_messages host ids m device a id payload.timestamp messages s).1)
              _ _ (tt, takes) λ _ _. refl))

    -- If messages can be stored, `handle_put_messages` accepts every request to a known account other
    -- than the sender's own phone-number identity that has a message for exactly the devices it
    -- should have, no stale registration identifier, base64 in every content, and chunks that can be
    -- taken when the messages have been stored; and the answer asks for a sync exactly when a sender of
    -- several devices wrote to someone else.
    pub handle_put_messages-accepts :
        {F : Type 0} (device : AuthenticatedDevice) (id : ServiceId) (payload : DenimMessages F)
        (a : Account) (s : S)
        → service_id_eqb id (pni_id device.account.pni) ≡ false
        → recipient m device id s ≡ some a
        → ((d : ℕ)
            → contains (destination_ids (regular_messages payload.messages)) d
              ≡ (contains (device_ids a.devices) d && not (contains (own_device device id) d)))
        → AllFresh a (is_pni id) (registration_pairs (regular_messages payload.messages))
        → AllDecode (regular_messages payload.messages)
        → Takes device a id payload s
        → (handle_put_messages host ids m device id payload s).0
          ≡ ok (record {
            needs_sync =
                not (service_id_eqb id (aci_id device.account.aci))
                && ltb 1 (length device.account.devices);
          })
    unfolding handle_put_messages
    handle_put_messages-accepts device id payload a s other found complete fresh decode takes =
        elim (Bool-cases (service_id_eqb id (aci_id device.account.aci))) [
          | inl own ↦
              rw (other, own)
                (subst
                  (λ x.
                    (deliver host ids m device id payload true x s).0
                    ≡ ok (record { needs_sync = false }))
                  (sym (some_inj (own_found own)))
                  (deliver-ok device id payload true a s (own_complete own) fresh decode takes))
          | inr foreign ↦
              rw (other, foreign, account_found foreign)
                (deliver-ok device id payload false a s (foreign_complete foreign) fresh decode
                  takes)
        ]
      where
        some_inj : {x y : Account} → some x ≡ some y → x ≡ y
        some_inj e = cc

        own_found :
            service_id_eqb id (aci_id device.account.aci) ≡ true → some device.account ≡ some a
        own_found e = rw e at found

        account_found :
            service_id_eqb id (aci_id device.account.aci) ≡ false → m.get_account s id ≡ some a
        account_found e = rw e at found

        own_complete :
            service_id_eqb id (aci_id device.account.aci) ≡ true
            → (d : ℕ)
            → contains (destination_ids (regular_messages payload.messages)) d ≡ (
                contains (device_ids a.devices) d
                && not (contains (device.device.device_id ∷ []) d))
        own_complete e = rw e at complete

        foreign_complete :
            service_id_eqb id (aci_id device.account.aci) ≡ false
            → (d : ℕ)
            → contains (destination_ids (regular_messages payload.messages)) d
              ≡ (contains (device_ids a.devices) d && not (contains [] d))
        foreign_complete e = rw e at complete
