-- ===== src/Storage/Device/History/Lookups.antt =====
-- What is read from tables that hold given maps.
use denim.Prelude.{
  ℕ, nat_eq, ◌≡◌, refl, string_eq, List, Outcome, ok, err, panic, out_of_fuel, inl, inr,
  Option-cases,
}
use denim.Prelude.Equality.{Eq}
use denim.Prelude.Dict.{get}
use denim.Prelude.Effects.{Ends, Ends-map, go_on}
use denim.Account.{ProtocolAddress}
use denim.Redis.Entries.{Base64}
use denim.Redis.Entries.RoundTrip.{IsBase64}
use denim.Storage.{SignalProtocolError, Libsignal, Tables, no_tables, Engine, reading, row_or_err}
use denim.Storage.Device.{is_trusted_identity, is_trusted_deniable_identity, trusts}
use denim.Storage.Device.Keys.{
  get_pre_key, get_signed_pre_key, get_kyber_pre_key, load_session, load_deniable_session,
}
use denim.Storage.Device.Reliable.{
  IsReliable, IsLibsignal, Reads-decoded, reading-run, reading-fails, Reads-none, Reads-some,
}
use denim.Storage.Device.History.{View, Call, nothing, after_all, found, perform_all, Answers}
use denim.Storage.Device.History.Shows.{Shows, pre_key_text, signed_text, kyber_text, session_text}
use denim.Storage.Device.History.Identities.{get_identity-run, get_deniable_identity-run}
use denim.Storage.Device.History.Saves.{perform_all-Shows}

-- A call that fails, before a rest.
go_on-failed :
    {S X A B : Type 0} (r : Outcome X A × S) (k : A → S → Outcome X B × S) (e : X)
    → r.0 ≡ err e
    → (go_on r k).0 ≡ err e
go_on-failed (ok a, s) k e h = cc
go_on-failed (err x, s) k e h = cc
go_on-failed (panic, s) k e h = cc
go_on-failed (out_of_fuel, s) k e h = cc

module _ {E I P R N : Type 0} ⦃key : Eq I⦄ (engine : Engine E) (base64 : Base64)
    (signal : Libsignal I P R N) (law : IsReliable engine) (base_law : IsBase64 base64)
    (signal_law : IsLibsignal signal) where
  get_pre_key-found :
      (k : ℕ) (t : Tables) (v : View I R) (s : E)
      → Shows base64 signal t v
      → (get_pre_key engine base64 signal k (t, s)).0 ≡ found (v.pre_keys k)
  unfolding get_pre_key
  get_pre_key-found k t v s shows =
      let row = get t.device_pre_key_store k in
      elim (Option-cases row) [
        | inl missing ↦
            let failed =
              reading-fails engine law (λ t. row_or_err (get t.device_pre_key_store k))
                "Query returned no rows" t s (rw missing refl) in
            rw
              (Reads-none (pre_key_text base64 signal) row (v.pre_keys k) (shows.pre_keys k)
                missing)
              (go_on-failed (reading engine (λ t. row_or_err (get t.device_pre_key_store k)) (t, s))
                _ _ failed)
        | inr (text, here) ↦
            let (s', eq) =
              reading-run engine law (λ t. row_or_err (get t.device_pre_key_store k)) text t s
                (rw here refl) in
            let (r, same, readable) =
              Reads-some (pre_key_text base64 signal) row (v.pre_keys k) text (shows.pre_keys k)
                here in
            rw (eq, same) readable
      ]

  get_signed_pre_key-found :
      (k : ℕ) (t : Tables) (v : View I R) (s : E)
      → Shows base64 signal t v
      → (get_signed_pre_key engine base64 signal k (t, s)).0 ≡ found (v.signed_pre_keys k)
  unfolding get_signed_pre_key
  get_signed_pre_key-found k t v s shows =
      let row = get t.device_signed_pre_key_store k in
      elim (Option-cases row) [
        | inl missing ↦
            let failed =
              reading-fails engine law (λ t. row_or_err (get t.device_signed_pre_key_store k))
                "Query returned no rows" t s (rw missing refl) in
            rw
              (Reads-none (signed_text base64 signal) row (v.signed_pre_keys k)
                (shows.signed_pre_keys k) missing)
              (go_on-failed
                (reading engine (λ t. row_or_err (get t.device_signed_pre_key_store k)) (t, s)) _ _
                failed)
        | inr (text, here) ↦
            let (s', eq) =
              reading-run engine law (λ t. row_or_err (get t.device_signed_pre_key_store k)) text t
                s (rw here refl) in
            let (r, same, readable) =
              Reads-some (signed_text base64 signal) row (v.signed_pre_keys k) text
                (shows.signed_pre_keys k) here in
            rw (eq, same) readable
      ]

  get_kyber_pre_key-found :
      (k : ℕ) (t : Tables) (v : View I R) (s : E)
      → Shows base64 signal t v
      → (get_kyber_pre_key engine base64 signal k (t, s)).0 ≡ found (v.kyber_pre_keys k)
  unfolding get_kyber_pre_key
  get_kyber_pre_key-found k t v s shows =
      let row = get t.device_kyber_pre_key_store k in
      elim (Option-cases row) [
        | inl missing ↦
            let failed =
              reading-fails engine law (λ t. row_or_err (get t.device_kyber_pre_key_store k))
                "Query returned no rows" t s (rw missing refl) in
            rw
              (Reads-none (kyber_text base64 signal) row (v.kyber_pre_keys k)
                (shows.kyber_pre_keys k) missing)
              (go_on-failed
                (reading engine (λ t. row_or_err (get t.device_kyber_pre_key_store k)) (t, s)) _ _
                failed)
        | inr (text, here) ↦
            let (s', eq) =
              reading-run engine law (λ t. row_or_err (get t.device_kyber_pre_key_store k)) text t s
                (rw here refl) in
            let (r, same, readable) =
              Reads-some (kyber_text base64 signal) row (v.kyber_pre_keys k) text
                (shows.kyber_pre_keys k) here in
            rw (eq, same) readable
      ]

  load_session-found :
      (a : ProtocolAddress) (t : Tables) (v : View I R) (s : E)
      → Shows base64 signal t v
      → (load_session engine base64 signal a (t, s)).0 ≡ ok (v.sessions (signal.address_text a))
  unfolding load_session
  load_session-found a t v s shows =
      let k = signal.address_text a in
      let row = get t.device_session_store k in
      let (s', eq) = reading-run engine law (λ t. ok (get t.device_session_store k)) row t s refl in
      rw eq (Reads-decoded (session_text base64 signal) row (v.sessions k) (shows.sessions k))

  load_deniable_session-found :
      (a : ProtocolAddress) (t : Tables) (v : View I R) (s : E)
      → Shows base64 signal t v
      → (load_deniable_session engine base64 signal a (t, s)).0
        ≡ ok (v.deniable_sessions (signal.address_text a))
  unfolding load_deniable_session
  load_deniable_session-found a t v s shows =
      let k = signal.address_text a in
      let row = get t.deniable_device_session_store k in
      let (s', eq) =
        reading-run engine law (λ t. ok (get t.deniable_device_session_store k)) row t s refl in
      rw eq (
        Reads-decoded (session_text base64 signal) row (v.deniable_sessions k)
          (shows.deniable_sessions k))

  is_trusted_identity-known :
      (a : ProtocolAddress) (i : I) (t : Tables) (v : View I R) (s : E)
      → Shows base64 signal t v
      → (is_trusted_identity engine base64 signal a i (t, s)).0
        ≡ ok (trusts engine base64 signal i (v.identities (signal.address_text a)))
  unfolding is_trusted_identity
  is_trusted_identity-known a i t v s shows =
      let (s', eq) = get_identity-run engine base64 signal law base_law signal_law a t v s shows in
      rw eq refl

  is_trusted_deniable_identity-known :
      (a : ProtocolAddress) (i : I) (t : Tables) (v : View I R) (s : E)
      → Shows base64 signal t v
      → (is_trusted_deniable_identity engine base64 signal a i (t, s)).0
        ≡ ok (trusts engine base64 signal i (v.deniable_identities (signal.address_text a)))
  unfolding is_trusted_deniable_identity
  is_trusted_deniable_identity-known a i t v s shows =
      let (s', eq) =
        get_deniable_identity-run engine base64 signal law base_law signal_law a t v s shows in
      rw eq refl

  Shows-Answers :
      (t : Tables) (v : View I R) → Shows base64 signal t v → Answers engine base64 signal t v
  Shows-Answers t v h = record {
    pre_keys = λ k s. get_pre_key-found k t v s h;
    signed_pre_keys = λ k s. get_signed_pre_key-found k t v s h;
    kyber_pre_keys = λ k s. get_kyber_pre_key-found k t v s h;
    sessions = λ a s. load_session-found a t v s h;
    deniable_sessions = λ a s. load_deniable_session-found a t v s h;
    trusted = λ a i s. is_trusted_identity-known a i t v s h;
    deniably_trusted = λ a i s. is_trusted_deniable_identity-known a i t v s h;
  }

  empty-Shows : Shows base64 signal no_tables nothing
  unfolding get
  empty-Shows = record {
    pre_keys = λ k. tt;
    signed_pre_keys = λ k. tt;
    kyber_pre_keys = λ k. tt;
    sessions = λ k. tt;
    deniable_sessions = λ k. tt;
    identities = λ k. tt;
    deniable_identities = λ k. tt;
  }

  -- After any sequence of calls that save keys, sessions and identities or remove pre-keys, on a new
  -- database whose calls succeed, every read gives what was written last, or says that there is
  -- nothing: the database is a set of maps that do not affect each other. An identity is trusted
  -- exactly if none is known for the address, or it is the one that was saved last; and deniable
  -- sessions and identities are kept apart from the others.
  pub perform_all-Answers :
      (cs : List (Call I R)) (s : E)
      → Ends
          (perform_all engine base64 signal cs (no_tables, s))
          λ _ st. Answers engine base64 signal st.0 (after_all signal cs nothing)
  perform_all-Answers cs s =
      Ends-map {E = SignalProtocolError} {A = Unit {0}}
        (perform_all engine base64 signal cs (no_tables, s)) _ _
        (perform_all-Shows engine base64 signal law base_law signal_law cs no_tables nothing s
          empty-Shows)
        λ _ st shows. Shows-Answers st.0 (after_all signal cs nothing) shows
