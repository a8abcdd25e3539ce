-- ===== src/Storage/Device/History/Saves.antt =====
-- What the calls that change keys, sessions and identities leave in the tables.
use denim.Prelude.{ℕ, nat_eq, refl, string_eq, none, some, List, [], ◌∷◌}
use denim.Prelude.Equality.{Eq}
use denim.Prelude.Dict.{insert, remove}
use denim.Prelude.Effects.{Ends, go_on-Ends}
use denim.Account.{ProtocolAddress}
use denim.Redis.Entries.{Base64}
use denim.Redis.Entries.RoundTrip.{IsBase64}
use denim.KeyManagers.Client.{PreKeyRecord, SignedPreKeyRecord}
use denim.Storage.{SignalProtocolError, Libsignal, Tables, Engine}
use denim.Storage.Device.Keys.{
  save_pre_key, remove_pre_key, save_signed_pre_key, save_kyber_pre_key, store_session,
  store_deniable_session,
}
use denim.Storage.Device.Reliable.{IsReliable, IsLibsignal, Reads-insert, Reads-remove, writing-run}
use denim.Storage.Device.History.{
  View, Call, pre_key_saved, pre_key_removed, signed_pre_key_saved, kyber_pre_key_saved,
  session_stored, deniable_session_stored, identity_saved, deniable_identity_saved, put, after,
  after_all, perform, perform_all,
}
use denim.Storage.Device.History.Shows.{
  Shows, pre_key_text, signed_text, kyber_text, session_text, Shows-pre_keys, Shows-signed_pre_keys,
  Shows-kyber_pre_keys, Shows-sessions, Shows-deniable_sessions,
}
use denim.Storage.Device.History.Identities.{save_identity-Shows, save_deniable_identity-Shows}

module _ {E I P R N : Type 0} ⦃key : Eq I⦄ (engine : Engine E) (base64 : Base64)
    (signal : Libsignal I P R N) (law : IsReliable engine) (base_law : IsBase64 base64)
    (signal_law : IsLibsignal signal) where
  pub save_pre_key-Shows :
      (k : ℕ) (r : PreKeyRecord) (t : Tables) (v : View I R) (s : E)
      → Shows base64 signal t v
      → Ends
          (save_pre_key engine base64 signal k r (t, s))
          λ _ st. Shows base64 signal st.0 (after signal (pre_key_saved k r) v)
  unfolding save_pre_key
  save_pre_key-Shows k r t v s shows =
      let (bytes, written, readable) = signal_law.pre_keys.roundtrip r in
      let d = insert t.device_pre_key_store k (base64.encode bytes) in
      let (s', eq) =
        writing-run engine law
          (λ t. record t {
            device_pre_key_store = insert t.device_pre_key_store k (base64.encode bytes);
          })
          t s in
      rw (written, eq)
        (Shows-pre_keys base64 signal d (put v.pre_keys k (some r)) t v shows (
          Reads-insert (pre_key_text base64 signal) t.device_pre_key_store v.pre_keys k
            (base64.encode bytes) r (rw (base_law.decode-encode bytes, readable) refl)
            shows.pre_keys))

  pub save_signed_pre_key-Shows :
      (k : ℕ) (r : SignedPreKeyRecord) (t : Tables) (v : View I R) (s : E)
      → Shows base64 signal t v
      → Ends
          (save_signed_pre_key engine base64 signal k r (t, s))
          λ _ st. Shows base64 signal st.0 (after signal (signed_pre_key_saved k r) v)
  unfolding save_signed_pre_key
  save_signed_pre_key-Shows k r t v s shows =
      let (bytes, written, readable) = signal_law.signed_pre_keys.roundtrip r in
      let d = insert t.device_signed_pre_key_store k (base64.encode bytes) in
      let (s', eq) =
        writing-run engine law
          (λ t. record t {
            device_signed_pre_key_store =
                insert t.device_signed_pre_key_store k (base64.encode bytes);
          })
          t s in
      rw (written, eq)
        (Shows-signed_pre_keys base64 signal d (put v.signed_pre_keys k (some r)) t v shows (
          Reads-insert (signed_text base64 signal) t.device_signed_pre_key_store v.signed_pre_keys k
            (base64.encode bytes) r (rw (base_law.decode-encode bytes, readable) refl)
            shows.signed_pre_keys))

  pub save_kyber_pre_key-Shows :
      (k : ℕ) (r : SignedPreKeyRecord) (t : Tables) (v : View I R) (s : E)
      → Shows base64 signal t v
      → Ends
          (save_kyber_pre_key engine base64 signal k r (t, s))
          λ _ st. Shows base64 signal st.0 (after signal (kyber_pre_key_saved k r) v)
  unfolding save_kyber_pre_key
  save_kyber_pre_key-Shows k r t v s shows =
      let (bytes, written, readable) = signal_law.kyber_pre_keys.roundtrip r in
      let d = insert t.device_kyber_pre_key_store k (base64.encode bytes) in
      let (s', eq) =
        writing-run engine law
          (λ t. record t {
            device_kyber_pre_key_store =
                insert t.device_kyber_pre_key_store k (base64.encode bytes);
          })
          t s in
      rw (written, eq)
        (Shows-kyber_pre_keys base64 signal d (put v.kyber_pre_keys k (some r)) t v shows (
          Reads-insert (kyber_text base64 signal) t.device_kyber_pre_key_store v.kyber_pre_keys k
            (base64.encode bytes) r (rw (base_law.decode-encode bytes, readable) refl)
            shows.kyber_pre_keys))

  pub store_session-Shows :
      (k : ProtocolAddress) (r : R) (t : Tables) (v : View I R) (s : E)
      → Shows base64 signal t v
      → Ends
          (store_session engine base64 signal k r (t, s))
          λ _ st. Shows base64 signal st.0 (after signal (session_stored k r) v)
  unfolding store_session
  store_session-Shows k r t v s shows =
      let (bytes, written, readable) = signal_law.sessions.roundtrip r in
      let d = insert t.device_session_store (signal.address_text k) (base64.encode bytes) in
      let (s', eq) =
        writing-run engine law
          (λ t. record t {
            device_session_store =
                insert t.device_session_store (signal.address_text k) (base64.encode bytes);
          })
          t s in
      rw (written, eq)
        (Shows-sessions base64 signal d (put v.sessions (signal.address_text k) (some r)) t v shows
          (Reads-insert (session_text base64 signal) t.device_session_store v.sessions
            (signal.address_text k) (base64.encode bytes) r
            (rw (base_law.decode-encode bytes, readable) refl) shows.sessions))

  pub store_deniable_session-Shows :
      (k : ProtocolAddress) (r : R) (t : Tables) (v : View I R) (s : E)
      → Shows base64 signal t v
      → Ends
          (store_deniable_session engine base64 signal k r (t, s))
          λ _ st. Shows base64 signal st.0 (after signal (deniable_session_stored k r) v)
  unfolding store_deniable_session
  store_deniable_session-Shows k r t v s shows =
      let (bytes, written, readable) = signal_law.sessions.roundtrip r in
      let d =
        insert t.deniable_device_session_store (signal.address_text k) (base64.encode bytes) in
      let (s', eq) =
        writing-run engine law
          (λ t. record t {
            deniable_device_session_store =
                insert t.deniable_device_session_store (signal.address_text k)
                  (base64.encode bytes);
          })
          t s in
      rw (written, eq)
        (Shows-deniable_sessions base64 signal d
          (put v.deniable_sessions (signal.address_text k) (some r)) t v shows
          (Reads-insert (session_text base64 signal) t.deniable_device_session_store
            v.deniable_sessions (signal.address_text k) (base64.encode bytes) r
            (rw (base_law.decode-encode bytes, readable) refl) shows.deniable_sessions))

  pub remove_pre_key-Shows :
      (k : ℕ) (t : Tables) (v : View I R) (s : E)
      → Shows base64 signal t v
      → Ends
          (remove_pre_key engine base64 signal k (t, s))
          λ _ st. Shows base64 signal st.0 (after signal (pre_key_removed k) v)
  unfolding remove_pre_key
  remove_pre_key-Shows k t v s shows =
      let (s', eq) =
        writing-run engine law
          (λ t. record t { device_pre_key_store = remove t.device_pre_key_store k }) t s in
      rw eq (
        Shows-pre_keys base64 signal (remove t.device_pre_key_store k) (put v.pre_keys k none) t v
          shows
          (Reads-remove (pre_key_text base64 signal) t.device_pre_key_store v.pre_keys k
            shows.pre_keys))

  pub perform-Shows :
      (c : Call I R) (t : Tables) (v : View I R) (s : E)
      → Shows base64 signal t v
      → Ends
          (perform engine base64 signal c (t, s))
          λ _ st. Shows base64 signal st.0 (after signal c v)
  perform-Shows (pre_key_saved k r) t v s h = save_pre_key-Shows k r t v s h
  perform-Shows (pre_key_removed k) t v s h = remove_pre_key-Shows k t v s h
  perform-Shows (signed_pre_key_saved k r) t v s h = save_signed_pre_key-Shows k r t v s h
  perform-Shows (kyber_pre_key_saved k r) t v s h = save_kyber_pre_key-Shows k r t v s h
  perform-Shows (session_stored a r) t v s h = store_session-Shows a r t v s h
  perform-Shows (deniable_session_stored a r) t v s h = store_deniable_session-Shows a r t v s h
  perform-Shows (identity_saved a i) t v s h =
      save_identity-Shows engine base64 signal law base_law signal_law a i t v s h
  perform-Shows (deniable_identity_saved a i) t v s h =
      save_deniable_identity-Shows engine base64 signal law base_law signal_law a i t v s h

  pub perform_all-Shows :
      (cs : List (Call I R)) (t : Tables) (v : View I R) (s : E)
      → Shows base64 signal t v
      → Ends
          (perform_all engine base64 signal cs (t, s))
          λ _ st. Shows base64 signal st.0 (after_all signal cs v)
  perform_all-Shows [] t v s h = h
  perform_all-Shows (c ∷ cs) t v s h =
      go_on-Ends {E = SignalProtocolError} {A = Unit {0}} {B = Unit {0}}
        (perform engine base64 signal c (t, s)) _ _ _ (perform-Shows c t v s h)
        λ _ st shown. perform_all-Shows cs st.0 (after signal c v) st.1 shown
