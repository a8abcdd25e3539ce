-- ===== src/Storage/Device/History/Identities.antt =====
-- What a save of an identity leaves in the tables.
use denim.Prelude.{
  nat_eq, ◌≡◌, refl, ap, ◌∙◌, string_eq, some, ok, Bool-cases, inl, inr, Option-cases,
}
use denim.Prelude.Equality.{Eq}
use denim.Prelude.Dict.{get, insert}
use denim.Prelude.Effects.{Ends}
use denim.Account.{ProtocolAddress}
use denim.Redis.Entries.{Base64}
use denim.Redis.Entries.RoundTrip.{IsBase64}
use denim.Storage.{Libsignal, Tables, Engine}
use denim.Storage.Device.{
  get_identity, get_deniable_identity, save_identity, save_deniable_identity, insert_identity,
  insert_deniable_identity,
}
use denim.Storage.Device.Reliable.{
  IsReliable, IsLibsignal, Reads-insert, Reads-same, Reads-decoded, reading-run, writing-run,
}
use denim.Storage.Device.History.{
  View, identity_saved, deniable_identity_saved, put, after, perform,
}
use denim.Storage.Device.History.Shows.{
  Shows, identity_text, Shows-identities, Shows-deniable_identities,
}

module _ {E I P R N : Type 0} ⦃key : Eq I⦄ (engine : Engine E) (base64 : Base64)
    (signal : Libsignal I P R N) (law : IsReliable engine) (base_law : IsBase64 base64)
    (signal_law : IsLibsignal signal) where
  pub get_identity-run :
      (a : ProtocolAddress) (t : Tables) (v : View I R) (s : E)
      → Shows base64 signal t v
      → (s' : E) × (get_identity engine base64 signal a (t, s)
          ≡ (ok (v.identities (signal.address_text a)), (t, s')))
  unfolding get_identity
  get_identity-run a t v s shows =
      let (s', eq) =
        reading-run engine law (λ t. ok (get t.device_identity_key_store (signal.address_text a)))
          (get t.device_identity_key_store (signal.address_text a)) t s refl in
      (
        s',
        rw
            (
              eq,
              Reads-decoded (identity_text base64 signal)
                  (get t.device_identity_key_store (signal.address_text a))
                  (v.identities (signal.address_text a)) (shows.identities (signal.address_text a)),
            )
            refl,
      )

  pub get_deniable_identity-run :
      (a : ProtocolAddress) (t : Tables) (v : View I R) (s : E)
      → Shows base64 signal t v
      → (s' : E) × (get_deniable_identity engine base64 signal a (t, s)
          ≡ (ok (v.deniable_identities (signal.address_text a)), (t, s')))
  unfolding get_deniable_identity
  get_deniable_identity-run a t v s shows =
      let k = signal.address_text a in
      let row = get t.deniable_device_identity_key_store k in
      let (s', eq) =
        reading-run engine law (λ t. ok (get t.deniable_device_identity_key_store k)) row t s
          refl in
      (
        s',
        rw
            (
              eq,
              Reads-decoded (identity_text base64 signal) row (v.deniable_identities k)
                  (shows.deniable_identities k),
            )
            refl,
      )

  pub insert_identity-Shows :
      (a : ProtocolAddress) (i : I) (t : Tables) (v : View I R) (s : E)
      → Shows base64 signal t v
      → (s' : E) × (t' : Tables) × (insert_identity engine base64 signal a i (t, s)
          ≡ (ok tt, (t', s')))
        × Shows base64 signal t' (after signal (identity_saved a i) v)
  unfolding insert_identity
  insert_identity-Shows a i t v s shows =
      let k = signal.address_text a in
      let text = base64.encode (signal.serialize_identity i) in
      let (s', eq) =
        writing-run engine law
          (λ t. record t { device_identity_key_store = insert t.device_identity_key_store k text })
          t s in
      (
        s',
        record t { device_identity_key_store = insert t.device_identity_key_store k text },
        eq,
        Shows-identities base64 signal (insert t.device_identity_key_store k text)
            (put v.identities k (some i)) t v shows
            (Reads-insert (identity_text base64 signal) t.device_identity_key_store v.identities k
              text i
              (rw (base_law.decode-encode (signal.serialize_identity i), signal_law.identities i)
                refl)
              shows.identities),
      )

  pub insert_deniable_identity-Shows :
      (a : ProtocolAddress) (i : I) (t : Tables) (v : View I R) (s : E)
      → Shows base64 signal t v
      → (s' : E) × (t' : Tables) × (insert_deniable_identity engine base64 signal a i (t, s)
          ≡ (ok tt, (t', s')))
        × Shows base64 signal t' (after signal (deniable_identity_saved a i) v)
  unfolding insert_deniable_identity
  insert_deniable_identity-Shows a i t v s shows =
      let k = signal.address_text a in
      let text = base64.encode (signal.serialize_identity i) in
      let (s', eq) =
        writing-run engine law
          (λ t. record t {
            deniable_device_identity_key_store = insert t.deniable_device_identity_key_store k text;
          })
          t s in
      (
        s',
        record t {
          deniable_device_identity_key_store = insert t.deniable_device_identity_key_store k text;
        },
        eq,
        Shows-deniable_identities base64 signal (insert t.deniable_device_identity_key_store k text)
            (put v.deniable_identities k (some i)) t v shows
            (Reads-insert (identity_text base64 signal) t.deniable_device_identity_key_store
              v.deniable_identities k text i
              (rw (base_law.decode-encode (signal.serialize_identity i), signal_law.identities i)
                refl)
              shows.deniable_identities),
      )

  pub save_identity-Shows :
      (a : ProtocolAddress) (i : I) (t : Tables) (v : View I R) (s : E)
      → Shows base64 signal t v
      → Ends
          (perform engine base64 signal (identity_saved a i) (t, s))
          λ _ st. Shows base64 signal st.0 (after signal (identity_saved a i) v)
  unfolding save_identity
  save_identity-Shows a i t v s shows =
      let k = signal.address_text a in
      let (s', eq) = get_identity-run a t v s shows in
      let (s2, t2, stored, shown) = insert_identity-Shows a i t v s' shows in
      elim (Option-cases (v.identities k)) [
        | inl unknown ↦ rw (eq, unknown, stored) shown
        | inr (known, h) ↦ elim (Bool-cases (key.eqb known i)) [
          | inl same ↦
              rw (eq, h, same)
                (Shows-identities base64 signal t.device_identity_key_store
                  (put v.identities k (some i)) t v shows
                  (Reads-same (identity_text base64 signal) t.device_identity_key_store v.identities
                    k i (h ∙ ap some ((key.eqb_iff known i).0 same)) shows.identities))
          | inr other ↦ rw (eq, h, other, stored) shown
        ]
      ]

  pub save_deniable_identity-Shows :
      (a : ProtocolAddress) (i : I) (t : Tables) (v : View I R) (s : E)
      → Shows base64 signal t v
      → Ends
          (perform engine base64 signal (deniable_identity_saved a i) (t, s))
          λ _ st. Shows base64 signal st.0 (after signal (deniable_identity_saved a i) v)
  unfolding save_deniable_identity
  save_deniable_identity-Shows a i t v s shows =
      let k = signal.address_text a in
      let (s', eq) = get_deniable_identity-run a t v s shows in
      let (s2, t2, stored, shown) = insert_deniable_identity-Shows a i t v s' shows in
      elim (Option-cases (v.deniable_identities k)) [
        | inl unknown ↦ rw (eq, unknown, stored) shown
        | inr (known, h) ↦ elim (Bool-cases (key.eqb known i)) [
          | inl same ↦
              rw (eq, h, same)
                (Shows-deniable_identities base64 signal t.deniable_device_identity_key_store
                  (put v.deniable_identities k (some i)) t v shows
                  (Reads-same (identity_text base64 signal) t.deniable_device_identity_key_store
                    v.deniable_identities k i (h ∙ ap some ((key.eqb_iff known i).0 same))
                    shows.deniable_identities))
          | inr other ↦ rw (eq, h, other, stored) shown
        ]
      ]
