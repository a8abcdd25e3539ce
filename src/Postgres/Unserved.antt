-- ===== src/Postgres/Unserved.antt =====
-- server/src/storage/postgres.rs: a signed pre-key that is stored, and the bundle that is handed out.
use denim.Prelude.{
  ℕ, ◌≡◌, refl, sym, ap, ◌∙◌, Bool, true, false, ◌&&◌, ◌==◌, String, some, List, [], ◌∷◌, ◌++◌, map,
  ok, arith, Bool-cases, inl, inr,
}
use denim.Prelude as errors
use denim.Prelude.Effects.{Gives, Gives-map}
use denim.Text.{decimal, text_eqb}
use denim.Account.{ProtocolAddress, aci_id, ServiceIds}
use denim.WebApi.{UploadSignedPreKey}
use denim.Postgres.{
  DeviceRow, SignedKeyRow, DeviceKeysRow, Tables, Engine, where_rows, any_row, first_row,
  addressed_devices, is_one_of,
}
use denim.Postgres.PreKeys.{
  upsert_key, upsert_keys, store_aci_signed_pre_key, store_signed_pre_key, get_key_bundle,
  bundle_of, bundle_rows, flat,
}
use denim.Postgres.Reliable.{after_call, addressed-Gives}
use denim.Postgres.Reading.{IsPostgres, unless_taken, bind_same, any_row-map, reading_same}

-- Whether the rows of `device_keys` refer to keys that are there.
abbrev pub refers : List SignedKeyRow → List DeviceKeysRow → Bool
refers rows [] = true
refers rows (k ∷ ks) = any_row (λ r. r.id == k.aci_signed_pre_key) rows && refers rows ks

abbrev pub with_aci_keys : Tables → List SignedKeyRow → Tables
with_aci_keys t rows = record t { aci_signed_pre_key_store = rows }

not_new :
    (n m : ℕ) (rows : List SignedKeyRow)
    → any_row (λ r. r.id == n) rows ≡ false
    → any_row (λ r. r.id == m) rows ≡ true
    → (n == m) ≡ false
not_new n m [] h found = ground (arith, found)
not_new n m (r ∷ rows) h found = elim (Bool-cases (any_row (λ r. r.id == m) rows)) [
  | inl behind ↦ not_new n m rows (ground (arith, h)) behind
  | inr first ↦ ground (arith, h, found, first)
]

bundle_rows-unserved :
    (t : Tables) (new : SignedKeyRow) (k : DeviceKeysRow)
    → (new.id == k.aci_signed_pre_key) ≡ false
    → bundle_rows (with_aci_keys t (new ∷ t.aci_signed_pre_key_store)) k ≡ bundle_rows t k
unfolding bundle_rows
bundle_rows-unserved t new k other = rw other refl

flat-unserved :
    (t : Tables) (new : SignedKeyRow) (p : DeviceKeysRow → Bool) (ks : List DeviceKeysRow)
    → any_row (λ r. r.id == new.id) t.aci_signed_pre_key_store ≡ false
    → refers t.aci_signed_pre_key_store ks ≡ true
    → flat (where_rows p ks) (bundle_rows (with_aci_keys t (new ∷ t.aci_signed_pre_key_store)))
      ≡ flat (where_rows p ks) (bundle_rows t)
flat-unserved t new p [] fresh held = refl
flat-unserved t new p (k ∷ ks) fresh held =
    let there : any_row (λ r. r.id == k.aci_signed_pre_key) t.aci_signed_pre_key_store ≡ true =
      ground (arith, held) in
    let rest = flat-unserved t new p ks fresh (ground (arith, held)) in
    elim (Bool-cases (p k)) [
      | inl chosen ↦
          rw
            (
              chosen,
              bundle_rows-unserved t new k
                  (not_new new.id k.aci_signed_pre_key t.aci_signed_pre_key_store fresh there),
            )
            (ap (λ rows. bundle_rows t k ++ rows) rest)
      | inr left ↦ rw left rest
    ]

-- The row of a new key.
abbrev pub key_row : (List ℕ → ℕ) → ℕ → UploadSignedPreKey → List SignedKeyRow → SignedKeyRow
key_row fresh_id owner spk rows = record {
  id = fresh_id (map (λ r. r.id) rows);
  owner = owner;
  key_id = decimal spk.key_id;
  public_key = spk.public_key;
  signature = spk.signature;
}

upsert_key-new :
    (fresh_id : List ℕ → ℕ) (owner : ℕ) (spk : UploadSignedPreKey) (rows : List SignedKeyRow)
    → any_row (λ r. r.owner == owner && text_eqb r.key_id (decimal spk.key_id)) rows ≡ false
    → upsert_key fresh_id owner spk rows ≡ key_row fresh_id owner spk rows ∷ rows
unfolding upsert_key decimal
upsert_key-new fresh_id owner spk rows unused = rw unused refl

module _ {E : Type 0} (engine : Engine E) (law : IsPostgres engine) (ids : ServiceIds) where
  get_key_bundle-kept :
      (t : Tables) (new : SignedKeyRow) (other : ProtocolAddress) (s : E)
      → any_row (λ r. r.id == new.id) t.aci_signed_pre_key_store ≡ false
      → refers t.aci_signed_pre_key_store t.device_keys ≡ true
      → (get_key_bundle engine ids other (with_aci_keys t (new ∷ t.aci_signed_pre_key_store), s)).0
        ≡ (get_key_bundle engine ids other (t, s)).0
  unfolding get_key_bundle
  get_key_bundle-kept t new other s fresh held =
      reading_same engine _ (with_aci_keys t (new ∷ t.aci_signed_pre_key_store)) t s (
        bind_same (addressed_devices other t) _ _ λ ds.
          ap (λ rows. errors.◌>>=◌ (first_row (engine.arrange rows)) bundle_of)
            (flat-unserved t new (λ k. is_one_of ds k.owner) t.device_keys fresh held))

  -- A signed pre-key that a device stores under a new number is not handed out: whatever bundle is asked
  -- for next is what it was before. Given that the address is an ACI and a single device's, that the
  -- device has no key of this number, that the ACI keys of bundles are there, and that a new row gets an
  -- identifier that no row has.
  pub store_signed_pre_key-unserved :
      (spk : UploadSignedPreKey) (address : ProtocolAddress) (aci : String) (d : DeviceRow)
      (t : Tables) (s : E)
      → ids.parse address.name ≡ some (aci_id aci)
      → addressed_devices address t ≡ ok (d ∷ [])
      → any_row
          (λ r. r.owner == d.id && text_eqb r.key_id (decimal spk.key_id))
          t.aci_signed_pre_key_store
        ≡ false
      → refers t.aci_signed_pre_key_store t.device_keys ≡ true
      → Gives (store_signed_pre_key engine ids spk address (t, s)) λ _ st.
        (other : ProtocolAddress) (s' : E)
        → (get_key_bundle engine ids other (st.0, s')).0
          ≡ (get_key_bundle engine ids other (t, s')).0
  unfolding store_signed_pre_key store_aci_signed_pre_key upsert_keys
  store_signed_pre_key-unserved spk address aci d t s kind found unused held = rw kind (
      after_call (engine.acquire s) t _ _ λ s1.
        Gives-map {S = Tables × E} {E = String} {A = Unit {0}}
          (store_aci_signed_pre_key engine ids spk address (t, s1))
          (λ _ st.
            st.0 ≡ with_aci_keys t (upsert_key engine.fresh_id d.id spk t.aci_signed_pre_key_store))
          _
          (addressed-Gives engine
            (λ ds t.
              ok (with_aci_keys t (upsert_keys engine.fresh_id ds spk t.aci_signed_pre_key_store)))
            address (d ∷ []) t s1 _ found λ t' h. (unless_taken false _ t' h).0)
          λ _ st stored other s'.
            let rows = t.aci_signed_pre_key_store in
            let new = key_row engine.fresh_id d.id spk rows in
            let free : any_row (λ r. r.id == new.id) rows ≡ false =
              sym (any_row-map new.id rows) ∙ law.fresh (map (λ r. r.id) rows) in
            ap (λ x. (get_key_bundle engine ids other (x, s')).0)
              (stored ∙ ap (with_aci_keys t) (upsert_key-new engine.fresh_id d.id spk rows unused))
            ∙ get_key_bundle-kept t new other s' free held)
