-- ===== src/Postgres/PreKeys.antt =====
-- server/src/storage/postgres.rs: the signed keys of a device.
use denim.Prelude.{
  ℕ, Bool, ◌&&◌, String, Option, none, some, List, [], ◌∷◌, ◌++◌, map, ok, err, Run, or_panic, ◌==◌,
  ◌>>=◌, if◌then◌else◌,
}
use denim.Prelude.Effects as effects
use denim.Text.{decimal, parse_u32, text_eqb}
use denim.Account.{ProtocolAddress, ServiceId, aci_id, pni_id, ServiceIds}
use denim.WebApi.{UploadSignedPreKey, DevicePreKeyBundle}
use denim.Postgres.{
  DeviceRow, SignedKeyRow, DeviceKeysRow, Tables, Engine, Steps, called, reading, writing,
  transaction, first_row, where_rows, any_row, addressed_devices, is_one_of,
}

-- `INSERT … ON CONFLICT (key_id, owner) DO UPDATE`, for one device, then for all that are found.
unfoldable pub upsert_key :
    (List ℕ → ℕ) → ℕ → UploadSignedPreKey → List SignedKeyRow → List SignedKeyRow
unfolding decimal
upsert_key fresh_id owner spk rows =
    if any_row same rows
    then map {A = SignedKeyRow} (λ r. if same r then replaced r else r) rows
    else record {
      id = fresh_id (map (λ r. r.id) rows);
      owner = owner;
      key_id = decimal spk.key_id;
      public_key = spk.public_key;
      signature = spk.signature;
    }
      ∷ rows
  where
    same : SignedKeyRow → Bool
    same r = r.owner == owner && text_eqb r.key_id (decimal spk.key_id)

    replaced : SignedKeyRow → SignedKeyRow
    replaced r = record r {
      key_id = decimal spk.key_id;
      public_key = spk.public_key;
      signature = spk.signature;
    }

unfoldable pub upsert_keys :
    (List ℕ → ℕ) → List DeviceRow → UploadSignedPreKey → List SignedKeyRow → List SignedKeyRow
unfolding upsert_key
upsert_keys fresh_id [] spk rows = rows
upsert_keys fresh_id (d ∷ ds) spk rows =
    upsert_keys fresh_id ds spk (upsert_key fresh_id d.id spk rows)

-- A row as a key: the identifier is parsed.
abbrev pub signed_key_of : SignedKeyRow → Run UploadSignedPreKey
signed_key_of r = or_panic (parse_u32 r.key_id) >>= λ id.
    ok (record { key_id = id; public_key = r.public_key; signature = r.signature })

abbrev pub rows_with_id : ℕ → List SignedKeyRow → List SignedKeyRow
rows_with_id id rows = where_rows (λ r. r.id == id) rows

abbrev pub rows_of_owner : ℕ → List SignedKeyRow → List SignedKeyRow
rows_of_owner owner rows = where_rows (λ r. r.owner == owner) rows

-- `INNER JOIN`: the rows for each row.
abbrev pub flat : {A B : Type 0} → List A → (A → List B) → List B
flat [] f = []
flat (a ∷ rows) f = f a ++ flat rows f

-- The rows of `device_keys` for devices: one for each combination of their keys.
unfoldable pub device_keys_rows : Tables → List DeviceRow → List DeviceKeysRow
device_keys_rows t ds = flat ds λ d. flat (rows_of_owner d.id t.aci_signed_pre_key_store) λ ka.
    flat (rows_of_owner d.id t.pni_signed_pre_key_store) λ kp.
      flat (rows_of_owner d.id t.aci_pq_last_resort_pre_key_store) λ qa.
        map {A = SignedKeyRow}
          (λ qp. record {
            owner = d.id;
            aci_signed_pre_key = ka.id;
            pni_signed_pre_key = kp.id;
            aci_pq_last_resort_pre_key = qa.id;
            pni_pq_last_resort_pre_key = qp.id;
          })
          (rows_of_owner d.id t.pni_pq_last_resort_pre_key_store)

-- The keys that a row of `device_keys` refers to.
unfoldable pub bundle_rows :
    Tables → DeviceKeysRow → List (SignedKeyRow × SignedKeyRow × SignedKeyRow × SignedKeyRow)
bundle_rows t k = flat (rows_with_id k.aci_signed_pre_key t.aci_signed_pre_key_store) λ ka.
    flat (rows_with_id k.pni_signed_pre_key t.pni_signed_pre_key_store) λ kp.
      flat (rows_with_id k.aci_pq_last_resort_pre_key t.aci_pq_last_resort_pre_key_store) λ qa.
        map {A = SignedKeyRow} (λ qp. (ka, kp, qa, qp))
          (rows_with_id k.pni_pq_last_resort_pre_key t.pni_pq_last_resort_pre_key_store)

unfoldable pub bundle_of :
    SignedKeyRow × SignedKeyRow × SignedKeyRow × SignedKeyRow → Run DevicePreKeyBundle
unfolding parse_u32
bundle_of (ka, kp, qa, qp) = do
  aci_signed ← signed_key_of ka
  pni_signed ← signed_key_of kp
  aci_pq ← signed_key_of qa
  pni_pq ← signed_key_of qp
  ok (record {
    aci_signed_pre_key = aci_signed;
    pni_signed_pre_key = pni_signed;
    aci_pq_pre_key = aci_pq;
    pni_pq_pre_key = pni_pq;
  })

module _ {E : Type 0} (engine : Engine E) (ids : ServiceIds) where
  unfoldable pub store_aci_signed_pre_key :
      UploadSignedPreKey → ProtocolAddress → Steps E (Unit {0})
  unfolding upsert_keys
  store_aci_signed_pre_key spk address = writing engine λ t. addressed_devices address t >>= λ ds.
      ok (record t {
        aci_signed_pre_key_store = upsert_keys engine.fresh_id ds spk t.aci_signed_pre_key_store;
      })

  unfoldable pub store_pni_signed_pre_key :
      UploadSignedPreKey → ProtocolAddress → Steps E (Unit {0})
  unfolding upsert_keys
  store_pni_signed_pre_key spk address = writing engine λ t. addressed_devices address t >>= λ ds.
      ok (record t {
        pni_signed_pre_key_store = upsert_keys engine.fresh_id ds spk t.pni_signed_pre_key_store;
      })

  unfoldable pub store_pq_aci_signed_pre_key :
      UploadSignedPreKey → ProtocolAddress → Steps E (Unit {0})
  unfolding upsert_keys
  store_pq_aci_signed_pre_key spk address = writing engine λ t.
      addressed_devices address t >>= λ ds. ok (record t {
        aci_pq_last_resort_pre_key_store =
            upsert_keys engine.fresh_id ds spk t.aci_pq_last_resort_pre_key_store;
      })

  unfoldable pub store_pq_pni_signed_pre_key :
      UploadSignedPreKey → ProtocolAddress → Steps E (Unit {0})
  unfolding upsert_keys
  store_pq_pni_signed_pre_key spk address = writing engine λ t.
      addressed_devices address t >>= λ ds. ok (record t {
        pni_pq_last_resort_pre_key_store =
            upsert_keys engine.fresh_id ds spk t.pni_pq_last_resort_pre_key_store;
      })

  -- The kind of an address, and what is done for each.
  abbrev pub by_kind : String → Steps E (Unit {0}) → Steps E (Unit {0}) → Steps E (Unit {0})
  by_kind name of_aci of_pni = choose (ids.parse name)
    where
      choose : Option ServiceId → Steps E (Unit {0})
      choose none = effects.lift (err "Invalid service id")
      choose (some (aci_id a)) = effects.◌>>◌ (called engine.acquire) of_aci
      choose (some (pni_id p)) = effects.◌>>◌ (called engine.acquire) of_pni

  unfoldable pub store_signed_pre_key : UploadSignedPreKey → ProtocolAddress → Steps E (Unit {0})
  unfolding store_aci_signed_pre_key store_pni_signed_pre_key
  store_signed_pre_key spk address =
      by_kind address.name (store_aci_signed_pre_key spk address)
        (store_pni_signed_pre_key spk address)

  unfoldable pub store_pq_signed_pre_key : UploadSignedPreKey → ProtocolAddress → Steps E (Unit {0})
  unfolding store_pq_aci_signed_pre_key store_pq_pni_signed_pre_key
  store_pq_signed_pre_key spk address =
      by_kind address.name (store_pq_aci_signed_pre_key spk address)
        (store_pq_pni_signed_pre_key spk address)

  unfoldable pub store_key_bundle : DevicePreKeyBundle → ProtocolAddress → Steps E (Unit {0})
  unfolding store_aci_signed_pre_key store_pni_signed_pre_key store_pq_aci_signed_pre_key
      store_pq_pni_signed_pre_key device_keys_rows
  store_key_bundle data_of address = transaction engine (
      effects.◌>>◌ (store_aci_signed_pre_key data_of.aci_signed_pre_key address) (
        effects.◌>>◌ (store_pni_signed_pre_key data_of.pni_signed_pre_key address) (
          effects.◌>>◌ (store_pq_aci_signed_pre_key data_of.aci_pq_pre_key address) (
            effects.◌>>◌ (store_pq_pni_signed_pre_key data_of.pni_pq_pre_key address) (
              writing engine λ t. addressed_devices address t >>= λ ds.
              ok (record t { device_keys = t.device_keys ++ device_keys_rows t ds }))))))

  unfoldable pub get_key_bundle : ProtocolAddress → Steps E DevicePreKeyBundle
  unfolding bundle_rows bundle_of
  get_key_bundle address = reading engine λ t. addressed_devices address t >>= λ ds.
      first_row (
        engine.arrange
          (flat (where_rows (λ k. is_one_of ds k.owner) t.device_keys) (bundle_rows t)))
      >>= bundle_of
