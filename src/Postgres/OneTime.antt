-- ===== src/Postgres/OneTime.antt =====
-- server/src/storage/postgres.rs: the one-time keys of a device.
use denim.Prelude.{
  ℕ, not, ◌&&◌, Option, none, some, List, [], ◌∷◌, length, ok, Run, or_panic, ◌==◌, ◌>>=◌,
  if◌then◌else◌,
}
use denim.Prelude.Effects as effects
use denim.Text.{decimal, parse_u32, text_eqb}
use denim.Account.{ProtocolAddress, ServiceId, ServiceIds, service_id_string}
use denim.WebApi.{UploadPreKey, UploadSignedPreKey}
use denim.Postgres.{
  DeviceRow, OneTimeKeyRow, OneTimePqKeyRow, Tables, Engine, Steps, reading, writing, statement,
  transaction, first_row, where_rows, any_row, owned_devices, addressed_devices, is_one_of,
}
use denim.Postgres.Accounts.{violation}
use denim.Postgres.Inbox.{u32_of}

module _ {E : Type 0} (engine : Engine E) (ids : ServiceIds) where
  unfoldable pub get_one_time_ec_pre_key_count : ServiceId → Steps E ℕ
  get_one_time_ec_pre_key_count service_id = reading engine λ t.
      owned_devices (service_id_string ids service_id) t >>= λ ds.
      ok (u32_of (length (where_rows (λ r. is_one_of ds r.owner) t.one_time_ec_pre_key_store)))

  unfoldable pub get_one_time_pq_pre_key_count : ServiceId → Steps E ℕ
  get_one_time_pq_pre_key_count service_id = reading engine λ t.
      owned_devices (service_id_string ids service_id) t >>= λ ds.
      ok (u32_of (length (where_rows (λ r. is_one_of ds r.owner) t.one_time_pq_pre_key_store)))

  -- A key for each device that is found.
  unfoldable pub insert_ec_key : List DeviceRow → UploadPreKey → Tables → Run Tables
  unfolding decimal
  insert_ec_key [] otpk t = ok t
  insert_ec_key (d ∷ ds) otpk t =
      let more = insert_ec_key ds otpk (record t {
        one_time_ec_pre_key_store =
            record { owner = d.id; key_id = decimal otpk.key_id; public_key = otpk.public_key }
            ∷ t.one_time_ec_pre_key_store;
      }) in
      if any_row (λ r. r.owner == d.id && text_eqb r.key_id (decimal otpk.key_id))
        t.one_time_ec_pre_key_store
      then violation
      else more

  unfoldable pub insert_pq_key : List DeviceRow → UploadSignedPreKey → Tables → Run Tables
  unfolding decimal
  insert_pq_key [] otpk t = ok t
  insert_pq_key (d ∷ ds) otpk t =
      let more = insert_pq_key ds otpk (record t {
        one_time_pq_pre_key_store =
            record {
              owner = d.id;
              key_id = decimal otpk.key_id;
              public_key = otpk.public_key;
              signature = some otpk.signature;
            }
            ∷ t.one_time_pq_pre_key_store;
      }) in
      if any_row (λ r. r.owner == d.id && text_eqb r.key_id (decimal otpk.key_id))
        t.one_time_pq_pre_key_store
      then violation
      else more

  -- The `for` over the keys of a request.
  abbrev pub insert_each :
      {K : Type 0}
      → (List DeviceRow → K → Tables → Run Tables)
      → ProtocolAddress
      → List K
      → Steps E (Unit {0})
  insert_each insert owner [] = effects.return tt
  insert_each insert owner (k ∷ keys) =
      effects.◌>>◌ (writing engine λ t. addressed_devices owner t >>= λ ds. insert ds k t)
        (insert_each insert owner keys)

  unfoldable pub store_one_time_ec_pre_keys :
      List UploadPreKey → ProtocolAddress → Steps E (Unit {0})
  unfolding insert_ec_key
  store_one_time_ec_pre_keys otpks owner = transaction engine (
      effects.◌>>◌
        (writing engine λ t. addressed_devices owner t >>= λ ds. ok (record t {
          one_time_ec_pre_key_store =
              where_rows (λ r. not (is_one_of ds r.owner)) t.one_time_ec_pre_key_store;
        }))
        (insert_each insert_ec_key owner otpks))

  unfoldable pub store_one_time_pq_pre_keys :
      List UploadSignedPreKey → ProtocolAddress → Steps E (Unit {0})
  unfolding insert_pq_key
  store_one_time_pq_pre_keys otpks owner = transaction engine (
      effects.◌>>◌
        (writing engine λ t. addressed_devices owner t >>= λ ds. ok (record t {
          one_time_pq_pre_key_store =
              where_rows (λ r. not (is_one_of ds r.owner)) t.one_time_pq_pre_key_store;
        }))
        (insert_each insert_pq_key owner otpks))

  -- The row that `LIMIT 1` leaves is taken out: the owner and the `key_id` are those of one row only.
  abbrev pub take_ec_row : List OneTimeKeyRow → Tables → Option OneTimeKeyRow × Tables
  take_ec_row [] t = (none, t)
  take_ec_row (k ∷ rows) t = (
    some k,
    record t {
      one_time_ec_pre_key_store =
          where_rows (λ r. not (r.owner == k.owner && text_eqb r.key_id k.key_id))
            t.one_time_ec_pre_key_store;
    },
  )

  abbrev pub take_pq_row : List OneTimePqKeyRow → Tables → Option OneTimePqKeyRow × Tables
  take_pq_row [] t = (none, t)
  take_pq_row (k ∷ rows) t = (
    some k,
    record t {
      one_time_pq_pre_key_store =
          where_rows (λ r. not (r.owner == k.owner && text_eqb r.key_id k.key_id))
            t.one_time_pq_pre_key_store;
    },
  )

  -- No row is no error here.
  abbrev pub ec_key_of : Option OneTimeKeyRow → Run (Option UploadPreKey)
  ec_key_of none = ok none
  ec_key_of (some r) = or_panic (parse_u32 r.key_id) >>= λ id.
      ok (some (record { key_id = id; public_key = r.public_key }))

  abbrev pub pq_key_of : Option OneTimePqKeyRow → Run UploadSignedPreKey
  pq_key_of none = first_row []
  pq_key_of (some r) = or_panic (parse_u32 r.key_id) >>= λ id. or_panic r.signature >>= λ signature.
      ok (record { key_id = id; public_key = r.public_key; signature = signature })

  unfoldable pub get_one_time_ec_pre_key : ProtocolAddress → Steps E (Option UploadPreKey)
  unfolding parse_u32
  get_one_time_ec_pre_key owner =
      effects.◌>>=◌
        (statement engine λ t. addressed_devices owner t >>= λ ds. ok (
          take_ec_row
            (engine.arrange (where_rows (λ r. is_one_of ds r.owner) t.one_time_ec_pre_key_store))
            t))
        λ row. effects.lift (ec_key_of row)

  unfoldable pub get_one_time_pq_pre_key : ProtocolAddress → Steps E UploadSignedPreKey
  unfolding parse_u32
  get_one_time_pq_pre_key owner =
      effects.◌>>=◌
        (statement engine λ t. addressed_devices owner t >>= λ ds. ok (
          take_pq_row
            (engine.arrange (where_rows (λ r. is_one_of ds r.owner) t.one_time_pq_pre_key_store))
            t))
        λ row. effects.lift (pq_key_of row)
