-- ===== src/KeyManagers/Server.antt =====
-- server/src/managers/key_manager.rs. The database and libsignal are parameters.
pub mod Uploads
use denim.Prelude.{
  ℕ, ◌+◌, ◌/◌, ◌%◌, Bool, true, false, not, String, Option, none, some, List, [], ◌∷◌, ◌++◌,
  Outcome, ok, err, panic, Run, or_err, ◌==◌, if◌then◌else◌,
}
use denim.Prelude.Effects.{Action, return, lift, on_err, ◌>>=◌, ◌>>◌}
use denim.Text.{Text, codes, parse_u32, text_eqb}
use denim.Account.{
  Account, Device, AuthenticatedDevice, ServiceId, aci_id, pni_id, ServiceIds, ServiceIdKind,
  aci_kind, pni_kind, ProtocolAddress, service_id_string, device_protocol_address,
}
use denim.WebApi.{
  SetKeyRequest, UploadPreKey, UploadSignedPreKey, DevicePreKeyBundle, PreKeyResponse,
  PreKeyResponseItem,
}
use denim.Validators.{Verify}
use denim.Server.{ApiError, unauthorized, internal_server_error}

-- What the manager asks of the database (server/src/storage/database.rs).
pub record KeyDatabase (S : Type 0) : Type 0 where
  pub store_one_time_ec_pre_keys : List UploadPreKey → ProtocolAddress → Action S String (Unit {0})
  pub store_signed_pre_key : UploadSignedPreKey → ProtocolAddress → Action S String (Unit {0})
  pub store_one_time_pq_pre_keys :
      List UploadSignedPreKey → ProtocolAddress → Action S String (Unit {0})
  pub store_pq_signed_pre_key : UploadSignedPreKey → ProtocolAddress → Action S String (Unit {0})
  pub get_key_bundle : ProtocolAddress → Action S String DevicePreKeyBundle
  pub get_one_time_ec_pre_key : ProtocolAddress → Action S String (Option UploadPreKey)
  pub get_account : ServiceId → Action S String Account
  pub get_device : ProtocolAddress → Action S String Device
  pub get_all_devices : ServiceId → Action S String (List Device)
  pub get_one_time_ec_pre_key_count : ServiceId → Action S String ℕ
  pub get_one_time_pq_pre_key_count : ServiceId → Action S String ℕ

abbrev pub invalid_signature : ApiError
invalid_signature = record { status_code = 422; body = "Invalid signature" }

abbrev pub database_fault : ApiError
database_fault = internal_server_error "Database fault"

-- `identity_key` of the account for a kind of identity.
abbrev pub identity_key_of : Account → ServiceIdKind → List ℕ
identity_key_of a aci_kind = a.aci_identity_key
identity_key_of a pni_kind = a.pni_identity_key

-- What a service id selects of a bundle and of an account.
abbrev pub pq_pre_key_for : ServiceId → DevicePreKeyBundle → UploadSignedPreKey
pq_pre_key_for (aci_id a) bundle = bundle.aci_pq_pre_key
pq_pre_key_for (pni_id p) bundle = bundle.pni_pq_pre_key

abbrev pub signed_pre_key_for : ServiceId → DevicePreKeyBundle → UploadSignedPreKey
signed_pre_key_for (aci_id a) bundle = bundle.aci_signed_pre_key
signed_pre_key_for (pni_id p) bundle = bundle.pni_signed_pre_key

abbrev pub target_identity_key : ServiceId → Account → List ℕ
target_identity_key (aci_id a) account = account.aci_identity_key
target_identity_key (pni_id p) account = account.pni_identity_key

-- `to_be_bytes` of a `u32`.
abbrev pub to_be_bytes : ℕ → List ℕ
to_be_bytes n = n / 16777216 % 256 ∷ n / 65536 % 256 ∷ n / 256 % 256 ∷ n % 256 ∷ []

abbrev pub key_bytes : UploadSignedPreKey → List ℕ
key_bytes k = to_be_bytes k.key_id ++ k.public_key

-- What the digest of `handle_post_keycheck` is updated with.
unfoldable pub digested : List ℕ → ServiceIdKind → DevicePreKeyBundle → List ℕ
digested key aci_kind bundle =
    key ++ key_bytes bundle.aci_signed_pre_key ++ key_bytes bundle.aci_pq_pre_key
digested key pni_kind bundle =
    key ++ key_bytes bundle.pni_signed_pre_key ++ key_bytes bundle.pni_pq_pre_key

module _ {S : Type 0} (ids : ServiceIds) (verify : Verify) (db : KeyDatabase S) where
  -- The closure `verify_key`; an error of libsignal is unwrapped.
  unfoldable pub verify_key : List ℕ → UploadSignedPreKey → Outcome ApiError (Unit {0})
  verify_key identity_key prekey = elim (verify identity_key prekey.public_key prekey.signature) [
    | none ↦ panic
    | some true ↦ ok tt
    | some false ↦ err invalid_signature
  ]

  unfoldable pub verify_keys : List ℕ → List UploadSignedPreKey → Action S ApiError (Unit {0})
  unfolding verify_key
  verify_keys identity_key [] = return tt
  verify_keys identity_key (k ∷ ks) = do
    lift (verify_key identity_key k)
    verify_keys identity_key ks

  -- `.map(…).transpose()?` on what may be absent.
  abbrev pub optional :
      {A : Type 0} → (A → Action S ApiError (Unit {0})) → Option A → Action S ApiError (Unit {0})
  optional f none = return tt
  optional f (some a) = f a

  abbrev pub as_fault : {A : Type 0} → Action S String A → Action S ApiError A
  as_fault = on_err λ _. database_fault

  -- The second half of `handle_put_keys`, which stores what was verified.
  unfoldable pub store_bundle : SetKeyRequest → ProtocolAddress → Action S ApiError (Unit {0})
  store_bundle bundle address = do
    optional (λ keys. as_fault (db.store_one_time_ec_pre_keys keys address)) bundle.pre_key
    optional (λ key. as_fault (db.store_signed_pre_key key address)) bundle.signed_pre_key
    optional (λ keys. as_fault (db.store_one_time_pq_pre_keys keys address)) bundle.pq_pre_key
    optional (λ key. as_fault (db.store_pq_signed_pre_key key address))
        bundle.pq_last_resort_pre_key

  unfoldable pub handle_put_keys :
      AuthenticatedDevice → SetKeyRequest → ServiceIdKind → Action S ApiError (Unit {0})
  unfolding verify_keys verify_key store_bundle
  handle_put_keys auth_device bundle kind = do
    optional (λ key. lift (verify_key (identity_key_of auth_device.account kind) key))
        bundle.signed_pre_key
    optional (λ key. lift (verify_key (identity_key_of auth_device.account kind) key))
        bundle.pq_last_resort_pre_key
    optional (verify_keys (identity_key_of auth_device.account kind)) bundle.pq_pre_key
    store_bundle bundle (device_protocol_address ids auth_device kind)

  -- `get_key`, of `handle_get_keys_id_device_id`: the keys of one device.
  unfoldable pub get_key : ServiceId → ProtocolAddress → ℕ → Action S ApiError PreKeyResponseItem
  get_key service_id address registration_id = do
    bundle ←
        on_err (λ e. internal_server_error "Could not fetch user key bundle")
          (db.get_key_bundle address)
    prekey ←
        on_err (λ e. internal_server_error "Could not fetch user pre key")
          (db.get_one_time_ec_pre_key address)
    return (record {
      device_id = address.device_id;
      registration_id = registration_id;
      pre_key = prekey;
      pq_pre_key = pq_pre_key_for service_id bundle;
      signed_pre_key = signed_pre_key_for service_id bundle;
    })

  unfoldable pub get_keys : ServiceId → List Device → Action S ApiError (List PreKeyResponseItem)
  unfolding get_key
  get_keys id [] = return []
  get_keys id (device ∷ devices) = do
    key ←
        get_key id (record { name = service_id_string ids id; device_id = device.device_id })
          device.registration_id
    keys ← get_keys id devices
    return (key ∷ keys)

  abbrev pub not_found : ApiError
  not_found = record { status_code = 404; body = "" }

  -- The devices that a request names: one by its number, or all by a star.
  unfoldable pub target_devices : ServiceId → Text → Action S ApiError (List Device)
  unfolding parse_u32
  target_devices id target_device_id = elim (parse_u32 target_device_id) [
    | some device_id ↦ do
      device ←
          on_err (λ e. not_found)
            (db.get_device (record { name = service_id_string ids id; device_id = device_id }))
      return (device ∷ [])
    | none ↦
        if text_eqb target_device_id (codes "*")
        then on_err (λ e. internal_server_error "Could not get all targets devices")
            (db.get_all_devices id)
        else lift
            (err (record { status_code = 422; body = "Target device id is not a u32 or '*'" }))
  ]

  -- The bodies of two errors name the target; they are left empty.
  unfoldable pub handle_get_keys_id_device_id :
      (List ℕ → List ℕ) → AuthenticatedDevice → ServiceId → Text → Action S ApiError PreKeyResponse
  unfolding target_devices get_keys
  handle_get_keys_id_device_id serialize auth_device target_service_id target_device_id = do
    _ ← on_err (λ e. unauthorized) (db.get_account (aci_id auth_device.account.aci))
    target_account ← on_err (λ e. not_found) (db.get_account target_service_id)
    devices ← target_devices target_service_id target_device_id
    keys ← get_keys target_service_id devices
    return (record {
      service_id = service_id_string ids target_service_id;
      identity_key = serialize (target_identity_key target_service_id target_account);
      devices = keys;
    })

  -- libsignal's bytes of a public key and SHA-256.
  unfoldable pub handle_post_keycheck :
      (List ℕ → Option (List ℕ))
      → (List ℕ → List ℕ)
      → AuthenticatedDevice
      → ServiceIdKind
      → List ℕ
      → Action S ApiError Bool
  unfolding digested
  handle_post_keycheck public_key_bytes sha256 auth_device kind usr_digest = do
    bundle ←
        on_err (λ e. internal_server_error "Could not fetch user key bundle")
          (db.get_key_bundle (device_protocol_address ids auth_device kind))
    key ← lift (
        or_err (public_key_bytes (identity_key_of auth_device.account kind))
          (internal_server_error "Could not convert key to bytes"))
    return (text_eqb (sha256 (digested key kind bundle)) usr_digest)

  unfoldable pub get_one_time_pre_key_count : ServiceId → Action S String (ℕ × ℕ)
  get_one_time_pre_key_count service_id = do
    ec ← db.get_one_time_ec_pre_key_count service_id
    pq ← db.get_one_time_pq_pre_key_count service_id
    return (ec, pq)
