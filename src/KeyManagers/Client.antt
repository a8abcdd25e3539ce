-- ===== src/KeyManagers/Client.antt =====
-- client/src/key_manager.rs: identifiers of pre-keys, and the bundle of keys of a new device.
-- libsignal's keys and stores are parameters.
pub mod Identifiers
use denim.Prelude.{
  arith, ℕ, zero, suc, ◌+◌, ◌≡◌, refl, Bool, true, false, ◌↔◌, Option, none, some, List, [], ◌∷◌,
  ◌++◌, Outcome, ok, err, panic, Run, u32_max, leb, Eq, map_err, if◌then◌else◌,
}
use denim.Prelude.Dict.{Dict, get, insert}
use denim.Prelude.Effects.{Action, return, lift, on_err, ◌>>=◌, ◌>>◌}
use denim.WebApi.{SetKeyRequest, UploadPreKey, UploadSignedPreKey}

pub data PreKeyType : Type 0 where
  signed kyber one_time : PreKeyType

abbrev pub pre_key_type_eqb : PreKeyType → PreKeyType → Bool
pre_key_type_eqb signed signed = true
pre_key_type_eqb kyber kyber = true
pre_key_type_eqb one_time one_time = true
pre_key_type_eqb _ _ = false

pub pre_key_type_eqb_iff : (a b : PreKeyType) → (pre_key_type_eqb a b ≡ true) ↔ (a ≡ b)
pre_key_type_eqb_iff a b = ground arith

instance abbrev pub pre_key_type_eq : Eq PreKeyType
pre_key_type_eq = record { eqb = pre_key_type_eqb; eqb_iff = pre_key_type_eqb_iff }

pub data KeyType : Type 0 where
  pre_key : PreKeyType → KeyType
  identity_key : KeyType

pub data KeyManagerErrorType : Type 0 where
  generate_error store_error signature_error get_error : KeyManagerErrorType

-- `X` is libsignal's error.
pub record KeyManagerError (X : Type 0) : Type 0 where
  pub err_type : KeyManagerErrorType
  pub key_type : KeyType
  pub error : X

pub record KeyManager : Type 0 where
  pub key_incrementer_map : Dict PreKeyType ℕ

-- `Default`
abbrev pub default_manager : KeyManager
default_manager = record {
  key_incrementer_map = record { entries = (signed, 1) ∷ (kyber, 1) ∷ (one_time, 1) ∷ [] };
}

-- `KeyManager::new`
abbrev pub new_key_manager : ℕ → ℕ → ℕ → KeyManager
new_key_manager signed_id kyber_id one_time_id = record {
  key_incrementer_map = record {
    entries = (signed, signed_id) ∷ (kyber, kyber_id) ∷ (one_time, one_time_id) ∷ [];
  };
}

-- libsignal's records, with what is read from them.
pub record KeyPair : Type 0 where
  pub public_key : List ℕ
  pub private_key : List ℕ

pub record PreKeyRecord : Type 0 where
  pub id : ℕ
  pub key_pair : KeyPair

pub record SignedPreKeyRecord : Type 0 where
  pub id : ℕ
  pub timestamp : ℕ
  pub key_pair : KeyPair
  pub signature : List ℕ

-- libsignal and the stores, which fail with an `X`. `S` holds the stores, the random numbers and the
-- clock. A Kyber record is a record with a signature.
pub record Signal (S X : Type 0) : Type 0 where
  pub generate : S → KeyPair × S
  pub time_now : S → ℕ
  pub get_identity_key_pair : Action S X KeyPair
  pub calculate_signature : KeyPair → List ℕ → Action S X (List ℕ)
  pub generate_kyber : ℕ → KeyPair → Action S X SignedPreKeyRecord
  pub save_pre_key : ℕ → PreKeyRecord → Action S X (Unit {0})
  pub save_signed_pre_key : ℕ → SignedPreKeyRecord → Action S X (Unit {0})
  pub save_kyber_pre_key : ℕ → SignedPreKeyRecord → Action S X (Unit {0})

-- `impl From<PreKeyRecord> for UploadPreKey` and its likes, of common/src/web_api/mod.rs.
abbrev pub upload : PreKeyRecord → UploadPreKey
upload r = record { key_id = r.id; public_key = r.key_pair.public_key }

abbrev pub upload_signed : SignedPreKeyRecord → UploadSignedPreKey
upload_signed r = record {
  key_id = r.id;
  public_key = r.key_pair.public_key;
  signature = r.signature;
}

abbrev pub bundle_size : ℕ
bundle_size = 100

module _ {S X : Type 0} (signal : Signal S X) where
  abbrev pub Steps : Type 0 → Type 0
  Steps A = Action (KeyManager × S) (KeyManagerError X) A

  -- A call of libsignal, whose error is told apart by what was done.
  abbrev pub or_error : {A : Type 0} → KeyManagerErrorType → KeyType → Action S X A → Steps A
  or_error err_type key_type m st = (
    map_err (λ e. record { err_type = err_type; key_type = key_type; error = e }) (m st.1).0,
    (st.0, (m st.1).1),
  )

  -- Both `unwrap`s are of the same entry; the increment is checked.
  unfoldable pub get_new_key_id : PreKeyType → Steps ℕ
  unfolding get insert
  get_new_key_id key_type (manager, s) = elim (get manager.key_incrementer_map key_type) [
    | none ↦ (panic, (manager, s))
    | some id ↦ if leb u32_max id then (panic, (manager, s)) else (
      ok id,
      (record { key_incrementer_map = insert manager.key_incrementer_map key_type (id + 1) }, s),
    )
  ]

  abbrev pub generate_pair : Steps KeyPair
  generate_pair st = let (pair, s') = signal.generate st.1 in (ok pair, (st.0, s'))

  abbrev pub now : Steps ℕ
  now st = (ok (signal.time_now st.1), st)

  unfoldable pub generate_pre_key : Steps PreKeyRecord
  unfolding get_new_key_id
  generate_pre_key = do
    id ← get_new_key_id one_time
    key_pair ← generate_pair
    or_error store_error (pre_key one_time)
        (signal.save_pre_key id (record { id = id; key_pair = key_pair }))
    return (record { id = id; key_pair = key_pair })

  unfoldable pub generate_signed_pre_key : Steps SignedPreKeyRecord
  unfolding get_new_key_id
  generate_signed_pre_key = do
    id ← get_new_key_id signed
    signed_pre_key_pair ← generate_pair
    identity ← or_error get_error (pre_key signed) signal.get_identity_key_pair
    signature ←
        or_error signature_error (pre_key signed)
          (signal.calculate_signature identity signed_pre_key_pair.public_key)
    timestamp ← now
    or_error store_error (pre_key signed) (
        signal.save_signed_pre_key id (record {
          id = id;
          timestamp = timestamp;
          key_pair = signed_pre_key_pair;
          signature = signature;
        }))
    return (record {
      id = id;
      timestamp = timestamp;
      key_pair = signed_pre_key_pair;
      signature = signature;
    })

  unfoldable pub generate_kyber_pre_key : Steps SignedPreKeyRecord
  unfolding get_new_key_id
  generate_kyber_pre_key = do
    id ← get_new_key_id kyber
    identity ← or_error get_error identity_key signal.get_identity_key_pair
    key_record ← or_error generate_error (pre_key kyber) (signal.generate_kyber id identity)
    or_error store_error (pre_key kyber) (signal.save_kyber_pre_key id key_record)
    return key_record

  -- The `for`, with the two vectors.
  unfoldable pub keys_loop :
      ℕ
      → List UploadPreKey
      → List UploadSignedPreKey
      → Steps (List UploadPreKey × List UploadSignedPreKey)
  unfolding generate_pre_key generate_kyber_pre_key
  keys_loop zero pre_keys pq_pre_keys = return (pre_keys, pq_pre_keys)
  keys_loop (suc n) pre_keys pq_pre_keys = do
    k ← generate_pre_key
    q ← generate_kyber_pre_key
    keys_loop n (pre_keys ++ upload k ∷ []) (pq_pre_keys ++ upload_signed q ∷ [])

  unfoldable pub generate_key_bundle : Steps SetKeyRequest
  unfolding keys_loop generate_signed_pre_key generate_kyber_pre_key
  generate_key_bundle = do
    (pre_keys, pq_signed_pre_keys) ← keys_loop bundle_size [] []
    signed_pre_key ← generate_signed_pre_key
    pq_last_resort_pre_key ← generate_kyber_pre_key
    return (record {
      pre_key = some pre_keys;
      signed_pre_key = some (upload_signed signed_pre_key);
      pq_pre_key = some pq_signed_pre_keys;
      pq_last_resort_pre_key = some (upload_signed pq_last_resort_pre_key);
    })
