-- ===== src/Tests/Keys.antt =====
-- Uploads of keys and the identifiers of keys at concrete inputs.
use denim.Prelude.{ℕ, ◌+◌, ◌≡◌, ◌==◌, refl, none, some, List, [], ◌∷◌, ok, err, String}
use denim.Prelude.Effects.{Gives, Action}
use denim.Account.{Account, Device, AuthenticatedDevice, aci_kind, device_protocol_address}
use denim.WebApi.{SetKeyRequest, UploadSignedPreKey}
use denim.Validators.{Verify, validate_pre_key_signatures}
use denim.KeyManagers.Server.{KeyDatabase, handle_put_keys, identity_key_of, invalid_signature}
use denim.KeyManagers.Server.Uploads.{
  any_undecided, store_uploads, uploads, Answers, signed_keys, handle_put_keys-validate,
}
use denim.KeyManagers.Client.{Signal, KeyPair, default_manager, generate_key_bundle, bundle_size}
use denim.KeyManagers.Client.Identifiers.{Next, from, Uploads, generate_key_bundle-from}
use denim.Prelude.Dict.{get}
use denim.Tests.Requests.{ids}

-- A signature is right if it begins with the identity key's first byte.
abbrev first_byte : List ℕ → ℕ
first_byte [] = 0
first_byte (b ∷ bs) = b

abbrev verify : Verify
verify identity message signature = some (first_byte signature == first_byte identity)

abbrev the_device : Device
the_device = record {
  device_id = 1;
  name = "d";
  last_seen = 0;
  created = 0;
  auth_token = "";
  salt = "";
  registration_id = 1;
  pni_registration_id = 1;
  capabilities = [];
}

abbrev the_account : Account
the_account = record {
  aci = "a";
  pni = "p";
  aci_identity_key = 5 ∷ [];
  pni_identity_key = 6 ∷ [];
  devices = the_device ∷ [];
  phone_number = "1";
}

abbrev authenticated : AuthenticatedDevice
authenticated = record { account = the_account; device = the_device }

abbrev nothing : {A : Type 0} → Action ℕ String A
nothing n = (err "", n)

abbrev counted : Action ℕ String (Unit {0})
counted n = (ok tt, n + 1)

-- The state counts what is stored.
abbrev counting : KeyDatabase ℕ
counting = record {
  store_one_time_ec_pre_keys = λ ks a. counted;
  store_signed_pre_key = λ k a. counted;
  store_one_time_pq_pre_keys = λ ks a. counted;
  store_pq_signed_pre_key = λ k a. counted;
  get_key_bundle = λ a. nothing;
  get_one_time_ec_pre_key = λ a. nothing;
  get_account = λ i. nothing;
  get_device = λ a. nothing;
  get_all_devices = λ i. nothing;
  get_one_time_ec_pre_key_count = λ i. nothing;
  get_one_time_pq_pre_key_count = λ i. nothing;
}

abbrev key_by : ℕ → UploadSignedPreKey
key_by b = record { key_id = 1; public_key = []; signature = b ∷ [] }

-- The last key of the upload is signed with another identity key.
abbrev upload_mixed : SetKeyRequest
upload_mixed = record {
  pre_key = none;
  signed_pre_key = some (key_by 5);
  pq_pre_key = some (key_by 5 ∷ key_by 6 ∷ []);
  pq_last_resort_pre_key = none;
}

handle_put_keys-validate_example :
    Answers ids verify counting
      (validate_pre_key_signatures verify
        (identity_key_of the_account aci_kind)
        (signed_keys upload_mixed))
      (any_undecided verify (identity_key_of the_account aci_kind) (signed_keys upload_mixed))
      (store_uploads counting
        (device_protocol_address ids authenticated aci_kind)
        (uploads upload_mixed)
        0)
      (handle_put_keys ids verify counting authenticated upload_mixed aci_kind 0)
      0
handle_put_keys-validate_example =
    handle_put_keys-validate ids verify counting authenticated upload_mixed aci_kind 0

upload_runs :
    handle_put_keys ids verify counting authenticated upload_mixed aci_kind 0
    ≡ (err invalid_signature, 0)
unfolding handle_put_keys validate_pre_key_signatures
upload_runs = refl

abbrev some_pair : KeyPair
some_pair = record { public_key = 1 ∷ []; private_key = 2 ∷ [] }

abbrev working : {A : Type 0} → A → Action ℕ String A
working a n = (ok a, n)

abbrev signal : Signal ℕ String
signal = record {
  generate = λ n. (some_pair, n + 1);
  time_now = λ n. n;
  get_identity_key_pair = working some_pair;
  calculate_signature = λ pair bytes. working (3 ∷ []);
  generate_kyber = λ id pair.
      working (record { id = id; timestamp = 0; key_pair = some_pair; signature = 4 ∷ [] });
  save_pre_key = λ id r. working tt;
  save_signed_pre_key = λ id r. working tt;
  save_kyber_pre_key = λ id r. working tt;
}

default-Next : Next default_manager 1 1 1
unfolding get
default-Next = record { next_one_time = refl; next_kyber = refl; next_signed = refl }

generate_key_bundle-from_example :
    Gives
      (generate_key_bundle signal (default_manager, 0))
      λ b st. Uploads b (from bundle_size 1) (from bundle_size 1) 101 1 × Next st.0 101 102 2
generate_key_bundle-from_example =
    generate_key_bundle-from signal (λ id pair s r e. cc) default_manager 1 1 1 0 default-Next
