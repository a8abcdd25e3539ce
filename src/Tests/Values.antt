-- ===== src/Tests/Values.antt =====
-- Padding, validators, contacts, and accounts at concrete inputs.
use mathlib.Core.List.{Mem}
use denim.Prelude.{
  ℕ, ◌≡◌, ◌↔◌, refl, true, false, not, ◌&&◌, some, List, [], ◌∷◌, arith, ◌≢◌, ok, ◌>>=◌, contains,
  nat_eq, ◌+◌,
}
use denim.Padding.{pad_message, unpad_message, terminator}
use denim.Padding.RoundTrip.{unpad-pad_iff}
use denim.Account.{Account, Device, ServiceId, aci_id, service_id_eqb, get_next_device_id}
use denim.Validators.{device_ids, validate_complete_device_list}
use denim.Validators.Complete.{validate_complete_device_list_iff}
use denim.Prelude.Dict.{get, contains_key, insert}
use denim.Contacts.{new, add_contact, update_contact}
use denim.Contacts.View.{
  add, update, perform, after, fails, knows, knows_after, has_device, has_device_after, after_all,
  after_lem,
}
use denim.Address.{BasicAuthorizationHeader, Encodings, encode, decode}
use denim.Address.Authorization.{decode-encode}

abbrev message : List ℕ
message = 1 ∷ 128 ∷ 2 ∷ []

unpad-pad_iff_example :
    ((pad_message message >>= unpad_message) ≡ ok message) ↔ (¬ Mem terminator message)
unpad-pad_iff_example = unpad-pad_iff message

-- The byte 128 ends the message.
cut : (pad_message message >>= unpad_message) ≡ ok (1 ∷ [])
unfolding pad_message unpad_message
cut = refl

abbrev device : ℕ → Device
device id = record {
  device_id = id;
  name = "phone";
  last_seen = 0;
  created = 0;
  auth_token = "token";
  salt = "salt";
  registration_id = 10 + id;
  pni_registration_id = 20 + id;
  capabilities = [];
}

abbrev account : Account
account = record {
  aci = "a";
  pni = "p";
  aci_identity_key = [];
  pni_identity_key = [];
  devices = device 1 ∷ device 3 ∷ [];
  phone_number = "1234";
}

validate_complete_device_list_iff_example :
    (validate_complete_device_list account (3 ∷ []) (1 ∷ []) ≡ ok tt) ↔ (
      (d : ℕ)
      → contains (3 ∷ []) d
        ≡ (contains (device_ids account.devices) d && not (contains (1 ∷ []) d)))
validate_complete_device_list_iff_example =
    validate_complete_device_list_iff account (3 ∷ []) (1 ∷ [])

next_is_four : get_next_device_id account ≡ ok 4
unfolding get_next_device_id
next_is_four = refl

abbrev bob : ServiceId
bob = aci_id "bob"

after_lem_example :
    (fails (perform (update bob (2 ∷ [])) (after (add bob) new)) ≡ false)
    × (knows (after (update bob (2 ∷ [])) (after (add bob) new)) bob
        ≡ knows_after (update bob (2 ∷ [])) (after (add bob) new) bob)
    × (has_device (after (update bob (2 ∷ [])) (after (add bob) new)) bob 2
        ≡ has_device_after (update bob (2 ∷ [])) (after (add bob) new) bob 2)
unfolding add_contact contains_key get insert service_id_eqb
after_lem_example = after_lem (update bob (2 ∷ [])) (after (add bob) new) bob 2

bob_has_two : has_device (after_all (add bob ∷ update bob (2 ∷ []) ∷ []) new) bob 2 ≡ true
unfolding add_contact update_contact get contains_key insert service_id_eqb
bob_has_two = refl

-- Encodings that leave bytes as they are.
abbrev plain : Encodings
plain = record {
  base64_encode = λ bytes. bytes;
  base64_decode = λ text. some text;
  is_utf8 = λ bytes. true;
  base64_decode-encode = λ bytes. refl;
}

abbrev header : BasicAuthorizationHeader
header = record { username = b'u' ∷ []; device_id = 1; password = b'.' ∷ b':' ∷ [] }

decode-encode_example : decode plain (encode plain header) ≡ ok header
decode-encode_example = decode-encode plain header (no_dot, tt) (no_colon, tt) (omega arith) refl
  where
    no_dot : ◌≢◌ {A = ℕ} b'u' b'.'
    no_dot e = omega arith

    no_colon : ◌≢◌ {A = ℕ} b'u' b':'
    no_colon e = omega arith
