-- ===== src/Tests/Postgres.antt =====
-- The server's database at concrete inputs: an engine whose calls succeed, and an account with a device.
use mathlib.Core.List.Permᴰ
use denim.Prelude.{
  ℕ, ◌≡◌, ◌<◌, refl, false, ◌+◌, ◌==◌, ltb, List, [], ◌∷◌, ok, arith, if◌then◌else◌,
}
use denim.Prelude.Effects.{AllOrNothing, Gives, ◌>>◌}
use denim.Text.{decimal}
use denim.Account.{transfer, Device, ProtocolAddress, aci_id}
use denim.WebApi.{UploadPreKey, UploadSignedPreKey}
use denim.Postgres.{AccountRow, DeviceRow, SignedKeyRow, Tables, no_tables, Engine, any_row}
use denim.Postgres.Accounts.{add_device, get_device}
use denim.Postgres.OneTime.{store_one_time_ec_pre_keys}
use denim.Postgres.PreKeys.{store_signed_pre_key, get_key_bundle}
use denim.Postgres.Reliable.{Replaced, store_one_time_ec_pre_keys-Replaced}
use denim.Postgres.Reading.{IsPostgres}
use denim.Postgres.Added.{read_back, get_device-add_device}
use denim.Postgres.Unserved.{store_signed_pre_key-unserved}
use denim.Tests.Requests.{ids}

abbrev greatest : List ℕ → ℕ
greatest [] = 0
greatest (i ∷ is) = let rest = greatest is in if ltb i rest then rest else i

abbrev engine : Engine (Unit {0})
engine = record {
  query = λ s. (ok tt, s);
  acquire = λ s. (ok tt, s);
  begin = λ s. (ok tt, s);
  commit = λ s. (ok tt, s);
  arrange = λ rows. rows;
  fresh_id = λ is. greatest is + 1;
}

beyond : (n : ℕ) (is : List ℕ) → greatest is < n → any_row (λ i. i == n) is ≡ false
beyond n [] h = refl
beyond n (i ∷ is) h = ground (arith, h, beyond n is)

abbrev engine-IsPostgres : IsPostgres engine
engine-IsPostgres = record {
  fresh = λ is. beyond (greatest is + 1) is (omega arith);
  arranges = λ rows. Permᴰ.refl rows;
}

abbrev alice : AccountRow
alice = record {
  id = 4;
  aci = "Aalice";
  pni = "Palice";
  aci_identity_key = 1 ∷ [];
  pni_identity_key = 2 ∷ [];
  phone_number = "12345678";
}

abbrev phone : DeviceRow
phone = record {
  id = 7;
  owner = 4;
  device_id = decimal 1;
  name = "phone";
  auth_token = "token";
  salt = "salt";
  registration_id = decimal 30;
  pni_registration_id = decimal 31;
}

abbrev first_key : SignedKeyRow
first_key = record {
  id = 2;
  owner = 7;
  key_id = decimal 5;
  public_key = 1 ∷ [];
  signature = 2 ∷ [];
}

abbrev tables : Tables
tables = record no_tables {
  accounts = alice ∷ [];
  devices = phone ∷ [];
  aci_signed_pre_key_store = first_key ∷ [];
  pni_signed_pre_key_store = first_key ∷ [];
  aci_pq_last_resort_pre_key_store = first_key ∷ [];
  pni_pq_last_resort_pre_key_store = first_key ∷ [];
  device_keys =
      record {
        owner = 7;
        aci_signed_pre_key = 2;
        pni_signed_pre_key = 2;
        aci_pq_last_resort_pre_key = 2;
        pni_pq_last_resort_pre_key = 2;
      }
      ∷ [];
  one_time_ec_pre_key_store =
      record { owner = 7; key_id = decimal 9; public_key = 3 ∷ [] }
      ∷ record { owner = 8; key_id = decimal 9; public_key = 4 ∷ [] }
      ∷ [];
}

abbrev phone_address : ProtocolAddress
phone_address = record { name = "Aalice"; device_id = 1 }

abbrev new_keys : List UploadPreKey
new_keys =
    record { key_id = 9; public_key = 5 ∷ [] } ∷ record { key_id = 10; public_key = 6 ∷ [] } ∷ []

store_one_time_ec_pre_keys-Replaced_example :
    AllOrNothing tables
      (store_one_time_ec_pre_keys engine ids new_keys phone_address (tables, tt))
      λ _. Replaced phone new_keys tables
unfolding decimal
store_one_time_ec_pre_keys-Replaced_example =
    store_one_time_ec_pre_keys-Replaced engine ids new_keys phone_address phone tables tt refl

abbrev tablet : Device
tablet = record {
  device_id = 2;
  name = "tablet";
  last_seen = 5;
  created = 6;
  auth_token = "token";
  salt = "salt";
  registration_id = 40;
  pni_registration_id = 41;
  capabilities = transfer ∷ [];
}

get_device-add_device_example :
    Gives
      ((add_device engine ids (aci_id "alice") tablet
          >> get_device engine ids (record { name = "Palice"; device_id = 2 }))
        (tables, tt))
      λ got _. got ≡ read_back tablet
get_device-add_device_example =
    get_device-add_device engine engine-IsPostgres ids (aci_id "alice") "Palice" alice tablet tables
      tt refl refl refl (omega arith) (omega arith) (omega arith)

abbrev second_key : UploadSignedPreKey
second_key = record { key_id = 6; public_key = 7 ∷ []; signature = 8 ∷ [] }

store_signed_pre_key-unserved_example :
    Gives (store_signed_pre_key engine ids second_key phone_address (tables, tt)) λ _ st.
      (other : ProtocolAddress) (s' : Unit {0})
      → (get_key_bundle engine ids other (st.0, s')).0
        ≡ (get_key_bundle engine ids other (tables, s')).0
unfolding decimal
store_signed_pre_key-unserved_example =
    store_signed_pre_key-unserved engine engine-IsPostgres ids second_key phone_address "alice"
      phone tables tt refl refl refl refl
