-- ===== src/Storage.antt =====
-- client/src/storage: the client's database. This file has the tables of client/client_db/migrations,
-- the calls of SQLite that client/src/storage/device.rs makes, and what it asks of libsignal.

pub mod Device
use denim.Prelude.{
  ℕ, ℤ, String, Option, none, some, List, [], ◌∷◌, Outcome, ok, err, panic, out_of_fuel, Run,
  map_err,
}
use denim.Prelude as errors
use denim.Prelude.Dict.{Dict, empty}
use denim.Prelude.Effects.{Action, return, lift, ◌>>=◌, ◌>>◌}
use denim.Text.{Text}
use denim.Account.{ProtocolAddress}
use denim.Redis.Entries.{Base64}
use denim.KeyManagers.Client.{PreKeyRecord, SignedPreKeyRecord}

-- Of libsignal's errors the code makes `InvalidArgument`; the others come from the library.
pub data SignalProtocolError : Type 0 where
  invalid_argument : String → SignalProtocolError
  other_error : String → SignalProtocolError

-- Serializing of libsignal's records.
pub record Codec (A : Type 0) : Type 0 where
  pub serialize : A → Outcome SignalProtocolError (List ℕ)
  pub deserialize : List ℕ → Outcome SignalProtocolError A

-- `I` is an identity key, `P` a private key, `R` a session and `N` a sender key. Keys serialize without
-- an error.
pub record Libsignal (I P R N : Type 0) : Type 0 where
  pub address_text : ProtocolAddress → String
  pub error_text : SignalProtocolError → String
  pub serialize_identity : I → List ℕ
  pub decode_identity : List ℕ → Outcome SignalProtocolError I
  pub serialize_private : P → List ℕ
  pub decode_private : List ℕ → Outcome SignalProtocolError P
  pub pre_key : Codec PreKeyRecord
  pub signed_pre_key : Codec SignedPreKeyRecord
  pub kyber_pre_key : Codec SignedPreKeyRecord
  pub session : Codec R
  pub sender_key : Codec N

pub record IdentityKeyPair (I P : Type 0) : Type 0 where
  pub identity_key : I
  pub private_key : P

pub record IdentityRow : Type 0 where
  pub aci : String
  pub pni : String
  pub password : String

pub record IdentityKeysRow : Type 0 where
  pub public_key : Text
  pub private_key : Text
  pub registration_id : ℕ

-- The tables. A column that is unique is the key of a map; a table without one is the list of its
-- rows, and `id` stands in it where it is asked for.
pub record Tables : Type 0 where
  pub identity : List IdentityRow
  pub identity_keys : List IdentityKeysRow
  pub device_identity_key_store : Dict String Text
  pub device_pre_key_store : Dict ℕ Text
  pub device_signed_pre_key_store : Dict ℕ Text
  pub device_kyber_pre_key_store : Dict ℕ Text
  pub device_session_store : Dict String Text
  pub device_sender_key_store : Dict String Text
  pub contacts : Dict String Text
  pub nicknames : Dict String String
  pub deniable_device_identity_key_store : Dict String Text
  pub deniable_device_session_store : Dict String Text
  pub deniable_payload : Dict ℕ (List ℕ × ℤ)
  pub deniable_key_requests_sent : Dict String String
  pub deniable_message_awaiting_encryption : Dict ℕ (String × String)
  pub incoming_deniable_chunk : Dict ℕ (List ℕ × ℤ)

abbrev pub no_tables : Tables
no_tables = record {
  identity = [];
  identity_keys = [];
  device_identity_key_store = empty;
  device_pre_key_store = empty;
  device_signed_pre_key_store = empty;
  device_kyber_pre_key_store = empty;
  device_session_store = empty;
  device_sender_key_store = empty;
  contacts = empty;
  nicknames = empty;
  deniable_device_identity_key_store = empty;
  deniable_device_session_store = empty;
  deniable_payload = empty;
  deniable_key_requests_sent = empty;
  deniable_message_awaiting_encryption = empty;
  incoming_deniable_chunk = empty;
}

-- SQLite over its own state `E`: each call may fail, the order of the rows of a query is not
-- defined, each row is fetched, and `fresh_id` is the `id` that a new row gets.
pub record Engine (E : Type 0) : Type 1 where
  pub prepare : Action E String (Unit {0})
  pub execute : Action E String (Unit {0})
  pub fetch : Action E String (Unit {0})
  pub begin : Action E String (Unit {0})
  pub commit : Action E String (Unit {0})
  pub arrange : {A : Type 0} → List A → List A
  pub fresh_id : {A : Type 0} → List (ℕ × A) → ℕ

abbrev pub Steps : Type 0 → Type 0 → Type 0
Steps E A = Action (Tables × E) SignalProtocolError A

-- A call of the library, with its error as an `InvalidArgument`.
abbrev pub called : {E : Type 0} → Action E String (Unit {0}) → Steps E (Unit {0})
called call (t, s) = (map_err invalid_argument (call s).0, (t, (call s).1))

-- `query_row`, without and with `optional()`.
abbrev pub first_row : {A : Type 0} → List A → Run A
first_row [] = err "Query returned no rows"
first_row (a ∷ rows) = ok a

abbrev pub row_or_err : {A : Type 0} → Option A → Run A
row_or_err none = err "Query returned no rows"
row_or_err (some a) = ok a

abbrev pub answering : {E A : Type 0} → (Tables → Run A) → Steps E A
answering f (t, s) = (map_err invalid_argument (f t), (t, s))

abbrev pub changing : {E : Type 0} → (Tables → Tables) → Steps E (Unit {0})
changing f (t, s) = (ok tt, (f t, s))

abbrev pub settle :
    {E A : Type 0}
    → Tables
    → Outcome SignalProtocolError A × (Tables × E)
    → Outcome SignalProtocolError A × (Tables × E)
settle t (ok a, st) = (ok a, st)
settle t (err e, (_, s)) = (err e, (t, s))
settle t (panic, (_, s)) = (panic, (t, s))
settle t (out_of_fuel, (_, s)) = (out_of_fuel, (t, s))

module _ {E : Type 0} (engine : Engine E) where
  -- A statement is prepared and run; the argument is what it gives or leaves.
  abbrev pub reading : {A : Type 0} → (Tables → Run A) → Steps E A
  reading f = called engine.prepare >> (called engine.execute >> answering f)

  abbrev pub writing : (Tables → Tables) → Steps E (Unit {0})
  writing f = called engine.prepare >> (called engine.execute >> changing f)

  abbrev pub writing_or_err : (Tables → Run Tables) → Steps E (Unit {0})
  writing_or_err f =
      called engine.prepare >> (called engine.execute >> (answering f >>= λ t. changing λ _. t))

  -- The rows of a query, one by one: `for row in rows { … }`.
  abbrev pub for_rows : {A B : Type 0} → (A → B → Steps E B) → List A → B → Steps E B
  for_rows body [] b = called engine.fetch >> return b
  for_rows body (row ∷ rows) b = called engine.fetch >> (body row b >>= λ b'. for_rows body rows b')

  -- `transaction()` to `commit()`: what is not committed is undone.
  abbrev pub transaction : {A : Type 0} → Steps E A → Steps E A
  transaction body (t, s) =
      settle t ((called engine.begin >> (body >>= λ a. called engine.commit >> return a)) (t, s))

-- The bytes of a base64 text, read by a function of libsignal.
abbrev pub decoded_with :
    {A : Type 0}
    → Base64
    → (List ℕ → Outcome SignalProtocolError A)
    → Text
    → Outcome SignalProtocolError A
decoded_with base64 f text = errors.◌>>=◌ (map_err invalid_argument (base64.decode text)) f

-- `map_err(|err| InvalidArgument(format!("{err}")))` on an error of libsignal.
abbrev pub reworded :
    {I P R N A : Type 0}
    → Libsignal I P R N
    → Outcome SignalProtocolError A
    → Outcome SignalProtocolError A
reworded signal o = map_err (λ e. invalid_argument (signal.error_text e)) o
