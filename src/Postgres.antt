-- ===== src/Postgres.antt =====
-- server/src/storage/postgres.rs, over the tables of server/database/init.sql. This file has the
-- tables, the calls of the database, and the rows that belong to an address.
pub mod Accounts
pub mod Inbox
pub mod PreKeys
pub mod OneTime
pub mod Reliable
pub mod Reading
pub mod Added
pub mod Unserved
use denim.Prelude.{
  ℕ, Bool, false, ◌||◌, String, string_eq, Option, none, some, List, [], ◌∷◌, map, Outcome, ok, err,
  panic, out_of_fuel, Run, ◌==◌, if◌then◌else◌,
}
use denim.Prelude as errors
use denim.Prelude.Effects.{Action, return, lift, ◌>>=◌, ◌>>◌}
use denim.Text.{Text, text_eqb, decimal}
use denim.Account.{ProtocolAddress}

pub record AccountRow : Type 0 where
  pub id : ℕ
  pub aci : String
  pub pni : String
  pub aci_identity_key : List ℕ
  pub pni_identity_key : List ℕ
  pub phone_number : String

-- Numbers are stored as their decimals; the bytes of the name are the name here.
pub record DeviceRow : Type 0 where
  pub id : ℕ
  pub owner : ℕ
  pub device_id : Text
  pub name : String
  pub auth_token : String
  pub salt : String
  pub registration_id : Text
  pub pni_registration_id : Text

pub record CapabilityRow : Type 0 where
  pub owner : ℕ
  pub capability_type : ℕ

-- A row of one of the tables of keys with signatures.
pub record SignedKeyRow : Type 0 where
  pub id : ℕ
  pub owner : ℕ
  pub key_id : Text
  pub public_key : List ℕ
  pub signature : List ℕ

pub record DeviceKeysRow : Type 0 where
  pub owner : ℕ
  pub aci_signed_pre_key : ℕ
  pub pni_signed_pre_key : ℕ
  pub aci_pq_last_resort_pre_key : ℕ
  pub pni_pq_last_resort_pre_key : ℕ

pub record OneTimeKeyRow : Type 0 where
  pub owner : ℕ
  pub key_id : Text
  pub public_key : List ℕ

pub record OneTimePqKeyRow : Type 0 where
  pub owner : ℕ
  pub key_id : Text
  pub public_key : List ℕ
  pub signature : Option (List ℕ)

pub record MessageRow : Type 0 where
  pub receiver : ℕ
  pub msg : List ℕ

pub record Tables : Type 0 where
  pub accounts : List AccountRow
  pub devices : List DeviceRow
  pub device_capabilities : List CapabilityRow
  pub used_device_link_tokens : List String
  pub msq_queue : List MessageRow
  pub aci_signed_pre_key_store : List SignedKeyRow
  pub pni_signed_pre_key_store : List SignedKeyRow
  pub aci_pq_last_resort_pre_key_store : List SignedKeyRow
  pub pni_pq_last_resort_pre_key_store : List SignedKeyRow
  pub device_keys : List DeviceKeysRow
  pub one_time_ec_pre_key_store : List OneTimeKeyRow
  pub one_time_pq_pre_key_store : List OneTimePqKeyRow

abbrev pub no_tables : Tables
no_tables = record {
  accounts = [];
  devices = [];
  device_capabilities = [];
  used_device_link_tokens = [];
  msq_queue = [];
  aci_signed_pre_key_store = [];
  pni_signed_pre_key_store = [];
  aci_pq_last_resort_pre_key_store = [];
  pni_pq_last_resort_pre_key_store = [];
  device_keys = [];
  one_time_ec_pre_key_store = [];
  one_time_pq_pre_key_store = [];
}

-- PostgreSQL over its own state `E`: each call may fail, the order of the rows of a query is not
-- defined, and `fresh_id` is the `id` that a new row gets beside those that are used.
pub record Engine (E : Type 0) : Type 1 where
  pub query : Action E String (Unit {0})
  pub acquire : Action E String (Unit {0})
  pub begin : Action E String (Unit {0})
  pub commit : Action E String (Unit {0})
  pub arrange : {A : Type 0} → List A → List A
  pub fresh_id : List ℕ → ℕ

abbrev pub Steps : Type 0 → Type 0 → Type 0
Steps E A = Action (Tables × E) String A

abbrev pub called : {E : Type 0} → Action E String (Unit {0}) → Steps E (Unit {0})
called call (t, s) = ((call s).0, (t, (call s).1))

abbrev pub given : {E A : Type 0} → Tables × E → Run (A × Tables) → Outcome String A × (Tables × E)
given (t, s) (ok (a, t')) = (ok a, (t', s))
given st (err e) = (err e, st)
given st panic = (panic, st)
given st out_of_fuel = (out_of_fuel, st)

abbrev pub settle :
    {E A : Type 0} → Tables → Outcome String A × (Tables × E) → Outcome String A × (Tables × E)
settle t (ok a, st) = (ok a, st)
settle t (err e, (_, s)) = (err e, (t, s))
settle t (panic, (_, s)) = (panic, (t, s))
settle t (out_of_fuel, (_, s)) = (out_of_fuel, (t, s))

module _ {E : Type 0} (engine : Engine E) where
  -- What a statement gives and leaves; one that fails changes nothing.
  abbrev pub statement : {A : Type 0} → (Tables → Run (A × Tables)) → Steps E A
  statement f = called engine.query >> λ st. given st (f (st.0))

  abbrev pub reading : {A : Type 0} → (Tables → Run A) → Steps E A
  reading f = statement λ t. errors.◌>>=◌ (f t) λ a. ok (a, t)

  abbrev pub writing : (Tables → Run Tables) → Steps E (Unit {0})
  writing f = statement λ t. errors.◌>>=◌ (f t) λ t'. ok (tt, t')

  -- `begin()` to `commit()`: what is not committed is undone.
  abbrev pub transaction : {A : Type 0} → Steps E A → Steps E A
  transaction body (t, s) =
      settle t ((called engine.begin >> (body >>= λ a. called engine.commit >> return a)) (t, s))

abbrev pub first_row : {A : Type 0} → List A → Run A
first_row [] = err "no rows returned by a query that expected to return at least one row"
first_row (a ∷ rows) = ok a

-- A subquery in the place of a value.
abbrev pub scalar : {A : Type 0} → List A → Run (Option A)
scalar [] = ok none
scalar (a ∷ []) = ok (some a)
scalar (a ∷ b ∷ rows) = err "more than one row returned by a subquery used as an expression"

-- `WHERE`
abbrev pub where_rows : {A : Type 0} → (A → Bool) → List A → List A
where_rows p [] = []
where_rows p (a ∷ rows) = if p a then a ∷ where_rows p rows else where_rows p rows

abbrev pub any_row : {A : Type 0} → (A → Bool) → List A → Bool
any_row p [] = false
any_row p (a ∷ rows) = p a || any_row p rows

abbrev pub is_some : Option ℕ → ℕ → Bool
is_some none id = false
is_some (some i) id = i == id

-- `WHERE aci = $1 OR pni = $1`
abbrev pub account_rows : String → Tables → List AccountRow
account_rows name t =
    where_rows (λ a. string_eq.eqb a.aci name || string_eq.eqb a.pni name) t.accounts

-- `(SELECT id FROM accounts WHERE aci = $1 OR pni = $1)`
abbrev pub account_id : String → Tables → Run (Option ℕ)
account_id name t = scalar (map (λ a. a.id) (account_rows name t))

-- The devices of an account, and those with the identifier of an address.
abbrev pub owned_devices : String → Tables → Run (List DeviceRow)
owned_devices name t =
    errors.◌>>=◌ (account_id name t) λ id. ok (where_rows (λ d. is_some id d.owner) t.devices)

abbrev pub addressed_devices : ProtocolAddress → Tables → Run (List DeviceRow)
addressed_devices address t =
    errors.◌>>=◌ (owned_devices address.name t)
      λ ds. ok (where_rows (λ d. text_eqb d.device_id (decimal address.device_id)) ds)

-- Whether a device with this identifier is among them.
abbrev pub is_one_of : List DeviceRow → ℕ → Bool
is_one_of ds id = any_row (λ d. d.id == id) ds
