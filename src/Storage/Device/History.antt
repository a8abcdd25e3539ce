-- ===== src/Storage/Device/History.antt =====
-- The keys, sessions and identities of the client's database as abstract maps.
pub mod Shows
pub mod Identities
pub mod Saves
pub mod Lookups
use denim.Prelude.{
  ℕ, nat_eq, ◌≡◌, refl, ap, ◌∙◌, String, string_eq, Option, none, some, List, [], ◌∷◌, Bool, true,
  false, Outcome, ok, err, panic, out_of_fuel, if◌then◌else◌, Bool-cases, inl, inr, Option-cases,
}
use denim.Prelude.Equality.{Eq}
use denim.Prelude.Dict.{Dict, get, insert, remove}
use denim.Prelude.Effects.{Ends, Ends-map, go_on, go_on-Ends, return, ◌>>=◌, ◌>>◌}
use denim.Text.{Text}
use denim.Account.{ProtocolAddress}
use denim.Redis.Entries.{Base64}
use denim.Redis.Entries.RoundTrip.{IsBase64}
use denim.KeyManagers.Client.{PreKeyRecord, SignedPreKeyRecord}
use denim.Storage.{
  SignalProtocolError, invalid_argument, Libsignal, Tables, no_tables, Engine, Steps, decoded_with,
  reworded, reading, writing, row_or_err,
}
use denim.Storage.Device.{
  get_identity, get_deniable_identity, save_identity, save_deniable_identity, is_trusted_identity,
  is_trusted_deniable_identity, trusts, insert_identity, insert_deniable_identity,
}
use denim.Storage.Device.Keys.{
  get_pre_key, save_pre_key, remove_pre_key, get_signed_pre_key, save_signed_pre_key,
  get_kyber_pre_key, save_kyber_pre_key, load_session, load_deniable_session, store_session,
  store_deniable_session,
}
use denim.Storage.Device.Reliable.{
  IsReliable, IsLibsignal, Reads, Reads-insert, Reads-remove, Reads-same, Reads-decoded,
  reading-run, reading-fails, writing-run, Reads-none, Reads-some,
}

-- What the client has stored. Addresses are named by their texts.
pub record View (I R : Type 0) : Type 0 where
  pub pre_keys : ℕ → Option PreKeyRecord
  pub signed_pre_keys : ℕ → Option SignedPreKeyRecord
  pub kyber_pre_keys : ℕ → Option SignedPreKeyRecord
  pub sessions : String → Option R
  pub deniable_sessions : String → Option R
  pub identities : String → Option I
  pub deniable_identities : String → Option I

abbrev pub nothing : {I R : Type 0} → View I R
nothing = record {
  pre_keys = λ k. none;
  signed_pre_keys = λ k. none;
  kyber_pre_keys = λ k. none;
  sessions = λ k. none;
  deniable_sessions = λ k. none;
  identities = λ k. none;
  deniable_identities = λ k. none;
}

-- The calls that change them.
pub data Call (I R : Type 0) : Type 0 where
  pre_key_saved : ℕ → PreKeyRecord → Call I R
  pre_key_removed : ℕ → Call I R
  signed_pre_key_saved kyber_pre_key_saved : ℕ → SignedPreKeyRecord → Call I R
  session_stored deniable_session_stored : ProtocolAddress → R → Call I R
  identity_saved deniable_identity_saved : ProtocolAddress → I → Call I R

abbrev pub put : {K A : Type 0} → ⦃e : Eq K⦄ → (K → Option A) → K → Option A → K → Option A
put ⦃e = e⦄ f k a j = if e.eqb k j then a else f j

abbrev pub after : {I P R N : Type 0} → Libsignal I P R N → Call I R → View I R → View I R
after signal (pre_key_saved id r) v = record v { pre_keys = put v.pre_keys id (some r) }
after signal (pre_key_removed id) v = record v { pre_keys = put v.pre_keys id none }
after signal (signed_pre_key_saved id r) v = record v {
  signed_pre_keys = put v.signed_pre_keys id (some r);
}
after signal (kyber_pre_key_saved id r) v = record v {
  kyber_pre_keys = put v.kyber_pre_keys id (some r);
}
after signal (session_stored a r) v = record v {
  sessions = put v.sessions (signal.address_text a) (some r);
}
after signal (deniable_session_stored a r) v = record v {
  deniable_sessions = put v.deniable_sessions (signal.address_text a) (some r);
}
after signal (identity_saved a i) v = record v {
  identities = put v.identities (signal.address_text a) (some i);
}
after signal (deniable_identity_saved a i) v = record v {
  deniable_identities = put v.deniable_identities (signal.address_text a) (some i);
}

abbrev pub after_all :
    {I P R N : Type 0} → Libsignal I P R N → List (Call I R) → View I R → View I R
after_all signal [] v = v
after_all signal (c ∷ cs) v = after_all signal cs (after signal c v)

-- `get_pre_key` and the like have an error for a key that is not there.
abbrev pub found : {A : Type 0} → Option A → Outcome SignalProtocolError A
found none = err (invalid_argument "Query returned no rows")
found (some a) = ok a

module _ {E I P R N : Type 0} ⦃key : Eq I⦄ (engine : Engine E) (base64 : Base64)
    (signal : Libsignal I P R N) where
  abbrev pub perform : Call I R → Steps E (Unit {0})
  perform (pre_key_saved id r) = save_pre_key engine base64 signal id r
  perform (pre_key_removed id) = remove_pre_key engine base64 signal id
  perform (signed_pre_key_saved id r) = save_signed_pre_key engine base64 signal id r
  perform (kyber_pre_key_saved id r) = save_kyber_pre_key engine base64 signal id r
  perform (session_stored a r) = store_session engine base64 signal a r
  perform (deniable_session_stored a r) = store_deniable_session engine base64 signal a r
  perform (identity_saved a i) = save_identity engine base64 signal a i >>= λ new. return tt
  perform (deniable_identity_saved a i) =
      save_deniable_identity engine base64 signal a i >>= λ new. return tt

  abbrev pub perform_all : List (Call I R) → Steps E (Unit {0})
  perform_all [] = return tt
  perform_all (c ∷ cs) = perform c >> perform_all cs

  -- Every read gives what the maps say.
  pub record Answers (t : Tables) (v : View I R) : Type 0 where
    pub pre_keys :
        (id : ℕ) (s : E) → (get_pre_key engine base64 signal id (t, s)).0 ≡ found (v.pre_keys id)
    pub signed_pre_keys :
        (id : ℕ) (s : E)
        → (get_signed_pre_key engine base64 signal id (t, s)).0 ≡ found (v.signed_pre_keys id)
    pub kyber_pre_keys :
        (id : ℕ) (s : E)
        → (get_kyber_pre_key engine base64 signal id (t, s)).0 ≡ found (v.kyber_pre_keys id)
    pub sessions :
        (a : ProtocolAddress) (s : E)
        → (load_session engine base64 signal a (t, s)).0 ≡ ok (v.sessions (signal.address_text a))
    pub deniable_sessions :
        (a : ProtocolAddress) (s : E)
        → (load_deniable_session engine base64 signal a (t, s)).0
          ≡ ok (v.deniable_sessions (signal.address_text a))
    pub trusted :
        (a : ProtocolAddress) (i : I) (s : E)
        → (is_trusted_identity engine base64 signal a i (t, s)).0
          ≡ ok (trusts engine base64 signal i (v.identities (signal.address_text a)))
    pub deniably_trusted :
        (a : ProtocolAddress) (i : I) (s : E)
        → (is_trusted_deniable_identity engine base64 signal a i (t, s)).0
          ≡ ok (trusts engine base64 signal i (v.deniable_identities (signal.address_text a)))
