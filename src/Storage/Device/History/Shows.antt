-- ===== src/Storage/Device/History/Shows.antt =====
-- The tables that hold given maps.
use denim.Prelude.{ℕ, nat_eq, String, string_eq, Option, Outcome}
use denim.Prelude.Dict.{Dict, get}
use denim.Text.{Text}
use denim.Redis.Entries.{Base64}
use denim.KeyManagers.Client.{PreKeyRecord, SignedPreKeyRecord}
use denim.Storage.{SignalProtocolError, Libsignal, Tables, decoded_with, reworded}
use denim.Storage.Device.Reliable.{Reads}
use denim.Storage.Device.History.{View}

module _ {I P R N : Type 0} (base64 : Base64) (signal : Libsignal I P R N) where
  abbrev pub identity_text : Text → Outcome SignalProtocolError I
  identity_text = decoded_with base64 signal.decode_identity

  abbrev pub session_text : Text → Outcome SignalProtocolError R
  session_text = decoded_with base64 signal.session.deserialize

  abbrev pub pre_key_text : Text → Outcome SignalProtocolError PreKeyRecord
  pre_key_text = decoded_with base64 λ b. reworded signal (signal.pre_key.deserialize b)

  abbrev pub signed_text : Text → Outcome SignalProtocolError SignedPreKeyRecord
  signed_text = decoded_with base64 λ b. reworded signal (signal.signed_pre_key.deserialize b)

  abbrev pub kyber_text : Text → Outcome SignalProtocolError SignedPreKeyRecord
  kyber_text = decoded_with base64 signal.kyber_pre_key.deserialize

  -- The tables hold the maps.
  pub record Shows (t : Tables) (v : View I R) : Type 0 where
    pub pre_keys : (k : ℕ) → Reads pre_key_text (get t.device_pre_key_store k) (v.pre_keys k)
    pub signed_pre_keys :
        (k : ℕ) → Reads signed_text (get t.device_signed_pre_key_store k) (v.signed_pre_keys k)
    pub kyber_pre_keys :
        (k : ℕ) → Reads kyber_text (get t.device_kyber_pre_key_store k) (v.kyber_pre_keys k)
    pub sessions : (k : String) → Reads session_text (get t.device_session_store k) (v.sessions k)
    pub deniable_sessions :
        (k : String)
        → Reads session_text (get t.deniable_device_session_store k) (v.deniable_sessions k)
    pub identities :
        (k : String) → Reads identity_text (get t.device_identity_key_store k) (v.identities k)
    pub deniable_identities :
        (k : String)
        → Reads identity_text (get t.deniable_device_identity_key_store k) (v.deniable_identities k)

  pub Shows-pre_keys :
      (d : Dict ℕ Text) (f : ℕ → Option PreKeyRecord) (t : Tables) (v : View I R)
      → Shows t v
      → ((j : ℕ) → Reads pre_key_text (get d j) (f j))
      → Shows (record t { device_pre_key_store = d }) (record v { pre_keys = f })
  Shows-pre_keys d f t v shows h = record {
    pre_keys = h;
    signed_pre_keys = shows.signed_pre_keys;
    kyber_pre_keys = shows.kyber_pre_keys;
    sessions = shows.sessions;
    deniable_sessions = shows.deniable_sessions;
    identities = shows.identities;
    deniable_identities = shows.deniable_identities;
  }

  pub Shows-signed_pre_keys :
      (d : Dict ℕ Text) (f : ℕ → Option SignedPreKeyRecord) (t : Tables) (v : View I R)
      → Shows t v
      → ((j : ℕ) → Reads signed_text (get d j) (f j))
      → Shows (record t { device_signed_pre_key_store = d }) (record v { signed_pre_keys = f })
  Shows-signed_pre_keys d f t v shows h = record {
    pre_keys = shows.pre_keys;
    signed_pre_keys = h;
    kyber_pre_keys = shows.kyber_pre_keys;
    sessions = shows.sessions;
    deniable_sessions = shows.deniable_sessions;
    identities = shows.identities;
    deniable_identities = shows.deniable_identities;
  }

  pub Shows-kyber_pre_keys :
      (d : Dict ℕ Text) (f : ℕ → Option SignedPreKeyRecord) (t : Tables) (v : View I R)
      → Shows t v
      → ((j : ℕ) → Reads kyber_text (get d j) (f j))
      → Shows (record t { device_kyber_pre_key_store = d }) (record v { kyber_pre_keys = f })
  Shows-kyber_pre_keys d f t v shows h = record {
    pre_keys = shows.pre_keys;
    signed_pre_keys = shows.signed_pre_keys;
    kyber_pre_keys = h;
    sessions = shows.sessions;
    deniable_sessions = shows.deniable_sessions;
    identities = shows.identities;
    deniable_identities = shows.deniable_identities;
  }

  pub Shows-sessions :
      (d : Dict String Text) (f : String → Option R) (t : Tables) (v : View I R)
      → Shows t v
      → ((j : String) → Reads session_text (get d j) (f j))
      → Shows (record t { device_session_store = d }) (record v { sessions = f })
  Shows-sessions d f t v shows h = record {
    pre_keys = shows.pre_keys;
    signed_pre_keys = shows.signed_pre_keys;
    kyber_pre_keys = shows.kyber_pre_keys;
    sessions = h;
    deniable_sessions = shows.deniable_sessions;
    identities = shows.identities;
    deniable_identities = shows.deniable_identities;
  }

  pub Shows-deniable_sessions :
      (d : Dict String Text) (f : String → Option R) (t : Tables) (v : View I R)
      → Shows t v
      → ((j : String) → Reads session_text (get d j) (f j))
      → Shows (record t { deniable_device_session_store = d }) (record v { deniable_sessions = f })
  Shows-deniable_sessions d f t v shows h = record {
    pre_keys = shows.pre_keys;
    signed_pre_keys = shows.signed_pre_keys;
    kyber_pre_keys = shows.kyber_pre_keys;
    sessions = shows.sessions;
    deniable_sessions = h;
    identities = shows.identities;
    deniable_identities = shows.deniable_identities;
  }

  pub Shows-identities :
      (d : Dict String Text) (f : String → Option I) (t : Tables) (v : View I R)
      → Shows t v
      → ((j : String) → Reads identity_text (get d j) (f j))
      → Shows (record t { device_identity_key_store = d }) (record v { identities = f })
  Shows-identities d f t v shows h = record {
    pre_keys = shows.pre_keys;
    signed_pre_keys = shows.signed_pre_keys;
    kyber_pre_keys = shows.kyber_pre_keys;
    sessions = shows.sessions;
    deniable_sessions = shows.deniable_sessions;
    identities = h;
    deniable_identities = shows.deniable_identities;
  }

  pub Shows-deniable_identities :
      (d : Dict String Text) (f : String → Option I) (t : Tables) (v : View I R)
      → Shows t v
      → ((j : String) → Reads identity_text (get d j) (f j))
      → Shows
          (record t { deniable_device_identity_key_store = d })
          (record v { deniable_identities = f })
  Shows-deniable_identities d f t v shows h = record {
    pre_keys = shows.pre_keys;
    signed_pre_keys = shows.signed_pre_keys;
    kyber_pre_keys = shows.kyber_pre_keys;
    sessions = shows.sessions;
    deniable_sessions = shows.deniable_sessions;
    identities = shows.identities;
    deniable_identities = h;
  }
