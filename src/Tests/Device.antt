-- ===== src/Tests/Device.antt =====
-- The client's database at concrete inputs: an engine whose calls succeed, and records as lists of
-- their parts.
use mathlib.Core.List.{Permᴰ}
use mathlib.Core.List.Permᴰ
use denim.Prelude.{
  ℕ, ◌+◌, ◌<◌, ◌≡◌, refl, ap, true, none, List, [], ◌∷◌, ◌++◌, length, take, drop, ok, err, String,
  nat_eq, string_eq, pos, negsuc, arith,
}
use denim.Prelude.Dict.{Dict, get, assoc, contains_key}
use denim.Prelude.Effects.{AllOrNothing, Ends, Gives}
use denim.Account.{ProtocolAddress}
use denim.Chunk.Types.{DenimChunk}
use denim.KeyManagers.Client.{PreKeyRecord, SignedPreKeyRecord, Signal, kyber, get_new_key_id}
use denim.Storage.{Codec, Libsignal, Tables, no_tables, Engine}
use denim.Storage.Device.Deniable.{
  store_incoming_deniable_chunks, get_and_remove_incoming_deniable_chunks,
}
use denim.Storage.Device.Profile.{get_key_ids, max_key}
use denim.Storage.Device.Reliable.{IsReliable, IsFaithful, IsLibsignal}
use denim.Storage.Device.Chunks.{
  IsTable, Taken, held, store_incoming_deniable_chunks-held,
  get_and_remove_incoming_deniable_chunks-all,
}
use denim.Storage.Device.KeyIds.{stored, login_manager, get_key_ids-fresh}
use denim.Storage.Device.History.{
  Call, pre_key_saved, pre_key_removed, session_stored, identity_saved, nothing, after_all,
  perform_all, Answers,
}
use denim.Storage.Device.History.Lookups.{perform_all-Answers}
use denim.Tests.Requests.{ids}
use denim.Tests.Storage.{base64, base64-IsBase64}

-- A list with its length in front of the rest.
abbrev pack : List ℕ → List ℕ → List ℕ
pack xs rest = length xs ∷ (xs ++ rest)

abbrev front : List ℕ → List ℕ
front [] = []
front (n ∷ r) = take n r

abbrev behind : List ℕ → List ℕ
behind [] = []
behind (n ∷ r) = drop n r

take-packed : (xs rest : List ℕ) → take (length xs) (xs ++ rest) ≡ xs
take-packed [] rest = refl
take-packed (x ∷ xs) rest = ap (◌∷◌ x) (take-packed xs rest)

drop-packed : (xs rest : List ℕ) → drop (length xs) (xs ++ rest) ≡ rest
drop-packed [] rest = refl
drop-packed (x ∷ xs) rest = drop-packed xs rest

abbrev first_of : List ℕ → ℕ
first_of [] = 0
first_of (n ∷ r) = n

abbrev rest_of : List ℕ → List ℕ
rest_of [] = []
rest_of (n ∷ r) = r

abbrev pre_key_codec : Codec PreKeyRecord
pre_key_codec = record {
  serialize = λ r. ok (r.id ∷ pack r.key_pair.public_key (r.key_pair.private_key));
  deserialize = λ b. ok (record {
    id = first_of b;
    key_pair = record { public_key = front (rest_of b); private_key = behind (rest_of b) };
  });
}

pre_key-IsFaithful : IsFaithful pre_key_codec
pre_key-IsFaithful = record {
  roundtrip = λ r. (
    _,
    refl,
    rw
        (
          take-packed r.key_pair.public_key r.key_pair.private_key,
          drop-packed r.key_pair.public_key r.key_pair.private_key,
        )
        refl,
  );
}

abbrev signed_codec : Codec SignedPreKeyRecord
signed_codec = record {
  serialize = λ r.
      ok
        (r.id ∷ r.timestamp ∷ pack r.key_pair.public_key (pack r.key_pair.private_key r.signature));
  deserialize = λ b.
      let c = rest_of (rest_of b) in
      ok (record {
        id = first_of b;
        timestamp = first_of (rest_of b);
        key_pair = record { public_key = front c; private_key = front (behind c) };
        signature = behind (behind c);
      });
}

signed-IsFaithful : IsFaithful signed_codec
signed-IsFaithful = record {
  roundtrip = λ r. (
    _,
    refl,
    rw
        (
          take-packed r.key_pair.public_key (pack r.key_pair.private_key r.signature),
          drop-packed r.key_pair.public_key (pack r.key_pair.private_key r.signature),
          take-packed r.key_pair.private_key r.signature,
          drop-packed r.key_pair.private_key r.signature,
        )
        refl,
  );
}

abbrev number_codec : Codec ℕ
number_codec = record { serialize = λ n. ok (n ∷ []); deserialize = λ b. ok (first_of b) }

abbrev signal : Libsignal ℕ ℕ ℕ ℕ
signal = record {
  address_text = λ a. a.name;
  error_text = λ e. "error";
  serialize_identity = λ i. i ∷ [];
  decode_identity = λ b. ok (first_of b);
  serialize_private = λ i. i ∷ [];
  decode_private = λ b. ok (first_of b);
  pre_key = pre_key_codec;
  signed_pre_key = signed_codec;
  kyber_pre_key = signed_codec;
  session = number_codec;
  sender_key = number_codec;
}

abbrev signal-IsLibsignal : IsLibsignal signal
signal-IsLibsignal = record {
  identities = λ i. refl;
  pre_keys = pre_key-IsFaithful;
  signed_pre_keys = signed-IsFaithful;
  kyber_pre_keys = signed-IsFaithful;
  sessions = record { roundtrip = λ n. (_, refl, refl) };
}

abbrev pub engine : Engine (Unit {0})
engine = record {
  prepare = λ s. (ok tt, s);
  execute = λ s. (ok tt, s);
  fetch = λ s. (ok tt, s);
  begin = λ s. (ok tt, s);
  commit = λ s. (ok tt, s);
  arrange = λ rows. rows;
  fresh_id = λ rows. max_key rows + 1;
}

abbrev engine-IsReliable : IsReliable engine
engine-IsReliable = record { prepares = λ s. (s, refl); executes = λ s. (s, refl) }

assoc-beyond : {A : Type 0} (rows : List (ℕ × A)) (k : ℕ) → max_key rows < k → assoc k rows ≡ none
unfolding assoc
assoc-beyond [] k h = refl
assoc-beyond ((j, a) ∷ rows) k h = ground (arith, h, assoc-beyond rows k)

pub fresh_id-absent : {A : Type 0} (d : Dict ℕ A) → get d (max_key d.entries + 1) ≡ none
unfolding get
fresh_id-absent d = assoc-beyond d.entries (max_key d.entries + 1) (omega arith)

abbrev pub engine-IsTable : IsTable engine
engine-IsTable = record { fresh = fresh_id-absent; arranges = λ rows. Permᴰ.refl rows }

abbrev alice : ProtocolAddress
alice = record { name = "alice"; device_id = 1 }

abbrev a_key : PreKeyRecord
a_key = record { id = 4; key_pair = record { public_key = 5 ∷ []; private_key = 6 ∷ [] } }

abbrev calls : List (Call ℕ ℕ)
calls =
    pre_key_saved 4 a_key
    ∷ session_stored alice 9
    ∷ identity_saved alice 1
    ∷ pre_key_removed 4
    ∷ identity_saved alice 2
    ∷ []

perform_all-Answers_example :
    Ends
      (perform_all engine base64 signal calls (no_tables, tt))
      λ _ st. Answers engine base64 signal st.0 (after_all signal calls nothing)
perform_all-Answers_example =
    perform_all-Answers engine base64 signal engine-IsReliable base64-IsBase64 signal-IsLibsignal
      calls tt

abbrev two_chunks : List DenimChunk
two_chunks =
    record { chunk = 1 ∷ []; flags = pos 0 } ∷ record { chunk = 2 ∷ []; flags = negsuc 0 } ∷ []

abbrev one_held : Tables
one_held = record no_tables {
  incoming_deniable_chunk = record { entries = (1, (7 ∷ [], pos 0)) ∷ [] };
}

store_incoming_deniable_chunks-held_example :
    AllOrNothing one_held
      (store_incoming_deniable_chunks engine two_chunks (one_held, tt))
      λ _ t'. Permᴰ (held t') (two_chunks ++ held one_held)
store_incoming_deniable_chunks-held_example =
    store_incoming_deniable_chunks-held engine engine-IsTable two_chunks one_held tt

get_and_remove_incoming_deniable_chunks-all_example :
    AllOrNothing one_held
      (get_and_remove_incoming_deniable_chunks engine (one_held, tt))
      (Taken engine one_held)
get_and_remove_incoming_deniable_chunks-all_example =
    get_and_remove_incoming_deniable_chunks-all engine one_held tt engine-IsTable

abbrev makes : Signal ℕ String
makes = record {
  generate = λ s. (record { public_key = []; private_key = [] }, s);
  time_now = λ s. s;
  get_identity_key_pair = λ s. (ok (record { public_key = []; private_key = [] }), s);
  calculate_signature = λ k b s. (ok [], s);
  generate_kyber = λ id k s. (err "none", s);
  save_pre_key = λ id r s. (ok tt, s);
  save_signed_pre_key = λ id r s. (ok tt, s);
  save_kyber_pre_key = λ id r s. (ok tt, s);
}

abbrev two_kyber_keys : Tables
two_kyber_keys = record no_tables {
  device_kyber_pre_key_store = record { entries = (7, []) ∷ (3, []) ∷ [] };
}

get_key_ids-fresh_example :
    Ends (get_key_ids engine base64 signal ids (two_kyber_keys, tt)) λ found st.
      (st.0 ≡ two_kyber_keys)
      × Gives
          (get_new_key_id makes kyber (login_manager found, 0))
          λ new _. (k : ℕ) → contains_key (stored kyber two_kyber_keys) k ≡ true → k < new
get_key_ids-fresh_example =
    get_key_ids-fresh engine engine-IsReliable base64 signal ids makes two_kyber_keys tt kyber 0
