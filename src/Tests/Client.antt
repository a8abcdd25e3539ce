-- ===== src/Tests/Client.antt =====
-- The client at concrete inputs.
use mathlib.Core.List.{Permᴰ, Mem, mem-cons, not-mem-nil}
use mathlib.Core.Logic.Or
use mathlib.Core.HLevel.{⊥_prop}
use denim.Prelude.{
  nat_eq, string_eq, replicate, false, zero, suc, ◌+◌, ◌==◌, if◌then◌else◌, ap, ◌∙◌, String, ℕ, ◌≡◌,
  refl, none, some, List, [], ◌∷◌, pos, negsuc, arith, ok, err,
}
use denim.Prelude.Effects.{Ends}
use denim.Chunk.Types.{DenimChunk}
use denim.Chunk.Ordered.Emits.{final_chunk}
use denim.DenimManager.Payloads.{Codec}
use denim.Storage.{Libsignal, other_error, no_tables}
use denim.Storage.Device.Chunks.{held}
use denim.Storage.Device.Sound.{IsSound}
use denim.Storage as Storage
use denim.Prelude.Dict.{get, assoc}
use denim.Account.{Account, aci_id, service_id_eq}
use denim.WebApi.{DeniablePayload, Envelope}
use denim.Padding.{terminator}
use denim.Padding.RoundTrip.{filler, pad_message_lem}
use denim.Client.Envelopes.{Decryption, decode_ciphertext, decrypt, try_get_message_as_string}
use denim.Client.Envelopes.Carried.{text_content, decrypt-to_envelope}
use denim.Client.Sending.{Crypto, signal_message, signal_message_of}
use denim.Server.Envelopes.{to_envelope}
use Prim.Native.Char.{code}
use denim.Contacts.{new}
use denim.Client.Contacts.{Bundles, State}
use denim.Client.Contacts.Calls.{ContactCall, add, update, perform_all}
use denim.Client.Contacts.Loads.{Loads}
use denim.Client.Sending.Queued.{queue_all, queued, waiting, request_of, queue_all-asks_once}
use denim.Tests.Storage.{base64}
use denim.Tests.Requests.{ids}
use denim.Client.Incoming.{without_dummies}
use denim.Client.Incoming.Arrival.{receive_all, receive_all-arrives}
use denim.Tests.Device.{engine, engine-IsTable}

abbrev engine-IsSound : IsSound engine
engine-IsSound = record {
  prepares = λ s. refl;
  executes = λ s. refl;
  fetches = λ s. refl;
  begins = λ s. refl;
  commits = λ s. refl;
}

-- Payloads that are their own bytes.
abbrev bytes : Codec (List ℕ)
bytes = record { serialize = λ p. p; deserialize = some; deserialize-serialize = λ p. refl }

abbrev first_part : DenimChunk
first_part = record { chunk = 1 ∷ 2 ∷ []; flags = pos 0 }

abbrev second_part : DenimChunk
second_part = record { chunk = 3 ∷ []; flags = negsuc 0 }

abbrev dummy_chunk : DenimChunk
dummy_chunk = record { chunk = 0 ∷ 0 ∷ []; flags = pos 1 }

abbrev next_part : DenimChunk
next_part = record { chunk = 9 ∷ []; flags = pos 0 }

-- The second part comes first, and the next payload begins behind the final chunk.
receive_all-arrives_example :
    Ends
      (receive_all bytes engine
        ((dummy_chunk ∷ second_part ∷ [])
          ∷ (first_part ∷ final_chunk (4 ∷ []) ∷ dummy_chunk ∷ next_part ∷ [])
          ∷ [])
        (no_tables, tt))
      λ got st.
        (got ≡ (1 ∷ 2 ∷ 3 ∷ 4 ∷ []) ∷ [])
        × Permᴰ (held st.0) (without_dummies (dummy_chunk ∷ next_part ∷ []))
unfolding without_dummies
receive_all-arrives_example =
    receive_all-arrives bytes engine engine-IsTable engine-IsSound
      ((dummy_chunk ∷ second_part ∷ []) ∷ []) (first_part ∷ []) (dummy_chunk ∷ next_part ∷ [])
      (4 ∷ []) (1 ∷ 2 ∷ 3 ∷ 4 ∷ []) (first_part ∷ second_part ∷ []) no_tables tt
      (Permᴰ.swap refl refl) (omega arith, (omega arith, tt)) refl (omega arith, tt)

-- libsignal, of which nothing is called.
abbrev nothing : {A : Type 0} → Storage.Codec A
nothing = record {
  serialize = λ a. err (other_error "not called");
  deserialize = λ bytes. err (other_error "not called");
}

abbrev signal : Libsignal ℕ ℕ ℕ ℕ
signal = record {
  address_text = λ address. address.name;
  error_text = λ e. "error";
  serialize_identity = λ i. i ∷ [];
  decode_identity = λ bytes. err (other_error "not called");
  serialize_private = λ i. i ∷ [];
  decode_private = λ bytes. err (other_error "not called");
  pre_key = nothing;
  signed_pre_key = nothing;
  kyber_pre_key = nothing;
  session = nothing;
  sender_key = nothing;
}

-- The contacts of a client that knows nobody yet.
abbrev no_bundles : Bundles (Unit {0}) (Unit {0})
no_bundles = record {
  fetch_pre_key_bundles = λ id s. (ok [], s);
  device_id = λ bundle. none;
  process_prekey_bundle = λ deniable address bundle st. (ok tt, st);
}

abbrev contact_calls : List ContactCall
contact_calls = add "bob" (aci_id "bob") (some (2 ∷ [])) ∷ update "bob" (3 ∷ []) ∷ []

abbrev ended : State (Unit {0})
ended = (perform_all engine base64 signal ids no_bundles contact_calls (new, (no_tables, tt))).1

abbrev request_bytes : DeniablePayload → List ℕ
request_bytes payload = 1 ∷ []

queue_all-asks_once_example :
    Ends
      (queue_all engine ids request_bytes (aci_id "bob") "bob" ("one" ∷ "two" ∷ []) (no_tables, tt))
      λ _ st.
        (queued st.0 ≡ (request_of engine ids request_bytes (aci_id "bob"), pos 0) ∷ [])
        × Permᴰ (waiting st.0) (("one", "bob") ∷ ("two", "bob") ∷ [])
unfolding get assoc
queue_all-asks_once_example =
    queue_all-asks_once engine ids request_bytes engine-IsTable engine-IsSound (aci_id "bob") "bob"
      "one" ("two" ∷ []) no_tables tt refl

-- A libsignal that leaves messages as they are, and a content that is its text.
abbrev open_letter : Decryption Unit (List ℕ)
open_letter = record {
  read_signal_message = ok;
  read_sender_key_message = ok;
  read_pre_key_signal_message = ok;
  read_plaintext_content = ok;
  message_decrypt = λ denied c address s. (ok c, s);
  decode_content = λ bytes. ok (text_content "hi" []);
}

abbrev letter : List ℕ
letter = 104 ∷ 105 ∷ []

abbrev padded_letter : List ℕ
padded_letter = 104 ∷ 105 ∷ terminator ∷ replicate (filler letter) 0

-- A stand-in for base64: each byte as that many letters, and an end.
abbrev marks : ℕ → String → String
marks zero rest = String.◌∷◌ ";" rest
marks (suc n) rest = String.◌∷◌ "x" (marks n rest)

abbrev in_marks : List ℕ → String
in_marks [] = ""
in_marks (b ∷ bs) = marks b (in_marks bs)

abbrev counted : ℕ → String → List ℕ
counted n String.[] = []
counted n (String.◌∷◌ c rest) = if code c == 59 then n ∷ counted 0 rest else counted (suc n) rest

counted-marks : (k n : ℕ) (rest : String) → counted k (marks n rest) ≡ (k + n) ∷ counted 0 rest
counted-marks k zero rest = ap (λ m. m ∷ counted 0 rest) (omega arith)
counted-marks k (suc n) rest =
    counted-marks (suc k) n rest ∙ ap (λ m. m ∷ counted 0 rest) (omega arith)

counted-in_marks : (bytes : List ℕ) → counted 0 (in_marks bytes) ≡ bytes
counted-in_marks [] = refl
counted-in_marks (b ∷ bs) =
    counted-marks 0 b (in_marks bs)
    ∙ ap (λ m. m ∷ counted 0 (in_marks bs)) (omega arith)
    ∙ ap (◌∷◌ b) (counted-in_marks bs)

-- A sender whose ciphertext is the message.
abbrev plainly : Crypto (Unit {0}) ℕ (List ℕ) ℕ
plainly = record {
  remote_registration_id = ok;
  message_encrypt = λ denied bytes address s. (ok bytes, s);
  kind = λ c. signal_message;
  serialize = λ c. c;
  encode_content = λ text name. letter;
  base64_encode = in_marks;
  size_of = λ payload. 0;
  traversed = λ msgs. msgs;
}

abbrev alice_account : Account
alice_account = record {
  aci = "alice";
  pni = "alice";
  aci_identity_key = [];
  pni_identity_key = [];
  devices = [];
  phone_number = "1";
}

letter-lacks : ¬ Mem terminator letter
letter-lacks m =
    Or.elim ⊥_prop (mem-cons.0 m) (λ e. omega arith)
      λ m'. Or.elim ⊥_prop (mem-cons.0 m') (λ e. omega arith) not-mem-nil

decrypt-to_envelope_example :
    (e : Envelope) × (to_envelope
        (λ text. some (counted 0 text))
        ids
        8
        (signal_message_of engine base64 signal ids plainly none (1, (10, padded_letter)))
        (aci_id "bob")
        alice_account
        2
        7
        false
      ≡ ok e)
    × Ends (decrypt ids open_letter false e (no_tables, tt)) λ p after.
      (try_get_message_as_string p ≡ ok "hi")
      × (p.source_service_id ≡ some (aci_id "alice"))
      × (p.source_device ≡ some 2)
      × (p.destination_service_id ≡ some (aci_id "bob"))
      × (p.timestamp ≡ some 7)
      × (after ≡ (no_tables, tt))
unfolding decode_ciphertext
decrypt-to_envelope_example =
    decrypt-to_envelope engine base64 signal ids plainly open_letter (λ text. some (counted 0 text))
      false padded_letter padded_letter 1 10 (aci_id "bob") alice_account 2 7 8 (no_tables, tt)
      (no_tables, tt) letter padded_letter "hi" [] (λ bytes. ap some (counted-in_marks bytes)) refl
      (pad_message_lem letter).0 refl refl letter-lacks
