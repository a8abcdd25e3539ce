-- ===== src/Tests/Requests.antt =====
-- Requests with messages at concrete inputs. The state is the list of what is stored.
use denim.Prelude.{
  ℕ, ◌≡◌, ◌⊎◌, refl, ap, true, false, not, ◌&&◌, String, Option, none, some, List, [], ◌∷◌, ◌++◌,
  map, arith, ok, err, contains, nat_eq, string_eq, ◌==◌, if◌then◌else◌, pos, Bool-cases, inl, inr,
}
use denim.Prelude.Effects.{Gives, Fails}
use denim.Chunk.Types.{DenimChunk}
use denim.Chunk.Ordered.Emits.{dummy_chunk, final_chunk}
use denim.WebApi.{SignalMessage, Envelope, RegularPayload, DenimMessages}
use denim.Account.{
  Account, Device, AuthenticatedDevice, ServiceId, aci_id, pni_id, ServiceIds, ProtocolAddress,
  protocol_address_eqb, service_id_eqb, find_device,
}
use denim.Validators.{device_ids, registration_of}
use denim.Server.{Host, forbidden}
use denim.Server.Messages.{Managers, handle_put_messages}
use denim.Server.Messages.Delivery.{
  body, IsStore, envelopes_for, own_device, handle_put_messages-Delivers,
}
use denim.Server.Messages.Answer.{
  IsAvailable, handle_put_messages-accepts, handle_put_messages-refused,
}
use Prim.Native.Char.{code}
use denim.Server.Chunks
use denim.Server.Chunks.{handle_receiving_chunks}
use denim.Server.Chunks.Dummies.{handle_receiving_chunks-dummy}

abbrev Stored : Type 0
Stored = List (ProtocolAddress × Envelope)

abbrev inbox : Stored → ProtocolAddress → List Envelope
inbox [] b = []
inbox ((a, e) ∷ s) b = (if protocol_address_eqb a b then e ∷ [] else []) ++ inbox s b

abbrev device : ℕ → Device
device id = record {
  device_id = id;
  name = "phone";
  last_seen = 0;
  created = 0;
  auth_token = "token";
  salt = "salt";
  registration_id = 10;
  pni_registration_id = 20;
  capabilities = [];
}

abbrev account : String → Account
account name = record {
  aci = name;
  pni = name;
  aci_identity_key = [];
  pni_identity_key = [];
  devices = device 1 ∷ device 2 ∷ [];
  phone_number = name;
}

abbrev alice : AuthenticatedDevice
alice = record { account = account "alice"; device = device 1 }

abbrev managers : Managers Stored
managers = record {
  get_account = λ s id. some (account "bob");
  insert = λ a e s. (ok 1, s ++ (a, e) ∷ []);
  receive_chunks = λ d a cs t s. (ok tt, s);
  inbox = inbox;
}

inbox-snoc :
    (s : Stored) (a : ProtocolAddress) (e : Envelope) (b : ProtocolAddress)
    → map body (inbox (s ++ (a, e) ∷ []) b)
      ≡ map body (inbox s b) ++ (if protocol_address_eqb a b then body e ∷ [] else [])
inbox-snoc [] a e b = elim (Bool-cases (protocol_address_eqb a b)) [
  | inl same ↦ rw same
  | inr other ↦ rw other
]
inbox-snoc ((c, f) ∷ s) a e b = elim (Bool-cases (protocol_address_eqb c b)) [
  | inl same ↦ rw same (ap (◌∷◌ (body f)) (inbox-snoc s a e b))
  | inr other ↦ rw other (inbox-snoc s a e b)
]

managers-IsStore : IsStore managers
managers-IsStore = record {
  inbox-insert = λ a e s b. inbox-snoc s a e b;
  inbox-receive_chunks = λ d a cs t s b. refl;
}

abbrev host : Host Stored
host = record {
  base64_decode = λ text. some (1 ∷ 2 ∷ []);
  mismatched_to_string = λ e. "mismatched";
  stale_to_string = λ e. "stale";
  now_millis = λ s. 5;
}

-- The kind of an identifier is its first letter.
abbrev pub parse_id : String → Option ServiceId
parse_id String.[] = none
parse_id (String.◌∷◌ c id) = some (if code c == 65 then aci_id id else pni_id id)

abbrev pub ids : ServiceIds
ids = record {
  aci_string = λ id. String.◌∷◌ "A" id;
  pni_string = λ id. String.◌∷◌ "P" id;
  parse = parse_id;
  parse-aci_string = λ id. refl;
  parse-pni_string = λ id. refl;
}

managers-IsAvailable : IsAvailable host ids managers
managers-IsAvailable = record { inserts = λ b e s. (1, refl) }

-- A message for each device of the receiver, one of them with chunks.
abbrev to_device : ℕ → SignalMessage
to_device id = record {
  kind = pos 1;
  destination_device_id = id;
  destination_service_id = none;
  destination_registration_id = 10;
  content = "AQI=";
}

abbrev request : DenimMessages ℕ
request = record {
  messages =
      record {
        regular_payload = RegularPayload.signal_message (to_device 1);
        chunks = dummy_chunk (0 ∷ []) ∷ [];
        counter = none;
        q = some 6;
        ballast = [];
      }
      ∷ record {
        regular_payload = RegularPayload.signal_message (to_device 2);
        chunks = [];
        counter = none;
        q = some 6;
        ballast = 0 ∷ [];
      }
      ∷ [];
  online = false;
  urgent = false;
  timestamp = 7;
}

abbrev bob : ServiceId
bob = aci_id "bob"

abbrev bob_two : ProtocolAddress
bob_two = record { name = "Abob"; device_id = 2 }

handle_put_messages-Delivers_example :
    Gives (handle_put_messages host ids managers alice bob request []) λ _ s'.
      (map body (inbox s' bob_two)
        ≡ map body (inbox [] bob_two)
          ++ envelopes_for host ids managers alice bob 7
              (account "bob")
              bob_two
              (to_device 1 ∷ to_device 2 ∷ []))
      × (contains {A = ℕ} (1 ∷ 2 ∷ []) 2 ≡ (
          contains (device_ids (account "bob").devices) 2
          && not (contains (own_device alice bob) 2)))
unfolding service_id_eqb
handle_put_messages-Delivers_example =
    handle_put_messages-Delivers host ids managers managers-IsStore alice bob request
      (account "bob") bob_two 2 [] refl

exactly_these :
    (d : ℕ)
    → contains {A = ℕ} (1 ∷ 2 ∷ []) d
      ≡ (contains {A = ℕ} (1 ∷ 2 ∷ []) d && not (contains {A = ℕ} [] d))
exactly_these d = ground arith

handle_put_messages-accepts_example :
    (handle_put_messages host ids managers alice bob request []).0
    ≡ ok (record { needs_sync = true })
unfolding service_id_eqb find_device registration_of
handle_put_messages-accepts_example =
    handle_put_messages-accepts host ids managers managers-IsAvailable alice bob request
      (account "bob") [] refl refl exactly_these
      (inr (device 1, refl, refl), (inr (device 2, refl, refl), tt))
      ((1 ∷ 2 ∷ [], refl), ((1 ∷ 2 ∷ [], refl), tt)) refl

handle_put_messages-refused_example :
    Fails
      (handle_put_messages host ids managers alice (pni_id "alice") request [])
      λ e s'. (e.status_code ≡ 500) ⊎ (s' ≡ [])
handle_put_messages-refused_example =
    handle_put_messages-refused host ids managers alice (pni_id "alice") request []

refused_run :
    handle_put_messages host ids managers alice (pni_id "alice") request [] ≡ (err forbidden, [])
unfolding handle_put_messages service_id_eqb
refused_run = refl

-- The chunks that have been taken.
abbrev chunk_managers : Chunks.Managers (List DenimChunk)
chunk_managers = record {
  enqueue_incoming = λ a cs s. (ok 1, s ++ cs);
  flush_incoming = λ a s. (ok [], []);
  enqueue_outgoing = λ a ps s. (ok 1, s);
  get_account = λ id s. (ok (account "bob"), s);
  get_keys = λ d id n s. (err forbidden, s);
  same_account = λ a b. string_eq.eqb a.aci b.aci;
  traversed = λ entries. entries;
}

abbrev chunk_host : Host (List DenimChunk)
chunk_host = record {
  base64_decode = λ text. some (1 ∷ 2 ∷ []);
  mismatched_to_string = λ e. "mismatched";
  stale_to_string = λ e. "stale";
  now_millis = λ s. 5;
}

handle_receiving_chunks-dummy_example :
    handle_receiving_chunks chunk_host ids chunk_managers alice
      (account "bob")
      (final_chunk (9 ∷ []) ∷ dummy_chunk (0 ∷ 0 ∷ []) ∷ [])
      7
      []
    ≡ handle_receiving_chunks chunk_host ids chunk_managers alice
        (account "bob")
        (final_chunk (9 ∷ []) ∷ [])
        7
        []
handle_receiving_chunks-dummy_example =
    handle_receiving_chunks-dummy chunk_host ids chunk_managers alice (account "bob")
      (final_chunk (9 ∷ []) ∷ []) [] (0 ∷ 0 ∷ []) 7 []
