-- ===== src/Tests/Storage.antt =====
-- The queues in Redis at concrete inputs, with a server that answers as documented.
use denim.Prelude.{
  ℕ, ◌+◌, ◌-◌, ◌≡◌, ◌==◌, if◌then◌else◌, Option, refl, ap, pos, some, none, List, [], ◌∷◌, ◌++◌, ok,
  inr, arith, length,
}
use denim.Prelude.Effects.{Ends}
use denim.Text.{Text, codes}
use denim.Text.Find.{Lacks}
use denim.Account.{ProtocolAddress}
use denim.Chunk.Types.{DenimChunk}
use denim.WebApi.{Envelope}
use denim.DenimManager.Buffers.{sender}
use denim.Redis.{Server, run}
use denim.Redis.Documented.{View, documented, IsDocumented}
use denim.Redis.Operations.{insert}
use denim.Redis.Entries.{Base64}
use denim.Redis.Entries.RoundTrip.{IsBase64}
use denim.Redis.Operations.{Keys, dequeue_bytes}
use denim.Redis.Queue.{Entry, Holds, Stores, AreApart, take_from}
use denim.Redis.Queue.Insert.{new_entry, after_insert}
use denim.Redis.Queue.Inserted.{insert-again, insert_twice, Stores-inserted}
use denim.Redis.Queue.Takes.{dequeue_bytes-take_from}
use denim.Caches.Chunks as chunks
use denim.Caches.Chunks.{Bincode, dequeue_chunks}
use denim.Caches.Chunks.Page.{keys_of-AreApart, dequeue_chunks-page}
use denim.Caches.Messages as cache
use denim.Messages.{Database}
use denim.Messages.Persister.{persist_queue}
use denim.Messages.Persister.Batches.{IsInbox, keys_of-AreApart as messages_apart}
use denim.Messages.Persister.Moves.{persist_queue-moves}

-- A stand-in for base64: the bytes, moved past the colon.
abbrev shifted : List ℕ → Text
shifted [] = []
shifted (b ∷ bs) = (59 + b) ∷ shifted bs

abbrev unshifted : Text → List ℕ
unshifted [] = []
unshifted (b ∷ bs) = (b - 59) ∷ unshifted bs

abbrev pub base64 : Base64
base64 = record { encode = shifted; decode = λ t. ok (unshifted t) }

unshifted-shifted : (bytes : List ℕ) → unshifted (shifted bytes) ≡ bytes
unshifted-shifted [] = refl
unshifted-shifted (b ∷ bs) = ground (arith, unshifted-shifted bs)

shifted-Lacks : (bytes : List ℕ) → Lacks b':' (shifted bytes)
shifted-Lacks [] = tt
shifted-Lacks (b ∷ bs) = (λ e. omega arith, shifted-Lacks bs)

pub base64-IsBase64 : IsBase64 base64
base64-IsBase64 = record {
  decode-encode = λ bytes. ap ok (unshifted-shifted bytes);
  no_colon = shifted-Lacks;
}

abbrev empty_view : View
empty_view = record { strings = λ k. none; hashes = λ k field. none; zsets = λ k. [] }

documented-IsDocumented : IsDocumented documented (λ v. v)
documented-IsDocumented c s = (refl, refl)

Stores-empty : (keys : Keys) → Stores base64 keys [] empty_view
Stores-empty keys = record {
  count = 0;
  entries = refl;
  tracked = tt;
  counted = inr (refl, refl);
  rises = omega arith;
  bounded = omega arith;
}

-- A store after one insertion, of a value under the guid `a`.
abbrev first_entry : Keys → List ℕ → Entry
first_entry keys value = new_entry base64 base64-IsBase64 keys 1 (codes "a") value

abbrev one_view : Keys → List ℕ → View
one_view keys value = after_insert base64 base64-IsBase64 keys 700 1 [] (codes "a") value empty_view

Stores-one :
    (keys : Keys) (value : List ℕ)
    → AreApart keys
    → Stores base64 keys (first_entry keys value ∷ []) (one_view keys value)
unfolding Stores-empty
Stores-one keys value apart =
    Stores-inserted base64 base64-IsBase64 keys 700 [] (codes "a") value empty_view apart
      (Stores-empty keys) (omega arith) refl tt

Holds-one :
    (keys : Keys) (value : List ℕ)
    → AreApart keys
    → Holds base64 keys (first_entry keys value ∷ []) (one_view keys value)
Holds-one keys value apart = record { stores = Stores-one keys value apart; unlocked = refl }

abbrev test_keys : Keys
test_keys = record {
  queue = codes "q";
  metadata = codes "m";
  total_index = codes "i";
  lock = codes "l";
}

test_keys-AreApart : AreApart test_keys
test_keys-AreApart = record { index_apart = refl }

-- Two of the three bytes are taken, and one is left.
dequeue_bytes-take_from_example :
    Ends
      (run documented (dequeue_bytes base64 test_keys 2) (one_view test_keys (7 ∷ 8 ∷ 9 ∷ [])))
      λ r v.
        (r ≡ (take_from 2 (first_entry test_keys (7 ∷ 8 ∷ 9 ∷ []) ∷ [])).0)
        × Holds base64 test_keys (take_from 2 (first_entry test_keys (7 ∷ 8 ∷ 9 ∷ []) ∷ [])).1 v
dequeue_bytes-take_from_example =
    dequeue_bytes-take_from base64 base64-IsBase64 test_keys documented (λ v. v) 2
      (first_entry test_keys (7 ∷ 8 ∷ 9 ∷ []) ∷ []) (one_view test_keys (7 ∷ 8 ∷ 9 ∷ []))
      documented-IsDocumented test_keys-AreApart
      (Holds-one test_keys (7 ∷ 8 ∷ 9 ∷ []) test_keys-AreApart) (omega arith)

Holds-empty : (keys : Keys) → Holds base64 keys [] empty_view
unfolding Stores-empty
Holds-empty keys = record { stores = Stores-empty keys; unlocked = refl }

insert-again_example :
    Ends
      (run documented
        (insert_twice base64 base64-IsBase64 test_keys 700 701 (codes "b") (3 ∷ []) (4 ∷ []))
        empty_view)
      λ r v.
        (r ≡ (1, 1))
        × Holds base64 test_keys
            (new_entry base64 base64-IsBase64 test_keys 1 (codes "b") (3 ∷ []) ∷ [])
            v
        × (v
            ≡ (run documented (insert base64 test_keys (ok 700) (codes "b") (3 ∷ [])) empty_view).1)
unfolding Holds-empty
insert-again_example =
    insert-again base64 base64-IsBase64 test_keys documented (λ v. v) 700 701 [] (codes "b")
      (3 ∷ []) (4 ∷ []) empty_view documented-IsDocumented test_keys-AreApart
      (Holds-empty test_keys) (omega arith) refl tt refl

abbrev alice : ProtocolAddress
alice = record { name = "alice"; device_id = 1 }

-- One byte of data and the flags 1, without a format.
abbrev chunk_bincode : Bincode DenimChunk
chunk_bincode = record {
  serialize = λ c. ok c.chunk;
  deserialize = λ bytes. ok (record { chunk = bytes; flags = pos 2 });
}

dequeue_chunks-page_example :
    Ends
      (run documented
        (dequeue_chunks base64 chunk_bincode alice sender)
        (one_view (chunks.keys_of alice sender) (7 ∷ [])))
      λ cs v.
        (cs ≡ record { chunk = 7 ∷ []; flags = pos 2 } ∷ [])
        × Holds base64 (chunks.keys_of alice sender) [] v
dequeue_chunks-page_example =
    dequeue_chunks-page base64 base64-IsBase64 chunk_bincode documented (λ v. v) alice sender
      (first_entry (chunks.keys_of alice sender) (7 ∷ []) ∷ [])
      (record { chunk = 7 ∷ []; flags = pos 2 } ∷ [])
      (one_view (chunks.keys_of alice sender) (7 ∷ [])) documented-IsDocumented
      (Holds-one (chunks.keys_of alice sender) (7 ∷ []) (keys_of-AreApart alice sender)) (refl, tt)

-- Messages: the value is the first byte of the guid, and the database keeps one list.
abbrev the_envelope : Envelope
the_envelope = record {
  kind = none;
  source_service_id = none;
  source_device = none;
  timestamp = none;
  content = none;
  server_guid = some "a";
  server_timestamp = none;
  ephemeral = none;
  destination_service_id = none;
  urgent = none;
  updated_pni = none;
  story = none;
  reporting_token = none;
}

abbrev envelope_bincode : Bincode Envelope
envelope_bincode = record { serialize = λ e. ok (1 ∷ []); deserialize = λ bytes. ok the_envelope }

abbrev World : Type 0
World = View × List Envelope

abbrev on_world : Server World
on_world c w = ((documented c w.0).0, ((documented c w.0).1, w.1))

abbrev list_database : Database World
list_database = record {
  push_message_queue = λ a ms w. (ok tt, (w.0, if a.device_id == 1 then w.1 ++ ms else w.1));
  count_messages = λ a w. (ok (length w.1), w);
  get_messages = λ a w. (ok w.1, w);
  delete_messages = λ a w. (ok w.1, (w.0, []));
}

abbrev world_inbox : World → ProtocolAddress → Option (List Envelope)
world_inbox w a = if a.device_id == 1 then some w.1 else none

on_world-IsDocumented : IsDocumented on_world (λ w. w.0)
on_world-IsDocumented c w = (refl, refl)

pushed :
    (a : ProtocolAddress) (ms old : List Envelope) (w : World)
    → world_inbox w a ≡ some old
    → (world_inbox (list_database.push_message_queue a ms w).1 a ≡ some (old ++ ms)) × (w.0 ≡ w.0)
pushed a ms old w h = (ground (arith, h), refl)

list_database-IsInbox : IsInbox on_world (λ w. w.0) list_database world_inbox
list_database-IsInbox = record {
  push-appends = λ a ms old w h. pushed a ms old w h;
  execute-keeps = λ c w. refl;
}

persist_queue-moves_example :
    Ends
      (persist_queue on_world list_database base64 envelope_bincode 2 alice
        (one_view (cache.keys_of alice) (1 ∷ []), []))
      λ _ w.
        (world_inbox w alice ≡ some (the_envelope ∷ [])) × Holds base64 (cache.keys_of alice) [] w.0
persist_queue-moves_example =
    persist_queue-moves base64 base64-IsBase64 envelope_bincode alice on_world (λ w. w.0)
      list_database world_inbox on_world-IsDocumented list_database-IsInbox 2
      (first_entry (cache.keys_of alice) (1 ∷ []) ∷ []) (the_envelope ∷ []) []
      (one_view (cache.keys_of alice) (1 ∷ []), []) refl
      (Stores-one (cache.keys_of alice) (1 ∷ []) (messages_apart alice)) (refl, tt) (refl, tt)
      (omega arith)
