-- ===== src/Tests/Deniable.antt =====
-- Chunks, payloads and buffers at concrete inputs. The measure of room is the size itself, a payload
-- is its own serialization, and a buffer is one list.
use mathlib.Core.List.{Perm}
use mathlib.Core.List.Perm
use denim.Prelude.{
  ◌≤◌, pred_ℤ, ℕ, zero, suc, ◌+◌, ◌<◌, ◌≡◌, ◌≢◌, refl, Option, none, some, List, [], ◌∷◌, ◌++◌,
  take, drop, length, length-replicate, length-take, replicate, ℤ, pos, negsuc, min_i32, arith, ok,
  Returns, NoPanic, IfOk,
}
use denim.Prelude.Effects.{Ends, ◌>>=◌}
use denim.Chunk.Types.{
  DenimChunk, Wire, Chunker, chunks_size, payload_data, decrement, empty_vec_size,
  empty_denimchunk_size,
}
use denim.Chunk.Ordered.{next_chunk, create_ordered_chunks}
use denim.Chunk.Ordered.Space.{create_ordered_chunks-Fills}
use denim.Chunk.Ordered.Emits.{
  Emits, part_chunk, final_chunk, dummy_chunk, create_ordered_chunks-Emits,
}
use denim.Chunk.Buffer.{DeniableSendingBuffer, message_or_default, create_chunks}
use denim.Chunk.Buffer.Space.{IsSound, create_chunks_fills}
use denim.DenimManager.Payloads.{Codec, create_deniable_payloads}
use denim.DenimManager.Payloads.Order.{AllData, create_deniable_payloads_any_order}
use denim.DenimManager.Payloads.RoundTrip.{transmit, transmit-create_deniable_payloads}
use denim.DenimManager.Buffers.{sender, ChunkCache, flush_chunk_buffer}
use denim.DenimManager.Buffers.Flush.{
  IsQueue, receive_all, flush_chunk_buffer-receive_all, flush_chunk_buffer-stalls,
}
use denim.Redis.Operations.{page_size}
use denim.DenimManager.Outgoing.{PayloadCache, Measure, create_denim_message}
use denim.DenimManager.Outgoing.Space.{GivesAtMost, create_denim_message-fills}
use denim.Account.{ProtocolAddress}
use denim.WebApi.{Envelope, RegularPayload}

abbrev zeros : List DenimChunk → List ℕ
zeros cs = replicate (empty_vec_size + chunks_size cs) 0

length-zeros : (cs : List DenimChunk) → length (zeros cs) ≡ empty_vec_size + chunks_size cs
length-zeros cs = length-replicate {0} {A = ℕ} (empty_vec_size + chunks_size cs) 0

abbrev wire : Wire ℕ
wire = record {
  ceil_mul = λ size q. size;
  six_tenths = 6;
  serialize = zeros;
  length-serialize = length-zeros;
}

abbrev chunker : Chunker ℕ
chunker = record { q_value = 6 }

abbrev codec : Codec (List ℕ)
codec = record {
  serialize = λ p. p;
  deserialize = λ bytes. some bytes;
  deserialize-serialize = λ p. refl;
}

abbrev five : List ℕ
five = 1 ∷ 2 ∷ 3 ∷ 4 ∷ 5 ∷ []

abbrev first_part : DenimChunk
first_part = part_chunk (pos 0) (1 ∷ 2 ∷ [])

abbrev second_part : DenimChunk
second_part = part_chunk (negsuc 0) (3 ∷ 4 ∷ [])

five_sent :
    transmit wire chunker (22 ∷ 22 ∷ 24 ∷ []) (payload_data five)
    ≡ ok (
      first_part ∷ second_part ∷ final_chunk (5 ∷ []) ∷ [],
      record { chunk = []; flags = negsuc 1 },
    )
unfolding transmit create_ordered_chunks payload_data next_chunk decrement
five_sent = refl

transmit-create_deniable_payloads_example :
    create_deniable_payloads codec (first_part ∷ second_part ∷ final_chunk (5 ∷ []) ∷ [])
    ≡ ok (five ∷ [], [])
transmit-create_deniable_payloads_example =
    transmit-create_deniable_payloads wire codec chunker (22 ∷ 22 ∷ 24 ∷ []) five
      (first_part ∷ second_part ∷ final_chunk (5 ∷ []) ∷ [])
      (record { chunk = []; flags = negsuc 1 }) (omega arith) five_sent refl

swapped : Perm (second_part ∷ first_part ∷ []) (first_part ∷ second_part ∷ [])
swapped = Perm.swap _ _ _

create_deniable_payloads_any_order_example :
    create_deniable_payloads codec (second_part ∷ first_part ∷ final_chunk (5 ∷ []) ∷ [])
    ≡ ok (five ∷ [], [])
create_deniable_payloads_any_order_example =
    create_deniable_payloads_any_order codec (first_part ∷ second_part ∷ [])
      (second_part ∷ first_part ∷ []) (5 ∷ []) five (omega arith, (omega arith, tt)) swapped refl

not_least : pos 0 ≢ min_i32
not_least e = cc

create_ordered_chunks-Fills_example :
    Returns
      (create_ordered_chunks wire chunker 50 (record { chunk = five; flags = pos 0 }))
      λ r. (length (zeros r.0) + r.1 ≡ 50) × (r.1 < empty_denimchunk_size)
create_ordered_chunks-Fills_example =
    create_ordered_chunks-Fills wire chunker 50 (record { chunk = five; flags = pos 0 })
      (omega arith) not_least

create_ordered_chunks-Emits_example :
    IfOk
      (create_ordered_chunks wire chunker 22 (record { chunk = five; flags = pos 0 }))
      λ r. Emits five (pos 0) r.0 r.2.chunk r.2.flags
create_ordered_chunks-Emits_example =
    create_ordered_chunks-Emits wire chunker 22 (record { chunk = five; flags = pos 0 })

-- A buffer of one message, of which the rest is kept, and the number of its chunks so far.
abbrev count_of : ℕ → ℤ
count_of zero = pos 0
count_of (suc n) = negsuc n

abbrev chunks_of : ℤ → ℕ
chunks_of (pos n) = 0
chunks_of (negsuc n) = suc n

abbrev one_message : List ℕ × ℕ → Option (ℕ × List ℕ × ℤ)
one_message ([], n) = none
one_message (b ∷ bs, n) = some (1, b ∷ bs, count_of n)

abbrev sending : DeniableSendingBuffer (List ℕ × ℕ)
sending = record {
  get_outgoing_message = λ s. (one_message s, s);
  set_outgoing_message = λ id count bytes s. ok (bytes, chunks_of count);
  remove_outgoing_message = λ id s. ok ([], 0);
}

-- The counter is far enough from its least value.
abbrev HasRoom : ℕ → List ℕ × ℕ → Type 0
HasRoom k s = s.1 + k ≤ 2147483648

sending-counts :
    (k : ℕ) (s : List ℕ × ℕ) → HasRoom (suc k) s → (message_or_default (one_message s)).2 ≢ min_i32
sending-counts k ([], n) room e = cc
sending-counts k (b ∷ bs, zero) room e = cc
sending-counts k (b ∷ bs, suc n) room e = absurd (ground (arith, e))

sending-sets :
    (k n : ℕ) (s : List ℕ × ℕ)
    → HasRoom (suc k) s
    → HasRoom k ([], chunks_of (pred_ℤ (message_or_default (one_message s)).2))
sending-sets k n ([], m) room = omega arith
sending-sets k n (b ∷ bs, zero) room = omega arith
sending-sets k n (b ∷ bs, suc m) room = omega arith

sending-IsSound : IsSound sending HasRoom
sending-IsSound = record {
  counts = sending-counts;
  gets = λ k s room. omega arith;
  sets = λ k n s room. sending-sets k n s room;
  removes = λ k s room. omega arith;
}

create_chunks_fills_example :
    NoPanic
      (create_chunks wire chunker 50 sending (five, 0))
      λ r. (length (zeros r.0) + r.1 ≡ 50) × (r.1 < empty_denimchunk_size)
create_chunks_fills_example =
    create_chunks_fills sending sending-IsSound wire chunker 50 (five, 0) (omega arith)
      (omega arith)

-- Two full chunks, a final one, and the bytes left.
create_chunks_run :
    create_chunks wire chunker 51 sending (five, 0)
    ≡ ok (final_chunk five ∷ dummy_chunk (replicate 14 0) ∷ [], 0, ([], 0))
unfolding create_chunks
create_chunks_run = refl

abbrev alice : ProtocolAddress
alice = record { name = "alice"; device_id = 1 }

-- A cache with one queue, and its counter.
abbrev cache : ChunkCache (ℕ × List DenimChunk)
cache = record {
  insert = λ a b c s. (ok (s.0 + 1), (s.0 + 1, s.1 ++ c ∷ []));
  dequeue_chunks = λ a b s. (ok (take page_size s.1), (s.0, drop page_size s.1));
  chunks = λ s b a. s.1;
}

cache-IsQueue : IsQueue cache λ s b a. s.0
cache-IsQueue = record {
  insert-appends = λ a b c s few. (omega arith, refl, omega arith);
  dequeue-takes = λ a b s. (refl, refl, omega arith);
}

flush_chunk_buffer-receive_all_example :
    Ends
      ((receive_all cache alice sender
            ((second_part ∷ []) ∷ (first_part ∷ final_chunk (5 ∷ []) ∷ []) ∷ [])
          >>= λ _. flush_chunk_buffer cache codec alice sender)
        (7, []))
      λ ps s'. (ps ≡ five ∷ []) × (s'.1 ≡ [])
flush_chunk_buffer-receive_all_example =
    flush_chunk_buffer-receive_all cache cache-IsQueue codec alice sender
      ((second_part ∷ []) ∷ (first_part ∷ final_chunk (5 ∷ []) ∷ []) ∷ [])
      (first_part ∷ second_part ∷ []) (second_part ∷ first_part ∷ []) (5 ∷ []) five (7, []) refl
      refl (omega arith) (omega arith) (omega arith, (omega arith, tt)) swapped refl

-- One hundred data chunks of one payload.
abbrev parts : ℕ → List DenimChunk
parts n = replicate n second_part

parts-AllData : (n : ℕ) → AllData (parts n)
parts-AllData zero = tt
parts-AllData (suc n) = (omega arith, parts-AllData n)

flush_chunk_buffer-stalls_example :
    Ends
      (flush_chunk_buffer cache codec alice sender (101, parts 100 ++ final_chunk (5 ∷ []) ∷ []))
      λ ps s'. (ps ≡ []) × (s'.1 ≡ final_chunk (5 ∷ []) ∷ parts 100)
flush_chunk_buffer-stalls_example =
    flush_chunk_buffer-stalls cache cache-IsQueue codec alice sender (parts 100)
      (final_chunk (5 ∷ []) ∷ []) (101, parts 100 ++ final_chunk (5 ∷ []) ∷ []) refl refl
      (parts-AllData 100) (omega arith)

-- A buffer of bytes.
abbrev outgoing : PayloadCache (List ℕ) (List ℕ)
outgoing = record {
  insert = λ a b p s. (ok 1, s ++ p);
  dequeue_bytes = λ a b n s. (ok (take n s, length (take n s), pos 2), drop n s);
}

outgoing-GivesAtMost : GivesAtMost outgoing
outgoing-GivesAtMost a b n s = (refl, ground (arith, length-take n s))

abbrev measure : Measure ℕ
measure = record { serialize = λ p. replicate 60 0; as_f32 = λ n. n }

abbrev envelope : Envelope
envelope = record {
  kind = some (pos 1);
  source_service_id = some "alice";
  source_device = some 1;
  timestamp = some 7;
  content = some five;
  server_guid = none;
  server_timestamp = none;
  ephemeral = none;
  destination_service_id = some "bob";
  urgent = none;
  updated_pni = none;
  story = none;
  reporting_token = none;
}

create_denim_message-fills_example :
    Ends (create_denim_message outgoing wire measure chunker alice envelope five) λ message _.
      (length (zeros message.chunks) + length message.ballast ≡ 60)
      × (length message.ballast < empty_denimchunk_size)
      × (message.regular_payload ≡ RegularPayload.envelope envelope)
create_denim_message-fills_example =
    create_denim_message-fills outgoing outgoing-GivesAtMost wire measure chunker alice envelope
      five (omega arith)
