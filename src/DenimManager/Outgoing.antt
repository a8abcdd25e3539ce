-- ===== src/DenimManager/Outgoing.antt =====
-- The outgoing buffer of payloads: `PayloadCache::dequeue_payload_data` of
-- server/src/managers/denim/payload_cache.rs, and the operations of
-- server/src/managers/denim/denim_manager.rs that fill the buffer and empty it into messages.
pub mod Space
use denim.Prelude.{
  ℕ, zero, suc, ◌-◌, String, List, [], ◌∷◌, ◌++◌, none, some, length, replicate, leb, ◌==◌, ℤ, pos,
  Outcome, ok, panic, out_of_fuel, Run, checked_sub, if◌then◌else◌,
}
use denim.Prelude.Effects.{Action, return, lift, ◌>>=◌}
use denim.Chunk.Types.{DenimChunk, Chunker, Wire, to_i32, dummy, empty_denimchunk_size}
use denim.Chunk.Ordered.{get_free_space_in_bytes}
use denim.WebApi.{Envelope, RegularPayload, DenimMessage}
use denim.Account.{ProtocolAddress}
use denim.DenimManager.Buffers.{Buffer, receiver, add_u64}

-- What the loop asks of Redis (`redis::dequeue_bytes`): the bytes, their number, and the flags of the
-- chunk they go into.
pub record PayloadCache (S P : Type 0) : Type 0 where
  pub insert : ProtocolAddress → Buffer → P → Action S String ℕ
  pub dequeue_bytes : ProtocolAddress → Buffer → ℕ → Action S String (List ℕ × ℕ × ℤ)

-- The libraries that measure a message: bincode and the conversion of its length to `f32`.
pub record Measure (F : Type 0) : Type 0 where
  pub serialize : RegularPayload → List ℕ
  pub as_f32 : ℕ → F

-- `denim_chunks.push(DenimChunk { … })` for each.
abbrev pub to_chunks : List (List ℕ × ℤ) → List DenimChunk
to_chunks [] = []
to_chunks ((bytes, order) ∷ rest) = record { chunk = bytes; flags = order } ∷ to_chunks rest

module _ {S P : Type 0} (cache : PayloadCache S P) where
  -- The `while` loop, on fuel, with the vector and the bytes that are left to take.
  unfoldable pub dequeue_loop :
      ℕ → ProtocolAddress → Buffer → List (List ℕ × ℤ) → ℕ → Action S String (List (List ℕ × ℤ) × ℕ)
  unfolding to_i32
  dequeue_loop zero address buffer result take = lift out_of_fuel
  dequeue_loop (suc fuel) address buffer result take =
      let more : Action S String (List (List ℕ × ℤ) × ℕ) =
        cache.dequeue_bytes address buffer (take - empty_denimchunk_size)
        >>= λ (bytes, taken, order).
            let next = dequeue_loop fuel address buffer (result ++ (bytes, order) ∷ []) in
            if taken == 0
            then return
                (result ++ (replicate (take - empty_denimchunk_size) 0, to_i32 dummy) ∷ [], 0)
            else (lift (checked_sub (take - empty_denimchunk_size) taken) >>= next) in
      if leb empty_denimchunk_size take then more else return (result, take)

  unfoldable pub dequeue_payload_data :
      ProtocolAddress → Buffer → ℕ → Action S String (List (List ℕ × ℤ) × ℕ)
  unfolding dequeue_loop
  dequeue_payload_data address buffer bytes_amount =
      dequeue_loop (suc bytes_amount) address buffer [] bytes_amount

  unfoldable pub enqueue_payloads_loop : ProtocolAddress → List P → ℕ → Action S String ℕ
  enqueue_payloads_loop address [] count = return count
  enqueue_payloads_loop address (payload ∷ payloads) count = do
    n ← cache.insert address receiver payload
    count' ← lift (add_u64 count n)
    enqueue_payloads_loop address payloads count'

  unfoldable pub enqueue_outgoing_payload_buffer : ProtocolAddress → List P → Action S String ℕ
  unfolding enqueue_payloads_loop
  enqueue_outgoing_payload_buffer address payloads = enqueue_payloads_loop address payloads 0

  unfoldable pub dequeue_outgoing_payload_buffer :
      ProtocolAddress → ℕ → Action S String (List DenimChunk × ℕ)
  unfolding dequeue_payload_data
  dequeue_outgoing_payload_buffer address bytes_amount = do
    (chunks, rest) ← dequeue_payload_data address receiver bytes_amount
    return (to_chunks chunks, rest)

  unfoldable pub create_denim_message :
      {F : Type 0}
      → Wire F
      → Measure F
      → Chunker F
      → ProtocolAddress
      → Envelope
      → Action S String (DenimMessage F)
  unfolding dequeue_outgoing_payload_buffer get_free_space_in_bytes
  create_denim_message w measure chunker address envelope = do
    free_space ← lift (
        get_free_space_in_bytes w chunker
          (measure.as_f32 (length (measure.serialize (RegularPayload.envelope envelope)))))
    (chunks, rest) ← dequeue_outgoing_payload_buffer address free_space
    return (record {
      regular_payload = RegularPayload.envelope envelope;
      chunks = chunks;
      counter = none;
      q = some chunker.q_value;
      ballast = replicate rest 0;
    })
