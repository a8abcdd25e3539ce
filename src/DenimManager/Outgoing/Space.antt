-- ===== src/DenimManager/Outgoing/Space.antt =====
-- How much room the outgoing chunks take.
use denim.Prelude.{
  ℕ, zero, suc, ◌+◌, ◌-◌, ◌≤◌, ◌<◌, ◌≡◌, refl, ap, inl, inr, String, List, [], ◌∷◌, ◌++◌, length,
  length-replicate, replicate, leb, ◌==◌, ℤ, pos, arith, checked_sub_le, Bool-cases,
}
use denim.Prelude.Effects.{Ends, go_on-Ends}
use denim.Chunk.Types.{
  DenimChunk, Chunker, Wire, chunks_size, empty_denimchunk_size, empty_vec_size,
}
use denim.Chunk.Ordered.{total_free_space, get_free_space_in_bytes}
use denim.Chunk.Ordered.Space.{chunks_size-append}
use denim.WebApi.{Envelope, RegularPayload, DenimMessage}
use denim.Account.{ProtocolAddress}
use denim.DenimManager.Buffers.{Buffer, receiver}
use denim.DenimManager.Outgoing.{
  PayloadCache, Measure, dequeue_loop, dequeue_payload_data, to_chunks,
  dequeue_outgoing_payload_buffer, create_denim_message,
}

-- A reachable buffer gives at most the bytes it is asked for, and tells how many it gave.
abbrev pub GivesAtMost : {S P : Type 0} → PayloadCache S P → Type 0
GivesAtMost {S} cache =
    (a : ProtocolAddress) (b : Buffer) (n : ℕ) (s : S)
    → Ends (cache.dequeue_bytes a b n s) λ r _. (length r.0 ≡ r.1) × (r.1 ≤ n)

to_chunks-append : (xs ys : List (List ℕ × ℤ)) → to_chunks (xs ++ ys) ≡ to_chunks xs ++ to_chunks ys
to_chunks-append [] ys = refl
to_chunks-append (x ∷ xs) ys =
    ap (◌∷◌ (record { chunk = x.0; flags = x.1 })) (to_chunks-append xs ys)

module _ {S P : Type 0} (cache : PayloadCache S P) (gives : GivesAtMost cache) where
  abbrev Fits : ℕ → List (List ℕ × ℤ) × ℕ → Type 0
  Fits total r = (chunks_size (to_chunks r.0) + r.1 ≡ total) × (r.1 < empty_denimchunk_size)

  grown_by :
      (xs : List (List ℕ × ℤ)) (x : List ℕ × ℤ)
      → chunks_size (to_chunks (xs ++ x ∷ []))
        ≡ chunks_size (to_chunks xs) + empty_denimchunk_size + length x.0
  grown_by xs x =
      rw (to_chunks-append xs (x ∷ []))
        (omega (arith, chunks_size-append (to_chunks xs) (to_chunks (x ∷ []))))

  dequeue_loop-Fits :
      (fuel : ℕ) (a : ProtocolAddress) (b : Buffer) (result : List (List ℕ × ℤ)) (take total : ℕ)
      (s : S)
      → take < fuel
      → chunks_size (to_chunks result) + take ≡ total
      → Ends (dequeue_loop cache fuel a b result take s) λ r _. Fits total r
  unfolding dequeue_loop
  dequeue_loop-Fits zero a b result take total s f e = absurd (omega arith)
  dequeue_loop-Fits (suc fuel) a b result take total s f e =
      elim (Bool-cases (leb empty_denimchunk_size take)) [
        | inr stop ↦ rw stop (e, ground arith)
        | inl go ↦ rw go (
            go_on-Ends {E = String} {A = List ℕ × ℕ × ℤ} {B = List (List ℕ × ℤ) × ℕ}
              (cache.dequeue_bytes a b (take - empty_denimchunk_size) s) _ _ _
              (gives a b (take - empty_denimchunk_size) s)
              λ r t (measured, below). elim (Bool-cases (r.1 == 0)) [
                | inl nothing ↦ rw nothing (
                  ground (
                    arith,
                    grown_by result (replicate (take - empty_denimchunk_size) 0, pos 1),
                    length-replicate {0} {A = ℕ} (take - empty_denimchunk_size) 0,
                  ),
                  omega arith,
                )
                | inr some_bytes ↦
                    rw
                      (
                        some_bytes,
                        checked_sub_le {E = String} (take - empty_denimchunk_size) r.1 below,
                      )
                      (dequeue_loop-Fits fuel a b (result ++ (r.0, r.2) ∷ [])
                        (take - empty_denimchunk_size - r.1) total t (ground arith)
                        (ground (arith, grown_by result (r.0, r.2))))
              ])
      ]

  -- A message from the server is as full as it may be: whatever payloads wait for the receiver, and if
  -- none do, the serialized chunks and the ballast add up to exactly the room that the size of the
  -- envelope gives, and the ballast is shorter than an empty chunk; if the room is at least the eight
  -- bytes of an empty list of chunks, and the buffer is reachable and gives no more bytes than it is
  -- asked for.
  pub create_denim_message-fills :
      {F : Type 0} (w : Wire F) (measure : Measure F) (chunker : Chunker F)
      (address : ProtocolAddress) (e : Envelope) (s : S)
      → empty_vec_size
        ≤ total_free_space w chunker
            (measure.as_f32 (length (measure.serialize (RegularPayload.envelope e))))
      → Ends (create_denim_message cache w measure chunker address e s) λ message _.
        (length (w.serialize message.chunks) + length message.ballast
          ≡ total_free_space w chunker
              (measure.as_f32 (length (measure.serialize (RegularPayload.envelope e)))))
        × (length message.ballast < empty_denimchunk_size)
        × (message.regular_payload ≡ RegularPayload.envelope e)
  unfolding create_denim_message dequeue_outgoing_payload_buffer dequeue_payload_data
      get_free_space_in_bytes
  create_denim_message-fills {F = F} w measure chunker address e s room =
      let size : F = measure.as_f32 (length (measure.serialize (RegularPayload.envelope e))) in
      let total : ℕ = total_free_space w chunker size - empty_vec_size in
      rw (checked_sub_le {E = String} (total_free_space w chunker size) empty_vec_size room) (
        go_on-Ends {E = String} {A = List DenimChunk × ℕ} {B = DenimMessage F} _ _
          (λ r _. (chunks_size r.0 + r.1 ≡ total) × (r.1 < empty_denimchunk_size)) _
          (go_on-Ends {E = String} {A = List (List ℕ × ℤ) × ℕ} {B = List DenimChunk × ℕ}
            (dequeue_loop cache (suc total) address receiver [] total s) _ _ _
            (dequeue_loop-Fits (suc total) address receiver [] total total s (omega arith)
              (omega arith))
            λ r _ fits. fits)
          λ r t fits. (
            omega (arith, w.length-serialize r.0, length-replicate {0} {A = ℕ} r.1 0),
            omega (arith, length-replicate {0} {A = ℕ} r.1 0),
            refl,
          ))
