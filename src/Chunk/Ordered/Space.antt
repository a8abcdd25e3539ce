-- ===== src/Chunk/Ordered/Space.antt =====
-- How much room the chunks take.
use denim.Prelude.{
  ℕ, zero, suc, ◌+◌, ◌-◌, ◌≤◌, ◌<◌, ◌≡◌, ◌≢◌, ◌⊎◌, inl, inr, List, [], ◌∷◌, ◌++◌, arith, length,
  length-take, length-replicate, ℤ, leb, min_i32, Bool-cases, Returns, >>=-Returns, Returns-map,
  checked_sub-Returns, eqb_ℤ→eq,
}
use denim.Chunk.Types.{
  DenimChunk, PayloadData, Chunker, Wire, decrement, chunks_size, empty_vec_size,
  empty_denimchunk_size,
}
use denim.Chunk.Ordered.{next_chunk, ordered_loop, create_ordered_chunks, total_free_space}

pub chunks_size-append :
    (xs ys : List DenimChunk) → chunks_size (xs ++ ys) ≡ chunks_size xs + chunks_size ys
chunks_size-append [] ys = omega arith
chunks_size-append (x ∷ xs) ys = omega (arith, chunks_size-append xs ys)

-- A chunk fits into the room that is asked for; after a decrement of the counter it fills the room.
pub next_chunk_fits :
    (data_left : List ℕ) (count : ℤ) (n : ℕ)
    → count ≢ min_i32
    → Returns
        (next_chunk data_left count n)
        λ r. (length r.0.chunk ≤ n) × ((r.2 ≢ min_i32) ⊎ (length r.0.chunk ≡ n))
unfolding next_chunk decrement
next_chunk_fits data_left count n h =
    ground
      (arith, length-take n data_left, length-replicate {0} {A = ℕ} n 0, eqb_ℤ→eq count min_i32)

-- The chunk list and the room that is left make up the room of the message.
abbrev pub Fills : ℕ → List DenimChunk × ℕ × PayloadData → Type 0
Fills total r = (empty_vec_size + chunks_size r.0 + r.1 ≡ total) × (r.1 < empty_denimchunk_size)

module _ {F : Type 0} (w : Wire F) where
  -- The serialized list after one more chunk.
  pub grown :
      (result : List DenimChunk) (new : DenimChunk)
      → length (w.serialize (result ++ new ∷ []))
        ≡ empty_vec_size + chunks_size result + empty_denimchunk_size + length new.chunk
  grown result new =
      omega (arith, w.length-serialize (result ++ new ∷ []), chunks_size-append result (new ∷ []))

  pub ordered_loop-Fills :
      (fuel total : ℕ) (result : List DenimChunk) (data_left : List ℕ) (count : ℤ) (free_space : ℕ)
      → free_space < fuel
      → empty_vec_size + chunks_size result + free_space ≡ total
      → (count ≢ min_i32) ⊎ (free_space ≡ 0)
      → Returns (ordered_loop w fuel total result data_left count free_space) (Fills total)
  unfolding ordered_loop
  ordered_loop-Fills zero total result data_left count free_space f e h = absurd (omega arith)
  ordered_loop-Fills (suc fuel) total result data_left count free_space f e h =
      elim (Bool-cases (leb empty_denimchunk_size free_space)) [
        | inr stop ↦ rw stop (ground arith)
        | inl go ↦ rw go (
            >>=-Returns (next_chunk data_left count (free_space - empty_denimchunk_size)) _ _
              (Fills total)
              (next_chunk_fits data_left count (free_space - empty_denimchunk_size) (ground arith))
              λ r fits.
                checked_sub-Returns total (length (w.serialize (result ++ r.0 ∷ []))) _
                  (Fills total) (ground (arith, grown result r.0))
                  (ordered_loop-Fills fuel total (result ++ r.0 ∷ []) r.1 r.2
                    (total - length (w.serialize (result ++ r.0 ∷ [])))
                    (ground (arith, grown result r.0))
                    (ground (arith, grown result r.0, w.length-serialize (result ++ r.0 ∷ [])))
                    (ground (arith, grown result r.0))))
      ]

  abbrev room_for : Chunker F → F → ℕ
  room_for c size = total_free_space w c size - empty_vec_size

  -- A message with at least eight bytes of spare room never makes `create_ordered_chunks` fail, if
  -- the counter of the payload is above the least `i32`; and whatever bytes are waiting, the serialized chunk list and the free space that is returned add
  -- up to exactly that room, of which fewer than twelve bytes are left free.
  pub create_ordered_chunks-Fills :
      (c : Chunker F) (size : F) (payload : PayloadData)
      → empty_vec_size ≤ total_free_space w c size
      → payload.flags ≢ min_i32
      → Returns (create_ordered_chunks w c size payload) λ r.
        (length (w.serialize r.0) + r.1 ≡ total_free_space w c size) × (r.1 < empty_denimchunk_size)
  unfolding create_ordered_chunks
  create_ordered_chunks-Fills c size payload room count =
      checked_sub-Returns (total_free_space w c size) empty_vec_size _ _ room (
        Returns-map
          (ordered_loop w (suc (room_for c size)) (total_free_space w c size) [] payload.chunk
            payload.flags (room_for c size))
          (Fills (total_free_space w c size)) _
          (ordered_loop-Fills (suc (room_for c size)) (total_free_space w c size) [] payload.chunk
            payload.flags (room_for c size) (omega arith) (omega arith) (inl count))
          λ r fills. (omega (arith, w.length-serialize r.0), fills.1))
