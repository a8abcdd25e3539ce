-- ===== src/Chunk/Buffer/Space.antt =====
-- The room that `create_chunks` takes does not depend on the buffer.
use denim.Prelude.{
  ℕ, zero, suc, ◌+◌, ◌-◌, ◌≤◌, ◌<◌, ◌≡◌, ◌≢◌, some, inl, inr, List, [], ◌∷◌, ◌++◌, arith, length,
  length-take, drop, pred_ℤ, length-replicate, ℤ, leb, min_i32, eqb_ℤ→eq, Bool-cases, not, ◌&&◌,
  ◌==◌, ok, NoPanic, >>=-NoPanic, checked_sub-NoPanic,
}
use denim.Chunk.Types.{
  DenimChunk, Chunker, Wire, decrement, chunks_size, empty_vec_size, empty_denimchunk_size,
}
use denim.Chunk.Ordered.{is_empty, total_free_space}
use denim.Chunk.Ordered.Space.{grown}
use denim.Chunk.Buffer.{
  DeniableSendingBuffer, message_or_default, chunk_of_message, next_outgoing, chunks_loop,
  create_chunks,
}

-- The buffer itself does not panic, and while `Room k` holds, `k` chunks can be taken before the counter of a
-- message gets to its least value, which cannot be decremented.
pub record IsSound {S : Type 0} (b : DeniableSendingBuffer S) (Room : ℕ → S → Type 0) : Type 0 where
  pub counts :
      (k : ℕ) (s : S)
      → Room (suc k) s
      → (message_or_default (b.get_outgoing_message s).0).2 ≢ min_i32
  pub gets : (k : ℕ) (s : S) → Room (suc k) s → Room k (b.get_outgoing_message s).1
  pub sets :
      (k n : ℕ) (s : S)
      → Room (suc k) s
      → let (id, bytes, count) = message_or_default (b.get_outgoing_message s).0 in
        NoPanic
          (b.set_outgoing_message
            (some id)
            (pred_ℤ count)
            (drop n bytes)
            (b.get_outgoing_message s).1)
          (Room k)
  pub removes :
      (k : ℕ) (s : S)
      → Room (suc k) s
      → NoPanic
          (b.remove_outgoing_message
            (message_or_default (b.get_outgoing_message s).0).0
            (b.get_outgoing_message s).1)
          (Room k)

decrement-above : (count : ℤ) → count ≢ min_i32 → decrement count ≡ ok (pred_ℤ count)
unfolding decrement
decrement-above count h = ground (arith, eqb_ℤ→eq count min_i32)

module _ {S : Type 0} (b : DeniableSendingBuffer S) {Room : ℕ → S → Type 0}
    (sound : IsSound b Room) where
  chunk_of_message_fits :
      (n : ℕ) (id : ℕ) (bytes : List ℕ) (count : ℤ) (s : S) (P : S → Type 0)
      → count ≢ min_i32
      → P s
      → NoPanic (b.set_outgoing_message (some id) (pred_ℤ count) (drop n bytes) s) P
      → NoPanic (b.remove_outgoing_message id s) P
      → NoPanic (chunk_of_message b n (id, bytes, count) s) λ r. (length r.0.chunk ≤ n) × P r.1
  unfolding chunk_of_message
  chunk_of_message_fits n id bytes count s P h kept set removed =
      elim (Bool-cases (not (is_empty bytes) && not (n == 0))) [
        | inr idle ↦ rw idle (omega (arith, length-replicate {0} {A = ℕ} n 0), kept)
        | inl go ↦ elim (Bool-cases (leb (length bytes) n)) [
          | inl whole ↦
              rw (go, whole)
                (>>=-NoPanic (b.remove_outgoing_message id s) _ P _ removed
                  λ s' p. (ground (arith, whole), p))
          | inr part ↦
              rw (go, part, decrement-above count h)
                (>>=-NoPanic (b.set_outgoing_message (some id) (pred_ℤ count) (drop n bytes) s) _ P
                  _ set λ s' p. (omega (arith, length-take n bytes), p))
        ]
      ]

  chunks_loop_fills :
      {F : Type 0} (w : Wire F) (fuel total : ℕ) (outgoing : List DenimChunk) (free_space : ℕ)
      (s : S)
      → free_space < fuel
      → empty_vec_size + chunks_size outgoing + free_space ≡ total
      → Room fuel s
      → NoPanic
          (chunks_loop w b fuel total outgoing free_space s)
          λ r. (length (w.serialize r.0) + r.1 ≡ total) × (r.1 < empty_denimchunk_size)
  unfolding chunks_loop next_outgoing
  chunks_loop_fills w zero total outgoing free_space s f e room = absurd (omega arith)
  chunks_loop_fills w (suc fuel) total outgoing free_space s f e room =
      let message = message_or_default (b.get_outgoing_message s).0 in
      elim (Bool-cases (leb empty_denimchunk_size free_space)) [
        | inr stop ↦ rw stop (ground (arith, w.length-serialize outgoing))
        | inl go ↦ rw go (
            >>=-NoPanic (next_outgoing b (free_space - empty_denimchunk_size) s) _ _ _
              (chunk_of_message_fits (free_space - empty_denimchunk_size) message.0 message.1
                message.2 (b.get_outgoing_message s).1 (Room fuel) (sound.counts fuel s room)
                (sound.gets fuel s room)
                (sound.sets fuel (free_space - empty_denimchunk_size) s room)
                (sound.removes fuel s room))
              λ r (fits, room').
                checked_sub-NoPanic total (length (w.serialize (outgoing ++ r.0 ∷ []))) _ _
                  (ground (arith, grown w outgoing r.0))
                  (chunks_loop_fills w fuel total (outgoing ++ r.0 ∷ [])
                    (total - length (w.serialize (outgoing ++ r.0 ∷ []))) r.1
                    (ground (arith, grown w outgoing r.0))
                    (ground
                      (arith, grown w outgoing r.0, w.length-serialize (outgoing ++ r.0 ∷ [])))
                    room'))
      ]

  -- With a buffer that does not panic, and whose counters let a chunk be taken for each byte of the spare room,
  -- `create_chunks` on a message with at least eight bytes of spare room ends in chunks or in an error of the
  -- buffer; and whatever the buffer holds, the
  -- serialized chunks and the free space that is returned add up to exactly the spare room, of which
  -- fewer than twelve bytes are left free.
  pub create_chunks_fills :
      {F : Type 0} (w : Wire F) (c : Chunker F) (size : F) (s : S)
      → empty_vec_size ≤ total_free_space w c size
      → Room (suc (total_free_space w c size - empty_vec_size)) s
      → NoPanic (create_chunks w c size b s) λ r.
        (length (w.serialize r.0) + r.1 ≡ total_free_space w c size) × (r.1 < empty_denimchunk_size)
  unfolding create_chunks
  create_chunks_fills w c size s room counters =
      checked_sub-NoPanic (total_free_space w c size) empty_vec_size _ _ room (
        chunks_loop_fills w (suc (total_free_space w c size - empty_vec_size))
          (total_free_space w c size) [] (total_free_space w c size - empty_vec_size) s
          (omega arith) (omega arith) counters)
