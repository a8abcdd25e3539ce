-- ===== src/Chunk/Ordered.antt =====
-- `Chunker::get_free_space_in_bytes` and `Chunker::create_ordered_chunks` of
-- common/src/deniable/chunk.rs.
pub mod Space
pub mod Emits
use denim.Prelude.{
  ℕ, zero, suc, ◌+◌, ◌-◌, Bool, not, ◌&&◌, List, [], ◌∷◌, ◌++◌, length, take, drop, replicate, ℤ,
  leb, ◌==◌, Run, ok, out_of_fuel, ◌>>=◌, checked_sub, if◌then◌else◌,
}
use denim.Chunk.Types.{
  DenimChunk, PayloadData, Chunker, Wire, to_i32, data_chunk, dummy, final, decrement,
  empty_vec_size, empty_denimchunk_size,
}

abbrev pub is_empty : List ℕ → Bool
is_empty bytes = length bytes == 0

abbrev pub total_free_space : {F : Type 0} → Wire F → Chunker F → F → ℕ
total_free_space w c regular_payload_size = w.ceil_mul regular_payload_size c.q_value

unfoldable pub get_free_space_in_bytes : {F : Type 0} → Wire F → Chunker F → F → Run ℕ
get_free_space_in_bytes w c regular_payload_size =
    checked_sub (total_free_space w c regular_payload_size) empty_vec_size

-- One round of the loop: the chunk to send, the data that is left and the next counter.
unfoldable pub next_chunk : List ℕ → ℤ → ℕ → Run (DenimChunk × List ℕ × ℤ)
unfolding to_i32
next_chunk data_left count chunk_size =
    if not (is_empty data_left) && not (chunk_size == 0)
    then (if leb (length data_left) chunk_size
        then ok (record { chunk = data_left; flags = to_i32 final }, [], count)
        else (do
          count' ← decrement count
          ok (
            record { chunk = take chunk_size data_left; flags = to_i32 (data_chunk count) },
            drop chunk_size data_left,
            count',
          )))
    else ok (record { chunk = replicate chunk_size 0; flags = to_i32 dummy }, data_left, count)

-- The `while` loop, on fuel.
unfoldable pub ordered_loop :
    {F : Type 0}
    → Wire F
    → ℕ
    → ℕ
    → List DenimChunk
    → List ℕ
    → ℤ
    → ℕ
    → Run (List DenimChunk × ℕ × PayloadData)
ordered_loop w zero total result data_left count free_space = out_of_fuel
ordered_loop w (suc fuel) total result data_left count free_space =
    let more = (do
      (new, data_left', count') ← next_chunk data_left count (free_space - empty_denimchunk_size)
      free_space' ← checked_sub total (length (w.serialize (result ++ new ∷ [])))
      ordered_loop w fuel total (result ++ new ∷ []) data_left' count' free_space') in
    if leb empty_denimchunk_size free_space
    then more
    else ok (result, free_space, record { chunk = data_left; flags = count })

-- Every round takes at least twelve bytes of the room, so that a fuel above the room suffices.
unfoldable pub create_ordered_chunks :
    {F : Type 0} → Wire F → Chunker F → F → PayloadData → Run (List DenimChunk × ℕ × PayloadData)
unfolding ordered_loop
create_ordered_chunks w c regular_payload_size payload = do
  free_space ← checked_sub (total_free_space w c regular_payload_size) empty_vec_size
  ordered_loop w (suc free_space) (total_free_space w c regular_payload_size) [] payload.chunk
      payload.flags free_space
