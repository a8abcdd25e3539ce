-- ===== src/Chunk/Buffer.antt =====
-- `Chunker::create_chunks` of common/src/deniable/chunk.rs, over the trait `DeniableSendingBuffer` of
-- common/src/deniable/mod.rs.
pub mod Space
use denim.Prelude.{
  ℕ, zero, suc, ◌+◌, ◌-◌, not, ◌&&◌, Option, none, some, List, [], ◌∷◌, ◌++◌, length, take, drop,
  replicate, ℤ, pos, leb, ◌==◌, Run, ok, out_of_fuel, ◌>>=◌, checked_sub, if◌then◌else◌,
}
use denim.Chunk.Types.{
  DenimChunk, Chunker, Wire, to_i32, data_chunk, dummy, final, decrement, empty_vec_size,
  empty_denimchunk_size,
}
use denim.Chunk.Ordered.{is_empty, total_free_space}

-- The trait. An error of a read is dropped by the code (`unwrap_or_default`); those of a write are
-- turned into a text.
pub record DeniableSendingBuffer (S : Type 0) : Type 0 where
  pub get_outgoing_message : S → Option (ℕ × List ℕ × ℤ) × S
  pub set_outgoing_message : Option ℕ → ℤ → List ℕ → S → Run S
  pub remove_outgoing_message : ℕ → S → Run S

-- `unwrap_or_default()`
abbrev pub message_or_default : Option (ℕ × List ℕ × ℤ) → ℕ × List ℕ × ℤ
message_or_default none = (0, [], pos 0)
message_or_default (some m) = m

-- What a round does with the message that the buffer gave it.
unfoldable pub chunk_of_message :
    {S : Type 0} → DeniableSendingBuffer S → ℕ → ℕ × List ℕ × ℤ → S → Run (DenimChunk × S)
unfolding to_i32
chunk_of_message b chunk_size (id, bytes, count) s =
    if not (is_empty bytes) && not (chunk_size == 0)
    then (if leb (length bytes) chunk_size
        then (do
          s' ← b.remove_outgoing_message id s
          ok (record { chunk = bytes; flags = to_i32 final }, s'))
        else (do
          count' ← decrement count
          s' ← b.set_outgoing_message (some id) count' (drop chunk_size bytes) s
          ok (record { chunk = take chunk_size bytes; flags = to_i32 (data_chunk count) }, s')))
    else ok (record { chunk = replicate chunk_size 0; flags = to_i32 dummy }, s)

unfoldable pub next_outgoing : {S : Type 0} → DeniableSendingBuffer S → ℕ → S → Run (DenimChunk × S)
unfolding chunk_of_message
next_outgoing b chunk_size s =
    let (message, s') = b.get_outgoing_message s in
    chunk_of_message b chunk_size (message_or_default message) s'

unfoldable pub chunks_loop :
    {F S : Type 0}
    → Wire F
    → DeniableSendingBuffer S
    → ℕ
    → ℕ
    → List DenimChunk
    → ℕ
    → S
    → Run (List DenimChunk × ℕ × S)
unfolding next_outgoing
chunks_loop w b zero total outgoing free_space s = out_of_fuel
chunks_loop w b (suc fuel) total outgoing free_space s =
    let more = (do
      (new, s') ← next_outgoing b (free_space - empty_denimchunk_size) s
      free_space' ← checked_sub total (length (w.serialize (outgoing ++ new ∷ [])))
      chunks_loop w b fuel total (outgoing ++ new ∷ []) free_space' s') in
    if leb empty_denimchunk_size free_space then more else ok (outgoing, free_space, s)

unfoldable pub create_chunks :
    {F S : Type 0}
    → Wire F
    → Chunker F
    → F
    → DeniableSendingBuffer S
    → S
    → Run (List DenimChunk × ℕ × S)
unfolding chunks_loop
create_chunks w c regular_payload_size b s = do
  free_space ← checked_sub (total_free_space w c regular_payload_size) empty_vec_size
  chunks_loop w b (suc free_space) (total_free_space w c regular_payload_size) [] free_space s
