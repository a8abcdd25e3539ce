-- ===== src/Client/Incoming.antt =====
-- `handle_incoming_chunks` of client/src/client.rs, and the part of `receive_message` that calls it:
-- chunks are kept in the database until the final one has arrived.
pub mod Arrival
use denim.Prelude.{
  Bool, true, false, not, ◌||◌, List, [], ◌∷◌, ◌++◌, Outcome, ok, or_panic, if◌then◌else◌,
}
use denim.Prelude as errors
use denim.Prelude.Effects.{Action, return, lift, ◌>>=◌, ◌>>◌}
use denim.Chunk.Types.{DenimChunk, is_dummy, is_final}
use denim.Chunk.Sort.{sort}
use denim.DenimManager.Payloads.{Codec, flat_chunks}
use denim.Storage.{Tables, Engine}
use denim.Storage.Device.Deniable.{
  get_and_remove_incoming_deniable_chunks, store_incoming_deniable_chunks,
}
use denim.Validators.{keep_if}
use denim.Client.{SignalClientError, stored}

-- `new_chunks.iter().any(|chunk| chunk.is_final())`
unfoldable pub has_final : List DenimChunk → Bool
unfolding is_final
has_final [] = false
has_final (c ∷ cs) = is_final c || has_final cs

-- The `filter` of `receive_message`.
unfoldable pub without_dummies : List DenimChunk → List DenimChunk
unfolding is_dummy keep_if
without_dummies chunks = keep_if (λ c. not (is_dummy c)) chunks

module _ {P : Type 0} (codec : Codec P) where
  -- The `for` over the new chunks, with its two vectors.
  unfoldable pub incoming_loop :
      List DenimChunk
      → List DenimChunk
      → List P
      → Outcome SignalClientError (List P × List DenimChunk)
  unfolding is_final sort
  incoming_loop [] chunks deniable_payloads = ok (deniable_payloads, chunks)
  incoming_loop (c ∷ new_chunks) chunks deniable_payloads = elim (is_final c) [
    | true ↦
        errors.◌>>=◌ (or_panic (codec.deserialize (flat_chunks (sort chunks ++ c ∷ []))))
          λ payload. incoming_loop new_chunks [] (deniable_payloads ++ payload ∷ [])
    | false ↦ incoming_loop new_chunks (chunks ++ c ∷ []) deniable_payloads
  ]

  module _ {E : Type 0} (engine : Engine E) where
    -- `if !chunks.is_empty() { … }`
    abbrev pub keep_chunks : List DenimChunk → Action (Tables × E) SignalClientError (Unit {0})
    keep_chunks [] = return tt
    keep_chunks (c ∷ chunks) = stored (store_incoming_deniable_chunks engine (c ∷ chunks))

    unfoldable pub handle_incoming_chunks :
        List DenimChunk → Action (Tables × E) SignalClientError (List P)
    unfolding has_final incoming_loop
    handle_incoming_chunks new_chunks = do
      chunks ←
          (if has_final new_chunks
            then stored (get_and_remove_incoming_deniable_chunks engine)
            else return [])
      (deniable_payloads, left) ← lift (incoming_loop new_chunks chunks [])
      keep_chunks left
      return deniable_payloads

    -- What `receive_message` does with the chunks of a message.
    unfoldable pub receive_chunks : List DenimChunk → Action (Tables × E) SignalClientError (List P)
    unfolding handle_incoming_chunks without_dummies
    receive_chunks chunks = of_kept (without_dummies chunks)
      where
        of_kept : List DenimChunk → Action (Tables × E) SignalClientError (List P)
        of_kept [] = return []
        of_kept (c ∷ kept) = handle_incoming_chunks (c ∷ kept)
