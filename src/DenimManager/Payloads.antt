-- ===== src/DenimManager/Payloads.antt =====
-- `DenIMManager::create_deniable_payloads` of server/src/managers/denim/denim_manager.rs: chunks are
-- put together to payloads.
pub mod Order
pub mod RoundTrip
use denim.Prelude.{ℕ, ◌≡◌, String, Option, none, some, List, [], ◌∷◌, ◌++◌, Run, ok, ◌>>=◌, or_err}
use denim.Chunk.Types.{DenimChunk, from_i32, data_chunk, dummy, final}
use denim.Chunk.Sort.{sort}

-- `bincode`, at the type of payloads.
pub record Codec (P : Type 0) : Type 0 where
  pub serialize : P → List ℕ
  pub deserialize : List ℕ → Option P
  pub deserialize-serialize : (p : P) → deserialize (serialize p) ≡ some p

-- `pending_chunks.iter().flat_map(|d| d.chunk.clone())`
abbrev pub flat_chunks : List DenimChunk → List ℕ
flat_chunks [] = []
flat_chunks (c ∷ cs) = c.chunk ++ flat_chunks cs

-- The `while let` loop over the chunks, with its two vectors.
unfoldable pub payloads_loop :
    {P : Type 0}
    → Codec P
    → List DenimChunk
    → List P
    → List DenimChunk
    → Run (List P × List DenimChunk)
unfolding from_i32 sort
payloads_loop codec [] payloads pending_chunks = ok (payloads, pending_chunks)
payloads_loop codec (c ∷ cs) payloads pending_chunks = do
  kind ← from_i32 c.flags
  elim kind [
    | dummy ↦ payloads_loop codec cs payloads pending_chunks
    | final ↦ (do
      payload ←
          or_err (codec.deserialize (flat_chunks (sort pending_chunks) ++ c.chunk)) "bincode: error"
      payloads_loop codec cs (payloads ++ payload ∷ []) [])
    | data_chunk _ ↦ payloads_loop codec cs payloads (pending_chunks ++ c ∷ [])
  ]

unfoldable pub create_deniable_payloads :
    {P : Type 0} → Codec P → List DenimChunk → Run (List P × List DenimChunk)
unfolding payloads_loop
create_deniable_payloads codec chunks = payloads_loop codec chunks [] []
