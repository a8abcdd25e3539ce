-- ===== src/Chunk/Ordered/Emits.antt =====
-- What the chunks carry: `Emits` is the relation of a sender that cuts one payload, whatever the
-- sizes of the messages are; the loop of `create_ordered_chunks` follows it.
use denim.Prelude.{
  ℕ, zero, suc, ◌-◌, ◌<◌, ◌≡◌, sym, inl, inr, List, [], ◌∷◌, ◌++◌, arith, length, take, drop,
  replicate, take-append-drop, length-drop, ℤ, pos, leb, pred_ℤ, Bool-cases, >>=-IfOk, >>=-IfOk_any,
  IfOk, eqb_ℤ, min_i32, ◌==◌, not, ◌&&◌, checked_sub,
}
use denim.Chunk.Types.{
  DenimChunk, PayloadData, Chunker, Wire, decrement, empty_vec_size, empty_denimchunk_size,
}
use denim.Chunk.Ordered.{next_chunk, ordered_loop, create_ordered_chunks, total_free_space}

abbrev pub dummy_chunk : List ℕ → DenimChunk
dummy_chunk filler = record { chunk = filler; flags = pos 1 }

abbrev pub final_chunk : List ℕ → DenimChunk
final_chunk bytes = record { chunk = bytes; flags = pos 2 }

abbrev pub part_chunk : ℤ → List ℕ → DenimChunk
part_chunk count bytes = record { chunk = bytes; flags = count }

-- `Emits bytes count chunks bytes' count'`: `chunks` are sent while `bytes` shrinks to `bytes'`.
pub data Emits : List ℕ → ℤ → List DenimChunk → List ℕ → ℤ → Type 0 where
  rest : {bytes : List ℕ} {count : ℤ} → Emits bytes count [] bytes count
  pad :
      {bytes bytes' : List ℕ} {count count' : ℤ} {cs : List DenimChunk} (filler : List ℕ)
      → Emits bytes count cs bytes' count'
      → Emits bytes count (dummy_chunk filler ∷ cs) bytes' count'
  part :
      {bytes bytes' : List ℕ} {count count' : ℤ} {cs : List DenimChunk} (front back : List ℕ)
      → bytes ≡ front ++ back
      → 0 < length back
      → Emits back (pred_ℤ count) cs bytes' count'
      → Emits bytes count (part_chunk count front ∷ cs) bytes' count'
  last :
      {bytes bytes' : List ℕ} {count count' : ℤ} {cs : List DenimChunk}
      → 0 < length bytes
      → Emits [] count cs bytes' count'
      → Emits bytes count (final_chunk bytes ∷ cs) bytes' count'

-- Sending goes on where it stopped.
pub Emits-append :
    {bytes bytes' bytes'' : List ℕ} {count count' count'' : ℤ} {cs ds : List DenimChunk}
    → Emits bytes count cs bytes' count'
    → Emits bytes' count' ds bytes'' count''
    → Emits bytes count (cs ++ ds) bytes'' count''
Emits-append rest f = f
Emits-append (pad filler e) f = pad filler (Emits-append e f)
Emits-append (part front back eq more e) f = part front back eq more (Emits-append e f)
Emits-append (last some_left e) f = last some_left (Emits-append e f)

next_chunk-Emits :
    (bytes : List ℕ) (count : ℤ) (n : ℕ)
    → IfOk (next_chunk bytes count n) λ r. Emits bytes count (r.0 ∷ []) r.1 r.2
unfolding next_chunk decrement
next_chunk-Emits bytes count n = elim (Bool-cases (not (length bytes == 0) && not (n == 0))) [
  | inr idle ↦ rw idle (pad (replicate n 0) rest)
  | inl room ↦ elim (Bool-cases (leb (length bytes) n)) [
    | inl all_fits ↦ rw (room, all_fits) (last (ground arith) rest)
    | inr too_long ↦ elim (Bool-cases (eqb_ℤ count min_i32)) [
      | inl least ↦ rw (room, too_long, least) tt
      | inr counts ↦
          rw (room, too_long, counts)
            (part (take n bytes) (drop n bytes) (sym (take-append-drop n bytes))
              (ground (arith, length-drop n bytes)) rest)
    ]
  ]
]

-- Whatever a call sends, it follows the relation.
ordered_loop-Emits :
    {F : Type 0} (w : Wire F) (fuel total : ℕ) (result : List DenimChunk) (bytes : List ℕ)
    (count : ℤ) (free_space : ℕ) (bytes₀ : List ℕ) (count₀ : ℤ)
    → Emits bytes₀ count₀ result bytes count
    → IfOk
        (ordered_loop w fuel total result bytes count free_space)
        λ r. Emits bytes₀ count₀ r.0 r.2.chunk r.2.flags
unfolding ordered_loop
ordered_loop-Emits w zero total result bytes count free_space bytes₀ count₀ e = tt
ordered_loop-Emits w (suc fuel) total result bytes count free_space bytes₀ count₀ e =
    elim (Bool-cases (leb empty_denimchunk_size free_space)) [
      | inr stop ↦ rw stop e
      | inl go ↦ rw go (
          >>=-IfOk (next_chunk bytes count (free_space - empty_denimchunk_size)) _ _ _
            (next_chunk-Emits bytes count (free_space - empty_denimchunk_size))
            λ r one.
              >>=-IfOk_any (checked_sub total (length (w.serialize (result ++ r.0 ∷ [])))) _ _
                λ free_space'.
                  ordered_loop-Emits w fuel total (result ++ r.0 ∷ []) r.1 r.2 free_space' bytes₀
                    count₀ (Emits-append e one))
    ]

-- What a call of `create_ordered_chunks` that returns has sent, and the payload that it leaves for the
-- next message, follow the relation of a sender that cuts one payload.
pub create_ordered_chunks-Emits :
    {F : Type 0} (w : Wire F) (c : Chunker F) (size : F) (payload : PayloadData)
    → IfOk
        (create_ordered_chunks w c size payload)
        λ r. Emits payload.chunk payload.flags r.0 r.2.chunk r.2.flags
unfolding create_ordered_chunks
create_ordered_chunks-Emits w c size payload =
    >>=-IfOk_any (checked_sub (total_free_space w c size) empty_vec_size) _ _ λ free_space.
      ordered_loop-Emits w (suc free_space) (total_free_space w c size) [] payload.chunk
        payload.flags free_space payload.chunk payload.flags rest
