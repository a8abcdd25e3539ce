-- ===== src/DenimManager/Buffers/Flush.antt =====
-- What becomes of the chunks in a buffer.
use mathlib.Core.List.{Perm}
use denim.Prelude.{
  ℕ, zero, suc, length-append, ◌+◌, ◌*◌, ◌≤◌, ◌<◌, ◌≡◌, refl, sym, ap, ◌∙◌, String, List, [], ◌∷◌,
  ◌++◌, take, drop, length, arith, ok, append_assoc, append-nil, lt→ltb, pos,
}
use denim.Prelude.Effects.{Action, Ends, go_on-Ends, Ends-map, ◌>>=◌, return}
use denim.Chunk.Types.{DenimChunk}
use denim.Chunk.Sort.{Descends}
use denim.Chunk.Ordered.Emits.{final_chunk}
use denim.Account.{ProtocolAddress}
use denim.Redis.Operations.{page_size}
use denim.DenimManager.Payloads.{Codec, flat_chunks, payloads_loop, create_deniable_payloads}
use denim.DenimManager.Payloads.Order.{
  AllData, payloads_loop-data, create_deniable_payloads_any_order,
}
use denim.DenimManager.Buffers.{
  Buffer, ChunkCache, u64_range, enqueue_loop, enqueue_chunk_buffer, put_back, flush_chunk_buffer,
}

abbrev pub u32_range : ℕ
u32_range = 4294967296

-- A reachable cache keeps, for each device, the chunks in the order of their insertion, and gives
-- out at most one page of them. It counts the insertions (`inserted`), and gives out identifiers
-- below 2^32 as long as there are fewer of them.
pub record IsQueue {S : Type 0} (cache : ChunkCache S) (inserted : S → Buffer → ProtocolAddress → ℕ)
    : Type 0 where
  pub insert-appends :
      (a : ProtocolAddress) (b : Buffer) (c : DenimChunk) (s : S)
      → inserted s b a + 1 < u32_range
      → Ends (cache.insert a b c s) λ n s'.
        (n < u32_range)
        × (cache.chunks s' b a ≡ cache.chunks s b a ++ c ∷ [])
        × (inserted s' b a ≤ inserted s b a + 1)
  pub dequeue-takes :
      (a : ProtocolAddress) (b : Buffer) (s : S)
      → Ends (cache.dequeue_chunks a b s) λ cs s'.
        (cs ≡ take page_size (cache.chunks s b a))
        × (cache.chunks s' b a ≡ drop page_size (cache.chunks s b a))
        × (inserted s' b a ≤ inserted s b a)

take-whole : (n : ℕ) (cs : List DenimChunk) → length cs ≤ n → take n cs ≡ cs
take-whole zero [] h = refl
take-whole zero (c ∷ cs) h = absurd (omega arith)
take-whole (suc n) [] h = refl
take-whole (suc n) (c ∷ cs) h = ap (◌∷◌ c) (take-whole n cs (omega arith))

drop-whole : (n : ℕ) (cs : List DenimChunk) → length cs ≤ n → drop n cs ≡ []
drop-whole zero [] h = refl
drop-whole zero (c ∷ cs) h = absurd (omega arith)
drop-whole (suc n) [] h = refl
drop-whole (suc n) (c ∷ cs) h = drop-whole n cs (omega arith)

take-front : (n : ℕ) (cs ds : List DenimChunk) → length cs ≡ n → take n (cs ++ ds) ≡ cs
take-front zero [] ds h = refl
take-front zero (c ∷ cs) ds h = absurd (omega arith)
take-front (suc n) [] ds h = absurd (omega arith)
take-front (suc n) (c ∷ cs) ds h = ap (◌∷◌ c) (take-front n cs ds (omega arith))

drop-front : (n : ℕ) (cs ds : List DenimChunk) → length cs ≡ n → drop n (cs ++ ds) ≡ ds
drop-front zero [] ds h = refl
drop-front zero (c ∷ cs) ds h = absurd (omega arith)
drop-front (suc n) [] ds h = absurd (omega arith)
drop-front (suc n) (c ∷ cs) ds h = drop-front n cs ds (omega arith)

abbrev pub flatten : List (List DenimChunk) → List DenimChunk
flatten [] = []
flatten (cs ∷ css) = cs ++ flatten css

module _ {S : Type 0} (cache : ChunkCache S) where
  -- The chunks of several messages, one message after the other.
  abbrev pub receive_all :
      ProtocolAddress → Buffer → List (List DenimChunk) → Action S String (Unit {0})
  receive_all a b [] = return tt
  receive_all a b (cs ∷ css) = do _ ← enqueue_chunk_buffer cache a b cs; receive_all a b css

module _ {S : Type 0} (cache : ChunkCache S) {inserted : S → Buffer → ProtocolAddress → ℕ}
    (queue : IsQueue cache inserted) where
  enqueue_loop-appends :
      (a : ProtocolAddress) (b : Buffer) (cs : List DenimChunk) (count : ℕ) (s : S)
      → count + length cs * u32_range < u64_range
      → inserted s b a + length cs < u32_range
      → Ends (enqueue_loop cache a b cs count s) λ _ s'.
        (cache.chunks s' b a ≡ cache.chunks s b a ++ cs)
        × (inserted s' b a ≤ inserted s b a + length cs)
  unfolding enqueue_loop
  enqueue_loop-appends a b [] count s small few =
      (sym (append-nil (cache.chunks s b a)), omega arith)
  enqueue_loop-appends a b (c ∷ cs) count s small few =
      go_on-Ends {E = String} {A = ℕ} {B = ℕ} (cache.insert a b c s) _ _ _
        (queue.insert-appends a b c s (omega arith))
        λ n t (below, added, counted). rw (lt→ltb (count + n) u64_range (omega arith)) (
          Ends-map {E = String} (enqueue_loop cache a b cs (count + n) t) _ _
            (enqueue_loop-appends a b cs (count + n) t (omega arith) (omega arith))
            λ _ t' (rest, more).
              (rest ∙ rw added (append_assoc (cache.chunks s b a) (c ∷ []) cs), omega arith))

  put_back-appends :
      (a : ProtocolAddress) (b : Buffer) (cs : List DenimChunk) (s : S)
      → length cs ≤ page_size
      → inserted s b a + length cs < u32_range
      → Ends (put_back cache a b cs s) λ _ s'. cache.chunks s' b a ≡ cache.chunks s b a ++ cs
  unfolding put_back enqueue_chunk_buffer
  put_back-appends a b [] s small few = sym (append-nil (cache.chunks s b a))
  put_back-appends a b (c ∷ cs) s small few =
      go_on-Ends {E = String} {A = ℕ} {B = Unit {0}} (enqueue_loop cache a b (c ∷ cs) 0 s) _ _ _
        (enqueue_loop-appends a b (c ∷ cs) 0 s (omega arith) few) λ _ _ h. h.0

  -- A flush gives the payloads of the first page and keeps what is pending behind the other pages.
  flush-page :
      {P : Type 0} (codec : Codec P) (a : ProtocolAddress) (b : Buffer) (s : S) (payloads : List P)
      (pending : List DenimChunk)
      → create_deniable_payloads codec (take page_size (cache.chunks s b a))
        ≡ ok (payloads, pending)
      → length pending ≤ page_size
      → inserted s b a + length pending < u32_range
      → Ends (flush_chunk_buffer cache codec a b s) λ ps s'.
        (ps ≡ payloads) × (cache.chunks s' b a ≡ drop page_size (cache.chunks s b a) ++ pending)
  unfolding flush_chunk_buffer
  flush-page {P = P} codec a b s payloads pending made small few =
      go_on-Ends {E = String} {A = List DenimChunk} {B = List P} (cache.dequeue_chunks a b s) _ _ _
        (queue.dequeue-takes a b s)
        λ cs t (page, left, counted).
          rw (page, made)
            (go_on-Ends {E = String} {A = Unit {0}} {B = List P} (put_back cache a b pending t) _ _
              _ (put_back-appends a b pending t small (omega arith))
              λ _ t' kept. (refl, rw left at kept))

  receive_all-appends :
      (a : ProtocolAddress) (b : Buffer) (css : List (List DenimChunk)) (s : S)
      → length (flatten css) ≤ page_size
      → inserted s b a + length (flatten css) < u32_range
      → Ends (receive_all cache a b css s) λ _ s'.
        (cache.chunks s' b a ≡ cache.chunks s b a ++ flatten css)
        × (inserted s' b a ≤ inserted s b a + length (flatten css))
  unfolding enqueue_chunk_buffer
  receive_all-appends a b [] s small few = (sym (append-nil (cache.chunks s b a)), omega arith)
  receive_all-appends a b (cs ∷ css) s small few =
      let size = length-append cs (flatten css) in
      go_on-Ends {E = String} {A = ℕ} {B = Unit {0}} (enqueue_loop cache a b cs 0 s) _ _ _
        (enqueue_loop-appends a b cs 0 s (omega arith) (omega arith))
        λ _ t (added, counted).
          Ends-map {E = String} {A = Unit {0}} (receive_all cache a b css t) _ _
            (receive_all-appends a b css t (omega arith) (omega arith))
            λ _ t' (rest, more).
              (rest ∙ rw added (append_assoc (cache.chunks s b a) cs (flatten css)), omega arith)

  -- A payload whose chunks reach an empty buffer over any number of messages, its data chunks in any
  -- order and the final one last, comes out of the next flush, alone, and the buffer is empty again;
  -- if the chunks are at most one page, the cache is a reachable queue, and fewer than 2^32 chunks have been
  -- inserted into it with them.
  pub flush_chunk_buffer-receive_all :
      {P : Type 0} (codec : Codec P) (a : ProtocolAddress) (b : Buffer)
      (css : List (List DenimChunk)) (sent arrived : List DenimChunk) (bytes : List ℕ) (p : P)
      (s : S)
      → cache.chunks s b a ≡ []
      → flatten css ≡ arrived ++ final_chunk bytes ∷ []
      → length (flatten css) ≤ page_size
      → inserted s b a + length (flatten css) < u32_range
      → Descends (pos 1) sent
      → Perm arrived sent
      → codec.serialize p ≡ flat_chunks sent ++ bytes
      → Ends
          ((receive_all cache a b css >>= λ _. flush_chunk_buffer cache codec a b) s)
          λ ps s'. (ps ≡ p ∷ []) × (cache.chunks s' b a ≡ [])
  flush_chunk_buffer-receive_all {P = P} codec a b css sent arrived bytes p s empty all fits few
        falls perm whole =
      go_on-Ends {E = String} {A = Unit {0}} {B = List P} (receive_all cache a b css s) _ _ _
        (receive_all-appends a b css s fits few)
        λ _ t (stored, counted).
          let buffered : cache.chunks t b a ≡ flatten css = rw empty at stored in
          Ends-map {E = String} {A = List P} (flush_chunk_buffer cache codec a b t) _ _
            (flush-page codec a b t (p ∷ []) []
              (rw (buffered, take-whole page_size (flatten css) fits, all)
                (create_deniable_payloads_any_order codec sent arrived bytes p falls perm whole))
              (omega arith) (omega arith))
            λ ps t' (same, left).
              (same, left ∙ rw (buffered, drop-whole page_size (flatten css) fits))

  -- While the buffer, a reachable queue into which fewer than 2^32 chunks have been inserted, the moved ones
  -- counted again, begins with one hundred data chunks, a flush gives no payload and moves these chunks behind
  -- all others, the final chunk of their payload included.
  pub flush_chunk_buffer-stalls :
      {P : Type 0} (codec : Codec P) (a : ProtocolAddress) (b : Buffer)
      (data_chunks others : List DenimChunk) (s : S)
      → cache.chunks s b a ≡ data_chunks ++ others
      → length data_chunks ≡ page_size
      → AllData data_chunks
      → inserted s b a + page_size < u32_range
      → Ends
          (flush_chunk_buffer cache codec a b s)
          λ ps s'. (ps ≡ []) × (cache.chunks s' b a ≡ others ++ data_chunks)
  unfolding create_deniable_payloads payloads_loop
  flush_chunk_buffer-stalls {P = P} codec a b data_chunks others s buffered size flags few =
      Ends-map {E = String} {A = List P} (flush_chunk_buffer cache codec a b s) _ _
        (flush-page codec a b s [] data_chunks
          (rw (buffered, take-front page_size data_chunks others size)
            (ap (λ cs. payloads_loop codec cs [] []) (sym (append-nil data_chunks))
              ∙ payloads_loop-data codec data_chunks [] [] [] flags))
          (omega arith) (omega arith))
        λ ps s' (same, left).
          (same, left ∙ rw (buffered, drop-front page_size data_chunks others size))
