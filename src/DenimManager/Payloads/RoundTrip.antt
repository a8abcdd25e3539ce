-- ===== src/DenimManager/Payloads/RoundTrip.antt =====
-- A payload that is cut by `create_ordered_chunks` over several messages is put together again.
use denim.Prelude.{
  ℕ, ◌<◌, ◌≡◌, refl, sym, ap, ◌∙◌, List, [], ◌∷◌, ◌++◌, arith, length, ℤ, pos, pred_ℤ, ◌<ℤ◌, ◌≤ℤ◌,
  pred_ℤ-lt, Run, ok, ◌>>=◌, IfOk, >>=-IfOk, IfOk-at, append_assoc, append-nil, length-append,
}
use denim.Chunk.Types.{DenimChunk, PayloadData, Chunker, Wire, from_i32, payload_data}
use denim.Chunk.Ordered.{create_ordered_chunks}
use denim.Chunk.Ordered.Emits.{
  Emits, Emits-append, rest, pad, part, last, part_chunk, create_ordered_chunks-Emits,
}
use denim.Chunk.Sort.{Descends, sort-Descends}
use denim.DenimManager.Payloads.{Codec, flat_chunks, payloads_loop, create_deniable_payloads}
use denim.DenimManager.Payloads.Order.{from_i32-data, payloads_loop-final}

-- The sender goes on with what the last message had no room for.
unfoldable pub transmit :
    {F : Type 0} → Wire F → Chunker F → List F → PayloadData → Run (List DenimChunk × PayloadData)
transmit w c [] payload = ok ([], payload)
transmit w c (size ∷ sizes) payload = do
  (chunks, _, pending) ← create_ordered_chunks w c size payload
  (more, left) ← transmit w c sizes pending
  ok (chunks ++ more, left)

transmit-Emits :
    {F : Type 0} (w : Wire F) (c : Chunker F) (sizes : List F) (payload : PayloadData)
    → IfOk
        (transmit w c sizes payload)
        λ r. Emits payload.chunk payload.flags r.0 r.1.chunk r.1.flags
unfolding transmit
transmit-Emits w c [] payload = rest
transmit-Emits w c (size ∷ sizes) payload =
    >>=-IfOk (create_ordered_chunks w c size payload) _ _ _
      (create_ordered_chunks-Emits w c size payload)
      λ r here.
        >>=-IfOk (transmit w c sizes r.2) _ _ _ (transmit-Emits w c sizes r.2)
          λ s there. Emits-append here there

pub flat_chunks-append :
    (cs ds : List DenimChunk) → flat_chunks (cs ++ ds) ≡ flat_chunks cs ++ flat_chunks ds
flat_chunks-append [] ds = refl
flat_chunks-append (c ∷ cs) ds = simp (flat_chunks-append cs ds, append_assoc)

nil_of_append : (front back : List ℕ) → [] ≡ front ++ back → 0 < length back → ⊥
nil_of_append front back e h = omega (arith, ap (length {A = ℕ}) e, length-append front back)

append_nil_chunk : (front : List ℕ) → front ++ [] ≡ front
append_nil_chunk front = append-nil front

below_one : (f : ℤ) → f <ℤ pos 1 → f ≤ℤ pos 0
below_one f h = omega arith

-- The flags of the pending chunks fall, and the next one is below them.
Descends-extend :
    (bound : ℤ) (cs : List DenimChunk) (c d e : DenimChunk)
    → Descends bound (cs ++ c ∷ [])
    → c.flags ≡ d.flags
    → e.flags <ℤ d.flags
    → Descends bound ((cs ++ d ∷ []) ++ e ∷ [])
Descends-extend bound [] c d e h same lt = (rw (← same) h.0, (lt, tt))
Descends-extend bound (x ∷ cs) c d e h same lt = (h.0, Descends-extend x.flags cs c d e h.1 same lt)

Descends-init :
    (bound : ℤ) (cs : List DenimChunk) (c : DenimChunk)
    → Descends bound (cs ++ c ∷ [])
    → Descends bound cs × (c.flags <ℤ bound)
Descends-init bound [] c h = (tt, h.0)
Descends-init bound (x ∷ cs) c h =
    let (falls, below) = Descends-init x.flags cs c h.1 in ((h.0, falls), omega arith)

module _ {P : Type 0} (codec : Codec P) where
  -- With nothing left to send, only dummies follow.
  payloads_loop_idle :
      {bytes bytes' : List ℕ} {count count' : ℤ} {cs : List DenimChunk} (payloads : List P)
      (pending : List DenimChunk)
      → Emits bytes count cs bytes' count'
      → [] ≡ bytes
      → payloads_loop codec cs payloads pending ≡ ok (payloads, pending)
  unfolding payloads_loop from_i32
  payloads_loop_idle payloads pending rest e = refl
  payloads_loop_idle payloads pending (pad filler em) e = payloads_loop_idle payloads pending em e
  payloads_loop_idle payloads pending (part front back eq more em) e =
      absurd (nil_of_append front back (e ∙ eq) more)
  payloads_loop_idle payloads pending (last some_left em) e =
      absurd (omega (arith, ap (length {A = ℕ}) e))

  payloads_loop-Emits :
      {bytes bytes' : List ℕ} {count count' : ℤ} {cs : List DenimChunk} (payloads : List P)
      (pending : List DenimChunk) (p : P)
      → Emits bytes count cs bytes' count'
      → bytes' ≡ []
      → 0 < length bytes
      → Descends (pos 1) (pending ++ part_chunk count [] ∷ [])
      → flat_chunks pending ++ bytes ≡ codec.serialize p
      → payloads_loop codec cs payloads pending ≡ ok (payloads ++ p ∷ [], [])
  unfolding payloads_loop from_i32
  payloads_loop-Emits payloads pending p rest done some_left falls whole =
      absurd (omega (arith, ap (length {A = ℕ}) done))
  payloads_loop-Emits payloads pending p (pad filler em) done some_left falls whole =
      payloads_loop-Emits payloads pending p em done some_left falls whole
  payloads_loop-Emits {count = count} payloads pending p (part front back eq more em) done some_left
        falls whole =
      rw
        (from_i32-data count
          (below_one count (Descends-init (pos 1) pending (part_chunk count []) falls).1))
        (payloads_loop-Emits payloads (pending ++ part_chunk count front ∷ []) p em done more
          (Descends-extend (pos 1) pending (part_chunk count []) (part_chunk count front)
            (part_chunk (pred_ℤ count) []) falls refl (pred_ℤ-lt count))
          (rw (flat_chunks-append pending (part_chunk count front ∷ []), append_nil_chunk front)
            (append_assoc (flat_chunks pending) front back
              ∙ ap (◌++◌ (flat_chunks pending)) (sym eq)
              ∙ whole)))
  payloads_loop-Emits payloads pending p (last {bytes = bytes} {cs = later} some em) done some_left
        falls whole =
      payloads_loop-final codec bytes later payloads pending p
        (rw (sort-Descends (pos 1) pending (Descends-init (pos 1) pending _ falls).0) whole)
      ∙ payloads_loop_idle (payloads ++ p ∷ []) [] em refl

-- A payload that is sent with whatever messages have room for it, in order and mixed with dummies,
-- comes out of `create_deniable_payloads` as soon as nothing of it is left to send: exactly this
-- payload, and no chunk stays pending.
pub transmit-create_deniable_payloads :
    {F P : Type 0} (w : Wire F) (codec : Codec P) (c : Chunker F) (sizes : List F) (p : P)
    (chunks : List DenimChunk) (left : PayloadData)
    → 0 < length (codec.serialize p)
    → transmit w c sizes (payload_data (codec.serialize p)) ≡ ok (chunks, left)
    → left.chunk ≡ []
    → create_deniable_payloads codec chunks ≡ ok (p ∷ [], [])
unfolding create_deniable_payloads payload_data
transmit-create_deniable_payloads w codec c sizes p chunks left some_bytes sent done =
    payloads_loop-Emits codec [] [] p
      (IfOk-at (transmit w c sizes (payload_data (codec.serialize p))) _
        (transmit-Emits w c sizes (payload_data (codec.serialize p))) sent)
      done some_bytes (omega arith) refl
