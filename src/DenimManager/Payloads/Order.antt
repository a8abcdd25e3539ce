-- ===== src/DenimManager/Payloads/Order.antt =====
-- Chunks that arrive out of order.
use mathlib.Core.List.{Perm, Mem, mem-cons, mem-cons_self, mem-cons_of_mem, not-mem-nil}
use mathlib.Core.Logic.Or
use native.Mathlib.Bridge.{le_prop}
use mathlib.Core.List.Perm
use denim.Prelude.{
  ℕ, ◌≡◌, sym, ap, ◌∙◌, List, [], ◌∷◌, ◌++◌, arith, ℤ, pos, ◌≤ℤ◌, ok, append_assoc, append-nil, Run,
}
use denim.Chunk.Types.{DenimChunk, ChunkType, from_i32, data_chunk}
use denim.Chunk.Ordered.Emits.{final_chunk}
use denim.Chunk.Sort.{sort, Descends, sort-perm}
use denim.DenimManager.Payloads.{Codec, flat_chunks, payloads_loop, create_deniable_payloads}

-- Every flag is one of a data chunk.
abbrev pub AllData : List DenimChunk → Type 0
AllData [] = Unit {0}
AllData (c ∷ cs) = (c.flags ≤ℤ pos 0) × AllData cs

pub from_i32-data : (f : ℤ) → f ≤ℤ pos 0 → ◌≡◌ {A = Run ChunkType} (from_i32 f) (ok (data_chunk f))
unfolding from_i32
from_i32-data f h = ground arith

module _ {P : Type 0} (codec : Codec P) where
  -- Data chunks are put aside in the order of arrival.
  pub payloads_loop-data :
      (cs rest : List DenimChunk) (payloads : List P) (pending : List DenimChunk)
      → AllData cs
      → payloads_loop codec (cs ++ rest) payloads pending
        ≡ payloads_loop codec rest payloads (pending ++ cs)
  unfolding payloads_loop
  payloads_loop-data [] rest payloads pending h = rw append-nil
  payloads_loop-data (c ∷ cs) rest payloads pending h = rw (from_i32-data c.flags h.0) (
      payloads_loop-data cs rest payloads (pending ++ c ∷ []) h.1
      ∙ ap (payloads_loop codec rest payloads) (append_assoc pending (c ∷ []) cs))

-- A final chunk closes the payload: the pending chunks are sorted and joined.
pub payloads_loop-final :
    {P : Type 0} (codec : Codec P) (bytes : List ℕ) (rest : List DenimChunk) (payloads : List P)
    (pending : List DenimChunk) (p : P)
    → flat_chunks (sort pending) ++ bytes ≡ codec.serialize p
    → payloads_loop codec (final_chunk bytes ∷ rest) payloads pending
      ≡ payloads_loop codec rest (payloads ++ p ∷ []) []
unfolding payloads_loop from_i32
payloads_loop-final codec bytes rest payloads pending p e = rw (e, codec.deserialize-serialize p)

pub AllData-of :
    (cs : List DenimChunk) → ((c : DenimChunk) → Mem c cs → c.flags ≤ℤ pos 0) → AllData cs
AllData-of [] h = tt
AllData-of (c ∷ cs) h = (h c mem-cons_self, AllData-of cs λ d m. h d (mem-cons_of_mem c m))

pub AllData-mem : (cs : List DenimChunk) (c : DenimChunk) → AllData cs → Mem c cs → c.flags ≤ℤ pos 0
AllData-mem [] c h m = absurd (not-mem-nil m)
AllData-mem (d ∷ cs) c h m =
    Or.elim le_prop (mem-cons.0 m) (λ e. rw e h.0) λ later. AllData-mem cs c h.1 later

pub Descends-AllData :
    (bound : ℤ) (cs : List DenimChunk) → bound ≤ℤ pos 1 → Descends bound cs → AllData cs
Descends-AllData bound [] h d = tt
Descends-AllData bound (c ∷ cs) h d = (omega arith, Descends-AllData c.flags cs (omega arith) d.1)

-- The data chunks of one payload may arrive in any order before the final one: if their flags fall
-- from at most 0 in the order of sending, and their bytes in that order, with the final bytes
-- behind, are the serialized payload, then exactly this payload comes out and nothing stays pending.
pub create_deniable_payloads_any_order :
    {P : Type 0} (codec : Codec P) (sent arrived : List DenimChunk) (bytes : List ℕ) (p : P)
    → Descends (pos 1) sent
    → Perm arrived sent
    → codec.serialize p ≡ flat_chunks sent ++ bytes
    → create_deniable_payloads codec (arrived ++ final_chunk bytes ∷ []) ≡ ok (p ∷ [], [])
unfolding create_deniable_payloads
create_deniable_payloads_any_order codec sent arrived bytes p falls perm whole =
    payloads_loop-data codec arrived (final_chunk bytes ∷ []) [] [] (
      AllData-of arrived λ c m.
        AllData-mem sent c (Descends-AllData (pos 1) sent (omega arith) falls)
          ((Perm.mem_iff perm).0 m))
    ∙ payloads_loop-final codec bytes [] [] arrived p
        (rw (sort-perm (pos 1) arrived sent perm falls) (sym whole))
