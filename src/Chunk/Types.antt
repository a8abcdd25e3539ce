-- ===== src/Chunk/Types.antt =====
-- The chunk of common/src/web_api/mod.rs and the kinds of chunk of common/src/deniable/chunk.rs.
use denim.Prelude.{
  ℕ, ◌+◌, ◌≡◌, Bool, List, [], ◌∷◌, length, ℤ, pos, ltb_ℤ, eqb_ℤ, pred_ℤ, min_i32, Run, ok, panic,
  if◌then◌else◌, ℕ_discrete,
}

-- `EMPTY_VEC_SIZE`
abbrev pub empty_vec_size : ℕ
empty_vec_size = 8

-- `EMPTY_DENIMCHUNK_SIZE`
abbrev pub empty_denimchunk_size : ℕ
empty_denimchunk_size = 12

-- A chunk; `PayloadData` is the same type in the source.
pub record DenimChunk : Type 0 where
  pub chunk : List ℕ
  pub flags : ℤ

pub DenimChunk-discrete : Discrete DenimChunk
DenimChunk-discrete = hlevel ℕ_discrete

abbrev pub PayloadData : Type 0
PayloadData = DenimChunk

-- `PayloadData::new`
unfoldable pub payload_data : List ℕ → PayloadData
payload_data bytes = record { chunk = bytes; flags = pos 0 }

unfoldable pub is_dummy : DenimChunk → Bool
is_dummy c = eqb_ℤ c.flags (pos 1)

unfoldable pub is_final : DenimChunk → Bool
is_final c = eqb_ℤ c.flags (pos 2)

pub data ChunkType : Type 0 where
  data_chunk : ℤ → ChunkType
  dummy : ChunkType
  final : ChunkType

-- `impl From<i32> for ChunkType`: above 2 the match is `unreachable!`.
unfoldable pub from_i32 : ℤ → Run ChunkType
from_i32 value =
    if eqb_ℤ value (pos 1)
    then ok dummy
    else if eqb_ℤ value (pos 2)
    then ok final
    else if ltb_ℤ (pos 0) value
    then panic
    else ok (data_chunk value)

-- `impl From<ChunkType> for i32`
unfoldable pub to_i32 : ChunkType → ℤ
to_i32 dummy = pos 1
to_i32 final = pos 2
to_i32 (data_chunk value) = value

-- `count -= 1` on an `i32` panics at the least value.
unfoldable pub decrement : ℤ → Run ℤ
decrement count = if eqb_ℤ count min_i32 then panic else ok (pred_ℤ count)

-- The length of `bincode::serialize` of a chunk list, as the source's tests fix it: eight bytes for
-- the list, and for each chunk twelve bytes and its data.
abbrev pub chunks_size : List DenimChunk → ℕ
chunks_size [] = 0
chunks_size (c ∷ cs) = empty_denimchunk_size + length c.chunk + chunks_size cs

-- The two libraries that the chunker calls. `F` is `f32`, of which the code uses a product that is
-- rounded up to a `usize`, and the literal 0.6.
pub record Wire (F : Type 0) : Type 0 where
  pub ceil_mul : F → F → ℕ
  pub six_tenths : F
  pub serialize : List DenimChunk → List ℕ
  pub length-serialize :
      (cs : List DenimChunk) → length (serialize cs) ≡ empty_vec_size + chunks_size cs

pub record Chunker (F : Type 0) : Type 0 where
  pub q_value : F

unfoldable pub default_chunker : {F : Type 0} → Wire F → Chunker F
default_chunker w = record { q_value = w.six_tenths }

unfoldable pub new_chunker : {F : Type 0} → F → Chunker F
new_chunker q_value = record { q_value = q_value }

unfoldable pub set_q_value : {F : Type 0} → Chunker F → F → Chunker F
set_q_value c q_value = record c { q_value = q_value }
