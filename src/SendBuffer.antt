-- ===== src/SendBuffer.antt =====
-- JobTimer_소스코드 (1)/ServerCore/SendBuffer.h and SendBuffer.cpp: the buffers that a thread cuts
-- from its chunk. A chunk is known by its index in `chunks`, a buffer by its chunk and offset; the
-- bytes themselves are not kept. Sizes are uint32.
pub mod Packing
pub mod Tests
use multi_thread_test.Common.{
  ltb, leb, if◌then◌else◌, length, get_or, Result, ◌>>◌, assert_crash, ok, ℕ, zero, suc, ◌+◌, ◌-◌,
  ◌%◌, ◌^◌, Bool, true, false, not, Option, none, some, List, [], ◌∷◌, ◌++◌, ◌>>=◌,
}

-- SEND_BUFFER_CHUNK_SIZE
abbrev pub chunk_size : ℕ
chunk_size = 6000

pub record SendBuffer : Type 0 where
  pub owner : ℕ
  pub offset : ℕ
  pub alloc_size : ℕ
  pub write_size : ℕ

pub record Chunk : Type 0 where
  pub is_open : Bool
  pub used_size : ℕ

abbrev pub free_size : Chunk → ℕ
free_size c = (chunk_size + (2 ^ 32 - c.used_size)) % 2 ^ 32

-- SendBufferChunk::Reset, which is also how a chunk is constructed.
abbrev pub reset : Chunk
reset = record { is_open = false; used_size = 0 }

-- SendBufferChunk::Open of the chunk `owner`; `none` is nullptr.
unfoldable pub chunk_open :
    (owner : ℕ) → Chunk → (alloc_size : ℕ) → Result (Option SendBuffer × Chunk)
chunk_open owner c alloc_size = do
  assert_crash (leb alloc_size chunk_size)
  assert_crash (not c.is_open)
  ok (
      if ltb (free_size c) alloc_size then (none, c) else (
        some (record {
          owner = owner;
          offset = c.used_size;
          alloc_size = alloc_size;
          write_size = 0;
        }),
        record c { is_open = true },
      ))

-- SendBufferChunk::Close
unfoldable pub chunk_close : Chunk → (write_size : ℕ) → Result Chunk
chunk_close c write_size = do
  assert_crash c.is_open
  ok (record { is_open = false; used_size = (c.used_size + write_size) % 2 ^ 32 })

-- SendBuffer::Close, where `c` is `_owner`.
unfoldable pub close : SendBuffer → Chunk → (write_size : ℕ) → Result (SendBuffer × Chunk)
unfolding chunk_close
close b c write_size = do
  assert_crash (leb write_size b.alloc_size)
  c' ← chunk_close c write_size
  ok (record b { write_size = write_size }, c')

-- All chunks, the one of this thread (LSendBufferChunk), and those in reserve, the last at the back.
pub record Manager : Type 0 where
  pub chunks : List Chunk
  pub current : Option ℕ
  pub reserve : List ℕ

abbrev pub put_chunk : List Chunk → ℕ → Chunk → List Chunk
put_chunk [] i c = []
put_chunk (x ∷ xs) zero c = c ∷ xs
put_chunk (x ∷ xs) (suc i) c = x ∷ put_chunk xs i c

-- `back()` and what `pop_back()` leaves.
pub pop_back : List ℕ → Option (ℕ × List ℕ)
pop_back [] = none
pop_back (i ∷ is) = elim (pop_back is) [ none ↦ some (i, []) | some (j, js) ↦ some (j, i ∷ js) ]

-- SendBufferManager::Pop
unfoldable pub pop : Manager → ℕ × Manager
pop m = elim (pop_back m.reserve) [
  | none ↦ (length m.chunks, record m { chunks = m.chunks ++ (reset ∷ []) })
  | some (i, rest) ↦ (i, record m { reserve = rest })
]

-- SendBufferManager::Push
unfoldable pub push : Manager → ℕ → Manager
push m i = record m { reserve = m.reserve ++ (i ∷ []) }

-- `LSendBufferChunk = Pop(); LSendBufferChunk->Reset();`
unfoldable pub renew : Manager → ℕ × Manager
unfolding pop
renew m =
    let (i, m') = pop m in (i, record m' { chunks = put_chunk m'.chunks i reset; current = some i })

-- The chunk at `i`; another index is no chunk.
abbrev pub chunk_at : Manager → ℕ → Chunk
chunk_at m i = get_or m.chunks i reset

-- The thread's chunk after `if (LSendBufferChunk == nullptr)`.
unfoldable pub own_chunk : Manager → ℕ × Manager
own_chunk m = elim m.current [ none ↦ renew m | some i ↦ (i, m) ]

-- SendBufferManager::Open
unfoldable pub open_buffer : Manager → (size : ℕ) → Result (Option SendBuffer × Manager)
open_buffer m size =
    let (i, m') = own_chunk m in
    assert_crash (not (chunk_at m' i).is_open)
    >> (let (j, m'') = if ltb (free_size (chunk_at m' i)) size then renew m' else (i, m') in
        do
          (b, c) ← chunk_open j (chunk_at m'' j) size
          ok (b, record m'' { chunks = put_chunk m''.chunks j c }))
