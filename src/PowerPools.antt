-- ===== src/PowerPools.antt =====
-- MultiThreadMemoryPoolTest/Project2/MemoryPool.h, MemoryPool.cpp: pools of blocks by powers of two.
-- MemoryPool::Push and Pop are written as those of ServerCore are and are taken from there, with
-- the assert of a debug build for ASSERT_CRASH. A size is the bit pattern of an int32, below 2 ^ 32.
pub mod Fit
pub mod Served
pub mod Tests
use multi_thread_test.Common.{
  ltb, ◌==◌, if◌then◌else◌, length, get_elem?, Result, ◌>>◌, assert_crash, require, undefined, ok,
  fail, ℕ, zero, suc, ◌+◌, ◌*◌, ◌%◌, ◌^◌, Bool, true, false, ◌||◌, Option, none, some, List, [],
  ◌∷◌, ◌++◌, foldl, ◌>>=◌,
}
use multi_thread_test.Memory.{
  MemoryPool, pool_init, Headers, set_header, pool_push, pool_pop, max_alloc_size, put_pool,
}

-- An int32 with 0 in place of a negative number, which compares with a number from 0 on as it does.
abbrev pub positive_part : (word : ℕ) → ℕ
positive_part word = if ltb word (2 ^ 31) then word else 0

abbrev pub has : (x : ℕ) → List ℕ → Bool
has x [] = false
has x (y ∷ ys) = x == y || has x ys

abbrev pub without : (x : ℕ) → List ℕ → List ℕ
without x [] = []
without x (y ∷ ys) = if x == y then ys else y ∷ without x ys

-- `pool_table` is _poolTable, by size, with the index of the pool in `_pools`. `owned` are the blocks
-- that _aligned_malloc has given and that have not gone to _aligned_free; a block is its header.
pub record PowerMemory : Type 0 where
  pub pools : List MemoryPool
  pub pool_table : List (ℕ × ℕ)
  pub headers : Headers
  pub owned : List ℕ

-- Memory::Initialize, one size of the loop.
abbrev pub add_size : PowerMemory → ℕ → PowerMemory
add_size m size = record m {
  pools = m.pools ++ (pool_init size ∷ []);
  pool_table = (size, length m.pools) ∷ m.pool_table;
}

abbrev pub sizes : List ℕ
sizes = 32 ∷ 64 ∷ 128 ∷ 256 ∷ 512 ∷ 1024 ∷ 2048 ∷ max_alloc_size ∷ []

unfoldable pub initialize : PowerMemory
initialize =
    foldl add_size (record { pools = []; pool_table = []; headers = λ _. 0; owned = [] }) sizes

-- `while (poolSize < size) poolSize *= 2;`, with at most so many rounds.
unfoldable pub double_until : (fuel pool_size size : ℕ) → ℕ
double_until zero pool_size size = pool_size
double_until (suc fuel) pool_size size =
    let rest = double_until fuel (pool_size * 2) size in
    if ltb pool_size size then rest else pool_size

-- The loop as it is called, on a negative size too: one of at most 4096 takes 7 rounds at most.
abbrev pub pool_size_of : (size : ℕ) → ℕ
pool_size_of size = double_until 8 32 (positive_part size)

-- _poolTable.find
unfoldable pub find_size : List (ℕ × ℕ) → (pool_size : ℕ) → Option ℕ
find_size [] pool_size = none
find_size (entry ∷ table) pool_size =
    let rest = find_size table pool_size in if entry.0 == pool_size then some entry.1 else rest

-- Memory::GetPoolBySize
unfoldable pub get_pool_by_size : PowerMemory → (size : ℕ) → Option ℕ
get_pool_by_size m size =
    if ltb max_alloc_size (positive_part size)
    then none
    else find_size m.pool_table (pool_size_of size)

-- `_poolTable[poolSize]`: a size without a pool gives a null pointer.
unfoldable pub pool_at : PowerMemory → (pool_size : ℕ) → Result (ℕ × MemoryPool)
pool_at m pool_size = elim (find_size m.pool_table pool_size) [
  | none ↦ fail undefined
  | some i ↦ elim (get_elem? m.pools i) [ none ↦ fail undefined | some pool ↦ ok (i, pool) ]
]

-- The block that Pop has given: `fresh`, if _aligned_malloc was called.
abbrev pub owned_after : MemoryPool → (fresh : ℕ) → List ℕ → List ℕ
owned_after pool fresh owned = elim pool.free [ [] ↦ fresh ∷ owned | _ ∷ _ ↦ owned ]

-- `header_size` is sizeof(MemoryHeader), a size_t: the sum is cut to an int32.
module _ (header_size : ℕ) where
  -- Memory::Allocate, where `fresh` is what _aligned_malloc answers if it is called. The answer is
  -- the header of the block, behind which its data begins.
  unfoldable pub power_allocate : PowerMemory → (size fresh : ℕ) → Result (PowerMemory × ℕ)
  power_allocate m size fresh =
      let alloc_size = (size + header_size) % 2 ^ 32 in
      if ltb max_alloc_size (positive_part alloc_size)
      then ok (
        record m { headers = set_header m.headers fresh alloc_size; owned = fresh ∷ m.owned },
        fresh,
      )
      else do
        (i, pool) ← pool_at m (pool_size_of alloc_size)
        (popped, header) ← pool_pop pool m.headers fresh
        ok (
          record m {
            pools = put_pool m.pools i popped;
            headers = set_header m.headers header alloc_size;
            owned = owned_after pool fresh m.owned;
          },
          header,
        )

-- Memory::Release of the data behind a header. The header of a block that is not owned, foreign or
-- given back to the operating system, is no memory to read.
unfoldable pub power_release : PowerMemory → (header : ℕ) → Result PowerMemory
power_release m header =
    let alloc_size = m.headers header in
    require (has header m.owned)
    >> (assert_crash (ltb 0 (positive_part alloc_size))
        >> (if ltb max_alloc_size (positive_part alloc_size)
            then ok (record m { owned = without header m.owned })
            else do
              (i, pool) ← pool_at m (pool_size_of alloc_size)
              let (pushed, headers) = pool_push pool m.headers header
              ok (record m { pools = put_pool m.pools i pushed; headers = headers })))
