-- ===== src/Memory.antt =====
-- JobTimer_소스코드 (1)/ServerCore/Memory.h, Memory.cpp, MemoryPool.h, MemoryPool.cpp and
-- StompAllocator of Allocator.h, Allocator.cpp: the pools of blocks, the table that finds the pool
-- of a size, and the allocator that _STOMP (Types.h) selects in their place. Addresses are natural
-- numbers, a pool is known by its index in `_pools`, and what the operating system's allocators
-- answer is an argument. Sizes are those that an int32 holds.
pub mod Table
pub mod Pool
pub mod Blocks
pub mod Stomp
pub mod Tests
use multi_thread_test.Common.{
  ltb, leb, ◌==◌, if◌then◌else◌, length, get_elem?, Result, ◌>>◌, assert_crash, undefined, ok, fail,
  ℕ, zero, suc, ◌+◌, ◌-◌, ◌*◌, ◌/◌, ◌%◌, ◌^◌, none, some, List, [], ◌∷◌, ◌++◌, ◌>>=◌,
}

-- The atomic counters are int32, written as the word modulo 2 ^ 32. `free` is the SLIST.
pub record MemoryPool : Type 0 where
  pub alloc_size : ℕ
  pub free : List ℕ
  pub use_count : ℕ
  pub reserve_count : ℕ

abbrev pub pool_init : ℕ → MemoryPool
pool_init alloc_size = record {
  alloc_size = alloc_size;
  free = [];
  use_count = 0;
  reserve_count = 0;
}

-- The `allocSize` of the MemoryHeader at each address.
abbrev pub Headers : Type 0
Headers = ℕ → ℕ

abbrev pub set_header : Headers → ℕ → ℕ → Headers
set_header h ptr size = λ p. if p == ptr then size else h p

-- MemoryPool::Push
unfoldable pub pool_push : MemoryPool → Headers → ℕ → MemoryPool × Headers
pool_push pool h ptr = (
  record pool {
    free = ptr ∷ pool.free;
    use_count = (pool.use_count + (2 ^ 32 - 1)) % 2 ^ 32;
    reserve_count = (pool.reserve_count + 1) % 2 ^ 32;
  },
  set_header h ptr 0,
)

-- MemoryPool::Pop, where `fresh` is what _aligned_malloc answers if it is called.
unfoldable pub pool_pop : MemoryPool → Headers → (fresh : ℕ) → Result (MemoryPool × ℕ)
pool_pop pool h fresh = elim pool.free [
  | [] ↦ ok (record pool { use_count = (pool.use_count + 1) % 2 ^ 32 }, fresh)
  | ptr ∷ rest ↦
      assert_crash (h ptr == 0)
      >> ok (
        record pool {
          free = rest;
          use_count = (pool.use_count + 1) % 2 ^ 32;
          reserve_count = (pool.reserve_count + (2 ^ 32 - 1)) % 2 ^ 32;
        },
        ptr,
      )
]

-- `pool_table` is the part of _poolTable that has been assigned, from index 0 on. `released` are
-- the blocks given back to the operating system.
pub record Memory : Type 0 where
  pub pools : List MemoryPool
  pub pool_table : List ℕ
  pub headers : Headers
  pub released : List ℕ

abbrev pub max_alloc_size : ℕ
max_alloc_size = 4096

-- `while (tableIndex <= size)`
pub fill_table : (fuel : ℕ) → (pool size : ℕ) → List ℕ → List ℕ
fill_table zero pool size table = table
fill_table (suc fuel) pool size table =
    let rest = fill_table fuel pool size (table ++ (pool ∷ [])) in
    if leb (length table) size then rest else table

pub add_pool : ℕ → Memory → Memory
add_pool size m = record m {
  pools = m.pools ++ (pool_init size ∷ []);
  pool_table = fill_table (suc size) (length m.pools) size m.pool_table;
}

-- `for (; size <= last; size += step)`, with the size that is left.
pub add_pools : (fuel : ℕ) → (size last step : ℕ) → Memory → ℕ × Memory
add_pools zero size last step m = (size, m)
add_pools (suc fuel) size last step m =
    let rest = add_pools fuel (size + step) last step (add_pool size m) in
    if leb size last then rest else (size, m)

abbrev pub no_pools : Memory
no_pools = record { pools = []; pool_table = []; headers = λ _. 0; released = [] }

-- Memory::Memory, with the size after each loop. Each loop makes fewer than 64 rounds.
pub first_loop : ℕ × Memory
first_loop = add_pools 64 32 1024 32 no_pools

pub second_loop : ℕ × Memory
second_loop = add_pools 64 first_loop.0 2048 128 first_loop.1

pub third_loop : ℕ × Memory
third_loop = add_pools 64 second_loop.0 4096 256 second_loop.1

abbrev pub init : Memory
init = third_loop.1

abbrev pub put_pool : List MemoryPool → ℕ → MemoryPool → List MemoryPool
put_pool [] i pool = []
put_pool (p ∷ ps) zero pool = pool ∷ ps
put_pool (p ∷ ps) (suc i) pool = p ∷ put_pool ps i pool

-- `_poolTable[allocSize]`: an entry that was not assigned is no pool.
pub find_pool : Memory → ℕ → Result (ℕ × MemoryPool)
find_pool m alloc_size = elim (get_elem? m.pool_table alloc_size) [
  | none ↦ fail undefined
  | some i ↦ elim (get_elem? m.pools i) [ none ↦ fail undefined | some pool ↦ ok (i, pool) ]
]

-- Without _STOMP. `header_size` is sizeof(MemoryHeader).
module _ (header_size : ℕ) where
  -- Memory::Allocate, where `fresh` is what _aligned_malloc answers if it is called.
  unfoldable pub allocate : Memory → (size fresh : ℕ) → Result (Memory × ℕ)
  allocate m size fresh =
      let alloc_size = size + header_size in
      if ltb max_alloc_size alloc_size
      then ok (record m { headers = set_header m.headers fresh alloc_size }, fresh + header_size)
      else do
        (i, pool) ← find_pool m alloc_size
        (popped, header) ← pool_pop pool m.headers fresh
        ok (
          record m {
            pools = put_pool m.pools i popped;
            headers = set_header m.headers header alloc_size;
          },
          header + header_size,
        )

  -- Memory::Release
  unfoldable pub release : Memory → (ptr : ℕ) → Result Memory
  release m ptr =
      let header = ptr - header_size in
      let alloc_size = m.headers header in
      assert_crash (ltb 0 alloc_size)
      >> (if ltb max_alloc_size alloc_size
          then ok (record m { released = header ∷ m.released })
          else do
            (i, pool) ← find_pool m alloc_size
            let (pushed, headers) = pool_push pool m.headers header
            ok (record m { pools = put_pool m.pools i pushed; headers = headers }))

-- StompAllocator, where `base` is what VirtualAlloc answers.
abbrev pub page_size : ℕ
page_size = 0x1000

unfoldable pub page_count : (size : ℕ) → ℕ
page_count size = (size + page_size - 1) / page_size

unfoldable pub stomp_alloc : (base size : ℕ) → ℕ
unfolding page_count
stomp_alloc base size = base + (page_count size * page_size - size)

-- The address that is handed to VirtualFree.
unfoldable pub stomp_release : ℕ → ℕ
stomp_release address = address - address % page_size
