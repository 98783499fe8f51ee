-- ===== src/PowerPools/Served.antt =====
-- MultiThreadMemoryPoolTest/Project2/MemoryPool.cpp: the states that are reached, and their pools.
use multi_thread_test.Common.{true, ok, ℕ, ◌*◌, ◌≤◌, ◌<◌, ◌≡◌, ◌⊎◌, List, map, arith}
use multi_thread_test.Memory.{MemoryPool}
use multi_thread_test.PowerPools.{
  PowerMemory, positive_part, has, sizes, initialize, double_until, pool_size_of, power_allocate,
  power_release,
}

abbrev pub sizes_of : List MemoryPool → List ℕ
sizes_of = map (λ pool. pool.alloc_size)

-- The table and the sizes of the pools are those that the constructor made.
pub record IsMade (m : PowerMemory) : Type 0 where
  pub table : m.pool_table ≡ initialize.pool_table
  pub made : sizes_of m.pools ≡ sizes

-- A size that fits gets a pool of that size, less than twice as large, or of 32 bytes.
pool_size_of-bounds :
    (n : ℕ)
    → n ≤ 4096
    → (positive_part n ≤ pool_size_of n)
      × ((pool_size_of n ≡ 32) ⊎ (pool_size_of n < positive_part n * 2))
unfolding double_until
pool_size_of-bounds n h = ground (arith, h)

module _ (header_size : ℕ) where
  -- Memory, and Allocate and Release in any order, of any block that came from _aligned_malloc and
  -- has not gone back.
  pub data Reach : PowerMemory → Type 0 where
    fresh_memory : Reach initialize
    allocated :
        {m m' : PowerMemory} (size fresh header : ℕ)
        → Reach m
        → power_allocate header_size m size fresh ≡ ok (m', header)
        → Reach m'
    released :
        {m m' : PowerMemory} (header : ℕ)
        → Reach m
        → has header m.owned ≡ true
        → power_release m header ≡ ok m'
        → Reach m'
