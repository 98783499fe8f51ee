-- ===== src/PowerPools/Fit.antt =====
-- MultiThreadMemoryPoolTest/Project2/MemoryPool.cpp: the pool that a size gets.
use multi_thread_test.Common.{
  leb, if◌then◌else◌, ℕ, suc, ◌≡◌, Option, none, some, List, [], ◌∷◌, arith,
}
use multi_thread_test.PowerPools.{
  initialize, double_until, find_size, get_pool_by_size, positive_part, sizes,
}

-- The index, counted from the given one, of the first size that holds so many bytes.
abbrev pub first_fit : (index : ℕ) → List ℕ → (size : ℕ) → Option ℕ
first_fit index [] size = none
first_fit index (block ∷ blocks) size =
    let rest = first_fit (suc index) blocks size in if leb size block then some index else rest

pub get_pool_by_size-initialize :
    (size : ℕ) → get_pool_by_size initialize size ≡ first_fit 0 sizes (positive_part size)
unfolding get_pool_by_size initialize double_until find_size
get_pool_by_size-initialize size = ground arith
