-- ===== src/PowerPools/Tests.antt =====
-- MultiThreadMemoryPoolTest: a memory with one block of 100 bytes, and the sizes at the bounds.
use multi_thread_test.Common.{crash, ok, fail, ◌≡◌, refl, none, some, [], ◌∷◌}
use multi_thread_test.Memory.{pool_pop, pool_init, put_pool, set_header}
use multi_thread_test.PowerPools.{
  PowerMemory, initialize, double_until, find_size, pool_at, get_pool_by_size, power_allocate,
  power_release,
}

abbrev one_block : PowerMemory
one_block = record initialize {
  pools = put_pool initialize.pools 3 (record (pool_init 256) { use_count = 1 });
  headers = set_header (λ _. 0) 500 132;
  owned = 500 ∷ [];
}

bounds :
    (get_pool_by_size initialize 0 ≡ some 0)
    × (get_pool_by_size initialize 33 ≡ some 1)
    × (get_pool_by_size initialize 4096 ≡ some 7)
    × (get_pool_by_size initialize 4097 ≡ none)
unfolding get_pool_by_size initialize find_size double_until
bounds = (refl, refl, refl, refl)

-- A size near the end of int32 overflows with the header: Allocate answers a block of 32 bytes, whose
-- Release stops at the assert.
abbrev overflowed : PowerMemory
overflowed = record initialize {
  pools = put_pool initialize.pools 0 (record (pool_init 32) { use_count = 1 });
  headers = set_header (λ _. 0) 500 0x80000000;
  owned = 500 ∷ [];
}

allocate_overflows :
    (power_allocate 32 initialize 0x7FFFFFE0 500 ≡ ok (overflowed, 500))
    × (power_release overflowed 500 ≡ fail crash)
unfolding power_allocate power_release pool_at find_size double_until initialize pool_pop
allocate_overflows = (refl, refl)
