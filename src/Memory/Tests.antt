-- ===== src/Memory/Tests.antt =====
-- The theorems on memory, applied to small pools and to the pools of the constructor.
use multi_thread_test.Common.{undefined, ok, fail, ℕ, ◌≡◌, refl, [], ◌∷◌, arith}
use multi_thread_test.Memory.{
  MemoryPool, pool_pop, pool_push, Memory, find_pool, allocate, init, set_header,
}
use multi_thread_test.Memory.Table.{Fits, find_pool-Fits, allocate_no_pool}
use multi_thread_test.Memory.Pool.{
  InUse, occurs, popped, pushed, Reach, here, later, unused, pop_unused,
}

find_pool-Fits_example :
    (i : ℕ) × (p : MemoryPool) × (find_pool init 1025 ≡ ok (i, p)) × Fits init.pools 1025 256 i p
find_pool-Fits_example = find_pool-Fits 1025 (omega arith) (omega arith)

allocate_no_pool_example : allocate 32 init 4000 0 ≡ fail undefined
allocate_no_pool_example = allocate_no_pool 32 4000 0 (omega arith) (omega arith)

-- Two blocks popped, the first pushed back.
abbrev headers : ℕ → ℕ
headers = set_header (set_header (set_header (λ _. 0) 500 40) 600 50) 500 0

abbrev one_back : InUse
one_back = record {
  pool = record { alloc_size = 64; free = 500 ∷ []; use_count = 1; reserve_count = 1 };
  headers = headers;
  used = 600 ∷ [];
}

one_back-Reach : Reach (unused 64) one_back
unfolding pool_pop pool_push
one_back-Reach =
    later
      (later (later here (popped 500 40 refl (omega arith) refl))
        (popped 600 50 refl (omega arith) refl))
      (pushed (600 ∷ []) 500 [] refl)

pop_unused_example :
    (pool : MemoryPool) × (ptr : ℕ) × (pool_pop one_back.pool one_back.headers 700 ≡ ok (pool, ptr))
    × (occurs ptr one_back.used ≡ 0)
pop_unused_example = pop_unused 700 one_back-Reach refl

-- One pool of 8 bytes with one block in reserve, and a header of 4 bytes.
abbrev tiny : Memory
tiny = record {
  pools = record { alloc_size = 8; free = 500 ∷ []; use_count = 0; reserve_count = 1 } ∷ [];
  pool_table = 0 ∷ 0 ∷ 0 ∷ 0 ∷ 0 ∷ 0 ∷ 0 ∷ 0 ∷ 0 ∷ [];
  headers = λ _. 0;
  released = [];
}

abbrev tiny_used : Memory
tiny_used = record tiny {
  pools = record { alloc_size = 8; free = []; use_count = 1; reserve_count = 0 } ∷ [];
  headers = set_header (λ _. 0) 500 7;
}

abbrev tiny_back : Memory
tiny_back = record tiny { headers = set_header (set_header (λ _. 0) 500 7) 500 0 }
