-- ===== src/Memory/Blocks.antt =====
-- Allocate and Release of Memory against each other.
use multi_thread_test.Common.{
  ltb, get_elem?, crash, ok, fail, ℕ, zero, suc, ◌+◌, ◌-◌, ◌%◌, ◌^◌, ◌≤◌, ◌<◌, ◌≡◌, refl, ap, true,
  false, some, List, [], ◌∷◌, arith,
}
use multi_thread_test.Memory.Table.{find_pool-some}
use multi_thread_test.Memory.{
  MemoryPool, set_header, pool_push, pool_pop, Memory, max_alloc_size, put_pool, find_pool,
  allocate, release,
}

-- What Release of a block of a pool leaves.
release-header :
    (header_size ptr : ℕ) (m m' : Memory)
    → m.headers (ptr - header_size) ≤ max_alloc_size
    → release header_size m ptr ≡ ok m'
    → m'.headers (ptr - header_size) ≡ 0
unfolding release pool_push
release-header header_size ptr m m' h e =
    let big : ltb max_alloc_size (m.headers (ptr - header_size)) ≡ false = ground (arith, h) in
    ground (arith, big, e)

-- A block of at most 4096 bytes that is released twice crashes the second time.
pub release_twice :
    (header_size ptr : ℕ) (m m' : Memory)
    → m.headers (ptr - header_size) ≤ max_alloc_size
    → release header_size m ptr ≡ ok m'
    → release header_size m' ptr ≡ fail crash
unfolding release
release_twice header_size ptr m m' h e = rw (release-header header_size ptr m m' h e) refl

get-put_pool :
    (ps : List MemoryPool) (i : ℕ) (p q : MemoryPool)
    → get_elem? ps i ≡ some p
    → get_elem? (put_pool ps i q) i ≡ some q
get-put_pool [] i p q e = absurd (cc e)
get-put_pool (_ ∷ ps) zero p q e = refl
get-put_pool (_ ∷ ps) (suc i) p q e = get-put_pool ps i p q e

put_pool-back :
    (ps : List MemoryPool) (i : ℕ) (p q : MemoryPool)
    → get_elem? ps i ≡ some p
    → put_pool (put_pool ps i q) i p ≡ ps
put_pool-back [] i p q e = refl
put_pool-back (x ∷ ps) zero p q e = ground (arith, e)
put_pool-back (x ∷ ps) (suc i) p q e = ap (◌∷◌ x) (put_pool-back ps i p q e)

find_pool-cases :
    (m : Memory) (n i : ℕ) (p : MemoryPool)
    → find_pool m n ≡ ok (i, p)
    → (get_elem? m.pool_table n ≡ some i) × (get_elem? m.pools i ≡ some p)
unfolding find_pool
find_pool-cases m n i p e = ground (arith, e)

module _ (header_size : ℕ) where
  allocate-reuse :
      (m : Memory) (size fresh i header : ℕ) (pool : MemoryPool) (rest : List ℕ)
      → size + header_size ≤ max_alloc_size
      → find_pool m (size + header_size) ≡ ok (i, pool)
      → pool.free ≡ header ∷ rest
      → m.headers header ≡ 0
      → allocate header_size m size fresh
        ≡ ok (
          record m {
            pools = put_pool m.pools i (record pool {
              free = rest;
              use_count = (pool.use_count + 1) % 2 ^ 32;
              reserve_count = (pool.reserve_count + (2 ^ 32 - 1)) % 2 ^ 32;
            });
            headers = set_header m.headers header (size + header_size);
          },
          header + header_size,
        )
  unfolding allocate pool_pop
  allocate-reuse m size fresh i header pool rest h f e z =
      let within : ltb max_alloc_size (size + header_size) ≡ false = ground (arith, h) in
      rw (within, f, e, z) refl

  release-push :
      (m : Memory) (ptr header alloc_size i : ℕ) (pool : MemoryPool)
      → ptr - header_size ≡ header
      → m.headers header ≡ alloc_size
      → 0 < alloc_size
      → alloc_size ≤ max_alloc_size
      → find_pool m alloc_size ≡ ok (i, pool)
      → release header_size m ptr
        ≡ ok (record m {
          pools = put_pool m.pools i (pool_push pool m.headers header).0;
          headers = (pool_push pool m.headers header).1;
        })
  unfolding release
  release-push m ptr header alloc_size i pool e a h k f =
      let sized : ltb 0 alloc_size ≡ true = ground (arith, h) in
      let within : ltb max_alloc_size alloc_size ≡ false = ground (arith, k) in
      rw (e, a, sized, within, f) refl

  -- Where the pool of a size has a block in reserve, Allocate answers the data of that block, and
  -- Release of it restores all pools, their counters and every header. For counters that are words
  -- of 32 bits and a reserved block whose header is 0.
  pub release-allocate :
      (m : Memory) (size fresh i header : ℕ) (pool : MemoryPool) (rest : List ℕ)
      → 0 < size + header_size
      → size + header_size ≤ max_alloc_size
      → find_pool m (size + header_size) ≡ ok (i, pool)
      → pool.free ≡ header ∷ rest
      → m.headers header ≡ 0
      → pool.use_count < 2 ^ 32
      → pool.reserve_count < 2 ^ 32
      → (m' : Memory) × (m'' : Memory) × (allocate header_size m size fresh
          ≡ ok (m', header + header_size))
        × (release header_size m' (header + header_size) ≡ ok m'')
        × (m''.pools ≡ m.pools)
        × (m''.pool_table ≡ m.pool_table)
        × ((a : ℕ) → m''.headers a ≡ m.headers a)
  unfolding pool_push
  release-allocate m size fresh i header pool rest p h f e z u r = (
    _,
    _,
    allocate-reuse m size fresh i header pool rest h f e z,
    release-push _ (header + header_size) header (size + header_size) i _ (omega arith)
        (ground arith) p h
        (find_pool-some _ (size + header_size) i _
          (find_pool-cases m (size + header_size) i pool f).0
          (get-put_pool m.pools i pool _ (find_pool-cases m (size + header_size) i pool f).1)),
    rw (back_use, back_reserve, ← e)
        (put_pool-back m.pools i pool _ (find_pool-cases m (size + header_size) i pool f).1),
    refl,
    λ a. ground (arith, z),
  )
    where
      back_use : ((pool.use_count + 1) % 2 ^ 32 + (2 ^ 32 - 1)) % 2 ^ 32 ≡ pool.use_count
      back_use = omega (arith, u)

      back_reserve :
          ((pool.reserve_count + (2 ^ 32 - 1)) % 2 ^ 32 + 1) % 2 ^ 32 ≡ pool.reserve_count
      back_reserve = omega (arith, r)
