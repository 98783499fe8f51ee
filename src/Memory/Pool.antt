-- ===== src/Memory/Pool.antt =====
-- A pool over any sequence of pops and pushes, and which blocks are in use.
use multi_thread_test.Common.{
  ◌==◌, if◌then◌else◌, length, length-append, total, total-append, total-plus, ok, ℕ, ◌+◌, ◌-◌, ◌%◌,
  ◌^◌, ◌≤◌, ◌<◌, ◌≡◌, refl, ap, ◌⊎◌, List, [], ◌∷◌, ◌++◌, arith,
}
use multi_thread_test.Memory.{MemoryPool, pool_init, Headers, set_header, pool_push, pool_pop}

-- `used` are the blocks that have been popped and not pushed since.
pub record InUse : Type 0 where
  pub pool : MemoryPool
  pub headers : Headers
  pub used : List ℕ

-- Memory::Allocate pops a block and attaches a header of at least one byte; Memory::Release pushes a
-- block in use. _aligned_malloc answers an address that is no block of the pool.
abbrev pub occurs : ℕ → List ℕ → ℕ
occurs a = total (λ b. if b == a then 1 else 0)

pub data Step (x : InUse) : InUse → Type 0 where
  popped :
      {pool : MemoryPool} {ptr : ℕ} (fresh size : ℕ)
      → occurs fresh x.pool.free + occurs fresh x.used ≡ 0
      → 0 < size
      → pool_pop x.pool x.headers fresh ≡ ok (pool, ptr)
      → Step x
          (record { pool = pool; headers = set_header x.headers ptr size; used = ptr ∷ x.used })
  pushed :
      (before : List ℕ) (ptr : ℕ) (behind : List ℕ)
      → x.used ≡ before ++ (ptr ∷ behind)
      → Step x (record {
        pool = (pool_push x.pool x.headers ptr).0;
        headers = (pool_push x.pool x.headers ptr).1;
        used = before ++ behind;
      })

pub data Reach (from : InUse) : InUse → Type 0 where
  here : Reach from from
  later : {x y : InUse} → Reach from x → Step x y → Reach from y

abbrev pub unused : ℕ → InUse
unused alloc_size = record { pool = pool_init alloc_size; headers = λ _. 0; used = [] }

record IsSound (x : InUse) : Type 0 where
  once : (a : ℕ) → occurs a x.pool.free + occurs a x.used ≤ 1
  free_zero : (a : ℕ) → 0 < occurs a x.pool.free → x.headers a ≡ 0
  used_sized : (a : ℕ) → 0 < occurs a x.used → 0 < x.headers a
  reserved : x.pool.reserve_count ≡ length x.pool.free % 2 ^ 32
  in_use : x.pool.use_count ≡ length x.used % 2 ^ 32

-- What a pop answers.
pop-cases :
    (pool pool' : MemoryPool) (h : Headers) (fresh ptr : ℕ)
    → pool_pop pool h fresh ≡ ok (pool', ptr)
    → ((pool.free ≡ [])
        × (ptr ≡ fresh)
        × (pool' ≡ record pool { use_count = (pool.use_count + 1) % 2 ^ 32 }))
      ⊎ ((pool.free ≡ ptr ∷ pool'.free)
          × (pool'.use_count ≡ (pool.use_count + 1) % 2 ^ 32)
          × (pool'.reserve_count ≡ (pool.reserve_count + (2 ^ 32 - 1)) % 2 ^ 32))
unfolding pool_pop
pop-cases pool pool' h fresh ptr e = ground (arith, e)

Step-IsSound : {x y : InUse} → Step x y → IsSound x → IsSound y
unfolding pool_push
Step-IsSound {x} (popped {pool} {ptr} fresh size unknown sized e) v =
    let cases = pop-cases x.pool pool x.headers fresh ptr e in
    record {
      once = λ a. ground (arith, cases, unknown, v.once a);
      free_zero = λ a h. ground (arith, cases, unknown, h, v.once a, v.free_zero a);
      used_sized = λ a h. ground (arith, sized, h, v.used_sized a);
      reserved = ground (arith, cases, v.reserved);
      in_use = ground (arith, cases, v.in_use);
    }
Step-IsSound {x} (pushed before ptr behind e) v = record {
  once = λ a. ground (arith, v.once a, here_used a);
  free_zero = λ a h. ground (arith, h, v.free_zero a);
  used_sized = λ a h. ground (arith, h, v.once a, here_used a, v.used_sized a);
  reserved = ground (arith, v.reserved);
  in_use = ground (arith, v.in_use, here_counted);
}
  where
    here_used :
        (a : ℕ) → occurs a x.used ≡ (if ptr == a then 1 else 0) + occurs a (before ++ behind)
    here_used a =
        let is_it : ℕ → ℕ = λ b. if b == a then 1 else 0 in
        ground (
          arith,
          ap (total is_it) e,
          total-append is_it before ptr behind,
          total-plus is_it before behind,
        )

    here_counted : length x.used ≡ 1 + length (before ++ behind)
    here_counted = ground (
      arith,
      ap (length {A = ℕ}) e,
      length-append before (ptr ∷ behind),
      length-append before behind,
    )

Reach-IsSound : {alloc_size : ℕ} {x : InUse} → Reach (unused alloc_size) x → IsSound x
Reach-IsSound here = record {
  once = λ a. omega arith;
  free_zero = λ a h. refl;
  used_sized = λ a h. absurd (omega (arith, h));
  reserved = refl;
  in_use = refl;
}
Reach-IsSound (later r st) = Step-IsSound st (Reach-IsSound r)

pop-returns :
    (pool : MemoryPool) (h : Headers) (fresh : ℕ) (used free : List ℕ)
    → pool.free ≡ free
    → ((a : ℕ) → 0 < occurs a free → h a ≡ 0)
    → ((a : ℕ) → occurs a free + occurs a used ≤ 1)
    → occurs fresh free + occurs fresh used ≡ 0
    → (pool' : MemoryPool) × (ptr : ℕ) × (pool_pop pool h fresh ≡ ok (pool', ptr))
      × (occurs ptr used ≡ 0)
unfolding pool_pop
pop-returns pool h fresh used [] e z o u = rw e (_, fresh, refl, omega (arith, u))
pop-returns pool h fresh used (ptr ∷ rest) e z o u =
    let zero_header : h ptr ≡ 0 = z ptr (ground arith) in
    rw (e, zero_header) (_, ptr, refl, ground (arith, o ptr))

-- After any sequence of pops and pushes, the next pop does not crash, and the block that it answers
-- is not in use. Where _aligned_malloc answers addresses that are no blocks of the pool.
pub pop_unused :
    {alloc_size : ℕ} {x : InUse} (fresh : ℕ)
    → Reach (unused alloc_size) x
    → occurs fresh x.pool.free + occurs fresh x.used ≡ 0
    → (pool : MemoryPool) × (ptr : ℕ) × (pool_pop x.pool x.headers fresh ≡ ok (pool, ptr))
      × (occurs ptr x.used ≡ 0)
pop_unused {x = x} fresh r unknown =
    let v = Reach-IsSound r in
    pop-returns x.pool x.headers fresh x.used x.pool.free refl v.free_zero v.once unknown
