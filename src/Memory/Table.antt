-- ===== src/Memory/Table.antt =====
-- What the constructor of Memory puts into the table.
use multi_thread_test.Common.{
  ltb, leb, if◌then◌else◌, Bool-cases, length, get_elem?, length-append, undefined, ok, fail, ℕ,
  zero, suc, ◌+◌, ◌-◌, ◌≤◌, ◌<◌, ◌≡◌, refl, ◌∙◌, inl, inr, Bool, true, false, ◌&&◌, Option, none,
  some, List, [], ◌∷◌, ◌++◌, arith,
}
use multi_thread_test.Memory.{
  MemoryPool, Memory, pool_init, fill_table, add_pool, add_pools, first_loop, second_loop,
  third_loop, init, allocate, find_pool, max_alloc_size,
}
use multi_thread_test.Memory

-- The index of the first pool whose blocks are large enough.
abbrev pub first_fit : List MemoryPool → ℕ → Option ℕ
first_fit [] n = none
first_fit (p ∷ ps) n =
    if leb n p.alloc_size
    then some 0
    else elim (first_fit ps n) [ none ↦ none | some i ↦ some (suc i) ]

abbrev Agrees : Memory → Type 0
Agrees m = (n : ℕ) → get_elem? m.pool_table n ≡ first_fit m.pools n

-- An entry that a table has, else one that is behind it.
get-append :
    (xs ys : List ℕ) (n : ℕ)
    → get_elem? (xs ++ ys) n
      ≡ (if ltb n (length xs) then get_elem? xs n else get_elem? ys (n - length xs))
get-append [] ys n = ground arith
get-append (x ∷ xs) ys zero = ground arith
get-append (x ∷ xs) ys (suc n) = ground (arith, get-append xs ys n)

get-behind : (xs : List ℕ) (n : ℕ) → length xs ≤ n → get_elem? xs n ≡ none
get-behind [] n h = refl
get-behind (x ∷ xs) zero h = absurd (omega (arith, h))
get-behind (x ∷ xs) (suc n) h = get-behind xs n (omega (arith, h))

get-before : (xs : List ℕ) (n : ℕ) → get_elem? xs n ≡ none → length xs ≤ n
get-before [] n e = omega arith
get-before (x ∷ xs) zero e = absurd (cc e)
get-before (x ∷ xs) (suc n) e = omega (arith, get-before xs n e)

get-fill_table :
    (fuel pool size : ℕ) (table : List ℕ) (n : ℕ)
    → size + 1 ≤ length table + fuel
    → get_elem? (fill_table fuel pool size table) n
      ≡ (if ltb n (length table) then get_elem? table n else if leb n size then some pool else none)
unfolding fill_table
get-fill_table zero pool size table n h = ground (arith, h, get-behind table n)
get-fill_table (suc fuel) pool size table n h = elim (Bool-cases (leb (length table) size)) [
  | inl e ↦ rw e (
      get-fill_table fuel pool size (table ++ (pool ∷ [])) n
        (omega (arith, h, length-append table (pool ∷ [])))
      ∙ ground (
        arith,
        e,
        get-append table (pool ∷ []) n,
        length-append table (pool ∷ []),
        get-behind (pool ∷ []) (n - length table),
        one_entry (n - length table),
      ))
  | inr e ↦ rw e (ground (arith, e, get-behind table n))
]
  where
    one_entry : (k : ℕ) → k ≡ 0 → get_elem? (pool ∷ []) k ≡ some pool
    one_entry zero e = refl
    one_entry (suc k) e = absurd (omega (arith, e))

first_fit-append :
    (ps : List MemoryPool) (p : MemoryPool) (n : ℕ)
    → first_fit (ps ++ (p ∷ [])) n ≡ elim (first_fit ps n) [
      | some i ↦ some i
      | none ↦ if leb n p.alloc_size then some (length ps) else none
    ]
first_fit-append [] p n = ground arith
first_fit-append (q ∷ ps) p n = ground (arith, first_fit-append ps p n)

add_pool-Agrees : (size : ℕ) (m : Memory) → Agrees m → Agrees (add_pool size m)
unfolding add_pool
add_pool-Agrees size m v n =
    get-fill_table (suc size) (length m.pools) size m.pool_table n (omega arith)
    ∙ ground (
      arith,
      v n,
      first_fit-append m.pools (pool_init size) n,
      get-behind m.pool_table n,
      get-before m.pool_table n,
    )

add_pools-Agrees :
    (fuel size last step : ℕ) (m : Memory) → Agrees m → Agrees (add_pools fuel size last step m).1
unfolding add_pools
add_pools-Agrees zero size last step m v = v
add_pools-Agrees (suc fuel) size last step m v = elim (Bool-cases (leb size last)) [
  | inl e ↦
      rw e
        (add_pools-Agrees fuel (size + step) last step (add_pool size m) (add_pool-Agrees size m v))
  | inr e ↦ rw e v
]

init-Agrees : Agrees init
unfolding first_loop second_loop third_loop
init-Agrees = add_pools-Agrees 64 second_loop.0 4096 256 second_loop.1 (
    add_pools-Agrees 64 first_loop.0 2048 128 first_loop.1
      (add_pools-Agrees 64 32 1024 32 Memory.no_pools (λ n. refl)))

-- The sizes go up from `prev` by at most `gap` each.
abbrev climbs : (gap prev : ℕ) → List MemoryPool → Bool
climbs gap prev [] = true
climbs gap prev (p ∷ ps) =
    ltb prev p.alloc_size && leb p.alloc_size (prev + gap) && climbs gap p.alloc_size ps

abbrev largest : ℕ → List MemoryPool → ℕ
largest prev [] = prev
largest prev (p ∷ ps) = largest p.alloc_size ps

-- The pool `p` at `i` is the smallest for n bytes, and wastes at most `gap`.
pub record Fits (ps : List MemoryPool) (n gap i : ℕ) (p : MemoryPool) : Type 0 where
  pub found : get_elem? ps i ≡ some p
  pub enough : n ≤ p.alloc_size
  pub waste : p.alloc_size < n + gap
  pub least :
      (j : ℕ) (q : MemoryPool)
      → get_elem? ps j ≡ some q
      → n ≤ q.alloc_size
      → p.alloc_size ≤ q.alloc_size

climbs-next :
    (gap prev : ℕ) (p : MemoryPool) (ps : List MemoryPool)
    → climbs gap prev (p ∷ ps) ≡ true
    → (prev < p.alloc_size) × (p.alloc_size ≤ prev + gap) × (climbs gap p.alloc_size ps ≡ true)
climbs-next gap prev p ps c = ground (arith, c)

climbs-above :
    (gap prev : ℕ) (ps : List MemoryPool) (j : ℕ) (q : MemoryPool)
    → climbs gap prev ps ≡ true
    → get_elem? ps j ≡ some q
    → prev < q.alloc_size
climbs-above gap prev [] j q c e = absurd (cc e)
climbs-above gap prev (p ∷ ps) zero q c e = ground (arith, climbs-next gap prev p ps c, e)
climbs-above gap prev (p ∷ ps) (suc j) q c e =
    let (above, near, rest) = climbs-next gap prev p ps c in
    omega (arith, above, climbs-above gap p.alloc_size ps j q rest e)

climbs-Fits :
    (gap prev n : ℕ) (ps : List MemoryPool)
    → climbs gap prev ps ≡ true
    → prev < n
    → n ≤ largest prev ps
    → (i : ℕ) × (p : MemoryPool) × (first_fit ps n ≡ some i) × Fits ps n gap i p
climbs-Fits gap prev n [] c h k = absurd (omega (arith, h, k))
climbs-Fits gap prev n (p ∷ ps) c h k =
    let (above, near, rest) = climbs-next gap prev p ps c in
    elim (Bool-cases (leb n p.alloc_size)) [
      | inl e ↦ rw e (
        0,
        p,
        refl,
        record {
          found = refl;
          enough = ground (arith, e);
          waste = omega (arith, h, near);
          least = λ j q f m. first_least j q rest f;
        },
      )
      | inr e ↦
          let (i, q, fit, v) = climbs-Fits gap p.alloc_size n ps rest (ground (arith, e)) k in
          rw e (
            suc i,
            q,
            ground (arith, fit),
            record {
              found = v.found;
              enough = v.enough;
              waste = v.waste;
              least = λ j r f m. rest_least v e j r f m;
            },
          )
    ]
  where
    first_least :
        (j : ℕ) (q : MemoryPool)
        → climbs gap p.alloc_size ps ≡ true
        → get_elem? (p ∷ ps) j ≡ some q
        → p.alloc_size ≤ q.alloc_size
    first_least zero q c e = ground (arith, e)
    first_least (suc j) q c e = omega (arith, climbs-above gap p.alloc_size ps j q c e)

    rest_least :
        {i : ℕ} {q : MemoryPool}
        → Fits ps n gap i q
        → leb n p.alloc_size ≡ false
        → (j : ℕ) (r : MemoryPool) → get_elem? (p ∷ ps) j ≡ some r
        → n ≤ r.alloc_size
        → q.alloc_size ≤ r.alloc_size
    rest_least v e zero r f m = absurd (ground (arith, e, f, m))
    rest_least v e (suc j) r f m = v.least j r f m

first_fit-none :
    (gap prev n : ℕ) (ps : List MemoryPool)
    → climbs gap prev ps ≡ true
    → largest prev ps < n
    → (first_fit ps n ≡ none) × (prev < n)
first_fit-none gap prev n [] c h = (refl, h)
first_fit-none gap prev n (p ∷ ps) c h =
    let (above, near, rest) = climbs-next gap prev p ps c in
    let (none_behind, small) = first_fit-none gap p.alloc_size n ps rest h in
    (ground (arith, none_behind, small), omega (arith, above, small))

init-climbs : climbs 256 0 init.pools ≡ true
unfolding first_loop second_loop third_loop add_pools add_pool
init-climbs = refl

init-largest : largest 0 init.pools ≡ 3872
unfolding first_loop second_loop third_loop add_pools add_pool
init-largest = refl

pub find_pool-some :
    (m : Memory) (n i : ℕ) (p : MemoryPool)
    → get_elem? m.pool_table n ≡ some i
    → get_elem? m.pools i ≡ some p
    → find_pool m n ≡ ok (i, p)
unfolding find_pool
find_pool-some m n i p e f = rw (find_pool, e, f) refl

allocate-no_entry :
    (header_size : ℕ) (m : Memory) (size fresh : ℕ)
    → get_elem? m.pool_table (size + header_size) ≡ none
    → size + header_size ≤ max_alloc_size
    → allocate header_size m size fresh ≡ fail undefined
unfolding allocate find_pool
allocate-no_entry header_size m size fresh e k =
    let within : ltb max_alloc_size (size + header_size) ≡ false = ground (arith, k) in
    rw within (rw (find_pool, e) refl)

-- After the constructor, the table has for each block of 1 to 3872 bytes a pool, the smallest whose
-- blocks are large enough, and it wastes less than 256 bytes.
pub find_pool-Fits :
    (n : ℕ)
    → 0 < n
    → n ≤ 3872
    → (i : ℕ) × (p : MemoryPool) × (find_pool init n ≡ ok (i, p)) × Fits init.pools n 256 i p
find_pool-Fits n h k =
    let (i, p, fit, v) =
      climbs-Fits 256 0 n init.pools init-climbs h (omega (arith, k, init-largest)) in
    (i, p, find_pool-some init n i p (init-Agrees n ∙ fit) v.found, v)

-- After the constructor, a block of 3873 to 4096 bytes, header included, has no pool: Allocate reads
-- an entry of the table that was never assigned.
pub allocate_no_pool :
    (header_size size fresh : ℕ)
    → 3872 < size + header_size
    → size + header_size ≤ max_alloc_size
    → allocate header_size init size fresh ≡ fail undefined
allocate_no_pool header_size size fresh h k =
    allocate-no_entry header_size init size fresh (init-Agrees (size + header_size) ∙ no_pool) k
  where
    no_pool : first_fit init.pools (size + header_size) ≡ none
    no_pool =
        (first_fit-none 256 0 (size + header_size) init.pools init-climbs
          (omega (arith, h, init-largest))).0
