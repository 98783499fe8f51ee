-- ===== src/Memory/Stomp.antt =====
-- The allocator that puts each block at the end of its pages.
use multi_thread_test.Common.{ℕ, ◌+◌, ◌*◌, ◌%◌, ◌≤◌, ◌<◌, ◌≡◌, ◌↔◌, arith}
use multi_thread_test.Memory.{page_size, page_count, stomp_alloc, stomp_release}

-- Where VirtualAlloc answers the start of a page, a block of at least one byte starts in the first
-- page and ends exactly at the end of the last, so that the first byte behind it faults; Release
-- hands VirtualFree the address that VirtualAlloc answered.
pub stomp_round_trip :
    (base size : ℕ)
    → base % page_size ≡ 0
    → 0 < size
    → (stomp_release (stomp_alloc base size) ≡ base)
      × (base ≤ stomp_alloc base size)
      × (stomp_alloc base size < base + page_size)
      × (stomp_alloc base size + size ≡ base + page_count size * page_size)
unfolding stomp_release stomp_alloc page_count
stomp_round_trip base size h k =
    (omega (arith, h, k), omega (arith, h, k), omega (arith, h, k), omega (arith, h, k))

-- Where VirtualAlloc answers the start of a page, the block has the alignment of 16 that
-- MemoryHeader declares exactly if its size is a multiple of 16.
pub stomp_alignment :
    (base size : ℕ) → base % page_size ≡ 0 → (stomp_alloc base size % 16 ≡ 0) ↔ (size % 16 ≡ 0)
unfolding stomp_alloc page_count
stomp_alignment base size h = (λ e. omega (arith, h, e), λ e. omega (arith, h, e))
