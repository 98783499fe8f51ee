-- ===== src/SendBuffer/Tests.antt =====
-- The theorems on send buffers, applied to a thread with a half used chunk.
use multi_thread_test.Common.{ok, ℕ, zero, suc, ◌≤◌, ◌≡◌, refl, some, List, [], ◌∷◌, arith}
use multi_thread_test.SendBuffer.{SendBuffer, Manager, pop_back, chunk_size}
use multi_thread_test.SendBuffer.Packing.{fills, Packed, closed_at, fills-Packed, IsValid, MayOpen}

-- The second Open does not fit and gives no buffer.
fills-Packed_example :
    (bs : List SendBuffer) × (used' : ℕ) × (fills 7
        (closed_at 100)
        ((4000, 1000) ∷ (5500, 1) ∷ (4900, 4900) ∷ [])
      ≡ ok (bs, closed_at used'))
    × Packed 7 100 bs used'
    × (used' ≤ chunk_size)
fills-Packed_example =
    fills-Packed 7 100 ((4000, 1000) ∷ (5500, 1) ∷ (4900, 4900) ∷ []) (omega arith)
      (omega arith, omega arith, (omega arith, omega arith, (omega arith, omega arith, tt)))

-- The chunk has too little room, and there is another in reserve.
abbrev half_used : Manager
half_used = record {
  chunks = closed_at 5000 ∷ closed_at 3000 ∷ [];
  current = some 0;
  reserve = 1 ∷ [];
}

half_used-IsValid : IsValid half_used
unfolding pop_back
half_used-IsValid = record {
  reserved = λ i rest e. ground (arith, e);
  owned = λ i e. ground (arith, e);
}

half_used-MayOpen : MayOpen half_used
half_used-MayOpen zero e = (5000, refl, omega arith)
half_used-MayOpen (suc i) e = absurd (cc e)
