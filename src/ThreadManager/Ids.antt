-- ===== src/ThreadManager/Ids.antt =====
-- The ids of the threads, as the lock needs them.
use multi_thread_test.Common.{
  ltb, leb, if◌then◌else◌, total, ℕ, zero, suc, ◌+◌, ◌<◌, ◌≡◌, refl, ◌&&◌, arith,
}
use multi_thread_test.ThreadManager.{init, init_tls, launch, launch_all}
use multi_thread_test.Lock.{start}
use multi_thread_test.Lock.Invariant.{AreIds, named}

launch_all-ids :
    (n : ℕ)
    → n < 65535
    → ((launch_all n).next_id ≡ n + 2)
      × ((i : ℕ)
          → total (named i) (start (launch_all n).ids).threads
            ≡ (if ltb 0 i && leb i (n + 1) then 1 else 0))
unfolding launch_all launch init_tls init
launch_all-ids zero h = (refl, λ i. ground arith)
launch_all-ids (suc n) h =
    let (next, ids) = launch_all-ids n (omega (arith, h)) in
    (omega (arith, next, h), λ i. ground (arith, next, ids i))

-- The main thread and up to 65534 threads of Launch have ids as the lock needs them: distinct, not 0,
-- and below 65536.
pub launch_all-AreIds : (n : ℕ) → n < 65535 → AreIds (start (launch_all n).ids).threads
launch_all-AreIds n h =
    let (next, ids) = launch_all-ids n h in
    record {
      distinct = λ i. ground (arith, ids i);
      not_zero = ground (arith, ids 0);
      in_range = λ i k. ground (arith, ids i, k, h);
    }
