-- ===== src/JobQueue/Guarantees.antt =====
-- What the queue guarantees, however its threads are interleaved.
use multi_thread_test.Common.{
  length, total, ℕ, ◌+◌, ◌≤◌, ◌<◌, ◌≡◌, refl, sym, ap, List, [], ◌∷◌, ◌++◌, append-nil, arith,
}
use multi_thread_test.JobQueue.{System, Reach, empty, clear_jobs}
use multi_thread_test.JobQueue.Invariant.{
  executing, responsible, in_flight, executing-le-responsible, IsSound, Reach-IsSound,
  in_flight-nil, empty-IsSound,
}

length-zero : (l : List ℕ) → length l ≡ 0 → l ≡ []
length-zero [] h = refl
length-zero (_ ∷ l) h = absurd (omega (arith, h))

-- At most one thread is in Execute of the queue at any time, and while one is, the queue does not
-- stand in the global queue.
pub single_executor : {x : System} → Reach empty x → total executing x.threads + x.queue.global ≤ 1
single_executor {x} r =
    ground (arith, (Reach-IsSound empty-IsSound r).one, executing-le-responsible x.threads)

-- Every job that was pushed has been executed, or is about to be executed by the one thread that
-- took it, or is still in the list: none is lost or executed twice, and the three stand in the order
-- of the pushes.
pub execution_order :
    {x : System}
    → Reach empty x
    → x.queue.pushed ≡ x.queue.executed ++ (in_flight x.threads ++ x.queue.jobs)
execution_order r = (Reach-IsSound empty-IsSound r).order

-- While jobs are counted, exactly one thread is responsible for the queue (it executes it, or was
-- the first to push) or the queue stands in the global queue exactly once. And while there is
-- neither, the count is 0 and all jobs have been executed.
pub no_job_forgotten :
    {x : System}
    → Reach empty x
    → (0 < x.queue.job_count → total responsible x.threads + x.queue.global ≡ 1)
      × (total responsible x.threads + x.queue.global ≡ 0
          → (x.queue.job_count ≡ 0) × (x.queue.pushed ≡ x.queue.executed))
no_job_forgotten {x} r = (λ h. ground (arith, v.one), λ h. (idle_count h, all_run h))
  where
    v : IsSound 0 x.queue x.threads
    v = Reach-IsSound empty-IsSound r

    idle_count : total responsible x.threads + x.queue.global ≡ 0 → x.queue.job_count ≡ 0
    idle_count h = ground (arith, h, v.one)

    all_run : total responsible x.threads + x.queue.global ≡ 0 → x.queue.pushed ≡ x.queue.executed
    all_run h = ground (
      arith,
      v.order,
      in_flight-nil x.threads (omega (arith, h)),
      length-zero x.queue.jobs (omega (arith, v.count, idle_count h)),
      append-nil x.queue.executed,
    )

-- ClearJobs empties the list and leaves the count. From a reachable state on, after it has dropped
-- the jobs in the list, the count is never again below their number.
pub clear_never_idle :
    {x y : System}
    → Reach empty x
    → Reach (record x { queue = clear_jobs (x.queue.executed ++ in_flight x.threads) x.queue }) y
    → length x.queue.jobs ≤ y.queue.job_count
clear_never_idle {x} {y} r further = omega (arith, w.count)
  where
    v : IsSound 0 x.queue x.threads
    v = Reach-IsSound empty-IsSound r

    w : IsSound (length x.queue.jobs) y.queue y.threads
    w =
        Reach-IsSound
          (record {
            count = omega (arith, v.count);
            one = v.one;
            order = ap (◌++◌ x.queue.executed) (sym (append-nil (in_flight x.threads)));
          })
          further
