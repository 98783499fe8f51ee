-- ===== src/JobQueue/Tests.antt =====
-- The theorems on the queue, applied to two threads of which the second pushes while the first is
-- about to execute.
use multi_thread_test.Common.{total, ℕ, ◌+◌, ◌≤◌, ◌<◌, ◌≡◌, refl, false, List, [], ◌∷◌, ◌++◌, arith}
use multi_thread_test.JobQueue.{
  idle, queued, popping, running, count_job, queue_job, not_first, execute_now, pop_all, run_job,
  System, launch, move, Reach, here, later, empty,
}
use multi_thread_test.JobQueue.Invariant.{responsible}
use multi_thread_test.JobQueue.Guarantees.{single_executor, execution_order, no_job_forgotten}

abbrev jobs : List ℕ
jobs = 7 ∷ 8 ∷ []

-- Both have pushed: the first is at the head of Execute, the second has left.
abbrev pushed_twice : System
pushed_twice = record {
  queue = record { jobs = jobs; job_count = 2; global = 0; pushed = jobs; executed = [] };
  threads = popping ∷ idle ∷ [];
}

pushed_twice-Reach : Reach empty pushed_twice
pushed_twice-Reach =
    later
      (later
        (later
          (later
            (later
              (later (later (later here launch) launch)
                (move [] (idle ∷ []) refl (count_job false false 7)))
              (move [] (idle ∷ []) refl queue_job))
            (move (queued 0 false false ∷ []) [] refl (count_job false false 8)))
          (move (queued 0 false false ∷ []) [] refl queue_job))
        (move [] (queued 1 false false ∷ []) refl (execute_now refl (refl, refl))))
      (move (popping ∷ []) [] refl (not_first (omega arith)))

-- The first has taken both jobs and run one.
abbrev half_run : System
half_run = record {
  queue = record { jobs = []; job_count = 2; global = 0; pushed = jobs; executed = 7 ∷ [] };
  threads = running (8 ∷ []) 2 ∷ idle ∷ [];
}

half_run-Reach : Reach empty half_run
half_run-Reach =
    later (later pushed_twice-Reach (move [] (idle ∷ []) refl pop_all))
      (move [] (idle ∷ []) refl run_job)

single_executor_example : 1 + 0 ≤ 1
single_executor_example = single_executor half_run-Reach

execution_order_example : jobs ≡ (7 ∷ []) ++ ((8 ∷ []) ++ [])
execution_order_example = execution_order half_run-Reach

no_job_forgotten_example :
    (0 < half_run.queue.job_count → total responsible half_run.threads + 0 ≡ 1)
    × (total responsible half_run.threads + 0 ≡ 0
        → (half_run.queue.job_count ≡ 0) × (jobs ≡ 7 ∷ []))
no_job_forgotten_example = no_job_forgotten half_run-Reach
