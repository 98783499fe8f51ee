-- ===== src/ThreadPool/Tests.antt =====
-- ThreadPool/ThreadPool/ThreadPool/ThreadPool.cpp and ThreadPoolTest/ThreadPool.cpp: runs of a pool of
-- one worker.
use multi_thread_test.Common.{
  total, ℕ, ◌≤◌, ◌<◌, ◌≡◌, refl, ◌≢◌, inl, inr, Bool, true, false, List, [], ◌∷◌, ◌++◌, arith,
}
use multi_thread_test.ThreadPool.{
  Place, entering, asleep, gone, Stage, alive, joining, ended, Pool, Version, pool_version,
  test_version, new_pool, lock, found, not_found, wait, pop, leave, job_done, wake_all, worker,
  call, push, stop, notify_all, joined, Runs, started, then_move,
}
use multi_thread_test.ThreadPool.Invariant.{holds, looks}
use multi_thread_test.ThreadPool.Guarantees.{
  Runs-served, stage-ne-ended, Later, here, later, Extends, ended-Extends,
}

abbrev one_job :
    (stop_all : Bool) → (stage : Stage) → (jobs popped : List ℕ) → (locked : Bool) → Place → Pool
one_job stop_all stage jobs popped locked w = record {
  shared = record {
    jobs = jobs;
    stop_all = stop_all;
    locked = locked;
    callers = 0;
    notifiers = 1;
    stage = stage;
    pushed = 7 ∷ [];
    popped = popped;
  };
  workers = w ∷ [];
}

-- A job is pushed before the worker has looked at the queue.
pushed-Runs : (v : Version) → Runs v 1 (one_job false alive (7 ∷ []) [] false entering)
unfolding new_pool
pushed-Runs v = then_move (then_move started (call _ (inl refl))) (push _ 7 0 refl refl)

Runs-served_example :
    (◌≡◌ {A = List ℕ} (7 ∷ []) ([] ++ (7 ∷ [])))
    × (total holds (entering ∷ []) ≤ 1)
    × (◌≢◌ {A = List ℕ} (7 ∷ []) []
        → ◌≡◌ {A = ℕ} 1 0
        → false ≡ false
        → (0 < total looks (entering ∷ [])))
Runs-served_example = Runs-served (omega arith) (pushed-Runs pool_version)

stage-ne-ended_example : alive ≢ ended
stage-ne-ended_example = stage-ne-ended (omega arith) refl (pushed-Runs pool_version)

-- The destructor is called with the job in the queue: the worker takes it, and returns.
to_the_end :
    Later test_version
      (one_job false alive (7 ∷ []) [] false entering)
      (one_job true ended [] (7 ∷ []) false gone)
unfolding wake_all
to_the_end =
    later
      (later
        (later
          (later
            (later
              (later
                (later
                  (later (later (later here (stop _ refl)) (notify_all _ refl))
                    (worker _ _ [] [] _ _ refl (lock _ refl)))
                  (worker _ _ [] [] _ _ refl (found _ (inr refl))))
                (worker _ _ [] [] _ _ refl (pop _ 7 [] refl)))
              (worker _ _ [] [] _ _ refl (job_done _ 7)))
            (worker _ _ [] [] _ _ refl (lock _ refl)))
          (worker _ _ [] [] _ _ refl (found _ (inr refl))))
        (worker _ _ [] [] _ _ refl (leave _ refl refl refl)))
      (joined _ refl (refl, tt))

ended-Extends_example : Extends (7 ∷ []) (7 ∷ [])
ended-Extends_example = ended-Extends (omega arith) (pushed-Runs test_version) refl to_the_end refl

-- The flag is set, and the notification sent, while the worker is between its test and its wait: it
-- sleeps, and the destructor waits for it.
abbrev asleep_for_ever : Pool
asleep_for_ever = record {
  shared = record {
    jobs = [];
    stop_all = true;
    locked = false;
    callers = 0;
    notifiers = 0;
    stage = joining;
    pushed = [];
    popped = [];
  };
  workers = asleep ∷ [];
}

lost_stop-Runs : Runs test_version 1 asleep_for_ever
unfolding new_pool wake_all
lost_stop-Runs =
    then_move
      (then_move
        (then_move
          (then_move (then_move started (worker _ _ [] [] _ _ refl (lock _ refl)))
            (worker _ _ [] [] _ _ refl (not_found _ refl refl)))
          (stop _ refl))
        (notify_all _ refl))
      (worker _ _ [] [] _ _ refl (wait _))
