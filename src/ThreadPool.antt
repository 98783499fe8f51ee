-- ===== src/ThreadPool.antt =====
-- ThreadPool/ThreadPool/ThreadPool/ThreadPool.cpp and ThreadPool.h, and ThreadPoolTest/ThreadPool.cpp
-- and ThreadPool.h: a pool of threads that take jobs from a queue. A step is what a thread does from
-- one access to the shared state to the next; threads that call EnqueueJob and the one that runs the
-- destructor take steps in between. Waiting threads may wake up without a notification.
pub mod Invariant
pub mod Guarantees
pub mod Tests
use multi_thread_test.Common.{
  replicate, ℕ, suc, ◌+◌, ◌≡◌, ◌≢◌, ◌⊎◌, Bool, true, false, List, [], ◌∷◌, ◌++◌,
}

-- Where a worker is: about to lock m_job_q, with the lock and about to test the condition, with the
-- lock and the condition found false, waiting, with the lock and behind the wait, in a job, or returned.
pub data Place : Type 0 where
  entering testing blocking asleep serving gone : Place
  running : (job : ℕ) → Place

-- Where the destructor is: not called, with the flag set, with the waiting threads notified, or past
-- the last join.
pub data Stage : Type 0 where
  alive stopping joining ended : Stage

-- m_jobs, m_stop_all and m_job_q; the calls of EnqueueJob that have not pushed yet and those that have
-- not notified yet; and the jobs ever pushed and ever popped.
pub record Shared : Type 0 where
  pub jobs : List ℕ
  pub stop_all : Bool
  pub locked : Bool
  pub callers : ℕ
  pub notifiers : ℕ
  pub stage : Stage
  pub pushed : List ℕ
  pub popped : List ℕ

pub record Pool : Type 0 where
  pub shared : Shared
  pub workers : List Place

-- What the two versions do on a stopped pool: a worker without a job returns or goes on, and
-- EnqueueJob throws or goes on.
pub record Version : Type 0 where
  pub leaves : Bool
  pub refuses : Bool

-- ThreadPool/ThreadPool/ThreadPool/ThreadPool.cpp
abbrev pub pool_version : Version
pool_version = record { leaves = false; refuses = false }

-- ThreadPoolTest/ThreadPool.cpp
abbrev pub test_version : Version
test_version = record { leaves = true; refuses = true }

-- The constructor.
unfoldable pub new_pool : (num_threads : ℕ) → Pool
new_pool num_threads = record {
  shared = record {
    jobs = [];
    stop_all = false;
    locked = false;
    callers = 0;
    notifiers = 0;
    stage = alive;
    pushed = [];
    popped = [];
  };
  workers = replicate num_threads entering;
}

-- WorkerThread: what a worker at a place does to the shared state, and where it is then.
pub data WorkerStep (v : Version) : Shared → Place → Shared → Place → Type 0 where
  lock :
      (s : Shared) → s.locked ≡ false → WorkerStep v s entering (record s { locked = true }) testing
  found : (s : Shared) → (s.jobs ≢ []) ⊎ (s.stop_all ≡ true) → WorkerStep v s testing s serving
  not_found : (s : Shared) → s.jobs ≡ [] → s.stop_all ≡ false → WorkerStep v s testing s blocking
  wait : (s : Shared) → WorkerStep v s blocking (record s { locked = false }) asleep
  wake : (s : Shared) → WorkerStep v s asleep s entering
  pop :
      (s : Shared) (job : ℕ) (rest : List ℕ)
      → s.jobs ≡ job ∷ rest
      → WorkerStep v s serving
          (record s { jobs = rest; locked = false; popped = s.popped ++ (job ∷ []) })
          (running job)
  leave :
      (s : Shared)
      → s.jobs ≡ []
      → s.stop_all ≡ true
      → v.leaves ≡ true
      → WorkerStep v s serving (record s { locked = false }) gone
  no_job :
      (s : Shared)
      → s.jobs ≡ []
      → (s.stop_all ≡ false) ⊎ (v.leaves ≡ false)
      → WorkerStep v s serving (record s { locked = false }) entering
  job_done : (s : Shared) (job : ℕ) → WorkerStep v s (running job) s entering

-- notify_all
unfoldable pub wake_all : List Place → List Place
wake_all [] = []
wake_all (asleep ∷ ws) = entering ∷ wake_all ws
wake_all (w ∷ ws) = w ∷ wake_all ws

-- Every worker has returned, so that every join has.
abbrev pub AllGone : List Place → Type 0
AllGone [] = Unit {0}
AllGone (w ∷ ws) = (w ≡ gone) × AllGone ws

abbrev pub HasAsleep : List Place → Type 0
HasAsleep [] = ⊥
HasAsleep (w ∷ ws) = (w ≡ asleep) ⊎ HasAsleep ws

-- A step of any thread.
pub data Move (v : Version) : Pool → Pool → Type 0 where
  worker :
      (p : Pool) (s : Shared) (before after : List Place) (w w' : Place)
      → p.workers ≡ before ++ (w ∷ after)
      → WorkerStep v p.shared w s w'
      → Move v p (record { shared = s; workers = before ++ (w' ∷ after) })
  -- EnqueueJob: the test of m_stop_all, the push, and notify_one.
  call :
      (p : Pool)
      → (p.shared.stop_all ≡ false) ⊎ (v.refuses ≡ false)
      → Move v p (record p { shared = record p.shared { callers = p.shared.callers + 1 } })
  push :
      (p : Pool) (job n : ℕ)
      → p.shared.locked ≡ false
      → p.shared.callers ≡ suc n
      → Move v p (record p {
        shared = record p.shared {
          jobs = p.shared.jobs ++ (job ∷ []);
          callers = n;
          notifiers = p.shared.notifiers + 1;
          pushed = p.shared.pushed ++ (job ∷ []);
        };
      })
  notify_one :
      (p : Pool) (before after : List Place) (n : ℕ)
      → p.shared.notifiers ≡ suc n
      → p.workers ≡ before ++ (asleep ∷ after)
      → Move v p (record {
        shared = record p.shared { notifiers = n };
        workers = before ++ (entering ∷ after);
      })
  notify_none :
      (p : Pool) (n : ℕ)
      → p.shared.notifiers ≡ suc n
      → (HasAsleep p.workers → ⊥)
      → Move v p (record p { shared = record p.shared { notifiers = n } })
  -- The destructor: the flag, notify_all, and the joins.
  stop :
      (p : Pool)
      → p.shared.stage ≡ alive
      → Move v p (record p { shared = record p.shared { stop_all = true; stage = stopping } })
  notify_all :
      (p : Pool)
      → p.shared.stage ≡ stopping
      → Move v p
          (record { shared = record p.shared { stage = joining }; workers = wake_all p.workers })
  joined :
      (p : Pool)
      → p.shared.stage ≡ joining
      → AllGone p.workers
      → Move v p (record p { shared = record p.shared { stage = ended } })

pub data Runs (v : Version) (num_threads : ℕ) : Pool → Type 0 where
  started : Runs v num_threads (new_pool num_threads)
  then_move : {p p' : Pool} → Runs v num_threads p → Move v p p' → Runs v num_threads p'
