-- ===== src/JobQueue.antt =====
-- JobTimer_소스코드 (1)/ServerCore/JobQueue.h and JobQueue.cpp: one queue of jobs that many threads
-- push to and that one thread at a time executes. Each access to what the threads share is a step: a
-- read-modify-write of the count, a call of the locked job list or of the global queue, the run of
-- one job. A job that pushes to the queue while it runs is a caller of its own, with `busy` set.
-- Counts are unbounded numbers in place of an int32.
pub mod Invariant
pub mod Guarantees
pub mod Tests
use multi_thread_test.Common.{
  length, ℕ, ◌+◌, ◌-◌, ◌<◌, ◌≡◌, ◌≢◌, ◌⊎◌, Bool, true, false, List, [], ◌∷◌, ◌++◌,
}

-- `_jobs`, `_jobCount`, and how often the queue stands in GGlobalQueue; `pushed` and `executed` are
-- the jobs so far, in the order of their calls of `_jobs.Push` and of Job::Execute.
pub record JobQueue : Type 0 where
  pub jobs : List ℕ
  pub job_count : ℕ
  pub global : ℕ
  pub pushed : List ℕ
  pub executed : List ℕ

-- Where a thread stands, with the locals that are live there. `prev` is the count that fetch_add
-- returned, `busy` is LCurrentJobQueue != nullptr.
pub data Pc : Type 0 where
  idle : Pc
  counted : (prev : ℕ) (busy push_only : Bool) (job : ℕ) → Pc
  queued : (prev : ℕ) (busy push_only : Bool) → Pc
  popping : Pc  -- head of the loop in Execute
  running : (todo : List ℕ) (count : ℕ) → Pc  -- of `count` jobs, these are left
  checking : Pc  -- after fetch_sub, before the time is read

-- One step of one thread.
pub data Move (q : JobQueue) : Pc → JobQueue → Pc → Type 0 where
  -- Push
  count_job :
      (busy push_only : Bool) (job : ℕ)
      → Move q idle
          (record q { job_count = q.job_count + 1 })
          (counted q.job_count busy push_only job)
  queue_job :
      {prev job : ℕ} {busy push_only : Bool}
      → Move q
          (counted prev busy push_only job)
          (record q { jobs = q.jobs ++ (job ∷ []); pushed = q.pushed ++ (job ∷ []) })
          (queued prev busy push_only)
  not_first :
      {prev : ℕ} {busy push_only : Bool} → 0 < prev → Move q (queued prev busy push_only) q idle
  execute_now :
      {prev : ℕ} {busy push_only : Bool}
      → prev ≡ 0
      → (busy ≡ false) × (push_only ≡ false)
      → Move q (queued prev busy push_only) q popping
  hand_over :
      {prev : ℕ} {busy push_only : Bool}
      → prev ≡ 0
      → (busy ≡ true) ⊎ (push_only ≡ true)
      → Move q (queued prev busy push_only) (record q { global = q.global + 1 }) idle
  -- DoGlobalQueueWork
  take_over : 0 < q.global → Move q idle (record q { global = q.global - 1 }) popping
  -- Execute
  pop_all : Move q popping (record q { jobs = [] }) (running q.jobs (length q.jobs))
  run_job :
      {job : ℕ} {todo : List ℕ} {count : ℕ}
      → Move q
          (running (job ∷ todo) count)
          (record q { executed = q.executed ++ (job ∷ []) })
          (running todo count)
  all_done :
      {count : ℕ}
      → q.job_count ≡ count
      → Move q (running [] count) (record q { job_count = q.job_count - count }) idle
  some_left :
      {count : ℕ}
      → q.job_count ≢ count
      → Move q (running [] count) (record q { job_count = q.job_count - count }) checking
  time_left : Move q checking q popping
  time_over : Move q checking (record q { global = q.global + 1 }) idle

pub record System : Type 0 where
  pub queue : JobQueue
  pub threads : List Pc

-- The scheduler lets any thread make its step; threads come into being idle.
pub data Step (x : System) : System → Type 0 where
  launch : Step x (record x { threads = idle ∷ x.threads })
  move :
      (before behind : List Pc) {p p' : Pc} {q : JobQueue}
      → x.threads ≡ before ++ (p ∷ behind)
      → Move x.queue p q p'
      → Step x (record { queue = q; threads = before ++ (p' ∷ behind) })

pub data Reach (from : System) : System → Type 0 where
  here : Reach from from
  later : {x y : System} → Reach from x → Step x y → Reach from y

abbrev pub empty : System
empty = record {
  queue = record { jobs = []; job_count = 0; global = 0; pushed = []; executed = [] };
  threads = [];
}

-- ClearJobs: the list is emptied, the count is not. The log of the pushes forgets the dropped jobs,
-- where `kept` are the others.
abbrev pub clear_jobs : (kept : List ℕ) → JobQueue → JobQueue
clear_jobs kept q = record q { jobs = []; pushed = kept }
