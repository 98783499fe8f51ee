-- ===== src/ThreadManager.antt =====
-- JobTimer_소스코드 (1)/ServerCore/ThreadManager.h and ThreadManager.cpp: the ids that threads get, and
-- the loop that executes job queues of others. The start and the end of the operating system's threads
-- are left out.
pub mod Ids
pub mod Tests
use multi_thread_test.Common.{
  ltb, if◌then◌else◌, ℕ, zero, suc, ◌+◌, ◌%◌, ◌^◌, Option, none, some, List, [], ◌∷◌,
}

-- `SThreadId`, a uint32, and the ids given out so far, the last first.
pub record ThreadManager : Type 0 where
  pub next_id : ℕ
  pub ids : List ℕ

-- InitTLS
unfoldable pub init_tls : ThreadManager → ThreadManager
init_tls m = record { next_id = (m.next_id + 1) % 2 ^ 32; ids = m.next_id ∷ m.ids }

-- ThreadManager::ThreadManager, in the main thread.
unfoldable pub init : ThreadManager
unfolding init_tls
init = init_tls (record { next_id = 1; ids = [] })

-- Launch, up to the start of the callback.
unfoldable pub launch : ThreadManager → ThreadManager
launch m = init_tls m

unfoldable pub launch_all : ℕ → ThreadManager
launch_all zero = init
launch_all (suc n) = launch (launch_all n)

-- One round of DoGlobalQueueWork: the tick, and what the global queue answers.
pub record Round : Type 0 where
  pub now : ℕ
  pub popped : Option ℕ

-- DoGlobalQueueWork until the tick `end_tick` (LEndTickCount), with the queues that it executes;
-- `none` is a loop that goes on after the given rounds.
pub do_global_queue_work : (end_tick : ℕ) → List Round → Option (List ℕ)
do_global_queue_work end_tick [] = none
do_global_queue_work end_tick (r ∷ rounds) =
    let later = do_global_queue_work end_tick rounds in
    if ltb end_tick r.now then some [] else elim r.popped [
      | none ↦ some []
      | some queue ↦ elim later [ none ↦ none | some queues ↦ some (queue ∷ queues) ]
    ]
