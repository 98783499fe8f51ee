-- ===== src/JobTimer.antt =====
-- JobTimer_소스코드 (1)/ServerCore/JobTimer.h and JobTimer.cpp: the jobs that are to be pushed at a
-- tick. A JobData is a number; whose queue it is for, and whether that is still alive, is an
-- argument. The priority queue has the least tick on top; of equal ticks it may take any, here the
-- one reserved first. The exchange of _distributing and the loop under the lock are one step. Ticks
-- are uint64.
pub mod Order
pub mod Tests
use multi_thread_test.Common.{
  ltb, if◌then◌else◌, ℕ, ◌+◌, ◌%◌, ◌^◌, Bool, true, false, Option, none, some, List, [], ◌∷◌, ◌++◌,
  map,
}

pub record TimerItem : Type 0 where
  pub execute_tick : ℕ
  pub job_data : ℕ

-- `_items` from the top down, `_distributing`; `pushed` are the calls of JobQueue::Push so far, in
-- order, and `freed` the job data given back to their pool.
pub record JobTimer : Type 0 where
  pub items : List TimerItem
  pub distributing : Bool
  pub pushed : List ℕ
  pub freed : List ℕ

-- `_items.push`
pub push_item : TimerItem → List TimerItem → List TimerItem
push_item i [] = i ∷ []
push_item i (j ∷ js) =
    let rest = push_item i js in if ltb i.execute_tick j.execute_tick then i ∷ j ∷ js else j ∷ rest

-- Reserve at the tick `now`.
unfoldable pub reserve : (now tick_after job_data : ℕ) → JobTimer → JobTimer
reserve now tick_after job_data t = record t {
  items =
      push_item (record { execute_tick = (now + tick_after) % 2 ^ 64; job_data = job_data })
        t.items;
}

-- The loop under the lock: what is due, and what is left.
pub take_due : (now : ℕ) → List TimerItem → List TimerItem × List TimerItem
take_due now [] = ([], [])
take_due now (i ∷ is) =
    let rest = take_due now is in
    if ltb now i.execute_tick then ([], i ∷ is) else (i ∷ rest.0, rest.1)

-- The first half of Distribute, until the lock is released; `none` is the early return.
unfoldable pub begin_distribute : (now : ℕ) → JobTimer → Option (List TimerItem) × JobTimer
begin_distribute now t =
    if t.distributing
    then (none, t)
    else (let (due, left) = take_due now t.items in
        (some due, record t { items = left; distributing = true }))

-- One round of the loop over the due items, where `alive` tells whether `owner.lock()` is a queue.
unfoldable pub distribute_item : (alive : Bool) → TimerItem → JobTimer → JobTimer
distribute_item alive i t = record t {
  pushed = if alive then t.pushed ++ (i.job_data ∷ []) else t.pushed;
  freed = t.freed ++ (i.job_data ∷ []);
}

unfoldable pub end_distribute : JobTimer → JobTimer
end_distribute t = record t { distributing = false }

-- Clear
unfoldable pub clear : JobTimer → JobTimer
clear t = record t { items = []; freed = t.freed ++ map (λ (i : TimerItem). i.job_data) t.items }

abbrev pub init : JobTimer
init = record { items = []; distributing = false; pushed = []; freed = [] }
