-- ===== src/LockQueue.antt =====
-- JobTimer_소스코드 (1)/ServerCore/LockQueue.h, and GlobalQueue.h, GlobalQueue.cpp, which pass their
-- calls on to it: a queue of pointers. Each method runs under the queue's lock, which PopAll takes
-- again in Pop, as one step. `none` is a null pointer.
pub mod Order
use multi_thread_test.Common.{length, ℕ, zero, suc, ◌+◌, Option, none, some, List, [], ◌∷◌, ◌++◌}

pub record LockQueue : Type 0 where
  pub items : List (Option ℕ)

-- Push
unfoldable pub push : Option ℕ → LockQueue → LockQueue
push item q = record { items = q.items ++ (item ∷ []) }

-- Pop; of an empty queue the answer is `T()`.
unfoldable pub pop : LockQueue → Option ℕ × LockQueue
pop q = elim q.items [ [] ↦ (none, q) | item ∷ rest ↦ (item, record { items = rest }) ]

-- The loop of PopAll: `while (T item = Pop())`, on fuel; `none` is a loop that has not ended.
pub pop_all_loop : (fuel : ℕ) → LockQueue → (items : List ℕ) → Option (List ℕ × LockQueue)
unfolding pop
pop_all_loop zero q items = none
pop_all_loop (suc fuel) q items =
    let (item, q') = pop q in
    elim item [ none ↦ some (items, q') | some i ↦ pop_all_loop fuel q' (items ++ (i ∷ [])) ]

-- PopAll, with one round more than there are items.
unfoldable pub pop_all : LockQueue → Option (List ℕ × LockQueue)
pop_all q = pop_all_loop (length q.items + 1) q []

-- Clear
unfoldable pub clear : LockQueue → LockQueue
clear q = record { items = [] }
