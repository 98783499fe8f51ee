-- ===== src/JobTimer/Tests.antt =====
-- The theorems on the timer, applied to three jobs of which two are due.
use multi_thread_test.Common.{length, total, ℕ, ◌+◌, ◌≤◌, ◌≡◌, refl, true, [], ◌∷◌}
use multi_thread_test.JobTimer.{
  TimerItem, push_item, reserve, take_due, begin_distribute, distribute_item, init,
}
use multi_thread_test.JobTimer.Order.{
  System, reserved_one, began, distributed, Reach, here, later, start, Due, is_job, items_of,
  jobs_accounted, distribute-Due,
}

abbrev item : ℕ → ℕ → TimerItem
item tick job = record { execute_tick = tick; job_data = job }

abbrev three_reserved : System
three_reserved = record {
  timer = record init { items = item 110 2 ∷ item 130 1 ∷ item 200 3 ∷ [] };
  reserved = 3 ∷ 2 ∷ 1 ∷ [];
  working = [];
}

three_reserved-Reach : Reach start three_reserved
unfolding reserve push_item
three_reserved-Reach =
    later (later (later here (reserved_one 100 30 1)) (reserved_one 105 5 2))
      (reserved_one 110 90 3)

-- One of the two due jobs has been pushed.
abbrev half_done : System
half_done = record {
  timer = record { items = item 200 3 ∷ []; distributing = true; pushed = 2 ∷ []; freed = 2 ∷ [] };
  reserved = 3 ∷ 2 ∷ 1 ∷ [];
  working = (item 130 1 ∷ []) ∷ [];
}

half_done-Reach : Reach start half_done
unfolding begin_distribute take_due distribute_item
half_done-Reach =
    later (later three_reserved-Reach (began 150 refl))
      (distributed [] [] (item 110 2) (item 130 1 ∷ []) true refl)

jobs_accounted_example :
    (length half_done.working ≤ 1)
    × ((a : ℕ)
        → total (is_job a) (3 ∷ 2 ∷ 1 ∷ [])
          ≡ items_of a (item 200 3 ∷ [])
            + total (items_of a) half_done.working
            + total (is_job a) (2 ∷ []))
jobs_accounted_example = jobs_accounted half_done-Reach

distribute-Due_example :
    Due 150 three_reserved.timer.items
      (item 110 2 ∷ item 130 1 ∷ [])
      (begin_distribute 150 three_reserved.timer).1.items
unfolding begin_distribute take_due
distribute-Due_example = distribute-Due 150 three_reserved-Reach refl
