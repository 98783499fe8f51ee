-- ===== src/JobTimer/Order.antt =====
-- What is distributed at a tick, and what becomes of every job over any interleaving of the calls.
use multi_thread_test.Common.{
  ltb, ◌==◌, if◌then◌else◌, Bool-cases, length, length-append, total, total-append, total-plus, ℕ,
  ◌+◌, ◌%◌, ◌^◌, ◌≤◌, ◌≡◌, refl, ap, inl, inr, Bool, some, List, [], ◌∷◌, ◌++◌, map, arith,
}
use multi_thread_test.JobTimer.{
  TimerItem, JobTimer, push_item, reserve, take_due, begin_distribute, distribute_item,
  end_distribute, clear, init,
}

-- `reserved` are the jobs of all calls of Reserve; `working` has, for each thread that is in the
-- second half of Distribute, the items that it has still to push.
pub record System : Type 0 where
  pub timer : JobTimer
  pub reserved : List ℕ
  pub working : List (List TimerItem)

pub data Step (x : System) : System → Type 0 where
  reserved_one :
      (now tick_after job_data : ℕ)
      → Step x (record x {
        timer = reserve now tick_after job_data x.timer;
        reserved = job_data ∷ x.reserved;
      })
  began :
      (now : ℕ) {due : List TimerItem}
      → (begin_distribute now x.timer).0 ≡ some due
      → Step x (record x { timer = (begin_distribute now x.timer).1; working = due ∷ x.working })
  distributed :
      (before behind : List (List TimerItem)) (i : TimerItem) (is : List TimerItem) (alive : Bool)
      → x.working ≡ before ++ ((i ∷ is) ∷ behind)
      → Step x
          (record x { timer = distribute_item alive i x.timer; working = before ++ (is ∷ behind) })
  ended :
      (before behind : List (List TimerItem))
      → x.working ≡ before ++ ([] ∷ behind)
      → Step x (record x { timer = end_distribute x.timer; working = before ++ behind })
  cleared : Step x (record x { timer = clear x.timer })

pub data Reach (from : System) : System → Type 0 where
  here : Reach from from
  later : {x y : System} → Reach from x → Step x y → Reach from y

abbrev pub start : System
start = record { timer = init; reserved = []; working = [] }

-- No item has a tick below `n`.
abbrev pub Above : ℕ → List TimerItem → Type 0
Above n [] = Unit
Above n (i ∷ is) = (n ≤ i.execute_tick) × Above n is

-- No item has a tick above `n`.
abbrev pub Below : ℕ → List TimerItem → Type 0
Below n [] = Unit
Below n (i ∷ is) = (i.execute_tick ≤ n) × Below n is

abbrev pub Sorted : List TimerItem → Type 0
Sorted [] = Unit
Sorted (i ∷ is) = Above i.execute_tick is × Sorted is

Above-le : (m n : ℕ) (is : List TimerItem) → m ≤ n → Above n is → Above m is
Above-le m n [] h a = tt
Above-le m n (i ∷ is) h (a, above) = (omega (arith, h, a), Above-le m n is h above)

push_item-Above :
    (n : ℕ) (i : TimerItem) (is : List TimerItem)
    → n ≤ i.execute_tick
    → Above n is
    → Above n (push_item i is)
unfolding push_item
push_item-Above n i [] h a = (h, tt)
push_item-Above n i (j ∷ js) h (a, above) = elim (Bool-cases (ltb i.execute_tick j.execute_tick)) [
  | inl e ↦ rw e (h, (a, above))
  | inr e ↦ rw e (a, push_item-Above n i js h above)
]

push_item-Sorted : (i : TimerItem) (is : List TimerItem) → Sorted is → Sorted (push_item i is)
unfolding push_item
push_item-Sorted i [] s = (tt, tt)
push_item-Sorted i (j ∷ js) (a, s) = elim (Bool-cases (ltb i.execute_tick j.execute_tick)) [
  | inl e ↦
      let less : i.execute_tick ≤ j.execute_tick = ground (arith, e) in
      rw e ((less, Above-le i.execute_tick j.execute_tick js less a), (a, s))
  | inr e ↦
      rw e (push_item-Above j.execute_tick i js (ground (arith, e)) a, push_item-Sorted i js s)
]

-- What is due and what is left.
pub record Due (now : ℕ) (items due left : List TimerItem) : Type 0 where
  pub split : due ++ left ≡ items
  pub all_due : Below now due
  pub none_left : Above (now + 1) left
  pub in_order : Sorted due
  pub left_sorted : Sorted left

take_due-Above : (now n : ℕ) (is : List TimerItem) → Above n is → Above n (take_due now is).0
unfolding take_due
take_due-Above now n [] a = tt
take_due-Above now n (i ∷ is) (a, above) = elim (Bool-cases (ltb now i.execute_tick)) [
  | inl e ↦ rw e tt
  | inr e ↦ rw e (a, take_due-Above now n is above)
]

take_due-Due :
    (now : ℕ) (is : List TimerItem) → Sorted is → Due now is (take_due now is).0 (take_due now is).1
unfolding take_due
take_due-Due now [] s = record {
  split = refl;
  all_due = tt;
  none_left = tt;
  in_order = tt;
  left_sorted = tt;
}
take_due-Due now (i ∷ is) (a, s) = elim (Bool-cases (ltb now i.execute_tick)) [
  | inl e ↦
      let late : now + 1 ≤ i.execute_tick = ground (arith, e) in
      rw e (record {
        split = refl;
        all_due = tt;
        none_left = (late, Above-le (now + 1) i.execute_tick is late a);
        in_order = tt;
        left_sorted = (a, s);
      })
  | inr e ↦
      let v = take_due-Due now is s in
      rw e (record {
        split = ap (◌∷◌ i) v.split;
        all_due = (ground (arith, e), v.all_due);
        none_left = v.none_left;
        in_order = (take_due-Above now i.execute_tick is a, v.in_order);
        left_sorted = v.left_sorted;
      })
]

abbrev pub is_job : ℕ → ℕ → ℕ
is_job a b = if b == a then 1 else 0

-- How many of the items are for the job `a`.
abbrev pub items_of : ℕ → List TimerItem → ℕ
items_of a = total (λ (i : TimerItem). is_job a i.job_data)

push_item-items_of :
    (a : ℕ) (i : TimerItem) (is : List TimerItem)
    → items_of a (push_item i is) ≡ is_job a i.job_data + items_of a is
unfolding push_item
push_item-items_of a i [] = omega arith
push_item-items_of a i (j ∷ js) = ground (arith, push_item-items_of a i js)

map-items_of :
    (a : ℕ) (is : List TimerItem)
    → total (is_job a) (map (λ (i : TimerItem). i.job_data) is) ≡ items_of a is
map-items_of a [] = refl
map-items_of a (i ∷ is) = omega (arith, map-items_of a is)

take_due-items_of :
    (a now : ℕ) (is : List TimerItem)
    → items_of a (take_due now is).0 + items_of a (take_due now is).1 ≡ items_of a is
unfolding take_due
take_due-items_of a now [] = omega arith
take_due-items_of a now (i ∷ is) = ground (arith, take_due-items_of a now is)

-- Where the jobs are, and who distributes.
pub record IsSound (x : System) : Type 0 where
  pub sorted : Sorted x.timer.items
  pub one : length x.working ≡ (if x.timer.distributing then 1 else 0)
  pub accounted :
      (a : ℕ)
      → total (is_job a) x.reserved
        ≡ items_of a x.timer.items + total (items_of a) x.working + total (is_job a) x.timer.freed

-- Distribute, where it does not return early.
begin-cases :
    (now : ℕ) (t : JobTimer) (due : List TimerItem)
    → (begin_distribute now t).0 ≡ some due
    → (due ≡ (take_due now t.items).0)
      × ((begin_distribute now t).1.items ≡ (take_due now t.items).1)
unfolding begin_distribute
begin-cases now t due e = ground (arith, e)

Step-IsSound : {x y : System} → Step x y → IsSound x → IsSound y
unfolding reserve begin_distribute distribute_item end_distribute clear
Step-IsSound {x} (reserved_one now tick_after job_data) v =
    let item : TimerItem = record {
      execute_tick = (now + tick_after) % 2 ^ 64;
      job_data = job_data;
    } in
    record {
      sorted = push_item-Sorted item x.timer.items v.sorted;
      one = v.one;
      accounted = λ a. ground (arith, v.accounted a, push_item-items_of a item x.timer.items);
    }
Step-IsSound {x} (began now {due} e) v = record {
  sorted =
      rw ((begin-cases now x.timer due e).1) (take_due-Due now x.timer.items v.sorted).left_sorted;
  one = ground (arith, e, v.one);
  accounted = λ a. ground (arith, e, v.accounted a, take_due-items_of a now x.timer.items);
}
Step-IsSound {x} (distributed before behind i is alive e) v = record {
  sorted = v.sorted;
  one = ground (
    arith,
    ap (length {A = List TimerItem}) e,
    v.one,
    length-append before ((i ∷ is) ∷ behind),
    length-append before (is ∷ behind),
  );
  accounted = λ a. ground (
    arith,
    v.accounted a,
    ap (total (items_of a)) e,
    total-append (items_of a) before (i ∷ is) behind,
    total-append (items_of a) before is behind,
    total-plus (is_job a) x.timer.freed (i.job_data ∷ []),
  );
}
Step-IsSound {x} (ended before behind e) v = record {
  sorted = v.sorted;
  one = ground (
    arith,
    ap (length {A = List TimerItem}) e,
    v.one,
    length-append before ([] ∷ behind),
    length-append before behind,
  );
  accounted = λ a. ground (
    arith,
    v.accounted a,
    ap (total (items_of a)) e,
    total-append (items_of a) before [] behind,
    total-plus (items_of a) before behind,
  );
}
Step-IsSound {x} cleared v = record {
  sorted = tt;
  one = v.one;
  accounted = λ a. ground (
    arith,
    v.accounted a,
    map-items_of a x.timer.items,
    total-plus (is_job a) x.timer.freed (map (λ (i : TimerItem). i.job_data) x.timer.items),
  );
}

Reach-IsSound : {x : System} → Reach start x → IsSound x
Reach-IsSound here = record { sorted = tt; one = refl; accounted = λ a. refl }
Reach-IsSound (later r st) = Step-IsSound st (Reach-IsSound r)

-- Over any interleaving of Reserve, Distribute and Clear, at most one thread is in the second half
-- of Distribute, and each job that was reserved is in the timer, about to be distributed by that
-- thread, or given back to the pool, as often as it was reserved: no job data leaks or is freed
-- twice.
pub jobs_accounted :
    {x : System}
    → Reach start x
    → (length x.working ≤ 1)
      × ((a : ℕ)
          → total (is_job a) x.reserved
            ≡ items_of a x.timer.items
              + total (items_of a) x.working
              + total (is_job a) x.timer.freed)
jobs_accounted r = let v = Reach-IsSound r in (ground (arith, v.one), v.accounted)

-- In every reachable state, a Distribute that does not return early takes from the timer exactly the
-- items whose tick has come, in the order of their ticks, and leaves the others.
pub distribute-Due :
    {x : System} {due : List TimerItem} (now : ℕ)
    → Reach start x
    → (begin_distribute now x.timer).0 ≡ some due
    → Due now x.timer.items due (begin_distribute now x.timer).1.items
distribute-Due {x} {due} now r e =
    let (taken, left) = begin-cases now x.timer due e in
    rw (taken, left) (take_due-Due now x.timer.items (Reach-IsSound r).sorted)
