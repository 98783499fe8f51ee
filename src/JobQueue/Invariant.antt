-- ===== src/JobQueue/Invariant.antt =====
-- Who is responsible for the queue, and where each job is.
use multi_thread_test.Common.{
  ◌==◌, if◌then◌else◌, length, length-append, total, total-append, ℕ, ◌+◌, ◌≤◌, ◌<◌, ◌≡◌, refl, sym,
  ap, ◌∙◌, subst, ◌≢◌, List, [], ◌∷◌, ◌++◌, append-nil, append_assoc, arith,
}
use multi_thread_test.JobQueue.{
  JobQueue, Pc, idle, counted, queued, popping, running, checking, Move, count_job, queue_job,
  not_first, execute_now, hand_over, take_over, pop_all, run_job, all_done, some_left, System, Step,
  launch, move, Reach, here, later, empty,
}

-- A thread in Execute.
abbrev pub executing : Pc → ℕ
executing popping = 1
executing (running _ _) = 1
executing checking = 1
executing _ = 0

-- A thread that is to see to the queue: it executes it, or was the first to push.
abbrev pub responsible : Pc → ℕ
responsible (counted prev _ _ _) = if prev == 0 then 1 else 0
responsible (queued prev _ _) = if prev == 0 then 1 else 0
responsible p = executing p

-- Jobs that are counted and not in the list.
abbrev pub away : Pc → ℕ
away (counted _ _ _ _) = 1
away (running _ count) = count
away _ = 0

-- Jobs taken from the list and not yet run.
abbrev pub todo_of : Pc → List ℕ
todo_of (running todo _) = todo
todo_of _ = []

abbrev pub in_flight : List Pc → List ℕ
in_flight [] = []
in_flight (p ∷ ps) = todo_of p ++ in_flight ps

in_flight-append :
    (ps : List Pc) (p : Pc) (qs : List Pc)
    → in_flight (ps ++ (p ∷ qs)) ≡ in_flight ps ++ (todo_of p ++ in_flight qs)
in_flight-append [] p qs = refl
in_flight-append (x ∷ ps) p qs =
    ap (◌++◌ (todo_of x)) (in_flight-append ps p qs)
    ∙ sym (append_assoc (todo_of x) (in_flight ps) (todo_of p ++ in_flight qs))

-- Where no thread is responsible, none has jobs in flight.
pub in_flight-nil : (ps : List Pc) → total responsible ps ≡ 0 → in_flight ps ≡ []
in_flight-nil [] h = refl
in_flight-nil (idle ∷ ps) h = in_flight-nil ps (omega arith)
in_flight-nil (counted _ _ _ _ ∷ ps) h = in_flight-nil ps (omega arith)
in_flight-nil (queued _ _ _ ∷ ps) h = in_flight-nil ps (omega arith)
in_flight-nil (popping ∷ ps) h = absurd (omega arith)
in_flight-nil (running _ _ ∷ ps) h = absurd (omega arith)
in_flight-nil (checking ∷ ps) h = absurd (omega arith)

pub executing-le-responsible : (ps : List Pc) → total executing ps ≤ total responsible ps
executing-le-responsible [] = omega arith
executing-le-responsible (idle ∷ ps) = omega (arith, executing-le-responsible ps)
executing-le-responsible (counted _ _ _ _ ∷ ps) = omega (arith, executing-le-responsible ps)
executing-le-responsible (queued _ _ _ ∷ ps) = omega (arith, executing-le-responsible ps)
executing-le-responsible (popping ∷ ps) = omega (arith, executing-le-responsible ps)
executing-le-responsible (running _ _ ∷ ps) = omega (arith, executing-le-responsible ps)
executing-le-responsible (checking ∷ ps) = omega (arith, executing-le-responsible ps)

-- `lost` jobs are counted and nowhere.
pub record IsSound (lost : ℕ) (q : JobQueue) (threads : List Pc) : Type 0 where
  pub count : q.job_count ≡ length q.jobs + total away threads + lost
  pub one : total responsible threads + q.global ≡ (if q.job_count == 0 then 0 else 1)
  pub order : q.pushed ≡ q.executed ++ (in_flight threads ++ q.jobs)

-- The premise of a move, for clauses that cannot name it.
abbrev Guard : {q q' : JobQueue} {p p' : Pc} → Move q p q' p' → Type 0
Guard (not_first {prev} h) = 0 < prev
Guard (execute_now {prev} e h) = prev ≡ 0
Guard (hand_over {prev} e h) = prev ≡ 0
Guard {q} (take_over h) = 0 < q.global
Guard {q} (all_done {count} e) = q.job_count ≡ count
Guard {q} (some_left {count} e) = q.job_count ≢ count
Guard _ = Unit

guard : {q q' : JobQueue} {p p' : Pc} (mv : Move q p q' p') → Guard mv
guard (not_first h) = h
guard (execute_now e h) = e
guard (hand_over e h) = e
guard (take_over h) = h
guard (all_done e) = e
guard (some_left e) = e
guard _ = tt

module _ (lost : ℕ) (before behind : List Pc) where
  abbrev around : Pc → List Pc
  around p = before ++ (p ∷ behind)

  Move-count :
      {q q' : JobQueue} {p p' : Pc}
      → Move q p q' p'
      → IsSound lost q (around p)
      → q'.job_count ≡ length q'.jobs + total away (around p') + lost
  Move-count {q} {p} {p'} (queue_job {job = job}) v = omega (
    arith,
    v.count,
    length-append q.jobs (job ∷ []),
    total-append away before p behind,
    total-append away before p' behind,
  )
  Move-count {p} {p'} mv v = ground (
    arith,
    guard mv,
    v.count,
    total-append away before p behind,
    total-append away before p' behind,
  )

  Move-one :
      {q q' : JobQueue} {p p' : Pc}
      → Move q p q' p'
      → IsSound lost q (around p)
      → total responsible (around p') + q'.global ≡ (if q'.job_count == 0 then 0 else 1)
  Move-one {p} {p'} (count_job busy push_only job) v = ground (
    arith,
    v.one,
    total-append responsible before p behind,
    total-append responsible before p' behind,
  )
  Move-one {p} {p'} mv v = ground (
    arith,
    guard mv,
    v.one,
    v.count,
    total-append away before p behind,
    total-append responsible before p behind,
    total-append responsible before p' behind,
  )

  -- While a thread executes the queue it alone has jobs in flight.
  alone :
      {q : JobQueue} (p : Pc)
      → responsible p ≡ 1
      → IsSound lost q (around p)
      → (in_flight before ≡ []) × (in_flight behind ≡ [])
  alone p e v = (
    in_flight-nil before (ground (arith, v.one, total-append responsible before p behind)),
    in_flight-nil behind (ground (arith, v.one, total-append responsible before p behind)),
  )

  Move-order :
      {q q' : JobQueue} {p p' : Pc}
      → Move q p q' p'
      → IsSound lost q (around p)
      → q'.pushed ≡ q'.executed ++ (in_flight (around p') ++ q'.jobs)
  Move-order {q} {p} {p'} (queue_job {job = job}) v =
      ap (λ (l : List ℕ). l ++ (job ∷ [])) v.order
      ∙ append_assoc q.executed (in_flight (around p) ++ q.jobs) (job ∷ [])
      ∙ ap (◌++◌ q.executed) (
          append_assoc (in_flight (around p)) q.jobs (job ∷ [])
          ∙ ap (λ (l : List ℕ). l ++ (q.jobs ++ (job ∷ []))) same)
    where
      same : in_flight (around p) ≡ in_flight (around p')
      same = in_flight-append before p behind ∙ sym (in_flight-append before p' behind)
  Move-order {q} {p} {p'} pop_all v =
      let (none_before, none_behind) = alone popping refl v in
      ground (
        arith,
        v.order,
        none_before,
        none_behind,
        in_flight-append before p behind,
        in_flight-append before p' behind,
        append-nil q.jobs,
      )
  Move-order {q} {p} {p'} (run_job {job} {todo} {count}) v =
      let (none_before, none_behind) = alone (running (job ∷ todo) count) refl v in
      ground (
        arith,
        v.order,
        none_before,
        none_behind,
        in_flight-append before p behind,
        in_flight-append before p' behind,
        append-nil todo,
        append_assoc q.executed (job ∷ []) (todo ++ q.jobs),
      )
  Move-order {p} {p'} mv v =
      ground (arith, v.order, in_flight-append before p behind, in_flight-append before p' behind)

pub Step-IsSound :
    {lost : ℕ} {x y : System}
    → Step x y
    → IsSound lost x.queue x.threads
    → IsSound lost y.queue y.threads
Step-IsSound launch v = record {
  count = omega (arith, v.count);
  one = ground (arith, v.one);
  order = v.order;
}
Step-IsSound {lost} {x} (move before behind {p} {p'} {q} e mv) v = record {
  count = Move-count lost before behind mv w;
  one = Move-one lost before behind mv w;
  order = Move-order lost before behind mv w;
}
  where
    w : IsSound lost x.queue (before ++ (p ∷ behind))
    w = subst (IsSound lost x.queue) e v

pub Reach-IsSound :
    {lost : ℕ} {x y : System}
    → IsSound lost x.queue x.threads
    → Reach x y
    → IsSound lost y.queue y.threads
Reach-IsSound v here = v
Reach-IsSound v (later r st) = Step-IsSound st (Reach-IsSound v r)

pub empty-IsSound : IsSound 0 empty.queue empty.threads
empty-IsSound = record { count = refl; one = refl; order = refl }
