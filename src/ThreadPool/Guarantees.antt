-- ===== src/ThreadPool/Guarantees.antt =====
-- ThreadPool/ThreadPool/ThreadPool/ThreadPool.cpp and ThreadPoolTest/ThreadPool.cpp: the order of the
-- jobs, and the end of a pool.
use multi_thread_test.Common.{
  length, total, ℕ, ◌≤◌, ◌<◌, ◌≡◌, refl, sym, ap, ◌∙◌, subst, ◌≢◌, ◌⊎◌, inl, inr, false, List, [],
  ◌∷◌, ◌++◌, append-nil, append_assoc, arith,
}
use multi_thread_test.ThreadPool.{
  Place, entering, testing, blocking, asleep, serving, running, ended, Shared, Pool, Version,
  new_pool, WorkerStep, lock, found, not_found, wait, wake, pop, leave, no_job, job_done, AllGone,
  Move, worker, call, push, notify_one, notify_none, stop, notify_all, joined, Runs, started,
  then_move,
}
use multi_thread_test.ThreadPool.Invariant.{
  Runs-IsPool, holds, looks, returned, wake_all-sums, sums,
}
use mathlib.Core.List.{append_assoc, append-nil}

-- In every state that a pool of at least one worker reaches, in either version and under any
-- interleaving with callers of EnqueueJob and with the destructor: the jobs pushed are, in order,
-- those taken and those in the queue; at most one worker has the lock; and while the queue is not
-- empty, no notification is under way and the pool is not stopped, some worker is neither asleep
-- nor gone.
pub Runs-served :
    {v : Version} {n : ℕ} {p : Pool}
    → 0 < n
    → Runs v n p
    → (p.shared.pushed ≡ p.shared.popped ++ p.shared.jobs)
      × (total holds p.workers ≤ 1)
      × (p.shared.jobs ≢ []
          → p.shared.notifiers ≡ 0
          → p.shared.stop_all ≡ false
          → (0 < total looks p.workers))
Runs-served positive r =
    let i = Runs-IsPool positive r in
    (i.inv.queue, ground arith, λ some_jobs quiet running. ground arith)

returned-AllGone : (ws : List Place) → AllGone ws → total returned ws ≡ length ws
returned-AllGone [] h = refl
returned-AllGone (w ∷ ws) h = ground (arith, returned-AllGone ws h.1)

worker-stage :
    {v : Version} {s s' : Shared} {w w' : Place} → WorkerStep v s w s' w' → s'.stage ≡ s.stage
worker-stage (lock s free) = refl
worker-stage (found s c) = refl
worker-stage (not_found s e f) = refl
worker-stage (wait s) = refl
worker-stage (wake s) = refl
worker-stage (pop s job rest e) = refl
worker-stage (leave s e f l) = refl
worker-stage (no_job s e f) = refl
worker-stage (job_done s job) = refl

-- Where a worker on a stopped pool goes on instead of returning, as in ThreadPool/ThreadPool, the
-- destructor of a pool of at least one worker never gets past its joins.
pub stage-ne-ended :
    {v : Version} {n : ℕ} {p : Pool}
    → 0 < n
    → v.leaves ≡ false
    → Runs v n p
    → p.shared.stage ≢ ended
unfolding new_pool
stage-ne-ended positive stays started = ground arith
stage-ne-ended positive stays (then_move r (worker p s before after w w' e st)) =
    ground (arith, worker-stage st, stage-ne-ended positive stays r)
stage-ne-ended positive stays (then_move r (call p c)) = stage-ne-ended positive stays r
stage-ne-ended positive stays (then_move r (push p job n free e)) = stage-ne-ended positive stays r
stage-ne-ended positive stays (then_move r (notify_one p before after n e f)) =
    stage-ne-ended positive stays r
stage-ne-ended positive stays (then_move r (notify_none p n e h)) = stage-ne-ended positive stays r
stage-ne-ended positive stays (then_move r (stop p e)) = ground arith
stage-ne-ended positive stays (then_move r (notify_all p e)) = ground arith
stage-ne-ended positive stays (then_move r (joined p e g)) =
    let i = Runs-IsPool positive r in ground (arith, returned-AllGone p.workers g)

-- The moves from one state on.
pub data Later (v : Version) (p : Pool) : Pool → Type 0 where
  here : Later v p p
  later : {q r : Pool} → Later v p q → Move v q r → Later v p r

pub Later-Runs : {v : Version} {n : ℕ} {p q : Pool} → Runs v n p → Later v p q → Runs v n q
Later-Runs r here = r
Later-Runs r (later l m) = then_move (Later-Runs r l) m

-- `whole` goes on from `start`.
abbrev pub Extends : (start whole : List ℕ) → Type 0
Extends start whole = (rest : List ℕ) × (whole ≡ start ++ rest)

-- What has been pushed before goes on; and once a worker has returned, all of it has been taken.
record Drains (v : Version) (before : List ℕ) (s : Shared) (ws : List Place) : Type 0 where
  kept : Extends before s.pushed
  taken : (total returned ws ≡ 0) ⊎ Extends before s.popped
  waits : (s.stage ≢ ended) ⊎ Extends before s.popped

extends_more : (start whole more : List ℕ) → Extends start whole → Extends start (whole ++ more)
extends_more start whole more (rest, e) = (rest ++ more, rw e (append_assoc start rest more))

or_more :
    {A B : Type 0} (start whole more : List ℕ)
    → (A → B)
    → A ⊎ Extends start whole
    → B ⊎ Extends start (whole ++ more)
or_more start whole more f (inl a) = inl (f a)
or_more start whole more f (inr e) = inr (extends_more start whole more e)

worker-Drains :
    {v : Version} {jobs : List ℕ} (before after : List Place) {s s' : Shared} {w w' : Place}
    → WorkerStep v s w s' w'
    → (s.pushed ≡ s.popped ++ s.jobs)
    → Drains v jobs s (before ++ (w ∷ after))
    → Drains v jobs s' (before ++ (w' ∷ after))
worker-Drains before after (lock s free) q d =
    ground (arith, sums before after entering, sums before after testing)
worker-Drains before after (found s c) q d =
    ground (arith, sums before after testing, sums before after serving)
worker-Drains before after (not_found s e f) q d =
    ground (arith, sums before after testing, sums before after blocking)
worker-Drains before after (wait s) q d =
    ground (arith, sums before after blocking, sums before after asleep)
worker-Drains before after (wake s) q d =
    ground (arith, sums before after asleep, sums before after entering)
worker-Drains {v} {jobs} before after (pop s job rest e) q d =
    let same : total returned (before ++ (running job ∷ after))
        ≡ total returned (before ++ (serving ∷ after)) =
      omega (arith, sums before after serving, sums before after (running job)) in
    record {
      kept = d.kept;
      taken = or_more jobs s.popped (job ∷ []) (λ z. same ∙ z) d.taken;
      waits = or_more jobs s.popped (job ∷ []) (λ z. z) d.waits;
    }
worker-Drains {v} {jobs} before after (leave s e f l) q d =
    let all : s.pushed ≡ s.popped = q ∙ ap (◌++◌ s.popped) e ∙ append-nil s.popped in
    let taken : Extends jobs s.popped = subst (Extends jobs) all d.kept in
    record { kept = d.kept; taken = inr taken; waits = inr taken }
worker-Drains before after (no_job s e f) q d =
    ground (arith, sums before after serving, sums before after entering)
worker-Drains before after (job_done s job) q d =
    ground (arith, sums before after (running job), sums before after entering)

Move-Drains :
    {v : Version} {n : ℕ} {jobs : List ℕ} {p p' : Pool}
    → 0 < n
    → Runs v n p
    → Move v p p'
    → Drains v jobs p.shared p.workers
    → Drains v jobs p'.shared p'.workers
Move-Drains {v} {n} {jobs} positive r (worker p s before after w w' e st) d =
    worker-Drains before after st (Runs-IsPool positive r).inv.queue
      (subst (Drains v jobs p.shared) e d)
Move-Drains positive r (call p c) d = record { kept = d.kept; taken = d.taken; waits = d.waits }
Move-Drains {v} {n} {jobs} positive r (push p job m free e) d = record {
  kept = extends_more jobs p.shared.pushed (job ∷ []) d.kept;
  taken = d.taken;
  waits = d.waits;
}
Move-Drains {v} {n} {jobs} positive r (notify_one p before after m e f) d =
    let start : Drains v jobs p.shared (before ++ (asleep ∷ after)) =
      subst (Drains v jobs p.shared) f d in
    ground (arith, sums before after asleep, sums before after entering)
Move-Drains positive r (notify_none p m e h) d = record {
  kept = d.kept;
  taken = d.taken;
  waits = d.waits;
}
Move-Drains positive r (stop p e) d = record {
  kept = d.kept;
  taken = d.taken;
  waits = inl (ground arith);
}
Move-Drains positive r (notify_all p e) d = ground (arith, wake_all-sums p.workers)
Move-Drains positive r (joined p e g) d =
    let i = Runs-IsPool positive r in ground (arith, returned-AllGone p.workers g)

Later-Drains :
    {v : Version} {n : ℕ} {p q : Pool}
    → 0 < n
    → Runs v n p
    → p.shared.stop_all ≡ false
    → Later v p q
    → Drains v p.shared.pushed q.shared q.workers
Later-Drains {v} {n} {p} positive r e here =
    let i = Runs-IsPool positive r in
    record {
      kept = ([], sym (append-nil p.shared.pushed));
      taken = inl (ground (arith, i.inv.present));
      waits = inl (ground (arith, i.inv.flagged));
    }
Later-Drains positive r e (later l m) =
    Move-Drains positive (Later-Runs r l) m (Later-Drains positive r e l)

-- When the destructor is past its joins, all jobs that had been pushed in any state before the
-- stop have been taken, in the order of the pushes. For a pool of at least one worker.
pub ended-Extends :
    {v : Version} {n : ℕ} {p q : Pool}
    → 0 < n
    → Runs v n p
    → p.shared.stop_all ≡ false
    → Later v p q
    → q.shared.stage ≡ ended
    → Extends p.shared.pushed q.shared.popped
ended-Extends positive r e l done = elim (Later-Drains positive r e l).waits [
  | inl not_yet ↦ absurd (not_yet done)
  | inr taken ↦ taken
]
