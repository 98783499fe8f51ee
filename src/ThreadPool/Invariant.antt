-- ===== src/ThreadPool/Invariant.antt =====
-- ThreadPool/ThreadPool/ThreadPool/ThreadPool.cpp: what holds in every state of the pool.
use multi_thread_test.Common.{
  if◌then◌else◌, length, replicate, length-append, length-replicate, total, total-append, ℕ, zero,
  suc, ◌+◌, ◌≤◌, ◌<◌, ◌≡◌, refl, ap, subst, ◌⊎◌, inl, inr, true, false, List, [], ◌∷◌, ◌++◌,
  append_assoc, arith,
}
use multi_thread_test.ThreadPool.{
  Place, entering, testing, blocking, asleep, serving, gone, running, alive, Shared, Pool, Version,
  new_pool, WorkerStep, lock, found, not_found, wait, wake, pop, leave, no_job, job_done, wake_all,
  HasAsleep, Move, worker, call, push, notify_one, notify_none, stop, notify_all, joined, Runs,
  started, then_move,
}
use mathlib.Core.List.{append_assoc}

-- 1 for a worker with the lock; in front of its wait; that will look at the queue; that has returned.
abbrev pub holds : Place → ℕ
holds testing = 1
holds blocking = 1
holds serving = 1
holds w = 0

abbrev pub blocks : Place → ℕ
blocks blocking = 1
blocks w = 0

abbrev pub looks : Place → ℕ
looks asleep = 0
looks gone = 0
looks w = 1

abbrev pub returned : Place → ℕ
returned gone = 1
returned w = 0

pub record Inv (v : Version) (s : Shared) (ws : List Place) : Type 0 where
  pub held : total holds ws ≡ (if s.locked then 1 else 0)
  pub queue : s.pushed ≡ s.popped ++ s.jobs
  pub idle : (total blocks ws ≡ 0) ⊎ (s.jobs ≡ [])
  pub awake : (s.stop_all ≡ true) ⊎ (s.jobs ≡ []) ⊎ (0 < total looks ws) ⊎ (0 < s.notifiers)
  pub present : (s.stop_all ≡ true) ⊎ (total returned ws ≡ 0)
  pub staying : (v.leaves ≡ true) ⊎ (total returned ws ≡ 0)
  pub flagged : (s.stage ≡ alive) ⊎ (s.stop_all ≡ true)

-- The four sums over a list with one worker in the middle.
pub sums :
    (before after : List Place) (w : Place)
    → (total holds (before ++ (w ∷ after)) ≡ total holds before + holds w + total holds after)
      × (total blocks (before ++ (w ∷ after)) ≡ total blocks before + blocks w + total blocks after)
      × (total looks (before ++ (w ∷ after)) ≡ total looks before + looks w + total looks after)
      × (total returned (before ++ (w ∷ after))
          ≡ total returned before + returned w + total returned after)
sums before after w = (
  total-append holds before w after,
  total-append blocks before w after,
  total-append looks before w after,
  total-append returned before w after,
)

blocks-le-holds : (ws : List Place) → total blocks ws ≤ total holds ws
blocks-le-holds [] = omega arith
blocks-le-holds (entering ∷ ws) = omega (arith, blocks-le-holds ws)
blocks-le-holds (testing ∷ ws) = omega (arith, blocks-le-holds ws)
blocks-le-holds (blocking ∷ ws) = omega (arith, blocks-le-holds ws)
blocks-le-holds (asleep ∷ ws) = omega (arith, blocks-le-holds ws)
blocks-le-holds (serving ∷ ws) = omega (arith, blocks-le-holds ws)
blocks-le-holds (gone ∷ ws) = omega (arith, blocks-le-holds ws)
blocks-le-holds (running job ∷ ws) = omega (arith, blocks-le-holds ws)

module _ {v : Version} (before after : List Place) where
  worker-Inv :
      {s s' : Shared} {w w' : Place}
      → WorkerStep v s w s' w'
      → Inv v s (before ++ (w ∷ after))
      → Inv v s' (before ++ (w' ∷ after))
  worker-Inv (lock s free) i = ground (arith, sums before after entering, sums before after testing)
  worker-Inv (found s c) i = ground (arith, sums before after testing, sums before after serving)
  worker-Inv (not_found s e f) i =
      ground (arith, sums before after testing, sums before after blocking)
  worker-Inv (wait s) i = ground (arith, sums before after blocking, sums before after asleep)
  worker-Inv (wake s) i = ground (arith, sums before after asleep, sums before after entering)
  worker-Inv (pop s job rest e) i = ground (
    arith,
    sums before after serving,
    sums before after (running job),
    append_assoc s.popped (job ∷ []) rest,
  )
  worker-Inv (leave s e f l) i = ground (arith, sums before after serving, sums before after gone)
  worker-Inv (no_job s e f) i =
      ground (arith, sums before after serving, sums before after entering)
  worker-Inv (job_done s job) i =
      ground (arith, sums before after (running job), sums before after entering)

-- What notify_all does to the sums.
pub wake_all-sums :
    (ws : List Place)
    → (total holds (wake_all ws) ≡ total holds ws)
      × (total blocks (wake_all ws) ≡ total blocks ws)
      × (total looks ws ≤ total looks (wake_all ws))
      × (total returned (wake_all ws) ≡ total returned ws)
unfolding wake_all
wake_all-sums [] = omega arith
wake_all-sums (entering ∷ ws) = omega (arith, wake_all-sums ws)
wake_all-sums (testing ∷ ws) = omega (arith, wake_all-sums ws)
wake_all-sums (blocking ∷ ws) = omega (arith, wake_all-sums ws)
wake_all-sums (asleep ∷ ws) = omega (arith, wake_all-sums ws)
wake_all-sums (serving ∷ ws) = omega (arith, wake_all-sums ws)
wake_all-sums (gone ∷ ws) = omega (arith, wake_all-sums ws)
wake_all-sums (running job ∷ ws) = omega (arith, wake_all-sums ws)

-- Where nobody sleeps and nobody has returned, all look at the queue.
all_look :
    (ws : List Place) → (HasAsleep ws → ⊥) → total returned ws ≡ 0 → total looks ws ≡ length ws
all_look [] h z = refl
all_look (entering ∷ ws) h z = omega (arith, all_look ws (λ a. h (inr a)))
all_look (testing ∷ ws) h z = omega (arith, all_look ws (λ a. h (inr a)))
all_look (blocking ∷ ws) h z = omega (arith, all_look ws (λ a. h (inr a)))
all_look (asleep ∷ ws) h z = absurd (h (inl refl))
all_look (serving ∷ ws) h z = omega (arith, all_look ws (λ a. h (inr a)))
all_look (gone ∷ ws) h z = absurd (omega arith)
all_look (running job ∷ ws) h z = omega (arith, all_look ws (λ a. h (inr a)))

length-wake_all : (ws : List Place) → length (wake_all ws) ≡ length ws
unfolding wake_all
length-wake_all [] = refl
length-wake_all (entering ∷ ws) = ap suc (length-wake_all ws)
length-wake_all (testing ∷ ws) = ap suc (length-wake_all ws)
length-wake_all (blocking ∷ ws) = ap suc (length-wake_all ws)
length-wake_all (asleep ∷ ws) = ap suc (length-wake_all ws)
length-wake_all (serving ∷ ws) = ap suc (length-wake_all ws)
length-wake_all (gone ∷ ws) = ap suc (length-wake_all ws)
length-wake_all (running job ∷ ws) = ap suc (length-wake_all ws)

-- A pool of `n` workers.
pub record IsPool (v : Version) (n : ℕ) (p : Pool) : Type 0 where
  pub inv : Inv v p.shared p.workers
  pub size : length p.workers ≡ n

push-Inv :
    {v : Version} (s : Shared) (job n : ℕ) (ws : List Place)
    → s.locked ≡ false
    → Inv v s ws
    → Inv v
        (record s {
          jobs = s.jobs ++ (job ∷ []);
          callers = n;
          notifiers = s.notifiers + 1;
          pushed = s.pushed ++ (job ∷ []);
        })
        ws
push-Inv s job n ws e i =
    ground (arith, blocks-le-holds ws, append_assoc s.popped s.jobs (job ∷ []))

Move-IsPool :
    {v : Version} {n : ℕ} {p p' : Pool} → 0 < n → Move v p p' → IsPool v n p → IsPool v n p'
Move-IsPool {v} {n} positive (worker p s before after w w' e st) i =
    let start : Inv v p.shared (before ++ (w ∷ after)) = subst (Inv v p.shared) e i.inv in
    record {
      inv = worker-Inv before after st start;
      size = omega (
        arith,
        i.size,
        ap length e,
        length-append before (w ∷ after),
        length-append before (w' ∷ after),
      );
    }
Move-IsPool positive (call p c) i = ground arith
Move-IsPool positive (push p job n free e) i = record {
  inv = push-Inv p.shared job n p.workers free i.inv;
  size = i.size;
}
Move-IsPool {v} positive (notify_one p before after n e f) i =
    let start : Inv v p.shared (before ++ (asleep ∷ after)) = subst (Inv v p.shared) f i.inv in
    record {
      inv = ground (arith, sums before after asleep, sums before after entering);
      size = omega (
        arith,
        i.size,
        ap length f,
        length-append before (asleep ∷ after),
        length-append before (entering ∷ after),
      );
    }
Move-IsPool positive (notify_none p n e none_asleep) i =
    ground (arith, all_look p.workers none_asleep)
Move-IsPool positive (stop p e) i = ground arith
Move-IsPool positive (notify_all p e) i =
    ground (arith, wake_all-sums p.workers, length-wake_all p.workers)
Move-IsPool positive (joined p e g) i = ground arith

started-sums :
    (n : ℕ)
    → (total holds (replicate n entering) ≡ 0)
      × (total blocks (replicate n entering) ≡ 0)
      × (total returned (replicate n entering) ≡ 0)
started-sums zero = omega arith
started-sums (suc n) = omega (arith, started-sums n)

pub Runs-IsPool : {v : Version} {n : ℕ} {p : Pool} → 0 < n → Runs v n p → IsPool v n p
unfolding new_pool
Runs-IsPool {v} {n} positive started = ground (arith, started-sums n, length-replicate n entering)
Runs-IsPool positive (then_move r m) = Move-IsPool positive m (Runs-IsPool positive r)
