-- ===== src/DeadLockProfiler/Tests.antt =====
-- The theorems on the profiler, applied to two locks of which the second was taken under the first.
use multi_thread_test.Common.{
  crash, ok, fail, ℕ, zero, suc, ◌<◌, ◌≡◌, refl, ◌⊎◌, inl, inr, List, [], ◌∷◌, arith,
}
use multi_thread_test.DeadLockProfiler.{
  Search, from, check_cycle, Profiler, find_id, add_edge, push_lock, check_edge, search_all, dfs,
  visit_all,
}
use multi_thread_test.DeadLockProfiler.Returns.{Among}
use multi_thread_test.DeadLockProfiler.Cycles.{Leads, stay, under, Cycle}
use multi_thread_test.DeadLockProfiler.Depth.{Closed}
use multi_thread_test.DeadLockProfiler.Detection.{IsValid, check_cycle-decides, push_lock-decides}

abbrev history : ℕ → List ℕ
history zero = 1 ∷ []
history (suc _) = []

history-Closed : Closed history (from 0 2)
history-Closed zero t (inl e) = inr (inl e)
history-Closed zero t (inr a) = elim a [ ]
history-Closed (suc _) t a = elim a [ ]

check_cycle-decides_example :
    ((s : Search) × (check_cycle history 2 ≡ ok s)
      × ((v : ℕ) → Among v (from 0 2) → Cycle history v → ⊥))
    ⊎ ((check_cycle history 2 ≡ fail crash) × ((v : ℕ) × Cycle history v))
check_cycle-decides_example = check_cycle-decides history 2 history-Closed

-- The locks have the names 10 and 20.
abbrev taken : Profiler
taken = record { names = 10 ∷ 20 ∷ []; history = history }

from_one : {t v : ℕ} → Leads history t v → t ≡ 1 → v ≡ 1
from_one stay e = e
from_one (under {a = zero} m l) e = absurd (omega (arith, e))
from_one (under {a = suc _} m l) e = elim m [ ]

no-Cycle : (v : ℕ) → Cycle history v → ⊥
no-Cycle zero (t, inl e, l) = absurd (omega (arith, from_one l e))
no-Cycle zero (t, inr a, l) = elim a [ ]
no-Cycle (suc _) (t, a, l) = elim a [ ]

taken-IsValid : IsValid taken
taken-IsValid = record { known = λ v t a. known v t a; no_cycle = no-Cycle }
  where
    known : (v t : ℕ) → Among t (history v) → t < 2
    known zero t (inl e) = omega (arith, e)
    known zero t (inr a) = elim a [ ]
    known (suc _) t a = elim a [ ]

-- The first is taken under the second.
push_lock-decides_example :
    ((q : Profiler) × (stack' : List ℕ) × (push_lock taken (1 ∷ []) 10 ≡ ok (q, stack'))
      × IsValid q)
    ⊎ ((push_lock taken (1 ∷ []) 10 ≡ fail crash)
        × ((prev : ℕ) × (rest : List ℕ) × (v : ℕ) × (1 ∷ [] ≡ prev ∷ rest)
            × Cycle (add_edge (find_id taken 10).1 prev (find_id taken 10).0).history v))
push_lock-decides_example = push_lock-decides taken (1 ∷ []) 10 taken-IsValid

push_lock_crash : push_lock taken (1 ∷ []) 10 ≡ fail crash
unfolding push_lock check_edge find_id check_cycle search_all dfs visit_all
push_lock_crash = refl
