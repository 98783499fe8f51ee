-- ===== src/DeadLockProfiler.antt =====
-- JobTimer_소스코드 (1)/ServerCore/DeadLockProfiler.h and DeadLockProfiler.cpp: the search for a
-- cycle in the order in which locks have been taken. Locks are the ids that PushLock gives out,
-- `history` is _lockHistory. What is printed before the crash is left out.
pub mod Returns
pub mod Cycles
pub mod Depth
pub mod Detection
pub mod Tests
use multi_thread_test.Common.{
  ltb, ◌==◌, if◌then◌else◌, length, Result, ◌>>=◌, crash, hang, ok, fail, ℕ, zero, suc, ◌+◌, Bool,
  true, false, ◌||◌, Option, none, some, List, [], ◌∷◌, ◌++◌, ◌>>◌,
}

-- _discoveredOrder (`none` is -1), _discoveredCount, _finished and _parent.
pub record Search : Type 0 where
  pub order : ℕ → Option ℕ
  pub count : ℕ
  pub finished : ℕ → Bool
  pub parent : ℕ → Option ℕ

abbrev pub put {ℓ} : {A : Type ℓ} → (ℕ → A) → ℕ → A → ℕ → A
put f i a = λ j. if j == i then a else f j

-- `<` on the entries of _discoveredOrder.
abbrev pub before : Option ℕ → Option ℕ → Bool
before _ none = false
before none (some n) = true
before (some m) (some n) = ltb m n

abbrev pub discover : ℕ → Search → Search
discover here s = record s { order = put s.order here (some s.count); count = s.count + 1 }

abbrev pub set_parent : ℕ → ℕ → Search → Search
set_parent there here s = record s { parent = put s.parent there (some here) }

abbrev pub finish : ℕ → Search → Search
finish here s = record s { finished = put s.finished here true }

-- The loop of Dfs over the locks taken under `here`.
pub visit_all : (ℕ → Search → Result Search) → (here : ℕ) → List ℕ → Search → Result Search
visit_all dfs here [] s = ok s
visit_all dfs here (there ∷ rest) s = elim (s.order there) [
  | none ↦ dfs there (set_parent there here s) >>= visit_all dfs here rest
  | some n ↦
      if before (s.order here) (some n)
      then visit_all dfs here rest s
      else if s.finished there
      then visit_all dfs here rest s
      else fail crash
]

-- first, ..., first + n - 1
abbrev pub from : (first n : ℕ) → List ℕ
from first zero = []
from first (suc n) = first ∷ from (suc first) n

abbrev pub unsearched : Search
unsearched = record { order = λ _. none; count = 0; finished = λ _. false; parent = λ _. none }

module _ (history : ℕ → List ℕ) where
  -- Dfs, whose recursion is at most one deeper than there are locks.
  pub dfs : (fuel : ℕ) → (here : ℕ) → Search → Result Search
  dfs zero here s = fail hang
  dfs (suc fuel) here s = elim (s.order here) [
    | some _ ↦ ok s
    | none ↦ do s' ← visit_all (dfs fuel) here (history here) (discover here s); ok (finish here s')
  ]

  -- The loop of CheckCycle over the lock ids.
  pub search_all : (fuel : ℕ) → List ℕ → Search → Result Search
  search_all fuel [] s = ok s
  search_all fuel (i ∷ is) s = dfs fuel i s >>= search_all fuel is

  -- CheckCycle, for `lock_count` locks.
  unfoldable pub check_cycle : (lock_count : ℕ) → Result Search
  check_cycle lock_count = search_all (lock_count + 1) (from 0 lock_count) unsearched

-- `_nameToId` as the names in the order of their ids, which are their places, and `_lockHistory`. A
-- name is the address of its characters.
pub record Profiler : Type 0 where
  pub names : List ℕ
  pub history : ℕ → List ℕ

abbrev pub id_of : List ℕ → (name : ℕ) → Option ℕ
id_of [] name = none
id_of (x ∷ xs) name =
    if x == name then some 0 else elim (id_of xs name) [ none ↦ none | some i ↦ some (suc i) ]

abbrev pub contains : ℕ → List ℕ → Bool
contains i [] = false
contains i (x ∷ xs) = i == x || contains i xs

-- `history.insert`, of a set in ascending order.
abbrev pub insert : ℕ → List ℕ → List ℕ
insert i [] = i ∷ []
insert i (x ∷ xs) = if ltb i x then i ∷ x ∷ xs else if i == x then x ∷ xs else x ∷ insert i xs

-- The id of a name, which is found or given out.
pub find_id : Profiler → (name : ℕ) → ℕ × Profiler
find_id p name = elim (id_of p.names name) [
  | some i ↦ (i, p)
  | none ↦ (length p.names, record p { names = p.names ++ (name ∷ []) })
]

abbrev pub add_edge : Profiler → (prev lock_id : ℕ) → Profiler
add_edge p prev lock_id = record p {
  history = put p.history prev (insert lock_id (p.history prev));
}

-- What PushLock does with the lock that is held already, `prev`.
pub check_edge : Profiler → (prev lock_id : ℕ) → Result Profiler
check_edge p prev lock_id =
    if lock_id == prev || contains lock_id (p.history prev)
    then ok p
    else (let p' = add_edge p prev lock_id in
        check_cycle p'.history (length p'.names) >>= λ _. ok p')

-- PushLock and PopLock, with the thread's LLockStack.
unfoldable pub push_lock : Profiler → (stack : List ℕ) → (name : ℕ) → Result (Profiler × List ℕ)
push_lock p [] name = let (lock_id, p') = find_id p name in ok (p', lock_id ∷ [])
push_lock p (prev ∷ stack) name =
    let (lock_id, p') = find_id p name in
    check_edge p' prev lock_id >>= λ q. ok (q, lock_id ∷ prev ∷ stack)

-- `_nameToId[name]` is 0 for a name without id.
unfoldable pub pop_lock : Profiler → (stack : List ℕ) → (name : ℕ) → Result (List ℕ)
pop_lock p [] name = fail crash
pop_lock p (top ∷ stack) name =
    let lock_id : ℕ = elim (id_of p.names name) [ none ↦ 0 | some i ↦ i ] in
    if top == lock_id then ok stack else fail crash
