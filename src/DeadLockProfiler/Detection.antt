-- ===== src/DeadLockProfiler/Detection.antt =====
-- What CheckCycle and PushLock answer.
use multi_thread_test.Common.{
  ◌==◌, Bool-cases, Option-cases, length, length-append, Result, crash, ok, fail, ℕ, zero, suc, ◌+◌,
  ◌≤◌, ◌<◌, ◌≡◌, refl, ◌↔◌, ◌⊎◌, inl, inr, ◌||◌, some, List, [], ◌∷◌, ◌++◌, arith,
}
use multi_thread_test.DeadLockProfiler.{
  Search, from, unsearched, check_cycle, Profiler, id_of, contains, insert, find_id, add_edge,
  check_edge, push_lock,
}
use multi_thread_test.DeadLockProfiler.Returns.{Among, IsGrey, IsOk, AllFinished-at}
use multi_thread_test.DeadLockProfiler.Cycles.{
  Leads, stay, under, Cycle, IsSafe-Cycle, search_all-AllFinished, search_all-crash,
}
use multi_thread_test.DeadLockProfiler.Depth.{Closed, left-le, search_all-Ends}

unsearched-IsOk : (history : ℕ → List ℕ) → IsOk history unsearched
unsearched-IsOk history = record {
  counted = λ g k e. absurd (cc e);
  are_safe = λ g e. absurd (cc e);
}

-- CheckCycle, on a history in which every lock has one of the `lock_count` ids, always comes to an
-- end, and within that depth. It returns exactly if no lock is on a cycle, and else it crashes.
pub check_cycle-decides :
    (history : ℕ → List ℕ) (lock_count : ℕ)
    → Closed history (from 0 lock_count)
    → ((s : Search) × (check_cycle history lock_count ≡ ok s)
        × ((v : ℕ) → Among v (from 0 lock_count) → Cycle history v → ⊥))
      ⊎ ((check_cycle history lock_count ≡ fail crash) × ((v : ℕ) × Cycle history v))
unfolding check_cycle
check_cycle-decides history lock_count closed =
    elim (search_all-Ends history ids (lock_count + 1) ids unsearched closed ok_now (λ t a. a)
      (omega (arith, left-le unsearched 0 lock_count))) [
        | inl (s, e) ↦
            let (v, after, finished) =
              search_all-AllFinished history (lock_count + 1) ids unsearched s ok_now no_grey e in
            inl (
              s,
              e,
              λ x a c.
                  IsSafe-Cycle history (v.are_safe x (AllFinished-at history s ids x finished a)) c,
            )
        | inr e ↦ inr (e, search_all-crash history (lock_count + 1) ids unsearched ok_now no_grey e)
      ]
  where
    ids : List ℕ
    ids = from 0 lock_count

    ok_now : IsOk history unsearched
    ok_now = unsearched-IsOk history

    no_grey : (g k : ℕ) → IsGrey unsearched g k → ⊥
    no_grey g k x = absurd (cc x.seen)

Among-insert : (u t : ℕ) (xs : List ℕ) → Among u (insert t xs) → (u ≡ t) ⊎ Among u xs
Among-insert u t [] a = a
Among-insert u t (x ∷ xs) a = ground (arith, a, Among-insert u t xs)

Among-from : (v first n : ℕ) → Among v (from first n) ↔ ((first ≤ v) × (v < first + n))
Among-from v first zero = (λ a. elim a [ ], λ h. absurd (omega (arith, h.0, h.1)))
Among-from v first (suc n) = ground (arith, Among-from v (suc first) n)

-- The locks of the history have ids, and none is on a cycle.
pub record IsValid (p : Profiler) : Type 0 where
  pub known : (v t : ℕ) → Among t (p.history v) → t < length p.names
  pub no_cycle : (v : ℕ) → Cycle p.history v → ⊥

module _ (history : ℕ → List ℕ) (n : ℕ) (known : (v t : ℕ) → Among t (history v) → t < n) where
  Leads-known : {a b : ℕ} → Leads history a b → a < n → b < n
  Leads-known stay h = h
  Leads-known (under {a} {t} e l) h = Leads-known l (known a t e)

  Cycle-known : (v : ℕ) → Cycle history v → v < n
  Cycle-known v (t, e, l) = Leads-known l (known v t e)

id_of-lt : (xs : List ℕ) (name i : ℕ) → id_of xs name ≡ some i → i < length xs
id_of-lt [] name i e = absurd (cc e)
id_of-lt (x ∷ xs) name i e = elim (Option-cases (id_of xs name)) [
  | inl f ↦ ground (arith, e, f)
  | inr (j, f) ↦ ground (arith, e, f, id_of-lt xs name j f)
]

find_id-IsValid :
    (p : Profiler) (name : ℕ)
    → IsValid p
    → IsValid (find_id p name).1 × ((find_id p name).0 < length (find_id p name).1.names)
unfolding find_id
find_id-IsValid p name v = elim (Option-cases (id_of p.names name)) [
  | inl e ↦
      rw (find_id, e)
        (
          record { known = λ a t m. omega (arith, v.known a t m, more); no_cycle = v.no_cycle },
          omega (arith, more),
        )
  | inr (i, e) ↦ rw (find_id, e) (v, id_of-lt p.names name i e)
]
  where
    more : length (p.names ++ (name ∷ [])) ≡ length p.names + 1
    more = length-append p.names (name ∷ [])

-- What becomes of an edge.
abbrev pub Answers : Profiler → (prev lock_id : ℕ) → Result Profiler → Type 0
Answers p prev lock_id r =
    ((q : Profiler) × (r ≡ ok q) × IsValid q)
    ⊎ ((r ≡ fail crash) × ((v : ℕ) × Cycle (add_edge p prev lock_id).history v))

check_edge-Answers :
    (p : Profiler) (prev lock_id : ℕ)
    → IsValid p
    → lock_id < length p.names
    → Answers p prev lock_id (check_edge p prev lock_id)
unfolding check_edge
check_edge-Answers p prev lock_id v h =
    elim (Bool-cases (lock_id == prev || contains lock_id (p.history prev))) [
      | inl e ↦ rw (check_edge, e) (inl (p, refl, v))
      | inr e ↦ elim (check_cycle-decides new.history (length p.names) closed) [
        | inl (s, f, none_found) ↦
            rw (check_edge, e, f)
              (inl (
                new,
                refl,
                record {
                  known = known;
                  no_cycle = λ x c.
                      none_found x
                        (here_among x (Cycle-known new.history (length p.names) known x c)) c;
                },
              ))
        | inr (f, c) ↦ rw (check_edge, e, f) (inr (refl, c))
      ]
    ]
  where
    new : Profiler
    new = add_edge p prev lock_id

    known : (x t : ℕ) → Among t (new.history x) → t < length p.names
    known x t a = elim (Bool-cases (x == prev)) [
      | inl e ↦ ground (arith, e, a, Among-insert t lock_id (p.history prev), h, v.known prev t)
      | inr e ↦ ground (arith, e, a, v.known x t)
    ]

    here_among : (x : ℕ) → x < length p.names → Among x (from 0 (length p.names))
    here_among x k = (Among-from x 0 (length p.names)).1 (omega arith, omega (arith, k))

    closed : Closed new.history (from 0 (length p.names))
    closed x t a = here_among t (known x t a)

-- On a profiler whose history has no cycle, PushLock always comes to an end: it returns with a
-- history that has no cycle again, or it crashes, and then the lock taken under the one that the
-- thread holds closes a cycle.
pub push_lock-decides :
    (p : Profiler) (stack : List ℕ) (name : ℕ)
    → IsValid p
    → ((q : Profiler) × (stack' : List ℕ) × (push_lock p stack name ≡ ok (q, stack')) × IsValid q)
      ⊎ ((push_lock p stack name ≡ fail crash)
          × ((prev : ℕ) × (rest : List ℕ) × (v : ℕ) × (stack ≡ prev ∷ rest)
              × Cycle (add_edge (find_id p name).1 prev (find_id p name).0).history v))
unfolding push_lock
push_lock-decides p [] name v = inl (_, _, refl, (find_id-IsValid p name v).0)
push_lock-decides p (prev ∷ rest) name v =
    let (valid, small) = find_id-IsValid p name v in
    elim (check_edge-Answers (find_id p name).1 prev (find_id p name).0 valid small) [
      | inl (q, e, w) ↦ rw e (inl (q, _, refl, w))
      | inr (e, (x, c)) ↦ rw e (inr (refl, (prev, rest, x, refl, c)))
    ]
