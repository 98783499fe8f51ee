-- ===== src/Service/Accepts.antt =====
-- ServerService::Start with Listener::StartAccept and RegisterAccept, against what they meet.
use multi_thread_test.Common.{
  Fault, ℕ_discrete, ◌≤◌, Bool-cases, Result, ◌>>=◌, crash, undefined, ok, fail, ℕ, zero, suc, ◌+◌,
  ◌<◌, ◌≡◌, subst, ◌⊎◌, inl, inr, Bool, true, false, ◌&&◌, arith,
}
use multi_thread_test.Service.{
  Service, Sockets, AcceptTry, register_accept, accept_all, start_accept, server_start,
}

-- The factory is set, and every call before the accepts succeeds.
abbrev pub can_accept : Sockets → Service → Bool
can_accept os s =
    s.has_factory && os.created && os.registered && os.reuse_address && os.linger && os.bound
    && os.listening

-- The rounds from `n` to before `m` fail in AcceptEx, each with a session registered with IOCP.
abbrev pub Fail : (tries : ℕ → AcceptTry) → (n m : ℕ) → Type 0
Fail tries n m =
    (j : ℕ) → n ≤ j → j < m → ((tries j).session_registered ≡ true) × ((tries j).accepted ≡ false)

-- What becomes of one accept that begins with round `n` and ends in round `m`.
pub data Accept (frames : ℕ) (tries : ℕ → AcceptTry) (n : ℕ) : Result ℕ → Type 0 where
  accepts :
      (m : ℕ)
      → n ≤ m
      → m < n + frames
      → Fail tries n m
      → (tries m).session_registered ≡ true
      → (tries m).accepted ≡ true
      → Accept frames tries n (ok (suc m))
  unregistered :
      (m : ℕ)
      → n ≤ m
      → m < n + frames
      → Fail tries n m
      → (tries m).session_registered ≡ false
      → Accept frames tries n (fail undefined)
  overflows : Fail tries n (n + frames) → Accept frames tries n (fail crash)

-- What becomes of so many accepts, one after the other.
pub data Accepts (frames : ℕ) (tries : ℕ → AcceptTry) : (count n : ℕ) → Result Bool → Type 0 where
  complete : (n : ℕ) → Accepts frames tries 0 n (ok true)
  next :
      (count n n' : ℕ) (r : Result Bool)
      → Accept frames tries n (ok n')
      → Accepts frames tries count n' r
      → Accepts frames tries (suc count) n r
  stop :
      (count n : ℕ) (fault : Fault)
      → Accept frames tries n (fail fault)
      → Accepts frames tries (suc count) n (fail fault)

-- A failed round before.
Fail-suc :
    (tries : ℕ → AcceptTry) (n m : ℕ)
    → (tries n).session_registered ≡ true
    → (tries n).accepted ≡ false
    → Fail tries (suc n) m
    → Fail tries n m
Fail-suc tries n m r a f j l h = elim (ℕ_discrete n j) [
  | yes e ↦
      subst (λ j. ((tries j).session_registered ≡ true) × ((tries j).accepted ≡ false)) e (r, a)
  | no ne ↦ f j (omega (arith, l, ne)) h
]

no_rounds : (tries : ℕ → AcceptTry) (n : ℕ) → Fail tries n n
no_rounds tries n j l h = absurd (omega (arith, l, h))

Accept-suc :
    (frames : ℕ) (tries : ℕ → AcceptTry) (n : ℕ) (r : Result ℕ)
    → (tries n).session_registered ≡ true
    → (tries n).accepted ≡ false
    → Accept frames tries (suc n) r
    → Accept (suc frames) tries n r
Accept-suc frames tries n r e a (accepts m l h f registered accepted) =
    accepts m (omega (arith, l)) (omega (arith, h)) (Fail-suc tries n m e a f) registered accepted
Accept-suc frames tries n r e a (unregistered m l h f out) =
    unregistered m (omega (arith, l)) (omega (arith, h)) (Fail-suc tries n m e a f) out
Accept-suc frames tries n r e a (overflows f) =
    overflows (Fail-suc tries n (n + suc frames) e a (λ j l h. f j l (omega (arith, h))))

register_accept-Accept :
    (frames : ℕ) (tries : ℕ → AcceptTry) (n : ℕ)
    → Accept frames tries n (register_accept frames tries n)
unfolding register_accept
register_accept-Accept zero tries n = overflows (λ j l h. absurd (omega (arith, l, h)))
register_accept-Accept (suc frames) tries n = elim (Bool-cases (tries n).session_registered) [
  | inr e ↦ rw e (unregistered n (omega arith) (omega arith) (no_rounds tries n) e)
  | inl e ↦ elim (Bool-cases (tries n).accepted) [
    | inl a ↦ rw (e, a) (accepts n (omega arith) (omega arith) (no_rounds tries n) e a)
    | inr a ↦
        rw (e, a) (Accept-suc frames tries n _ e a (register_accept-Accept frames tries (suc n)))
  ]
]

Accept-Accepts :
    (frames : ℕ) (tries : ℕ → AcceptTry) (count n : ℕ) (r : Result ℕ) (f : ℕ → Result ℕ)
    → Accept frames tries n r
    → ((n' : ℕ) → Accepts frames tries count n' (f n' >>= λ _. ok true))
    → Accepts frames tries (suc count) n (r >>= f >>= λ _. ok true)
Accept-Accepts frames tries count n (ok n') f a rest = next count n n' _ a (rest n')
Accept-Accepts frames tries count n (fail fault) f a rest = stop count n fault a

accept_all-Accepts :
    (frames : ℕ) (tries : ℕ → AcceptTry) (count n : ℕ)
    → Accepts frames tries count n (accept_all frames tries count n >>= λ _. ok true)
unfolding accept_all
accept_all-Accepts frames tries zero n = complete n
accept_all-Accepts frames tries (suc count) n =
    Accept-Accepts frames tries count n (register_accept frames tries n) _
      (register_accept-Accept frames tries n) (accept_all-Accepts frames tries count)

-- ServerService::Start answers false when no factory is set or a call before the accepts fails.
-- Else it registers as many accepts as the service has sessions, each from the round after the
-- last on, and answers true when all are under way. An accept is under way after the first round
-- in which AcceptEx does not fail; a session that is not registered with IOCP before that is a
-- call through a null session, and as many failures as the stack has room for calls overflow the
-- stack, which ends the process.
pub server_start-Accepts :
    (os : Sockets) (s : Service) (frames : ℕ) (tries : ℕ → AcceptTry)
    → ((can_accept os s ≡ false) × (server_start os s frames tries ≡ ok false))
      ⊎ ((can_accept os s ≡ true)
          × Accepts frames tries s.max_session_count 0 (server_start os s frames tries))
unfolding server_start start_accept
server_start-Accepts os s frames tries = elim (Bool-cases (can_accept os s)) [
  | inr e ↦ inl (e, ground (arith, e))
  | inl e ↦ inr (
    e,
    subst (Accepts frames tries s.max_session_count 0) (ground (arith, e))
        (accept_all-Accepts frames tries s.max_session_count 0),
  )
]
