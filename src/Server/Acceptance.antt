-- ===== src/Server/Acceptance.antt =====
-- ThreadPool/ThreadPool/Server/Acceptor.cpp and Server.cpp: the start of a server and the accepts
-- that follow.
use multi_thread_test.Common.{
  ℕ, ◌+◌, ◌≡◌, refl, true, false, Option, none, some, List, [], ◌∷◌, arith,
}
use multi_thread_test.Server.{
  Acceptor, on_accept, Server, start_server, AcceptorEvent, accepted, stopping, accept_event,
  accept_events,
}

-- The accepts that have ended without an error.
unfoldable pub connections : List AcceptorEvent → ℕ
connections [] = 0
connections (accepted true ∷ es) = connections es
connections (accepted false ∷ es) = 1 + connections es
connections (stopping ∷ es) = connections es

-- Open and with just one accept under way.
abbrev pub IsAccepting : (services : ℕ) → Acceptor → Type 0
IsAccepting services a =
    (a.is_open ≡ true) × (a.is_stopped ≡ false) × (a.accepting ≡ 1) × (a.services ≡ services)

accept_events-IsAccepting :
    (es : List AcceptorEvent) (n m : ℕ) (a : Acceptor)
    → IsAccepting n a
    → m ≡ n + connections es
    → IsAccepting m (accept_events es a)
unfolding connections accept_events accept_event
accept_events-IsAccepting [] n m a h q = ground arith
accept_events-IsAccepting (accepted true ∷ es) n m a h q =
    ground (arith, accept_events-IsAccepting es n m (on_accept true a))
accept_events-IsAccepting (accepted false ∷ es) n m a h q =
    ground (arith, accept_events-IsAccepting es (n + 1) m (on_accept false a))
accept_events-IsAccepting (stopping ∷ es) n m a h q =
    ground (arith, accept_events-IsAccepting es n m a)

-- The first error that is reported.
abbrev pub first_error : (open_ec bind_ec listen_ec : Option ℕ) → Option ℕ
first_error (some e) bind_ec listen_ec = some e
first_error none (some e) listen_ec = some e
first_error none none listen_ec = listen_ec

-- Started without an error, with every thread, and accepting after the events; or not at all.
abbrev pub Outcome : (threads : ℕ) → List AcceptorEvent → Server → Option ℕ → Type 0
Outcome threads es s none =
    (s.threads ≡ threads) × IsAccepting (connections es) (accept_events es s.acceptor)
Outcome threads es s (some e) = (s.threads ≡ 0) × (s.acceptor.accepting ≡ 0)

-- start_server reports the first error of open, bind and listen and then has no thread and no
-- accept under way; without an error it has all its threads, and after any accepts that end, with
-- or without an error, and any calls of stop, the acceptor is open, has one accept under way, and
-- has run a service for each client accepted.
pub start_server-Outcome :
    (thread_pool_size : ℕ) (open_ec bind_ec listen_ec : Option ℕ) (es : List AcceptorEvent)
    → ((start_server thread_pool_size open_ec bind_ec listen_ec).1
        ≡ first_error open_ec bind_ec listen_ec)
      × Outcome thread_pool_size es
          (start_server thread_pool_size open_ec bind_ec listen_ec).0
          (start_server thread_pool_size open_ec bind_ec listen_ec).1
unfolding start_server
start_server-Outcome n (some e) b l es = ground arith
start_server-Outcome n none (some e) l es = ground arith
start_server-Outcome n none none (some e) es = ground arith
start_server-Outcome n none none none es =
    (refl, (refl, accept_events-IsAccepting es 0 _ _ (ground arith) (omega arith)))
