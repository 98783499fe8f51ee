-- ===== src/Service/Tests.antt =====
-- Service::AddSession, ReleaseSession and Broadcast with three sessions, of which one leaves.
use multi_thread_test.Common.{
  ◌==◌, not, crash, ℕ, ◌⊎◌, ok, fail, ◌≡◌, refl, true, false, List, [], ◌∷◌, arith,
}
use multi_thread_test.Service.{
  Service, Sockets, AcceptTry, register_accept, accept_all, start_accept, server_start,
}
use multi_thread_test.Service.Accepts.{can_accept, Accepts, server_start-Accepts}
use multi_thread_test.Service.Sessions.{IsValid}
use multi_thread_test.Service.Runs.{
  Call, add, release, run, after_all, Holds, Broadcasts, run-Holds,
}

abbrev nobody : Service
nobody = record {
  sessions = [];
  session_count = 0;
  max_session_count = 100;
  has_factory = true;
  sent = [];
}

abbrev three_calls : List Call
three_calls = add 4 ∷ add 9 ∷ release 4 ∷ add 2 ∷ []

run-Holds_example :
    (t : Service) × (run three_calls nobody ≡ ok t)
    × IsValid t
    × Holds (after_all three_calls (λ i. false)) t
    × Broadcasts (after_all three_calls (λ i. false)) t
run-Holds_example =
    run-Holds three_calls (λ i. false) nobody (record { once = λ i. omega arith; counted = refl })
      (λ i. refl) (refl, (refl, (refl, (refl, tt))))

-- Of three rounds one fails, and a session is not registered in the fourth.
abbrev rounds : ℕ → AcceptTry
rounds n = record { session_registered = not (n == 3); accepted = not (n == 1) }

abbrev all_well : Sockets
all_well = record {
  created = true;
  registered = true;
  reuse_address = true;
  linger = true;
  bound = true;
  listening = true;
}

-- A service of `nobody` with two accepts in place of its 100: the second is under way after a failure.
abbrev two_accepts : Service
two_accepts = record nobody { max_session_count = 2 }

two_accepts_start : server_start all_well two_accepts 2 rounds ≡ ok true
unfolding server_start start_accept accept_all register_accept
two_accepts_start = refl

one_frame : server_start all_well two_accepts 1 rounds ≡ fail crash
unfolding server_start start_accept accept_all register_accept
one_frame = refl

server_start-Accepts_example :
    ((can_accept all_well nobody ≡ false) × (server_start all_well nobody 9 rounds ≡ ok false))
    ⊎ ((can_accept all_well nobody ≡ true)
        × Accepts 9 rounds 100 0 (server_start all_well nobody 9 rounds))
server_start-Accepts_example = server_start-Accepts all_well nobody 9 rounds
