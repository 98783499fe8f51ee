-- ===== src/Service.antt =====
-- JobTimer_소스코드 (1)/ServerCore/Service.h, Service.cpp, Listener.h and Listener.cpp: the sessions of
-- a service, how a client connects them and how a server accepts them. A session is a number. Whether
-- a registration with IOCP or a call of Winsock succeeds is an argument; a call through a null session
-- is undefined.
pub mod Sessions
pub mod Runs
pub mod Accepts
pub mod Tests
use multi_thread_test.Common.{
  ◌==◌, if◌then◌else◌, take, Result, ◌>>=◌, ◌>>◌, assert_crash, crash, undefined, ok, fail, ℕ, zero,
  suc, ◌+◌, ◌-◌, Bool, true, false, ◌&&◌, ◌||◌, not, Option, none, some, List, [], ◌∷◌, ◌++◌,
}

-- `_sessions`, a set, and its count; `sent` are the sessions that Broadcast has called Send of.
pub record Service : Type 0 where
  pub sessions : List ℕ
  pub session_count : ℕ
  pub max_session_count : ℕ
  pub has_factory : Bool
  pub sent : List ℕ

abbrev pub contains : ℕ → List ℕ → Bool
contains i [] = false
contains i (x ∷ xs) = i == x || contains i xs

abbrev pub erase : ℕ → List ℕ → List ℕ
erase i [] = []
erase i (x ∷ xs) = if i == x then xs else x ∷ erase i xs

-- Service::AddSession
unfoldable pub add_session : ℕ → Service → Service
add_session session s = record s {
  session_count = s.session_count + 1;
  sessions = if contains session s.sessions then s.sessions else session ∷ s.sessions;
}

-- Service::ReleaseSession
unfoldable pub release_session : ℕ → Service → Result Service
release_session session s =
    assert_crash (contains session s.sessions)
    >> ok (record s { sessions = erase session s.sessions; session_count = s.session_count - 1 })

-- Service::Broadcast
unfoldable pub broadcast : Service → Service
broadcast s = record s { sent = s.sent ++ s.sessions }

-- Service::CreateSession; `none` is nullptr.
unfoldable pub create_session : (registered : Bool) → (session : ℕ) → Option ℕ
create_session registered session = if registered then some session else none

-- What happens to one session of a client: its registration, and its Connect.
pub record Attempt : Type 0 where
  pub session : ℕ
  pub registered : Bool
  pub connects : Bool

-- The loop of ClientService::Start over the sessions that are to be connected.
pub connect_all : List Attempt → Result Bool
unfolding create_session
connect_all [] = ok true
connect_all (a ∷ rest) =
    let others = connect_all rest in
    elim (create_session a.registered a.session) [
      | none ↦ fail undefined
      | some _ ↦ if a.connects then others else ok false
    ]

-- ClientService::Start, with what happens to each of the `_maxSessionCount` sessions.
unfoldable pub client_start : Service → List Attempt → Result Bool
client_start s attempts =
    if not s.has_factory then ok false else connect_all (take s.max_session_count attempts)

-- What the calls of Listener::StartAccept answer before the first AcceptEx, in their order.
pub record Sockets : Type 0 where
  pub created : Bool
  pub registered : Bool
  pub reuse_address : Bool
  pub linger : Bool
  pub bound : Bool
  pub listening : Bool

-- One round of Listener::RegisterAccept: the registration of the new session, and AcceptEx, which is
-- done or pending (`true`) or has failed.
pub record AcceptTry : Type 0 where
  pub session_registered : Bool
  pub accepted : Bool

-- Listener::RegisterAccept, which calls itself again after a failure: `frames` are the calls that
-- the stack has room for, and one more overflows it, which ends the process. `tries` are the rounds
-- of all calls and `n` is the number of the next one; the answer is that of the first round left.
unfoldable pub register_accept : (frames : ℕ) → (tries : ℕ → AcceptTry) → (n : ℕ) → Result ℕ
register_accept zero tries n = fail crash
register_accept (suc frames) tries n =
    let again = register_accept frames tries (suc n) in
    if not (tries n).session_registered
    then fail undefined
    else if (tries n).accepted
    then ok (suc n)
    else again

-- The loop of StartAccept.
unfoldable pub accept_all :
    (frames : ℕ) → (tries : ℕ → AcceptTry) → (count : ℕ) → (n : ℕ) → Result ℕ
accept_all frames tries zero n = ok n
accept_all frames tries (suc count) n =
    register_accept frames tries n >>= accept_all frames tries count

-- Listener::StartAccept
unfoldable pub start_accept :
    Sockets → Service → (frames : ℕ) → (tries : ℕ → AcceptTry) → Result Bool
start_accept os s frames tries =
    if not
      (os.created && os.registered && os.reuse_address && os.linger && os.bound && os.listening)
    then ok false
    else accept_all frames tries s.max_session_count 0 >>= λ _. ok true

-- ServerService::Start
unfoldable pub server_start :
    Sockets → Service → (frames : ℕ) → (tries : ℕ → AcceptTry) → Result Bool
server_start os s frames tries =
    if not s.has_factory then ok false else start_accept os s frames tries

-- Listener::ProcessAccept: whether ProcessConnect of the session was called, then RegisterAccept.
unfoldable pub process_accept :
    (updated named : Bool) → (frames : ℕ) → (tries : ℕ → AcceptTry) → (n : ℕ) → Result (Bool × ℕ)
process_accept updated named frames tries n =
    register_accept frames tries n >>= λ rest. ok (updated && named, rest)
