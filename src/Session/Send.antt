-- ===== src/Session/Send.antt =====
-- The sending half of a session while other threads call Send: a step relation between whose steps
-- any other thread may run. Its state also has the work that is under way and what Send accepted.
pub mod Invariant
pub mod Advance
pub mod Reachable
pub mod Guarantees
use multi_thread_test.Common.{
  ◌==◌, if◌then◌else◌, ℕ, ◌≡◌, Bool, true, false, ◌||◌, not, Option, none, some, List, [], ◌∷◌,
  ◌++◌,
}
use multi_thread_test.Session.{
  Session, Call, wsa_send, Os, App, own_send, take_queue, hand_over, clear_send, unregister,
  handle_error, disconnect, failure, send_next, send_pushed,
}

-- The buffers handed to WSASend so far, in order.
abbrev pub posted : List Call → List (List ℕ)
posted [] = []
posted (wsa_send buffers ∷ trace) = posted trace ++ buffers
posted (_ ∷ trace) = posted trace

-- `t` differs from `s` at most in what sending does not use, and in the connection.
pub record SameSending (s t : Session) : Type 0 where
  pub same_queue : t.send_queue ≡ s.send_queue
  pub same_registered : t.send_registered ≡ s.send_registered
  pub same_buffers : t.send_buffers ≡ s.send_buffers
  pub same_owner : t.send_owner ≡ s.send_owner
  pub same_posts : posted t.trace ≡ posted s.trace

-- OnSend calls Send as any other thread does, by steps of its own.
abbrev pub KeepsSending : App → Type 0
KeepsSending app = (n : ℕ) (s : Session) → SameSending s (app.on_send n s)

-- Where a thread is in RegisterSend or ProcessSend. A thread that Send has told to call RegisterSend
-- is at its test of the connection (`register`), then before the lock (`drain`), at WSASend
-- (`post`), and after a failure with a code in HandleError (`failing`), at the clean-up of the event
-- (`clear`) and at the reset of `_sendRegistered` (`store`). `waiting` is a request that the
-- operating system has; `finish` is ProcessSend before its lock.
pub data Task : Type 0 where
  register drain post : Task
  failing : (code : ℕ) → Task
  clear store waiting finish : Task

-- WSASend, with the code of a failure.
abbrev pub answered : Option ℕ → Session → Session × List Task
answered none s = (hand_over s, waiting ∷ [])
answered (some code) s = (hand_over s, failing code ∷ [])

-- One part of a task, and the task that is left of it. A request completes with `n` bytes. The last
-- part of ProcessSend is one step, its RegisterSend included, since it runs under the lock.
unfoldable pub advance : Os → App → (n : ℕ) → Task → Session → Session × List Task
advance os app n register s = if s.connected then (own_send s, drain ∷ []) else (s, [])
advance os app n drain s = (take_queue s, post ∷ [])
advance os app n post s = answered (failure os.send) s
advance os app n (failing code) s = (handle_error os code s, clear ∷ [])
advance os app n clear s = (clear_send s, store ∷ [])
advance os app n store s = (unregister s, [])
advance os app n waiting s =
    if n == 0
    then (disconnect os (clear_send s), [])
    else (app.on_send n (clear_send s), finish ∷ [])
advance os app n finish s = let t = send_next os s in (t, if t.send_owner then waiting ∷ [] else [])

-- `accepted` is what Send has taken; `dropped` tells whether the connection was ever down, `failed`
-- whether a WSASend has failed outside of the lock.
pub record Sending : Type 0 where
  pub session : Session
  pub tasks : List Task
  pub accepted : List (List ℕ)
  pub dropped : Bool
  pub failed : Bool

abbrev pub is_failing : List Task → Bool
is_failing (failing code ∷ tasks) = true
is_failing _ = false

abbrev pub moved : Sending → Session → List Task → List (List ℕ) → Bool → Sending
moved x t tasks accepted failed = record {
  session = t;
  tasks = tasks;
  accepted = accepted;
  dropped = x.dropped || not t.connected;
  failed = failed || x.failed;
}

abbrev pub enqueued : Sending → List ℕ → Sending
enqueued x buffer =
    let (first, t) = send_pushed buffer x.session in
    moved x t (x.tasks ++ (if first then register ∷ [] else [])) (x.accepted ++ (buffer ∷ [])) false

abbrev pub advanced :
    Os → App → ℕ → (before : List Task) → Task → (behind : List Task) → Sending → Sending
advanced os app n before task behind x =
    let (t, left) = advance os app n task x.session in
    moved x t (before ++ left ++ behind) x.accepted (is_failing left)

pub data Step (x : Sending) : Sending → Type 0 where
  -- A thread in Send that has seen the connection up takes the lock.
  enqueue : (buffer : List ℕ) → Step x (enqueued x buffer)
  -- A thread goes on, or a request completes.
  go_on :
      (os : Os) (app : App) (n : ℕ) (before : List Task) (task : Task) (behind : List Task)
      → KeepsSending app
      → x.tasks ≡ before ++ (task ∷ behind)
      → Step x (advanced os app n before task behind x)
  -- Whatever else the session does: receive, connect, disconnect.
  other : (t : Session) → SameSending x.session t → Step x (moved x t x.tasks x.accepted false)

-- Before any thread has called Send.
abbrev pub start_on : Session → Sending
start_on s = record {
  session = s;
  tasks = [];
  accepted = [];
  dropped = not s.connected;
  failed = false;
}

pub data Reach (from : Sending) : Sending → Type 0 where
  here : Reach from from
  later : {x y : Sending} → Reach from x → Step x y → Reach from y
