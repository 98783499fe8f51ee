-- ===== src/Session/Send/Guarantees.antt =====
-- What a sending session guarantees, from a quiet one on.
use multi_thread_test.Common.{
  Bool-cases, Option-cases, length, ℕ, ◌≤◌, ◌≡◌, refl, ◌≢◌, inl, inr, Bool, true, false, List, [],
  ◌∷◌, ◌++◌, arith,
}
use multi_thread_test.Session.{
  Session, Os, App, send, send_locked, send_pushed, process_send, process_connect, register_recv,
  receiving, failure, disconnect, call, add_session, on_connected,
}
use multi_thread_test.Session.Send.{posted, SameSending, Task, Sending, start_on, Reach}
use multi_thread_test.Session.Send.Invariant.{
  Fits, taken, disconnect-SameSending, handle_error-SameSending,
}
use multi_thread_test.Session.Send.Reachable.{IsQuiet, Reach-IsSound}

-- In every state that is reachable from a quiet session, where other threads run between the parts
-- of Send, of RegisterSend and of ProcessSend, the buffers handed to WSASend so far, then those
-- that a thread in RegisterSend has taken from the queue and not yet handed over, then those still
-- queued are exactly the buffers that Send accepted, in the order in which Send took the lock. For
-- an OnSend that calls Send as any other thread does.
pub posted-order :
    {s : Session} {x : Sending}
    → IsQuiet s
    → Reach (start_on s) x
    → posted x.session.trace ++ (taken x.tasks x.session ++ x.session.send_queue) ≡ x.accepted
posted-order q r = (Reach-IsSound q r).order

Fits-single :
    (tasks : List Task) (s : Session) (failed : Bool)
    → Fits tasks s failed
    → (length tasks ≤ 1)
      × (tasks ≡ [] → (s.send_owner ≡ false) × (s.send_buffers ≡ []))
      × (tasks ≢ [] → s.send_registered ≡ true)
Fits-single [] s failed f = (omega arith, λ _. f, λ e. absurd (e refl))
Fits-single (task ∷ []) s failed f = (omega arith, λ e. absurd (cc e), λ _. f.0)
Fits-single (_ ∷ _ ∷ _) s failed f = absurd f

-- In every state that is reachable from a quiet session at most one thing is under way: a thread
-- in RegisterSend, wherever it is, a request that the operating system has, or a ProcessSend
-- before its lock. While there is one the session is registered, and while there is none the event
-- has no owner and no buffers. For an OnSend that calls Send as any other thread does.
pub single_request :
    {s : Session} {x : Sending}
    → IsQuiet s
    → Reach (start_on s) x
    → (length x.tasks ≤ 1)
      × (x.tasks ≡ [] → (x.session.send_owner ≡ false) × (x.session.send_buffers ≡ []))
      × (x.tasks ≢ [] → x.session.send_registered ≡ true)
single_request {x} q r = Fits-single x.tasks x.session x.failed (Reach-IsSound q r).fits

-- In every state that is reachable from a quiet session with the connection never down, and where
-- no WSASend outside of the lock has failed, a buffer in the queue means that exactly one thread
-- is in RegisterSend, or one request with the operating system, or one ProcessSend before its
-- lock. For an OnSend that calls Send as any other thread does.
pub no_lost_wakeup :
    {s : Session} {x : Sending}
    → IsQuiet s
    → Reach (start_on s) x
    → x.dropped ≡ false
    → x.failed ≡ false
    → x.session.send_queue ≢ []
    → length x.tasks ≡ 1
no_lost_wakeup {x} q r up held waiting =
    let v = Reach-IsSound q r in
    ground (arith, v.live up, v.idle held, Bool-cases x.session.send_registered)

pub register_recv-SameSending : (os : Os) (s : Session) → SameSending s (register_recv os s)
unfolding register_recv
register_recv-SameSending os s = elim (Option-cases (failure os.recv)) [
  | inl e ↦ ground arith
  | inr (code, e) ↦ ground (arith, handle_error-SameSending os code (receiving s))
]

-- A session that is registered for sending and whose WSASend completes with no bytes stays
-- registered; connected again, its next Send only queues and posts nothing, and it is still
-- registered, where OnConnected leaves sending alone.
pub send_stalls :
    (os os' : Os) (app : App) (buffer : List ℕ) (s : Session)
    → ((t : Session) → SameSending t (app.on_connected t))
    → s.send_registered ≡ true
    → let back = process_connect os app (process_send os app 0 s) in
      (send os' buffer back ≡ (send_locked buffer back).1)
      × ((send os' buffer back).send_registered ≡ true)
unfolding send send_locked send_pushed process_connect process_send
send_stalls os os' app buffer s keeps r =
    ground (arith, register_recv-SameSending os up, keeps called, disconnect-SameSending os down)
  where
    down : Session
    down = record s { send_owner = false; send_buffers = [] }

    called : Session
    called =
        call on_connected (
          call add_session
            (record (disconnect os down) { connect_owner = false; connected = true }))

    up : Session
    up = app.on_connected called
