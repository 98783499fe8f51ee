-- ===== src/Session/Tests.antt =====
-- The theorems on sessions, applied to a session that is connected and has sent nothing.
use multi_thread_test.Common.{
  length, drop, ok, pos, ℕ, ◌≤◌, ◌≡◌, refl, ◌≢◌, inl, true, false, List, [], ◌∷◌, ◌++◌, arith,
  flatten,
}
use multi_thread_test.RecvBuffer.{RecvBuffer, free_size}
use multi_thread_test.RecvBuffer
use multi_thread_test.RecvBuffer.Bounds.{init-IsValid}
use multi_thread_test.RecvBuffer.Stream.{
  contents, Received, init-Received, contents-init, buffer_size-init,
}
use multi_thread_test.PacketSession.Frames.{Frames, partial, packet}
use multi_thread_test.Session.{
  Session, buffer_size, Os, done, error, App, deliver, packet_app, process_recv, process_send,
  process_connect, register_recv, send, send_locked, send_pushed, take_queue, handle_error,
}
use multi_thread_test.Session.Send.{
  posted, KeepsSending, Task, register, drain, post, failing, clear, store, advance, Sending,
  enqueued, advanced, start_on, enqueue, go_on, Reach, here, later,
}
use multi_thread_test.Session.Send.Invariant.{taken}
use multi_thread_test.Session.Send.Guarantees.{
  posted-order, single_request, no_lost_wakeup, send_stalls,
}
use multi_thread_test.Session.Recv.{KeepsReceiving, IsReady, arrived, Receives, finished, receive}
use multi_thread_test.Session.Recv.Once.{at_user, process_recv-Frames}
use multi_thread_test.Session.Recv.Stream.{Handled, Receives-Handled}

abbrev all_done : Os
all_done = record {
  set_reuse_address = true;
  bind_any_address = true;
  connect = error 997;
  disconnect = done;
  recv = error 997;
  send = done;
}

abbrev passive : App
passive = record {
  on_connected = λ s. s;
  on_recv = λ bytes s. ok (s, pos 0);
  on_send = λ n s. s;
  on_disconnected = λ s. s;
}

-- A buffer of ten bytes in place of the 655360 of `init`, for the sending half.
abbrev small : RecvBuffer
small = record { capacity = 10; buffer_size = 1; read_pos = 0; write_pos = 0; buffer = [] }

abbrev up : Session
up = record {
  connected = true;
  recv_buffer = small;
  send_queue = [];
  send_registered = false;
  send_buffers = [];
  connect_owner = false;
  disconnect_owner = false;
  recv_owner = true;
  send_owner = false;
  trace = [];
}

abbrev one : List ℕ
one = 1 ∷ []

abbrev two : List ℕ
two = 2 ∷ []

abbrev three : List ℕ
three = 3 ∷ []

passive-KeepsSending : KeepsSending passive
passive-KeepsSending n s = record {
  same_queue = refl;
  same_registered = refl;
  same_buffers = refl;
  same_owner = refl;
  same_posts = refl;
}

-- The one task of a state goes on.
next :
    {from x : Sending} (os : Os) (task : Task)
    → Reach from x
    → x.tasks ≡ task ∷ []
    → Reach from (advanced os passive 1 [] task [] x)
next os task r e = later r (go_on os passive 1 [] task [] passive-KeepsSending e)

-- Two threads send before the first is at the lock of RegisterSend, and a third before WSASend.
abbrev draining : Sending
draining =
    advanced all_done passive 1 [] drain []
      (advanced all_done passive 1 [] register [] (enqueued (enqueued (start_on up) one) two))

abbrev busy : Sending
busy = enqueued draining three

busy-Reach : Reach (start_on up) busy
unfolding advance send_pushed take_queue
busy-Reach =
    later
      (next all_done drain
        (next all_done register (later (later here (enqueue one)) (enqueue two)) refl) refl)
      (enqueue three)

posted-order_example :
    posted busy.session.trace ++ (taken busy.tasks busy.session ++ busy.session.send_queue)
    ≡ one ∷ two ∷ three ∷ []
unfolding advance send_pushed take_queue
posted-order_example = posted-order (refl, refl, refl, refl, refl) busy-Reach

single_request_example :
    (length busy.tasks ≤ 1)
    × (busy.tasks ≡ [] → (busy.session.send_owner ≡ false) × (busy.session.send_buffers ≡ []))
    × (busy.tasks ≢ [] → busy.session.send_registered ≡ true)
single_request_example = single_request (refl, refl, refl, refl, refl) busy-Reach

no_lost_wakeup_example : length busy.tasks ≡ 1
unfolding advance send_pushed take_queue
no_lost_wakeup_example =
    no_lost_wakeup (refl, refl, refl, refl, refl) busy-Reach refl refl (λ e. cc e)

-- WSASend fails for want of buffers (WSAENOBUFS) after the third Send: its buffer stays in the queue
-- of a session that is up, with nothing under way.
abbrev no_buffers : Os
no_buffers = record all_done { send = error 10055 }

abbrev wakeup_lost : Sending
wakeup_lost = advanced no_buffers passive 1 [] store [] (
    advanced no_buffers passive 1 [] clear [] (
      advanced no_buffers passive 1 [] (failing 10055) []
        (advanced no_buffers passive 1 [] post [] busy)))

wakeup_lost-Reach : Reach (start_on up) wakeup_lost
unfolding advance send_pushed take_queue handle_error
wakeup_lost-Reach =
    next no_buffers store
      (next no_buffers clear
        (next no_buffers (failing 10055) (next no_buffers post busy-Reach refl) refl) refl)
      refl

wakeup_is_lost :
    (wakeup_lost.session.connected ≡ true)
    × (wakeup_lost.session.send_queue ≡ three ∷ [])
    × (wakeup_lost.tasks ≡ [])
unfolding advance send_pushed take_queue handle_error
wakeup_is_lost = (refl, refl, refl)

send_stalls_example :
    let back = process_connect all_done passive (process_send all_done passive 0 busy.session) in
    (send all_done one back ≡ (send_locked one back).1)
    × ((send all_done one back).send_registered ≡ true)
unfolding advance send_pushed take_queue
send_stalls_example =
    send_stalls all_done all_done passive one busy.session (λ t. passive-KeepsSending 0 t) refl

-- A session with the buffer of `init`, which receives a packet and the beginning of the next.
abbrev quiet : Session
quiet = record up { recv_buffer = RecvBuffer.init buffer_size }

abbrev ignore : Session → List ℕ → Session
ignore s p = s

ignore-KeepsReceiving : KeepsReceiving ignore
ignore-KeepsReceiving = record { buffer = λ s p. refl; packets = λ s p. refl }

quiet-IsReady : IsReady quiet.recv_buffer
quiet-IsReady = record {
  valid = init-IsValid buffer_size;
  sized = buffer_size-init buffer_size;
  bytes = rw (contents-init buffer_size) tt;
}

abbrev login : List ℕ
login = 5 ∷ 0 ∷ 232 ∷ 3 ∷ 9 ∷ []

abbrev chunk : List ℕ
chunk = login ++ (6 ∷ 0 ∷ [])

abbrev after : List ℕ
after = chunk ++ drop (length chunk) quiet.recv_buffer.buffer

chunk-Received : Received quiet.recv_buffer chunk after
chunk-Received = init-Received buffer_size chunk (omega arith)

chunk-Frames : Frames (contents quiet.recv_buffer ++ chunk) (login ∷ []) (6 ∷ 0 ∷ [])
chunk-Frames =
    rw (contents-init buffer_size)
      (packet login (omega arith) (omega arith) refl (partial (inl (omega arith))))

process_recv-Frames_example :
    (c : RecvBuffer) × (process_recv all_done (packet_app passive ignore) 7 (arrived quiet after)
      ≡ ok (
          register_recv all_done
            (record (deliver ignore (at_user quiet chunk after) login) { recv_buffer = c })))
    × (contents c ≡ 6 ∷ 0 ∷ [])
    × IsReady c
    × (buffer_size ≤ free_size c)
process_recv-Frames_example =
    process_recv-Frames all_done passive ignore ignore-KeepsReceiving quiet chunk after
      quiet-IsReady (λ e. cc e) chunk-Received (omega arith) chunk-Frames

abbrev received : Session
received = register_recv all_done (record (deliver ignore (at_user quiet chunk after) login) {
  recv_buffer = process_recv-Frames_example.0;
})

received-Receives : Receives passive ignore quiet (chunk ∷ []) received
received-Receives =
    receive all_done chunk after (λ e. cc e) chunk-Received process_recv-Frames_example.1 finished

Receives-Handled_example :
    Handled quiet received (contents quiet.recv_buffer ++ flatten (chunk ∷ []))
unfolding flatten
Receives-Handled_example =
    Receives-Handled passive ignore ignore-KeepsReceiving received-Receives quiet-IsReady
      (rw (contents-init buffer_size) (inl (omega arith))) (omega arith)
