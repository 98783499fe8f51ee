-- ===== src/Session.antt =====
-- JobTimer_소스코드 (1)/ServerCore/Session.h and Session.cpp: a connection. A method runs as one
-- step here; the steps of Send, RegisterSend and ProcessSend between which other threads run are
-- those of `Send`. The operating system's answers and the user's code are
-- arguments. Every call of the outside is recorded in `trace`, the newest first.
pub mod Send
pub mod Recv
pub mod Tests
use multi_thread_test.Common.{
  ltb, ◌==◌, if◌then◌else◌, length, Result, ℤ, hang, ok, fail, pos, negsuc, ℕ, ◌+◌, Bool, true,
  false, ◌||◌, not, Option, none, some, List, [], ◌∷◌, ◌++◌, ◌>>=◌, ◌>>◌,
}
use multi_thread_test.RecvBuffer.{RecvBuffer, data_size, free_size, clean, on_read, on_write}
use multi_thread_test.RecvBuffer
use multi_thread_test.PacketSession
use multi_thread_test.RecvBuffer.Stream.{contents}

pub data ServiceType : Type 0 where
  server client : ServiceType

pub data EventType : Type 0 where
  connect_event disconnect_event accept_event recv_event send_event : EventType

-- Calls of the operating system, of the service and of the user's code, with what they are given.
pub data Call : Type 0 where
  connect_ex disconnect_ex : Call
  wsa_recv : ℕ → Call
  wsa_send : List (List ℕ) → Call
  add_session release_session : Call
  on_connected on_disconnected : Call
  on_recv_packet : List ℕ → Call

-- The events' `owner` fields are set while a request is with the operating system. A send buffer is
-- the bytes that it was closed with.
pub record Session : Type 0 where
  pub connected : Bool
  pub recv_buffer : RecvBuffer
  pub send_queue : List (List ℕ)
  pub send_registered : Bool
  pub send_buffers : List (List ℕ)  -- _sendEvent.sendBuffers
  pub connect_owner : Bool
  pub disconnect_owner : Bool
  pub recv_owner : Bool
  pub send_owner : Bool
  pub trace : List Call

-- BUFFER_SIZE
abbrev pub buffer_size : ℕ
buffer_size = 0x10000

-- Session::Session
pub init : Session
unfolding RecvBuffer.init
init = record {
  connected = false;
  recv_buffer = RecvBuffer.init buffer_size;
  send_queue = [];
  send_registered = false;
  send_buffers = [];
  connect_owner = false;
  disconnect_owner = false;
  recv_owner = false;
  send_owner = false;
  trace = [];
}

-- What a request answers: it is done at once, or WSAGetLastError gives a code.
pub data Answer : Type 0 where
  done : Answer
  error : ℕ → Answer

-- The values of winsock2.h.
abbrev pub wsa_io_pending : ℕ
wsa_io_pending = 997

abbrev pub wsaeconnaborted : ℕ
wsaeconnaborted = 10053

abbrev pub wsaeconnreset : ℕ
wsaeconnreset = 10054

-- The code of a request that will not complete.
abbrev pub failure : Answer → Option ℕ
failure done = none
failure (error code) = if code == wsa_io_pending then none else some code

-- The answers to the requests of one method; no method makes one of them twice.
pub record Os : Type 0 where
  pub set_reuse_address : Bool
  pub bind_any_address : Bool
  pub connect : Answer
  pub disconnect : Answer
  pub recv : Answer
  pub send : Answer

abbrev pub call : Call → Session → Session
call c s = record s { trace = c ∷ s.trace }

unfoldable pub register_disconnect : Os → Session → Bool × Session
register_disconnect os s =
    let s' = call disconnect_ex (record s { disconnect_owner = true }) in
    elim (failure os.disconnect) [
      | none ↦ (true, s')
      | some code ↦ (false, record s' { disconnect_owner = false })
    ]

-- `_connected.exchange(false)`
unfoldable pub disconnect : Os → Session → Session
disconnect os s =
    if s.connected then (register_disconnect os (record s { connected = false })).1 else s

unfoldable pub handle_error : Os → ℕ → Session → Session
handle_error os code s =
    if code == wsaeconnreset || code == wsaeconnaborted then disconnect os s else s

unfoldable pub register_connect : Os → ServiceType → Session → Bool × Session
register_connect os service s = if s.connected then (false, s) else elim service [
  | server ↦ (false, s)
  | client ↦
      if not os.set_reuse_address
      then (false, s)
      else if not os.bind_any_address
      then (false, s)
      else let s' = call connect_ex (record s { connect_owner = true }) in
        elim (failure os.connect) [
          | none ↦ (true, s')
          | some code ↦ (false, record s' { connect_owner = false })
        ]
]

-- The session at its call of WSARecv, into all that is free.
abbrev pub receiving : Session → Session
receiving s = call (wsa_recv (free_size s.recv_buffer)) (record s { recv_owner = true })

unfoldable pub register_recv : Os → Session → Session
register_recv os s =
    if s.connected
    then elim (failure os.recv) [
      | none ↦ receiving s
      | some code ↦ record (handle_error os code (receiving s)) { recv_owner = false }
    ]
    else s

-- The parts of RegisterSend, between which other threads run: the owner is set, the queue is moved
-- into the event under the lock, and WSASend is called.
abbrev pub own_send : Session → Session
own_send s = record s { send_owner = true }

unfoldable pub take_queue : Session → Session
take_queue s = record s { send_queue = []; send_buffers = s.send_buffers ++ s.send_queue }

abbrev pub hand_over : Session → Session
hand_over s = call (wsa_send s.send_buffers) s

-- What RegisterSend gives up when WSASend has failed, and ProcessSend when it has completed.
abbrev pub clear_send : Session → Session
clear_send s = record s { send_owner = false; send_buffers = [] }

-- `_sendRegistered.store(false)`
abbrev pub unregister : Session → Session
unregister s = record s { send_registered = false }

-- The session at its call of WSASend: everything that is queued goes to the request.
abbrev pub posting : Session → Session
posting s = hand_over (take_queue (own_send s))

-- RegisterSend where no other thread runs between its parts.
unfoldable pub register_send : Os → Session → Session
register_send os s =
    if s.connected
    then elim (failure os.send) [
      | none ↦ posting s
      | some code ↦ unregister (clear_send (handle_error os code (posting s)))
    ]
    else s

-- The part of ProcessSend under the lock.
unfoldable pub send_next : Os → Session → Session
send_next os s = elim s.send_queue [ [] ↦ unregister s | _ ∷ _ ↦ register_send os s ]

-- The part of Send under the lock: whether RegisterSend is to be called.
unfoldable pub send_pushed : List ℕ → Session → Bool × Session
send_pushed buffer s = (
  not s.send_registered,
  record s { send_queue = s.send_queue ++ (buffer ∷ []); send_registered = true },
)

-- Send up to the end of the lock.
unfoldable pub send_locked : List ℕ → Session → Bool × Session
send_locked buffer s = if s.connected then send_pushed buffer s else (false, s)

unfoldable pub send : Os → List ℕ → Session → Session
send os buffer s =
    let (register, s') = send_locked buffer s in if register then register_send os s' else s'

-- The virtual functions.
pub record App : Type 0 where
  pub on_connected : Session → Session
  pub on_recv : List ℕ → Session → Result (Session × ℤ)
  pub on_send : ℕ → Session → Session
  pub on_disconnected : Session → Session

-- A call of OnRecvPacket.
abbrev pub deliver : (Session → List ℕ → Session) → Session → List ℕ → Session
deliver on_packet s p = on_packet (call (on_recv_packet p) s) p

-- PacketSession's OnRecv, over the user's OnRecvPacket: one more round than there are bytes, or the
-- loop does not end.
unfoldable pub packet_on_recv :
    (Session → List ℕ → Session) → List ℕ → Session → Result (Session × ℤ)
packet_on_recv on_packet bytes s =
    elim (PacketSession.on_recv (deliver on_packet) (length bytes + 1) s bytes) [
      | none ↦ fail hang
      | some (t, n) ↦ ok (t, pos n)
    ]

abbrev pub packet_app : App → (Session → List ℕ → Session) → App
packet_app app on_packet = record app { on_recv = packet_on_recv on_packet }

module _ (os : Os) (app : App) where
  unfoldable pub process_connect : Session → Session
  process_connect s = register_recv os (
      app.on_connected (
        call Call.on_connected
          (call add_session (record s { connect_owner = false; connected = true }))))

  unfoldable pub process_disconnect : Session → Session
  process_disconnect s =
      call release_session
        (app.on_disconnected (call Call.on_disconnected (record s { disconnect_owner = false })))

  -- What follows OnRecv, for the bytes that it says it has used.
  unfoldable pub finish_recv : ℕ → Session × ℤ → Result Session
  finish_recv size (s, negsuc n) = ok (disconnect os s)
  finish_recv size (s, pos n) =
      if ltb size n
      then ok (disconnect os s)
      else (let (accepted, b) = on_read s.recv_buffer n in
          if accepted
          then (do c ← clean b; ok (register_recv os (record s { recv_buffer = c })))
          else ok (disconnect os (record s { recv_buffer = b })))

  unfoldable pub process_recv : ℕ → Session → Result Session
  process_recv n s =
      let s' = record s { recv_owner = false } in
      if n == 0
      then ok (disconnect os s')
      else (let (accepted, b) = on_write s'.recv_buffer n in
          let s'' = record s' { recv_buffer = b } in
          if accepted
          then (do r ← app.on_recv (contents b) s''; finish_recv (data_size b) r)
          else ok (disconnect os s''))

  unfoldable pub process_send : ℕ → Session → Session
  process_send n s =
      let s' = clear_send s in if n == 0 then disconnect os s' else send_next os (app.on_send n s')

  -- EventType; Accept is the listener's.
  unfoldable pub dispatch : EventType → ℕ → Session → Result Session
  dispatch connect_event n s = ok (process_connect s)
  dispatch disconnect_event n s = ok (process_disconnect s)
  dispatch recv_event n s = process_recv n s
  dispatch send_event n s = ok (process_send n s)
  dispatch accept_event n s = ok s
