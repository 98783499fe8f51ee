-- ===== src/Session/Recv.antt =====
-- The receiving half of a session whose packets PacketSession cuts out of the stream: one receive,
-- and any number of them.
pub mod Once
pub mod Stream
use multi_thread_test.Common.{length, ok, ℕ, ◌≡◌, ◌≢◌, List, [], ◌∷◌, ◌++◌}
use multi_thread_test.RecvBuffer.{RecvBuffer}
use multi_thread_test.RecvBuffer.Bounds.{IsValid}
use multi_thread_test.RecvBuffer.Stream.{contents, Received}
use multi_thread_test.PacketSession.Frames.{IsBytes}
use multi_thread_test.Session.{
  Session, Call, on_recv_packet, buffer_size, Os, App, packet_app, process_recv,
}

-- The packets that OnRecvPacket has been given, in order.
abbrev pub delivered : List Call → List (List ℕ)
delivered [] = []
delivered (on_recv_packet p ∷ trace) = delivered trace ++ (p ∷ [])
delivered (_ ∷ trace) = delivered trace

-- OnRecvPacket neither touches the receive buffer nor delivers packets itself.
pub record KeepsReceiving (on_packet : Session → List ℕ → Session) : Type 0 where
  pub buffer : (s : Session) (p : List ℕ) → (on_packet s p).recv_buffer ≡ s.recv_buffer
  pub packets : (s : Session) (p : List ℕ) → delivered (on_packet s p).trace ≡ delivered s.trace

-- A session's receive buffer between two receives.
pub record IsReady (b : RecvBuffer) : Type 0 where
  pub valid : IsValid b
  pub sized : b.buffer_size ≡ buffer_size
  pub bytes : IsBytes (contents b)

-- The session when a receive completes for which the operating system has left `after`.
abbrev pub arrived : Session → List ℕ → Session
arrived s after = record s { recv_buffer = record s.recv_buffer { buffer = after } }

-- A run of completed receives, each of at least one byte, and their chunks of the stream.
pub data Receives (app : App) (on_packet : Session → List ℕ → Session)
    : Session → List (List ℕ) → Session → Type 0 where
  finished : {s : Session} → Receives app on_packet s [] s
  receive :
      {s t u : Session} {chunks : List (List ℕ)} (os : Os) (chunk after : List ℕ)
      → chunk ≢ []
      → Received s.recv_buffer chunk after
      → process_recv os (packet_app app on_packet) (length chunk) (arrived s after) ≡ ok t
      → Receives app on_packet t chunks u
      → Receives app on_packet s (chunk ∷ chunks) u
