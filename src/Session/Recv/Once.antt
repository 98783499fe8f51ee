-- ===== src/Session/Recv/Once.antt =====
-- One receive.
use multi_thread_test.Common.{
  ◌==◌, le→ltb, length, drop, hang, ok, fail, pos, ℕ, ◌+◌, ◌-◌, ◌*◌, ◌≤◌, ◌<◌, ◌≡◌, refl, sym, ap,
  ◌∙◌, subst, ◌≢◌, true, false, List, [], ◌∷◌, ◌++◌, arith, foldl,
}
use multi_thread_test.RecvBuffer.{RecvBuffer, data_size, free_size, clean, on_read, on_write}
use multi_thread_test.RecvBuffer.Bounds.{IsValid, counts-IsValid, clean_defined}
use multi_thread_test.RecvBuffer.Stream.{
  contents, Received, length-contents, on_write-Received, on_read-contents, clean-contents,
}
use multi_thread_test.PacketSession.Frames.{
  Frames, Stuck, Frames-IsBytes, Frames-drop, IsBytes, IsBytes-append,
}
use multi_thread_test.PacketSession.Loop.{on_recv-Frames, on_recv-Stuck}
use multi_thread_test.Session.{
  Session, buffer_size, Os, App, packet_on_recv, packet_app, process_recv, finish_recv,
  register_recv, deliver, call, on_recv_packet,
}
use multi_thread_test.Session.Recv.{KeepsReceiving, IsReady, arrived}

buffer_size-on_write : (b : RecvBuffer) (n : ℕ) → (on_write b n).1.buffer_size ≡ b.buffer_size
unfolding on_write
buffer_size-on_write b n = ground arith

buffer_size-on_read : (b : RecvBuffer) (n : ℕ) → (on_read b n).1.buffer_size ≡ b.buffer_size
unfolding on_read
buffer_size-on_read b n = ground arith

buffer_size-clean : (b c : RecvBuffer) → clean b ≡ ok c → c.buffer_size ≡ b.buffer_size
unfolding clean
buffer_size-clean b c e = ground arith

-- What `OnRead` and `Clean` make of a buffer whose first `n` bytes are used up.
record Cleaned (b : RecvBuffer) (n : ℕ) (rest : List ℕ) : Type 0 where
  c : RecvBuffer
  accepted : (on_read b n).0 ≡ true
  cleaned : clean (on_read b n).1 ≡ ok c
  left : contents c ≡ rest
  ready : IsValid c
  sized : c.buffer_size ≡ b.buffer_size
  room : b.buffer_size ≤ free_size c

use_up :
    (b : RecvBuffer) (n : ℕ) (rest : List ℕ)
    → IsValid b
    → n ≤ data_size b
    → drop n (contents b) ≡ rest
    → 2 * length rest ≤ 9 * b.buffer_size
    → Cleaned b n rest
use_up b n rest v le e small = record {
  c = cleaned.0;
  accepted = read.0;
  cleaned = cleaned.1;
  left = clean-contents b' cleaned.0 v' cleaned.1 ∙ read.1 ∙ e;
  ready = (counts-IsValid b' 0 v').2 cleaned.0 cleaned.1;
  sized = buffer_size-clean b' cleaned.0 cleaned.1 ∙ buffer_size-on_read b n;
  room = omega (arith, cleaned.2, buffer_size-on_read b n);
}
  where
    b' : RecvBuffer
    b' = (on_read b n).1

    v' : IsValid b'
    v' = (counts-IsValid b n v).0

    read : ((on_read b n).0 ≡ true) × (contents b' ≡ drop n (contents b))
    read = on_read-contents b n v le

    held : data_size b' ≡ length rest
    held = sym (length-contents b' v') ∙ ap length (read.1 ∙ e)

    cleaned : (c : RecvBuffer) × (clean b' ≡ ok c) × (b'.buffer_size ≤ free_size c)
    cleaned = clean_defined b' v' (omega (arith, held, buffer_size-on_read b n))

length-ne-zero {ℓ} : {A : Type ℓ} (xs : List A) → xs ≢ [] → (length xs == 0) ≡ false
length-ne-zero [] ne = absurd (ne refl)
length-ne-zero (x ∷ xs) ne = ground arith

foldl-buffer :
    (on_packet : Session → List ℕ → Session)
    → KeepsReceiving on_packet
    → (s : Session) (packets : List (List ℕ))
    → (foldl (deliver on_packet) s packets).recv_buffer ≡ s.recv_buffer
foldl-buffer on_packet keeps s [] = refl
foldl-buffer on_packet keeps s (p ∷ ps) =
    foldl-buffer on_packet keeps (deliver on_packet s p) ps
    ∙ keeps.buffer (call (on_recv_packet p) s) p

-- The rest of ProcessRecv, on a session that has handled its packets.
finish_recv-ok :
    (os : Os) (app : App) (t : Session) (b : RecvBuffer) (size n : ℕ) (rest : List ℕ)
    → t.recv_buffer ≡ b
    → n ≤ size
    → (u : Cleaned b n rest)
    → finish_recv os app size (t, pos n) ≡ ok (register_recv os (record t { recv_buffer = u.c }))
unfolding finish_recv
finish_recv-ok os app t b size n rest e le u =
    rw (le→ltb _ _ le) (ground (arith, e, u.accepted, u.cleaned))

packet_on_recv-Stuck :
    (on_packet : Session → List ℕ → Session) (s : Session) {bytes : List ℕ}
    → Stuck bytes
    → packet_on_recv on_packet bytes s ≡ fail hang
unfolding packet_on_recv
packet_on_recv-Stuck on_packet s {bytes} stuck =
    rw (on_recv-Stuck (deliver on_packet) (length bytes + 1) s stuck, packet_on_recv)

-- The session when its user's code runs.
abbrev pub at_user : Session → List ℕ → List ℕ → Session
at_user s chunk after = record (arrived s after) {
  recv_owner = false;
  recv_buffer = (on_write (record s.recv_buffer { buffer = after }) (length chunk)).1;
}

module _ (os : Os) (app : App) (on_packet : Session → List ℕ → Session)
    (keeps : KeepsReceiving on_packet) (s : Session) (chunk after : List ℕ) where
  process_recv-eq :
      (t : Session) (n : ℕ)
      → chunk ≢ []
      → (on_write (record s.recv_buffer { buffer = after }) (length chunk)).0 ≡ true
      → packet_on_recv on_packet
          (contents (at_user s chunk after).recv_buffer)
          (at_user s chunk after)
        ≡ ok (t, pos n)
      → process_recv os (packet_app app on_packet) (length chunk) (arrived s after)
        ≡ finish_recv os
            (packet_app app on_packet)
            (data_size (at_user s chunk after).recv_buffer)
            (t, pos n)
  unfolding process_recv
  process_recv-eq t n some_bytes accepted handled =
      rw (length-ne-zero chunk some_bytes, accepted, handled)

  -- A header of size 0 in the stream: ProcessRecv does not return.
  pub process_recv-Stuck :
      IsReady s.recv_buffer
      → chunk ≢ []
      → Received s.recv_buffer chunk after
      → Stuck (contents s.recv_buffer ++ chunk)
      → process_recv os (packet_app app on_packet) (length chunk) (arrived s after) ≡ fail hang
  unfolding process_recv
  process_recv-Stuck ready some_bytes received stuck =
      rw (length-ne-zero chunk some_bytes, written.0, hangs)
    where
      written :
          ((on_write (record s.recv_buffer { buffer = after }) (length chunk)).0 ≡ true)
          × (contents (at_user s chunk after).recv_buffer ≡ contents s.recv_buffer ++ chunk)
      written = on_write-Received s.recv_buffer chunk after ready.valid received

      hangs :
          packet_on_recv on_packet
            (contents (at_user s chunk after).recv_buffer)
            (at_user s chunk after)
          ≡ fail hang
      hangs =
          packet_on_recv-Stuck on_packet (at_user s chunk after) (subst Stuck (sym written.1) stuck)

  module _ {rest : List ℕ} {packets : List (List ℕ)} (ready : IsReady s.recv_buffer)
      (some_bytes : chunk ≢ []) (received : Received s.recv_buffer chunk after)
      (bytes : IsBytes chunk) (frames : Frames (contents s.recv_buffer ++ chunk) packets rest) where
    b : RecvBuffer
    b = (at_user s chunk after).recv_buffer

    written :
        ((on_write (record s.recv_buffer { buffer = after }) (length chunk)).0 ≡ true)
        × (contents b ≡ contents s.recv_buffer ++ chunk)
    unfolding b
    written = on_write-Received s.recv_buffer chunk after ready.valid received

    framed : Frames (contents b) packets rest
    framed = subst (λ (l : List ℕ). Frames l packets rest) (sym written.1) frames

    short : IsBytes rest × (length rest < 0x10000)
    short = Frames-IsBytes frames (IsBytes-append (contents s.recv_buffer) chunk ready.bytes bytes)

    b-IsValid : IsValid b
    unfolding b
    b-IsValid = (counts-IsValid (record s.recv_buffer { buffer = after }) (length chunk) v).1
      where
        v : IsValid (record s.recv_buffer { buffer = after })
        v = ground (arith, received.same_length, ready.valid)

    b-sized : b.buffer_size ≡ buffer_size
    unfolding b
    b-sized =
        buffer_size-on_write (record s.recv_buffer { buffer = after }) (length chunk) ∙ ready.sized

    handled :
        packet_on_recv on_packet (contents b) (at_user s chunk after)
        ≡ ok (
          foldl (deliver on_packet) (at_user s chunk after) packets,
          pos (length (contents b) - length rest),
        )
    unfolding packet_on_recv
    handled = rw (on_recv-Frames (deliver on_packet) (at_user s chunk after) framed, packet_on_recv)

    use_buffer : Cleaned b (length (contents b) - length rest) rest
    use_buffer =
        use_up b (length (contents b) - length rest) rest b-IsValid
          (omega (arith, length-contents b b-IsValid)) (Frames-drop framed)
          (omega (arith, b-sized, short.1))

    -- A completed receive of at least one byte, on a ready buffer and where the held bytes and the
    -- new ones are packets and an incomplete rest, with no header of size 0 on the way (on which
    -- OnRecv does not end), hands over these packets in order, keeps exactly the rest, leaves a
    -- full buffer_size free, keeps the buffer ready and calls RegisterRecv. For an OnRecvPacket
    -- that leaves the receive buffer alone.
    pub process_recv-Frames :
        (c : RecvBuffer) × (process_recv os
            (packet_app app on_packet)
            (length chunk)
            (arrived s after)
          ≡ ok (
              register_recv os (record (foldl (deliver on_packet) (at_user s chunk after) packets) {
                recv_buffer = c;
              })))
        × (contents c ≡ rest)
        × IsReady c
        × (buffer_size ≤ free_size c)
    unfolding b
    process_recv-Frames = (
      use_buffer.c,
      process_recv-eq (foldl (deliver on_packet) (at_user s chunk after) packets)
            (length (contents b) - length rest) some_bytes written.0 handled
          ∙ finish_recv-ok os (packet_app app on_packet)
              (foldl (deliver on_packet) (at_user s chunk after) packets) b (data_size b)
              (length (contents b) - length rest) rest
              (foldl-buffer on_packet keeps (at_user s chunk after) packets)
              (omega (arith, length-contents b b-IsValid)) use_buffer,
      use_buffer.left,
      record {
        valid = use_buffer.ready;
        sized = use_buffer.sized ∙ b-sized;
        bytes = subst IsBytes (sym use_buffer.left) short.0;
      },
      omega (arith, use_buffer.room, b-sized),
    )
