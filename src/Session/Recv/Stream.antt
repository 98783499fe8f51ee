-- ===== src/Session/Recv/Stream.antt =====
-- Any number of receives against the stream as a whole.
use multi_thread_test.Common.{
  Option-cases, length, ok, ℕ, ◌≡◌, refl, sym, ap, ◌∙◌, subst, ◌≢◌, inl, inr, List, [], ◌∷◌, ◌++◌,
  append-nil, append_assoc, arith, flatten, foldl,
}
use multi_thread_test.RecvBuffer.Stream.{contents, Received}
use multi_thread_test.PacketSession.Frames.{
  Incomplete, Frames, partial, Frames-flatten, Frames-append, Framing-total, Stuck, IsBytes,
  IsBytes-append_left, IsBytes-append_right,
}
use multi_thread_test.Session.{
  Session, Os, App, deliver, call, on_recv_packet, packet_app, process_recv, register_recv,
  receiving, failure, handle_error, disconnect, register_disconnect,
}
use multi_thread_test.Session.Recv.{
  delivered, KeepsReceiving, IsReady, arrived, Receives, finished, receive,
}
use multi_thread_test.Session.Recv.Once.{at_user, process_recv-Frames, process_recv-Stuck}

-- RegisterRecv leaves the buffer and delivers nothing.
abbrev SameReceiving : Session → Session → Type 0
SameReceiving s t = (t.recv_buffer ≡ s.recv_buffer) × (delivered t.trace ≡ delivered s.trace)

disconnect-SameReceiving : (os : Os) (s : Session) → SameReceiving s (disconnect os s)
unfolding disconnect register_disconnect
disconnect-SameReceiving os s = ground arith

register_recv-SameReceiving : (os : Os) (s : Session) → SameReceiving s (register_recv os s)
unfolding register_recv handle_error
register_recv-SameReceiving os s = elim (Option-cases (failure os.recv)) [
  | inl e ↦ ground arith
  | inr (code, e) ↦ ground (arith, disconnect-SameReceiving os (receiving s))
]

foldl-delivered :
    (on_packet : Session → List ℕ → Session)
    → KeepsReceiving on_packet
    → (s : Session) (packets : List (List ℕ))
    → delivered (foldl (deliver on_packet) s packets).trace ≡ delivered s.trace ++ packets
foldl-delivered on_packet keeps s [] = sym (append-nil (delivered s.trace))
foldl-delivered on_packet keeps s (p ∷ ps) =
    foldl-delivered on_packet keeps (deliver on_packet s p) ps
    ∙ ap (λ (l : List (List ℕ)). l ++ ps) (keeps.packets (call (on_recv_packet p) s) p)
    ∙ append_assoc (delivered s.trace) (p ∷ []) ps

-- The session after one receive, however it is written.
record After (s t : Session) (packets : List (List ℕ)) (rest : List ℕ) : Type 0 where
  ready : IsReady t.recv_buffer
  kept : contents t.recv_buffer ≡ rest
  handed : delivered t.trace ≡ delivered s.trace ++ packets

module _ (app : App) (on_packet : Session → List ℕ → Session) (keeps : KeepsReceiving on_packet)
    (s t : Session) (os : Os) (chunk after : List ℕ) (ready : IsReady s.recv_buffer)
    (some_bytes : chunk ≢ []) (received : Received s.recv_buffer chunk after)
    (bytes : IsBytes chunk)
    (returned : process_recv os (packet_app app on_packet) (length chunk) (arrived s after)
      ≡ ok t) where
  receive-After :
      {packets : List (List ℕ)} {rest : List ℕ}
      → Frames (contents s.recv_buffer ++ chunk) packets rest
      → After s t packets rest
  receive-After {packets} f =
      let (c, equation, kept, good, room) =
        process_recv-Frames os app on_packet keeps s chunk after ready some_bytes received bytes
          f in
      let handled = foldl (deliver on_packet) (at_user s chunk after) packets in
      let same = register_recv-SameReceiving os (record handled { recv_buffer = c }) in
      let e : t ≡ register_recv os (record handled { recv_buffer = c }) = cc equation in
      let buffer : t.recv_buffer ≡ c = ap (λ (x : Session). x.recv_buffer) e ∙ same.0 in
      record {
        ready = subst IsReady (sym buffer) good;
        kept = ap contents buffer ∙ kept;
        handed =
            ap (λ (x : Session). delivered x.trace) e
            ∙ same.1
            ∙ foldl-delivered on_packet keeps (at_user s chunk after) packets;
      }

  receive-not-Stuck : ¬ Stuck (contents s.recv_buffer ++ chunk)
  receive-not-Stuck stuck =
      cc (process_recv-Stuck os app on_packet keeps s chunk after ready some_bytes received stuck)

-- What a run of receives has done, for the bytes `stream` that were held or came in.
pub record Handled (s u : Session) (stream : List ℕ) : Type 0 where
  pub packets : List (List ℕ)
  pub rest : List ℕ
  pub frames : Frames stream packets rest
  pub handed : delivered u.trace ≡ delivered s.trace ++ packets
  pub kept : contents u.recv_buffer ≡ rest

Handled-more :
    (s t u : Session) (chunk more : List ℕ) {packets : List (List ℕ)} {rest : List ℕ}
    → Frames (contents s.recv_buffer ++ chunk) packets rest
    → After s t packets rest
    → Handled t u (contents t.recv_buffer ++ more)
    → Handled s u (contents s.recv_buffer ++ (chunk ++ more))
Handled-more s t u chunk more {packets} {rest} f a h = record {
  packets = packets ++ h.packets;
  rest = h.rest;
  frames =
      subst (λ (l : List ℕ). Frames l (packets ++ h.packets) h.rest)
        (append_assoc (contents s.recv_buffer) chunk more)
        (Frames-append more f
          (subst (λ (l : List ℕ). Frames (l ++ more) h.packets h.rest) a.kept h.frames));
  handed =
      h.handed
      ∙ ap (λ (l : List (List ℕ)). l ++ h.packets) a.handed
      ∙ append_assoc (delivered s.trace) packets h.packets;
  kept = h.kept;
}

module _ (app : App) (on_packet : Session → List ℕ → Session)
    (keeps : KeepsReceiving on_packet) where
  -- However the stream is cut into receives of at least one byte, the packets handed to
  -- OnRecvPacket are those of the whole stream (the bytes held at the start included), and what is
  -- still held is the rest of the stream. For every run of receives that have returned, on a ready
  -- buffer of bytes that holds less than a packet, where OnRecvPacket leaves the buffer alone.
  pub Receives-Handled :
      {s u : Session} {chunks : List (List ℕ)}
      → Receives app on_packet s chunks u
      → IsReady s.recv_buffer
      → Incomplete (contents s.recv_buffer)
      → IsBytes (flatten chunks)
      → Handled s u (contents s.recv_buffer ++ flatten chunks)
  unfolding flatten
  Receives-Handled (finished {s}) ready i b = record {
    packets = [];
    rest = contents s.recv_buffer;
    frames =
        subst (λ (l : List ℕ). Frames l [] (contents s.recv_buffer))
          (sym (append-nil (contents s.recv_buffer))) (partial i);
    handed = sym (append-nil (delivered s.trace));
    kept = refl;
  }
  Receives-Handled (receive {s} {t} {u} {chunks} os chunk after ne got e more) ready i b =
      elim (Framing-total (contents s.recv_buffer ++ chunk)) [
        | inr stuck ↦
            absurd
              (receive-not-Stuck app on_packet keeps s t os chunk after ready ne got here e stuck)
        | inl (packets, rest, f) ↦
            (let a = receive-After app on_packet keeps s t os chunk after ready ne got here e f in
              Handled-more s t u chunk (flatten chunks) f a (
                Receives-Handled more a.ready (subst Incomplete (sym a.kept) (Frames-flatten f).1)
                  (IsBytes-append_right chunk (flatten chunks) b)))
      ]
    where
      here : IsBytes chunk
      here = IsBytes-append_left chunk (flatten chunks) b
