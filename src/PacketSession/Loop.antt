-- ===== src/PacketSession/Loop.antt =====
-- OnRecv against the frames of the stream.
use multi_thread_test.Common.{
  length, drop, length-append, take-append_length, drop-append_length, drop-drop, get_or-drop, ℕ,
  zero, suc, ◌+◌, ◌-◌, ◌*◌, ◌≤◌, ◌<◌, ◌≡◌, refl, sym, ap, ap₂, ◌∙◌, ◌≢◌, ◌↔◌, inl, inr, none, some,
  List, [], ◌++◌, arith, foldl,
}
use multi_thread_test.PacketSession.{header_size, read_header, on_recv_loop, on_recv}
use multi_thread_test.PacketSession.Frames.{
  claimed, Frames, partial, packet, Stuck, empty_packet, behind, Frames-count, Framing-total,
}

size-read_header :
    (buffer bytes : List ℕ) (offset : ℕ)
    → drop offset buffer ≡ bytes
    → (read_header buffer offset).size ≡ claimed bytes
unfolding read_header
size-read_header buffer bytes offset e = rw (← e) (
    ap₂ (λ lo hi. lo + 256 * hi) (sym (get_or-drop offset offset 0 buffer 0 (omega arith)))
      (sym (get_or-drop (offset + 1) offset 1 buffer 0 refl)))

module _ {ℓ} {S : Type ℓ} (h : S → List ℕ → S) (buffer : List ℕ) where
  -- Where the loop stands: `bytes` are what is left of the buffer.
  record At (offset : ℕ) (bytes : List ℕ) : Type 0 where
    left : drop offset buffer ≡ bytes
    count : offset + length bytes ≡ length buffer

  At-next : {offset : ℕ} (p later : List ℕ) → At offset (p ++ later) → At (offset + length p) later
  At-next {offset} p later a = record {
    left =
        sym (drop-drop (offset + length p) offset (length p) buffer refl)
        ∙ ap (drop (length p)) a.left
        ∙ drop-append_length (length p) p later refl;
    count = omega (arith, a.count, length-append p later);
  }

  -- One round that delivers a packet.
  round :
      (fuel : ℕ) (s : S) (offset : ℕ) (p later : List ℕ)
      → header_size ≤ length (p ++ later)
      → claimed (p ++ later) ≡ length p
      → At offset (p ++ later)
      → on_recv_loop h (suc fuel) s buffer (length buffer) offset
        ≡ on_recv_loop h fuel (h s p) buffer (length buffer) (offset + length p)
  unfolding on_recv_loop
  round fuel s offset p later four c a = ground (
    arith,
    a.count,
    a.left,
    size-read_header buffer (p ++ later) offset a.left,
    length-append p later,
    take-append_length (length p) p later,
  )

  loop-Frames :
      (fuel : ℕ) (s : S) (offset : ℕ) {bytes rest : List ℕ} {ps : List (List ℕ)}
      → Frames bytes ps rest
      → length ps < fuel
      → At offset bytes
      → on_recv_loop h fuel s buffer (length buffer) offset
        ≡ some (foldl h s ps, length buffer - length rest)
  unfolding on_recv_loop
  loop-Frames zero s offset f lt a = absurd (omega arith)
  loop-Frames (suc fuel) s offset (partial {bytes} i) lt a =
      ground (arith, a.count, i, size-read_header buffer bytes offset a.left)
  loop-Frames (suc fuel) s offset (packet p {later} four n c f) lt a =
      round fuel s offset p later four c a
      ∙ loop-Frames fuel (h s p) (offset + length p) f (omega arith) (At-next p later a)

  loop-Stuck :
      (fuel : ℕ) (s : S) (offset : ℕ) {bytes : List ℕ}
      → Stuck bytes
      → At offset bytes
      → on_recv_loop h fuel s buffer (length buffer) offset ≡ none
  unfolding on_recv_loop
  loop-Stuck zero s offset f a = refl
  loop-Stuck (suc fuel) s offset (empty_packet {bytes} four z) a = ground (
    arith,
    a.count,
    size-read_header buffer bytes offset a.left,
    loop-Stuck fuel (h s []) offset (empty_packet four z) a,
  )
  loop-Stuck (suc fuel) s offset (behind p {later} four n c f) a =
      round fuel s offset p later four c a
      ∙ loop-Stuck fuel (h s p) (offset + length p) f (At-next p later a)

-- OnRecv hands over the packets of the stream in order, each whole, and returns the number of the
-- bytes that they take. `length buffer + 1` rounds are enough.
pub on_recv-Frames {ℓ} :
    {S : Type ℓ} (h : S → List ℕ → S) (s : S) {buffer rest : List ℕ} {packets : List (List ℕ)}
    → Frames buffer packets rest
    → on_recv h (length buffer + 1) s buffer ≡ some (foldl h s packets, length buffer - length rest)
unfolding on_recv
on_recv-Frames h s {buffer} f =
    loop-Frames h buffer (length buffer + 1) s 0 f (omega (arith, Frames-count f))
      (record { left = refl; count = omega arith })

-- A header with size 0, behind any number of packets, keeps OnRecv in its loop for ever: no number
-- of rounds is enough.
pub on_recv-Stuck {ℓ} :
    {S : Type ℓ} (h : S → List ℕ → S) (fuel : ℕ) (s : S) {buffer : List ℕ}
    → Stuck buffer
    → on_recv h fuel s buffer ≡ none
unfolding on_recv
on_recv-Stuck h fuel s {buffer} f =
    loop-Stuck h buffer fuel s 0 f (record { left = refl; count = omega arith })

-- OnRecv returns exactly on the streams that are not stuck at an empty packet, and one more round
-- than there are bytes is then enough.
pub on_recv-returns {ℓ} :
    {S : Type ℓ} (h : S → List ℕ → S) (s : S) (buffer : List ℕ)
    → (on_recv h (length buffer + 1) s buffer ≢ none) ↔ ¬ Stuck buffer
on_recv-returns h s buffer = (
  λ returns stuck. returns (on_recv-Stuck h (length buffer + 1) s stuck),
  λ free. elim (Framing-total buffer) [
    | inr stuck ↦ absurd (free stuck)
    | inl (packets, rest, f) ↦ λ e. cc (on_recv-Frames h s f)
  ],
)
