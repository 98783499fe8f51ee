-- ===== src/PacketSession/Tests.antt =====
-- Two packets and the beginning of a third, and a header that claims no bytes.
use multi_thread_test.Common.{ℕ, ◌≡◌, refl, ◌≢◌, ◌↔◌, inr, none, some, List, [], ◌∷◌, ◌++◌, arith}
use multi_thread_test.PacketSession.{on_recv, on_recv_loop, read_header}
use multi_thread_test.PacketSession.Frames.{Frames, partial, packet, Stuck, empty_packet, behind}
use multi_thread_test.PacketSession.Loop.{on_recv-Frames, on_recv-returns}

abbrev collect : List (List ℕ) → List ℕ → List (List ℕ)
collect ps p = ps ++ (p ∷ [])

abbrev first : List ℕ
first = 5 ∷ 0 ∷ 232 ∷ 3 ∷ 9 ∷ []

abbrev second : List ℕ
second = 4 ∷ 0 ∷ 234 ∷ 3 ∷ []

abbrev stream : List ℕ
stream = first ++ (second ++ (6 ∷ 0 ∷ 1 ∷ 1 ∷ 7 ∷ []))

abbrev bad : List ℕ
bad = first ++ (0 ∷ 0 ∷ 232 ∷ 3 ∷ [])

runs : on_recv collect 15 [] stream ≡ some (first ∷ second ∷ [], 9)
unfolding on_recv on_recv_loop read_header
runs = refl

stream-Frames : Frames stream (first ∷ second ∷ []) (6 ∷ 0 ∷ 1 ∷ 1 ∷ 7 ∷ [])
stream-Frames =
    packet first (omega arith) (omega arith) refl
      (packet second (omega arith) (omega arith) refl (partial (inr (omega arith))))

bad-Stuck : Stuck bad
bad-Stuck = behind first (omega arith) (omega arith) refl (empty_packet (omega arith) refl)

on_recv-Frames_example : on_recv collect 15 [] stream ≡ some (first ∷ second ∷ [], 9)
on_recv-Frames_example = on_recv-Frames collect [] stream-Frames

on_recv-returns_example : (on_recv collect 15 [] stream ≢ none) ↔ ¬ Stuck stream
on_recv-returns_example = on_recv-returns collect [] stream
