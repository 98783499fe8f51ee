-- ===== src/Game/Buffers.antt =====
-- JobTimer_소스코드 (1)/GameServer/ClientPacketHandler.h: MakeSendBuffer for packets of every size.
use multi_thread_test.Common.{
  leb, if◌then◌else◌, Result, crash, undefined, ok, fail, ℕ, ◌+◌, ◌%◌, ◌≤◌, ◌<◌, ◌≡◌, ◌⊎◌, List, [],
  ◌∷◌, ◌++◌, arith,
}
use multi_thread_test.Game.{Protobuf, World, s_chat, make_send_buffer, handle_c_chat, broadcast}

-- What becomes of a packet of `size` bytes.
abbrev pub outcome : (size : ℕ) → Result ℕ
outcome size =
    if leb size 5996
    then ok (size + 4)
    else if leb 65532 (size % 65536)
    then fail undefined
    else fail crash

make_send_buffer-outcome : (size : ℕ) → make_send_buffer size ≡ outcome size
unfolding make_send_buffer
make_send_buffer-outcome size = ground arith

-- A chat whose answer has at most 5996 bytes is handed to the room, behind the jobs that wait; any
-- longer one ends in a crash, or in a write outside of its buffer.
pub handle_c_chat-outcome :
    (pb : Protobuf) (msg : List ℕ) (w : World)
    → (pb.byte_size (s_chat msg) ≤ 5996
        → handle_c_chat pb msg w ≡ ok (record w { jobs = w.jobs ++ (broadcast (s_chat msg) ∷ []) }))
      × (5996 < pb.byte_size (s_chat msg)
          → (handle_c_chat pb msg w ≡ fail crash) ⊎ (handle_c_chat pb msg w ≡ fail undefined))
unfolding handle_c_chat
handle_c_chat-outcome pb msg w =
    let made = make_send_buffer-outcome (pb.byte_size (s_chat msg)) in
    (λ fits. rw made (ground arith), λ too_long. rw made (ground arith))
