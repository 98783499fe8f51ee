-- ===== src/PacketSession.antt =====
-- PacketHeader and PacketSession of JobTimer_소스코드 (1)/ServerCore/Session.h, and
-- PacketSession::OnRecv of Session.cpp: how a byte stream is cut into packets. The virtual call
-- OnRecvPacket is a function on a state that the user's code keeps.
pub mod Frames
pub mod Loop
pub mod Tests
use multi_thread_test.Common.{
  ltb, if◌then◌else◌, length, get_or, take, drop, ℕ, zero, suc, ◌+◌, ◌-◌, ◌*◌, Option, none, some,
  List,
}

pub record PacketHeader : Type 0 where
  pub size : ℕ
  pub id : ℕ

-- `sizeof(PacketHeader)`
abbrev pub header_size : ℕ
header_size = 4

-- A uint16 in memory, low byte first.
abbrev pub u16_at : List ℕ → ℕ → ℕ
u16_at buffer offset = get_or buffer offset 0 + 256 * get_or buffer (offset + 1) 0

-- `*(reinterpret_cast<PacketHeader*>(&buffer[pos]))`
unfoldable pub read_header : List ℕ → ℕ → PacketHeader
read_header buffer offset = record { size = u16_at buffer offset; id = u16_at buffer (offset + 2) }

module _ {ℓ} {S : Type ℓ} (on_recv_packet : S → List ℕ → S) where
  -- The loop of OnRecv over `buffer[0..len)`; `none` is a loop that has not ended on its fuel.
  pub on_recv_loop : ℕ → S → List ℕ → ℕ → ℕ → Option (S × ℕ)
  on_recv_loop zero s buffer len process_len = none
  on_recv_loop (suc fuel) s buffer len process_len =
      let data_size = len - process_len in
      let header = read_header buffer process_len in
      let rest =
        on_recv_loop fuel (on_recv_packet s (take header.size (drop process_len buffer))) buffer len
          (process_len + header.size) in
      if ltb data_size header_size
      then some (s, process_len)
      else if ltb data_size header.size
      then some (s, process_len)
      else rest

  -- The state after the packets, and the returned number of bytes.
  unfoldable pub on_recv : ℕ → S → List ℕ → Option (S × ℕ)
  on_recv fuel s buffer = on_recv_loop fuel s buffer (length buffer) 0
