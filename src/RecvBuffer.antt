-- ===== src/RecvBuffer.antt =====
-- JobTimer_소스코드 (1)/ServerCore/RecvBuffer.h and RecvBuffer.cpp: the buffer that a session
-- receives into. The int32 positions are numbers. The counts that the callers pass are not
-- negative: `OnWrite` gets the byte count of a completion, and `ProcessRecv` tests the sign of what
-- it hands to `OnRead`; OnRead and OnWrite of any int32 stand beside.
pub mod Bounds
pub mod Stream
pub mod Tests
use multi_thread_test.Common.{
  ltb, leb, ◌==◌, if◌then◌else◌, length, take, drop, replicate, Result, ℤ, pos, negsuc, require, ok,
  ℕ, ◌+◌, ◌-◌, ◌*◌, Bool, true, false, List, ◌++◌, ◌>>=◌, ◌>>◌,
}

abbrev pub buffer_count : ℕ
buffer_count = 10

pub record RecvBuffer : Type 0 where
  pub capacity : ℕ
  pub buffer_size : ℕ
  pub read_pos : ℕ
  pub write_pos : ℕ
  pub buffer : List ℕ

unfoldable pub init : ℕ → RecvBuffer
init buffer_size = record {
  capacity = buffer_size * buffer_count;
  buffer_size = buffer_size;
  read_pos = 0;
  write_pos = 0;
  buffer = replicate (buffer_size * buffer_count) 0;
}

abbrev pub data_size : RecvBuffer → ℕ
data_size b = b.write_pos - b.read_pos

abbrev pub free_size : RecvBuffer → ℕ
free_size b = b.capacity - b.write_pos

-- `memcpy(&buf[0], &buf[src], n)`: undefined where the ranges overlap or leave the array.
pub memcpy_to_front : List ℕ → ℕ → ℕ → Result (List ℕ)
memcpy_to_front buf src n = do
  require (leb n src)
  require (leb (src + n) (length buf))
  ok (take n (drop src buf) ++ drop n buf)

-- Pulls what is left to the front when less than one `buffer_size` is free.
pull_front : RecvBuffer → Result RecvBuffer
pull_front b = do
  moved ← memcpy_to_front b.buffer b.read_pos (data_size b)
  ok (record b { buffer = moved; read_pos = 0; write_pos = data_size b })

unfoldable pub clean : RecvBuffer → Result RecvBuffer
unfolding pull_front memcpy_to_front
clean b =
    if data_size b == 0
    then ok (record b { read_pos = 0; write_pos = 0 })
    else if ltb (free_size b) b.buffer_size
    then pull_front b
    else ok b

-- OnRead of a count from 0 on, as ProcessRecv calls it.
unfoldable pub on_read : RecvBuffer → ℕ → Bool × RecvBuffer
on_read b n =
    if ltb (data_size b) n then (false, b) else (true, record b { read_pos = b.read_pos + n })

-- OnWrite of a count from 0 on, which is what a completion reports.
unfoldable pub on_write : RecvBuffer → ℕ → Bool × RecvBuffer
on_write b n =
    if ltb (free_size b) n then (false, b) else (true, record b { write_pos = b.write_pos + n })

-- OnRead of any int32, for a read position that is not behind the write position: a negative count
-- passes the test. A position in front of the array, which ReadPos would index, is undefined.
unfoldable pub on_read_int : RecvBuffer → ℤ → Result (Bool × RecvBuffer)
on_read_int b (pos n) = ok (on_read b n)
on_read_int b (negsuc n) =
    require (ltb n b.read_pos) >> ok (true, record b { read_pos = b.read_pos - (n + 1) })

-- OnWrite of any int32, likewise.
unfoldable pub on_write_int : RecvBuffer → ℤ → Result (Bool × RecvBuffer)
on_write_int b (pos n) = ok (on_write b n)
on_write_int b (negsuc n) =
    require (ltb n b.write_pos) >> ok (true, record b { write_pos = b.write_pos - (n + 1) })
