-- ===== src/Buffer.antt =====
-- JobTimer_소스코드 (1)/ServerCore/BufferReader.h, BufferReader.cpp, BufferWriter.h and
-- BufferWriter.cpp: reading from and writing to a block of memory, with a check (Peek, Read, Write,
-- Reserve) or without one (operator>>, operator<<). A value is its bytes. The members are uint32.
-- Memory behind the end of the block is not the program's: an access to it is undefined.
pub mod RoundTrip
pub mod Tests
use multi_thread_test.Common.{
  ltb, leb, if◌then◌else◌, length, take, drop, Result, ◌>>◌, require, ok, ℕ, ◌+◌, ◌-◌, ◌*◌, ◌%◌,
  ◌^◌, Bool, true, false, Option, none, some, List, ◌++◌, ◌>>=◌,
}

-- A BufferReader or BufferWriter with the block that it points to.
pub record Buffer : Type 0 where
  pub buffer : List ℕ
  pub size : ℕ
  pub at : ℕ  -- _pos

-- FreeSize
abbrev pub free_size : Buffer → ℕ
free_size b = (b.size + (2 ^ 32 - b.at)) % 2 ^ 32

abbrev pub advance : ℕ → Buffer → Buffer
advance len b = record b { at = (b.at + len) % 2 ^ 32 }

-- `memcpy(dest, &_buffer[_pos], len)`
unfoldable pub load : Buffer → (len : ℕ) → Result (List ℕ)
load b len = require (leb (b.at + len) (length b.buffer)) >> ok (take len (drop b.at b.buffer))

-- `memcpy(&_buffer[_pos], src, len)`
unfoldable pub store : Buffer → (src : List ℕ) → Result Buffer
store b src =
    require (leb (b.at + length src) (length b.buffer))
    >> ok (record b { buffer = take b.at b.buffer ++ (src ++ drop (b.at + length src) b.buffer) })

-- BufferReader::Peek; `none` is false.
unfoldable pub peek : Buffer → (len : ℕ) → Result (Option (List ℕ))
peek b len = if ltb (free_size b) len then ok none else (do bytes ← load b len; ok (some bytes))

-- BufferReader::Read
unfoldable pub read : Buffer → (len : ℕ) → Result (Option (List ℕ) × Buffer)
read b len = do
  peeked ← peek b len
  elim peeked [ none ↦ ok (none, b) | some bytes ↦ ok (some bytes, advance len b) ]

-- BufferReader::operator>>
unfoldable pub shift_right : Buffer → (len : ℕ) → Result (List ℕ × Buffer)
shift_right b len = do bytes ← load b len; ok (bytes, advance len b)

-- BufferWriter::Write
unfoldable pub write : Buffer → (src : List ℕ) → Result (Bool × Buffer)
write b src =
    if ltb (free_size b) (length src)
    then ok (false, b)
    else (do b' ← store b src; ok (true, advance (length src) b'))

-- BufferWriter::Reserve of `count` values of `each` bytes; the answer is an offset in the block.
unfoldable pub reserve : Buffer → (each count : ℕ) → Option ℕ × Buffer
reserve b each count =
    if ltb (free_size b) (each * count) then (none, b) else (some b.at, advance (each * count) b)

-- BufferWriter::operator<<
unfoldable pub shift_left : Buffer → (src : List ℕ) → Result Buffer
shift_left b src = do b' ← store b src; ok (advance (length src) b')
