-- ===== src/Archive.antt =====
-- ThreadPool/ThreadPool/Common/ae_binary_iarchive.h and ae_binary_oarchive.h: values are written to
-- and read from a stream as the bytes of their memory, little-endian on the program's platform. What
-- an output archive does is the list of bytes that it adds to its std::ostringstream. An input
-- archive is its std::istringstream: the bytes left, and whether the stream is good.
pub mod Bytes
pub mod Objects
pub mod RoundTrip
use multi_thread_test.Common.{
  ltb, if◌then◌else◌, length, take, drop, replicate, ℕ, zero, suc, ◌+◌, ◌-◌, ◌*◌, ◌/◌, ◌%◌, ◌^◌,
  Bool, true, false, Option, none, some, List, [], ◌∷◌, ◌++◌,
}

-- A plain type: its size, its memory, and the value that a memory holds.
pub record Pod (A : Type 0) : Type 0 where
  pub size : ℕ
  pub zeroed : A
  pub to_bytes : A → List ℕ
  pub of_bytes : List ℕ → A

pub record InStream : Type 0 where
  pub rest : List ℕ
  pub good : Bool

-- A read changes the stream and returns the new value, or std::vector::resize has thrown (`none`).
abbrev pub R : Type 0 → Type 0
R A = InStream → Option (A × InStream)

infixl 5 ◌>>=◌
abbrev pub ◌>>=◌ : {A B : Type 0} → R A → (A → R B) → R B
◌>>=◌ m f s = elim (m s) [ none ↦ none | some (a, s') ↦ f a s' ]

abbrev pub ret : {A : Type 0} → A → R A
ret a s = some (a, s)

-- One write after the other.
infixr 6 ◌⨾◌
abbrev pub ◌⨾◌ : List ℕ → List ℕ → List ℕ
a ⨾ b = a ++ b

-- `size` bytes of memory, the first of them overwritten.
unfoldable pub overwrite : (size : ℕ) → (got old : List ℕ) → List ℕ
overwrite size got old = take size (got ++ drop (length got) old)

-- std::istream::read(buf, size): a stream that is not good gives nothing, one that ends too early
-- gives what it has and fails.
unfoldable pub read_buf : (size : ℕ) → (old : List ℕ) → R (List ℕ)
read_buf size old s =
    if s.good
    then some (
      overwrite size (take size s.rest) old,
      record { rest = drop size s.rest; good = if ltb (length s.rest) size then false else true },
    )
    else some (old, s)

-- write_buf(buf, cbsize)
unfoldable pub write_buf : (buf : List ℕ) → (cbsize : ℕ) → List ℕ
write_buf buf cbsize = if ltb 0 cbsize then take cbsize buf else []

-- stream_write<POD>, write and write_struct
unfoldable pub stream_write : {A : Type 0} → Pod A → A → List ℕ
stream_write pod value = pod.to_bytes value

-- stream_read<POD>, read and read_struct
unfoldable pub stream_read : {A : Type 0} → Pod A → A → R A
stream_read pod value = read_buf pod.size (pod.to_bytes value) >>= λ bytes. ret (pod.of_bytes bytes)

-- The `width` bytes of a number, and the number of some bytes.
unfoldable pub digits : (width n : ℕ) → List ℕ
digits zero n = []
digits (suc width) n = n % 256 ∷ digits width (n / 256)

unfoldable pub number : List ℕ → ℕ
number [] = 0
number (b ∷ bs) = b + 256 * number bs

-- An integer or a floating-point number of `width` bytes is its bit pattern.
unfoldable pub word : (width : ℕ) → Pod ℕ
unfolding digits number
word width = record { size = width; zeroed = 0; to_bytes = digits width; of_bytes = number }

-- char and BYTE, short and USHORT, int, UINT, long and ULONG, double
abbrev pub byte : Pod ℕ
byte = word 1

abbrev pub short : Pod ℕ
short = word 2

abbrev pub long : Pod ℕ
long = word 4

abbrev pub double : Pod ℕ
double = word 8

-- `count > 0` and `count < 0` for an int.
unfoldable pub is_positive : ℕ → Bool
is_positive count = if ltb 0 count then ltb count (2 ^ 31) else false

unfoldable pub is_negative : ℕ → Bool
is_negative count = if ltb count (2 ^ 31) then false else true

module _ {A : Type 0} where
  -- std::vector::resize(count): a negative count is larger than max_size().
  unfoldable pub resize : (fill : A) → (count : ℕ) → List A → R (List A)
  resize fill count datas s =
      if is_negative count
      then none
      else some (take count datas ++ replicate (count - length datas) fill, s)

  -- The memory of a vector, and a vector of `count` elements in a memory.
  unfoldable pub memory : Pod A → List A → List ℕ
  memory pod [] = []
  memory pod (x ∷ xs) = pod.to_bytes x ++ memory pod xs

  unfoldable pub elements : Pod A → (count : ℕ) → List ℕ → List A
  elements pod zero bytes = []
  elements pod (suc count) bytes =
      pod.of_bytes (take pod.size bytes) ∷ elements pod count (drop pod.size bytes)

  unfoldable pub write_iteratable_dump : Pod A → List A → List ℕ
  write_iteratable_dump pod datas =
      let count = length datas % 2 ^ 32 in
      stream_write long count ⨾ (if is_positive count then memory pod datas else [])

  unfoldable pub read_iteratable_dump : Pod A → List A → R (List A)
  read_iteratable_dump pod datas = do
    count ← stream_read long 0
    datas' ← resize pod.zeroed count datas
    if is_positive count
        then (read_buf (count * pod.size) (memory pod datas') >>= λ bytes.
            ret (elements pod count bytes))
        else ret datas'
