-- ===== src/Archive/RoundTrip.antt =====
-- ThreadPool/ThreadPool/Common/ae_binary_iarchive.h and ae_binary_oarchive.h: what is written is
-- read back.
use multi_thread_test.Common.{
  length, take, replicate, length-append, length-take, length-replicate, take_all, ℕ, ◌-◌, ◌%◌, ◌^◌,
  ◌<◌, ◌≡◌, refl, ◌∙◌, some, List, [], ◌∷◌, ◌++◌, append_assoc, arith,
}
use multi_thread_test.Archive.{
  Pod, R, ◌>>=◌, stream_write, stream_read, word, byte, short, long, write_buf, read_buf,
  write_iteratable_dump, read_iteratable_dump,
}
use multi_thread_test.Archive.Objects.{Class, save_all, load_all, write_iteratable, read_iteratable}
use multi_thread_test.Archive.Bytes.{
  stream, StoredAll, bind-some, AllStored, word-Stored, stream_read-write, stream_read-then,
  read_buf-append, read-write_iteratable_dump, resize_lem, count_word,
}
use mathlib.Core.List.{append_assoc}

-- A class whose objects, if they are valid, are had back by any object of it, which takes no more
-- than its bytes of the stream.
pub record IsClass {A : Type 0} (class : Class A) (IsValid : A → Type 0) : Type 0 where
  pub load-save :
      (old x : A) (rest : List ℕ)
      → IsValid x
      → class.on_load_from old (stream (class.on_save_to x ++ rest)) ≡ some (x, stream rest)

write_buf_lem : (bytes : List ℕ) (size : ℕ) → length bytes ≡ size → write_buf bytes size ≡ bytes
unfolding write_buf
write_buf_lem [] size e = let nothing : List ℕ = [] in ground (arith, take_all size nothing)
write_buf_lem (b ∷ bytes) size e = ground (arith, take_all size (b ∷ bytes))

pub buf_then :
    {B : Type 0} (f : List ℕ → R B) (size : ℕ) (old bytes ys rest : List ℕ)
    → length bytes ≡ size
    → (read_buf size old >>= f) (stream ((write_buf bytes size ++ ys) ++ rest))
      ≡ f bytes (stream (ys ++ rest))
buf_then f size old bytes ys rest e =
    rw (write_buf_lem bytes size e, append_assoc)
      (bind-some f (read_buf-append size old bytes (ys ++ rest) e))

pub dump_then :
    {A B : Type 0} (pod : Pod A) (f : List A → R B) (old xs : List A) (ys rest : List ℕ)
    → StoredAll pod xs
    → (read_iteratable_dump pod old >>= f) (stream ((write_iteratable_dump pod xs ++ ys) ++ rest))
      ≡ f xs (stream (ys ++ rest))
dump_then pod f old xs ys rest v =
    rw append_assoc (bind-some f (read-write_iteratable_dump pod old xs (ys ++ rest) v))

-- The last member of a message.
module _ {B : Type 0} where
  pub last_word :
      (width : ℕ) (f : ℕ → R B) (old x : ℕ) (rest : List ℕ)
      → x < 256 ^ width
      → (stream_read (word width) old >>= f) (stream (stream_write (word width) x ++ rest))
        ≡ f x (stream rest)
  last_word width f old x rest h =
      bind-some f (stream_read-write (word width) old x rest (word-Stored width x h))

  pub last_buf :
      (f : List ℕ → R B) (size : ℕ) (old bytes rest : List ℕ)
      → length bytes ≡ size
      → (read_buf size old >>= f) (stream (write_buf bytes size ++ rest)) ≡ f bytes (stream rest)
  last_buf f size old bytes rest e =
      rw (write_buf_lem bytes size e) (bind-some f (read_buf-append size old bytes rest e))

pub last_dump :
    {A B : Type 0} (pod : Pod A) (f : List A → R B) (old xs : List A) (rest : List ℕ)
    → StoredAll pod xs
    → (read_iteratable_dump pod old >>= f) (stream (write_iteratable_dump pod xs ++ rest))
      ≡ f xs (stream rest)
last_dump pod f old xs rest v = bind-some f (read-write_iteratable_dump pod old xs rest v)

-- The values that the members of a message hold: a BYTE or char, a short, a long or int, a double,
-- an array of `size` bytes, and a std::vector<BYTE>.
abbrev pub IsByte : ℕ → Type 0
IsByte n = n < 2 ^ 8

abbrev pub IsShort : ℕ → Type 0
IsShort n = n < 2 ^ 16

abbrev pub IsLong : ℕ → Type 0
IsLong n = n < 2 ^ 32

abbrev pub IsDouble : ℕ → Type 0
IsDouble n = n < 2 ^ 64

abbrev pub HasSize : ℕ → List ℕ → Type 0
HasSize size bytes = length bytes ≡ size

abbrev pub AllBytes : List ℕ → Type 0
AllBytes [] = Unit {0}
AllBytes (b ∷ bs) = IsByte b × AllBytes bs

pub record IsVectorByte (bytes : List ℕ) : Type 0 where
  pub inside : AllBytes bytes
  pub counted : length bytes < 2 ^ 31

AllBytes-AllStored : (bytes : List ℕ) → AllBytes bytes → AllStored byte bytes
AllBytes-AllStored [] h = tt
AllBytes-AllStored (b ∷ bs) h = (word-Stored 1 b (omega arith), AllBytes-AllStored bs h.1)

module _ {B : Type 0} where
  pub byte_then :
      (f : ℕ → R B) (old x : ℕ) (ys rest : List ℕ)
      → IsByte x
      → (stream_read byte old >>= f) (stream ((stream_write byte x ++ ys) ++ rest))
        ≡ f x (stream (ys ++ rest))
  byte_then f old x ys rest h =
      stream_read-then byte f old x ys rest (word-Stored 1 x (omega arith))

  pub short_then :
      (f : ℕ → R B) (old x : ℕ) (ys rest : List ℕ)
      → IsShort x
      → (stream_read short old >>= f) (stream ((stream_write short x ++ ys) ++ rest))
        ≡ f x (stream (ys ++ rest))
  short_then f old x ys rest h =
      stream_read-then short f old x ys rest (word-Stored 2 x (omega arith))

  pub long_then :
      (f : ℕ → R B) (old x : ℕ) (ys rest : List ℕ)
      → IsLong x
      → (stream_read long old >>= f) (stream ((stream_write long x ++ ys) ++ rest))
        ≡ f x (stream (ys ++ rest))
  long_then f old x ys rest h =
      stream_read-then long f old x ys rest (word-Stored 4 x (omega arith))

  pub vector_then :
      (f : List ℕ → R B) (old xs : List ℕ) (ys rest : List ℕ)
      → IsVectorByte xs
      → (read_iteratable_dump byte old >>= f)
          (stream ((write_iteratable_dump byte xs ++ ys) ++ rest))
        ≡ f xs (stream (ys ++ rest))
  vector_then f old xs ys rest h =
      dump_then byte f old xs ys rest
        (record { all = AllBytes-AllStored xs h.inside; counted = h.counted })

abbrev pub AllValid : {A : Type 0} → (A → Type 0) → List A → Type 0
AllValid P [] = Unit {0}
AllValid P (x ∷ xs) = P x × AllValid P xs

module _ {A : Type 0} {class : Class A} {IsValid : A → Type 0} (laws : IsClass class IsValid) where
  load_all-save_all :
      (old xs : List A) (rest : List ℕ)
      → length old ≡ length xs
      → AllValid IsValid xs
      → load_all class old (stream (save_all class xs ++ rest)) ≡ some (xs, stream rest)
  unfolding load_all save_all
  load_all-save_all [] [] rest e v = refl
  load_all-save_all [] (x ∷ xs) rest e v = absurd (omega arith)
  load_all-save_all (y ∷ old) [] rest e v = absurd (omega arith)
  load_all-save_all (y ∷ old) (x ∷ xs) rest e v = rw append_assoc (
      bind-some _ (laws.load-save y x (save_all class xs ++ rest) v.0)
      ∙ bind-some _ (load_all-save_all old xs rest (omega arith) v.1))

  pub read-write_iteratable :
      (old xs : List A) (rest : List ℕ)
      → length xs < 2 ^ 31
      → AllValid IsValid xs
      → read_iteratable class old (stream (write_iteratable class xs ++ rest))
        ≡ some (xs, stream rest)
  unfolding read_iteratable write_iteratable
  read-write_iteratable old xs rest h v =
      let e : length xs % 2 ^ 32 ≡ length xs = omega (arith, h) in
      rw e (
        stream_read-then long _ 0 (length xs) _ rest (count_word (length xs) h)
        ∙ bind-some _ (resize_lem class.initial (length xs) old _ h)
        ∙ load_all-save_all _ xs rest
            (ground (
              arith,
              length-append (take (length xs) old)
                  (replicate (length xs - length old) class.initial),
              length-take (length xs) old,
              length-replicate (length xs - length old) class.initial,
            ))
            v)
