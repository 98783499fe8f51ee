-- ===== src/Archive/Bytes.antt =====
-- ThreadPool/ThreadPool/Common/ae_binary_iarchive.h and ae_binary_oarchive.h: the memory of plain
-- types, and reads of as many bytes as were written.
use multi_thread_test.Common.{
  if◌then◌else◌, Bool-cases, length, take, drop, replicate, length-append, take-append_length,
  drop-append_length, ℕ, zero, suc, ◌-◌, ◌*◌, ◌/◌, ◌%◌, ◌^◌, ◌<◌, ◌≡◌, refl, sym, ap, ◌∙◌, inl, inr,
  true, false, Option, none, some, List, [], ◌∷◌, ◌++◌, append_assoc, arith,
}
use multi_thread_test.Archive.{
  Pod, InStream, R, ret, ◌>>=◌, overwrite, read_buf, stream_write, stream_read, digits, number,
  word, long, memory, elements, read_iteratable_dump, write_iteratable_dump, is_positive,
  is_negative, resize,
}
use mathlib.Core.List.{append_assoc}

-- A value that has a memory of the type's size from which it is had back.
pub record Stored {A : Type 0} (pod : Pod A) (x : A) : Type 0 where
  pub sized : length (pod.to_bytes x) ≡ pod.size
  pub restored : pod.of_bytes (pod.to_bytes x) ≡ x

pub length-digits : (width n : ℕ) → length (digits width n) ≡ width
unfolding digits
length-digits zero n = refl
length-digits (suc width) n = ap suc (length-digits width (n / 256))

pub number-digits : (width n : ℕ) → n < 256 ^ width → number (digits width n) ≡ n
unfolding digits number
number-digits zero n h = omega arith
number-digits (suc width) n h = grind (arith, number-digits width (n / 256))

pub word-Stored : (width n : ℕ) → n < 256 ^ width → Stored (word width) n
unfolding word
word-Stored width n h = record { sized = length-digits width n; restored = number-digits width n h }

pub length-word_bytes : (width n : ℕ) → length ((word width).to_bytes n) ≡ width
unfolding word
length-word_bytes width n = length-digits width n

-- The archive's stream holding just these bytes.
abbrev pub stream : List ℕ → InStream
stream bytes = record { rest = bytes; good = true }

pub read_buf-append :
    (size : ℕ) (old bytes rest : List ℕ)
    → length bytes ≡ size
    → read_buf size old (stream (bytes ++ rest)) ≡ some (bytes, stream rest)
unfolding read_buf overwrite
read_buf-append size old bytes rest e = ground (
  arith,
  take-append_length size bytes rest,
  drop-append_length size bytes rest,
  take-append_length size bytes (drop (length bytes) old),
  length-append bytes rest,
)

-- A sequence goes on behind a read that has succeeded.
pub bind-some :
    {A B : Type 0} (f : A → R B) {m : Option (A × InStream)} {a : A} {s : InStream}
    → m ≡ some (a, s)
    → (elim m [ none ↦ none | some (b, s') ↦ f b s' ]) ≡ f a s
bind-some {A} f e =
    ap (λ (o : Option (A × InStream)). elim o [ none ↦ none | some (b, s') ↦ f b s' ]) e

pub stream_read-write :
    {A : Type 0} (pod : Pod A) (old x : A) (rest : List ℕ)
    → Stored pod x
    → stream_read pod old (stream (stream_write pod x ++ rest)) ≡ some (x, stream rest)
unfolding stream_read stream_write
stream_read-write pod old x rest v =
    bind-some (λ bytes. ret (pod.of_bytes bytes))
      (read_buf-append pod.size (pod.to_bytes old) (pod.to_bytes x) rest v.sized)
    ∙ ap (λ y. some (y, stream rest)) v.restored

-- Every element of a vector has its memory.
abbrev pub AllStored : {A : Type 0} → Pod A → List A → Type 0
AllStored pod [] = Unit {0}
AllStored pod (x ∷ xs) = Stored pod x × AllStored pod xs

pub length-memory :
    {A : Type 0} (pod : Pod A) (xs : List A)
    → AllStored pod xs
    → length (memory pod xs) ≡ length xs * pod.size
unfolding memory
length-memory pod [] v = omega arith
length-memory pod (x ∷ xs) v =
    grind
      (arith, length-append (pod.to_bytes x) (memory pod xs), length-memory pod xs v.1, v.0.sized)

pub elements-memory :
    {A : Type 0} (pod : Pod A) (xs : List A)
    → AllStored pod xs
    → elements pod (length xs) (memory pod xs) ≡ xs
unfolding memory elements
elements-memory pod [] v = refl
elements-memory pod (x ∷ xs) v = rw (
  take-append_length pod.size (pod.to_bytes x) (memory pod xs) (sym v.0.sized),
  drop-append_length pod.size (pod.to_bytes x) (memory pod xs) (sym v.0.sized),
  v.0.restored,
  elements-memory pod xs v.1,
)

-- A vector that an int can count, in whole elements.
pub record StoredAll {A : Type 0} (pod : Pod A) (xs : List A) : Type 0 where
  pub all : AllStored pod xs
  pub counted : length xs < 2 ^ 31

pub stream_read-then :
    {A B : Type 0} (pod : Pod A) (f : A → R B) (old x : A) (ys rest : List ℕ)
    → Stored pod x
    → (stream_read pod old >>= f) (stream ((stream_write pod x ++ ys) ++ rest))
      ≡ f x (stream (ys ++ rest))
stream_read-then pod f old x ys rest v =
    rw append_assoc (bind-some f (stream_read-write pod old x (ys ++ rest) v))

-- The part of read_iteratable_dump behind the count.
read_elements :
    {A : Type 0} (pod : Pod A) (old xs : List A) (rest : List ℕ)
    → StoredAll pod xs
    → (if is_positive (length xs)
          then (read_buf (length xs * pod.size) (memory pod old) >>= λ bytes.
              ret (elements pod (length xs) bytes))
          else ret old)
        (stream ((if is_positive (length xs) then memory pod xs else []) ++ rest))
      ≡ some (if is_positive (length xs) then xs else old, stream rest)
read_elements pod old xs rest v = elim (Bool-cases (is_positive (length xs))) [
  | inl e ↦ rw e (
      bind-some (λ bytes. ret (elements pod (length xs) bytes))
        (read_buf-append _ (memory pod old) (memory pod xs) rest (length-memory pod xs v.all))
      ∙ ap (λ ys. some (ys, stream rest)) (elements-memory pod xs v.all))
  | inr e ↦ rw e refl
]

-- What is left of a vector that is resized to no elements, or filled by them.
resized_or_read :
    {A : Type 0} (old xs : List A) (fill : A)
    → length xs < 2 ^ 31
    → (if is_positive (length xs)
        then xs
        else take (length xs) old ++ replicate (length xs - length old) fill)
      ≡ xs
unfolding is_positive
resized_or_read old [] fill h = ground arith
resized_or_read old (x ∷ xs) fill h = ground arith

pub count_nonnegative : (count : ℕ) → count < 2 ^ 31 → is_negative count ≡ false
unfolding is_negative
count_nonnegative count h = ground arith

pub count_word : (count : ℕ) → count < 2 ^ 31 → Stored long count
count_word count h = word-Stored 4 count (omega arith)

pub resize_lem :
    {A : Type 0} (fill : A) (count : ℕ) (old : List A) (s : InStream)
    → count < 2 ^ 31
    → resize fill count old s ≡ some (take count old ++ replicate (count - length old) fill, s)
unfolding resize
resize_lem fill count old s h = rw (count_nonnegative count h)

pub read-write_iteratable_dump :
    {A : Type 0} (pod : Pod A) (old xs : List A) (rest : List ℕ)
    → StoredAll pod xs
    → read_iteratable_dump pod old (stream (write_iteratable_dump pod xs ++ rest))
      ≡ some (xs, stream rest)
unfolding read_iteratable_dump write_iteratable_dump
read-write_iteratable_dump pod old xs rest v =
    let e : length xs % 2 ^ 32 ≡ length xs = omega (arith, v.counted) in
    rw e (
      stream_read-then long _ 0 (length xs) _ rest (count_word (length xs) v.counted)
      ∙ bind-some _ (resize_lem pod.zeroed (length xs) old _ v.counted)
      ∙ read_elements pod _ xs rest v
      ∙ ap (λ ys. some (ys, stream rest)) (resized_or_read old xs pod.zeroed v.counted))
