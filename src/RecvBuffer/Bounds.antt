-- ===== src/RecvBuffer/Bounds.antt =====
-- The positions stay in order and in the array, and when `Clean` is defined.
use multi_thread_test.Common.{
  ltb→lt, ltb→le, Result, ℤ, pos, negsuc, Bool, ltb, ◌==◌, Bool-cases, length, take, drop,
  length-append, length-take, length-drop, length-replicate, undefined, ok, fail, ℕ, ◌*◌, ◌≤◌, ◌<◌,
  ◌≡◌, refl, ◌↔◌, inl, inr, ◌++◌, arith,
}
use multi_thread_test.RecvBuffer.{
  RecvBuffer, buffer_count, init, data_size, free_size, clean, on_read, on_write, on_read_int,
  on_write_int,
}

-- The object invariant: the positions are in order and inside the array.
pub record IsValid (b : RecvBuffer) : Type 0 where
  pub ordered : b.read_pos ≤ b.write_pos
  pub within : b.write_pos ≤ b.capacity
  pub whole : length b.buffer ≡ b.capacity
  pub scaled : b.capacity ≡ b.buffer_size * buffer_count

pub init-IsValid : (n : ℕ) → IsValid (init n)
unfolding init
init-IsValid n = record {
  ordered = omega arith;
  within = omega arith;
  whole = length-replicate (n * buffer_count) 0;
  scaled = refl;
}

-- OnRead and OnWrite of a count that is not negative, and Clean.
pub counts-IsValid :
    (b : RecvBuffer) (n : ℕ)
    → IsValid b
    → IsValid (on_read b n).1
      × IsValid (on_write b n).1
      × ((c : RecvBuffer) → clean b ≡ ok c → IsValid c)
unfolding on_read on_write clean
counts-IsValid b n v = (
  ground arith,
  ground arith,
  λ c e. ground (
    arith,
    length-append (take (data_size b) (drop b.read_pos b.buffer)) (drop (data_size b) b.buffer),
    length-take (data_size b) (drop b.read_pos b.buffer),
    length-drop b.read_pos b.buffer,
    length-drop (data_size b) b.buffer,
  ),
)

-- The method returns a valid buffer.
abbrev pub Keeps : Result (Bool × RecvBuffer) → Type 0
Keeps (ok r) = IsValid r.1
Keeps (fail fault) = ⊥

-- `n` does not go back by more than `m`.
abbrev pub GoesBackAtMost : (m : ℕ) → (n : ℤ) → Type 0
GoesBackAtMost m (pos n) = Unit {0}
GoesBackAtMost m (negsuc n) = n < m

on_read_int-IsValid :
    (b : RecvBuffer) (n : ℤ) → IsValid b → Keeps (on_read_int b n) ↔ GoesBackAtMost b.read_pos n
unfolding on_read_int
on_read_int-IsValid b (pos n) v = (λ _. tt, λ _. (counts-IsValid b n v).0)
on_read_int-IsValid b (negsuc n) v = elim (Bool-cases (ltb n b.read_pos)) [
  | inl e ↦ rw e (λ _. ltb→lt _ _ e, λ h. ground (arith, v, h))
  | inr e ↦ rw e (λ f. absurd f, λ h. absurd (omega (arith, h, ltb→le _ _ e)))
]

on_write_int-IsValid :
    (b : RecvBuffer) (n : ℤ) → IsValid b → Keeps (on_write_int b n) ↔ GoesBackAtMost (data_size b) n
unfolding on_write_int
on_write_int-IsValid b (pos n) v = (λ _. tt, λ _. (counts-IsValid b n v).1)
on_write_int-IsValid b (negsuc n) v = elim (Bool-cases (ltb n b.write_pos)) [
  | inl e ↦ rw e (λ w. omega (arith, w.ordered, ltb→lt _ _ e), λ h. ground (arith, v, h))
  | inr e ↦ rw e (λ f. absurd f, λ h. absurd (omega (arith, h, ltb→le _ _ e)))
]

-- On a buffer whose positions are in order and inside the array, OnRead of an int32 leaves such a
-- buffer, whether it accepts or refuses, exactly if the count is not negative or goes back no
-- further than the front of the array, and OnWrite exactly if it is not negative or goes back no
-- further than the read position; Clean does wherever its copy is defined.
pub methods-IsValid :
    (b : RecvBuffer) (n : ℤ)
    → IsValid b
    → (Keeps (on_read_int b n) ↔ GoesBackAtMost b.read_pos n)
      × (Keeps (on_write_int b n) ↔ GoesBackAtMost (data_size b) n)
      × ((c : RecvBuffer) → clean b ≡ ok c → IsValid c)
methods-IsValid b n v =
    (on_read_int-IsValid b n v, on_write_int-IsValid b n v, (counts-IsValid b 0 v).2)

-- `Clean` is defined on a valid buffer that holds at most 4.5 times `buffer_size` bytes, and then a
-- full `buffer_size` is free for the next receive.
pub clean_defined :
    (b : RecvBuffer)
    → IsValid b
    → 2 * data_size b ≤ 9 * b.buffer_size
    → (c : RecvBuffer) × (clean b ≡ ok c) × (b.buffer_size ≤ free_size c)
unfolding clean
clean_defined b v h = elim (Bool-cases (data_size b == 0)) [
  | inl none_left ↦ (record b { read_pos = 0; write_pos = 0 }, ground arith, ground arith)
  | inr some_left ↦ elim (Bool-cases (ltb (free_size b) b.buffer_size)) [
    | inl tight ↦ (
      record b {
        read_pos = 0;
        write_pos = data_size b;
        buffer = take (data_size b) (drop b.read_pos b.buffer) ++ drop (data_size b) b.buffer;
      },
      ground arith,
      ground arith,
    )
    | inr roomy ↦ (b, ground arith, ground arith)
  ]
]

-- `Clean` copies with `memcpy` over overlapping ranges, which is undefined, exactly when less than
-- one `buffer_size` is free and the bytes held, at least one, are more than the bytes already read.
pub clean_undefined :
    (b : RecvBuffer)
    → IsValid b
    → (clean b ≡ fail undefined)
      ↔ ((0 < data_size b) × (free_size b < b.buffer_size) × (b.read_pos < data_size b))
unfolding clean
clean_undefined b v = (λ e. (ground arith, ground arith, ground arith), λ h. ground arith)
