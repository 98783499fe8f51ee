-- ===== src/SendBuffer/Packing.antt =====
-- Where the buffers of a chunk lie, and what Open of the manager answers.
use multi_thread_test.Common.{
  ltb, leb, Bool-cases, Option-cases, length, get_or, length-append, Result, ok, ℕ, zero, suc, ◌+◌,
  ◌%◌, ◌^◌, ◌≤◌, ◌<◌, ◌≡◌, refl, inl, inr, true, false, none, some, List, [], ◌∷◌, arith, ◌>>=◌,
}
use multi_thread_test.SendBuffer.{
  chunk_size, SendBuffer, Chunk, free_size, reset, chunk_open, chunk_close, close, Manager,
  put_chunk, pop_back, pop, renew, chunk_at, own_chunk, open_buffer,
}

-- A thread's calls in turn on one chunk: Open of `alloc` bytes, then Close of the buffer with `write`
-- bytes, unless there was none.
pub fills : (owner : ℕ) → Chunk → List (ℕ × ℕ) → Result (List SendBuffer × Chunk)
fills owner c [] = ok ([], c)
fills owner c ((alloc, write) ∷ ops) = do
  (opened, c') ← chunk_open owner c alloc
  elim opened [
    | none ↦ fills owner c' ops
    | some b ↦ do (b', c'') ← close b c' write; (bs, last) ← fills owner c'' ops; ok (b' ∷ bs, last)
  ]

-- The sizes that Open and Close do not crash on.
abbrev pub AreSizes : List (ℕ × ℕ) → Type 0
AreSizes [] = Unit
AreSizes ((alloc, write) ∷ ops) = (alloc ≤ chunk_size) × (write ≤ alloc) × AreSizes ops

-- The buffers follow one another from `from` to `to`, each with its room inside the chunk.
abbrev pub Packed : (owner from : ℕ) → List SendBuffer → (to : ℕ) → Type 0
Packed owner from [] to = from ≡ to
Packed owner from (b ∷ bs) to =
    (b.owner ≡ owner)
    × (b.offset ≡ from)
    × (b.write_size ≤ b.alloc_size)
    × (from + b.alloc_size ≤ chunk_size)
    × Packed owner (from + b.write_size) bs to

abbrev pub closed_at : ℕ → Chunk
closed_at used = record { is_open = false; used_size = used }

-- On a closed chunk whose used size is within 6000, any calls of Open with at most 6000 bytes, each
-- followed by Close with at most as many, return; the buffers that they give follow one another
-- without overlap from the used size before to the one after, and the chunk is closed and within
-- 6000 bytes again.
pub fills-Packed :
    (owner used : ℕ) (ops : List (ℕ × ℕ))
    → used ≤ chunk_size
    → AreSizes ops
    → (bs : List SendBuffer) × (used' : ℕ) × (fills owner (closed_at used) ops
        ≡ ok (bs, closed_at used'))
      × Packed owner used bs used'
      × (used' ≤ chunk_size)
unfolding fills chunk_open chunk_close close
fills-Packed owner used [] within sizes = ([], used, refl, refl, within)
fills-Packed owner used ((alloc, write) ∷ ops) within (small, fitting, sizes) =
    let small' : leb alloc chunk_size ≡ true = ground (arith, small) in
    elim (Bool-cases (ltb (free_size (closed_at used)) alloc)) [
      | inl e ↦ rw (small', e) (fills-Packed owner used ops within sizes)
      | inr e ↦
          let fitting' : leb write alloc ≡ true = ground (arith, fitting) in
          let room : used + alloc ≤ chunk_size = ground (arith, e, within) in
          let sum : (used + write) % 2 ^ 32 ≡ used + write = omega (arith, room, fitting) in
          let (bs, used', run, packed, within') =
            fills-Packed owner (used + write) ops (omega (arith, room, fitting)) sizes in
          rw (small', e, fitting', sum, run)
            (_, used', refl, (refl, refl, fitting, room, packed), within')
    ]

-- The indices in use are those of chunks.
pub record IsValid (m : Manager) : Type 0 where
  pub reserved : (i : ℕ) (rest : List ℕ) → pop_back m.reserve ≡ some (i, rest) → i < length m.chunks
  pub owned : (i : ℕ) → m.current ≡ some i → i < length m.chunks

get-put_chunk :
    (cs : List Chunk) (i : ℕ) (c : Chunk) → i < length cs → get_or (put_chunk cs i c) i reset ≡ c
get-put_chunk [] i c h = absurd (omega (arith, h))
get-put_chunk (_ ∷ cs) zero c h = refl
get-put_chunk (_ ∷ cs) (suc i) c h = get-put_chunk cs i c (omega (arith, h))

length-put_chunk : (cs : List Chunk) (i : ℕ) (c : Chunk) → length (put_chunk cs i c) ≡ length cs
length-put_chunk [] i c = refl
length-put_chunk (_ ∷ cs) zero c = refl
length-put_chunk (_ ∷ cs) (suc i) c = omega (arith, length-put_chunk cs i c)

-- A new thread's chunk: closed, empty, and one of the manager's.
record Ready (used i : ℕ) (m : Manager) : Type 0 where
  is_current : m.current ≡ some i
  present : i < length m.chunks
  is_closed : chunk_at m i ≡ closed_at used

pop-present : (m : Manager) → IsValid m → (pop m).0 < length (pop m).1.chunks
unfolding pop
pop-present m v = elim (Option-cases (pop_back m.reserve)) [
  | inl e ↦ rw (pop, length, e) (omega (arith, length-append m.chunks (reset ∷ [])))
  | inr ((i, rest), e) ↦ rw (pop, length, e) (v.reserved i rest e)
]

renew-Ready : (m : Manager) → IsValid m → Ready 0 (renew m).0 (renew m).1
unfolding renew
renew-Ready m v = record {
  is_current = refl;
  present = omega (arith, pop-present m v, length-put_chunk (pop m).1.chunks (pop m).0 reset);
  is_closed = get-put_chunk (pop m).1.chunks (pop m).0 reset (pop-present m v);
}

-- What Open makes of a chunk with room.
opened : (i used size : ℕ) → SendBuffer
opened i used size = record { owner = i; offset = used; alloc_size = size; write_size = 0 }

chunk_open-Ready :
    (i used size : ℕ) (m : Manager)
    → Ready used i m
    → used + size ≤ chunk_size
    → chunk_open i (chunk_at m i) size
      ≡ ok (some (opened i used size), record { is_open = true; used_size = used })
unfolding chunk_open opened
chunk_open-Ready i used size m v room =
    let small : leb size chunk_size ≡ true = ground (arith, room) in
    let enough : ltb (free_size (closed_at used)) size ≡ false = ground (arith, room) in
    rw (v.is_closed, small, enough) refl

-- What the thread has when it calls Open.
abbrev pub MayOpen : Manager → Type 0
MayOpen m =
    (i : ℕ)
    → m.current ≡ some i
    → (used : ℕ) × (chunk_at m i ≡ closed_at used) × (used ≤ chunk_size)

-- A buffer that the thread has got, and its chunk.
pub record Opened (size : ℕ) (b : SendBuffer) (m : Manager) : Type 0 where
  pub all : b.alloc_size ≡ size
  pub inside : b.offset + size ≤ chunk_size
  pub is_owner : m.current ≡ some b.owner
  pub now_open : chunk_at m b.owner ≡ record { is_open = true; used_size = b.offset }

put_open : (m : Manager) (i used : ℕ) → Manager
put_open m i used = record m {
  chunks = put_chunk m.chunks i (record { is_open = true; used_size = used });
}

Ready-Opened :
    (i used size : ℕ) (m : Manager)
    → Ready used i m
    → used + size ≤ chunk_size
    → Opened size (opened i used size) (put_open m i used)
unfolding opened put_open
Ready-Opened i used size m v room = record {
  all = refl;
  inside = room;
  is_owner = v.is_current;
  now_open = get-put_chunk m.chunks i _ v.present;
}

-- With the thread's chunk at `i`, which has room or is changed for an empty one.
open-own :
    (i used size : ℕ) (m n : Manager)
    → own_chunk m ≡ (i, n)
    → Ready used i n
    → used ≤ chunk_size
    → (ltb (free_size (closed_at used)) size ≡ true → IsValid n)
    → size ≤ chunk_size
    → (b : SendBuffer) × (m' : Manager) × (open_buffer m size ≡ ok (some b, m')) × Opened size b m'
unfolding open_buffer opened put_open
open-own i used size m n e v within valid small =
    elim (Bool-cases (ltb (free_size (closed_at used)) size)) [
      | inl f ↦
          let w = renew-Ready n (valid f) in
          rw
            (
              e,
              v.is_closed,
              f,
              chunk_open-Ready (renew n).0 0 size (renew n).1 w (omega (arith, small)),
            )
            (_, _, refl, Ready-Opened (renew n).0 0 size (renew n).1 w (omega (arith, small)))
      | inr f ↦
          let room : used + size ≤ chunk_size = ground (arith, f, within) in
          let shut : (chunk_at n i).is_open ≡ false = rw v.is_closed refl in
          let enough : ltb (free_size (chunk_at n i)) size ≡ false = rw v.is_closed f in
          rw (e, shut, enough, chunk_open-Ready i used size n v room)
            (_, _, refl, Ready-Opened i used size n v room)
    ]

-- Open of at most 6000 bytes, by a thread that has no chunk or whose chunk is closed and within
-- 6000 bytes, always answers a buffer, not nullptr. The buffer has all the bytes and its room inside
-- the thread's chunk, which is now open.
pub open_buffer-opens :
    (m : Manager) (size : ℕ)
    → IsValid m
    → MayOpen m
    → size ≤ chunk_size
    → (b : SendBuffer) × (m' : Manager) × (open_buffer m size ≡ ok (some b, m')) × Opened size b m'
unfolding own_chunk
open_buffer-opens m size v may small = elim (Option-cases m.current) [
  | inl e ↦
      open-own (renew m).0 0 size m (renew m).1 (rw e refl) (renew-Ready m v) (omega arith)
        (λ f. absurd (ground (arith, f, small))) small
  | inr (i, e) ↦
      let (used, closed, within) = may i e in
      open-own i used size m m (rw e refl)
        (record { is_current = e; present = v.owned i e; is_closed = closed }) within (λ _. v) small
]
