-- ===== src/Buffer/RoundTrip.antt =====
-- What is written is read back, and what happens at the end of the block.
use multi_thread_test.Common.{
  ltb, leb, if◌then◌else◌, length, take, drop, length-append, length-take, length-drop,
  take-append-drop, take-append_length, drop-append_length, drop-drop, Result, undefined, ok, fail,
  ℕ, ◌+◌, ◌-◌, ◌%◌, ◌^◌, ◌≤◌, ◌<◌, ◌≡◌, refl, sym, ap, ap₂, ◌∙◌, Bool, true, false, List, [], ◌∷◌,
  ◌++◌, map, append_assoc, arith, flatten, ◌>>=◌,
}
use multi_thread_test.Buffer.{Buffer, free_size, load, store, shift_right, write, shift_left}

-- The fields written in turn, while Write accepts them.
pub write_all : Buffer → List (List ℕ) → Result (Bool × Buffer)
write_all b [] = ok (true, b)
write_all b (f ∷ fs) = do
  (accepted, b') ← write b f
  if accepted then write_all b' fs else ok (false, b')

-- Values of the given sizes read in turn, without a check.
pub read_all : Buffer → List ℕ → Result (List (List ℕ) × Buffer)
read_all b [] = ok ([], b)
read_all b (n ∷ ns) = do (f, b') ← shift_right b n; (fs, b'') ← read_all b' ns; ok (f ∷ fs, b'')

-- The buffer's members fit the block.
pub record IsValid (b : Buffer) : Type 0 where
  pub within : b.at ≤ b.size
  pub room : b.size ≤ length b.buffer
  pub small : b.size < 2 ^ 32

length-stored :
    (b : Buffer) (src : List ℕ)
    → b.at + length src ≤ length b.buffer
    → length (take b.at b.buffer ++ (src ++ drop (b.at + length src) b.buffer)) ≡ length b.buffer
length-stored b src h = omega (
  arith,
  h,
  length-append (take b.at b.buffer) (src ++ drop (b.at + length src) b.buffer),
  length-append src (drop (b.at + length src) b.buffer),
  length-take b.at b.buffer,
  length-drop (b.at + length src) b.buffer,
)

-- A Write with room.
after_write : Buffer → List ℕ → Buffer
after_write b src = record b {
  buffer = take b.at b.buffer ++ (src ++ drop (b.at + length src) b.buffer);
  at = b.at + length src;
}

write-eq :
    (b : Buffer) (src : List ℕ)
    → IsValid b
    → b.at + length src ≤ b.size
    → write b src ≡ ok (true, after_write b src)
unfolding write store after_write
write-eq b src v h =
    let enough : ltb (free_size b) (length src) ≡ false = ground (arith, h, v.within, v.small) in
    let inside : leb (b.at + length src) (length b.buffer) ≡ true = ground (arith, h, v.room) in
    let no_wrap : (b.at + length src) % 2 ^ 32 ≡ b.at + length src = omega (arith, h, v.small) in
    rw (enough, inside, no_wrap) refl

after_write-twice :
    (b : Buffer) (f g : List ℕ)
    → b.at + length f ≤ length b.buffer
    → after_write (after_write b f) g ≡ after_write b (f ++ g)
unfolding after_write
after_write-twice b f g h =
    ap₂ (λ (bytes : List ℕ) (n : ℕ). record b { buffer = bytes; at = n }) bytes (sym ends)
  where
    front : List ℕ
    front = take b.at b.buffer ++ f

    behind : List ℕ
    behind = drop (b.at + length f) b.buffer

    stored : take b.at b.buffer ++ (f ++ behind) ≡ front ++ behind
    stored = sym (append_assoc (take b.at b.buffer) f behind)

    length-front : b.at + length f ≡ length front
    length-front = omega (arith, h, length-append (take b.at b.buffer) f, length-take b.at b.buffer)

    ends : b.at + length (f ++ g) ≡ b.at + length f + length g
    ends = omega (arith, length-append f g)

    kept : take (b.at + length f) (take b.at b.buffer ++ (f ++ behind)) ≡ front
    kept =
        ap (take (b.at + length f)) stored
        ∙ take-append_length (b.at + length f) front behind length-front

    left :
        drop (b.at + length f + length g) (take b.at b.buffer ++ (f ++ behind))
        ≡ drop (b.at + length (f ++ g)) b.buffer
    left =
        ap (drop (b.at + length f + length g)) stored
        ∙ sym (
            drop-drop (b.at + length f + length g) (b.at + length f) (length g) (front ++ behind)
              refl)
        ∙ ap (drop (length g)) (drop-append_length (b.at + length f) front behind length-front)
        ∙ drop-drop (b.at + length (f ++ g)) (b.at + length f) (length g) b.buffer ends

    bytes :
        take (b.at + length f) (take b.at b.buffer ++ (f ++ behind))
          ++ (g ++ drop (b.at + length f + length g) (take b.at b.buffer ++ (f ++ behind)))
        ≡ take b.at b.buffer ++ ((f ++ g) ++ drop (b.at + length (f ++ g)) b.buffer)
    bytes =
        ap₂ (λ (x y : List ℕ). x ++ (g ++ y)) kept left
        ∙ append_assoc (take b.at b.buffer) f (g ++ drop (b.at + length (f ++ g)) b.buffer)
        ∙ ap (◌++◌ (take b.at b.buffer))
            (sym (append_assoc f g (drop (b.at + length (f ++ g)) b.buffer)))

after_write-IsValid :
    (b : Buffer) (f : List ℕ) → IsValid b → b.at + length f ≤ b.size → IsValid (after_write b f)
unfolding after_write
after_write-IsValid b f v h = record {
  within = h;
  room = omega (arith, v.room, length-stored b f (omega (arith, h, v.room)));
  small = v.small;
}

after_write-nil : (b : Buffer) → after_write b [] ≡ b
unfolding after_write
after_write-nil b =
    let e : b.at + 0 ≡ b.at = omega arith in rw (e, take-append-drop b.at b.buffer) refl

write_all-eq :
    (b : Buffer) (fs : List (List ℕ))
    → IsValid b
    → b.at + length (flatten fs) ≤ b.size
    → write_all b fs ≡ ok (true, after_write b (flatten fs))
unfolding write_all flatten after_write
write_all-eq b [] v h = ap (λ (d : Buffer). ok (true, d)) (sym (after_write-nil b))
write_all-eq b (f ∷ fs) v h =
    let sum : length (f ++ flatten fs) ≡ length f + length (flatten fs) =
      length-append f (flatten fs) in
    let fits : b.at + length f ≤ b.size = omega (arith, h, sum) in
    rw
      (
        write-eq b f v fits,
        write_all-eq (after_write b f) fs (after_write-IsValid b f v fits) (rest fits sum),
      )
      (ap (λ (d : Buffer). ok (true, d))
        (after_write-twice b f (flatten fs) (omega (arith, fits, v.room))))
  where
    rest :
        b.at + length f ≤ b.size
        → length (f ++ flatten fs) ≡ length f + length (flatten fs)
        → (after_write b f).at + length (flatten fs) ≤ (after_write b f).size
    rest fits sum = omega (arith, h, sum)

read_all-eq :
    (b : Buffer) (fs : List (List ℕ)) (tail : List ℕ)
    → drop b.at b.buffer ≡ flatten fs ++ tail
    → b.at + length (flatten fs) ≤ b.size
    → IsValid b
    → read_all b (map length fs) ≡ ok (fs, record b { at = b.at + length (flatten fs) })
unfolding read_all shift_right load flatten
read_all-eq b [] tail e h v = let e' : b.at + 0 ≡ b.at = omega arith in rw e' refl
read_all-eq b (f ∷ fs) tail e h v =
    let inside : leb (b.at + length f) (length b.buffer) ≡ true = ground (arith, h, sum, v.room) in
    let no_wrap : (b.at + length f) % 2 ^ 32 ≡ b.at + length f = omega (arith, h, sum, v.small) in
    rw (inside, no_wrap, first, read_all-eq next fs tail behind (omega (arith, h, sum)) valid)
      (ap (λ (n : ℕ). ok (f ∷ fs, record b { at = n })) (omega (arith, sum)))
  where
    sum : length (f ++ flatten fs) ≡ length f + length (flatten fs)
    sum = length-append f (flatten fs)

    first : take (length f) (drop b.at b.buffer) ≡ f
    first =
        ap (take (length f)) (e ∙ append_assoc f (flatten fs) tail)
        ∙ take-append_length (length f) f (flatten fs ++ tail) refl

    next : Buffer
    next = record b { at = b.at + length f }

    behind : drop (b.at + length f) b.buffer ≡ flatten fs ++ tail
    behind =
        sym (drop-drop (b.at + length f) b.at (length f) b.buffer refl)
        ∙ ap (drop (length f)) (e ∙ append_assoc f (flatten fs) tail)
        ∙ drop-append_length (length f) f (flatten fs ++ tail) refl

    valid : IsValid next
    valid = record { within = omega (arith, h, sum); room = v.room; small = v.small }

-- Fields that fit behind the position of a writer are all accepted by Write; and a reader that
-- starts where the writer started, on the block that the writer leaves, reads with operator>> values
-- of the same sizes: the fields.
pub read_all-write_all :
    (b : Buffer) (fs : List (List ℕ))
    → IsValid b
    → b.at + length (flatten fs) ≤ b.size
    → (w : Buffer) × (r : Buffer) × (write_all b fs ≡ ok (true, w))
      × (read_all (record w { at = b.at }) (map length fs) ≡ ok (fs, r))
      × (w.at ≡ b.at + length (flatten fs))
      × (r.at ≡ w.at)
unfolding after_write
read_all-write_all b fs v h = (
  after_write b (flatten fs),
  _,
  write_all-eq b fs v h,
  read_all-eq (record (after_write b (flatten fs)) { at = b.at }) fs
      (drop (b.at + length (flatten fs)) b.buffer) start h
      (record {
        within = v.within;
        room = (after_write-IsValid b (flatten fs) v h).room;
        small = v.small;
      }),
  refl,
  refl,
)
  where
    start :
        drop b.at (after_write b (flatten fs)).buffer
        ≡ flatten fs ++ drop (b.at + length (flatten fs)) b.buffer
    start =
        drop-append_length b.at (take b.at b.buffer)
          (flatten fs ++ drop (b.at + length (flatten fs)) b.buffer)
          (omega (arith, v.within, v.room, length-take b.at b.buffer))

-- A value that operator<< puts across the end of `size`, in a block that is larger, makes FreeSize
-- wrap around: from then on Write accepts whatever is shorter than 2 ^ 32 less the excess, and where
-- it leaves the block, the write is undefined.
pub shift_left-overrun :
    (b : Buffer) (src more : List ℕ)
    → IsValid b
    → b.size < b.at + length src
    → b.at + length src ≤ length b.buffer
    → length b.buffer < 2 ^ 31
    → length b.buffer < b.at + length src + length more
    → length more < 2 ^ 31
    → (b' : Buffer) × (shift_left b src ≡ ok b') × (write b' more ≡ fail undefined)
unfolding shift_left write store
shift_left-overrun b src more v over inside small out short =
    let inside' : leb (b.at + length src) (length b.buffer) ≡ true = ground (arith, inside) in
    let no_wrap : (b.at + length src) % 2 ^ 32 ≡ b.at + length src = omega (arith, inside, small) in
    let accepted : ltb ((b.size + (2 ^ 32 - (b.at + length src))) % 2 ^ 32) (length more) ≡ false =
      ground (arith, over, inside, small, short, v.within) in
    let outside : leb (b.at + length src + length more) (length b.buffer) ≡ false =
      ground (arith, out) in
    rw (inside', no_wrap) (_, refl, rw (accepted, length-stored b src inside, outside) refl)
