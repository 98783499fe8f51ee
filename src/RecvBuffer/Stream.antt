-- ===== src/RecvBuffer/Stream.antt =====
-- The buffer as a queue of bytes: what `Received` adds, `OnRead` takes from the front, and `Clean`
-- leaves alone.
use multi_thread_test.Common.{
  le→ltb, length, take, drop, length-append, length-take, length-drop, length-replicate,
  take-append_length, drop-drop, drop-take, take-plus, ok, ℕ, ◌+◌, ◌-◌, ◌*◌, ◌≤◌, ◌≡◌, refl, sym,
  ap, ap₂, ◌∙◌, true, List, [], ◌++◌, arith,
}
use multi_thread_test.RecvBuffer.{RecvBuffer, init, data_size, free_size, clean, on_read, on_write}
use multi_thread_test.RecvBuffer.Bounds.{IsValid}

-- The bytes that have been received and not yet read.
abbrev pub contents : RecvBuffer → List ℕ
contents b = take (data_size b) (drop b.read_pos b.buffer)

-- What the operating system does before it completes a receive of `xs` into `WritePos`, of at most
-- `FreeSize` bytes: it writes them there, and nothing below.
pub record Received (b : RecvBuffer) (xs : List ℕ) (after : List ℕ) : Type 0 where
  pub fits : length xs ≤ free_size b
  pub same_length : length after ≡ length b.buffer
  pub kept : take b.write_pos after ≡ take b.write_pos b.buffer
  pub placed : take (length xs) (drop b.write_pos after) ≡ xs

pub length-contents : (b : RecvBuffer) → IsValid b → length (contents b) ≡ data_size b
length-contents b v =
    omega
      (arith, length-take (data_size b) (drop b.read_pos b.buffer), length-drop b.read_pos b.buffer)

-- A receive that `OnWrite` then records appends its bytes to the contents, and is never refused.
pub on_write-Received :
    (b : RecvBuffer) (xs after : List ℕ)
    → IsValid b
    → Received b xs after
    → let (accepted, c) = on_write (record b { buffer = after }) (length xs) in
      (accepted ≡ true) × (contents c ≡ contents b ++ xs)
unfolding on_write
on_write-Received b xs after v r = rw (le→ltb _ _ r.fits) (refl, appended)
  where
    rest : drop (data_size b) (drop b.read_pos after) ≡ drop b.write_pos after
    rest = drop-drop b.write_pos b.read_pos (data_size b) after (omega arith)

    old : take (data_size b) (drop b.read_pos after) ≡ contents b
    old =
        sym (drop-take b.read_pos b.write_pos after)
        ∙ ap (drop b.read_pos) r.kept
        ∙ drop-take b.read_pos b.write_pos b.buffer

    appended :
        take (b.write_pos + length xs - b.read_pos) (drop b.read_pos after) ≡ contents b ++ xs
    appended =
        take-plus (b.write_pos + length xs - b.read_pos) (data_size b) (length xs)
          (drop b.read_pos after) (omega arith)
        ∙ ap₂ ◌++◌ old (ap (take (length xs)) rest ∙ r.placed)

-- `OnRead` of no more than the contents removes that many bytes from their front.
pub on_read-contents :
    (b : RecvBuffer) (n : ℕ)
    → IsValid b
    → n ≤ data_size b
    → let (accepted, c) = on_read b n in (accepted ≡ true) × (contents c ≡ drop n (contents b))
unfolding on_read
on_read-contents b n v h = rw (le→ltb _ _ h) (refl, dropped)
  where
    left : b.write_pos - (b.read_pos + n) ≡ data_size b - n
    left = omega arith

    dropped :
        take (b.write_pos - (b.read_pos + n)) (drop (b.read_pos + n) b.buffer) ≡ drop n (contents b)
    dropped =
        ap (λ k. take k (drop (b.read_pos + n) b.buffer)) left
        ∙ ap (take (data_size b - n)) (sym (drop-drop (b.read_pos + n) b.read_pos n b.buffer refl))
        ∙ sym (drop-take n (data_size b) (drop b.read_pos b.buffer))

-- Where `Clean` is defined it keeps the contents.
pub clean-contents : (b c : RecvBuffer) → IsValid b → clean b ≡ ok c → contents c ≡ contents b
unfolding clean
clean-contents b c v e = ground (
  arith,
  take-append_length (data_size b) (contents b) (drop (data_size b) b.buffer),
  length-contents b v,
)

-- A new buffer, and the first bytes that it receives.
pub buffer_size-init : (n : ℕ) → (init n).buffer_size ≡ n
unfolding init
buffer_size-init n = refl

pub contents-init : (n : ℕ) → contents (init n) ≡ []
unfolding init
contents-init n = refl

pub init-Received :
    (n : ℕ) (xs : List ℕ)
    → length xs ≤ n
    → Received (init n) xs (xs ++ drop (length xs) (init n).buffer)
unfolding init
init-Received n xs h = record {
  fits = omega arith;
  same_length = omega (
    arith,
    length-append xs (drop (length xs) (init n).buffer),
    length-drop (length xs) (init n).buffer,
    length-replicate {A = ℕ} (n * 10) 0,
  );
  kept = refl;
  placed = take-append_length (length xs) xs (drop (length xs) (init n).buffer) refl;
}
