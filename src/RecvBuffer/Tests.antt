-- ===== src/RecvBuffer/Tests.antt =====
-- A buffer of ten bytes: its behaviour on concrete inputs, and the theorems applied to them.
use multi_thread_test.Common.{
  negsuc, undefined, fail, true, ◌↔◌, ok, ℕ, ◌≤◌, ◌≡◌, refl, false, List, [], ◌∷◌, arith,
}
use multi_thread_test.RecvBuffer.{
  RecvBuffer, init, clean, on_read, on_write, on_read_int, on_write_int,
}
use multi_thread_test.RecvBuffer.Bounds.{IsValid, Keeps, GoesBackAtMost, methods-IsValid}
use multi_thread_test.RecvBuffer.Stream.{Received}

abbrev ten : List ℕ
ten = 0 ∷ 1 ∷ 2 ∷ 3 ∷ 4 ∷ 5 ∷ 6 ∷ 7 ∷ 8 ∷ 9 ∷ []

abbrev at : ℕ → ℕ → RecvBuffer
at read write = record {
  capacity = 10;
  buffer_size = 1;
  read_pos = read;
  write_pos = write;
  buffer = ten;
}

init_ten : init 1 ≡ record (at 0 0) { buffer = 0 ∷ 0 ∷ 0 ∷ 0 ∷ 0 ∷ 0 ∷ 0 ∷ 0 ∷ 0 ∷ 0 ∷ [] }
unfolding init
init_ten = refl

clean_full :
    clean (at 8 10) ≡ ok (record (at 0 2) { buffer = 8 ∷ 9 ∷ 2 ∷ 3 ∷ 4 ∷ 5 ∷ 6 ∷ 7 ∷ 8 ∷ 9 ∷ [] })
unfolding clean
clean_full = refl

refusals : ((on_read (at 2 5) 4).0 ≡ false) × ((on_write (at 2 5) 6).0 ≡ false)
unfolding on_read on_write
refusals = (refl, refl)

at-IsValid : (r w : ℕ) → r ≤ w → w ≤ 10 → IsValid (at r w)
at-IsValid r w h k = omega arith

methods-IsValid_example :
    (Keeps (on_read_int (at 2 5) (negsuc 2)) ↔ GoesBackAtMost 2 (negsuc 2))
    × (Keeps (on_write_int (at 2 5) (negsuc 2)) ↔ GoesBackAtMost 3 (negsuc 2))
    × ((c : RecvBuffer) → clean (at 2 5) ≡ ok c → IsValid c)
methods-IsValid_example =
    methods-IsValid (at 2 5) (negsuc 2) (at-IsValid 2 5 (omega arith) (omega arith))

-- OnRead(-3) at position 2 leaves the array, OnWrite(-3) does not.
gone_back :
    (on_read_int (at 2 5) (negsuc 2) ≡ fail undefined)
    × (on_write_int (at 2 5) (negsuc 2) ≡ ok (true, at 2 2))
unfolding on_read_int on_write_int
gone_back = (refl, refl)

abbrev filled : List ℕ
filled = 0 ∷ 1 ∷ 2 ∷ 3 ∷ 4 ∷ 70 ∷ 71 ∷ 7 ∷ 8 ∷ 9 ∷ []

filled-Received : Received (at 2 5) (70 ∷ 71 ∷ []) filled
filled-Received = record { fits = omega arith; same_length = refl; kept = refl; placed = refl }
