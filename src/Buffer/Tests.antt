-- ===== src/Buffer/Tests.antt =====
-- The theorems on readers and writers, applied to a block of eight bytes.
use multi_thread_test.Common.{ok, ℕ, ◌≡◌, true, List, [], ◌∷◌, arith, flatten}
use multi_thread_test.Buffer.{Buffer}
use multi_thread_test.Buffer.RoundTrip.{write_all, read_all, IsValid, read_all-write_all}

abbrev eight : List ℕ
eight = 0 ∷ 0 ∷ 0 ∷ 0 ∷ 0 ∷ 0 ∷ 0 ∷ 0 ∷ []

abbrev fields : List (List ℕ)
fields = (1 ∷ 2 ∷ []) ∷ (3 ∷ 4 ∷ 5 ∷ 6 ∷ []) ∷ []

abbrev writer : Buffer
writer = record { buffer = eight; size = 8; at = 2 }

writer-IsValid : IsValid writer
writer-IsValid = record { within = omega arith; room = omega arith; small = omega arith }

read_all-write_all_example :
    (w : Buffer) × (r : Buffer) × (write_all writer fields ≡ ok (true, w))
    × (read_all (record w { at = 2 }) (2 ∷ 4 ∷ []) ≡ ok (fields, r))
    × (w.at ≡ 8)
    × (r.at ≡ w.at)
unfolding flatten
read_all-write_all_example = read_all-write_all writer fields writer-IsValid (omega arith)

-- Of the eight bytes four are the writer's.
abbrev short_writer : Buffer
short_writer = record { buffer = eight; size = 4; at = 3 }

short_writer-IsValid : IsValid short_writer
short_writer-IsValid = record { within = omega arith; room = omega arith; small = omega arith }
