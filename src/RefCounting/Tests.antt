-- ===== src/RefCounting/Tests.antt =====
-- The theorem on pointers, applied to three pointers of which two share an object.
use multi_thread_test.Common.{◌==◌, if◌then◌else◌, ℕ, ◌+◌, Option, ok, some, List, [], ◌∷◌}
use multi_thread_test.RefCounting.{Heap, Destructor}
use multi_thread_test.RefCounting.Counts.{pointing}

abbrev ptrs : List (Option ℕ)
ptrs = some 5 ∷ some 6 ∷ some 6 ∷ []

-- Object 5 has one reference without a pointer.
abbrev raw : ℕ → ℕ
raw o = if o == 5 then 1 else 0

abbrev shared : Heap
shared = record { ref_count = λ o. pointing o ptrs + raw o; ptrs = ptrs }

abbrev nothing : Destructor
nothing o h = ok h
