-- ===== src/RefCounting.antt =====
-- JobTimer_소스코드 (1)/ServerCore/RefCounting.h: objects that count the references to them, and the
-- pointers TSharedPtr. Objects are numbers, the pointers alive are numbered by their place in `ptrs`.
-- An object whose count is 0 has been deleted, and every use of it is undefined. What an
-- object does when it is deleted is the user's code, an argument. Counts are unbounded
-- numbers in place of an int32, and one thread runs.
pub mod Counts
pub mod Tests
use multi_thread_test.Common.{
  ltb, ◌==◌, if◌then◌else◌, get_or, drop, Result, ◌>>=◌, ◌>>◌, require, ok, ℕ, zero, suc, ◌+◌, ◌-◌,
  Bool, true, false, Option, none, some, List, [], ◌∷◌,
}

pub record Heap : Type 0 where
  pub ref_count : ℕ → ℕ
  pub ptrs : List (Option ℕ)

-- `_ptr` of the pointer at `i`.
abbrev pub ptr_at : Heap → ℕ → Option ℕ
ptr_at h i = get_or h.ptrs i none

abbrev pub put_ptr : List (Option ℕ) → ℕ → Option ℕ → List (Option ℕ)
put_ptr [] i p = []
put_ptr (x ∷ xs) zero p = p ∷ xs
put_ptr (x ∷ xs) (suc i) p = x ∷ put_ptr xs i p

abbrev pub set_ptr : ℕ → Option ℕ → Heap → Heap
set_ptr i p h = record h { ptrs = put_ptr h.ptrs i p }

abbrev pub set_count : ℕ → ℕ → Heap → Heap
set_count o n h = record h { ref_count = λ x. if x == o then n else h.ref_count x }

-- RefCountable::AddRef
unfoldable pub add_ref : ℕ → Heap → Result Heap
add_ref o h = require (ltb 0 (h.ref_count o)) >> ok (set_count o (h.ref_count o + 1) h)

-- What the virtual destructor of an object does when it is deleted: it may release pointers among its
-- members.
abbrev pub Destructor : Type 0
Destructor = ℕ → Heap → Result Heap

-- RefCountable::ReleaseRef, which deletes the object at 0.
unfoldable pub release_ref : Destructor → ℕ → Heap → Result Heap
release_ref destructor o h =
    let h' = set_count o (h.ref_count o - 1) h in
    require (ltb 0 (h.ref_count o)) >> (if h.ref_count o - 1 == 0 then destructor o h' else ok h')

-- TSharedPtr::Set
unfoldable pub set : (i : ℕ) → Option ℕ → Heap → Result Heap
set i none h = ok (set_ptr i none h)
set i (some o) h = add_ref o (set_ptr i (some o) h)

-- TSharedPtr::Release
unfoldable pub release : Destructor → (i : ℕ) → Heap → Result Heap
release destructor i h = elim (ptr_at h i) [
  | none ↦ ok h
  | some o ↦ release_ref destructor o h >>= λ h'. ok (set_ptr i none h')
]

abbrev pub same_ptr : Option ℕ → Option ℕ → Bool
same_ptr none none = true
same_ptr (some a) (some b) = a == b
same_ptr _ _ = false

-- operator=(const TSharedPtr&), of the pointer at `i` from that at `rhs`.
unfoldable pub copy_assign : Destructor → (i rhs : ℕ) → Heap → Result Heap
copy_assign destructor i rhs h =
    if same_ptr (ptr_at h i) (ptr_at h rhs)
    then ok h
    else release destructor i h >>= λ h'. set i (ptr_at h' rhs) h'

-- operator=(TSharedPtr&&)
unfoldable pub move_assign : Destructor → (i rhs : ℕ) → Heap → Result Heap
move_assign destructor i rhs h =
    release destructor i h >>= λ h'. ok (set_ptr rhs none (set_ptr i (ptr_at h' rhs) h'))

-- The constructors put a new pointer in front: from an object or another pointer by Set, or by
-- taking the pointer of `rhs`, which is counted without the new one.
unfoldable pub construct : Option ℕ → Heap → Result Heap
construct p h = set 0 p (record h { ptrs = none ∷ h.ptrs })

unfoldable pub copy_construct : (rhs : ℕ) → Heap → Result Heap
copy_construct rhs h = construct (ptr_at h rhs) h

unfoldable pub move_construct : (rhs : ℕ) → Heap → Heap
move_construct rhs h = record h { ptrs = ptr_at h rhs ∷ put_ptr h.ptrs rhs none }

-- ~TSharedPtr
unfoldable pub destroy : Destructor → Heap → Result Heap
destroy destructor h = release destructor 0 h >>= λ h'. ok (record h' { ptrs = drop 1 h'.ptrs })
