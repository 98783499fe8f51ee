-- ===== src/Lock/Tests.antt =====
-- The theorems on the lock, applied to two threads: the first has a write guard and a read guard in
-- it, the second is spinning in WriteLock.
use multi_thread_test.Common.{total, ℕ, ◌+◌, ◌≡◌, refl, ◌≢◌, List, [], ◌∷◌, arith}
use multi_thread_test.Lock.{
  owner, read_count, Mode, write, read, idle, write_spinning, write_first, write_acquire,
  write_enter, read_again, read_add, write_busy, write_unlock, write_uncount, write_release, Thread,
  System, move, Reach, here, later, start,
}
use multi_thread_test.Lock.Invariant.{reads, writes, guarding, AreIds}
use multi_thread_test.Lock.Exclusion.{writer_excludes, release_sound}

abbrev two_ids : List ℕ
two_ids = 1 ∷ 2 ∷ []

two_ids-AreIds : AreIds (start two_ids).threads
two_ids-AreIds = record {
  distinct = λ i. ground arith;
  not_zero = refl;
  in_range = λ i h. ground (arith, h);
}

abbrev first : List Mode → Thread
first guards = record { id = 1; pc = idle; guards = guards }

abbrev second : Thread
second = record { id = 2; pc = write_spinning; guards = [] }

abbrev written : System
written = record {
  lock = record { lock_flag = 65536; write_count = 1 };
  threads = first (write ∷ []) ∷ second ∷ [];
}

written-Reach : Reach (start two_ids) written
written-Reach =
    later
      (later
        (later
          (later
            (later here (omega arith)
              (move [] (_ ∷ []) refl (write_first (λ e. absurd (omega (arith, e))))))
            (omega arith) (move (_ ∷ []) [] refl (write_first (λ e. absurd (omega (arith, e))))))
          (omega arith) (move [] (_ ∷ []) refl (write_acquire refl)))
        (omega arith) (move [] (_ ∷ []) refl write_enter))
      (omega arith) (move (_ ∷ []) [] refl (write_busy (λ e. absurd (omega (arith, e)))))

abbrev read_inside : System
read_inside = record {
  lock = record { lock_flag = 65537; write_count = 1 };
  threads = first (read ∷ write ∷ []) ∷ second ∷ [];
}

read_inside-Reach : Reach (start two_ids) read_inside
read_inside-Reach =
    later (later written-Reach (omega arith) (move [] (_ ∷ []) refl (read_again refl)))
      (omega arith) (move [] (_ ∷ []) refl read_add)

writer_excludes_example : (total guarding [] ≡ 0) × (total guarding (second ∷ []) ≡ 0)
writer_excludes_example =
    writer_excludes two_ids [] (second ∷ []) (first (read ∷ write ∷ [])) two_ids-AreIds
      read_inside-Reach refl (omega arith)

release_sound_example :
    (read ∷ write ∷ [] ≡ read ∷ write ∷ [] → read_count read_inside.lock ≢ 0)
    × (read ∷ write ∷ [] ≡ write ∷ write ∷ []
        → (owner read_inside.lock ≡ 1)
          × (read_count read_inside.lock ≡ reads (write ∷ []))
          × (read_inside.lock.write_count ≡ 1 + writes (write ∷ [])))
release_sound_example = release_sound two_ids [] (second ∷ []) two_ids-AreIds read_inside-Reach refl

abbrev free_again : System
free_again = record {
  lock = record { lock_flag = 0; write_count = 0 };
  threads = first [] ∷ second ∷ [];
}

free_again-Reach : Reach (start two_ids) free_again
free_again-Reach =
    later
      (later (later written-Reach (omega arith) (move [] (_ ∷ []) refl (write_unlock refl refl)))
        (omega arith) (move [] (_ ∷ []) refl write_uncount))
      (omega arith) (move [] (_ ∷ []) refl (write_release refl))
