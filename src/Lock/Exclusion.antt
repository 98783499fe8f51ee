-- ===== src/Lock/Exclusion.antt =====
-- What the guards of a lock exclude, when they can be released, and for which ids.
use multi_thread_test.Common.{
  total, total-append, ℕ, ◌+◌, ◌*◌, ◌%◌, ◌^◌, ◌<◌, ◌≡◌, refl, ap, subst, ◌≢◌, List, [], ◌∷◌, ◌++◌,
  arith,
}
use multi_thread_test.Lock.{
  owner, read_count, Mode, write, read, idle, write_again, write_first, write_acquire, write_enter,
  Thread, System, move, Reach, here, later, start,
}
use multi_thread_test.Lock.Invariant.{
  writes, reads, entering, owning, reading, foreign, nested, guarding, AreIds, IsSound,
  writes-plus-reads, none-nested, around, Others, others,
}
use multi_thread_test.Lock.Preserve.{Holds, Reach-Holds, start-Holds}

no-guards : (ts : List Thread) → total owning ts ≡ 0 → total foreign ts ≡ 0 → total guarding ts ≡ 0
no-guards [] h k = refl
no-guards (t ∷ ts) h k =
    ground
      (arith, h, k, writes-plus-reads t.guards, no-guards ts (omega (arith, h)) (omega (arith, k)))

-- While a thread has a write guard, no other thread has a guard of either kind. For runs from
-- threads with distinct ids in 1 to 65535, with fewer than 65535 guards at any time.
pub writer_excludes :
    (ids : List ℕ) {x : System} (before behind : List Thread) (t : Thread)
    → AreIds (start ids).threads
    → Reach (start ids) x
    → x.threads ≡ before ++ (t ∷ behind)
    → 0 < writes t.guards
    → (total guarding before ≡ 0) × (total guarding behind ≡ 0)
writer_excludes ids {x} before behind t are r e h = (
  no-guards before (ground (arith, mine, o.others_own)) (ground (arith, mine, no_foreign)),
  no-guards behind (ground (arith, mine, o.others_own)) (ground (arith, mine, no_foreign)),
)
  where
    v : Holds x
    v = Reach-Holds (start-Holds ids are) r

    o : Others before behind x.lock t
    o = others before behind t (subst AreIds e v.ids) (subst (IsSound x.lock) e v.sound)

    mine : owning t ≡ 1
    mine = ground (arith, h)

    no_foreign : total foreign before + total foreign behind ≡ 0
    no_foreign = ground (
      arith,
      mine,
      o.others_own,
      v.sound.no_readers,
      ap (total foreign) e,
      total-append foreign before t behind,
    )

-- A thread that releases its last guard finds the lock as its guards say. A read guard never crashes
-- in ReadUnlock. In WriteUnlock the word has the thread as its owner and counts the thread's own
-- guards, so that it crashes exactly if the thread still has read guards. For runs from threads with
-- distinct ids in 1 to 65535, with fewer than 65535 guards at any time.
pub release_sound :
    (ids : List ℕ) {x : System} (before behind : List Thread) {id : ℕ} {guards rest : List Mode}
    → AreIds (start ids).threads
    → Reach (start ids) x
    → x.threads ≡ before ++ (record { id = id; pc = idle; guards = guards } ∷ behind)
    → (guards ≡ read ∷ rest → read_count x.lock ≢ 0)
      × (guards ≡ write ∷ rest
          → (owner x.lock ≡ id)
            × (read_count x.lock ≡ reads rest)
            × (x.lock.write_count ≡ 1 + writes rest))
release_sound ids {x} before behind {id} {guards} {rest} are r e = (
  λ h. ground (arith, h, w.flag, w.few, total-append reading before t behind),
  λ h. ground (
    arith,
    h,
    w.flag,
    w.few,
    w.count,
    w.no_readers,
    o.same_name,
    o.others_own,
    o.none_nested,
    o.none_foreign,
    total-append reading before t behind,
    total-append nested before t behind,
    total-append foreign before t behind,
  ),
)
  where
    t : Thread
    t = record { id = id; pc = idle; guards = guards }

    v : Holds x
    v = Reach-Holds (start-Holds ids are) r

    w : IsSound x.lock (around before behind t)
    w = subst (IsSound x.lock) e v.sound

    o : Others before behind x.lock t
    o = others before behind t (subst AreIds e v.ids) w

-- Where no thread has a guard or stands between its compare-exchange and its count, the lock is as
-- at the start.
pub all_released :
    (ids : List ℕ) {x : System}
    → AreIds (start ids).threads
    → Reach (start ids) x
    → total guarding x.threads ≡ 0
    → total (λ (t : Thread). entering t.pc) x.threads ≡ 0
    → (x.lock.lock_flag ≡ 0) × (x.lock.write_count ≡ 0)
all_released ids {x} are r h k = ground (
  arith,
  v.sound.flag,
  v.sound.one_owner,
  v.sound.count,
  unused x.threads h k,
  none-nested x.threads,
)
  where
    v : Holds x
    v = Reach-Holds (start-Holds ids are) r

    unused :
        (ts : List Thread)
        → total guarding ts ≡ 0
        → total (λ (t : Thread). entering t.pc) ts ≡ 0
        → (total owning ts ≡ 0) × (total reading ts ≡ 0)
    unused [] h k = (refl, refl)
    unused (t ∷ ts) h k =
        ground
          (arith, h, k, writes-plus-reads t.guards, unused ts (omega (arith, h)) (omega (arith, k)))

abbrev pub writer : ℕ → Thread
writer id = record { id = id; pc = idle; guards = write ∷ [] }

-- A thread with id 0, the value of LThreadId in a thread that ThreadManager did not launch, shares
-- the lock for writing with a thread of any other id below 65536: WriteLock takes a free lock for
-- one that thread 0 owns.
pub zero_id_shares :
    (id : ℕ)
    → 0 < id
    → id < 65536
    → Reach (start (0 ∷ id ∷ [])) (record {
      lock = record { lock_flag = (id * 65536) % 2 ^ 32; write_count = 2 };
      threads = writer 0 ∷ writer id ∷ [];
    })
zero_id_shares id h k =
    later
      (later
        (later
          (later
            (later here (omega arith)
              (move [] (record { id = id; pc = idle; guards = [] } ∷ []) refl (write_again refl)))
            (omega arith) (move (_ ∷ []) [] refl (write_first (λ e. absurd (omega (arith, e, h))))))
          (omega arith) (move (_ ∷ []) [] refl (write_acquire refl)))
        (omega arith) (move (_ ∷ []) [] refl write_enter))
      (omega arith) (move [] (_ ∷ []) refl write_enter)
