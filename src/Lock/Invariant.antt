-- ===== src/Lock/Invariant.antt =====
-- What the word of the lock says about the guards of the threads.
use multi_thread_test.Common.{
  ◌==◌, if◌then◌else◌, length, total, total-append, ℕ, ◌+◌, ◌-◌, ◌*◌, ◌≤◌, ◌<◌, ◌≡◌, refl, List, [],
  ◌∷◌, ◌++◌, arith,
}
use multi_thread_test.Lock.{
  Lock, owner, Mode, write, read, Pc, idle, write_counting, write_spinning, read_adding,
  read_spinning, read_loaded, write_releasing, write_released, crashed, Thread,
}

abbrev pub writes : List Mode → ℕ
writes [] = 0
writes (write ∷ gs) = 1 + writes gs
writes (read ∷ gs) = writes gs

abbrev pub reads : List Mode → ℕ
reads [] = 0
reads (write ∷ gs) = reads gs
reads (read ∷ gs) = 1 + reads gs

abbrev pub entering : Pc → ℕ
entering write_counting = 1
entering _ = 0

abbrev pub released : Pc → ℕ
released (write_released _) = 1
released _ = 0

-- Whether the thread has the lock for writing: from its compare-exchange until its store of 0.
abbrev pub owns : Pc → List Mode → ℕ
owns pc gs = if writes gs == 0 then entering pc else 1

-- What of its guards the thread has in `_writeCount`.
abbrev pub depth : Pc → List Mode → ℕ
depth pc gs = writes gs - released pc

-- What the thread knows from the loads that it has made.
abbrev pub Knows : Pc → List Mode → Type 0
Knows read_adding gs = 0 < writes gs
Knows (read_loaded expected) gs = expected < 65536
Knows write_releasing gs = (reads gs ≡ 0) × (0 < writes gs)
Knows (write_released lock_count) gs = (reads gs ≡ 0) × (lock_count + 1 ≡ writes gs)
Knows _ gs = Unit

abbrev pub Known : List Thread → Type 0
Known [] = Unit
Known (t ∷ ts) = Knows t.pc t.guards × Known ts

abbrev pub owning : Thread → ℕ
owning t = owns t.pc t.guards

abbrev pub reading : Thread → ℕ
reading t = reads t.guards

-- The read guards of a thread that does not have the lock for writing.
abbrev pub foreign : Thread → ℕ
foreign t = if owns t.pc t.guards == 0 then reads t.guards else 0

abbrev pub nested : Thread → ℕ
nested t = depth t.pc t.guards

abbrev pub guarding : Thread → ℕ
guarding t = length t.guards

abbrev pub named : ℕ → Thread → ℕ
named i t = if t.id == i then 1 else 0

abbrev pub owning_as : ℕ → Thread → ℕ
owning_as i t = if t.id == i then owns t.pc t.guards else 0

-- The ids are distinct and are not 0 nor too large for the upper half of the word.
pub record AreIds (threads : List Thread) : Type 0 where
  pub distinct : (i : ℕ) → total (named i) threads ≤ 1
  pub not_zero : total (named 0) threads ≡ 0
  pub in_range : (i : ℕ) → 65536 ≤ i → total (named i) threads ≡ 0

pub record IsSound (l : Lock) (threads : List Thread) : Type 0 where
  pub flag : l.lock_flag ≡ owner l * 65536 + total reading threads
  pub few : total reading threads < 65536
  pub one_owner : total owning threads ≡ (if owner l == 0 then 0 else 1)
  pub owner_named : (i : ℕ) → i ≡ owner l → total (owning_as i) threads ≡ total owning threads
  pub no_readers : 0 < owner l → total foreign threads ≡ 0
  pub count : l.write_count ≡ total nested threads
  pub known : Known threads

pub entering-le : (pc : Pc) → entering pc ≤ 1
entering-le write_counting = omega arith
entering-le idle = omega arith
entering-le write_spinning = omega arith
entering-le read_adding = omega arith
entering-le read_spinning = omega arith
entering-le (read_loaded _) = omega arith
entering-le write_releasing = omega arith
entering-le (write_released _) = omega arith
entering-le crashed = omega arith

pub owning-le : (t : Thread) → owning t ≤ 1
owning-le t = ground (arith, entering-le t.pc)

pub writes-plus-reads : (gs : List Mode) → writes gs + reads gs ≡ length gs
writes-plus-reads [] = refl
writes-plus-reads (write ∷ gs) = omega (arith, writes-plus-reads gs)
writes-plus-reads (read ∷ gs) = omega (arith, writes-plus-reads gs)

pub nested-reading-le : (ts : List Thread) → total nested ts + total reading ts ≤ total guarding ts
nested-reading-le [] = omega arith
nested-reading-le (t ∷ ts) = omega (arith, nested-reading-le ts, writes-plus-reads t.guards)

pub foreign-le : (ts : List Thread) → total foreign ts ≤ total reading ts
foreign-le [] = omega arith
foreign-le (t ∷ ts) = ground (arith, foreign-le ts)

-- Threads of which none has the lock for writing.
pub none-nested : (ts : List Thread) → total owning ts ≡ 0 → total nested ts ≡ 0
none-nested [] h = refl
none-nested (t ∷ ts) h =
    let rest : total owning ts ≡ 0 = omega (arith, h) in ground (arith, h, none-nested ts rest)

none-foreign : (ts : List Thread) → total owning ts ≡ 0 → total foreign ts ≡ total reading ts
none-foreign [] h = refl
none-foreign (t ∷ ts) h =
    let rest : total owning ts ≡ 0 = omega (arith, h) in ground (arith, h, none-foreign ts rest)

unnamed : (i : ℕ) (ts : List Thread) → total (named i) ts ≡ 0 → total (owning_as i) ts ≡ 0
unnamed i [] h = refl
unnamed i (t ∷ ts) h =
    let rest : total (named i) ts ≡ 0 = omega (arith, h) in ground (arith, h, unnamed i ts rest)

pub owning_as-le : (i : ℕ) (ts : List Thread) → total (owning_as i) ts ≤ total owning ts
owning_as-le i [] = omega arith
owning_as-le i (t ∷ ts) = ground (arith, owning_as-le i ts)

pub Known-at :
    (before : List Thread) (t : Thread) (behind : List Thread)
    → Known (before ++ (t ∷ behind))
    → Knows t.pc t.guards
Known-at [] t behind k = k.0
Known-at (_ ∷ before) t behind k = Known-at before t behind (k.1)

pub Known-put :
    (before : List Thread) (t t' : Thread) (behind : List Thread)
    → Knows t'.pc t'.guards
    → Known (before ++ (t ∷ behind))
    → Known (before ++ (t' ∷ behind))
Known-put [] t t' behind k' k = (k', k.1)
Known-put (_ ∷ before) t t' behind k' k = (k.0, Known-put before t t' behind k' (k.1))

module _ (before behind : List Thread) where
  abbrev pub around : Thread → List Thread
  around t = before ++ (t ∷ behind)

  -- What the invariant says where one thread is singled out.
  pub record Others (l : Lock) (t : Thread) : Type 0 where
    pub others_own :
        total owning before + total owning behind + owning t ≡ (if owner l == 0 then 0 else 1)
    pub same_name : owning t ≡ 1 → t.id ≡ owner l
    pub own_name : t.id ≡ owner l → owning t ≡ 1
    pub none_nested : owning t ≡ 1 → (total nested before ≡ 0) × (total nested behind ≡ 0)
    pub none_foreign :
        owning t ≡ 1
        → (total foreign before ≡ total reading before)
          × (total foreign behind ≡ total reading behind)

  pub others : {l : Lock} (t : Thread) → AreIds (around t) → IsSound l (around t) → Others l t
  others {l} t ids v = record {
    others_own = ground (arith, v.one_owner, total-append owning before t behind);
    same_name = λ h. ground (
      arith,
      h,
      v.one_owner,
      total-append owning before t behind,
      v.owner_named (owner l) refl,
      total-append (owning_as (owner l)) before t behind,
      owning_as-le (owner l) before,
      owning_as-le (owner l) behind,
    );
    own_name = λ h. ground (
      arith,
      h,
      v.one_owner,
      v.owner_named t.id h,
      ids.distinct t.id,
      ids.not_zero,
      total-append (named t.id) before t behind,
      total-append (named 0) before t behind,
      total-append (owning_as t.id) before t behind,
      unnamed t.id before,
      unnamed t.id behind,
    );
    none_nested = λ h. (none-nested before (none_before h), none-nested behind (none_behind h));
    none_foreign = λ h. (none-foreign before (none_before h), none-foreign behind (none_behind h));
  }
    where
      none_before : owning t ≡ 1 → total owning before ≡ 0
      none_before h = ground (arith, h, v.one_owner, total-append owning before t behind)

      none_behind : owning t ≡ 1 → total owning behind ≡ 0
      none_behind h = ground (arith, h, v.one_owner, total-append owning before t behind)
