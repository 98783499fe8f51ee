-- ===== src/Lock.antt =====
-- JobTimer_소스코드 (1)/ServerCore/Lock.h and Lock.cpp: the spin lock for many readers or one writer
-- that threads take by guards (ReadLockGuard, WriteLockGuard), which they release in the opposite
-- order. Each access to the lock is a step: a load, a compare-exchange, a fetch_add, the change of
-- the plain _writeCount. Masks and shifts are `/` and `%` by 65536. The calls of the profiler in a
-- debug build are left out.
pub mod Invariant
pub mod Preserve
pub mod Exclusion
pub mod Tests
use multi_thread_test.Common.{
  length, total, ℕ, ◌+◌, ◌-◌, ◌*◌, ◌/◌, ◌%◌, ◌^◌, ◌<◌, ◌≡◌, ◌≢◌, List, [], ◌∷◌, ◌++◌, map,
}

-- `_lockFlag`, a uint32: the writer's id in the upper half, the number of readers in the lower;
-- `_writeCount`, a uint16.
pub record Lock : Type 0 where
  pub lock_flag : ℕ
  pub write_count : ℕ

abbrev pub owner : Lock → ℕ
owner l = l.lock_flag / 65536

abbrev pub read_count : Lock → ℕ
read_count l = l.lock_flag % 65536

pub data Mode : Type 0 where
  write : Mode
  read : Mode

-- Where a thread stands, with the locals that are live there.
pub data Pc : Type 0 where
  idle : Pc
  write_counting : Pc  -- in WriteLock, before `_writeCount++`
  write_spinning : Pc
  read_adding : Pc  -- in ReadLock, before `fetch_add`
  read_spinning : Pc
  read_loaded : (expected : ℕ) → Pc
  write_releasing : Pc  -- in WriteUnlock, before `--_writeCount`
  write_released : (lock_count : ℕ) → Pc
  crashed : Pc

-- One step of the thread `id` (LThreadId), whose guards are `guards`, the last taken first.
pub data Move (id : ℕ) (l : Lock) (guards : List Mode) : Pc → Lock → Pc → List Mode → Type 0 where
  -- WriteLock
  write_again : id ≡ owner l → Move id l guards idle l write_counting guards
  write_first : id ≢ owner l → Move id l guards idle l write_spinning guards
  write_acquire :
      l.lock_flag ≡ 0
      → Move id l guards write_spinning
          (record l { lock_flag = (id * 65536) % 2 ^ 32 })
          write_counting
          guards
  write_busy : l.lock_flag ≢ 0 → Move id l guards write_spinning l write_spinning guards
  write_timeout : Move id l guards write_spinning l crashed guards
  write_enter :
      Move id l guards write_counting
        (record l { write_count = (l.write_count + 1) % 2 ^ 16 })
        idle
        (write ∷ guards)
  -- ReadLock
  read_again : id ≡ owner l → Move id l guards idle l read_adding guards
  read_first : id ≢ owner l → Move id l guards idle l read_spinning guards
  read_add :
      Move id l guards read_adding
        (record l { lock_flag = (l.lock_flag + 1) % 2 ^ 32 })
        idle
        (read ∷ guards)
  read_load : Move id l guards read_spinning l (read_loaded (read_count l)) guards
  read_acquire :
      {expected : ℕ}
      → l.lock_flag ≡ expected
      → Move id l guards
          (read_loaded expected)
          (record l { lock_flag = (expected + 1) % 2 ^ 32 })
          idle
          (read ∷ guards)
  read_busy :
      {expected : ℕ}
      → l.lock_flag ≢ expected
      → Move id l guards (read_loaded expected) l read_spinning guards
  read_timeout : Move id l guards read_spinning l crashed guards
  -- WriteUnlock
  write_unlock :
      {rest : List Mode}
      → guards ≡ write ∷ rest
      → read_count l ≡ 0
      → Move id l guards idle l write_releasing guards
  write_refuse :
      {rest : List Mode}
      → guards ≡ write ∷ rest
      → read_count l ≢ 0
      → Move id l guards idle l crashed guards
  write_uncount :
      Move id l guards write_releasing
        (record l { write_count = (l.write_count + (2 ^ 16 - 1)) % 2 ^ 16 })
        (write_released ((l.write_count + (2 ^ 16 - 1)) % 2 ^ 16))
        guards
  write_release :
      {rest : List Mode}
      → guards ≡ write ∷ rest
      → Move id l guards (write_released 0) (record l { lock_flag = 0 }) idle rest
  write_keep :
      {rest : List Mode} {lock_count : ℕ}
      → guards ≡ write ∷ rest
      → lock_count ≢ 0
      → Move id l guards (write_released lock_count) l idle rest
  -- ReadUnlock
  read_unlock :
      {rest : List Mode}
      → guards ≡ read ∷ rest
      → read_count l ≢ 0
      → Move id l guards idle
          (record l { lock_flag = (l.lock_flag + (2 ^ 32 - 1)) % 2 ^ 32 })
          idle
          rest
  read_refuse :
      {rest : List Mode}
      → guards ≡ read ∷ rest
      → read_count l ≡ 0
      → Move id l guards idle
          (record l { lock_flag = (l.lock_flag + (2 ^ 32 - 1)) % 2 ^ 32 })
          crashed
          guards

pub record Thread : Type 0 where
  pub id : ℕ
  pub pc : Pc
  pub guards : List Mode

pub record System : Type 0 where
  pub lock : Lock
  pub threads : List Thread

-- The scheduler lets any thread make its step.
pub data Step (x : System) : System → Type 0 where
  move :
      (before behind : List Thread) {id : ℕ} {pc pc' : Pc} {guards guards' : List Mode} {l : Lock}
      → x.threads ≡ before ++ (record { id = id; pc = pc; guards = guards } ∷ behind)
      → Move id x.lock guards pc l pc' guards'
      → Step x (record {
        lock = l;
        threads = before ++ (record { id = id; pc = pc'; guards = guards' } ∷ behind);
      })

-- Fewer guards than the counters can hold.
abbrev pub Fits : System → Type 0
Fits x = total (λ (t : Thread). length t.guards) x.threads < 65535

-- Runs along which the counters do not overflow.
pub data Reach (from : System) : System → Type 0 where
  here : Reach from from
  later : {x y : System} → Reach from x → Fits x → Step x y → Reach from y

abbrev pub launched : ℕ → Thread
launched id = record { id = id; pc = idle; guards = [] }

abbrev pub start : List ℕ → System
start ids = record { lock = record { lock_flag = 0; write_count = 0 }; threads = map launched ids }
