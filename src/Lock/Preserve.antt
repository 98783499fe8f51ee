-- ===== src/Lock/Preserve.antt =====
-- Steps of the threads against the invariant of the lock.
use multi_thread_test.Common.{
  ◌==◌, if◌then◌else◌, total, total-append, ℕ, ◌+◌, ◌*◌, ◌≤◌, ◌<◌, ◌≡◌, refl, sym, subst, ◌⊎◌, List,
  [], ◌∷◌, map, arith,
}
use multi_thread_test.Lock.{
  Lock, owner, Mode, Pc, Move, write_again, write_first, write_acquire, write_busy, write_timeout,
  write_enter, read_again, read_first, read_add, read_load, read_acquire, read_busy, read_timeout,
  write_unlock, write_refuse, write_uncount, write_release, write_keep, read_unlock, read_refuse,
  Thread, System, Step, move, Fits, Reach, here, later, launched, start,
}
use multi_thread_test.Lock.Invariant.{
  Knows, Known, owning, reading, foreign, nested, guarding, named, owning_as, AreIds, IsSound,
  owning-le, nested-reading-le, foreign-le, owning_as-le, none-nested, Known-at, Known-put, around,
  Others, others,
}

module _ (before behind : List Thread) where
  -- What is known of the sums where this thread goes from `t` to `t'`.
  module _ (l : Lock) (t t' : Thread) where
    abbrev Context : Type 0
    Context =
        (l.lock_flag ≡ owner l * 65536 + total reading (around before behind t))
        × (l.write_count + total reading (around before behind t) < 65535)
        × (owning t ≡ 1 → total foreign before ≡ total reading before)
        × (owning t ≡ 1 → total foreign behind ≡ total reading behind)
        × (owning t ≡ 1 → total nested before ≡ 0)
        × (owning t ≡ 1 → total nested behind ≡ 0)
        × (owning t ≡ 1 → t.id ≡ owner l)
        × (t.id ≡ owner l → owning t ≡ 1)
        × (total owning before + total owning behind + owning t ≡ (if owner l == 0 then 0 else 1))
        × (0 < owner l → total foreign before + total foreign behind + foreign t ≡ 0)
        × (l.write_count ≡ total nested before + total nested behind + nested t)
        × (total reading (around before behind t)
            ≡ total reading before + total reading behind + reading t)
        × (total reading (around before behind t')
            ≡ total reading before + total reading behind + reading t')
        × (total foreign before ≤ total reading before)
        × (total foreign behind ≤ total reading behind)
        × (0 < t.id)
        × (t.id < 65536)

    context :
        AreIds (around before behind t)
        → total guarding (around before behind t) < 65535
        → IsSound l (around before behind t)
        → Context
    context ids fits v = (
      v.flag,
      omega (arith, fits, v.count, nested-reading-le (around before behind t)),
      λ h. (o.none_foreign h).0,
      λ h. (o.none_foreign h).1,
      λ h. (o.none_nested h).0,
      λ h. (o.none_nested h).1,
      o.same_name,
      o.own_name,
      o.others_own,
      λ h. omega (arith, v.no_readers h, total-append foreign before t behind),
      omega (arith, v.count, total-append nested before t behind),
      omega (arith, total-append reading before t behind),
      omega (arith, total-append reading before t' behind),
      foreign-le before,
      foreign-le behind,
      ground (arith, ids.not_zero, total-append (named 0) before t behind),
      ground (arith, ids.in_range t.id, total-append (named t.id) before t behind),
    )
      where
        o : Others before behind l t
        o = others before behind t ids v

    -- What a step has to establish.
    abbrev Effect : Lock → Type 0
    Effect l' =
        (l'.lock_flag
          ≡ owner l' * 65536 + (total reading before + total reading behind + reading t'))
        × (total reading before + total reading behind + reading t' < 65536)
        × (l'.write_count ≡ total nested before + total nested behind + nested t')
        × (0 < owner l' → total foreign before + total foreign behind + foreign t' ≡ 0)
        × Knows t'.pc t'.guards
        × (((owner l' ≡ owner l) × (owning t' ≡ owning t))
            ⊎ ((total owning before + total owning behind ≡ 0)
                × (owning t' ≡ (if owner l' == 0 then 0 else 1))
                × (owning t' ≡ 1 → t'.id ≡ owner l')))

  module _ {id : ℕ} {l : Lock} {gs : List Mode} where
    Move-Effect :
        {l' : Lock} {pc pc' : Pc} {gs' : List Mode}
        → Move id l gs pc l' pc' gs'
        → Context l
            (record { id = id; pc = pc; guards = gs })
            (record { id = id; pc = pc'; guards = gs' })
        → Knows pc gs
        → Effect l
            (record { id = id; pc = pc; guards = gs })
            (record { id = id; pc = pc'; guards = gs' })
            l'
    Move-Effect (write_again e) c k = ground (arith, e, c, k)
    Move-Effect (write_first e) c k = ground (arith, e, c, k)
    Move-Effect (write_acquire e) c k = ground (arith, e, c, k)
    Move-Effect (write_busy e) c k = ground (arith, e, c, k)
    Move-Effect write_timeout c k = ground (arith, c, k)
    Move-Effect write_enter c k = ground (arith, c, k)
    Move-Effect (read_again e) c k = ground (arith, e, c, k)
    Move-Effect (read_first e) c k = ground (arith, e, c, k)
    Move-Effect read_add c k = ground (arith, c, k)
    Move-Effect read_load c k = ground (arith, c, k)
    Move-Effect (read_acquire e) c k = ground (arith, e, c, k)
    Move-Effect (read_busy e) c k = ground (arith, e, c, k)
    Move-Effect read_timeout c k = ground (arith, c, k)
    Move-Effect (write_unlock e h) c k = ground (arith, e, h, c, k)
    Move-Effect (write_refuse e h) c k = ground (arith, e, h, c, k)
    Move-Effect write_uncount c k = ground (arith, c, k)
    Move-Effect (write_release e) c k = ground (arith, e, c, k)
    Move-Effect (write_keep e h) c k = ground (arith, e, h, c, k)
    Move-Effect (read_unlock e h) c k = ground (arith, e, h, c, k)
    Move-Effect (read_refuse e h) c k = ground (arith, e, h, c, k)

  Effect-IsSound :
      {l l' : Lock} (t t' : Thread)
      → t.id ≡ t'.id
      → IsSound l (around before behind t)
      → Effect l t t' l'
      → IsSound l' (around before behind t')
  Effect-IsSound {l} {l'} t t' same v (flag, few, count, readers, knows, change) = record {
    flag = omega (arith, flag, total-append reading before t' behind);
    few = omega (arith, few, total-append reading before t' behind);
    one_owner = ground (
      arith,
      change,
      v.one_owner,
      total-append owning before t behind,
      total-append owning before t' behind,
    );
    owner_named = λ i e. ground (
      arith,
      e,
      same,
      change,
      v.owner_named i,
      total-append owning before t behind,
      total-append owning before t' behind,
      total-append (owning_as i) before t behind,
      total-append (owning_as i) before t' behind,
      owning_as-le i before,
      owning_as-le i behind,
      owning-le t',
    );
    no_readers = λ h. omega (arith, readers h, total-append foreign before t' behind);
    count = omega (arith, count, total-append nested before t' behind);
    known = Known-put before t t' behind knows v.known;
  }

  same-AreIds :
      (t t' : Thread)
      → t.id ≡ t'.id
      → AreIds (around before behind t)
      → AreIds (around before behind t')
  same-AreIds t t' same ids = record {
    distinct = λ i. omega (arith, ids.distinct i, sums i);
    not_zero = omega (arith, ids.not_zero, sums 0);
    in_range = λ i h. omega (arith, ids.in_range i h, sums i);
  }
    where
      sums :
          (i : ℕ)
          → total (named i) (around before behind t') ≡ total (named i) (around before behind t)
      sums i = ground (
        arith,
        same,
        total-append (named i) before t behind,
        total-append (named i) before t' behind,
      )

pub record Holds (x : System) : Type 0 where
  pub ids : AreIds x.threads
  pub sound : IsSound x.lock x.threads

Step-Holds : {x y : System} → Fits x → Step x y → Holds x → Holds y
Step-Holds {x} fits (move before behind {id} {pc} {pc'} {guards} {guards'} {l} e mv) v = record {
  ids = same-AreIds before behind t t' refl ids;
  sound = Effect-IsSound before behind t t' refl sound (
      Move-Effect before behind mv
        (context before behind x.lock t t' ids (subst (λ ts. total guarding ts < 65535) e fits)
          sound)
        (Known-at before t behind sound.known));
}
  where
    t : Thread
    t = record { id = id; pc = pc; guards = guards }

    t' : Thread
    t' = record { id = id; pc = pc'; guards = guards' }

    ids : AreIds (around before behind t)
    ids = subst AreIds e v.ids

    sound : IsSound x.lock (around before behind t)
    sound = subst (IsSound x.lock) e v.sound

pub Reach-Holds : {x y : System} → Holds x → Reach x y → Holds y
Reach-Holds v here = v
Reach-Holds v (later r fits st) = Step-Holds fits st (Reach-Holds v r)

-- The ids that the threads are launched with.
pub start-Holds : (ids : List ℕ) → AreIds (start ids).threads → Holds (start ids)
start-Holds ids are = record {
  ids = are;
  sound = record {
    flag = omega (arith, none_reading ids);
    few = omega (arith, none_reading ids);
    one_owner = ground (arith, none_owning ids);
    owner_named = λ i e. ground (arith, owning_as-le i (map launched ids), none_owning ids);
    no_readers = λ h. absurd (omega (arith, h));
    count = sym (none-nested (map launched ids) (none_owning ids));
    known = none_known ids;
  };
}
  where
    none_owning : (ids : List ℕ) → total owning (map launched ids) ≡ 0
    none_owning [] = refl
    none_owning (_ ∷ ids) = omega (arith, none_owning ids)

    none_reading : (ids : List ℕ) → total reading (map launched ids) ≡ 0
    none_reading [] = refl
    none_reading (_ ∷ ids) = omega (arith, none_reading ids)

    none_known : (ids : List ℕ) → Known (map launched ids)
    none_known [] = tt
    none_known (_ ∷ ids) = (tt, none_known ids)
