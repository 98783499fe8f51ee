-- ===== src/LockQueue/Order.antt =====
-- Push against Pop and PopAll.
use multi_thread_test.Common.{
  length, ℕ, zero, suc, ◌+◌, ◌<◌, ◌≡◌, refl, sym, ap, ◌∙◌, Option, none, some, List, [], ◌∷◌, ◌++◌,
  map, append-nil, append_assoc, arith,
}
use multi_thread_test.LockQueue.{LockQueue, push, pop, pop_all_loop, pop_all}

pub pushes : List (Option ℕ) → LockQueue → LockQueue
pushes [] q = q
pushes (i ∷ is) q = pushes is (push i q)

pushes-items : (is : List (Option ℕ)) (q : LockQueue) → (pushes is q).items ≡ q.items ++ is
unfolding pushes push
pushes-items [] q = sym (append-nil q.items)
pushes-items (i ∷ is) q = pushes-items is (push i q) ∙ append_assoc q.items (i ∷ []) is

-- The loop over `is`, in front of items of which Pop answers null.
loop-ends :
    (fuel : ℕ) (is : List ℕ) (behind left : List (Option ℕ)) (seen : List ℕ)
    → length is < fuel
    → pop (record { items = behind }) ≡ (none, record { items = left })
    → pop_all_loop fuel (record { items = map some is ++ behind }) seen
      ≡ some (seen ++ is, record { items = left })
unfolding pop_all_loop pop
loop-ends zero is behind left seen h e = absurd (omega (arith, h))
loop-ends (suc fuel) [] behind left seen h e =
    ap
      (λ (r : Option ℕ × LockQueue). elim r.0 as (λ _. Option (List ℕ × LockQueue)) [
        | none ↦ some (seen, r.1)
        | some i ↦ pop_all_loop fuel r.1 (seen ++ (i ∷ []))
      ])
      e
    ∙ ap (λ (l : List ℕ). some (l, record { items = left })) (sym (append-nil seen))
loop-ends (suc fuel) (i ∷ is) behind left seen h e =
    loop-ends fuel is behind left (seen ++ (i ∷ [])) (omega (arith, h)) e
    ∙ ap (λ (l : List ℕ). some (l, record { items = left })) (append_assoc seen (i ∷ []) is)

length-plus :
    (is : List ℕ) (behind : List (Option ℕ)) → length is < length (map some is ++ behind) + 1
length-plus [] behind = omega arith
length-plus (i ∷ is) behind = omega (arith, length-plus is behind)

-- After any pushes on an empty queue, PopAll ends. If no pointer is null it takes them all, in the
-- order of the pushes; a null pointer is where it stops: it takes those in front, drops the null
-- pointer, and leaves the rest.
pub pop_all-pushes :
    (is : List ℕ) (rest : List (Option ℕ))
    → (pop_all (pushes (map some is) (record { items = [] })) ≡ some (is, record { items = [] }))
      × (pop_all (pushes (map some is ++ (none ∷ rest)) (record { items = [] }))
          ≡ some (is, record { items = rest }))
unfolding pop_all pop
pop_all-pushes is rest = (
  rw (pushes-items (map some is) (record { items = [] }), ← append-nil (map some is))
      (loop-ends (length (map some is ++ []) + 1) is [] [] [] (length-plus is []) refl),
  rw (pushes-items (map some is ++ (none ∷ rest)) (record { items = [] })) (
      loop-ends (length (map some is ++ (none ∷ rest)) + 1) is (none ∷ rest) rest []
        (length-plus is (none ∷ rest)) refl),
)
