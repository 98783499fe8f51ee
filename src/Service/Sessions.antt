-- ===== src/Service/Sessions.antt =====
-- The sessions of a service over any calls, and the answers of Start.
use multi_thread_test.Common.{
  ◌==◌, if◌then◌else◌, length, total, ok, ℕ, ◌+◌, ◌≤◌, ◌≡◌, refl, true, false, List, [], ◌∷◌, arith,
}
use multi_thread_test.Service.{Service, contains, erase, add_session, release_session}

-- Each session is in the set once, and the count is theirs.
pub record IsValid (s : Service) : Type 0 where
  pub once : (i : ℕ) → total (λ x. if x == i then 1 else 0) s.sessions ≤ 1
  pub counted : s.session_count ≡ length s.sessions

pub count-contains :
    (i : ℕ) (xs : List ℕ) → contains i xs ≡ false → total (λ x. if x == i then 1 else 0) xs ≡ 0
count-contains i [] h = refl
count-contains i (x ∷ xs) h = ground (arith, h, count-contains i xs)

length-erase : (i : ℕ) (xs : List ℕ) → contains i xs ≡ true → length (erase i xs) + 1 ≡ length xs
length-erase i [] h = absurd (cc h)
length-erase i (x ∷ xs) h = ground (arith, h, length-erase i xs)

count-erase :
    (i j : ℕ) (xs : List ℕ)
    → total (λ x. if x == j then 1 else 0) (erase i xs) ≤ total (λ x. if x == j then 1 else 0) xs
count-erase i j [] = omega arith
count-erase i j (x ∷ xs) = ground (arith, count-erase i j xs)

-- A session that is not in the set is added, and the set stays sound.
pub add_session-IsValid :
    (session : ℕ) (s : Service)
    → IsValid s
    → contains session s.sessions ≡ false
    → IsValid (add_session session s)
unfolding add_session
add_session-IsValid session s v new = record {
  once = λ i. ground (arith, new, v.once i, count-contains session s.sessions new);
  counted = ground (arith, new, v.counted);
}

-- A session in the set is released, and the set stays sound.
pub release_session-IsValid :
    (session : ℕ) (s : Service)
    → IsValid s
    → contains session s.sessions ≡ true
    → (t : Service) × (release_session session s ≡ ok t) × IsValid t
unfolding release_session
release_session-IsValid session s v there = rw there (
  _,
  refl,
  record {
    once = λ i. omega (arith, v.once i, count-erase session i s.sessions);
    counted = omega (arith, v.counted, length-erase session s.sessions there);
  },
)
