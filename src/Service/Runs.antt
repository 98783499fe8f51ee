-- ===== src/Service/Runs.antt =====
-- Service::AddSession, ReleaseSession and Broadcast over any calls, against a set of sessions.
use multi_thread_test.Common.{
  ◌==◌, if◌then◌else◌, total, total-plus, Result, ◌>>=◌, ok, ℕ, ◌+◌, ◌-◌, ◌≤◌, ◌≡◌, refl, ◌∙◌,
  subst, ◌≢◌, Bool, true, false, List, [], ◌∷◌, arith,
}
use multi_thread_test.Service.{Service, contains, erase, add_session, release_session, broadcast}
use multi_thread_test.Service.Sessions.{
  IsValid, add_session-IsValid, release_session-IsValid, count-contains,
}

pub data Call : Type 0 where
  add release : (session : ℕ) → Call

unfoldable pub run : List Call → Service → Result Service
run [] s = ok s
run (add i ∷ calls) s = run calls (add_session i s)
run (release i ∷ calls) s = release_session i s >>= run calls

-- The set after a call.
abbrev pub after : Call → (ℕ → Bool) → (ℕ → Bool)
after (add i) set j = if j == i then true else set j
after (release i) set j = if j == i then false else set j

abbrev pub after_all : List Call → (ℕ → Bool) → (ℕ → Bool)
after_all [] set = set
after_all (c ∷ calls) set = after_all calls (after c set)

-- A session is added that is not in the set, and released that is.
abbrev pub Allowed : List Call → (ℕ → Bool) → Type 0
Allowed [] set = Unit {0}
Allowed (add i ∷ calls) set = (set i ≡ false) × Allowed calls (after (add i) set)
Allowed (release i ∷ calls) set = (set i ≡ true) × Allowed calls (after (release i) set)

abbrev pub Holds : (ℕ → Bool) → Service → Type 0
Holds set s = (i : ℕ) → contains i s.sessions ≡ set i

abbrev times : ℕ → List ℕ → ℕ
times i xs = total (λ x. if x == i then 1 else 0) xs

contains-erase_other : (i j : ℕ) (xs : List ℕ) → j ≢ i → contains j (erase i xs) ≡ contains j xs
contains-erase_other i j [] h = refl
contains-erase_other i j (x ∷ xs) h = ground (arith, contains-erase_other i j xs h)

contains-times : (i : ℕ) (xs : List ℕ) → times i xs ≡ 0 → contains i xs ≡ false
contains-times i [] h = refl
contains-times i (x ∷ xs) h = ground (arith, contains-times i xs)

contains-erase_self : (i : ℕ) (xs : List ℕ) → times i xs ≤ 1 → contains i (erase i xs) ≡ false
contains-erase_self i [] h = refl
contains-erase_self i (x ∷ xs) h = ground (arith, contains-times i xs, contains-erase_self i xs)

times-contains : (i : ℕ) (xs : List ℕ) → times i xs ≤ 1 → contains i xs ≡ true → times i xs ≡ 1
times-contains i [] h m = absurd (cc m)
times-contains i (x ∷ xs) h m = ground (arith, count-contains i xs, times-contains i xs)

add-Holds :
    (i : ℕ) (set : ℕ → Bool) (s : Service)
    → Holds set s
    → Holds (after (add i) set) (add_session i s)
unfolding add_session
add-Holds i set s h j = ground (arith, h i, h j)

release-Holds :
    (i : ℕ) (set : ℕ → Bool) (s : Service)
    → IsValid s
    → Holds set s
    → (j : ℕ) → contains j (erase i s.sessions) ≡ after (release i) set j
release-Holds i set s v h j =
    ground
      (arith, h j, v.once i, contains-erase_self i s.sessions, contains-erase_other i j s.sessions)

-- Sessions that the set of a service holds get the buffer once, others not.
abbrev pub Broadcasts : (ℕ → Bool) → Service → Type 0
Broadcasts set s = (i : ℕ) → times i (broadcast s).sent ≡ times i s.sent + (if set i then 1 else 0)

broadcast-Broadcasts : (set : ℕ → Bool) (s : Service) → IsValid s → Holds set s → Broadcasts set s
unfolding broadcast
broadcast-Broadcasts set s v h i = ground (
  arith,
  h i,
  v.once i,
  total-plus (λ x. if x == i then 1 else 0) s.sent s.sessions,
  count-contains i s.sessions,
  times-contains i s.sessions,
)

abbrev released : ℕ → Service → Service
released i s = record s { sessions = erase i s.sessions; session_count = s.session_count - 1 }

release_session-released :
    (i : ℕ) (s : Service) → contains i s.sessions ≡ true → release_session i s ≡ ok (released i s)
unfolding release_session
release_session-released i s there = rw there refl

released-IsValid :
    (i : ℕ) (s : Service) → IsValid s → contains i s.sessions ≡ true → IsValid (released i s)
released-IsValid i s v there =
    let (t, e, v') = release_session-IsValid i s v there in
    let again : release_session i s ≡ ok (released i s) = release_session-released i s there in
    let same : t ≡ released i s = cc (e, again) in subst IsValid same v'

-- Over any calls of AddSession and ReleaseSession, of which each adds a session that is not in the
-- set or releases one that is, none crashes, and the sessions of the service are those of the set
-- that the calls make, each once, with their number as the count; and Broadcast after them sends
-- to each session of the set once, and to no other.
pub run-Holds :
    (calls : List Call) (set : ℕ → Bool) (s : Service)
    → IsValid s
    → Holds set s
    → Allowed calls set
    → (t : Service) × (run calls s ≡ ok t)
      × IsValid t
      × Holds (after_all calls set) t
      × Broadcasts (after_all calls set) t
unfolding run
run-Holds [] set s v h a = (s, refl, v, h, broadcast-Broadcasts set s v h)
run-Holds (add i ∷ calls) set s v h a =
    run-Holds calls (after (add i) set) (add_session i s) (add_session-IsValid i s v (h i ∙ a.0))
      (add-Holds i set s h) a.1
run-Holds (release i ∷ calls) set s v h a =
    let there : contains i s.sessions ≡ true = h i ∙ a.0 in
    rw (release_session-released i s there, run)
      (run-Holds calls (after (release i) set) (released i s) (released-IsValid i s v there)
        (release-Holds i set s v h) a.1)
