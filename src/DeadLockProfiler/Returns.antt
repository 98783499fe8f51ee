-- ===== src/DeadLockProfiler/Returns.antt =====
-- What a search that returns has found out.
use multi_thread_test.Common.{
  ◌==◌, Bool-cases, Option-cases, Result, ◌>>=◌, bind-ok, ok, ℕ, zero, suc, ◌≤◌, ◌<◌, ◌≡◌, ◌⊎◌, inl,
  inr, true, false, none, some, List, [], ◌∷◌, arith,
}
use multi_thread_test.DeadLockProfiler.{Search, discover, set_parent, finish, visit_all, dfs}

abbrev pub Among : ℕ → List ℕ → Type 0
Among t [] = ⊥
Among t (x ∷ xs) = (t ≡ x) ⊎ Among t xs

pub record IsGrey (s : Search) (g k : ℕ) : Type 0 where
  pub seen : s.order g ≡ some k
  pub unfinished : s.finished g ≡ false

pub record After (s s' : Search) : Type 0 where
  pub orders : (g k : ℕ) → s.order g ≡ some k → s'.order g ≡ some k
  pub greys : (g k : ℕ) → IsGrey s' g k → IsGrey s g k
  pub finishes : (g : ℕ) → s.finished g ≡ true → s'.finished g ≡ true

pub After-refl : (s : Search) → After s s
After-refl s = record { orders = λ g k e. e; greys = λ g k v. v; finishes = λ g e. e }

pub After-trans : {s t u : Search} → After s t → After t u → After s u
After-trans v w = record {
  orders = λ g k e. w.orders g k (v.orders g k e);
  greys = λ g k x. v.greys g k (w.greys g k x);
  finishes = λ g e. w.finishes g (v.finishes g e);
}

module _ (history : ℕ → List ℕ) where
  -- No cycle can be reached from the lock.
  pub data IsSafe : ℕ → Type 0 where
    safe : {g : ℕ} → ((t : ℕ) → Among t (history g) → IsSafe t) → IsSafe g

  pub record IsOk (s : Search) : Type 0 where
    pub counted : (g k : ℕ) → s.order g ≡ some k → k < s.count
    pub are_safe : (g : ℕ) → s.finished g ≡ true → IsSafe g

  -- What Dfs does where it returns.
  abbrev pub Visits : (ℕ → Search → Result Search) → Type 0
  Visits visit =
      (here : ℕ) (s s' : Search)
      → IsOk s
      → visit here s ≡ ok s'
      → IsOk s' × After s s' × ((k : ℕ) × (s'.order here ≡ some k))

  abbrev pub Below : Search → ℕ → Type 0
  Below s h = (g k : ℕ) → IsGrey s g k → k ≤ h

  finished-unless_grey :
      (s : Search) (h n : ℕ) (there : ℕ)
      → Below s h
      → s.order there ≡ some n
      → h < n
      → s.finished there ≡ true
  finished-unless_grey s h n there below e less = elim (Bool-cases (s.finished there)) [
    | inl f ↦ f
    | inr f ↦ absurd (omega (arith, less, below there n (record { seen = e; unfinished = f })))
  ]

  pub unless_grey :
      (s : Search) (g k : ℕ) → s.order g ≡ some k → (IsGrey s g k → ⊥) → s.finished g ≡ true
  unless_grey s g k e not_grey = elim (Bool-cases (s.finished g)) [
    | inl f ↦ f
    | inr f ↦ absurd (not_grey (record { seen = e; unfinished = f }))
  ]

  abbrev pub AllFinished : Search → List ℕ → Type 0
  AllFinished s [] = Unit
  AllFinished s (x ∷ xs) = (s.finished x ≡ true) × AllFinished s xs

  pub AllFinished-at :
      (s : Search) (xs : List ℕ) (t : ℕ) → AllFinished s xs → Among t xs → s.finished t ≡ true
  AllFinished-at s [] t fs a = elim a [ ]
  AllFinished-at s (x ∷ xs) t (f, fs) (inl e) = rw e f
  AllFinished-at s (x ∷ xs) t (f, fs) (inr a) = AllFinished-at s xs t fs a

  module _ (visit : ℕ → Search → Result Search) (visits : Visits visit) (here h : ℕ) where
    visit_all-ok :
        (rest : List ℕ) (s s' : Search)
        → IsOk s
        → s.order here ≡ some h
        → Below s h
        → visit_all visit here rest s ≡ ok s'
        → IsOk s' × After s s' × AllFinished s' rest
    unfolding visit_all
    visit_all-ok [] s s' v o below e =
        let same : s ≡ s' = ground (arith, e) in rw (← same) (v, After-refl s, tt)
    visit_all-ok (there ∷ rest) s s' v o below e = elim (Option-cases (s.order there)) [
      | inl f ↦
          let (t, first, behind) =
            bind-ok (visit there (set_parent there here s)) (visit_all visit here rest) s'
              (step_new f) in
          let (v', after, (k, seen)) =
            visits there (set_parent there here s) t
              (record { counted = v.counted; are_safe = v.are_safe }) first in
          let not_grey : (n : ℕ) → IsGrey t there n → ⊥ =
            λ n x. absurd (cc (f, (after.greys there n x).seen)) in
          let (v'', after', finished) =
            visit_all-ok rest t s' v' (after.orders here h o)
              (λ g n x. below g n (forget (after.greys g n x))) behind in
          (
            v'',
            After-trans
                (record {
                  orders = after.orders;
                  greys = λ g n x. forget (after.greys g n x);
                  finishes = after.finishes;
                })
                after',
            (after'.finishes there (unless_grey t there k seen (not_grey k)), finished),
          )
      | inr (n, f) ↦
          let (v', after, finished) = visit_all-ok rest s s' v o below (step_old n f) in
          (v', after, (after.finishes there (is_finished n f), finished))
    ]
      where
        forget : {g n : ℕ} → IsGrey (set_parent there here s) g n → IsGrey s g n
        forget x = record { seen = x.seen; unfinished = x.unfinished }

        step_new :
            s.order there ≡ none
            → (visit there (set_parent there here s) >>= visit_all visit here rest) ≡ ok s'
        step_new f = ground (arith, e, f)

        step_old : (n : ℕ) → s.order there ≡ some n → visit_all visit here rest s ≡ ok s'
        step_old n f = ground (arith, e, f)

        is_finished : (n : ℕ) → s.order there ≡ some n → s.finished there ≡ true
        is_finished n f = ground (arith, e, f, o, finished-unless_grey s h n there below f)

  -- The step of Dfs at a lock that was not seen before, from the result of its loop.
  pub discover-IsOk : (here : ℕ) (s : Search) → IsOk s → IsOk (discover here s)
  discover-IsOk here s v = record {
    counted = λ g k e. ground (arith, e, v.counted g k);
    are_safe = v.are_safe;
  }

  finish-IsOk :
      (here : ℕ) (t : Search) → IsOk t → AllFinished t (history here) → IsOk (finish here t)
  finish-IsOk here t v finished = record {
    counted = v.counted;
    are_safe = λ g e. elim (Bool-cases (g == here)) [
      | inl f ↦
          let same : g ≡ here = ground (arith, f) in
          rw same (safe (λ x a. v.are_safe x (AllFinished-at t (history here) x finished a)))
      | inr f ↦ v.are_safe g (ground (arith, e, f))
    ];
  }

  discover-Below : (here : ℕ) (s : Search) → IsOk s → Below (discover here s) s.count
  discover-Below here s v g k x = ground (arith, x.seen, v.counted g k)

  finish-After :
      (here : ℕ) (s t : Search)
      → s.order here ≡ none
      → After (discover here s) t
      → After s (finish here t)
  finish-After here s t none_yet after = record {
    orders = λ g k e. after.orders g k (ground (arith, e, none_yet));
    greys = λ g k x.
        let y : IsGrey t g k = record {
          seen = x.seen;
          unfinished = ground (arith, x.unfinished);
        } in
        let z = after.greys g k y in
        record { seen = ground (arith, z.seen, x.unfinished); unfinished = z.unfinished };
    finishes = λ g e. ground (arith, after.finishes g e);
  }

  pub dfs-Visits : (fuel : ℕ) → Visits (dfs history fuel)
  unfolding dfs
  dfs-Visits zero here s s' v e = absurd (cc e)
  dfs-Visits (suc fuel) here s s' v e = elim (Option-cases (s.order here)) [
    | inr (k, f) ↦ let same : s ≡ s' = ground (arith, e, f) in rw (← same) (v, After-refl s, (k, f))
    | inl f ↦
        let (t, loop, last) =
          bind-ok (visit_all (dfs history fuel) here (history here) (discover here s))
            (λ t. ok (finish here t)) s' (first_visit f) in
        let (v', after, finished) =
          visit_all-ok (dfs history fuel) (dfs-Visits fuel) here s.count (history here)
            (discover here s) t (discover-IsOk here s v) (ground arith) (discover-Below here s v)
            loop in
        let same : finish here t ≡ s' = ground (arith, last) in
        rw (← same) (
          finish-IsOk here t v' finished,
          finish-After here s t f after,
          (s.count, after.orders here s.count (ground arith)),
        )
  ]
    where
      first_visit :
          s.order here ≡ none
          → (visit_all (dfs history fuel) here (history here) (discover here s) >>= λ t.
              ok (finish here t))
            ≡ ok s'
      first_visit f = ground (arith, e, f)
