-- ===== src/DeadLockProfiler/Depth.antt =====
-- How deep Dfs goes, against the number of locks.
use multi_thread_test.Common.{
  Bool-cases, Option-cases, total, Result, ◌>>=◌, crash, ok, fail, ℕ, zero, suc, ◌≤◌, ◌<◌, ◌≡◌,
  refl, ap, ◌⊎◌, inl, inr, none, some, List, [], ◌∷◌, arith,
}
use multi_thread_test.DeadLockProfiler.{
  Search, before, discover, set_parent, finish, visit_all, dfs, search_all, from,
}
use multi_thread_test.DeadLockProfiler.Returns.{Among, After, IsOk, dfs-Visits, discover-IsOk}

-- It ends: a state, or the crash for a cycle.
abbrev pub Ends : Result Search → Type 0
Ends r = ((s : Search) × (r ≡ ok s)) ⊎ (r ≡ fail crash)

bind-Ends :
    (m : Result Search) (f : Search → Result Search)
    → Ends m
    → ((s : Search) → m ≡ ok s → Ends (f s))
    → Ends (m >>= f)
bind-Ends (ok s) f e g = g s refl
bind-Ends (fail c) f (inl (s, e)) g = absurd (cc e)
bind-Ends (fail c) f (inr e) g = let same : c ≡ crash = cc e in inr (ap fail same)

abbrev unseen : Search → ℕ → ℕ
unseen s v = elim (s.order v) [ none ↦ 1 | some _ ↦ 0 ]

-- How many of the locks have not been discovered.
abbrev pub left : Search → List ℕ → ℕ
left s = total (unseen s)

left-After : (s t : Search) (ids : List ℕ) → After s t → left t ids ≤ left s ids
left-After s t [] a = omega arith
left-After s t (v ∷ ids) a = elim (Option-cases (s.order v)) [
  | inl f ↦ ground (arith, f, left-After s t ids a)
  | inr (k, f) ↦ ground (arith, f, a.orders v k f, left-After s t ids a)
]

left-discover-le : (here : ℕ) (s : Search) (ids : List ℕ) → left (discover here s) ids ≤ left s ids
left-discover-le here s [] = omega arith
left-discover-le here s (v ∷ ids) = ground (arith, left-discover-le here s ids)

left-discover :
    (here : ℕ) (s : Search) (ids : List ℕ)
    → s.order here ≡ none
    → Among here ids
    → left (discover here s) ids < left s ids
left-discover here s [] e a = elim a [ ]
left-discover here s (v ∷ ids) e (inl same) = ground (arith, e, same, left-discover-le here s ids)
left-discover here s (v ∷ ids) e (inr a) = ground (arith, left-discover here s ids e a)

module _ (history : ℕ → List ℕ) (ids : List ℕ) where
  -- All locks of the history have ids.
  abbrev pub Closed : Type 0
  Closed = (v t : ℕ) → Among t (history v) → Among t ids

  abbrev Enough : (ℕ → ℕ → Search → Result Search) → ℕ → Type 0
  Enough visit fuel =
      (here : ℕ) (s : Search)
      → IsOk history s
      → Among here ids
      → left s ids < fuel
      → Ends (visit fuel here s)

  visit_all-Ends :
      (fuel here : ℕ) (rest : List ℕ) (s : Search)
      → Enough (dfs history) fuel
      → IsOk history s
      → ((t : ℕ) → Among t rest → Among t ids)
      → left s ids < fuel
      → Ends (visit_all (dfs history fuel) here rest s)
  unfolding visit_all
  visit_all-Ends fuel here [] s enough v among h = inl (s, refl)
  visit_all-Ends fuel here (there ∷ rest) s enough v among h = elim (Option-cases (s.order there)) [
    | inl f ↦
        rw (visit_all, f)
          (bind-Ends (dfs history fuel there s') (visit_all (dfs history fuel) here rest)
            (enough there s' v' (among there (inl refl)) h)
            (λ t e.
              let (w, after, last) = dfs-Visits history fuel there s' t v' e in
              visit_all-Ends fuel here rest t enough w (λ u a. among u (inr a))
                (omega (arith, h, left-After s' t ids after))))
    | inr (n, f) ↦
        let behind = visit_all-Ends fuel here rest s enough v (λ u a. among u (inr a)) h in
        elim (Bool-cases (before (s.order here) (some n))) [
          | inl g ↦ rw (visit_all, f, g) behind
          | inr g ↦ elim (Bool-cases (s.finished there)) [
            | inl k ↦ rw (visit_all, f, g, k) behind
            | inr k ↦ rw (visit_all, f, g, k) (inr refl)
          ]
        ]
  ]
    where
      s' : Search
      s' = set_parent there here s

      v' : IsOk history s'
      v' = record { counted = v.counted; are_safe = v.are_safe }

  dfs-Ends : Closed → (fuel : ℕ) → Enough (dfs history) fuel
  unfolding dfs
  dfs-Ends closed zero here s v a h = absurd (omega (arith, h))
  dfs-Ends closed (suc fuel) here s v a h = elim (Option-cases (s.order here)) [
    | inr (k, f) ↦ rw (dfs, f) (inl (s, refl))
    | inl f ↦
        rw (dfs, f)
          (bind-Ends (visit_all (dfs history fuel) here (history here) (discover here s))
            (λ t. ok (finish here t))
            (visit_all-Ends fuel here (history here) (discover here s) (dfs-Ends closed fuel)
              (discover-IsOk history here s v) (closed here)
              (omega (arith, h, left-discover here s ids f a)))
            (λ t e. inl (finish here t, refl)))
  ]

  pub search_all-Ends :
      (fuel : ℕ) (is : List ℕ) (s : Search)
      → Closed
      → IsOk history s
      → ((t : ℕ) → Among t is → Among t ids)
      → left s ids < fuel
      → Ends (search_all history fuel is s)
  unfolding search_all
  search_all-Ends fuel [] s closed v among h = inl (s, refl)
  search_all-Ends fuel (i ∷ is) s closed v among h =
      bind-Ends (dfs history fuel i s) (search_all history fuel is)
        (dfs-Ends closed fuel i s v (among i (inl refl)) h)
        (λ t e.
          let (w, after, last) = dfs-Visits history fuel i s t v e in
          search_all-Ends fuel is t closed w (λ u a. among u (inr a))
            (omega (arith, h, left-After s t ids after)))

pub left-le : (s : Search) (first n : ℕ) → left s (from first n) ≤ n
left-le s first zero = omega arith
left-le s first (suc n) = ground (arith, left-le s (suc first) n)
