-- ===== src/DeadLockProfiler/Cycles.antt =====
-- Cycles of locks, against the crash of Dfs and against its return.
use multi_thread_test.Common.{
  ◌==◌, Bool-cases, Option-cases, Result, ◌>>=◌, bind-ok, bind-fail, crash, ok, fail, ℕ, zero, suc,
  ◌≡◌, refl, inl, inr, true, ◌||◌, none, some, List, [], ◌∷◌, arith,
}
use multi_thread_test.DeadLockProfiler.{
  Search, before, discover, set_parent, finish, visit_all, dfs, search_all,
}
use multi_thread_test.DeadLockProfiler.Returns.{
  Among, IsGrey, After, IsSafe, safe, IsOk, Visits, AllFinished, dfs-Visits, unless_grey,
  discover-IsOk, After-refl, After-trans,
}

module _ (history : ℕ → List ℕ) where
  -- Locks that are taken one under the other, from the first to the last.
  pub data Leads : ℕ → ℕ → Type 0 where
    stay : {a : ℕ} → Leads a a
    under : {a t b : ℕ} → Among t (history a) → Leads t b → Leads a b

  abbrev pub Cycle : ℕ → Type 0
  Cycle v = (t : ℕ) × Among t (history v) × Leads t v

  Leads-under : {a b t : ℕ} → Leads a b → Among t (history b) → Leads a t
  Leads-under stay e = under e stay
  Leads-under (under f l) e = under f (Leads-under l e)

  -- A cycle through a lock is one through what is taken under it.
  pub IsSafe-Cycle : {v : ℕ} → IsSafe history v → Cycle v → ⊥
  IsSafe-Cycle (safe f) (t, e, stay) = IsSafe-Cycle (f t e) (t, e, stay)
  IsSafe-Cycle (safe f) (t, e, under {t = u} g l) = IsSafe-Cycle (f t e) (u, g, Leads-under l e)

  abbrev GreysLead : Search → ℕ → Type 0
  GreysLead s here = (g k : ℕ) → IsGrey s g k → Leads g here

  abbrev Crashes : (ℕ → Search → Result Search) → Type 0
  Crashes visit =
      (here : ℕ) (s : Search)
      → IsOk history s
      → GreysLead s here
      → visit here s ≡ fail crash
      → (v : ℕ) × Cycle v

  module _ (visit : ℕ → Search → Result Search) (visits : Visits history visit)
      (crashes : Crashes visit) (here : ℕ) where
    visit_all-crash :
        (rest : List ℕ) (s : Search)
        → ((t : ℕ) → Among t rest → Among t (history here))
        → IsOk history s
        → GreysLead s here
        → visit_all visit here rest s ≡ fail crash
        → (v : ℕ) × Cycle v
    unfolding visit_all
    visit_all-crash [] s edges v lead e = absurd (cc e)
    visit_all-crash (there ∷ rest) s edges v lead e = elim (Option-cases (s.order there)) [
      | inl f ↦ elim (bind-fail (visit there s') (visit_all visit here rest) crash (step_new f)) [
        | inl g ↦ crashes there s' v' (λ x k y. Leads-under (lead x k (forget y)) edge) g
        | inr (t, g, h) ↦
            let (w, after, last) = visits there s' t v' g in
            visit_all-crash rest t edges' w (λ x k y. lead x k (forget (after.greys x k y))) h
      ]
      | inr (n, f) ↦ elim (Bool-cases (before (s.order here) (some n) || s.finished there)) [
        | inl g ↦ visit_all-crash rest s edges' v lead (step_old n f g)
        | inr g ↦ (
          here,
          (there, edge, lead there n (record { seen = f; unfinished = ground (arith, g) })),
        )
      ]
    ]
      where
        s' : Search
        s' = set_parent there here s

        v' : IsOk history s'
        v' = record { counted = v.counted; are_safe = v.are_safe }

        edge : Among there (history here)
        edge = edges there (inl refl)

        edges' : (t : ℕ) → Among t rest → Among t (history here)
        edges' t a = edges t (inr a)

        forget : {g n : ℕ} → IsGrey s' g n → IsGrey s g n
        forget x = record { seen = x.seen; unfinished = x.unfinished }

        step_new :
            s.order there ≡ none → (visit there s' >>= visit_all visit here rest) ≡ fail crash
        step_new f = ground (arith, e, f)

        step_old :
            (n : ℕ)
            → s.order there ≡ some n
            → (before (s.order here) (some n) || s.finished there) ≡ true
            → visit_all visit here rest s ≡ fail crash
        step_old n f g = ground (arith, e, f, g)

  dfs-Crashes : (fuel : ℕ) → Crashes (dfs history fuel)
  unfolding dfs
  dfs-Crashes zero here s v lead e = absurd (cc e)
  dfs-Crashes (suc fuel) here s v lead e = elim (Option-cases (s.order here)) [
    | inr (k, f) ↦ absurd (ground (arith, e, f))
    | inl f ↦
        elim (bind-fail (visit_all (dfs history fuel) here (history here) (discover here s))
          (λ t. ok (finish here t)) crash (first_visit f)) [
            | inl g ↦
                visit_all-crash (dfs history fuel) (dfs-Visits history fuel) (dfs-Crashes fuel) here
                  (history here) (discover here s) (λ t a. a) (discover-IsOk history here s v)
                  lead_here g
            | inr (t, g, h) ↦ absurd (cc h)
          ]
  ]
    where
      first_visit :
          s.order here ≡ none
          → (visit_all (dfs history fuel) here (history here) (discover here s) >>= λ t.
              ok (finish here t))
            ≡ fail crash
      first_visit f = ground (arith, e, f)

      lead_here : GreysLead (discover here s) here
      lead_here g k x = elim (Bool-cases (g == here)) [
        | inl f ↦ let same : here ≡ g = ground (arith, f) in rw same stay
        | inr f ↦ lead g k (record { seen = ground (arith, f, x.seen); unfinished = x.unfinished })
      ]

  abbrev NoGrey : Search → Type 0
  NoGrey s = (g k : ℕ) → IsGrey s g k → ⊥

  pub search_all-AllFinished :
      (fuel : ℕ) (is : List ℕ) (s s' : Search)
      → IsOk history s
      → NoGrey s
      → search_all history fuel is s ≡ ok s'
      → IsOk history s' × After s s' × AllFinished history s' is
  unfolding search_all
  search_all-AllFinished fuel [] s s' v no_grey e =
      let same : s ≡ s' = ground (arith, e) in rw (← same) (v, After-refl s, tt)
  search_all-AllFinished fuel (i ∷ is) s s' v no_grey e =
      let (t, first, behind) = bind-ok (dfs history fuel i s) (search_all history fuel is) s' e in
      let (v', after, (k, seen)) = dfs-Visits history fuel i s t v first in
      let none_grey : NoGrey t = λ g n x. no_grey g n (after.greys g n x) in
      let (v'', after', finished) = search_all-AllFinished fuel is t s' v' none_grey behind in
      (
        v'',
        After-trans after after',
        (after'.finishes i (unless_grey history t i k seen (none_grey i k)), finished),
      )

  pub search_all-crash :
      (fuel : ℕ) (is : List ℕ) (s : Search)
      → IsOk history s
      → NoGrey s
      → search_all history fuel is s ≡ fail crash
      → (v : ℕ) × Cycle v
  unfolding search_all
  search_all-crash fuel [] s v no_grey e = absurd (cc e)
  search_all-crash fuel (i ∷ is) s v no_grey e =
      elim (bind-fail (dfs history fuel i s) (search_all history fuel is) crash e) [
        | inl g ↦ dfs-Crashes fuel i s v (λ x k y. absurd (no_grey x k y)) g
        | inr (t, g, h) ↦
            let (v', after, last) = dfs-Visits history fuel i s t v g in
            search_all-crash fuel is t v' (λ x k y. no_grey x k (after.greys x k y)) h
      ]
