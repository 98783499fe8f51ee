-- ===== src/RefCounting/Counts.antt =====
-- The counts against the pointers.
use multi_thread_test.Common.{
  ltb, ◌==◌, if◌then◌else◌, Bool-cases, Option-cases, length, get_or, total, Result, ok, ℕ, zero,
  suc, ◌+◌, ◌-◌, ◌≤◌, ◌<◌, ◌≡◌, refl, ap, ◌≢◌, inl, inr, true, Option, none, some, List, [], ◌∷◌,
  arith,
}
use multi_thread_test.RefCounting.{
  Heap, Destructor, set_count, ptr_at, put_ptr, add_ref, release_ref, set, release, same_ptr,
  copy_assign, move_assign, construct,
}

abbrev points : ℕ → Option ℕ → ℕ
points o none = 0
points o (some x) = if x == o then 1 else 0

-- How many pointers point to the object.
abbrev pub pointing : ℕ → List (Option ℕ) → ℕ
pointing o = total (points o)

-- Each object's count is that of the pointers to it and of the references held without a pointer,
-- such as the one that it is born with.
pub record IsValid (raw : ℕ → ℕ) (h : Heap) : Type 0 where
  pub counted : (o : ℕ) → h.ref_count o ≡ pointing o h.ptrs + raw o

-- It returns, and the counts are right again.
abbrev pub Returns : (ℕ → ℕ) → Result Heap → Type 0
Returns raw r = (h : Heap) × (r ≡ ok h) × IsValid raw h

pointing-put_ptr :
    (o : ℕ) (ps : List (Option ℕ)) (i : ℕ) (p : Option ℕ)
    → i < length ps
    → pointing o (put_ptr ps i p) + points o (get_or ps i none) ≡ pointing o ps + points o p
pointing-put_ptr o [] i p h = absurd (omega (arith, h))
pointing-put_ptr o (x ∷ ps) zero p h = omega arith
pointing-put_ptr o (x ∷ ps) (suc i) p h =
    omega (arith, pointing-put_ptr o ps i p (omega (arith, h)))

points-le : (o : ℕ) (ps : List (Option ℕ)) (i : ℕ) → points o (get_or ps i none) ≤ pointing o ps
points-le o [] i = omega arith
points-le o (x ∷ ps) zero = omega arith
points-le o (x ∷ ps) (suc i) = omega (arith, points-le o ps i)

length-put_ptr : (ps : List (Option ℕ)) (i : ℕ) (p : Option ℕ) → length (put_ptr ps i p) ≡ length ps
length-put_ptr [] i p = refl
length-put_ptr (_ ∷ ps) zero p = refl
length-put_ptr (_ ∷ ps) (suc i) p = omega (arith, length-put_ptr ps i p)

get-put_ptr :
    (ps : List (Option ℕ)) (i j : ℕ) (p : Option ℕ)
    → i ≢ j
    → get_or (put_ptr ps i p) j none ≡ get_or ps j none
get-put_ptr [] i j p h = refl
get-put_ptr (x ∷ ps) zero zero p h = absurd (h refl)
get-put_ptr (x ∷ ps) zero (suc j) p h = refl
get-put_ptr (x ∷ ps) (suc i) zero p h = refl
get-put_ptr (x ∷ ps) (suc i) (suc j) p h = get-put_ptr ps i j p (λ e. h (omega (arith, e)))

get-put_same :
    (ps : List (Option ℕ)) (i : ℕ) (p : Option ℕ)
    → i < length ps
    → get_or (put_ptr ps i p) i none ≡ p
get-put_same [] i p h = absurd (omega (arith, h))
get-put_same (_ ∷ ps) zero p h = refl
get-put_same (_ ∷ ps) (suc i) p h = get-put_same ps i p (omega (arith, h))

put_ptr-none : (ps : List (Option ℕ)) (i : ℕ) → get_or ps i none ≡ none → ps ≡ put_ptr ps i none
put_ptr-none [] i e = refl
put_ptr-none (x ∷ ps) zero e = ap (λ (y : Option ℕ). y ∷ ps) e
put_ptr-none (x ∷ ps) (suc i) e = ap (◌∷◌ x) (put_ptr-none ps i e)

-- Deleting an object releases no pointer among its members.
abbrev pub IsPlain : Destructor → Type 0
IsPlain destructor = (o : ℕ) (h : Heap) → destructor o h ≡ ok h

release_ref-plain :
    (destructor : Destructor) (o : ℕ) (h : Heap)
    → IsPlain destructor
    → ltb 0 (h.ref_count o) ≡ true
    → release_ref destructor o h ≡ ok (set_count o (h.ref_count o - 1) h)
unfolding release_ref
release_ref-plain destructor o h plain alive = elim (Bool-cases (h.ref_count o - 1 == 0)) [
  | inl e ↦ rw (alive, e) (plain o _)
  | inr e ↦ rw (alive, e) refl
]

module _ (raw : ℕ → ℕ) (destructor : Destructor) (plain : IsPlain destructor) where
  -- Set over a pointer that is null.
  set-Returns :
      (i : ℕ) (p : Option ℕ) (h : Heap)
      → IsValid raw h
      → i < length h.ptrs
      → ptr_at h i ≡ none
      → ((o : ℕ) → p ≡ some o → 0 < h.ref_count o)
      → Returns raw (set i p h)
  unfolding set add_ref
  set-Returns i none h v k e live = (
    _,
    refl,
    record { counted = λ x. ground (arith, v.counted x, e, pointing-put_ptr x h.ptrs i none k) },
  )
  set-Returns i (some o) h v k e live =
      let alive : ltb 0 (h.ref_count o) ≡ true = ground (arith, live o refl) in
      rw alive (
        _,
        refl,
        record {
          counted = λ x. ground (arith, v.counted x, e, pointing-put_ptr x h.ptrs i (some o) k);
        },
      )

  -- Release, with what it leaves.
  release-Returns :
      (i : ℕ) (h : Heap)
      → IsValid raw h
      → i < length h.ptrs
      → (h' : Heap) × (release destructor i h ≡ ok h')
        × IsValid raw h'
        × (h'.ptrs ≡ put_ptr h.ptrs i none)
  unfolding release
  release-Returns i h v k = elim (Option-cases (ptr_at h i)) [
    | inl e ↦ rw (release, e) (h, refl, v, put_ptr-none h.ptrs i e)
    | inr (o, e) ↦
        let alive : ltb 0 (h.ref_count o) ≡ true =
          ground (arith, e, v.counted o, points-le o h.ptrs i) in
        rw (release, e, release_ref-plain destructor o h plain alive)
          (
            _,
            refl,
            record {
              counted = λ x.
                  ground (
                    arith,
                    e,
                    v.counted x,
                    points-le x h.ptrs i,
                    pointing-put_ptr x h.ptrs i none k,
                  );
            },
            refl,
          )
  ]

  pub copy_assign-Returns :
      (i rhs : ℕ) (h : Heap)
      → IsValid raw h
      → i < length h.ptrs
      → Returns raw (copy_assign destructor i rhs h)
  unfolding copy_assign
  copy_assign-Returns i rhs h v k = elim (Bool-cases (same_ptr (ptr_at h i) (ptr_at h rhs))) [
    | inl e ↦ rw (copy_assign, e) (h, refl, v)
    | inr e ↦
        let (h', run, v', ptrs) = release-Returns i h v k in
        let k' : i < length h'.ptrs =
          ground (arith, k, ap (length {A = Option ℕ}) ptrs, length-put_ptr h.ptrs i none) in
        let now_null : ptr_at h' i ≡ none = rw ptrs (get-put_same h.ptrs i none k) in
        let (h'', run', v'') =
          set-Returns i (ptr_at h' rhs) h' v' k' now_null
            (λ o f. ground (arith, v'.counted o, points-le o h'.ptrs rhs, f)) in
        rw (copy_assign, e, run, run') (h'', refl, v'')
  ]

  pub move_assign-Returns :
      (i rhs : ℕ) (h : Heap)
      → IsValid raw h
      → i < length h.ptrs
      → rhs < length h.ptrs
      → Returns raw (move_assign destructor i rhs h)
  unfolding move_assign
  move_assign-Returns i rhs h v k l =
      let (h', run, v', ptrs) = release-Returns i h v k in
      rw run (_, refl, record { counted = λ o. moved o h' v' ptrs })
    where
      moved :
          (o : ℕ) (h' : Heap)
          → IsValid raw h'
          → h'.ptrs ≡ put_ptr h.ptrs i none
          → h'.ref_count o
            ≡ pointing o (put_ptr (put_ptr h'.ptrs i (ptr_at h' rhs)) rhs none) + raw o
      moved o h' v' e = ground (
        arith,
        v'.counted o,
        pointing-put_ptr o h'.ptrs i (ptr_at h' rhs) (inside e i k),
        pointing-put_ptr o (put_ptr h'.ptrs i (ptr_at h' rhs)) rhs none
            (omega (arith, inside e rhs l, length-put_ptr h'.ptrs i (ptr_at h' rhs))),
        now_null e,
        unmoved,
      )
        where
          inside :
              h'.ptrs ≡ put_ptr h.ptrs i none → (j : ℕ) → j < length h.ptrs → j < length h'.ptrs
          inside e j m =
              ground (arith, m, ap (length {A = Option ℕ}) e, length-put_ptr h.ptrs i none)

          now_null : h'.ptrs ≡ put_ptr h.ptrs i none → ptr_at h' i ≡ none
          now_null e = rw e (get-put_same h.ptrs i none k)

          unmoved : get_or (put_ptr h'.ptrs i (ptr_at h' rhs)) rhs none ≡ ptr_at h' rhs
          unmoved = elim (Bool-cases (i == rhs)) [
            | inl f ↦
                let same : rhs ≡ i = ground (arith, f) in
                rw same (get-put_same h'.ptrs i (ptr_at h' i) (inside e i k))
            | inr f ↦ get-put_ptr h'.ptrs i rhs (ptr_at h' rhs) (λ s. absurd (ground (arith, f, s)))
          ]

  pub construct-Returns :
      (p : Option ℕ) (h : Heap)
      → IsValid raw h
      → ((o : ℕ) → p ≡ some o → 0 < h.ref_count o)
      → Returns raw (construct p h)
  unfolding construct
  construct-Returns p h v live =
      set-Returns 0 p (record h { ptrs = none ∷ h.ptrs })
        (record { counted = λ o. omega (arith, v.counted o) }) (omega arith) refl live
