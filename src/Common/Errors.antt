-- ===== src/Common/Errors.antt =====
-- Results of code that may fail to return: by CRASH and ASSERT_CRASH of CoreMacro.h, by undefined
-- behaviour, or in a loop without end.
use Prim.Native.Nat.{ℕ}
use mathlib.Core.Bool.{Bool, true, false}
use mathlib.Core.Path.{◌≡◌, refl, ap}
use mathlib.Core.Logic.{◌⊎◌, inl, inr}

-- `crash` is the write through a null pointer in CRASH, `undefined` is undefined behaviour of C++,
-- and `hang` is a loop without end.
pub data Fault : Type 0 where
  crash undefined hang : Fault

pub data Result {ℓ} (A : Type ℓ) : Type ℓ where
  ok : A → Result A
  fail : Fault → Result A

infixl 5 ◌>>=◌ ◌>>◌
abbrev pub ◌>>=◌ {ℓ κ} : {A : Type ℓ} {B : Type κ} → Result A → (A → Result B) → Result B
ok a >>= f = f a
fail e >>= f = fail e

abbrev pub ◌>>◌ {ℓ} : {B : Type ℓ} → Result (Unit {0}) → Result B → Result B
m >> k = m >>= λ _. k

-- ASSERT_CRASH(expr)
abbrev pub assert_crash : Bool → Result (Unit {0})
assert_crash true = ok tt
assert_crash false = fail crash

-- What the language asks of an access, such as an index in range.
abbrev pub require : Bool → Result (Unit {0})
require true = ok tt
require false = fail undefined

-- An int32: `negsuc n` is -(n + 1).
pub data ℤ : Type 0 where
  pos : ℕ → ℤ
  negsuc : ℕ → ℤ

-- A sequence that returns has returned at its first step.
pub bind-ok {ℓ κ} :
    {A : Type ℓ} {B : Type κ} (m : Result A) (f : A → Result B) (b : B)
    → (m >>= f) ≡ ok b
    → (a : A) × (m ≡ ok a) × (f a ≡ ok b)
bind-ok (ok a) f b e = (a, refl, e)
bind-ok (fail c) f b e = absurd (cc e)

-- A sequence that fails has failed at its first step or behind it.
pub bind-fail {ℓ κ} :
    {A : Type ℓ} {B : Type κ} (m : Result A) (f : A → Result B) (c : Fault)
    → (m >>= f) ≡ fail c
    → (m ≡ fail c) ⊎ ((a : A) × (m ≡ ok a) × (f a ≡ fail c))
bind-fail (ok a) f c e = inr (a, refl, e)
bind-fail (fail d) f c e = let same : d ≡ c = cc e in inl (ap fail same)

-- The code returns something with a property, or stops at an assert.
abbrev pub Returns {ℓ} : {A : Type ℓ} → (A → Type 0) → Result A → Type 0
Returns P (ok a) = P a
Returns P (fail crash) = Unit {0}
Returns P (fail undefined) = ⊥
Returns P (fail hang) = ⊥

pub Returns-bind {ℓ κ} :
    {A : Type ℓ} {B : Type κ} (P : A → Type 0) (Q : B → Type 0) (m : Result A) (f : A → Result B)
    → Returns P m
    → ((a : A) → P a → Returns Q (f a))
    → Returns Q (m >>= f)
Returns-bind P Q (ok a) f r next = next a r
Returns-bind P Q (fail crash) f r next = tt
Returns-bind P Q (fail undefined) f r next = r
Returns-bind P Q (fail hang) f r next = r

pub Returns-cases {ℓ} :
    {A : Type ℓ} (P : A → Type 0) (r : Result A)
    → Returns P r
    → (r ≡ fail crash) ⊎ ((a : A) × (r ≡ ok a))
Returns-cases P (ok a) returned = inr (a, refl)
Returns-cases P (fail crash) returned = inl refl
Returns-cases P (fail undefined) returned = absurd returned
Returns-cases P (fail hang) returned = absurd returned
