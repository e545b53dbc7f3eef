-- ===== src/Base/Outcomes.antt =====
-- How a kernel function ends: it returns, it calls `panic` (which stops the machine), the current
-- task exits in it (with the code that `do_exit` is given), or it never returns.
use Prim.Native.Nat.{ℕ}
use mathlib.Core.Path.{◌≡◌, refl}

pub data Outcome {ℓ} (A : Type ℓ) : Type ℓ where
  returns : A → Outcome A
  panics : Outcome A
  exits : ℕ → Outcome A
  hangs : Outcome A

infixl 5 ◌>>=◌
abbrev pub ◌>>=◌ {ℓ κ} : {A : Type ℓ} {B : Type κ} → Outcome A → (A → Outcome B) → Outcome B
returns a >>= f = f a
panics >>= f = panics
exits c >>= f = exits c
hangs >>= f = hangs

-- The function returns, and its result is as stated.
abbrev pub Returns {ℓ} : {A : Type ℓ} → (A → Type 0) → Outcome A → Type 0
Returns P (returns a) = P a
Returns P panics = ⊥
Returns P (exits c) = ⊥
Returns P hangs = ⊥

pub >>=-eq-returns {ℓ κ} :
    {A : Type ℓ} {B : Type κ} (m : Outcome A) (f : A → Outcome B) {b : B}
    → (m >>= f) ≡ returns b
    → (a : A) × (m ≡ returns a) × (f a ≡ returns b)
>>=-eq-returns (returns a) f h = (a, refl, h)
>>=-eq-returns panics f h = cc
>>=-eq-returns (exits c) f h = cc
>>=-eq-returns hangs f h = cc

-- The rule of a sequence.
pub Returns->>= {ℓ κ} :
    {A : Type ℓ} {B : Type κ} (P : A → Type 0) (Q : B → Type 0) (m : Outcome A) (f : A → Outcome B)
    → Returns P m
    → ((a : A) → P a → Returns Q (f a))
    → Returns Q (m >>= f)
Returns->>= P Q (returns a) f h k = k a h
Returns->>= P Q panics f h k = absurd h
Returns->>= P Q (exits c) f h k = absurd h
Returns->>= P Q hangs f h k = absurd h

pub Returns-weaken {ℓ} :
    {A : Type ℓ} {P Q : A → Type 0}
    → ((a : A) → P a → Q a)
    → (m : Outcome A) → Returns P m
    → Returns Q m
Returns-weaken k (returns a) h = k a h
Returns-weaken k panics h = absurd h
Returns-weaken k (exits c) h = absurd h
Returns-weaken k hangs h = absurd h
