-- ===== src/Base/Loops.antt =====
-- Counted loops of the source as recursions on the number of rounds left.
use linux.Base.{
  ℕ, zero, suc, ◌+◌, ◌≤◌, ◌<◌, ◌≡◌, Bool, true, false, Option, none, some, Outcome, returns, ◌>>=◌,
  ltb, leb, update, ◌&&◌, arith, if◌then◌else◌,
}

-- `for (i = from ; i < from + n ; i++) body(i)`
unfoldable pub for_up {ℓ} : {S : Type ℓ} → ℕ → ℕ → (ℕ → S → S) → S → S
for_up from zero body s = s
for_up from (suc n) body s = for_up (suc from) n body (body from s)

-- `for (i = n ; i > 0 ; --i) body(i)`
unfoldable pub for_down {ℓ} : {S : Type ℓ} → ℕ → (ℕ → S → S) → S → S
for_down zero body s = s
for_down (suc n) body s = for_down n body (body (suc n) s)

-- What every round keeps, the loop keeps.
pub for_up_inv {ℓ κ} :
    {S : Type ℓ} (P : S → Type κ) (body : ℕ → S → S)
    → ((i : ℕ) (s : S) → P s → P (body i s))
    → (from n : ℕ) (s : S) → P s
    → P (for_up from n body s)
unfolding for_up
for_up_inv P body keep from zero s h = h
for_up_inv P body keep from (suc n) s h =
    for_up_inv P body keep (suc from) n (body from s) (keep from s h)

pub for_down_inv {ℓ κ} :
    {S : Type ℓ} (P : S → Type κ) (body : ℕ → S → S)
    → ((i : ℕ) (s : S) → P s → P (body i s))
    → (n : ℕ) (s : S) → P s
    → P (for_down n body s)
unfolding for_down
for_down_inv P body keep zero s h = h
for_down_inv P body keep (suc n) s h =
    for_down_inv P body keep n (body (suc n) s) (keep (suc n) s h)

-- A loop that writes one value into consecutive cells.
pub for_up-update {ℓ} :
    {A : Type ℓ} (from n : ℕ) (v : A) (f : ℕ → A) (j : ℕ)
    → for_up from n (λ i g. update g i v) f j ≡ (if leb from j && ltb j (from + n) then v else f j)
unfolding for_up
for_up-update from zero v f j = ground arith
for_up-update from (suc n) v f j = ground (arith, for_up-update (suc from) n v (update f from v) j)

-- A counted loop whose body may fail.
unfoldable pub each_up {ℓ} : {S : Type ℓ} → ℕ → ℕ → (ℕ → S → Outcome S) → S → Outcome S
each_up from zero body s = returns s
each_up from (suc n) body s = body from s >>= each_up (suc from) n body

-- The first of `from`, `from + 1`, …, `from + n - 1` that passes the test; `from + n` if none does.
unfoldable pub find_up : ℕ → ℕ → (ℕ → Bool) → ℕ
find_up from zero test = from
find_up from (suc n) test = let rest = find_up (suc from) n test in if test from then from else rest

pub find_up_bounds :
    (from n : ℕ) (test : ℕ → Bool) → (from ≤ find_up from n test) × (find_up from n test ≤ from + n)
unfolding find_up
find_up_bounds from zero test = omega arith
find_up_bounds from (suc n) test = ground (arith, find_up_bounds (suc from) n test)

pub find_up_passes :
    (from n : ℕ) (test : ℕ → Bool)
    → find_up from n test < from + n
    → test (find_up from n test) ≡ true
unfolding find_up
find_up_passes from zero test h = absurd (omega arith)
find_up_passes from (suc n) test h = ground (arith, find_up_passes (suc from) n test)

pub find_up_least :
    (from n i : ℕ) (test : ℕ → Bool) → from ≤ i → i < find_up from n test → test i ≡ false
unfolding find_up
find_up_least from zero i test l h = absurd (omega arith)
find_up_least from (suc n) i test l h = ground (arith, find_up_least (suc from) n i test)

-- The last of `n - 1`, …, 1, 0 that passes the test.
unfoldable pub find_down : ℕ → (ℕ → Bool) → Option ℕ
find_down zero test = none
find_down (suc n) test = let rest = find_down n test in if test n then some n else rest

pub find_down_passes :
    (n i : ℕ) (test : ℕ → Bool) → find_down n test ≡ some i → (i < n) × (test i ≡ true)
unfolding find_down
find_down_passes zero i test h = cc
find_down_passes (suc n) i test h = ground (arith, find_down_passes n i test)

pub find_down-none : (n i : ℕ) (test : ℕ → Bool) → find_down n test ≡ none → i < n → test i ≡ false
unfolding find_down
find_down-none zero i test h l = absurd (omega arith)
find_down-none (suc n) i test h l = ground (arith, find_down-none n i test)

-- A test that evaluates to true at each of the numbers 0, …, `count - 1`.
abbrev pub holds_below : (test : ℕ → Bool) → ℕ → Bool
holds_below test zero = true
holds_below test (suc last) = holds_below test last && test last

pub holds_below_at :
    (test : ℕ → Bool) (count n : ℕ) → n < count → holds_below test count ≡ true → test n ≡ true
holds_below_at test zero n below all = absurd (omega arith)
holds_below_at test (suc last) n below all = ground (arith, holds_below_at test last n)
