-- ===== src/Base/Bits.antt =====
-- Binary digits of the native numbers, and what the bit operations do to each.
use Prim.Native.Nat.{
  ℕ, zero, suc, ◌+◌, ◌-◌, ◌*◌, ◌/◌, ◌%◌, ◌^◌, ◌≤◌, ◌<◌, min, max, bit_and, bit_or, digits, bitwise,
  bit_and-bitwise, bit_or-bitwise,
}
use mathlib.Core.Path.{◌≡◌, refl, ◌∙◌}
use mathlib.Core.Logic.{◌≢◌}
use native.Mathlib.Nat.{le_refl, pow-suc}
use native.Mathlib.Decide.{ℕ_discrete}
use native.Mathlib.Omega.{arith}

-- The native operations recurse on digits with fuel, of which the first number is enough.
module _ (rest : ℕ → ℕ) (op : ℕ → ℕ → ℕ) where
  spare_round : (fuel x y : ℕ) → x ≤ fuel → digits rest op (suc fuel) x y ≡ digits rest op fuel x y
  spare_round zero zero y enough = refl
  spare_round zero (suc x) y enough = absurd (omega arith)
  spare_round (suc fuel) zero y enough = refl
  spare_round (suc fuel) (suc x) y enough =
      omega (arith, spare_round fuel (suc x / 2) (y / 2) (omega arith))

  spare_rounds : (more x y : ℕ) → digits rest op (more + x) x y ≡ bitwise rest op x y
  spare_rounds zero x y = let no_more : 0 + x ≡ x = omega arith in rw no_more refl
  spare_rounds (suc more) x y =
      let one_more : suc more + x ≡ suc (more + x) = omega arith in
      rw one_more (spare_round (more + x) x y (omega arith) ∙ spare_rounds more x y)

  lowest_digit :
      (x y : ℕ)
      → bitwise rest op (suc x) y ≡ bitwise rest op (suc x / 2) (y / 2) * 2 + op (suc x % 2) (y % 2)
  lowest_digit x y =
      let half = suc x / 2 in
      let fuel : x - half + half ≡ x = omega arith in
      omega (arith, fuel, rw fuel at (spare_rounds (x - half) half (y / 2)))

bit_or_step : (x y : ℕ) → bit_or x y ≡ bit_or (x / 2) (y / 2) * 2 + max (x % 2) (y % 2)
bit_or_step zero y = omega (arith, bit_or-bitwise 0 y, bit_or-bitwise 0 (y / 2))
bit_or_step (suc x) y = omega (
  arith,
  bit_or-bitwise (suc x) y,
  bit_or-bitwise (suc x / 2) (y / 2),
  lowest_digit (λ n. n) max x y,
)

bit_and_step : (x y : ℕ) → bit_and x y ≡ bit_and (x / 2) (y / 2) * 2 + min (x % 2) (y % 2)
bit_and_step zero y = omega (arith, bit_and-bitwise 0 y, bit_and-bitwise 0 (y / 2))
bit_and_step (suc x) y = omega (
  arith,
  bit_and-bitwise (suc x) y,
  bit_and-bitwise (suc x / 2) (y / 2),
  lowest_digit (λ n. 0) min x y,
)

bit_and-le_fuel : (n a b : ℕ) → a ≤ n → bit_and a b ≤ a
bit_and-le_fuel n zero b h = omega (arith, bit_and-bitwise 0 b)
bit_and-le_fuel zero (suc a) b h = absurd (omega arith)
bit_and-le_fuel (suc n) (suc a) b h =
    omega (arith, bit_and_step (suc a) b, bit_and-le_fuel n (suc a / 2) (b / 2) (omega arith))

pub bit_and-le : (a b : ℕ) → bit_and a b ≤ a
bit_and-le a b = bit_and-le_fuel a a b (le_refl a)

bit_and-le_right_fuel : (n a b : ℕ) → a ≤ n → bit_and a b ≤ b
bit_and-le_right_fuel n zero b h = omega (arith, bit_and-bitwise 0 b)
bit_and-le_right_fuel zero (suc a) b h = absurd (omega arith)
bit_and-le_right_fuel (suc n) (suc a) b h =
    omega (arith, bit_and_step (suc a) b, bit_and-le_right_fuel n (suc a / 2) (b / 2) (omega arith))

pub bit_and-le_right : (a b : ℕ) → bit_and a b ≤ b
bit_and-le_right a b = bit_and-le_right_fuel a a b (le_refl a)

-- The digit of weight 2 ^ n.
unfoldable pub bit : ℕ → ℕ → ℕ
bit zero x = x % 2
bit (suc n) x = bit n (x / 2)

pub bit-le_one : (n x : ℕ) → bit n x ≤ 1
unfolding bit
bit-le_one zero x = omega arith
bit-le_one (suc n) x = bit-le_one n (x / 2)

pub bit-bit_or : (n a b : ℕ) → bit n (bit_or a b) ≡ max (bit n a) (bit n b)
unfolding bit
bit-bit_or zero a b = omega (arith, bit_or_step a b)
bit-bit_or (suc n) a b =
    let e : bit_or a b / 2 ≡ bit_or (a / 2) (b / 2) = omega (arith, bit_or_step a b) in
    rw e (bit-bit_or n (a / 2) (b / 2))

pub bit-bit_and : (n a b : ℕ) → bit n (bit_and a b) ≡ min (bit n a) (bit n b)
unfolding bit
bit-bit_and zero a b = omega (arith, bit_and_step a b)
bit-bit_and (suc n) a b =
    let e : bit_and a b / 2 ≡ bit_and (a / 2) (b / 2) = omega (arith, bit_and_step a b) in
    rw e (bit-bit_and n (a / 2) (b / 2))

-- `~x` of a 32-bit word.
abbrev pub bit_not : ℕ → ℕ
bit_not x = 2 ^ 32 - 1 - x

bit-ones_sub : (n k x : ℕ) → n < k → x < 2 ^ k → bit n (2 ^ k - 1 - x) ≡ 1 - bit n x
unfolding bit
bit-ones_sub n zero x h l = absurd (omega arith)
bit-ones_sub zero (suc k) x h l = omega (arith, pow-suc 2 k)
bit-ones_sub (suc n) (suc k) x h l =
    let e : (2 ^ suc k - 1 - x) / 2 ≡ 2 ^ k - 1 - x / 2 = omega (arith, pow-suc 2 k) in
    rw e (bit-ones_sub n k (x / 2) (omega arith) (omega (arith, pow-suc 2 k)))

pub bit-bit_not : (n x : ℕ) → n < 32 → x < 2 ^ 32 → bit n (bit_not x) ≡ 1 - bit n x
bit-bit_not n x h l = bit-ones_sub n 32 x h l

pub bit-zero : (n : ℕ) → bit n 0 ≡ 0
unfolding bit
bit-zero zero = refl
bit-zero (suc n) = bit-zero n

pub bit-pow_self : (k : ℕ) → bit k (2 ^ k) ≡ 1
unfolding bit
bit-pow_self zero = refl
bit-pow_self (suc k) =
    let e : 2 ^ suc k / 2 ≡ 2 ^ k = omega (arith, pow-suc 2 k) in rw e (bit-pow_self k)

pub bit-pow_ne : (n k : ℕ) → n ≢ k → bit n (2 ^ k) ≡ 0
unfolding bit
bit-pow_ne zero zero h = absurd (h refl)
bit-pow_ne zero (suc k) h = omega (arith, pow-suc 2 k)
bit-pow_ne (suc n) zero h = bit-zero n
bit-pow_ne (suc n) (suc k) h =
    let e : 2 ^ suc k / 2 ≡ 2 ^ k = omega (arith, pow-suc 2 k) in
    rw e (bit-pow_ne n k (λ p. h (rw p)))

-- A number that is not 0 has a digit that is not.
pub one_bit : (k x : ℕ) → x < 2 ^ k → x ≢ 0 → (n : ℕ) × (n < k) × (bit n x ≡ 1)
unfolding bit
one_bit zero x l h = absurd (h (omega arith))
one_bit (suc k) x l h = elim (ℕ_discrete (x % 2) 1) [
  | yes e ↦ (0, omega arith, e)
  | no ne ↦
      let (n, ln, e) = one_bit k (x / 2) (omega (arith, pow-suc 2 k)) (λ z. h (omega arith)) in
      (suc n, omega arith, e)
]
