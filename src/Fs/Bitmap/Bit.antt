-- ===== src/Fs/Bitmap/Bit.antt =====
-- One bit of a block: what `set_bit` and `clear_bit` do to it and to the others.
use linux.Base.{
  ℕ, zero, suc, ◌+◌, ◌-◌, ◌/◌, ◌%◌, ◌^◌, ◌≤◌, ◌≡◌, ◌≢◌, refl, sym, ◌∙◌, ap, arith, ◌==◌, not,
  if◌then◌else◌, Bool, true, false,
}
use native.Mathlib.Nat.{pow-suc}
use native.Mathlib.Decide.{ℕ_discrete}
use linux.Base.Bits.{bit, bit-le_one}
use linux.Fs.Bitmap.{test_bit, put_bit, set_bit, clear_bit}

bit-add_self : (k x : ℕ) → bit k x ≡ 0 → bit k (x + 2 ^ k) ≡ 1
unfolding bit
bit-add_self zero x h = omega arith
bit-add_self (suc k) x h =
    let e : (x + 2 ^ suc k) / 2 ≡ x / 2 + 2 ^ k = omega (arith, pow-suc 2 k) in
    rw e (bit-add_self k (x / 2) h)

bit-add_other : (n k x : ℕ) → n ≢ k → bit k x ≡ 0 → bit n (x + 2 ^ k) ≡ bit n x
unfolding bit
bit-add_other zero zero x ne h = absurd (ne refl)
bit-add_other zero (suc k) x ne h = omega (arith, pow-suc 2 k)
bit-add_other (suc n) zero x ne h = let e : (x + 1) / 2 ≡ x / 2 = omega arith in rw e refl
bit-add_other (suc n) (suc k) x ne h =
    let e : (x + 2 ^ suc k) / 2 ≡ x / 2 + 2 ^ k = omega (arith, pow-suc 2 k) in
    rw e (bit-add_other n k (x / 2) (λ p. ne (ap suc p)) h)

bit-sub_self : (k x : ℕ) → bit k x ≡ 1 → bit k (x - 2 ^ k) ≡ 0
unfolding bit
bit-sub_self zero x h = omega arith
bit-sub_self (suc k) x h =
    let e : (x - 2 ^ suc k) / 2 ≡ x / 2 - 2 ^ k = omega (arith, pow-suc 2 k) in
    rw e (bit-sub_self k (x / 2) h)

bit-le : (k x : ℕ) → bit k x ≡ 1 → 2 ^ k ≤ x
unfolding bit
bit-le zero x h = omega arith
bit-le (suc k) x h = omega (arith, pow-suc 2 k, bit-le k (x / 2) h)

bit-sub_other : (n k x : ℕ) → n ≢ k → bit k x ≡ 1 → bit n (x - 2 ^ k) ≡ bit n x
unfolding bit
bit-sub_other zero zero x ne h = absurd (ne refl)
bit-sub_other zero (suc k) x ne h = omega (arith, pow-suc 2 k, bit-le (suc k) x h)
bit-sub_other (suc n) zero x ne h = let e : (x - 1) / 2 ≡ x / 2 = omega arith in rw e refl
bit-sub_other (suc n) (suc k) x ne h =
    let e : (x - 2 ^ suc k) / 2 ≡ x / 2 - 2 ^ k = omega (arith, pow-suc 2 k) in
    rw e (bit-sub_other n k (x / 2) (λ p. ne (ap suc p)) h)

-- The byte that `put_bit` stores.
abbrev new_byte : ℕ → Bool → ℕ → ℕ
new_byte k b x = if bit k x == 1 then (if b then x else x - 2 ^ k) else if b then x + 2 ^ k else x

new_byte_self : (k : ℕ) (b : Bool) (x : ℕ) → (bit k (new_byte k b x) == 1) ≡ b
new_byte_self k true x = ground (arith, bit-le_one k x, bit-add_self k x)
new_byte_self k false x = ground (arith, bit-le_one k x, bit-sub_self k x)

new_byte_other : (n k : ℕ) (b : Bool) (x : ℕ) → n ≢ k → bit n (new_byte k b x) ≡ bit n x
new_byte_other n k true x ne = ground (arith, bit-le_one k x, bit-add_other n k x ne)
new_byte_other n k false x ne = ground (arith, bit-le_one k x, bit-sub_other n k x ne)

pub test_bit-put_self : (nr : ℕ) (b : Bool) (bits : ℕ → ℕ) → test_bit nr (put_bit nr b bits) ≡ b
test_bit-put_self nr b bits =
    let e : put_bit nr b bits (nr / 8) ≡ new_byte (nr % 8) b (bits (nr / 8)) = ground arith in
    rw e (new_byte_self (nr % 8) b (bits (nr / 8)))

pub test_bit-put_other :
    (n nr : ℕ) (b : Bool) (bits : ℕ → ℕ) → n ≢ nr → test_bit n (put_bit nr b bits) ≡ test_bit n bits
test_bit-put_other n nr b bits ne = elim (ℕ_discrete (n / 8) (nr / 8)) [
  | yes same ↦
      let e : put_bit nr b bits (n / 8) ≡ new_byte (nr % 8) b (bits (n / 8)) =
        ground (arith, same) in
      let digit : n % 8 ≢ nr % 8 = λ d. ne (omega (arith, same, d)) in
      rw e (ap (λ v. v == 1) (new_byte_other (n % 8) (nr % 8) b (bits (n / 8)) digit))
  | no other ↦ ground (arith, other)
]

-- `set_bit` and then `clear_bit` of one bit: both report what the bit was, and every bit is as it
-- was before if the bit was clear.
clear_bit-set_bit :
    (nr : ℕ) (bits : ℕ → ℕ)
    → test_bit nr bits ≡ false
    → let (was_set, bits₁) = set_bit nr bits in
      let (was_clear, bits₂) = clear_bit nr bits₁ in
      (was_set ≡ false) × (was_clear ≡ false) × ((n : ℕ) → test_bit n bits₂ ≡ test_bit n bits)
unfolding set_bit clear_bit
clear_bit-set_bit nr bits h = (
  h,
  ap not (test_bit-put_self nr true bits),
  λ n. elim (ℕ_discrete n nr) [
    | yes e ↦ rw e (test_bit-put_self nr false (put_bit nr true bits) ∙ sym h)
    | no ne ↦
        test_bit-put_other n nr false (put_bit nr true bits) ne
        ∙ test_bit-put_other n nr true bits ne
  ],
)
