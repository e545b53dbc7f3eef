-- ===== src/Fs/Open/Mode.antt =====
-- fs/open.c: what `sys_chmod` makes of a mode.
use linux.Base.{
  ℕ, ◌-◌, ◌<◌, ◌≤◌, ◌≡◌, arith, min, max, bit_and, refl, ◌∙◌, ◌==◌, ltb, if◌then◌else◌, true,
}
use linux.Base.Loops.{holds_below_at}
use linux.Base.Bits.{bit, bit-bit_and, bit-bit_or, bit-le_one}
use linux.Fs.Open.{changed_mode}

abbrev low : ℕ → ℕ
low n = if ltb n 12 then 1 else 0

mask_bit : (n : ℕ) → n < 16 → (bit n 0o7777 == low n) ≡ true
unfolding bit
mask_bit n h = holds_below_at (λ n. bit n 0o7777 == low n) 16 n h refl

type_bit : (n : ℕ) → n < 16 → (bit n (0o177777 - 0o7777) == 1 - low n) ≡ true
unfolding bit
type_bit n h = holds_below_at (λ n. bit n (0o177777 - 0o7777) == 1 - low n) 16 n h refl

changed_mode-bit :
    (mode i_mode n : ℕ)
    → n < 16
    → bit n (changed_mode mode i_mode)
      ≡ max (min (bit n mode) (low n)) (min (bit n i_mode) (1 - low n))
changed_mode-bit mode i_mode n h =
    let m : bit n 0o7777 ≡ low n = ground (arith, mask_bit n h) in
    let t : bit n (0o177777 - 0o7777) ≡ 1 - low n = ground (arith, type_bit n h) in
    bit-bit_or n (bit_and mode 0o7777) (bit_and i_mode (0o177777 - 0o7777))
    ∙ rw (bit-bit_and n mode 0o7777, bit-bit_and n i_mode (0o177777 - 0o7777), m, t) refl

-- `sys_chmod` takes the twelve lowest bits of a mode from its argument, and keeps the four that are
-- the type of the file.
pub changed_mode_lem :
    (mode i_mode n : ℕ)
    → n < 16
    → (n < 12 → bit n (changed_mode mode i_mode) ≡ bit n mode)
      × (12 ≤ n → bit n (changed_mode mode i_mode) ≡ bit n i_mode)
changed_mode_lem mode i_mode n h =
    let e = changed_mode-bit mode i_mode n h in
    (
      λ l. let lo : low n ≡ 1 = ground arith in omega (arith, e, lo, bit-le_one n mode),
      λ l. let hi : low n ≡ 0 = ground arith in omega (arith, e, hi, bit-le_one n i_mode),
    )
