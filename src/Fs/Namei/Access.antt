-- ===== src/Fs/Namei/Access.antt =====
-- fs/namei.c: what `permission` grants, bit by bit of the mode.
use linux.Base.{
  ℕ, zero, suc, ◌+◌, ◌*◌, ◌/◌, ◌<◌, ◌≡◌, ◌≢◌, ◌⊎◌, inl, inr, ◌↔◌, refl, sym, ◌∙◌, ap, min, arith,
  ◌==◌, if◌then◌else◌, true, bit_and,
}
use native.Mathlib.Decide.{ℕ_discrete}
use linux.Base.Bits.{bit, bit-le_one, bit-bit_and, bit_and-le_right}
use linux.Kernel.Task.{Task}
use linux.Fs.Structs.{Inode}
use linux.Fs.Namei.{mode_for, permission}

-- Three digits are a number below 8.
three_bits : (x : ℕ) → x < 8 → x ≡ bit 0 x + 2 * bit 1 x + 4 * bit 2 x
unfolding bit
three_bits x h = omega arith

seven_bits : (n : ℕ) → n < 3 → bit n 7 ≡ 1
unfolding bit
seven_bits zero h = refl
seven_bits (suc zero) h = refl
seven_bits (suc (suc zero)) h = refl
seven_bits (suc (suc (suc n))) h = absurd (omega arith)

-- The digits of the mode from `shift` on cover those of the mask.
abbrev pub Grants : (shift mode mask : ℕ) → Type 0
Grants shift mode mask = (n : ℕ) → n < 3 → bit n mask ≡ 1 → bit (shift + n) mode ≡ 1

abbrev masked : (mode mask : ℕ) → ℕ
masked mode mask = bit_and (bit_and mode mask) 7

masked-bit : (mode mask n : ℕ) → n < 3 → bit n (masked mode mask) ≡ min (bit n mode) (bit n mask)
masked-bit mode mask n h = omega (
  arith,
  bit-bit_and n (bit_and mode mask) 7,
  bit-bit_and n mode mask,
  seven_bits n h,
  bit-le_one n mode,
)

masked-lt : (mode mask : ℕ) → masked mode mask < 8
masked-lt mode mask = omega (arith, bit_and-le_right (bit_and mode mask) 7)

bit-zero_add : (n x : ℕ) → bit (0 + n) x ≡ bit n x
bit-zero_add n x = let e : 0 + n ≡ n = omega arith in ap (λ k. bit k x) e

masked-Grants : (mode mask : ℕ) → masked mode mask ≡ mask → Grants 0 mode mask
masked-Grants mode mask e n l one =
    omega
      (arith, one, bit-zero_add n mode, masked-bit mode mask n l, ap (bit n) e, bit-le_one n mode)

same_digit : (mode mask n : ℕ) → Grants 0 mode mask → n < 3 → bit n (masked mode mask) ≡ bit n mask
same_digit mode mask n g l = elim (ℕ_discrete (bit n mask) 1) [
  | yes one ↦ omega (arith, one, masked-bit mode mask n l, g n l one, bit-zero_add n mode)
  | no ne ↦ omega (arith, ne, masked-bit mode mask n l, bit-le_one n mask)
]

Grants-masked : (mode mask : ℕ) → mask < 8 → Grants 0 mode mask → masked mode mask ≡ mask
Grants-masked mode mask h g = omega (
  arith,
  three_bits mask h,
  three_bits (masked mode mask) (masked-lt mode mask),
  same_digit mode mask 0 g (omega arith),
  same_digit mode mask 1 g (omega arith),
  same_digit mode mask 2 g (omega arith),
)

-- Whose bits of the mode count: those from this digit on.
abbrev pub class_shift : Task → Inode → ℕ
class_shift t i = if t.euid == i.i_uid then 6 else if t.egid == i.i_gid then 3 else 0

bit-div_8 : (n x : ℕ) → bit n (x / 8) ≡ bit (3 + n) x
unfolding bit
bit-div_8 n x =
    let e : x / 8 ≡ x / 2 / 2 / 2 = omega arith in
    let k : suc (suc (suc n)) ≡ 3 + n = omega arith in ap (bit n) e ∙ ap (λ k. bit k x) k

bit-div_64 : (n x : ℕ) → bit n (x / 64) ≡ bit (6 + n) x
unfolding bit
bit-div_64 n x =
    let e : x / 64 ≡ x / 8 / 2 / 2 / 2 = omega arith in
    let k : 3 + suc (suc (suc n)) ≡ 6 + n = omega arith in
    ap (bit n) e ∙ bit-div_8 (suc (suc (suc n))) x ∙ ap (λ k. bit k x) k

bit-mode_for :
    (n : ℕ) (t : Task) (i : Inode) → bit n (mode_for t i) ≡ bit (class_shift t i + n) i.i_mode
bit-mode_for n t i = elim (ℕ_discrete t.euid i.i_uid) [
  | yes own ↦ ground (arith, own, bit-div_64 n i.i_mode)
  | no other ↦ elim (ℕ_discrete t.egid i.i_gid) [
    | yes group ↦ ground (arith, other, group, bit-div_8 n i.i_mode)
    | no none ↦ ground (arith, other, none, bit-zero_add n i.i_mode)
  ]
]

mode_for-Grants :
    (t : Task) (i : Inode) (mask : ℕ)
    → Grants 0 (mode_for t i) mask
    → Grants (class_shift t i) i.i_mode mask
mode_for-Grants t i mask g n l one =
    sym (bit-mode_for n t i) ∙ sym (bit-zero_add n (mode_for t i)) ∙ g n l one

Grants-mode_for :
    (t : Task) (i : Inode) (mask : ℕ)
    → Grants (class_shift t i) i.i_mode mask
    → Grants 0 (mode_for t i) mask
Grants-mode_for t i mask g n l one = bit-zero_add n (mode_for t i) ∙ bit-mode_for n t i ∙ g n l one

-- Nobody may use an inode of a device that has no links; otherwise root may, and everybody whose
-- bits of the mode (the owner's, the group's or those of the others) have all that the mask asks
-- for.
abbrev pub MayUse : Task → Inode → (mask : ℕ) → Type 0
MayUse t i mask =
    ((i.i_dev ≡ 0) ⊎ (i.i_nlinks ≢ 0)) × ((t.euid ≡ 0) ⊎ Grants (class_shift t i) i.i_mode mask)

permission-MayUse : (t : Task) (i : Inode) (mask : ℕ) → permission t i mask ≡ true → MayUse t i mask
unfolding permission
permission-MayUse t i mask e = (
  ground arith,
  elim (ℕ_discrete (masked (mode_for t i) mask) mask) [
    | yes all ↦ inr (mode_for-Grants t i mask (masked-Grants (mode_for t i) mask all))
    | no some ↦ inl (ground (arith, some))
  ],
)

MayUse-permission :
    (t : Task) (i : Inode) (mask : ℕ) → mask < 8 → MayUse t i mask → permission t i mask ≡ true
unfolding permission
MayUse-permission t i mask h (there, inl root) = ground (arith, there, root)
MayUse-permission t i mask h (there, inr g) =
    let all = Grants-masked (mode_for t i) mask h (Grants-mode_for t i mask g) in
    ground (arith, there, all)

-- For a mask of three bits, `permission` grants exactly what `MayUse` says.
pub permission_iff :
    (t : Task) (i : Inode) (mask : ℕ) → mask < 8 → (permission t i mask ≡ true) ↔ MayUse t i mask
permission_iff t i mask h = (permission-MayUse t i mask, MayUse-permission t i mask h)
