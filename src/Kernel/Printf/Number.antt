-- ===== src/Kernel/Printf/Number.antt =====
-- kernel/vsprintf.c: `number` prints the digits of the number, in a field of the width asked for.
use linux.Base.{
  ℕ, zero, suc, ◌+◌, ◌*◌, ◌-◌, ◌/◌, ◌%◌, ◌^◌, ◌<◌, ◌≤◌, ◌≡◌, max, refl, sym, ◌∙◌, ap, arith, ◌==◌,
  ltb, ◌||◌, if◌then◌else◌, Bool, Bool-cases, inl, inr, false, List, [], ◌∷◌, length, length-append,
  length-replicate, some,
}
use native.Mathlib.Nat.{pow-suc, div-add-mod, mul-le-mul_right}
use native.Mathlib.Decide.{ℕ_discrete}
use linux.Base.Int.{ℤ, pos, pos_part, ◌-ℤ◌, ltb_ℤ}
use linux.Kernel.Printf.{
  Flags, digit, digits_of, reverse, map_digits, digits_text, magnitude, layout, printed, sign_text,
  prefix_text, number,
}

-- The number that digits stand for, the lowest first.
abbrev value : (base : ℕ) → List ℕ → ℕ
value base [] = 0
value base (d ∷ ds) = base * value base ds + d

half_le : (base num : ℕ) → 2 ≤ base → num / base * 2 ≤ num
half_le base num h =
    let more : 2 * (num / base) ≤ base * (num / base) = mul-le-mul_right (num / base) h in
    omega (arith, more, div-add-mod num base)

digits_of-value :
    (fuel base num : ℕ) → 2 ≤ base → num < 2 ^ fuel → value base (digits_of fuel base num) ≡ num
unfolding digits_of
digits_of-value zero base num h l = omega (arith, l)
digits_of-value (suc fuel) base num h l = elim (ℕ_discrete num 0) [
  | yes z ↦ rw z refl
  | no nz ↦
      let e : (num == 0) ≡ false = ground (arith, nz) in
      let less : num / base < 2 ^ fuel = omega (arith, half_le base num h, pow-suc 2 fuel, l) in
      rw e (
        ap (λ v. base * v + num % base) (digits_of-value fuel base (num / base) h less)
        ∙ div-add-mod num base)
]

-- The value of a digit as a character.
abbrev digit_value : (small : Bool) → ℕ → ℕ
digit_value small c = if ltb c 58 then c - 48 else if small then c - 87 else c - 55

digit_value-digit : (small : Bool) (d : ℕ) → digit_value small (digit small d) ≡ d
digit_value-digit small d = ground arith

-- Reading a text of digits.
abbrev pub read_digits : (small : Bool) → (base : ℕ) → List ℕ → (so_far : ℕ) → ℕ
read_digits small base [] so_far = so_far
read_digits small base (c ∷ cs) so_far =
    read_digits small base cs (base * so_far + digit_value small c)

read-reverse :
    (small : Bool) (base : ℕ) (ds out : List ℕ)
    → read_digits small base (map_digits small (reverse ds out)) 0
      ≡ read_digits small base (map_digits small out) (value base ds)
read-reverse small base [] out = refl
read-reverse small base (d ∷ ds) out =
    read-reverse small base ds (d ∷ out)
    ∙ ap (λ c. read_digits small base (map_digits small out) (base * value base ds + c))
        (digit_value-digit small d)

-- The digits that `number` prints of a number of 32 bits are read back as that number, in every base
-- from 2 on, with capitals or small letters.
pub read_digits-digits_text :
    (small : Bool) (base num : ℕ)
    → 2 ≤ base
    → num < 2 ^ 32
    → read_digits small base (digits_text small base num) 0 ≡ num
unfolding digits_text
read_digits-digits_text small base num h l = elim (ℕ_discrete num 0) [
  | yes z ↦ rw z (omega arith)
  | no nz ↦
      let e : (num == 0) ≡ false = ground (arith, nz) in
      rw e (read-reverse small base (digits_of 32 base num) [] ∙ digits_of-value 32 base num h l)
]

length-layout :
    (f : Flags) (pad fill : ℕ) (sign prefix digits : List ℕ)
    → length (layout f pad fill sign prefix digits)
      ≡ pad + length sign + length prefix + fill + length digits
unfolding layout
length-layout f pad fill sign prefix digits = elim (Bool-cases f.left) [
  | inl left ↦ rw left (simp (length-append, length-replicate) (omega arith))
  | inr right ↦ elim (Bool-cases f.zeropad) [
    | inl padded ↦ rw (right, padded) (simp (length-append, length-replicate) (omega arith))
    | inr spaced ↦ rw (right, spaced) (simp (length-append, length-replicate) (omega arith))
  ]
]

-- How wide the number is without padding: its sign, its prefix, and its digits, which are at least
-- `precision` many.
abbrev pub bare_width : (num base : ℕ) → (precision : ℤ) → Flags → ℕ
bare_width num base precision f =
    length (sign_text f num)
    + length (prefix_text f base)
    + max (length (digits_text f.small base (magnitude f num))) (pos_part precision)

pad-max : (size : ℤ) (n : ℕ) → pos_part (size -ℤ pos n) + n ≡ max (pos_part size) n
unfolding ◌-ℤ◌
pad-max size n = ground arith

precision-max :
    (precision : ℤ) (i : ℕ)
    → (if ltb_ℤ precision (pos i) then i else pos_part precision) ≡ max i (pos_part precision)
precision-max precision i = ground arith

length-printed :
    (num base : ℕ) (size precision : ℤ) (f : Flags)
    → length (printed num base size precision f)
      ≡ max (pos_part size) (bare_width num base precision f)
unfolding printed
length-printed num base size precision f =
    let digits = digits_text f.small base (magnitude f num) in
    let sign = sign_text f num in
    let prefix = prefix_text f base in
    let i = length digits in
    let wide = max i (pos_part precision) in
    let n = length sign + length prefix + wide in
    let pad = pos_part (size -ℤ pos n) in
    rw (precision-max precision i)
      (length-layout f pad (wide - i) sign prefix digits ∙ omega (arith, pad-max size n))

-- In a good base, the text of `number` has the width that is asked for, or that of the number if it
-- is wider.
pub number-length :
    (num base : ℕ) (size precision : ℤ) (f : Flags) (text : List ℕ)
    → number num base size precision f ≡ some text
    → length text ≡ max (pos_part size) (bare_width num base precision f)
unfolding number
number-length num base size precision f text e = elim (Bool-cases (ltb base 2 || ltb 36 base)) [
  | inl bad ↦ absurd (ground (arith, bad, e))
  | inr good ↦
      let same : printed num base size precision f ≡ text = ground (arith, good, e) in
      ap length (sym same) ∙ length-printed num base size precision f
]
