-- ===== src/Kernel/Printf.antt =====
-- kernel/vsprintf.c: formatted output. The text goes to a list of characters in place of `buf`; the
-- format is a list without the NUL at its end, and what follows the end is 0.
pub mod Number
pub mod Format
use linux.Base.{
  ℕ, zero, suc, ◌+◌, ◌-◌, ◌*◌, ◌/◌, ◌%◌, ◌^◌, ◌==◌, ltb, leb, not, ◌&&◌, ◌||◌, if◌then◌else◌, Bool,
  true, false, Option, none, some, List, [], ◌∷◌, ◌++◌, length, replicate,
}
use linux.Base.Int.{ℤ, pos, negsuc, pos_part, ◌-ℤ◌, ltb_ℤ}

-- The flags ZEROPAD, SIGN, PLUS, SPACE, LEFT, SPECIAL and SMALL.
pub record Flags : Type 0 where
  pub zeropad : Bool
  pub sign : Bool
  pub plus : Bool
  pub space : Bool
  pub left : Bool
  pub special : Bool
  pub small : Bool

abbrev pub no_flags : Flags
no_flags = record {
  zeropad = false;
  sign = false;
  plus = false;
  space = false;
  left = false;
  special = false;
  small = false;
}

-- `digits[d]`, for d below 36
abbrev pub digit : (small : Bool) → ℕ → ℕ
digit small d = if ltb d 10 then 48 + d else if small then 87 + d else 55 + d

-- The loop of `do_div`, lowest digit first, on fuel: a number of 32 bits has 32 digits at most.
unfoldable pub digits_of : ℕ → (base num : ℕ) → List ℕ
digits_of zero base num = []
digits_of (suc fuel) base num =
    let rest = digits_of fuel base (num / base) in if num == 0 then [] else num % base ∷ rest

abbrev pub reverse : List ℕ → List ℕ → List ℕ
reverse [] out = out
reverse (d ∷ ds) out = reverse ds (d ∷ out)

abbrev pub map_digits : (small : Bool) → List ℕ → List ℕ
map_digits small [] = []
map_digits small (d ∷ ds) = digit small d ∷ map_digits small ds

-- The digits in the order they are printed in, of a number of 32 bits.
unfoldable pub digits_text : (small : Bool) → (base num : ℕ) → List ℕ
digits_text small base num =
    if num == 0 then 48 ∷ [] else map_digits small (reverse (digits_of 32 base num) [])

-- An `int` is given by its 32 bits.
abbrev pub is_negative : ℕ → Bool
is_negative num = leb (2 ^ 31) num

-- The sign, if there is one.
abbrev pub sign_text : Flags → (num : ℕ) → List ℕ
sign_text f num =
    if f.sign && is_negative num
    then 45 ∷ []
    else if f.plus
    then 43 ∷ []
    else if f.space
    then 32 ∷ []
    else []

abbrev pub prefix_text : Flags → (base : ℕ) → List ℕ
prefix_text f base =
    if f.special
    then (if base == 8 then 48 ∷ [] else if base == 16 then 48 ∷ digit f.small 33 ∷ [] else [])
    else []

-- `num = -num`
abbrev pub magnitude : Flags → (num : ℕ) → ℕ
magnitude f num = if f.sign && is_negative num then 2 ^ 32 - num else num

-- What `while (size-- > 0)` runs.
abbrev pub rounds : ℤ → ℕ
rounds size = pos_part size

-- The parts in their order. A loop on `size` leaves it negative, so that of the three only the first
-- that is reached writes.
unfoldable pub layout : Flags → (pad fill : ℕ) → (sign prefix digits : List ℕ) → List ℕ
layout f pad fill sign prefix digits =
    if f.left
    then sign ++ prefix ++ replicate fill 48 ++ digits ++ replicate pad 32
    else if f.zeropad
    then sign ++ prefix ++ replicate pad 48 ++ replicate fill 48 ++ digits
    else replicate pad 32 ++ sign ++ prefix ++ replicate fill 48 ++ digits

-- The text of a number, in a good base.
unfoldable pub printed : (num base : ℕ) → (size precision : ℤ) → Flags → List ℕ
printed num base size precision f =
    let digits = digits_text f.small base (magnitude f num) in
    let sign = sign_text f num in
    let prefix = prefix_text f base in
    let i = length digits in
    let precision = if ltb_ℤ precision (pos i) then i else pos_part precision in
    let pad = rounds (size -ℤ pos (length sign + length prefix + precision)) in
    layout f pad (precision - i) sign prefix digits

-- What `number` appends; `none` is its NULL for a bad base.
unfoldable pub number : (num base : ℕ) → (size precision : ℤ) → Flags → Option (List ℕ)
number num base size precision f =
    if ltb base 2 || ltb 36 base then none else some (printed num base size precision f)
