-- ===== src/Kernel/Printf/Format.antt =====
-- kernel/vsprintf.c: `vsprintf`. The arguments are the words of the stack by their position, and
-- `string_at` gives the characters at an address up to the NUL.
use linux.Base.{
  ℕ, zero, suc, ◌+◌, ◌-◌, ◌*◌, ◌%◌, ◌^◌, min, ◌==◌, leb, not, ◌&&◌, ◌||◌, if◌then◌else◌, Bool, true,
  none, some, List, [], ◌∷◌, ◌++◌, length, replicate, take,
}
use linux.Base.Int.{ℤ, pos, negsuc, neg, pos_part, ◌-ℤ◌, ltb_ℤ, eqb_ℤ}
use linux.Kernel.Printf.{Flags, no_flags, is_negative, number}

abbrev pub is_digit : ℕ → Bool
is_digit c = leb 48 c && leb c 57

-- `*fmt`
abbrev pub first_of : List ℕ → ℕ
first_of [] = 0
first_of (c ∷ cs) = c

abbrev pub rest_of : List ℕ → List ℕ
rest_of [] = []
rest_of (c ∷ cs) = cs

-- The number, and what is left of the format; an `int` wraps around.
unfoldable pub skip_atoi : (i : ℕ) → List ℕ → ℕ × List ℕ
skip_atoi i [] = (i, [])
skip_atoi i (c ∷ cs) =
    let rest = skip_atoi ((i * 10 + c - 48) % 2 ^ 32) cs in if is_digit c then rest else (i, c ∷ cs)

-- A word of the stack as an `int`.
abbrev pub to_int : ℕ → ℤ
to_int bits = if is_negative bits then negsuc (2 ^ 32 - 1 - bits) else pos bits

-- The flags at the beginning of a directive.
unfoldable pub parse_flags : Flags → List ℕ → Flags × List ℕ
parse_flags f [] = (f, [])
parse_flags f (c ∷ cs) =
    let f' = record f {
      left = f.left || c == 45;
      plus = f.plus || c == 43;
      space = f.space || c == 32;
      special = f.special || c == 35;
      zeropad = f.zeropad || c == 48;
    } in
    let rest = parse_flags f' cs in
    if c == 45 || c == 43 || c == 32 || c == 35 || c == 48 then rest else (f, c ∷ cs)

-- The text so far, the position of the next argument, and what `%n` has stored where.
pub record Output : Type 0 where
  pub text : List ℕ
  pub next : ℕ
  pub stores : List (ℕ × ℕ)

-- `%s`: `precision` cuts the string.
unfoldable pub string_text : (width precision : ℤ) → Flags → List ℕ → List ℕ
string_text width precision f s =
    let len = if ltb_ℤ precision (pos 0) then length s else min (length s) (pos_part precision) in
    let pad = replicate (pos_part (width -ℤ pos len)) 32 in
    if f.left then take len s ++ pad else pad ++ take len s

-- `%c`
unfoldable pub char_text : (width : ℤ) → Flags → ℕ → List ℕ
char_text width f c =
    let pad = replicate (pos_part (width -ℤ pos 1)) 32 in
    if f.left then c % 2 ^ 8 ∷ pad else pad ++ (c % 2 ^ 8 ∷ [])

-- The bases that `vsprintf` gives are good.
abbrev pub number_text : (base : ℕ) → (width precision : ℤ) → Flags → ℕ → List ℕ
number_text base width precision f num = elim (number num base width precision f) [
  | none ↦ []
  | some text ↦ text
]

abbrev pub put : List ℕ → (next : ℕ) → Output → Output
put text next o = record o { text = o.text ++ text; next = next }

module _ (args : ℕ → ℕ) (string_at : ℕ → List ℕ) where
  -- The field width, the flags, the position of the next argument and the rest of the format. After
  -- `*` the source does not step over the star.
  unfoldable pub parse_width : Flags → (next : ℕ) → List ℕ → ℤ × Flags × ℕ × List ℕ
  unfolding skip_atoi
  parse_width f next fmt =
      let (i, rest) = skip_atoi 0 fmt in
      let width = to_int (args next) in
      if is_digit (first_of fmt)
      then (to_int i, f, next, rest)
      else if not (first_of fmt == 42)
      then (negsuc 0, f, next, fmt)
      else if ltb_ℤ width (pos 0)
      then (neg width, record f { left = true }, next + 1, fmt)
      else (width, f, next + 1, fmt)

  abbrev at_least_zero : ℤ → ℤ
  at_least_zero n = pos (pos_part n)

  unfoldable pub parse_precision : (next : ℕ) → List ℕ → ℤ × ℕ × List ℕ
  unfolding skip_atoi
  parse_precision next fmt =
      let after = rest_of fmt in
      let (i, rest) = skip_atoi 0 after in
      if not (first_of fmt == 46)
      then (negsuc 0, next, fmt)
      else if is_digit (first_of after)
      then (at_least_zero (to_int i), next, rest)
      else if first_of after == 42
      then (at_least_zero (to_int (args next)), next + 1, after)
      else (pos 0, next, after)

  -- The conversion that the directive ends with. An unknown one is printed, after a `%`.
  unfoldable pub convert : (c : ℕ) → (width precision : ℤ) → Flags → Output → Output
  unfolding string_text char_text number
  convert c width precision f o =
      let arg = args o.next in
      let put_next = λ (text : List ℕ). put text (o.next + 1) o in
      let zeros = record f { zeropad = true } in
      if c == 99
      then put_next (char_text width f arg)
      else if c == 115
      then put_next (string_text width precision f (string_at arg))
      else if c == 111
      then put_next (number_text 8 width precision f arg)
      else if c == 112
      then put_next (
          if eqb_ℤ width (negsuc 0)
          then number_text 16 (pos 8) precision zeros arg
          else number_text 16 width precision f arg)
      else if c == 120
      then put_next (number_text 16 width precision (record f { small = true }) arg)
      else if c == 88
      then put_next (number_text 16 width precision f arg)
      else if c == 100 || c == 105
      then put_next (number_text 10 width precision (record f { sign = true }) arg)
      else if c == 117
      then put_next (number_text 10 width precision f arg)
      else if c == 110
      then record o { next = o.next + 1; stores = (arg, length o.text) ∷ o.stores }
      else if c == 37 || c == 0
      then put (37 ∷ []) o.next o
      else put (37 ∷ c ∷ []) o.next o

  -- One directive, after its `%`: the rest of the format.
  unfoldable pub directive : List ℕ → Output → List ℕ × Output
  unfolding parse_flags parse_width parse_precision convert
  directive fmt o =
      let (f, fmt₁) = parse_flags no_flags fmt in
      let (width, f', next, fmt₂) = parse_width f o.next fmt₁ in
      let (precision, next', fmt₃) = parse_precision next fmt₂ in
      let q = first_of fmt₃ in
      let fmt₄ = if q == 104 || q == 108 || q == 76 then rest_of fmt₃ else fmt₃ in
      (rest_of fmt₄, convert (first_of fmt₄) width precision f' (record o { next = next' }))

  -- The loop over the format, which each round shortens.
  unfoldable pub format_from : ℕ → List ℕ → Output → Output
  unfolding directive
  format_from zero fmt o = o
  format_from (suc fuel) fmt o =
      let c = first_of fmt in
      let (after, o') = directive (rest_of fmt) o in
      let fmt' = if c == 37 then after else rest_of fmt in
      let rest = format_from fuel fmt' (if c == 37 then o' else put (c ∷ []) o.next o) in
      if c == 0 then o else rest

  -- The text without its NUL; its length is the result.
  unfoldable pub vsprintf : (fmt : List ℕ) → Output
  unfolding format_from
  vsprintf fmt = format_from (length fmt) fmt (record { text = []; next = 0; stores = [] })
