-- ===== src/Kernel/Tty/Termios.antt =====
-- kernel/chr_drv/tty_ioctl.c: what `TCSETS` has set is what `TCGETS` then reports.
use linux.Base.{
  ℕ, zero, suc, ◌+◌, ◌-◌, ◌<◌, ◌≡◌, ◌^◌, ◌==◌, ltb, true, false, update, refl, ◌∙◌, ap, arith,
  Bool-cases, inl, inr, ◌≤◌, ◌%◌,
}
use native.Mathlib.Decide.{ℕ_discrete}
use linux.Base.Loops.{for_up}
use linux.Kernel.Tty.{TtyStruct}
use linux.Kernel.Tty.Ioctl.{
  Lines, with_line, line, memory, change_speed, termios_byte, load_termios, set_termios,
  get_termios, do_command,
}
use linux.Fs.Inode.{byte_of, read32}

byte_of-read32 :
    (f : ℕ → ℕ) (at k : ℕ) → ((a : ℕ) → f a < 256) → k < 4 → byte_of (read32 f at) k ≡ f (at + k)
byte_of-read32 f at k small h =
    let a = small at in
    let b = small (at + 1) in
    let c = small (at + 2) in
    let d = small (at + 3) in
    elim (ℕ_discrete k 0) [
      | yes e ↦
          let low : byte_of (read32 f at) 0 ≡ f at = omega (arith, a, b, c, d) in
          rw e (low ∙ ap f (omega arith))
      | no n₀ ↦ elim (ℕ_discrete k 1) [
        | yes e ↦ rw e (omega (arith, a, b, c, d))
        | no n₁ ↦ elim (ℕ_discrete k 2) [
          | yes e ↦ rw e (omega (arith, a, b, c, d))
          | no n₂ ↦ let e : k ≡ 3 = omega arith in rw e (omega (arith, a, b, c, d))
        ]
      ]
    ]

field_byte :
    (f : ℕ → ℕ) (at k off : ℕ)
    → ((a : ℕ) → f a < 256)
    → (low : ltb k off ≡ false) → (high : ltb k (off + 4) ≡ true)
    → byte_of (read32 f (at + off)) (k - off) ≡ f (at + k)
field_byte f at k off small low high =
    byte_of-read32 f (at + off) (k - off) small (ground (arith, low, high))
    ∙ ap f (ground (arith, low, high))

termios_byte-load_termios :
    (f : ℕ → ℕ) (at k : ℕ) (t : TtyStruct)
    → ((a : ℕ) → f a < 256)
    → k < 36
    → termios_byte (load_termios f at t) k ≡ f (at + k)
unfolding termios_byte load_termios
termios_byte-load_termios f at k t small h = elim (Bool-cases (ltb k 4)) [
  | inl a ↦ rw a (byte_of-read32 f at k small (ground (arith, a)))
  | inr a ↦ elim (Bool-cases (ltb k 8)) [
    | inl b ↦ rw (a, b) (field_byte f at k 4 small a b)
    | inr b ↦ elim (Bool-cases (ltb k 12)) [
      | inl c ↦ rw (a, b, c) (field_byte f at k 8 small b c)
      | inr c ↦ elim (Bool-cases (ltb k 16)) [
        | inl d ↦ rw (a, b, c, d) (field_byte f at k 12 small c d)
        | inr d ↦ elim (ℕ_discrete k 16) [
          | yes e ↦ rw e refl
          | no n ↦
              let g : (k == 16) ≡ false = ground (arith, n) in
              let i : ltb (k - 17) 19 ≡ true = ground (arith, h) in
              rw (a, b, c, d, g, i) (ap f (ground (arith, d, n)))
        ]
      ]
    ]
  ]
]

put_bytes-above :
    (at a : ℕ) (n from : ℕ) (byte f : ℕ → ℕ)
    → a < at + from
    → for_up from n (λ k f. update f (at + k) (byte k)) f a ≡ f a
unfolding for_up
put_bytes-above at a zero from byte f h = refl
put_bytes-above at a (suc n) from byte f h =
    put_bytes-above at a n (suc from) byte (update f (at + from) (byte from)) (omega arith)
    ∙ ground (arith, h)

bytes_from :
    (at : ℕ) (n from k : ℕ) (byte f : ℕ → ℕ)
    → from ≤ k
    → k < from + n
    → for_up from n (λ k f. update f (at + k) (byte k)) f (at + k) ≡ byte k
unfolding for_up
bytes_from at zero from k byte f l h = absurd (omega arith)
bytes_from at (suc n) from k byte f l h = elim (ℕ_discrete k from) [
  | yes e ↦
      put_bytes-above at (at + k) n (suc from) byte (update f (at + from) (byte from)) (omega arith)
      ∙ rw e (ground arith)
  | no ne ↦
      bytes_from at n (suc from) k byte (update f (at + from) (byte from)) (omega arith)
        (omega arith)
]

change_speed-line : (tty : ℕ) (s : Lines) → line tty (change_speed tty s) ≡ line tty s
unfolding change_speed
change_speed-line tty s = elim (ℕ_discrete ((line tty s).read_q.lines % 2 ^ 16) 0) [
  | yes e ↦ rw e refl
  | no n ↦
      let g : ((line tty s).read_q.lines % 2 ^ 16 == 0) ≡ false = ground (arith, n) in rw g refl
]

line-set_termios :
    (tty at : ℕ) (s : Lines)
    → line tty (set_termios tty at s) ≡ load_termios (memory s) at (line tty s)
unfolding set_termios
line-set_termios tty at s =
    change_speed-line tty (with_line tty (load_termios (memory s) at) s) ∙ ground arith

module _ (verify_area : (addr size : ℕ) → Lines → Lines) (stack tty : ℕ)
    (kept : (addr size : ℕ) (s : Lines) → line tty (verify_area addr size s) ≡ line tty s) where
  reported :
      (at k : ℕ) (s : Lines)
      → k < 36
      → memory (get_termios verify_area stack tty at s) (at + k) ≡ termios_byte (line tty s) k
  unfolding get_termios
  reported at k s h =
      bytes_from at 36 0 k (termios_byte (line tty (verify_area at 36 s)))
        (memory (verify_area at 36 s)) (omega arith) (omega (arith, h))
      ∙ ap (λ t. termios_byte t k) (kept at 36 s)

  -- The 36 bytes that `TCSETS` has taken from the memory of a process, bytes all, are the ones that
  -- `TCGETS` then puts there, at any address, if `verify_area` does not change the terminal.
  pub do_command-set_termios :
      (from at k : ℕ) (s : Lines)
      → ((a : ℕ) → memory s a < 256)
      → k < 36
      → let (_, set) = do_command verify_area stack tty 0x5402 from s in
        let (_, got) = do_command verify_area stack tty 0x5401 at set in
        memory got (at + k) ≡ memory s (from + k)
  unfolding do_command
  do_command-set_termios from at k s small h =
      reported at k (set_termios tty from s) h
      ∙ ap (λ t. termios_byte t k) (line-set_termios tty from s)
      ∙ termios_byte-load_termios (memory s) from k (line tty s) small h
