-- ===== src/Kernel/Tty/Write.antt =====
-- kernel/chr_drv/tty_io.c: `tty_write`.
use linux.Base.{
  ℕ, zero, suc, ◌+◌, ◌-◌, ◌*◌, ◌==◌, ltb, not, ◌&&◌, ◌||◌, if◌then◌else◌, Bool, true, false,
  Outcome, returns, hangs,
}
use linux.Base.Int.{ℤ, pos, negsuc}
use linux.Kernel.Tty.{
  TtyStruct, is_full, left, putch, has, opost, olcuc, onlcr, ocrnl, onlret, toupper,
}
use linux.Kernel.Tty.Read.{Terminals, TtyWorld, with_terminal, signals}

unfoldable pub sleep_if_full : TtyWorld → (channel : ℕ) → Terminals → Terminals
sleep_if_full w channel s =
    let q = (s.tty_table channel).write_q in
    if is_full q && signals s == 0 && ltb (left q) 128 then w.until_room channel s else s

-- A character with the translations of the output, the first two.
abbrev pub map_output : TtyStruct → ℕ → ℕ
map_output t c =
    if c == 13 && has t.c_oflag ocrnl then 10 else if c == 10 && has t.c_oflag onlret then 13 else c

abbrev pub put_out : (channel c : ℕ) → (cr_flag : Bool) → Terminals → Terminals
put_out channel c cr_flag s =
    record (with_terminal channel (λ t. record t { write_q = putch c t.write_q }) s) {
      cr_flag = cr_flag;
    }

-- The inner loop, with `nr` characters from `b` on: what it leaves. A character takes two rounds at
-- most, since `cr_flag` is set after the first.
unfoldable pub write_chars : ℕ → (channel b nr : ℕ) → Terminals → ℕ × Terminals
unfolding putch
write_chars zero channel b nr s = (nr, s)
write_chars (suc fuel) channel b nr s =
    let t = s.tty_table channel in
    let post = has t.c_oflag opost in
    let c = if post then map_output t (s.user b) else s.user b in
    let before = post && c == 10 && not s.cr_flag && has t.c_oflag onlcr in
    let upper = if post && has t.c_oflag olcuc then toupper c else c in
    let rest =
      write_chars fuel channel (if before then b else b + 1) (if before then nr else nr - 1)
        (if before then put_out channel 13 true s else put_out channel upper false s) in
    if nr == 0 || is_full t.write_q then (nr, s) else rest

unfoldable pub write_loop :
    TtyWorld → ℕ → (channel buf total nr : ℕ) → Terminals → Outcome (ℤ × Terminals)
unfolding sleep_if_full write_chars
write_loop w zero channel buf total nr s = hangs
write_loop w (suc fuel) channel buf total nr s =
    let s₁ = sleep_if_full w channel s in
    let (nr₂, s₂) = write_chars (2 * nr) channel (buf + (total - nr)) nr s₁ in
    let s₃ = w.write channel s₂ in
    let rest = write_loop w fuel channel buf total nr₂ (if ltb 0 nr₂ then w.schedule s₃ else s₃) in
    if nr == 0
    then returns (pos (total - nr), s)
    else if not (signals s₁ == 0)
    then returns (pos (total - nr), s₁)
    else rest

unfoldable pub tty_write :
    TtyWorld → (channel buf : ℕ) → (nr : ℤ) → Terminals → Outcome (ℤ × Terminals)
unfolding write_loop
tty_write w channel buf (negsuc n) s = returns (negsuc 0, s)
tty_write w channel buf (pos nr) s =
    if ltb 2 channel then returns (negsuc 0, s) else write_loop w w.fuel channel buf nr nr s
