-- ===== src/Kernel/Tty/Ioctl.antt =====
-- kernel/chr_drv/tty_ioctl.c: `tty_ioctl`. `wait_until_sent` and `send_break` do nothing, and interrupts
-- are not modelled. A `struct termios` has two bytes behind its 17 characters `c_cc` that no field
-- uses and that are copied with it: they are 17 and 18 of `c_cc`.
use linux.Base.{
  ℕ, ◌+◌, ◌-◌, ◌*◌, ◌/◌, ◌%◌, ◌^◌, ◌==◌, ltb, ◌||◌, if◌then◌else◌, update, bit_and, List, [], ◌∷◌,
  ◌++◌, Outcome, returns, panics,
}
use linux.Base.Int.{bits_of, long_of, ℤ, pos, negsuc, neg}
use linux.Base.Loops.{for_up}
use linux.Kernel.Task.{current_task}
use linux.Kernel.Exit.{einval}
use linux.Kernel.Tty.{TtyQueue, TtyStruct, chars}
use linux.Kernel.Tty.Read.{Terminals, with_terminal}
use linux.Fs.State.{read16}
use linux.Fs.Inode.{byte_of, read32}
use linux.Fs.ReadWrite.{major, minor_of}

-- The terminals, and what was put to ports: each value with its port, in order.
pub record Lines : Type 0 where
  pub terminals : Terminals
  pub ports : List (ℕ × ℕ)

abbrev pub with_line : ℕ → (TtyStruct → TtyStruct) → Lines → Lines
with_line tty f s = record s { terminals = with_terminal tty f s.terminals }

abbrev pub line : ℕ → Lines → TtyStruct
line tty s = s.terminals.tty_table tty

abbrev pub memory : Lines → ℕ → ℕ
memory s = s.terminals.user

abbrev pub with_memory : ((ℕ → ℕ) → ℕ → ℕ) → Lines → Lines
with_memory f s = record s { terminals = record s.terminals { user = f s.terminals.user } }

abbrev pub quotient : ℕ → ℕ
quotient k =
    let low =
      if k == 0
      then 0
      else if k == 1
      then 2304
      else if k == 2
      then 1536
      else if k == 3
      then 1047
      else if k == 4
      then 857
      else if k == 5
      then 768
      else if k == 6
      then 576
      else 384 in
    let high =
      if k == 8
      then 192
      else if k == 9
      then 96
      else if k == 10
      then 64
      else if k == 11
      then 48
      else if k == 12
      then 24
      else if k == 13
      then 12
      else if k == 14
      then 6
      else 3 in
    if ltb k 8 then low else high

-- `CBAUD`
abbrev pub cbaud : ℕ
cbaud = 0o17

unfoldable pub change_speed : (tty : ℕ) → Lines → Lines
change_speed tty s =
    let port = (line tty s).read_q.lines % 2 ^ 16 in
    let quot = quotient (bit_and (line tty s).c_cflag cbaud) in
    if port == 0 then s else record s {
      ports =
          s.ports
          ++ ((0x80, port + 3) ∷ (quot % 256, port) ∷ (quot / 256, port + 1) ∷ (3, port + 3) ∷ []);
    }

abbrev pub flush : TtyQueue → TtyQueue
flush q = record q { head = q.tail }

abbrev pub flush_read : (tty : ℕ) → Lines → Lines
flush_read tty = with_line tty (λ t. record t { read_q = flush t.read_q })

abbrev pub flush_write : (tty : ℕ) → Lines → Lines
flush_write tty = with_line tty (λ t. record t { write_q = flush t.write_q })

-- Byte `k` of `tty->termios`.
unfoldable pub termios_byte : TtyStruct → (k : ℕ) → ℕ
termios_byte t k =
    if ltb k 4
    then byte_of t.c_iflag k
    else if ltb k 8
    then byte_of t.c_oflag (k - 4)
    else if ltb k 12
    then byte_of t.c_cflag (k - 8)
    else if ltb k 16
    then byte_of t.c_lflag (k - 12)
    else if k == 16
    then t.c_line
    else t.c_cc (k - 17)

-- The termios whose bytes are at an address, with the end of `c_cc` kept that it does not have.
unfoldable pub load_termios : (ℕ → ℕ) → (at : ℕ) → TtyStruct → TtyStruct
load_termios f at t = record t {
  c_iflag = read32 f at;
  c_oflag = read32 f (at + 4);
  c_cflag = read32 f (at + 8);
  c_lflag = read32 f (at + 12);
  c_line = f (at + 16);
  c_cc = λ k. if ltb k 19 then f (at + 17 + k) else t.c_cc k;
}

-- Byte `k` of `tmp_termio`; `stack` is what its last byte holds, which no field uses.
unfoldable pub termio_byte : (stack : ℕ) → TtyStruct → (k : ℕ) → ℕ
termio_byte stack t k =
    if ltb k 2
    then byte_of t.c_iflag k
    else if ltb k 4
    then byte_of t.c_oflag (k - 2)
    else if ltb k 6
    then byte_of t.c_cflag (k - 4)
    else if ltb k 8
    then byte_of t.c_lflag (k - 6)
    else if k == 8
    then t.c_line
    else if ltb k 17
    then t.c_cc (k - 9)
    else stack

-- `*(unsigned short *)&v = low`
abbrev pub with_low : (v low : ℕ) → ℕ
with_low v low = v / 65536 * 65536 + low

unfoldable pub load_termio : (ℕ → ℕ) → (at : ℕ) → TtyStruct → TtyStruct
load_termio f at t = record t {
  c_iflag = with_low t.c_iflag (read16 f at);
  c_oflag = with_low t.c_oflag (read16 f (at + 2));
  c_cflag = with_low t.c_cflag (read16 f (at + 4));
  c_lflag = with_low t.c_lflag (read16 f (at + 6));
  c_line = f (at + 8);
  c_cc = λ k. if ltb k 8 then f (at + 9 + k) else t.c_cc k;
}

-- `put_fs_byte` of `n` bytes
abbrev pub put_bytes : (at n : ℕ) → (ℕ → ℕ) → (ℕ → ℕ) → ℕ → ℕ
put_bytes at n byte = for_up 0 n (λ k f. update f (at + k) (byte k))

unfoldable pub set_termios : (tty at : ℕ) → Lines → Lines
unfolding load_termios change_speed
set_termios tty at s = change_speed tty (with_line tty (load_termios (memory s) at) s)

unfoldable pub set_termio : (tty at : ℕ) → Lines → Lines
unfolding load_termio change_speed
set_termio tty at s = change_speed tty (with_line tty (load_termio (memory s) at) s)

-- `verify_area` makes the pages of the user writable; `stack` is a byte that nothing sets.
module _ (verify_area : (addr size : ℕ) → Lines → Lines) (stack : ℕ) where
  unfoldable pub get_termios : (tty at : ℕ) → Lines → Lines
  unfolding termios_byte
  get_termios tty at s =
      let s' = verify_area at 36 s in with_memory (put_bytes at 36 (termios_byte (line tty s'))) s'

  unfoldable pub get_termio : (tty at : ℕ) → Lines → Lines
  unfolding termio_byte
  get_termio tty at s =
      let s' = verify_area at 18 s in
      with_memory (put_bytes at 18 (termio_byte stack (line tty s'))) s'

  -- `verify_area` and `put_fs_long`
  unfoldable pub give_long : (value : TtyStruct → ℕ) → (tty at : ℕ) → Lines → Lines
  give_long value tty at s =
      let s' = verify_area at 4 s in with_memory (put_bytes at 4 (byte_of (value (line tty s')))) s'

  -- The commands of the `switch`, on terminal `tty`: 0x5401 is `TCGETS`, and so on in the order of
  -- include/termios.h. Those that are left out are not implemented.
  unfoldable pub do_command : (tty cmd arg : ℕ) → Lines → ℤ × Lines
  unfolding get_termios set_termios get_termio set_termio give_long
  do_command tty cmd arg s =
      if cmd == 0x5401
      then (pos 0, get_termios tty arg s)
      else if cmd == 0x5404
      then (pos 0, set_termios tty arg (flush_read tty s))
      else if cmd == 0x5403 || cmd == 0x5402
      then (pos 0, set_termios tty arg s)
      else if cmd == 0x5405
      then (pos 0, get_termio tty arg s)
      else if cmd == 0x5408
      then (pos 0, set_termio tty arg (flush_read tty s))
      else if cmd == 0x5407 || cmd == 0x5406
      then (pos 0, set_termio tty arg s)
      else if cmd == 0x5409
      then (pos 0, s)
      else if cmd == 0x540B
      then (if arg == 0
          then (pos 0, flush_read tty s)
          else if arg == 1
          then (pos 0, flush_write tty s)
          else if arg == 2
          then (pos 0, flush_write tty (flush_read tty s))
          else (neg (pos einval), s))
      else if cmd == 0x540F
      then (pos 0, give_long (λ t. bits_of t.pgrp) tty arg s)
      else if cmd == 0x5410
      then (pos 0, with_line tty (λ t. record t { pgrp = long_of (read32 (memory s) arg) }) s)
      else if cmd == 0x5411
      then (pos 0, give_long (λ t. chars t.write_q) tty arg s)
      else if cmd == 0x541B
      then (pos 0, give_long (λ t. chars t.secondary) tty arg s)
      else (neg (pos einval), s)

  unfoldable pub tty_ioctl : (dev cmd arg : ℕ) → Lines → Outcome (ℤ × Lines)
  unfolding do_command
  tty_ioctl dev cmd arg s =
      if major dev == 5
      then elim (current_task s.terminals.tasks).tty [
        | pos tty ↦ returns (do_command tty cmd arg s)
        | negsuc n ↦ panics
      ]
      else returns (do_command (minor_of dev) cmd arg s)
