-- ===== src/Kernel/Tty.antt =====
-- include/linux/tty.h: terminals and their three queues of characters.
-- A character is a byte; where the source has it in a `signed char`, the bytes from 128 on are
-- negative.
pub mod Queue
pub mod Cooked
pub mod Drained
pub mod Read
pub mod Write
pub mod Ioctl
pub mod Termios
use linux.Base.{
  ℕ, ◌+◌, ◌-◌, ◌%◌, ◌^◌, ◌==◌, ltb, leb, not, ◌&&◌, ◌||◌, if◌then◌else◌, Bool, update, bit_and,
}
use linux.Base.Int.{ℤ}

abbrev pub tty_buf_size : ℕ
tty_buf_size = 1024

-- `lines` is the `data` of the source, which counts the ends of lines (for the read and the write
-- queue of a serial line it is the port); `proc_list` is the address of the wait queue.
pub record TtyQueue : Type 0 where
  pub lines : ℕ
  pub head : ℕ
  pub tail : ℕ
  pub proc_list : ℕ
  pub buf : ℕ → ℕ

-- `struct tty_struct`, with `termios` spread out; `write` is an argument of the functions below.
pub record TtyStruct : Type 0 where
  pub c_iflag : ℕ
  pub c_oflag : ℕ
  pub c_cflag : ℕ
  pub c_lflag : ℕ
  pub c_line : ℕ
  pub c_cc : ℕ → ℕ
  pub pgrp : ℤ
  pub stopped : Bool
  pub read_q : TtyQueue
  pub write_q : TtyQueue
  pub secondary : TtyQueue

-- `INC` and `DEC`
abbrev pub inc : ℕ → ℕ
inc a = (a + 1) % tty_buf_size

abbrev pub dec : ℕ → ℕ
dec a = (a + (tty_buf_size - 1)) % tty_buf_size

abbrev pub is_empty : TtyQueue → Bool
is_empty q = q.head == q.tail

-- `LEFT`, `CHARS`, `FULL` and `LAST`
abbrev pub left : TtyQueue → ℕ
left q = (q.tail + 2 ^ 32 - q.head - 1) % tty_buf_size

abbrev pub chars : TtyQueue → ℕ
chars q = (q.head + 2 ^ 32 - q.tail) % tty_buf_size

abbrev pub is_full : TtyQueue → Bool
is_full q = left q == 0

unfoldable pub last : TtyQueue → ℕ
last q = q.buf ((q.head + 2 ^ 32 - 1) % tty_buf_size)

-- `GETCH`: the character, and the queue after it.
unfoldable pub getch : TtyQueue → ℕ × TtyQueue
getch q = (q.buf q.tail, record q { tail = inc q.tail })

unfoldable pub putch : ℕ → TtyQueue → TtyQueue
putch c q = record q { buf = update q.buf q.head c; head = inc q.head }

unfoldable pub drop_last : TtyQueue → TtyQueue
drop_last q = record q { head = dec q.head }

-- The flags, each by its bits.
abbrev pub has : (flags bits : ℕ) → Bool
has flags bits = not (bit_and flags bits == 0)

abbrev pub inlcr : ℕ
inlcr = 0o100

abbrev pub igncr : ℕ
igncr = 0o200

abbrev pub icrnl : ℕ
icrnl = 0o400

abbrev pub iuclc : ℕ
iuclc = 0o1000

abbrev pub opost : ℕ
opost = 0o1

abbrev pub olcuc : ℕ
olcuc = 0o2

abbrev pub onlcr : ℕ
onlcr = 0o4

abbrev pub ocrnl : ℕ
ocrnl = 0o10

abbrev pub onlret : ℕ
onlret = 0o40

abbrev pub isig : ℕ
isig = 0o1

abbrev pub icanon : ℕ
icanon = 0o2

abbrev pub echo : ℕ
echo = 0o10

abbrev pub echoctl : ℕ
echoctl = 0o1000

-- `c == k` for a `signed char` c and an `unsigned char` k.
abbrev pub is_char : (c k : ℕ) → Bool
is_char c k = c == k && ltb c 128

-- `c < 32` for a `signed char` c.
abbrev pub is_low : ℕ → Bool
is_low c = ltb c 32 || leb 128 c

-- `INTR_CHAR` and its kin
abbrev pub intr_char : TtyStruct → ℕ
intr_char t = t.c_cc 0

abbrev pub quit_char : TtyStruct → ℕ
quit_char t = t.c_cc 1

abbrev pub erase_char : TtyStruct → ℕ
erase_char t = t.c_cc 2

abbrev pub kill_char : TtyStruct → ℕ
kill_char t = t.c_cc 3

abbrev pub eof_char : TtyStruct → ℕ
eof_char t = t.c_cc 4

abbrev pub vtime : TtyStruct → ℕ
vtime t = t.c_cc 5

abbrev pub vmin : TtyStruct → ℕ
vmin t = t.c_cc 6

abbrev pub start_char : TtyStruct → ℕ
start_char t = t.c_cc 8

abbrev pub stop_char : TtyStruct → ℕ
stop_char t = t.c_cc 9

abbrev pub is_canon : TtyStruct → Bool
is_canon t = has t.c_lflag icanon

-- `tolower` and `toupper`, which the table of lib/ctype.c decides; for bytes from 128 on the source
-- looks before the table, where it is taken to find no letters.
abbrev pub tolower : ℕ → ℕ
tolower c = if leb 65 c && leb c 90 then c + 32 else c

abbrev pub toupper : ℕ → ℕ
toupper c = if leb 97 c && leb c 122 then c - 32 else c

-- The end of a line: what the line editor does not delete.
abbrev pub ends_line : TtyStruct → ℕ → Bool
ends_line t c = c == 10 || is_char c (eof_char t)
