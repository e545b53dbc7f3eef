-- ===== src/Kernel/DeviceTests.antt =====
-- Terminals, formatted output, the hard disk and the kernel's memory at small examples.
use linux.Base.{
  Returns, ℕ, List, [], ◌∷◌, ◌++◌, ◌≡◌, refl, arith, true, false, some, length, max, ◌<◌, ◌≤◌, ◌+◌,
  ◌-◌, ◌*◌, ◌/◌, ◌==◌, if◌then◌else◌,
}
use linux.Base.Int.{pos, negsuc, pos_part, ◌-ℤ◌}
use linux.Mm.{Mm}
use linux.Kernel.Examples.{three_tasks}
use linux.Kernel.Tty.{TtyQueue, TtyStruct, is_full, is_empty, last, getch, putch, drop_last}
use linux.Kernel.Tty.Queue.{IsQueue, contents, IsQueue-Refines}
use linux.Kernel.Tty.Ioctl.{Lines, do_command}
use linux.Kernel.Tty.Termios.{do_command-set_termios}
use linux.Kernel.Tty.Cooked.{Line, with_tty, can_cook, copy_to_cooked}
use linux.Kernel.Tty.Drained.{AreQueues, copy_to_cooked-ends}
use linux.Kernel.Printf.{Flags, no_flags, digits_text, number, printed, layout, digits_of}
use linux.Kernel.Printf.Number.{read_digits, bare_width, read_digits-digits_text, number-length}
use linux.Kernel.Hd.{HdInfo, sector_number, head_number, cylinder_number}
use linux.Kernel.Hd.Geometry.{sector_at, place_lem}
use linux.Kernel.Malloc.{chain_page}
use linux.Kernel.Malloc.Chain.{walk, chain_page-walk}

-- The two characters `h` and `i`, across the end of the buffer.
abbrev two_chars : TtyQueue
two_chars = record {
  lines = 0;
  head = 1;
  tail = 1023;
  proc_list = 500;
  buf = λ i. if i == 1023 then 104 else 105;
}

two_chars-IsQueue : IsQueue two_chars
two_chars-IsQueue = record { head_lt = omega arith; tail_lt = omega arith }

two_chars-contents : contents two_chars ≡ 104 ∷ 105 ∷ []
two_chars-contents = refl

IsQueue-Refines_example :
    (is_full two_chars ≡ false
      → IsQueue (putch 33 two_chars)
        × (contents (putch 33 two_chars) ≡ contents two_chars ++ (33 ∷ [])))
    × (is_empty two_chars ≡ false
        → let (first, q') = getch two_chars in
          IsQueue q' × (contents two_chars ≡ first ∷ contents q'))
    × (is_empty two_chars ≡ false
        → IsQueue (drop_last two_chars)
          × (contents two_chars ≡ contents (drop_last two_chars) ++ (last two_chars ∷ [])))
IsQueue-Refines_example = IsQueue-Refines 33 two_chars two_chars-IsQueue

abbrev no_chars : TtyQueue
no_chars = record { lines = 0; head = 7; tail = 7; proc_list = 600; buf = λ i. 0 }

-- A terminal that edits and echoes, with its characters of control.
abbrev console : TtyStruct
console = record {
  c_iflag = 0o400;
  c_oflag = 0o5;
  c_cflag = 0;
  c_lflag = 0o13;
  c_line = 0;
  c_cc = λ i. if i == 2 then 127 else if i == 3 then 21 else if i == 4 then 4 else 3;
  pgrp = pos 1;
  stopped = false;
  read_q = two_chars;
  write_q = no_chars;
  secondary = no_chars;
}

abbrev console_line : Line
console_line = record { tty = console; tasks = three_tasks }

-- All that is written goes out at once.
abbrev send_all : Line → Line
send_all s = with_tty (λ t. record t { write_q = record t.write_q { tail = t.write_q.head } }) s

no_chars-IsQueue : IsQueue no_chars
no_chars-IsQueue = record { head_lt = omega arith; tail_lt = omega arith }

copy_to_cooked-ends_example :
    Returns
      (λ s'. AreQueues s'.tty × (can_cook s'.tty ≡ false))
      (copy_to_cooked send_all 1024 console_line)
copy_to_cooked-ends_example =
    copy_to_cooked-ends send_all 1024 (λ s. (refl, refl)) console_line
      (two_chars-IsQueue, no_chars-IsQueue) (omega arith)

-- 0xbeef
read_digits-digits_text_example : read_digits true 16 (digits_text true 16 48879) 0 ≡ 48879
read_digits-digits_text_example = read_digits-digits_text true 16 48879 (omega arith) (omega arith)

beef_text : digits_text true 16 48879 ≡ 98 ∷ 101 ∷ 101 ∷ 102 ∷ []
unfolding digits_text digits_of
beef_text = refl

abbrev minus_five_text : List ℕ
minus_five_text = 45 ∷ 48 ∷ 48 ∷ 48 ∷ 48 ∷ 53 ∷ []

-- -5, in six places with zeros
abbrev signed_zeros : Flags
signed_zeros = record no_flags { sign = true; zeropad = true }

minus_five : number 4294967291 10 (pos 6) (negsuc 0) signed_zeros ≡ some minus_five_text
unfolding number printed layout digits_text digits_of ◌-ℤ◌
minus_five = refl

number-length_example :
    length minus_five_text
    ≡ max (pos_part (pos 6)) (bare_width 4294967291 10 (negsuc 0) signed_zeros)
number-length_example =
    number-length 4294967291 10 (pos 6) (negsuc 0) signed_zeros minus_five_text minus_five

-- A disk of 17 sectors and 4 heads.
abbrev small_disk : HdInfo
small_disk = record { head = 4; sect = 17; cyl = 615; wpcom = 300; lzone = 615; ctl = 0 }

place_lem_example :
    (1 ≤ sector_number small_disk 1000)
    × (sector_number small_disk 1000 ≤ 17)
    × (head_number small_disk 1000 < 4)
    × (sector_at small_disk
          (sector_number small_disk 1000)
          (head_number small_disk 1000)
          (cylinder_number small_disk 1000)
        ≡ 1000)
    × (1000 < 615 * 4 * 17 → cylinder_number small_disk 1000 < 615)
place_lem_example = place_lem small_disk 1000 (omega arith) (omega arith)

abbrev blank_memory : Mm
blank_memory = record { mem_map = λ i. 0; high_memory = 0x1000000; word = λ a. 0 }

chain_page-walk_example :
    let word = (chain_page 0x200000 1024 blank_memory).word in
    ((n : ℕ) → n < 4096 / 1024 → walk word 0x200000 n ≡ 0x200000 + n * 1024)
    × (word (walk word 0x200000 (4096 / 1024 - 1)) ≡ 0)
chain_page-walk_example = chain_page-walk 0x200000 1024 blank_memory (omega arith) (omega arith)

-- A serial line, and a process whose memory holds a few flags.
abbrev serial_line : Lines
serial_line = record {
  terminals = record {
    tty_table = λ k. record console { read_q = record no_chars { lines = 0x3f8 } };
    tasks = three_tasks;
    user = λ a. if a == 5001 then 1 else if a == 5008 then 11 else if a == 5017 then 3 else 0;
    cr_flag = false;
  };
  ports = [];
}

do_command-set_termios_example :
    (do_command
        (λ addr size s. s)
        0
        1
        0x5401
        7000
        (do_command (λ addr size s. s) 0 1 0x5402 5000 serial_line).1).1.terminals.user
      (7000 + 8)
    ≡ serial_line.terminals.user (5000 + 8)
do_command-set_termios_example =
    do_command-set_termios (λ addr size s. s) 0 1 (λ addr size s. refl) 5000 7000 8 serial_line
      (λ a. ground arith) (omega arith)
