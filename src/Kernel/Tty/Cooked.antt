-- ===== src/Kernel/Tty/Cooked.antt =====
-- kernel/chr_drv/tty_io.c: `tty_intr` and `copy_to_cooked`, which edits and echoes the characters
-- that have come in.
use linux.Base.{
  Outcome, returns, hangs, ◌>>=◌, ℕ, zero, suc, ◌+◌, ◌%◌, ◌^◌, ◌==◌, not, ◌&&◌, ◌||◌, if◌then◌else◌,
  Bool, true, false, Option, none, some, bit_or,
}
use linux.Base.Int.{ℤ, pos, eqb_ℤ, ltb_ℤ}
use linux.Base.Loops.{for_up}
use linux.Kernel.Task.{Tasks, nr_tasks, modify, sig_bit}
use linux.Kernel.Sched.{wake_up}
use linux.Kernel.Tty.{
  TtyStruct, is_empty, is_full, last, getch, putch, drop_last, has, inlcr, igncr, icrnl, iuclc,
  isig, echo, echoctl, is_char, is_low, intr_char, quit_char, erase_char, kill_char, start_char,
  stop_char, is_canon, tolower, ends_line,
}

-- The terminal and the tasks.
pub record Line : Type 0 where
  pub tty : TtyStruct
  pub tasks : Tasks

abbrev pub sigint : ℕ
sigint = 2

abbrev pub sigquit : ℕ
sigquit = 3

abbrev pub with_tty : (TtyStruct → TtyStruct) → Line → Line
with_tty f s = record s { tty = f s.tty }

-- One round of the loop of `tty_intr`.
abbrev pub intr_body : (pgrp : ℤ) → (mask i : ℕ) → Tasks → Tasks
intr_body pgrp mask i s =
    if not (s.task i == 0) && eqb_ℤ (s.struct_at (s.task i)).pgrp pgrp
    then modify (s.task i) (λ t. record t { signal = bit_or t.signal mask }) s
    else s

unfoldable pub tty_intr : (mask : ℕ) → Line → Line
unfolding for_up
tty_intr mask s =
    if ltb_ℤ (pos 0) s.tty.pgrp
    then record s { tasks = for_up 0 nr_tasks (intr_body s.tty.pgrp mask) s.tasks }
    else s

-- What a character becomes on its way in; `none` if it is dropped.
unfoldable pub translate : TtyStruct → ℕ → Option ℕ
translate t c =
    let lower = λ (c : ℕ). if has t.c_iflag iuclc then tolower c else c in
    if c == 13
    then (if has t.c_iflag icrnl
        then some (lower 10)
        else if has t.c_iflag igncr
        then none
        else some (lower 13))
    else if c == 10 && has t.c_iflag inlcr
    then some (lower 13)
    else some (lower c)

-- Characters for the write queue, one after the other.
abbrev pub echo_one : ℕ → TtyStruct → TtyStruct
echo_one c t = record t { write_q = putch c t.write_q }

abbrev pub echo_two : (c c' : ℕ) → TtyStruct → TtyStruct
echo_two c c' t = echo_one c' (echo_one c t)

-- The condition of the loop of `copy_to_cooked`.
abbrev pub can_cook : TtyStruct → Bool
can_cook t = not (is_empty t.read_q) && not (is_full t.secondary)

-- The end of a line is counted.
abbrev pub count_line : ℕ → TtyStruct → TtyStruct
count_line c t =
    if ends_line t c
    then record t { secondary = record t.secondary { lines = (t.secondary.lines + 1) % 2 ^ 32 } }
    else t

-- There is no character of the line to delete.
unfoldable pub at_line_start : TtyStruct → Bool
unfolding last
at_line_start t = is_empty t.secondary || ends_line t (last t.secondary)

-- `write` is `tty->write`, which may change all of the terminal: that of the console answers a request
-- by characters in the read queue. `fuel` bounds the rounds of the loops, which depend on it.
module _ (write : Line → Line) (fuel : ℕ) where
  -- The last character of the line goes: a control character was echoed as two.
  unfoldable pub rub_out : Line → Line
  unfolding last putch drop_last
  rub_out s =
      let rubbed =
        with_tty (if is_low (last s.tty.secondary) then echo_two 127 127 else echo_one 127) s in
      let echoed = if has s.tty.c_lflag echo then write rubbed else s in
      with_tty (λ t. record t { secondary = drop_last t.secondary }) echoed

  -- The loop for the kill character; each round takes one character away.
  unfoldable pub kill_line : ℕ → Line → Outcome Line
  kill_line zero s = hangs
  kill_line (suc n) s =
      let rest = kill_line n (rub_out s) in if at_line_start s.tty then returns s else rest

  unfoldable pub echo_char : ℕ → Line → Line
  unfolding putch
  echo_char c s =
      let control =
        if has s.tty.c_lflag echoctl then echo_two 94 ((c + 64) % 2 ^ 8) else (λ t. t) in
      write
        (with_tty (if c == 10 then echo_two 10 13 else if is_low c then control else echo_one c) s)

  -- A character that is kept.
  unfoldable pub keep_char : ℕ → Line → Line
  unfolding putch echo_char
  keep_char c s =
      let counted = with_tty (count_line c) s in
      let echoed = if has s.tty.c_lflag echo then echo_char c counted else counted in
      with_tty (λ t. record t { secondary = putch c t.secondary }) echoed

  -- One character that has been translated.
  unfoldable pub edit : ℕ → Line → Outcome Line
  unfolding kill_line rub_out keep_char
  edit c s =
      let t = s.tty in
      if is_canon t && is_char c (kill_char t)
      then kill_line fuel s
      else if is_canon t && is_char c (erase_char t)
      then returns (if at_line_start t then s else rub_out s)
      else if is_canon t && is_char c (stop_char t)
      then returns (with_tty (λ t. record t { stopped = true }) s)
      else if is_canon t && is_char c (start_char t)
      then returns (with_tty (λ t. record t { stopped = false }) s)
      else if has t.c_lflag isig && is_char c (intr_char t)
      then returns (tty_intr (sig_bit sigint) s)
      else if has t.c_lflag isig && is_char c (quit_char t)
      then returns (tty_intr (sig_bit sigquit) s)
      else returns (keep_char c s)

  -- One round of the loop of `copy_to_cooked`.
  unfoldable pub cook_one : Line → Outcome Line
  unfolding translate getch edit
  cook_one s =
      let (c, q) = getch s.tty.read_q in
      let s' = with_tty (λ t. record t { read_q = q }) s in
      elim (translate s.tty c) [ none ↦ returns s' | some c' ↦ edit c' s' ]

  -- Each round takes one character from the read queue.
  unfoldable pub cook : ℕ → Line → Outcome Line
  unfolding cook_one
  cook zero s = hangs
  cook (suc n) s =
      let rest = cook_one s >>= λ s'. cook n s' in if can_cook s.tty then rest else returns s

  unfoldable pub copy_to_cooked : Line → Outcome Line
  unfolding cook
  copy_to_cooked s = cook fuel s >>= λ s'.
      returns (record s' { tasks = wake_up s'.tty.secondary.proc_list s'.tasks })
