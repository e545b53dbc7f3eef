-- ===== src/Kernel/Tty/Read.antt =====
-- kernel/chr_drv/tty_io.c: `tty_read`, of a terminal of `tty_table`.
use linux.Base.{
  ℕ, zero, suc, ◌+◌, ◌-◌, ◌*◌, ◌%◌, ◌^◌, ◌==◌, ltb, leb, not, ◌&&◌, ◌||◌, if◌then◌else◌, Bool, true,
  false, update, bit_and, Outcome, returns, hangs,
}
use linux.Base.Bits.{bit, bit_not}
use linux.Base.Int.{ℤ, pos, negsuc, neg}
use linux.Kernel.Task.{Task, Tasks, current_task, modify, sig_bit, sigalrm}
use linux.Kernel.Exit.{eintr}
use linux.Kernel.Tty.{
  TtyStruct, is_empty, left, getch, eof_char, vtime, vmin, is_canon, is_char, ends_line,
}

-- The terminals, the tasks, the memory of the process and the static variable of `tty_write`.
pub record Terminals : Type 0 where
  pub tty_table : ℕ → TtyStruct
  pub tasks : Tasks
  pub user : ℕ → ℕ
  pub cr_flag : Bool

-- What happens while `tty_read` sleeps on an empty queue or `tty_write` on a full one, what happens
-- in `schedule`, and what the `write` of a terminal does.
pub record TtyWorld : Type 0 where
  pub fuel : ℕ
  pub until_char : (channel : ℕ) → Terminals → Terminals
  pub until_room : (channel : ℕ) → Terminals → Terminals
  pub schedule : Terminals → Terminals
  pub write : (channel : ℕ) → Terminals → Terminals

abbrev pub with_terminal : ℕ → (TtyStruct → TtyStruct) → Terminals → Terminals
with_terminal channel f s = record s {
  tty_table = update s.tty_table channel (f (s.tty_table channel));
}

abbrev pub signals : Terminals → ℕ
signals s = (current_task s.tasks).signal

abbrev pub with_current : (Task → Task) → Terminals → Terminals
with_current f s = record s { tasks = modify s.tasks.current f s.tasks }

abbrev pub set_alarm : ℕ → Terminals → Terminals
set_alarm alarm = with_current (λ t. record t { alarm = alarm })

-- `while (!current->signal && EMPTY(*queue))` sleeps
unfoldable pub sleep_if_empty : TtyWorld → (channel : ℕ) → Terminals → Terminals
sleep_if_empty w channel s =
    if signals s == 0 && is_empty (s.tty_table channel).secondary then w.until_char channel s else s

unfoldable pub wait_for_keypress : TtyWorld → Terminals → Terminals
unfolding sleep_if_empty
wait_for_keypress w s = sleep_if_empty w 0 s

-- `GETCH`, with the count of lines kept.
unfoldable pub take_char : (channel : ℕ) → Terminals → ℕ × Terminals
unfolding getch
take_char channel s =
    let t = s.tty_table channel in
    let (c, q) = getch t.secondary in
    let q' = if ends_line t c then record q { lines = (q.lines + (2 ^ 32 - 1)) % 2 ^ 32 } else q in
    (c, with_terminal channel (λ t. record t { secondary = q' }) s)

-- The inner loop, which has at most `nr` rounds: the characters that are left to read, and whether
-- the end of the file was read.
unfoldable pub take_line : (nr : ℕ) → (channel b : ℕ) → Terminals → ℕ × Bool × Terminals
unfolding take_char
take_line zero channel b s = (0, false, s)
take_line (suc nr) channel b s =
    let (c, s₁) = take_char channel s in
    let t = s₁.tty_table channel in
    let s₂ = record s₁ { user = update s₁.user b c } in
    let rest = take_line nr channel (b + 1) s₂ in
    if is_char c (eof_char t) && is_canon t
    then (suc nr, true, s₁)
    else if is_empty t.secondary
    then (nr, false, s₂)
    else rest

-- Nothing can be read yet.
abbrev pub must_wait : TtyStruct → Bool
must_wait t =
    is_empty t.secondary || is_canon t && t.secondary.lines == 0 && ltb 20 (left t.secondary)

-- What `tty_read` has found out before its loop.
pub record Request : Type 0 where
  pub channel : ℕ
  pub buf : ℕ
  pub total : ℕ
  pub oldalarm : ℕ
  pub time : ℕ
  pub minimum : ℕ

-- The alarm is set to the time that the reader gives, unless an earlier one is set already.
abbrev pub is_sooner : Request → Terminals → Bool
is_sooner r s = r.oldalarm == 0 || ltb (r.time + s.tasks.jiffies) r.oldalarm

-- After the loop.
unfoldable pub finish_read : Request → (nr : ℕ) → Terminals → ℤ × Terminals
finish_read r nr s =
    let s' = set_alarm r.oldalarm s in
    (if not (signals s' == 0) && r.total - nr == 0 then neg (pos eintr) else pos (r.total - nr), s')

-- What the end of a round does to the alarm; the first result is `flag`.
abbrev pub after_line : Request → (flag : Bool) → Terminals → Bool × Terminals
after_line r flag s =
    if not (r.time == 0) && not (is_canon (s.tty_table r.channel))
    then (
      is_sooner r s,
      set_alarm (if is_sooner r s then r.time + s.tasks.jiffies else r.oldalarm) s,
    )
    else (flag, s)

-- The loop of `tty_read`, with `nr` characters to go.
unfoldable pub read_loop :
    TtyWorld → ℕ → Request → (nr : ℕ) → (flag : Bool) → Terminals → Outcome (ℤ × Terminals)
unfolding take_line sleep_if_empty finish_read
read_loop w zero r nr flag s = hangs
read_loop w (suc fuel) r nr flag s =
    let t = s.tty_table r.channel in
    let alarmed = bit (sigalrm - 1) (signals s) == 1 in
    let no_alarm =
      with_current (λ t. record t { signal = bit_and t.signal (bit_not (sig_bit sigalrm)) }) s in
    let (nr₁, is_eof, s₁) = take_line nr r.channel (r.buf + (r.total - nr)) s in
    let (flag₂, s₂) = after_line r flag s₁ in
    let done = r.total - nr₁ in
    let enough =
      if is_canon (s₂.tty_table r.channel) then not (done == 0) else leb r.minimum done in
    let go = λ (nr : ℕ) (flag : Bool) (s : Terminals). read_loop w fuel r nr flag s in
    if nr == 0
    then returns (finish_read r nr s)
    else if flag && alarmed
    then returns (finish_read r nr no_alarm)
    else if not (signals s == 0)
    then returns (finish_read r nr s)
    else if must_wait t
    then go nr flag (sleep_if_empty w r.channel s)
    else if is_eof
    then returns (pos done, s₁)
    else if enough
    then returns (finish_read r nr₁ s₂)
    else go nr₁ flag₂ s₂

-- The time given by `c_cc` without a minimum sets the alarm first.
unfoldable pub start_read : (channel buf nr : ℕ) → Terminals → Request
start_read channel buf nr s =
    let t = s.tty_table channel in
    let time = 10 * vtime t in
    let minimum = if not (time == 0) && vmin t == 0 then 1 else vmin t in
    record {
      channel = channel;
      buf = buf;
      total = nr;
      oldalarm = (current_task s.tasks).alarm;
      time = time;
      minimum = if ltb nr minimum then nr else minimum;
    }

unfoldable pub tty_read :
    TtyWorld → (channel buf : ℕ) → (nr : ℤ) → Terminals → Outcome (ℤ × Terminals)
unfolding start_read read_loop
tty_read w channel buf (negsuc n) s = returns (negsuc 0, s)
tty_read w channel buf (pos nr) s =
    let r = start_read channel buf nr s in
    let t = s.tty_table channel in
    let flag = not (r.time == 0) && vmin t == 0 && is_sooner r s in
    let s' = if flag then set_alarm (r.time + s.tasks.jiffies) s else s in
    if ltb 2 channel then returns (negsuc 0, s) else read_loop w w.fuel r nr flag s'
