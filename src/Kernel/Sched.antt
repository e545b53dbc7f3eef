-- ===== src/Kernel/Sched.antt =====
-- kernel/sched.c: `schedule`, the wait queues and the system calls of that file.
-- A function that sleeps is cut at its `schedule`: what the other tasks do until this one runs again
-- is an argument, `resume`. The register state that `switch_to` saves and restores is not modelled.
pub mod Pick
pub mod Kept
pub mod Queue
use linux.Base.{
  ℕ, zero, suc, ◌+◌, ◌*◌, ◌/◌, ◌%◌, ◌^◌, false, Bool, true, Option, none, some, List, [], ◌∷◌,
  bit_and, bit_or, ltb, ◌==◌, not, ◌&&◌, if◌then◌else◌, update, Outcome, returns, panics, hangs,
  ◌>>=◌,
}
use linux.Base.Bits.{bit_not}
use linux.Base.Int.{bits_of, long_of, ℤ, pos, sub_ℕ, pos_part, ltb_ℤ, ◌-ℤ◌}
use linux.Base.Loops.{for_down}
use linux.Kernel.Task.{
  Task, Tasks, TaskState, running, interruptible, uninterruptible, is_running, is_interruptible,
  last_slot, hz, current_task, modify, sigalrm, sig_bit, blockable,
}

-- The body of the first loop of `schedule`: the alarm, then signals that are not blocked.
unfoldable pub wake_on_signal : ℕ → Task → Task
wake_on_signal jiffies t =
    let t' =
      if not (t.alarm == 0) && ltb t.alarm jiffies
      then record t { signal = bit_or t.signal (sig_bit sigalrm); alarm = 0 }
      else t in
    if not (bit_and t'.signal (bit_not (bit_and blockable t'.blocked)) == 0)
      && is_interruptible t'.state
    then record t' { state = running }
    else t'

unfoldable pub signal_body : ℕ → Tasks → Tasks
signal_body i s = if s.task i == 0 then s else modify (s.task i) (wake_on_signal s.jiffies) s

unfoldable pub check_signals : Tasks → Tasks
unfolding signal_body
check_signals = for_down last_slot signal_body

-- `counter > c`, where `c` starts at -1, which is `none`. A negative counter exceeds nothing.
abbrev pub exceeds : ℕ → Option ℕ → Bool
exceeds n none = ltb n (2 ^ 31)
exceeds n (some c) = ltb n (2 ^ 31) && ltb c n

abbrev pub scan_step : Tasks → ℕ → Option ℕ × ℕ → Option ℕ × ℕ
scan_step s i (c, next) =
    let t = s.struct_at (s.task i) in
    if s.task i == 0
    then (c, next)
    else if is_running t.state && exceeds t.counter c
    then (some t.counter, i)
    else (c, next)

-- The runnable task with the largest counter, from the last slot down.
unfoldable pub find_next : Tasks → Option ℕ × ℕ
find_next s = for_down last_slot (scan_step s) (none, 0)

-- `n >> 1` of a signed number
abbrev pub halved : ℕ → ℕ
halved n = if ltb n (2 ^ 31) then n / 2 else 2 ^ 31 + n / 2

-- The sum wraps around, as that of a `long` does.
abbrev pub recharge_task : Task → Task
recharge_task t = record t { counter = (halved t.counter + t.priority) % 2 ^ 32 }

unfoldable pub recharge_body : ℕ → Tasks → Tasks
recharge_body i s = if s.task i == 0 then s else modify (s.task i) recharge_task s

unfoldable pub recharge : Tasks → Tasks
unfolding recharge_body
recharge = for_down last_slot recharge_body

-- `while (1)`: `c` is 0 only if all runnable tasks have used their time up.
unfoldable pub choose : ℕ → Tasks → Outcome (ℕ × Tasks)
choose zero s = hangs
choose (suc fuel) s =
    let (c, next) = find_next s in
    elim c [
      | some zero ↦ choose fuel (recharge s)
      | some (suc _) ↦ returns (next, s)
      | none ↦ returns (next, s)
    ]

unfoldable pub switch_to : ℕ → Tasks → Tasks
switch_to next s = record s { current = s.task next }

-- Two rounds: when the second finds `c == 0`, every later one does.
unfoldable pub schedule : Tasks → Outcome Tasks
schedule s = choose 2 (check_signals s) >>= λ (next, s'). returns (switch_to next s')

unfoldable pub sys_pause : (Tasks → Tasks) → Tasks → Outcome (ℤ × Tasks)
sys_pause resume s =
    schedule (modify s.current (λ t. record t { state = interruptible }) s) >>= λ s'.
    returns (pos 0, resume s')

-- `tmp->state = 0`, if there is a `tmp`.
abbrev pub make_running : ℕ → Tasks → Tasks
make_running p s = if p == 0 then s else modify p (λ t. record t { state = running }) s

abbrev pub set_queue : ℕ → ℕ → Tasks → Tasks
set_queue q p s = record s { queue = update s.queue q p }

-- `*p = current`, and the state of a task that goes to sleep.
unfoldable pub enqueue : TaskState → ℕ → Tasks → Tasks
enqueue state q s = modify s.current (λ t. record t { state = state }) (set_queue q s.current s)

unfoldable pub sleep_on : (Tasks → Tasks) → ℕ → Tasks → Outcome Tasks
sleep_on resume q s =
    if q == 0
    then returns s
    else if s.current == s.init_task
    then panics
    else (schedule (enqueue uninterruptible q s) >>= λ s'.
        returns (make_running (s.queue q) (resume s')))

-- The loop at `repeat`, with one `resume` for each time that the task runs again.
unfoldable pub interruptible_loop : List (Tasks → Tasks) → ℕ → ℕ → ℕ → Tasks → Outcome Tasks
interruptible_loop [] self tmp q s = hangs
interruptible_loop (resume ∷ rest) self tmp q s =
    schedule (modify self (λ t. record t { state = interruptible }) s) >>= λ s'.
    let r = resume s' in
    let head = r.queue q in
    let again = interruptible_loop rest self tmp q (make_running head r) in
    if not (head == 0) && not (head == self)
    then again
    else returns (make_running tmp (set_queue q 0 r))

unfoldable pub interruptible_sleep_on : List (Tasks → Tasks) → ℕ → Tasks → Outcome Tasks
interruptible_sleep_on resumes q s =
    if q == 0
    then returns s
    else if s.current == s.init_task
    then panics
    else interruptible_loop resumes s.current (s.queue q) q (set_queue q s.current s)

unfoldable pub wake_up : ℕ → Tasks → Tasks
wake_up q s =
    if not (q == 0) && not (s.queue q == 0) then set_queue q 0 (make_running (s.queue q) s) else s

-- `long seconds` is signed. The division of a negative number rounds towards 0.
abbrev pub div_hz : ℤ → ℤ
div_hz x =
    if ltb_ℤ x (pos 0) then pos 0 -ℤ pos (pos_part (pos 0 -ℤ x) / hz) else pos (pos_part x / hz)

unfoldable pub sys_alarm : ℤ → Tasks → ℤ × Tasks
sys_alarm seconds s =
    let old = (current_task s).alarm in
    let left = if old == 0 then pos 0 else div_hz (sub_ℕ old s.jiffies) in
    let at = if ltb_ℤ (pos 0) seconds then s.jiffies + hz * pos_part seconds else 0 in
    (left, modify s.current (λ t. record t { alarm = at }) s)

unfoldable pub sys_getpid : Tasks → ℤ
sys_getpid s = (current_task s).pid

unfoldable pub sys_getppid : Tasks → ℤ
sys_getppid s = (current_task s).father

unfoldable pub sys_getuid : Tasks → ℕ
sys_getuid s = (current_task s).uid

unfoldable pub sys_geteuid : Tasks → ℕ
sys_geteuid s = (current_task s).euid

unfoldable pub sys_getgid : Tasks → ℕ
sys_getgid s = (current_task s).gid

unfoldable pub sys_getegid : Tasks → ℕ
sys_getegid s = (current_task s).egid

unfoldable pub sys_nice : ℤ → Tasks → ℤ × Tasks
sys_nice increment s =
    let left = long_of (bits_of (long_of (current_task s).priority -ℤ increment)) in
    if ltb_ℤ (pos 0) left
    then (pos 0, modify s.current (λ t. record t { priority = pos_part left }) s)
    else (pos 0, s)
