-- ===== src/Kernel/Timer.antt =====
-- kernel/sched.c: the list of timers and the clock tick.
-- The pointer to entry `i` of `timer_list` is `i + 1`, and NULL is 0. A timer's `jiffies` is the
-- number of ticks after the timer before it in the list, and is positive when it is stored.
pub mod Delays
pub mod Order
mod Tests
use linux.Base.{
  ℕ, zero, suc, ◌+◌, ◌-◌, ◌*◌, ◌/◌, ◌%◌, ◌^◌, Bool, true, false, List, [], ◌∷◌, bit_and, bit_or,
  ltb, leb, ◌==◌, not, ◌&&◌, ◌||◌, if◌then◌else◌, update, Outcome, returns, panics, ◌>>=◌,
}
use linux.Base.Int.{ℤ, pos, pos_part, ltb_ℤ}
use linux.Base.Loops.{find_up}
use linux.Kernel.Task.{Task, Tasks, current_task, modify}
use linux.Kernel.Sched.{schedule}

pub record Timer : Type 0 where
  pub jiffies : ℕ
  pub fn : ℕ
  pub next : ℕ

pub record Timers : Type 0 where
  pub timer : ℕ → Timer
  pub next_timer : ℕ

abbrev pub time_requests : ℕ
time_requests = 64

-- One round of the loop: what is in `p` and what is in the next timer change places, and the delay
-- that goes on is less by that of the next.
abbrev pub swap_timers : (p : ℕ) → (ℕ → Timer) → ℕ → Timer
swap_timers p t =
    let a = t p in
    let b = t a.next in
    update (update t p (record a { jiffies = b.jiffies; fn = b.fn })) a.next
      (record b { jiffies = a.jiffies - b.jiffies; fn = a.fn })

-- `while (p->next && p->next->jiffies < p->jiffies)`; the list has at most all timers.
unfoldable pub sink : ℕ → ℕ → (ℕ → Timer) → ℕ → Timer
sink zero p t = t
sink (suc fuel) p t =
    let n = (t p).next in
    let rest = sink fuel n (swap_timers p t) in
    if n == 0 then t else if ltb (t n).jiffies (t p).jiffies then rest else t

-- The timer goes in at the head of the list, and down to its place.
unfoldable pub put_timer : (p jiffies fn : ℕ) → Timers → Timers
put_timer p jiffies fn s =
    let t = update s.timer p record { jiffies = jiffies; fn = fn; next = s.next_timer } in
    record { timer = sink time_requests p t; next_timer = p }

-- The list is the functions that are called at once.
unfoldable pub add_timer : ℤ → (fn : ℕ) → Timers → Outcome (List ℕ × Timers)
unfolding put_timer
add_timer jiffies fn s =
    let i = find_up 0 time_requests (λ i. (s.timer (i + 1)).fn == 0) in
    if fn == 0
    then returns ([], s)
    else if not (ltb_ℤ (pos 0) jiffies)
    then returns (fn ∷ [], s)
    else if leb time_requests i
    then panics
    else returns ([], put_timer (i + 1) (pos_part jiffies) fn s)

-- The state that a tick changes: `beeps` counts the ticks of the bell that are left.
pub record Clock : Type 0 where
  pub tasks : Tasks
  pub timers : Timers
  pub beepcount : ℕ
  pub current_dor : ℕ

-- Calls of other parts: a timer's function, `sysbeepstop` of the console, `do_floppy_timer`.
pub record Handlers : Type 0 where
  pub call : ℕ → Clock → Clock
  pub sysbeepstop : Clock → Clock
  pub do_floppy_timer : Clock → Clock

abbrev pub with_timer : ℕ → (Timer → Timer) → Timers → Timers
with_timer p f s = record s { timer = update s.timer p (f (s.timer p)) }

-- `while (next_timer && next_timer->jiffies <= 0)`. A function that is called may add timers; with
-- the fuel of one round for every entry of the table the loop is cut short only if it does so.
unfoldable pub expire : ℕ → Handlers → Clock → Clock
expire zero h c = c
expire (suc fuel) h c =
    let p = c.timers.next_timer in
    let t = c.timers.timer p in
    let popped = record (with_timer p (λ t. record t { fn = 0 }) c.timers) {
      next_timer = t.next;
    } in
    let rest = expire fuel h (h.call t.fn (record c { timers = popped })) in
    if p == 0 || not (t.jiffies == 0) then c else rest

abbrev pub tick_bell : Handlers → Clock → Clock
tick_bell h c =
    let c' = record c { beepcount = c.beepcount - 1 } in
    if c.beepcount == 0 then c else if c'.beepcount == 0 then h.sysbeepstop c' else c'

-- `cpl` tells a tick in user mode from one in the kernel.
abbrev pub count_time : (cpl : ℕ) → Task → Task
count_time cpl t =
    if cpl == 0 then record t { stime = t.stime + 1 } else record t { utime = t.utime + 1 }

abbrev pub tick_timers : Handlers → Clock → Clock
tick_timers h c =
    let p = c.timers.next_timer in
    let ticked = with_timer p (λ t. record t { jiffies = t.jiffies - 1 }) c.timers in
    if p == 0 then c else expire time_requests h (record c { timers = ticked })

-- The time slice of the current task, in user mode the end of which is the end of its turn. The
-- counter is counted down as a signed number, and is 0 if it is not positive then.
unfoldable pub do_timer : Handlers → (cpl : ℕ) → Clock → Outcome Clock
unfolding expire
do_timer h cpl c =
    let c₁ = tick_bell h c in
    let c₂ = record c₁ { tasks = modify c₁.tasks.current (count_time cpl) c₁.tasks } in
    let c₃ = tick_timers h c₂ in
    let c₄ = if bit_and c₃.current_dor 0xf0 == 0 then c₃ else h.do_floppy_timer c₃ in
    let left = ((current_task c₄.tasks).counter + (2 ^ 32 - 1)) % 2 ^ 32 in
    let more = ltb 0 left && ltb left (2 ^ 31) in
    let slice = record c₄ {
      tasks =
          modify c₄.tasks.current (λ t. record t { counter = if more then left else 0 }) c₄.tasks;
    } in
    if more
    then returns slice
    else if cpl == 0
    then returns slice
    else (schedule slice.tasks >>= λ tasks'. returns (record slice { tasks = tasks' }))
