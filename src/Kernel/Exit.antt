-- ===== src/Kernel/Exit.antt =====
-- kernel/exit.c: sending signals, the death of a task and the wait for it.
-- `System` joins the task table with the memory, which `release` gives a task's page back to.
pub mod Kill
pub mod Wait
pub mod Death
use linux.Base.{
  ℕ, zero, suc, ◌+◌, ◌-◌, ◌*◌, ◌%◌, ◌^◌, Bool, true, false, Option, none, some, List, [], ◌∷◌,
  bit_and, bit_or, ltb, leb, ◌==◌, not, ◌&&◌, ◌||◌, if◌then◌else◌, update, Outcome, returns, panics,
  hangs, ◌>>=◌,
}
use linux.Base.Bits.{bit_not}
use linux.Base.Int.{ℤ, pos, negsuc, neg, pos_part, ltb_ℤ, eqb_ℤ}
use linux.Base.Loops.{for_up, for_down, find_up}
use linux.Kernel.Task.{
  Task, Tasks, TaskState, running, interruptible, uninterruptible, zombie, stopped, is_zombie,
  current_task, modify, nr_tasks, last_slot, sighup, sigchld, sig_bit,
}
use linux.Kernel.Sched.{schedule}
use linux.Mm.{Mm, free_page}

abbrev pub einval : ℕ
einval = 22

abbrev pub eperm : ℕ
eperm = 1

abbrev pub eintr : ℕ
eintr = 4

abbrev pub echild : ℕ
echild = 10

pub record System : Type 0 where
  pub tasks : Tasks
  pub mm : Mm

abbrev pub add_signal : ℕ → Task → Task
add_signal sig t = record t { signal = bit_or t.signal (sig_bit sig) }

-- `priv` is the caller's right to skip the check. `p` may be NULL.
unfoldable pub send_sig : ℤ → ℕ → Bool → Tasks → ℤ × Tasks
send_sig sig p priv s =
    if p == 0 || ltb_ℤ sig (pos 1) || ltb_ℤ (pos 32) sig
    then (neg (pos einval), s)
    else if priv || (current_task s).euid == (s.struct_at p).euid || (current_task s).euid == 0
    then (pos 0, modify p (add_signal (pos_part sig)) s)
    else (neg (pos eperm), s)

unfoldable pub kill_session : Tasks → Tasks
kill_session = for_down last_slot λ i s.
    if not (s.task i == 0) && eqb_ℤ (s.struct_at (s.task i)).session (current_task s).session
    then modify (s.task i) (add_signal sighup) s
    else s

-- `if ((err = send_sig(…))) retval = err`
abbrev pub send_and_note : ℤ → ℕ → Bool → ℤ × Tasks → ℤ × Tasks
send_and_note sig p priv (retval, s) =
    let (err, s') = send_sig sig p priv s in (if eqb_ℤ err (pos 0) then retval else err, s')

-- The bodies of the four loops of `sys_kill`.
unfoldable pub kill_body : ℤ → ℤ → ℕ → ℤ × Tasks → ℤ × Tasks
unfolding send_sig
kill_body pid sig i (retval, s) =
    let p = s.task i in
    let t = s.struct_at p in
    if eqb_ℤ pid (pos 0)
    then (if not (p == 0) && eqb_ℤ t.pgrp (current_task s).pid
        then send_and_note sig p true (retval, s)
        else (retval, s))
    else if ltb_ℤ (pos 0) pid
    then (if not (p == 0) && eqb_ℤ t.pid pid
        then send_and_note sig p false (retval, s)
        else (retval, s))
    else if eqb_ℤ pid (negsuc 0)
    then send_and_note sig p false (retval, s)
    else (if not (p == 0) && eqb_ℤ t.pgrp (neg pid)
        then send_and_note sig p false (retval, s)
        else (retval, s))

unfoldable pub sys_kill : ℤ → ℤ → Tasks → ℤ × Tasks
unfolding kill_body
sys_kill pid sig s = for_down last_slot (kill_body pid sig) (pos 0, s)

-- The task's slot is emptied and its page freed; then another task runs.
unfoldable pub release : ℕ → System → Outcome System
unfolding free_page
release p s =
    let i = find_up 1 63 (λ j. s.tasks.task j == p) in
    if p == 0
    then returns s
    else if ltb i nr_tasks
    then (free_page p s.mm >>= λ mm'.
        schedule (record s.tasks { task = update s.tasks.task i 0 }) >>= λ tasks'.
        returns (record { tasks = tasks'; mm = mm' }))
    else panics

-- The father gets SIGCHLD; without one the task releases itself.
unfoldable pub tell_father : ℤ → System → Outcome System
unfolding release
tell_father pid s =
    let i =
      find_up 0 nr_tasks
        (λ j. not (s.tasks.task j == 0) && eqb_ℤ (s.tasks.struct_at (s.tasks.task j)).pid pid) in
    if not (eqb_ℤ pid (pos 0)) && ltb i nr_tasks
    then returns (record s { tasks = modify (s.tasks.task i) (add_signal sigchld) s.tasks })
    else release s.tasks.current s

-- The children of a task that dies: slot `i` of the first loop of `do_exit`.
unfoldable pub orphan : ℕ → Tasks → Tasks
unfolding send_sig
orphan i s =
    let p = s.task i in
    if not (p == 0) && eqb_ℤ (s.struct_at p).father (current_task s).pid
    then (let s' = modify p (λ t. record t { father = pos 1 }) s in
        if is_zombie (s'.struct_at p).state
        then (send_sig (pos sigchld) (s'.task 1) true s').1
        else s')
    else s

unfoldable pub orphans : Tasks → Tasks
unfolding orphan
orphans = for_up 0 nr_tasks orphan

abbrev pub wuntraced : ℕ
wuntraced = 2

abbrev pub wnohang : ℕ
wnohang = 1

-- The children that `sys_waitpid` looks at.
abbrev pub is_waited_for : ℤ → Tasks → ℕ → Bool
is_waited_for pid s i =
    let p = s.task i in
    let t = s.struct_at p in
    not (p == 0)
    && not (p == s.current)
    && eqb_ℤ t.father (current_task s).pid
    && (if ltb_ℤ (pos 0) pid
        then eqb_ℤ t.pid pid
        else if eqb_ℤ pid (pos 0)
        then eqb_ℤ t.pgrp (current_task s).pgrp
        else if not (eqb_ℤ pid (negsuc 0))
        then eqb_ℤ t.pgrp (neg pid)
        else true)

-- What the loop over the table finds: a child to report, in its slot, or whether there are children
-- that still run.
pub data Found : Type 0 where
  stopped_child zombie_child : ℕ → Found
  no_child : Bool → Found

-- `options & WUNTRACED`
abbrev pub has_option : ℕ → ℕ → Bool
has_option options o = not (bit_and options o == 0)

-- The loop from slot `n` down. A stopped child that is not asked for is passed over.
unfoldable pub wait_scan : ℤ → ℕ → Tasks → ℕ → Bool → Found
wait_scan pid options s zero flag = no_child flag
wait_scan pid options s (suc n) flag =
    let pass = wait_scan pid options s n flag in
    let alive = wait_scan pid options s n true in
    if not (is_waited_for pid s (suc n)) then pass else elim (s.struct_at (s.task (suc n))).state [
      | stopped ↦ if has_option options wuntraced then stopped_child (suc n) else pass
      | zombie ↦ zombie_child (suc n)
      | _ ↦ alive
    ]

-- The zombie's times go to its father.
abbrev pub add_times : Task → Task → Task
add_times child t = record t { cutime = t.cutime + child.utime; cstime = t.cstime + child.stime }

abbrev pub with_tasks : (Tasks → Tasks) → System → System
with_tasks f s = record s { tasks = f s.tasks }

-- The zombie in slot `i` is reaped: the result, the word that goes through `stat_addr`, the state.
unfoldable pub reap : (System → System) → ℕ → System → Outcome (ℤ × Option ℕ × System)
unfolding release
reap resume i s =
    let p = s.tasks.task i in
    let child = s.tasks.struct_at p in
    release p (with_tasks (modify s.tasks.current (add_times child)) s) >>= λ s'.
    returns (child.pid, some child.exit_code, resume s')

abbrev pub wait_for_child : Task → Task
wait_for_child t = record t { state = interruptible }

-- `current->signal &= ~(1<<(SIGCHLD-1))`
abbrev pub clear_sigchld : Task → Task
clear_sigchld t = record t { signal = bit_and t.signal (bit_not (sig_bit sigchld)) }

-- Each call of `schedule`, in `release` too, takes the next of the list: what the other tasks do
-- until this one runs again.
unfoldable pub sys_waitpid :
    List (System → System) → ℤ → ℕ → System → Outcome (ℤ × Option ℕ × System)
unfolding reap wait_scan
sys_waitpid [] pid options s = hangs
sys_waitpid (resume ∷ rest) pid options s = elim (wait_scan pid options s.tasks last_slot false) [
  | stopped_child i ↦ returns ((s.tasks.struct_at (s.tasks.task i)).pid, some 0x7f, s)
  | zombie_child i ↦ reap resume i s
  | no_child false ↦ returns (neg (pos echild), none, s)
  | no_child true ↦
      if has_option options wnohang
      then returns (pos 0, none, s)
      else (schedule (modify s.tasks.current wait_for_child s.tasks) >>= λ tasks'.
          let r = resume (record s { tasks = tasks' }) in
          let woken = with_tasks (modify r.tasks.current clear_sigchld) r in
          elim ((current_task woken.tasks).signal == 0) [
            | true ↦ sys_waitpid rest pid options woken
            | false ↦ returns (neg (pos eintr), none, woken)
          ])
]
