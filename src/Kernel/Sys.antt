-- ===== src/Kernel/Sys.antt =====
-- kernel/sys.c: identities, sessions, times and the break of the current task.
-- A call takes its arguments as `int`s and returns its result beside the new state.
pub mod Ids
pub mod Sessions
use linux.Base.{
  ℕ, ◌+◌, ◌-◌, ◌*◌, ◌/◌, ◌%◌, ◌^◌, Bool, true, false, Option, none, some, List, [], ◌∷◌, bit_and,
  ltb, leb, ◌==◌, not, ◌&&◌, ◌||◌, if◌then◌else◌,
}
use linux.Base.Int.{ℤ, pos, negsuc, neg, pos_part, ltb_ℤ, eqb_ℤ, sub_ℕ}
use linux.Base.Loops.{find_up}
use linux.Kernel.Task.{Task, Tasks, current_task, modify, nr_tasks, hz}

abbrev pub eperm : ℕ
eperm = 1

abbrev pub esrch : ℕ
esrch = 3

abbrev pub enosys : ℕ
enosys = 38

-- `-ENOSYS`: the calls that are not implemented.
abbrev pub not_implemented : ℤ
not_implemented = neg (pos enosys)

unfoldable pub sys_ftime : ℤ
sys_ftime = not_implemented

unfoldable pub sys_break : ℤ
sys_break = not_implemented

unfoldable pub sys_ptrace : ℤ
sys_ptrace = not_implemented

unfoldable pub sys_stty : ℤ
sys_stty = not_implemented

unfoldable pub sys_gtty : ℤ
sys_gtty = not_implemented

unfoldable pub sys_rename : ℤ
sys_rename = not_implemented

unfoldable pub sys_prof : ℤ
sys_prof = not_implemented

unfoldable pub sys_acct : ℤ
sys_acct = not_implemented

unfoldable pub sys_phys : ℤ
sys_phys = not_implemented

unfoldable pub sys_lock : ℤ
sys_lock = not_implemented

unfoldable pub sys_mpx : ℤ
sys_mpx = not_implemented

unfoldable pub sys_ulimit : ℤ
sys_ulimit = not_implemented

-- `suser()`
abbrev pub suser : Task → Bool
suser t = t.euid == 0

-- An `unsigned short` against an `int`.
abbrev pub same_id : ℕ → ℤ → Bool
same_id id n = eqb_ℤ (pos id) n

-- The value that an `unsigned short` field takes.
abbrev pub to_id : ℤ → ℕ
to_id n = pos_part n % 2 ^ 16

-- The first half of `sys_setregid`; `none` is its error.
unfoldable pub set_rgid : ℤ → Task → Option Task
set_rgid rgid t =
    if ltb_ℤ (pos 0) rgid
    then (if same_id t.gid rgid || suser t then some (record t { gid = to_id rgid }) else none)
    else some t

unfoldable pub set_egid : ℤ → Task → Option Task
set_egid egid t =
    if ltb_ℤ (pos 0) egid
    then (if same_id t.gid egid || same_id t.egid egid || same_id t.sgid egid || suser t
        then some (record t { egid = to_id egid })
        else none)
    else some t

unfoldable pub setregid_task : ℤ → ℤ → Task → ℤ × Task
unfolding set_rgid set_egid
setregid_task rgid egid t = elim (set_rgid rgid t) [
  | none ↦ (neg (pos eperm), t)
  | some t' ↦ elim (set_egid egid t') [ none ↦ (neg (pos eperm), t') | some t'' ↦ (pos 0, t'') ]
]

unfoldable pub sys_setregid : ℤ → ℤ → Tasks → ℤ × Tasks
unfolding setregid_task
sys_setregid rgid egid s =
    let (r, t) = setregid_task rgid egid (current_task s) in (r, modify s.current (λ _. t) s)

unfoldable pub sys_setgid : ℤ → Tasks → ℤ × Tasks
unfolding sys_setregid
sys_setgid gid = sys_setregid gid gid

-- The clock: `CURRENT_TIME` of include/linux/sched.h.
abbrev pub current_time : Tasks → ℕ
current_time s = s.startup_time + s.jiffies / hz

-- The option is what goes through `tloc`.
unfoldable pub sys_time : (tloc : ℕ) → Tasks → ℕ × Option ℕ
sys_time tloc s = (current_time s, if tloc == 0 then none else some (current_time s))

unfoldable pub set_ruid : ℤ → Task → Option Task
set_ruid ruid t =
    if ltb_ℤ (pos 0) ruid
    then (if same_id t.euid ruid || same_id t.uid ruid || suser t
        then some (record t { uid = to_id ruid })
        else none)
    else some t

-- `old_ruid` is the real id from before the call.
unfoldable pub set_euid : ℕ → ℤ → Task → Option Task
set_euid old_ruid euid t =
    if ltb_ℤ (pos 0) euid
    then (if same_id old_ruid euid || same_id t.euid euid || suser t
        then some (record t { euid = to_id euid })
        else none)
    else some t

unfoldable pub setreuid_task : ℤ → ℤ → Task → ℤ × Task
unfolding set_ruid set_euid
setreuid_task ruid euid t = elim (set_ruid ruid t) [
  | none ↦ (neg (pos eperm), t)
  | some t' ↦ elim (set_euid t.uid euid t') [
    | none ↦ (neg (pos eperm), record t' { uid = t.uid })
    | some t'' ↦ (pos 0, t'')
  ]
]

unfoldable pub sys_setreuid : ℤ → ℤ → Tasks → ℤ × Tasks
unfolding setreuid_task
sys_setreuid ruid euid s =
    let (r, t) = setreuid_task ruid euid (current_task s) in (r, modify s.current (λ _. t) s)

unfoldable pub sys_setuid : ℤ → Tasks → ℤ × Tasks
unfolding sys_setreuid
sys_setuid uid = sys_setreuid uid uid

-- `time` is what `tptr` leads to. 32-bit arithmetic.
unfoldable pub sys_stime : ℕ → Tasks → ℤ × Tasks
sys_stime time s =
    if not (suser (current_task s))
    then (neg (pos eperm), s)
    else (pos 0, record s { startup_time = (time + 2 ^ 32 - s.jiffies / hz) % 2 ^ 32 })

-- The list is what goes through `tbuf`.
unfoldable pub sys_times : (tbuf : ℕ) → Tasks → ℕ × List ℕ
sys_times tbuf s =
    let t = current_task s in
    (s.jiffies, if tbuf == 0 then [] else t.utime ∷ t.stime ∷ t.cutime ∷ t.cstime ∷ [])

-- `start_stack - 16384` is unsigned.
unfoldable pub sys_brk : ℕ → Tasks → ℕ × Tasks
sys_brk end_data_seg s =
    let t = current_task s in
    let limit = (t.start_stack + 2 ^ 32 - 16384) % 2 ^ 32 in
    if leb t.end_code end_data_seg && ltb end_data_seg limit
    then (end_data_seg, modify s.current (λ t. record t { brk = end_data_seg }) s)
    else (t.brk, s)

-- Whether a slot holds the task with this number.
abbrev pub has_pid : Tasks → ℤ → ℕ → Bool
has_pid s pid i = not (s.task i == 0) && eqb_ℤ (s.struct_at (s.task i)).pid pid

-- The current task's number for 0.
abbrev pub or_own : ℤ → Tasks → ℤ
or_own pid s = if eqb_ℤ pid (pos 0) then (current_task s).pid else pid

unfoldable pub sys_setpgid : ℤ → ℤ → Tasks → ℤ × Tasks
sys_setpgid pid pgid s =
    let i = find_up 0 nr_tasks (has_pid s (or_own pid s)) in
    let t = s.struct_at (s.task i) in
    if leb nr_tasks i
    then (neg (pos esrch), s)
    else if t.leader
    then (neg (pos eperm), s)
    else if not (eqb_ℤ t.session (current_task s).session)
    then (neg (pos eperm), s)
    else (pos 0, modify (s.task i) (λ t. record t { pgrp = or_own pgid s }) s)

unfoldable pub sys_getpgrp : Tasks → ℤ
sys_getpgrp s = (current_task s).pgrp

unfoldable pub sys_setsid : Tasks → ℤ × Tasks
sys_setsid s =
    let t = current_task s in
    if t.leader && not (suser t) then (neg (pos eperm), s) else (
      t.pid,
      modify s.current
          (λ t. record t { leader = true; session = t.pid; pgrp = t.pid; tty = negsuc 0 }) s,
    )

unfoldable pub sys_umask : ℕ → Tasks → ℕ × Tasks
sys_umask mask s =
    ((current_task s).umask, modify s.current (λ t. record t { umask = bit_and mask 0o777 }) s)
