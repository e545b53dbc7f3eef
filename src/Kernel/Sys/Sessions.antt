-- ===== src/Kernel/Sys/Sessions.antt =====
-- `sys_setpgid`: whose process group changes.
use linux.Base.{ℕ, ◌<◌, ◌≡◌, ◌≢◌, true, false, arith}
use linux.Base.Int.{ℤ, pos, neg, eqb_ℤ}
use linux.Base.Loops.{find_up, find_up_passes, find_up_least}
use linux.Kernel.Task.{Tasks, current_task, nr_tasks}
use linux.Kernel.Sys.{has_pid, or_own, sys_setpgid, esrch}

-- The task in slot `i` is the one asked for, and its group has become `pgid`.
pub record IsMoved (pid pgid : ℤ) (s s' : Tasks) (i : ℕ) : Type 0 where
  pub in_table : i < nr_tasks
  pub named : has_pid s pid i ≡ true
  pub first : (j : ℕ) → j < i → has_pid s pid j ≡ false
  pub no_leader : (s.struct_at (s.task i)).leader ≡ false
  pub same_session : eqb_ℤ (s.struct_at (s.task i)).session (current_task s).session ≡ true
  pub moved : (s'.struct_at (s.task i)).pgrp ≡ pgid
  pub others : (p : ℕ) → p ≢ s.task i → (s'.struct_at p).pgrp ≡ (s.struct_at p).pgrp

-- If `sys_setpgid` succeeds, the first task with the given number, or the current task for 0, is
-- no session leader and is in the session of the current task; its group alone has changed, to the
-- given one, or to the number of the current task for 0.
sys_setpgid-IsMoved :
    (pid pgid : ℤ) (s : Tasks)
    → (sys_setpgid pid pgid s).0 ≡ pos 0
    → (i : ℕ) × IsMoved (or_own pid s) (or_own pgid s) s (sys_setpgid pid pgid s).1 i
unfolding sys_setpgid
sys_setpgid-IsMoved pid pgid s h =
    let test = has_pid s (or_own pid s) in
    let i = find_up 0 nr_tasks test in
    let below : i < nr_tasks = ground arith in
    (
      i,
      record {
        in_table = below;
        named = find_up_passes 0 nr_tasks test (omega arith);
        first = λ j l. find_up_least 0 nr_tasks j test (omega arith) l;
        no_leader = ground arith;
        same_session = ground arith;
        moved = ground arith;
        others = λ p ne. ground arith;
      },
    )

-- It fails for want of a task only if no slot holds a task with the number.
sys_setpgid-esrch :
    (pid pgid : ℤ) (s : Tasks)
    → (sys_setpgid pid pgid s).0 ≡ neg (pos esrch)
    → (i : ℕ) → i < nr_tasks
    → has_pid s (or_own pid s) i ≡ false
unfolding sys_setpgid
sys_setpgid-esrch pid pgid s h i l =
    find_up_least 0 nr_tasks i (has_pid s (or_own pid s)) (omega arith) (ground arith)
