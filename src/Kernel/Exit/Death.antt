-- ===== src/Kernel/Exit/Death.antt =====
-- `do_exit` of kernel/exit.c: the death of the current task.
-- What other files do for it is an interface; the limits are those of the task's LDT.
use linux.Base.{ℕ, ◌*◌, ◌%◌, ◌==◌, not, ◌&&◌, if◌then◌else◌, Outcome, returns, ◌>>=◌}
use linux.Base.Int.{ℤ, pos, ltb_ℤ}
use linux.Base.Loops.{each_up}
use linux.Kernel.Task.{Task, zombie, current_task, modify}
use linux.Kernel.Sched.{schedule}
use linux.Kernel.Exit.{System, with_tasks, orphans, kill_session, tell_father}
use linux.Mm.{free_page_tables}

-- `sys_close` of fs/open.c, `iput` of fs/inode.c, and `tty_table[i].pgrp = 0`.
pub record Closing : Type 0 where
  pub sys_close : ℕ → System → Outcome System
  pub iput : ℕ → System → Outcome System
  pub clear_pgrp : ℤ → System → System

-- `free_page_tables(get_base(...), get_limit(...))`
abbrev pub free_segment : (base limit : ℕ) → System → Outcome System
free_segment base limit s =
    free_page_tables base limit s.mm >>= λ (_, mm'). returns (record s { mm = mm' })

-- The loop over the descriptors.
unfoldable pub close_files : Closing → System → Outcome System
unfolding each_up
close_files c =
    each_up 0 20 (λ i s. if (current_task s.tasks).filp i == 0 then returns s else c.sys_close i s)

abbrev pub with_current : (Task → Task) → System → System
with_current f = with_tasks (λ s. modify s.current f s)

-- The three inodes are given back.
unfoldable pub put_inodes : Closing → System → Outcome System
put_inodes c s = c.iput (current_task s.tasks).pwd s >>= λ s₁.
    let s₁' = with_current (λ t. record t { pwd = 0 }) s₁ in
    c.iput (current_task s₁'.tasks).root s₁' >>= λ s₂.
    let s₂' = with_current (λ t. record t { root = 0 }) s₂ in
    c.iput (current_task s₂'.tasks).executable s₂' >>= λ s₃.
    returns (with_current (λ t. record t { executable = 0 }) s₃)

-- From the terminal to the exit code.
unfoldable pub become_zombie : Closing → ℕ → System → System
unfolding kill_session
become_zombie c code s =
    let t = current_task s.tasks in
    let s₁ = if t.leader && not (ltb_ℤ t.tty (pos 0)) then c.clear_pgrp t.tty s else s in
    let math = s₁.tasks.last_task_used_math == s₁.tasks.current in
    let s₂ = with_tasks (λ r. if math then record r { last_task_used_math = 0 } else r) s₁ in
    let s₃ = if (current_task s₂.tasks).leader then with_tasks kill_session s₂ else s₂ in
    with_current (λ t. record t { state = zombie; exit_code = code }) s₃

unfoldable pub do_exit : Closing → ℕ → System → Outcome System
unfolding orphans close_files put_inodes become_zombie tell_father
do_exit c code s =
    let t = current_task s.tasks in
    free_segment t.code_base t.code_limit s >>= free_segment t.data_base t.data_limit >>= λ s₁.
    close_files c (with_tasks orphans s₁) >>= put_inodes c >>= λ s₂.
    let s₃ = become_zombie c code s₂ in
    tell_father (current_task s₃.tasks).father s₃ >>= λ s₄.
    schedule s₄.tasks >>= λ tasks'. returns (record s₄ { tasks = tasks' })

-- `(error_code & 0xff) << 8`
unfoldable pub sys_exit : Closing → ℕ → System → Outcome System
unfolding do_exit
sys_exit c error_code = do_exit c (error_code % 256 * 256)
