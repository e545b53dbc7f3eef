-- ===== src/Kernel/Fork.antt =====
-- kernel/fork.c: `fork`, which copies the current task into a free slot.
-- The counts of files and inodes are functions of their addresses, and `tss` holds the saved
-- processor state of each task, by the task's address.
pub mod Pid
use linux.Base.{
  ℕ, zero, suc, ◌+◌, ◌-◌, ◌*◌, ◌/◌, ◌%◌, ◌^◌, Bool, true, false, ltb, leb, ◌==◌, not, ◌&&◌, ◌||◌,
  if◌then◌else◌, update, Outcome, returns, panics, hangs, ◌>>=◌,
}
use linux.Base.Int.{ℤ, pos, neg, eqb_ℤ}
use linux.Base.Loops.{for_up, find_up}
use linux.Kernel.Task.{
  Task, Tasks, TaskState, running, uninterruptible, current_task, modify, nr_tasks,
}
use linux.Mm.{Mm, get_free_page, free_page, copy_page_tables, free_page_tables, write_verify}

pub record Tss : Type 0 where
  pub back_link : ℕ
  pub esp0 : ℕ
  pub ss0 : ℕ
  pub eip : ℕ
  pub eflags : ℕ
  pub eax : ℕ
  pub ecx : ℕ
  pub edx : ℕ
  pub ebx : ℕ
  pub esp : ℕ
  pub ebp : ℕ
  pub esi : ℕ
  pub edi : ℕ
  pub es : ℕ
  pub cs : ℕ
  pub ss : ℕ
  pub ds : ℕ
  pub fs : ℕ
  pub gs : ℕ
  pub ldt : ℕ
  pub trace_bitmap : ℕ

-- The registers that the system call has pushed.
pub record CallFrame : Type 0 where
  pub ebp : ℕ
  pub edi : ℕ
  pub esi : ℕ
  pub gs : ℕ
  pub ebx : ℕ
  pub ecx : ℕ
  pub edx : ℕ
  pub fs : ℕ
  pub es : ℕ
  pub ds : ℕ
  pub eip : ℕ
  pub cs : ℕ
  pub eflags : ℕ
  pub esp : ℕ
  pub ss : ℕ

pub record Forker : Type 0 where
  pub tasks : Tasks
  pub mm : Mm
  pub tss : ℕ → Tss
  pub f_count : ℕ → ℕ
  pub i_count : ℕ → ℕ

abbrev pub eagain : ℕ
eagain = 11

abbrev pub enomem : ℕ
enomem = 12

-- `while (size > 0)`: the pages from `start` on.
unfoldable pub verify_pages : ℕ → ℕ → Mm → Outcome Mm
unfolding write_verify
verify_pages zero start m = returns m
verify_pages (suc n) start m = write_verify start m >>= verify_pages n (start + 4096)

-- The number of rounds is `size / 4096`, rounded up, after `size` has grown by the offset in the page.
unfoldable pub verify_area : (addr size : ℕ) → Forker → Outcome Forker
unfolding verify_pages
verify_area addr size s =
    let size' = size + addr % 4096 in
    let start = addr - addr % 4096 + (current_task s.tasks).data_base in
    verify_pages ((size' + 4095) / 4096) start s.mm >>= λ m. returns (record s { mm = m })

abbrev pub with_tasks : (Tasks → Tasks) → Forker → Forker
with_tasks f s = record s { tasks = f s.tasks }

abbrev pub at_base : ℕ → Task → Task
at_base base t = record t { start_code = base; code_base = base; data_base = base }

-- The limits are those of the current task's LDT.
unfoldable pub copy_mem : (nr p : ℕ) → Forker → Outcome (ℤ × Forker)
unfolding copy_page_tables free_page_tables
copy_mem nr p s =
    let t = current_task s.tasks in
    let base = nr * 0x4000000 in
    let s₁ = with_tasks (modify p (at_base base)) s in
    if not (t.data_base == t.code_base)
    then panics
    else if ltb t.data_limit t.code_limit
    then panics
    else (copy_page_tables t.data_base base t.data_limit s₁.mm >>= λ (failed, m).
        if eqb_ℤ failed (pos 0)
        then returns (pos 0, record s₁ { mm = m })
        else (free_page_tables base t.data_limit m >>= λ (_, m').
            returns (neg (pos enomem), record s₁ { mm = m' })))

-- What the child does not have from its father.
abbrev pub newborn : ℕ → ℤ → ℕ → Task → Task
newborn last_pid father jiffies t = record t {
  state = uninterruptible;
  pid = pos last_pid;
  father = father;
  counter = t.priority;
  signal = 0;
  alarm = 0;
  leader = false;
  utime = 0;
  stime = 0;
  cutime = 0;
  cstime = 0;
  start_time = jiffies;
}

-- The child's processor state: the father's, but `eax`, which the call returns, is 0.
abbrev pub child_tss : (nr p : ℕ) → CallFrame → Tss
child_tss nr p r = record {
  back_link = 0;
  esp0 = 4096 + p;
  ss0 = 0x10;
  eip = r.eip;
  eflags = r.eflags;
  eax = 0;
  ecx = r.ecx;
  edx = r.edx;
  ebx = r.ebx;
  esp = r.esp;
  ebp = r.ebp;
  esi = r.esi;
  edi = r.edi;
  es = r.es % 2 ^ 16;
  cs = r.cs % 2 ^ 16;
  ss = r.ss % 2 ^ 16;
  ds = r.ds % 2 ^ 16;
  fs = r.fs % 2 ^ 16;
  gs = r.gs % 2 ^ 16;
  ldt = nr * 16 + 40;
  trace_bitmap = 2 ^ 31;
}

-- `if (p) p->count++` of an unsigned short
abbrev pub count_user : ℕ → (ℕ → ℕ) → ℕ → ℕ
count_user p count = if p == 0 then count else update count p ((count p + 1) % 2 ^ 16)

-- The files and inodes of a new task have one user more.
unfoldable pub share : Task → Task → Forker → Forker
share child t s = record s {
  f_count = for_up 0 20 (λ i. count_user (child.filp i)) s.f_count;
  i_count = count_user t.executable (count_user t.root (count_user t.pwd s.i_count));
}

abbrev set_slot : ℕ → ℕ → Tasks → Tasks
set_slot nr p s = record s { task = update s.task nr p }

abbrev run : Task → Task
run t = record t { state = running }

-- Not kept: the floating-point registers and the two entries in the GDT.
unfoldable pub copy_process : ℕ → CallFrame → Forker → Outcome (ℤ × Forker)
unfolding get_free_page free_page copy_mem share
copy_process nr r s =
    let (p, m₁) = get_free_page s.mm in
    let t = current_task s.tasks in
    let last_pid = s.tasks.last_pid in
    let child = newborn last_pid t.pid s.tasks.jiffies t in
    let s₁ = record s {
      mm = m₁;
      tasks = modify p (λ _. child) (set_slot nr p s.tasks);
      tss = update s.tss p (child_tss nr p r);
    } in
    if p == 0
    then returns (neg (pos eagain), s)
    else (copy_mem nr p s₁ >>= λ (failed, s₂).
        if not (eqb_ℤ failed (pos 0))
        then (free_page p s₂.mm >>= λ m₃.
            returns (neg (pos eagain), record s₂ { tasks = set_slot nr 0 s₂.tasks; mm = m₃ }))
        else (let s₃ = share (s₂.tasks.struct_at p) (current_task s₂.tasks) s₂ in
            returns (pos last_pid, with_tasks (modify p run) s₃)))

-- `if ((++last_pid) < 0) last_pid = 1`, of a 32-bit `long`
abbrev pub next_pid : ℕ → ℕ
next_pid n = if leb (2 ^ 31) (n + 1) then 1 else n + 1

abbrev pub has_number : Tasks → ℕ → ℕ → Bool
has_number s n i = not (s.task i == 0) && eqb_ℤ (s.struct_at (s.task i)).pid (pos n)

-- `repeat:`, on fuel: the next number after `n` that no task has.
unfoldable pub free_pid : ℕ → ℕ → Tasks → Outcome ℕ
free_pid zero n s = hangs
free_pid (suc fuel) n s =
    let rest = free_pid fuel (next_pid n) s in
    if ltb (find_up 0 nr_tasks (has_number s (next_pid n))) nr_tasks
    then rest
    else returns (next_pid n)

unfoldable pub find_empty_process : ℕ → Tasks → Outcome (ℤ × Tasks)
unfolding free_pid
find_empty_process fuel s = free_pid fuel s.last_pid s >>= λ n.
    let i = find_up 1 63 (λ i. s.task i == 0) in
    returns (if ltb i nr_tasks then pos i else neg (pos eagain), record s { last_pid = n })
