-- ===== src/Kernel/Task.antt =====
-- include/linux/sched.h and include/signal.h: `struct task_struct`, the task table, signal numbers.
-- A pointer is a number and NULL is 0; `struct_at` is the memory that task pointers lead to, so two
-- slots, or a slot and a wait queue, can hold one task.
use linux.Base.{ℕ, ◌-◌, ◌^◌, Bool, true, false, bit_or, update}
use linux.Base.Int.{ℤ}
use linux.Base.Bits.{bit_not}

pub data TaskState : Type 0 where
  running interruptible uninterruptible zombie stopped : TaskState

abbrev pub is_running : TaskState → Bool
is_running running = true
is_running _ = false

abbrev pub is_interruptible : TaskState → Bool
is_interruptible interruptible = true
is_interruptible _ = false

abbrev pub is_zombie : TaskState → Bool
is_zombie zombie = true
is_zombie _ = false

pub record Sigaction : Type 0 where
  pub sa_handler : ℕ
  pub sa_mask : ℕ
  pub sa_flags : ℕ
  pub sa_restorer : ℕ

-- `long` fields that the kernel never makes negative are numbers; `counter` and `priority`, which it
-- can, are given by their 32 bits, so that a number from 2^31 on stands for a negative one; `pid` and its kin are signed.
-- Of the LDT the bases and limits are kept; of the TSS nothing.
pub record Task : Type 0 where
  pub state : TaskState
  pub counter : ℕ
  pub priority : ℕ
  pub signal : ℕ
  pub sigaction : ℕ → Sigaction
  pub blocked : ℕ
  pub exit_code : ℕ
  pub start_code : ℕ
  pub end_code : ℕ
  pub end_data : ℕ
  pub brk : ℕ
  pub start_stack : ℕ
  pub pid : ℤ
  pub father : ℤ
  pub pgrp : ℤ
  pub session : ℤ
  pub leader : Bool
  pub uid : ℕ
  pub euid : ℕ
  pub suid : ℕ
  pub gid : ℕ
  pub egid : ℕ
  pub sgid : ℕ
  pub alarm : ℕ
  pub utime : ℕ
  pub stime : ℕ
  pub cutime : ℕ
  pub cstime : ℕ
  pub start_time : ℕ
  pub used_math : Bool
  pub tty : ℤ
  pub umask : ℕ
  pub pwd : ℕ
  pub root : ℕ
  pub executable : ℕ
  pub close_on_exec : ℕ
  pub filp : ℕ → ℕ
  pub code_base : ℕ
  pub code_limit : ℕ
  pub data_base : ℕ
  pub data_limit : ℕ

-- The globals of kernel/sched.c and kernel/fork.c. `queue` holds the wait-queue variables (each a
-- `struct task_struct *`) by their address; `init_task` is the address of the idle task.
pub record Tasks : Type 0 where
  pub task : ℕ → ℕ
  pub struct_at : ℕ → Task
  pub current : ℕ
  pub init_task : ℕ
  pub queue : ℕ → ℕ
  pub jiffies : ℕ
  pub startup_time : ℕ
  pub last_task_used_math : ℕ
  pub last_pid : ℕ

abbrev pub nr_tasks : ℕ
nr_tasks = 64

-- The slot of `LAST_TASK`.
abbrev pub last_slot : ℕ
last_slot = 63

abbrev pub hz : ℕ
hz = 100

-- `*current`
abbrev pub current_task : Tasks → Task
current_task s = s.struct_at s.current

-- Assignments through a task pointer.
abbrev pub modify : ℕ → (Task → Task) → Tasks → Tasks
modify p f s = record s { struct_at = update s.struct_at p (f (s.struct_at p)) }

abbrev pub sighup : ℕ
sighup = 1

abbrev pub sigkill : ℕ
sigkill = 9

abbrev pub sigsegv : ℕ
sigsegv = 11

abbrev pub sigalrm : ℕ
sigalrm = 14

abbrev pub sigchld : ℕ
sigchld = 17

abbrev pub sigstop : ℕ
sigstop = 19

-- `_S(nr)`: the bit of a signal in a mask.
abbrev pub sig_bit : ℕ → ℕ
sig_bit nr = 2 ^ (nr - 1)

-- `_BLOCKABLE`
abbrev pub blockable : ℕ
blockable = bit_not (bit_or (sig_bit sigkill) (sig_bit sigstop))
