-- ===== src/Kernel/Examples.antt =====
-- A small task table for the tests.
use linux.Base.{Bool, ◌==◌, if◌then◌else◌}
use linux.Base.Int.{pos}
use linux.Kernel.Task.{Task, Tasks, running, Sigaction}

abbrev pub default_action : Sigaction
default_action = record { sa_handler = 0; sa_mask = 0; sa_flags = 0; sa_restorer = 0 }

-- A runnable task of user 7.
abbrev pub some_task : Task
some_task = record {
  state = running;
  counter = 3;
  priority = 15;
  signal = 0;
  sigaction = λ _. default_action;
  blocked = 0;
  exit_code = 0;
  start_code = 0x4000000;
  end_code = 0x1000;
  end_data = 0x2000;
  brk = 0x3000;
  start_stack = 0x3fff000;
  pid = pos 5;
  father = pos 1;
  pgrp = pos 5;
  session = pos 1;
  leader = Bool.false;
  uid = 7;
  euid = 7;
  suid = 7;
  gid = 8;
  egid = 8;
  sgid = 8;
  alarm = 0;
  utime = 0;
  stime = 0;
  cutime = 0;
  cstime = 0;
  start_time = 0;
  used_math = Bool.false;
  tty = pos 0;
  umask = 0o22;
  pwd = 0;
  root = 0;
  executable = 0;
  close_on_exec = 0;
  filp = λ _. 0;
  code_base = 0x4000000;
  code_limit = 0xa0000;
  data_base = 0x4000000;
  data_limit = 0xa0000;
}

-- The idle task and two more, the second of which has the larger counter.
abbrev pub three_tasks : Tasks
three_tasks = record {
  task = λ i. if i == 0 then 1000 else if i == 1 then 2000 else if i == 2 then 3000 else 0;
  struct_at = λ p. if p == 3000 then record some_task { counter = 9; pid = pos 6 } else some_task;
  current = 1000;
  init_task = 1000;
  queue = λ _. 0;
  jiffies = 500;
  startup_time = 0;
  last_task_used_math = 0;
  last_pid = 6;
}
