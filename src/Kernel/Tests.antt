-- ===== src/Kernel/Tests.antt =====
-- The kernel's parts at a small task table.
use linux.Base.{
  ◌-◌, inl, max, Returns, ℕ, List, true, false, ◌≢◌, inl, ◌≡◌, refl, ◌==◌, if◌then◌else◌, [], ◌∷◌,
  arith, Returns,
}
use linux.Base.Int.{pos, negsuc, neg}
use linux.Base.Bits.{bit}
use linux.Base.Loops.{find_up}
use linux.Kernel.Sched.{wake_on_signal}
use linux.Kernel.Signal.{Registers, do_signal}
use linux.Kernel.Signal.Mask.{do_signal-blocks_sigkill}
use linux.Kernel.Signal.Frame.{HasFrame, do_signal-HasFrame}
use linux.Kernel.Sys.{
  esrch, has_pid, set_ruid, set_euid, set_rgid, set_egid, setreuid_task, setregid_task, sys_setpgid,
}
use linux.Kernel.Sys
use linux.Kernel.Exit.{sys_kill, wait_scan}
use linux.Kernel.Exit.Kill.{sys_kill-sends, sys_kill-minus_one}
use linux.Kernel.Exit.Wait.{Reports, wait_scan-Reports}
use linux.Kernel.Fork.{find_empty_process}
use linux.Kernel.Fork.Pid.{FindsSlot, find_empty_process-FindsSlot}
use linux.Fs.Buffer.{BufferHead, Cache}
use linux.Kernel.Block.{Request, Blocks, Devices, add_request}
use linux.Kernel.Block.Elevator.{
  IsQueue, IsNew, Ascending, prepared, add_request-IsQueue, add_request-Ascending,
}
use linux.Kernel.Examples.{some_task, three_tasks}
use linux.Kernel.Task.{Sigaction}
use linux.Kernel.Signal.{sys_sigaction}
use linux.Kernel.Task.{Task, Tasks, running, interruptible, zombie, current_task, modify}
use linux.Kernel.Sched.{schedule}
use linux.Kernel.Sched.Pick.{IsChoice, AllHavePriority, schedule-IsChoice}
use linux.Kernel.Sched.Queue.{AreAwake, sleep_in_turn, sleep_in_turn-AreAwake}

three_tasks-AllHavePriority : AllHavePriority three_tasks
three_tasks-AllHavePriority i live = ground arith

schedule-IsChoice_example :
    Returns
      (λ s'. (next : ℕ) × (s'.current ≡ s'.task next) × IsChoice next s')
      (schedule three_tasks)
schedule-IsChoice_example = schedule-IsChoice three_tasks three_tasks-AllHavePriority

sleep_in_turn-AreAwake_example :
    Returns (AreAwake 0 (2000 ∷ 3000 ∷ [])) (sleep_in_turn 77 (2000 ∷ 3000 ∷ []) three_tasks)
sleep_in_turn-AreAwake_example =
    sleep_in_turn-AreAwake 77 (2000 ∷ 3000 ∷ []) three_tasks (omega arith)
      three_tasks-AllHavePriority ((omega arith, omega arith), ((omega arith, omega arith), tt))

-- A task that sleeps, with an alarm at 400 and nothing else pending.
abbrev sleeper : Task
sleeper = record some_task { state = interruptible; signal = 0; alarm = 400 }

woken_by_alarm : (wake_on_signal 500 sleeper).state ≡ running
unfolding wake_on_signal
woken_by_alarm = refl

-- A task with a handler for every signal, whose mask has the bit of SIGKILL.
abbrev catching : Tasks
catching =
    modify 1000
      (λ t. record t {
        sigaction = λ _. record {
          sa_handler = 0x5000;
          sa_mask = 0x100;
          sa_flags = 0;
          sa_restorer = 0x6000;
        };
      })
      three_tasks

abbrev some_registers : Registers
some_registers = record { eax = 1; ecx = 2; edx = 3; eip = 0x1234; eflags = 0x202; esp = 0x8000 }

do_signal-HasFrame_example :
    HasFrame
      ((current_task catching).sigaction 16)
      17
      0
      some_registers
      (λ a. a)
      (do_signal 17 some_registers (λ a. a) catching).0
do_signal-HasFrame_example =
    do_signal-HasFrame 17 some_registers (λ a. a) catching (omega arith) (omega arith) (omega arith)

sigkill_in_mask : bit 8 0x100 ≡ 1
unfolding bit
sigkill_in_mask = refl

-- `sigaction` for SIGCHLD, with a handler and a mask of SIGKILL.
abbrev catch_child : Sigaction
catch_child = record { sa_handler = 0x5000; sa_mask = 0x100; sa_flags = 0; sa_restorer = 0x6000 }

do_signal-blocks_sigkill_example :
    let s' = (sys_sigaction (pos 17) catch_child 0 three_tasks).2 in
    bit 8 (current_task (do_signal 17 some_registers (λ a. a) s').1).blocked
    ≡ max (bit 8 (current_task three_tasks).blocked) (if 8 == 17 - 1 then 1 else bit 8 0x100)
do_signal-blocks_sigkill_example =
    do_signal-blocks_sigkill 17 8 catch_child 0 some_registers (λ a. a) three_tasks (omega arith)
      (omega arith) (omega arith) (omega arith) refl

refused_user : (setreuid_task (pos 7) (pos 9) some_task).0 ≡ neg (pos Sys.eperm)
unfolding setreuid_task set_ruid set_euid
refused_user = refl

refused_group : (setregid_task (pos 8) (pos 9) some_task).0 ≡ neg (pos Sys.eperm)
unfolding setregid_task set_rgid set_egid
refused_group = refl

group_set : (sys_setpgid (pos 6) (pos 0) three_tasks).0 ≡ pos 0
unfolding sys_setpgid find_up
group_set = refl

no_such_task : (sys_setpgid (pos 42) (pos 0) three_tasks).0 ≡ neg (pos esrch)
unfolding sys_setpgid find_up
no_such_task = refl

-- The idle task is the superuser's here.
abbrev as_root : Tasks
as_root = modify 1000 (λ t. record t { euid = 0 }) three_tasks

sys_kill-sends_example : bit 14 ((sys_kill (pos 6) (pos 15) as_root).1.struct_at 3000).signal ≡ 1
sys_kill-sends_example =
    sys_kill-sends 6 14 2 as_root (omega arith) (omega arith) refl (omega arith) (omega arith)
      ((omega arith), refl)

sys_kill-minus_one_example : (sys_kill (negsuc 0) (pos 15) as_root).0 ≢ pos 0
sys_kill-minus_one_example = sys_kill-minus_one (pos 15) 5 as_root (omega arith) (omega arith) refl

-- The task in slot 2 is a zombie, and a child of the current task.
abbrev with_zombie : Tasks
with_zombie = modify 3000 (λ t. record t { state = zombie; father = pos 5 }) three_tasks

wait_scan-Reports_example :
    Reports (negsuc 0) 0 with_zombie 63 (wait_scan (negsuc 0) 0 with_zombie 63 false)
wait_scan-Reports_example = wait_scan-Reports (negsuc 0) 0 63 with_zombie false

find_empty_process-FindsSlot_example :
    Returns (FindsSlot three_tasks) (find_empty_process 65 three_tasks)
find_empty_process-FindsSlot_example = find_empty_process-FindsSlot three_tasks (omega arith)

abbrev some_request : Request
some_request = record {
  dev = pos 0x301;
  cmd = 0;
  errors = 0;
  sector = 10;
  nr_sectors = 2;
  buffer = 0;
  waiting = 0;
  bh = 0;
  next = 0;
}

abbrev no_buffer : BufferHead
no_buffer = record {
  b_data = λ _. 0;
  b_blocknr = 0;
  b_dev = 0;
  b_uptodate = false;
  b_dirt = false;
  b_count = 0;
  b_lock = false;
  b_prev = 0;
  b_next = 0;
  b_prev_free = 0;
  b_next_free = 0;
}

abbrev no_buffers : Cache
no_buffers = record {
  head = λ _. no_buffer;
  hash_table = λ _. 0;
  free_list = 0;
  start_buffer = 0;
  nr_buffers = 0;
}

-- Two requests are queued, for the sectors 10 and 30; a third, for sector 20, is to come.
abbrev two_requests : Blocks
two_requests = record {
  request = λ p.
      if p == 1
      then record some_request { next = 2 }
      else if p == 2
      then record some_request { sector = 30 }
      else record some_request { sector = 20 };
  current_request = λ _. 1;
  has_driver = λ _. true;
  cache = no_buffers;
}

abbrev idle_devices : Devices
idle_devices = record { request_fn = λ _ b. b; until_unlocked = λ _ b. b; until_request = λ _ b. b }

two_requests-IsQueue : IsQueue two_requests 3 1 (2 ∷ [])
two_requests-IsQueue = record {
  head = refl;
  chain = (refl, (omega arith), (refl, (omega arith), refl));
}

third-IsNew : IsNew 3 1 (2 ∷ [])
third-IsNew = record {
  not_null = omega arith;
  not_head = omega arith;
  not_in = (omega arith, tt);
  distinct = ((omega arith, tt), (tt, tt));
  size = omega arith;
}

add_request-IsQueue_example : IsQueue (add_request idle_devices 3 3 two_requests) 3 1 (3 ∷ 2 ∷ [])
add_request-IsQueue_example =
    add_request-IsQueue idle_devices 3 3 1 (2 ∷ []) two_requests two_requests-IsQueue third-IsNew

add_request-Ascending_example :
    (ys : List ℕ) × IsQueue (add_request idle_devices 3 3 two_requests) 3 1 ys
    × Ascending (prepared 3 two_requests) 1 ys
add_request-Ascending_example =
    add_request-Ascending idle_devices 3 3 1 (2 ∷ []) two_requests two_requests-IsQueue third-IsNew
      refl (inl refl, tt) (refl, tt)
