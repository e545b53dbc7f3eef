-- ===== src/Kernel/Signal.antt =====
-- kernel/signal.c: masks, handlers and the frame that `do_signal` builds on the user's stack.
-- User memory is the map of its words by address. `verify_area` (kernel/fork.c) makes the written
-- pages private and changes no word, so it does not show here.
pub mod Mask
pub mod Frame
use linux.Base.{
  ℕ, ◌+◌, ◌-◌, ◌*◌, ◌%◌, ◌^◌, Bool, true, false, Option, none, some, bit_and, bit_or, ltb, ◌==◌,
  not, ◌||◌, if◌then◌else◌, update,
}
use linux.Base.Bits.{bit_not}
use linux.Base.Int.{ℤ, pos, negsuc, pos_part, ltb_ℤ}
use linux.Kernel.Task.{Sigaction, Task, Tasks, current_task, modify, sigkill, sigchld, sig_bit}

unfoldable pub sys_sgetmask : Tasks → ℕ
sys_sgetmask s = (current_task s).blocked

-- The old mask, and the state with the new one.
unfoldable pub sys_ssetmask : ℕ → Tasks → ℕ × Tasks
sys_ssetmask newmask s = (
  (current_task s).blocked,
  modify s.current (λ t. record t { blocked = bit_and newmask (bit_not (sig_bit sigkill)) }) s,
)

abbrev pub sa_nomask : ℕ
sa_nomask = 0x40000000

abbrev pub sa_oneshot : ℕ
sa_oneshot = 0x80000000

-- `flags & flag`
abbrev pub has_flag : ℕ → ℕ → Bool
has_flag flags flag = not (bit_and flags flag == 0)

-- The signals whose action a task may not set: those out of range, and SIGKILL.
abbrev pub is_refused : ℤ → Bool
is_refused signum = ltb_ℤ signum (pos 1) || ltb_ℤ (pos 32) signum || pos_part signum == sigkill

abbrev pub set_action : ℕ → Sigaction → Task → Task
set_action i act t = record t { sigaction = update t.sigaction i act }

-- The old handler as the result, or -1.
unfoldable pub sys_signal : ℤ → ℕ → ℕ → Tasks → ℤ × Tasks
sys_signal signum handler restorer s =
    let i = pos_part signum - 1 in
    let tmp : Sigaction = record {
      sa_handler = handler;
      sa_mask = 0;
      sa_flags = bit_or sa_oneshot sa_nomask;
      sa_restorer = restorer;
    } in
    if is_refused signum
    then (negsuc 0, s)
    else (pos ((current_task s).sigaction i).sa_handler, modify s.current (set_action i tmp) s)

-- The mask that goes with an action read from the user: empty, or with the signal itself added.
abbrev pub with_own_bit : ℕ → Sigaction → Sigaction
with_own_bit signum act =
    if has_flag act.sa_flags sa_nomask
    then record act { sa_mask = 0 }
    else record act { sa_mask = bit_or act.sa_mask (sig_bit signum) }

-- `action` is what `get_new` copies in, byte by byte; the option is what `save_old` copies out, if
-- the caller asked for it. A structure is copied as one value.
unfoldable pub sys_sigaction :
    ℤ → Sigaction → (oldaction : ℕ) → Tasks → ℤ × Option Sigaction × Tasks
sys_sigaction signum action oldaction s =
    let i = pos_part signum - 1 in
    if is_refused signum then (negsuc 0, none, s) else (
      pos 0,
      (if oldaction == 0 then none else some ((current_task s).sigaction i)),
      modify s.current (set_action i (with_own_bit (pos_part signum) action)) s,
    )

-- The registers that the system call saved, as far as `do_signal` uses them.
pub record Registers : Type 0 where
  pub eax : ℕ
  pub ecx : ℕ
  pub edx : ℕ
  pub eip : ℕ
  pub eflags : ℕ
  pub esp : ℕ

pub data Delivery : Type 0 where
  -- the signal is dropped
  ignored : Delivery
  -- `do_exit` with this code
  terminated : ℕ → Delivery
  -- the new instruction and stack pointers, and user memory
  handled : ℕ → ℕ → (ℕ → ℕ) → Delivery

-- `put_fs_long(val, tmp_esp++)`
abbrev pub put_long : ℕ → ℕ → (ℕ → ℕ) → ℕ → ℕ
put_long val addr mem = update mem (addr % 2 ^ 32) val

-- The longs of the frame from `esp` on. `blocked` is pushed unless the action is SA_NOMASK.
unfoldable pub put_frame : Sigaction → ℕ → ℕ → Registers → ℕ → (ℕ → ℕ) → ℕ → ℕ
put_frame sa signr blocked regs esp mem =
    let numbered = put_long signr (esp + 4) (put_long sa.sa_restorer esp mem) in
    let nomask = has_flag sa.sa_flags sa_nomask in
    let masked = if nomask then numbered else put_long blocked (esp + 8) numbered in
    let tmp_esp = if nomask then esp + 8 else esp + 12 in
    put_long regs.eip (tmp_esp + 16) (
      put_long regs.eflags (tmp_esp + 12) (
        put_long regs.edx (tmp_esp + 8)
          (put_long regs.ecx (tmp_esp + 4) (put_long regs.eax tmp_esp masked))))

-- `longs` is 7 or 8, and the stack pointer moves by that many longs, modulo 2^32.
abbrev pub frame_longs : Sigaction → ℕ
frame_longs sa = if has_flag sa.sa_flags sa_nomask then 7 else 8

abbrev pub lower_esp : ℕ → ℕ → ℕ
lower_esp esp longs = (esp + 2 ^ 32 - 4 * longs) % 2 ^ 32

-- `if (sa->sa_flags & SA_ONESHOT) sa->sa_handler = NULL`
abbrev pub after_oneshot : Sigaction → Sigaction
after_oneshot sa = if has_flag sa.sa_flags sa_oneshot then record sa { sa_handler = 0 } else sa

unfoldable pub do_signal : ℕ → Registers → (ℕ → ℕ) → Tasks → Delivery × Tasks
unfolding put_frame
do_signal signr regs mem s =
    let sa = (current_task s).sigaction (signr - 1) in
    let esp = lower_esp regs.esp (frame_longs sa) in
    let blocked = (current_task s).blocked in
    if sa.sa_handler == 1
    then (ignored, s)
    else if sa.sa_handler == 0
    then (if signr == sigchld then (ignored, s) else (terminated (sig_bit signr), s))
    else (
      handled sa.sa_handler esp (put_frame sa signr blocked regs esp mem),
      modify s.current
          (λ t. record (set_action (signr - 1) (after_oneshot sa) t) {
            blocked = bit_or blocked sa.sa_mask;
          })
          s,
    )
