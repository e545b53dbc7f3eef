-- ===== src/Kernel/Signal/Mask.antt =====
-- SIGKILL and the masks.
use linux.Base.{
  ℕ, ◌-◌, ◌^◌, ◌≤◌, ◌<◌, ◌≡◌, refl, ◌∙◌, ◌≢◌, ◌⊎◌, false, arith, bit_and, ◌==◌, max, if◌then◌else◌,
}
use native.Mathlib.Decide.{ℕ_discrete}
use linux.Base.Bits.{
  bit, bit_not, bit-bit_and, bit-bit_or, bit-bit_not, bit-pow_self, bit-pow_ne, bit-le_one,
}
use linux.Base.Int.{ℤ, pos}
use linux.Kernel.Task.{
  Sigaction, Task, Tasks, current_task, sigkill, sigstop, sigalrm, sig_bit, blockable,
}
use linux.Kernel.Signal.{
  has_flag, sa_nomask, sys_ssetmask, sys_signal, sys_sigaction, Registers, do_signal,
}

bit-pow : (n k : ℕ) → bit n (2 ^ k) ≡ (if n == k then 1 else 0)
bit-pow n k = elim (ℕ_discrete n k) [
  | yes e ↦ rw e (bit-pow_self k ∙ ground arith)
  | no ne ↦ bit-pow_ne n k ne ∙ ground arith
]

-- `sys_ssetmask` sets exactly the mask that was asked for, less SIGKILL: bit by bit.
sys_ssetmask-bit :
    (newmask n : ℕ) (s : Tasks)
    → n < 32
    → bit n (current_task (sys_ssetmask newmask s).1).blocked
      ≡ (if n == sigkill - 1 then 0 else bit n newmask)
unfolding sys_ssetmask
sys_ssetmask-bit newmask n s l = ground (
  arith,
  bit-bit_and n newmask (bit_not (sig_bit sigkill)),
  bit-bit_not n (sig_bit sigkill) l (omega arith),
  bit-pow n 8,
  bit-le_one n newmask,
)

-- A signal that ends the wait of a task: it is pending, and it is not blocked or cannot be.
abbrev pub IsDeliverable : Task → ℕ → Type 0
IsDeliverable t n =
    (n < 32)
    × (bit n t.signal ≡ 1)
    × ((bit n t.blocked ≡ 0) ⊎ (n ≡ sigkill - 1) ⊎ (n ≡ sigstop - 1))

-- `signal & ~(_BLOCKABLE & blocked)`
abbrev pending : Task → ℕ
pending t = bit_and t.signal (bit_not (bit_and blockable t.blocked))

-- Signal `n + 1` is pending at a time: it is in the mask, or it is SIGALRM and the alarm of the task
-- has expired.
abbrev pub IsPending : (jiffies : ℕ) → Task → (n : ℕ) → Type 0
IsPending jiffies t n =
    (bit n t.signal ≡ 1) ⊎ ((n ≡ sigalrm - 1) × (t.alarm ≢ 0) × (t.alarm < jiffies))

-- Such a signal gets through the mask of the task.
abbrev pub IsAwaited : (jiffies : ℕ) → Task → (n : ℕ) → Type 0
IsAwaited jiffies t n =
    (n < 32)
    × IsPending jiffies t n
    × ((bit n t.blocked ≡ 0) ⊎ (n ≡ sigkill - 1) ⊎ (n ≡ sigstop - 1))

-- No call of `sys_signal` or `sys_sigaction` changes what SIGKILL does to the task.
sigkill_action_kept :
    (signum : ℤ) (handler restorer oldaction : ℕ) (action : Sigaction) (s : Tasks)
    → let kept = (current_task s).sigaction (sigkill - 1) in
      ((current_task (sys_signal signum handler restorer s).1).sigaction (sigkill - 1) ≡ kept)
      × ((current_task (sys_sigaction signum action oldaction s).2).sigaction (sigkill - 1) ≡ kept)
unfolding sys_signal sys_sigaction
sigkill_action_kept signum handler restorer oldaction action s = (ground arith, ground arith)

handled_mask :
    (n signr : ℕ) (regs : Registers) (mem : ℕ → ℕ) (s : Tasks)
    → 2 ≤ ((current_task s).sigaction (signr - 1)).sa_handler
    → let t = current_task s in
      bit n (current_task (do_signal signr regs mem s).1).blocked
      ≡ max (bit n t.blocked) (bit n (t.sigaction (signr - 1)).sa_mask)
unfolding do_signal
handled_mask n signr regs mem s h =
    let sa = (current_task s).sigaction (signr - 1) in
    ground (arith, bit-bit_or n (current_task s).blocked sa.sa_mask)

set_mask :
    (n signum : ℕ) (action : Sigaction) (old : ℕ) (s : Tasks)
    → 1 ≤ signum
    → signum ≤ 32
    → signum ≢ sigkill
    → has_flag action.sa_flags sa_nomask ≡ false
    → let sa = (current_task (sys_sigaction (pos signum) action old s).2).sigaction (signum - 1) in
      (sa.sa_handler ≡ action.sa_handler)
      × (bit n sa.sa_mask ≡ (if n == signum - 1 then 1 else bit n action.sa_mask))
unfolding sys_sigaction
set_mask n signum action old s a b c f = (
  ground (arith, a, b, c, f),
  ground (
    arith,
    a,
    b,
    c,
    f,
    bit-bit_or n action.sa_mask (2 ^ (signum - 1)),
    bit-pow n (signum - 1),
    bit-le_one n action.sa_mask,
  ),
)

blocked-sys_sigaction :
    (signum : ℤ) (action : Sigaction) (old : ℕ) (s : Tasks)
    → (current_task (sys_sigaction signum action old s).2).blocked ≡ (current_task s).blocked
unfolding sys_sigaction
blocked-sys_sigaction signum action old s = ground arith

-- After `sigaction` has set a handler for a signal other than SIGKILL, without SA_NOMASK, the delivery
-- of that signal to the handler leaves blocked exactly what was blocked, what the mask given to
-- `sigaction` has, and the signal itself. SIGKILL is no exception: a mask with its bit blocks it.
pub do_signal-blocks_sigkill :
    (signum n : ℕ) (action : Sigaction) (old : ℕ) (regs : Registers) (mem : ℕ → ℕ) (s : Tasks)
    → 1 ≤ signum
    → signum ≤ 32
    → signum ≢ sigkill
    → 2 ≤ action.sa_handler
    → has_flag action.sa_flags sa_nomask ≡ false
    → let s' = (sys_sigaction (pos signum) action old s).2 in
      bit n (current_task (do_signal signum regs mem s').1).blocked
      ≡ max (bit n (current_task s).blocked) (if n == signum - 1 then 1 else bit n action.sa_mask)
do_signal-blocks_sigkill signum n action old regs mem s a b c h f =
    let s' = (sys_sigaction (pos signum) action old s).2 in
    let (same, mask) = set_mask n signum action old s a b c f in
    handled_mask n signum regs mem s' (omega (arith, same, h))
    ∙ rw (blocked-sys_sigaction (pos signum) action old s, mask) refl
