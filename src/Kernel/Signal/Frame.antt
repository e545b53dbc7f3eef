-- ===== src/Kernel/Signal/Frame.antt =====
-- The frame that `do_signal` builds, word by word.
use linux.Base.{
  ℕ, ◌+◌, ◌-◌, ◌^◌, ◌≤◌, ◌<◌, ◌≡◌, refl, ◌≢◌, ◌⊎◌, inl, inr, true, false, arith, if◌then◌else◌,
  Bool-cases,
}
use linux.Kernel.Task.{Sigaction, Tasks, current_task}
use linux.Kernel.Signal.{
  Registers, Delivery, ignored, terminated, handled, put_frame, frame_longs, lower_esp, has_flag,
  sa_nomask, do_signal,
}

-- What a handler finds from its stack pointer on: where to return to, the signal's number, the old
-- mask (unless the action is SA_NOMASK, where `gap` is 0 and not 4), and the saved registers.
pub record IsFrame (sa : Sigaction) (signr blocked : ℕ) (regs : Registers) (esp gap : ℕ)
    (mem mem' : ℕ → ℕ) : Type 0 where
  pub restorer : mem' esp ≡ sa.sa_restorer
  pub number : mem' (esp + 4) ≡ signr
  pub mask : gap ≢ 0 → mem' (esp + 8) ≡ blocked
  pub eax : mem' (esp + 8 + gap) ≡ regs.eax
  pub ecx : mem' (esp + 12 + gap) ≡ regs.ecx
  pub edx : mem' (esp + 16 + gap) ≡ regs.edx
  pub eflags : mem' (esp + 20 + gap) ≡ regs.eflags
  pub eip : mem' (esp + 24 + gap) ≡ regs.eip
  pub top : esp + 28 + gap ≡ regs.esp
  pub others : (a : ℕ) → (a < esp) ⊎ (regs.esp ≤ a) → mem' a ≡ mem a

put_frame-IsFrame_nomask :
    (sa : Sigaction) (signr blocked : ℕ) (regs : Registers) (mem : ℕ → ℕ) (esp : ℕ)
    → has_flag sa.sa_flags sa_nomask ≡ true
    → esp + 28 ≡ regs.esp
    → regs.esp < 2 ^ 32
    → IsFrame sa signr blocked regs esp 0 mem (put_frame sa signr blocked regs esp mem)
unfolding put_frame
put_frame-IsFrame_nomask sa signr blocked regs mem esp f e b = record {
  restorer = ground arith;
  number = ground arith;
  mask = λ h. absurd (h refl);
  eax = ground arith;
  ecx = ground arith;
  edx = ground arith;
  eflags = ground arith;
  eip = ground arith;
  top = omega arith;
  others = λ a o. ground arith;
}

put_frame-IsFrame_mask :
    (sa : Sigaction) (signr blocked : ℕ) (regs : Registers) (mem : ℕ → ℕ) (esp : ℕ)
    → has_flag sa.sa_flags sa_nomask ≡ false
    → esp + 32 ≡ regs.esp
    → regs.esp < 2 ^ 32
    → IsFrame sa signr blocked regs esp 4 mem (put_frame sa signr blocked regs esp mem)
unfolding put_frame
put_frame-IsFrame_mask sa signr blocked regs mem esp f e b = record {
  restorer = ground arith;
  number = ground arith;
  mask = λ h. ground arith;
  eax = ground arith;
  ecx = ground arith;
  edx = ground arith;
  eflags = ground arith;
  eip = ground arith;
  top = omega arith;
  others = λ a o. ground arith;
}

do_signal-handled :
    (signr : ℕ) (regs : Registers) (mem : ℕ → ℕ) (s : Tasks)
    → let sa = (current_task s).sigaction (signr - 1) in
      2 ≤ sa.sa_handler
      → let esp = lower_esp regs.esp (frame_longs sa) in
        (do_signal signr regs mem s).0
        ≡ handled sa.sa_handler esp (put_frame sa signr (current_task s).blocked regs esp mem)
unfolding do_signal
do_signal-handled signr regs mem s h = ground arith

-- The end of the delivery: where the handler starts, its stack, and the memory with the frame.
abbrev pub HasFrame : Sigaction → ℕ → ℕ → Registers → (ℕ → ℕ) → Delivery → Type 0
HasFrame sa signr blocked regs mem ignored = ⊥
HasFrame sa signr blocked regs mem (terminated code) = ⊥
HasFrame sa signr blocked regs mem (handled eip esp mem') =
    (eip ≡ sa.sa_handler)
    × IsFrame sa signr blocked regs esp (if has_flag sa.sa_flags sa_nomask then 0 else 4) mem mem'

has_frame :
    (sa : Sigaction) (signr blocked : ℕ) (regs : Registers) (mem : ℕ → ℕ)
    → 32 ≤ regs.esp
    → regs.esp < 2 ^ 32
    → let esp = lower_esp regs.esp (frame_longs sa) in
      HasFrame sa signr blocked regs mem
        (handled sa.sa_handler esp (put_frame sa signr blocked regs esp mem))
has_frame sa signr blocked regs mem l b = elim (Bool-cases (has_flag sa.sa_flags sa_nomask)) [
  | inl f ↦ rw f (refl, put_frame-IsFrame_nomask sa signr blocked regs mem _ f (omega arith) b)
  | inr f ↦ rw f (refl, put_frame-IsFrame_mask sa signr blocked regs mem _ f (omega arith) b)
]

-- With a stack pointer of 32 bits that is at least 32, a signal with a handler starts the handler on a frame that holds, from its stack pointer up, the
-- restorer, the signal number, the old mask unless the action is SA_NOMASK, and the interrupted
-- registers; the frame ends at the old stack pointer, and no other word of memory changes.
pub do_signal-HasFrame :
    (signr : ℕ) (regs : Registers) (mem : ℕ → ℕ) (s : Tasks)
    → 2 ≤ ((current_task s).sigaction (signr - 1)).sa_handler
    → 32 ≤ regs.esp
    → regs.esp < 2 ^ 32
    → HasFrame
        ((current_task s).sigaction (signr - 1))
        signr
        (current_task s).blocked
        regs
        mem
        (do_signal signr regs mem s).0
do_signal-HasFrame signr regs mem s h l b =
    rw (do_signal-handled signr regs mem s h) (
      has_frame ((current_task s).sigaction (signr - 1)) signr (current_task s).blocked regs mem l
        b)
