-- ===== src/Kernel/Exit/Wait.antt =====
-- `sys_waitpid`: which child it reports.
use linux.Base.{
  ℕ, zero, suc, ◌≤◌, ◌≡◌, refl, ap, ◌∙◌, ◌≢◌, inl, inr, Bool, true, false, arith, not,
  if◌then◌else◌, Bool-cases,
}
use native.Mathlib.Decide.{ℕ_discrete}
use linux.Base.Int.{ℤ}
use linux.Kernel.Task.{Tasks, TaskState, running, interruptible, uninterruptible, zombie, stopped}
use linux.Kernel.Exit.{
  Found, stopped_child, zombie_child, no_child, is_waited_for, wait_scan, has_option, wuntraced,
}

abbrev pub state_in : Tasks → ℕ → TaskState
state_in s i = (s.struct_at (s.task i)).state

-- A waited-for child that the loop does not report.
pub record IsPassed (options : ℕ) (flag : Bool) (state : TaskState) : Type 0 where
  pub no_zombie : state ≢ zombie
  pub all_stopped : flag ≡ false → (state ≡ stopped) × (has_option options wuntraced ≡ false)

true-ne-false : {b : Bool} → b ≡ true → b ≡ false → ⊥
true-ne-false p q = cc

-- What may be said of the children in the slots 1, …, `n` when the loop over them ends.
abbrev pub Reports : ℤ → ℕ → Tasks → ℕ → Found → Type 0
Reports pid options s n (stopped_child i) =
    (1 ≤ i)
    × (i ≤ n)
    × (is_waited_for pid s i ≡ true)
    × (state_in s i ≡ stopped)
    × (has_option options wuntraced ≡ true)
Reports pid options s n (zombie_child i) =
    (1 ≤ i) × (i ≤ n) × (is_waited_for pid s i ≡ true) × (state_in s i ≡ zombie)
Reports pid options s n (no_child flag) =
    (i : ℕ) → 1 ≤ i → i ≤ n → is_waited_for pid s i ≡ true → IsPassed options flag (state_in s i)

Reports-suc :
    (pid : ℤ) (options n : ℕ) (s : Tasks) (found : Found)
    → ((flag : Bool)
        → found ≡ no_child flag
        → is_waited_for pid s (suc n) ≡ true
        → IsPassed options flag (state_in s (suc n)))
    → Reports pid options s n found
    → Reports pid options s (suc n) found
Reports-suc pid options n s (stopped_child i) h r = (r.0, omega arith, r.2, r.3, r.4)
Reports-suc pid options n s (zombie_child i) h r = (r.0, omega arith, r.2, r.3)
Reports-suc pid options n s (no_child flag) h r = λ i l u w. elim (ℕ_discrete i (suc n)) [
  | yes e ↦ rw e (h flag refl (rw e at w))
  | no ne ↦ r i l (omega arith) w
]

-- Once a child is known to run, the loop does not forget it.
wait_scan_alive :
    (pid : ℤ) (options n : ℕ) (s : Tasks) → wait_scan pid options s n true ≢ no_child false
unfolding wait_scan
wait_scan_alive pid options zero s e = cc
wait_scan_alive pid options (suc n) s e = ground (arith, wait_scan_alive pid options n s)

module _ (pid : ℤ) (options n : ℕ) (s : Tasks) (pass alive : Found) where
  -- The verdict on slot `n + 1`, given those on the slots below it.
  verdict : Bool → TaskState → Found
  verdict waited state = if not waited then pass else elim state [
    | stopped ↦ if has_option options wuntraced then stopped_child (suc n) else pass
    | zombie ↦ zombie_child (suc n)
    | _ ↦ alive
  ]

  still_alive :
      (state : TaskState)
      → state_in s (suc n) ≡ state
      → state ≢ zombie
      → alive ≢ no_child false
      → Reports pid options s n alive
      → Reports pid options s (suc n) alive
  still_alive state e nz na r =
      Reports-suc pid options n s alive
        (λ flag is w. record {
          no_zombie = rw e nz;
          all_stopped = λ f. absurd (na (is ∙ ap no_child f));
        })
        r

  verdict-Reports :
      (waited : Bool) (state : TaskState)
      → is_waited_for pid s (suc n) ≡ waited
      → state_in s (suc n) ≡ state
      → alive ≢ no_child false
      → Reports pid options s n pass
      → Reports pid options s n alive
      → Reports pid options s (suc n) (verdict waited state)
  unfolding verdict
  verdict-Reports false state ew es na rp ra =
      Reports-suc pid options n s pass (λ flag is w. absurd (true-ne-false w ew)) rp
  verdict-Reports true running ew es na rp ra = still_alive running es (λ e. cc) na ra
  verdict-Reports true interruptible ew es na rp ra = still_alive interruptible es (λ e. cc) na ra
  verdict-Reports true uninterruptible ew es na rp ra =
      still_alive uninterruptible es (λ e. cc) na ra
  verdict-Reports true zombie ew es na rp ra = (omega arith, omega arith, ew, es)
  verdict-Reports true stopped ew es na rp ra = elim (Bool-cases (has_option options wuntraced)) [
    | inl o ↦ rw o (omega arith, omega arith, ew, es, o)
    | inr o ↦ rw o (
        Reports-suc pid options n s pass
          (λ flag is w. record { no_zombie = rw es (λ e. cc); all_stopped = λ f. (es, o) }) rp)
  ]

-- The loop of `sys_waitpid` reports a waited-for child that is a zombie, or, with WUNTRACED, one that
-- is stopped; if it reports none, no waited-for child is a zombie, and if it also says that none
-- runs, which is the case of ECHILD, all waited-for children are stopped and not asked for.
pub wait_scan-Reports :
    (pid : ℤ) (options n : ℕ) (s : Tasks) (flag : Bool)
    → Reports pid options s n (wait_scan pid options s n flag)
unfolding wait_scan verdict
wait_scan-Reports pid options zero s flag = λ i l u. absurd (omega arith)
wait_scan-Reports pid options (suc n) s flag =
    verdict-Reports pid options n s (wait_scan pid options s n flag)
      (wait_scan pid options s n true) (is_waited_for pid s (suc n)) (state_in s (suc n)) refl refl
      (wait_scan_alive pid options n s) (wait_scan-Reports pid options n s flag)
      (wait_scan-Reports pid options n s true)
