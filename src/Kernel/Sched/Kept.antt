-- ===== src/Kernel/Sched/Kept.antt =====
-- What `schedule` leaves as it was.
use linux.Base.{ℕ, zero, suc, ◌≡◌, refl, Option, none, some, arith, returns, Returns, Returns->>=}
use linux.Base.Loops.{for_down_inv}
use linux.Kernel.Task.{Tasks, last_slot}
use linux.Kernel.Sched.{
  schedule, choose, find_next, recharge, recharge_body, check_signals, signal_body, switch_to,
}
use linux.Kernel.Sched.Pick.{
  AllHavePriority, InRange, IsChoice, recharge_body-InRange, recharge-IsRecharged,
  check_signals-IsSignalled, check_signals-HavePriority, choose-IsChoice,
}

-- The queues and the idle task are as they were, and priorities and counters are in range.
pub record IsKept (s s' : Tasks) : Type 0 where
  pub same_queue : (q : ℕ) → s'.queue q ≡ s.queue q
  pub same_idle : s'.init_task ≡ s.init_task
  pub priorities : AllHavePriority s'

-- The fields that the loops of `schedule` do not touch.
abbrev SameQueues : Tasks → Tasks → Type 0
SameQueues s s' = ((q : ℕ) → s'.queue q ≡ s.queue q) × (s'.init_task ≡ s.init_task)

signal_body-SameQueues : (i : ℕ) (s s' : Tasks) → SameQueues s s' → SameQueues s (signal_body i s')
unfolding signal_body
signal_body-SameQueues i s s' (a, b) = (λ q. ground (arith, a q), ground (arith, b))

recharge_body-SameQueues :
    (i : ℕ) (s s' : Tasks) → SameQueues s s' → SameQueues s (recharge_body i s')
unfolding recharge_body
recharge_body-SameQueues i s s' (a, b) = (λ q. ground (arith, a q), ground (arith, b))

check_signals-IsKept : (s : Tasks) → AllHavePriority s → IsKept s (check_signals s)
unfolding check_signals
check_signals-IsKept s h =
    let (a, b) =
      for_down_inv (SameQueues s) signal_body (λ i t r. signal_body-SameQueues i s t r) last_slot s
        (λ q. refl, refl) in
    let same = check_signals-IsSignalled s in
    record {
      same_queue = a;
      same_idle = b;
      priorities = λ i live.
          let e = same.same_task i in
          rw e
            (rw (same.same_priority (s.task i), same.same_counter (s.task i)) (h i (rw e at live)));
    }

recharge-IsKept : (s₀ s : Tasks) → IsKept s₀ s → IsKept s₀ (recharge s)
unfolding recharge
recharge-IsKept s₀ s k =
    let (a, b) =
      for_down_inv (SameQueues s₀) recharge_body (λ i t r. recharge_body-SameQueues i s₀ t r)
        last_slot s (k.same_queue, k.same_idle) in
    let same = recharge-IsRecharged s in
    record {
      same_queue = a;
      same_idle = b;
      priorities = λ i live.
          let e = same.same_task i in
          let (p, range) = k.priorities i (rw e at live) in
          let range' =
            for_down_inv (λ s'. InRange (s'.struct_at (s.task i))) recharge_body
              (λ j t r. recharge_body-InRange j (s.task i) t r) last_slot s range in
          rw e (omega (arith, p, same.same_priority (s.task i)), range');
    }

choose_step :
    (fuel : ℕ) (s₀ s : Tasks) (found : Option ℕ × ℕ)
    → find_next s ≡ found
    → IsKept s₀ s
    → ((s : Tasks)
        → IsKept s₀ s
        → Returns (λ (next, s'). IsChoice next s') (choose fuel s)
        → Returns (λ (next, s'). IsKept s₀ s') (choose fuel s))
    → Returns (λ (next, s'). IsChoice next s') (choose (suc fuel) s)
    → Returns (λ (next, s'). IsKept s₀ s') (choose (suc fuel) s)
unfolding choose
choose_step fuel s₀ s (none, next) e k rest h = rw (e, choose) k
choose_step fuel s₀ s (some zero, next) e k rest h =
    rw (e, choose) (rest (recharge s) (recharge-IsKept s₀ s k) (rw (e, choose) at h))
choose_step fuel s₀ s (some (suc c), next) e k rest h = rw (e, choose) k

choose-IsKept :
    (fuel : ℕ) (s₀ s : Tasks)
    → IsKept s₀ s
    → Returns (λ (next, s'). IsChoice next s') (choose fuel s)
    → Returns (λ (next, s'). IsKept s₀ s') (choose fuel s)
unfolding choose
choose-IsKept zero s₀ s k h = absurd h
choose-IsKept (suc fuel) s₀ s k h =
    choose_step fuel s₀ s (find_next s) refl k (λ s'. choose-IsKept fuel s₀ s') h

switched-IsKept : (s₀ : Tasks) (next : ℕ) (s : Tasks) → IsKept s₀ s → IsKept s₀ (switch_to next s)
unfolding switch_to
switched-IsKept s₀ next s k = record {
  same_queue = k.same_queue;
  same_idle = k.same_idle;
  priorities = k.priorities;
}

-- With priorities and counters in range, `schedule` returns, keeps the queues, and keeps these in
-- range.
pub schedule-IsKept : (s : Tasks) → AllHavePriority s → Returns (IsKept s) (schedule s)
unfolding schedule
schedule-IsKept s h =
    let s₁ = check_signals s in
    Returns->>= (λ (next, s'). IsKept s s') (IsKept s) (choose 2 s₁)
      (λ (next, s'). returns (switch_to next s'))
      (choose-IsKept 2 s s₁ (check_signals-IsKept s h)
        (choose-IsChoice s₁ (check_signals-HavePriority s h)))
      (λ (next, s') k. switched-IsKept s next s' k)
