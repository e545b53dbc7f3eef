-- ===== src/Kernel/Sched/Pick.antt =====
-- Which task `schedule` chooses, and that it chooses one.
use linux.Base.{
  ℕ, zero, suc, ◌+◌, ◌%◌, ◌^◌, ◌/◌, ◌≤◌, ◌<◌, ◌≡◌, refl, sym, ap, ◌∙◌, ◌≢◌, ◌⊎◌, inl, inr, true,
  Option, none, some, arith, returns, Returns, Returns->>=,
}
use native.Mathlib.Decide.{ℕ_discrete}
use linux.Base.Loops.{for_down, for_down_inv}
use linux.Kernel.Task.{Task, Tasks, is_running, last_slot}
use linux.Kernel.Sched.{
  scan_step, find_next, halved, recharge_task, recharge_body, recharge, choose, switch_to,
  wake_on_signal, signal_body, check_signals, schedule,
}

-- The task in a slot can be given the processor. Slot 0, the idle task, is left out of the search.
abbrev pub IsRunnable : Tasks → ℕ → Type 0
IsRunnable s i =
    (1 ≤ i) × (i ≤ last_slot) × (s.task i ≢ 0) × (is_running (s.struct_at (s.task i)).state ≡ true)

abbrev pub counter_of : Tasks → ℕ → ℕ
counter_of s i = (s.struct_at (s.task i)).counter

-- `c`, as the running maximum of counters; `none` stands for -1.
abbrev AtMost : ℕ → Option ℕ → Type 0
AtMost n none = ⊥
AtMost n (some c) = n ≤ c

-- Both parts of an accumulator hold the slot of a runnable task and its counter, or the start.
abbrev IsFrom : Tasks → Option ℕ × ℕ → Option ℕ × ℕ → Type 0
IsFrom s acc acc' = (acc' ≡ acc) ⊎ (IsRunnable s acc'.1 × (acc'.0 ≡ some (counter_of s acc'.1)))

scan_step-keeps :
    (s : Tasks) (i n : ℕ) (acc : Option ℕ × ℕ) → AtMost n acc.0 → AtMost n (scan_step s i acc).0
scan_step-keeps s i n (none, next) h = absurd h
scan_step-keeps s i n (some c, next) h = ground arith

scan_step-reaches :
    (s : Tasks) (i : ℕ) (acc : Option ℕ × ℕ)
    → IsRunnable s i
    → counter_of s i < 2 ^ 31
    → AtMost (counter_of s i) (scan_step s i acc).0
scan_step-reaches s i (none, next) (l, u, live, run) b = ground arith
scan_step-reaches s i (some c, next) (l, u, live, run) b = ground arith

scan-keeps :
    (s : Tasks) (k n : ℕ) (acc : Option ℕ × ℕ)
    → AtMost n acc.0
    → AtMost n (for_down k (scan_step s) acc).0
unfolding for_down
scan-keeps s zero n acc h = h
scan-keeps s (suc k) n acc h =
    scan-keeps s k n (scan_step s (suc k) acc) (scan_step-keeps s (suc k) n acc h)

scan-reaches :
    (s : Tasks) (k i : ℕ) (acc : Option ℕ × ℕ)
    → IsRunnable s i
    → counter_of s i < 2 ^ 31
    → i ≤ k
    → AtMost (counter_of s i) (for_down k (scan_step s) acc).0
unfolding for_down
scan-reaches s zero i acc r b h = absurd (omega arith)
scan-reaches s (suc k) i acc r b h = elim (ℕ_discrete i (suc k)) [
  | yes e ↦
      scan-keeps s k (counter_of s i) (scan_step s (suc k) acc)
        (rw (← e) (scan_step-reaches s i acc r b))
  | no ne ↦ scan-reaches s k i (scan_step s (suc k) acc) r b (omega arith)
]

scan_step-IsFrom :
    (s : Tasks) (i : ℕ) (acc : Option ℕ × ℕ)
    → 1 ≤ i
    → i ≤ last_slot
    → IsFrom s acc (scan_step s i acc)
scan_step-IsFrom s i (none, next) l u = ground arith
scan_step-IsFrom s i (some c, next) l u = ground arith

scan-IsFrom :
    (s : Tasks) (k : ℕ) (acc : Option ℕ × ℕ)
    → k ≤ last_slot
    → IsFrom s acc (for_down k (scan_step s) acc)
unfolding for_down
scan-IsFrom s zero acc h = inl refl
scan-IsFrom s (suc k) acc h = elim (scan-IsFrom s k (scan_step s (suc k) acc) (omega arith)) [
  | inl e ↦ rw e (scan_step-IsFrom s (suc k) acc (omega arith) h)
  | inr found ↦ inr found
]

some-ne-none : {o : Option ℕ} {n : ℕ} → o ≡ some n → o ≡ none → ⊥
some-ne-none p q = cc

some-eq_of : {n m : ℕ} → some n ≡ some m → n ≡ m
some-eq_of p = cc

-- What the search of `schedule` finds: nothing to run, or the runnable task with the largest counter.
pub record IsBest (s : Tasks) (found : Option ℕ × ℕ) : Type 0 where
  pub none_found : found.0 ≡ none → (found.1 ≡ 0) × ((i : ℕ) → ¬ IsRunnable s i)
  pub some_found :
      (c : ℕ)
      → found.0 ≡ some c
      → IsRunnable s found.1
        × (c ≡ counter_of s found.1)
        × ((i : ℕ) → IsRunnable s i → counter_of s i ≤ c)

find_next-IsFrom : (s : Tasks) → IsFrom s (none, 0) (find_next s)
unfolding find_next
find_next-IsFrom s = scan-IsFrom s last_slot (none, 0) (omega arith)

find_next-reaches :
    (s : Tasks) (i : ℕ)
    → IsRunnable s i
    → counter_of s i < 2 ^ 31
    → AtMost (counter_of s i) (find_next s).0
unfolding find_next
find_next-reaches s i r b = scan-reaches s last_slot i (none, 0) r b r.1

-- No task that could run has a negative counter.
abbrev pub HaveCounter : Tasks → Type 0
HaveCounter s = (i : ℕ) → IsRunnable s i → counter_of s i < 2 ^ 31

pub find_next-IsBest : (s : Tasks) → HaveCounter s → IsBest s (find_next s)
find_next-IsBest s b = record {
  none_found = λ e. elim (find_next-IsFrom s) [
    | inl p ↦ (ap (λ a. a.1) p, λ i r. rw e at (find_next-reaches s i r (b i r)))
    | inr f ↦ absurd (some-ne-none f.1 e)
  ];
  some_found = λ c e. elim (find_next-IsFrom s) [
    | inl p ↦ absurd (some-ne-none e (ap (λ a. a.0) p))
    | inr f ↦ (f.0, some-eq_of (sym e ∙ f.1), λ i r. rw e at (find_next-reaches s i r (b i r)))
  ];
}

-- Recharging changes counters only, and leaves each at least at the priority.
pub record IsRecharged (s s' : Tasks) : Type 0 where
  pub same_task : (i : ℕ) → s'.task i ≡ s.task i
  pub same_state : (p : ℕ) → (s'.struct_at p).state ≡ (s.struct_at p).state
  pub same_priority : (p : ℕ) → (s'.struct_at p).priority ≡ (s.struct_at p).priority

recharge_body-IsRecharged :
    (i : ℕ) (s s' : Tasks) → IsRecharged s s' → IsRecharged s (recharge_body i s')
unfolding recharge_body
recharge_body-IsRecharged i s s' h = record {
  same_task = λ j. ground (arith, h.same_task j);
  same_state = λ p. ground (arith, h.same_state p, h.same_state (s'.task i));
  same_priority = λ p. ground (arith, h.same_priority p, h.same_priority (s'.task i));
}

-- A priority and a counter whose recharge does not wrap around, and the same once it was recharged.
abbrev pub InRange : Task → Type 0
InRange t = (t.priority ≤ 2 ^ 30) × (t.counter < 2 ^ 31)

abbrev IsFull : Task → Type 0
IsFull t = InRange t × (t.priority ≤ t.counter)

recharge_task-IsFull : (t : Task) → InRange t → IsFull (recharge_task t)
recharge_task-IsFull t (a, b) =
    let e : halved t.counter ≡ t.counter / 2 = ground (arith, b) in
    let sum : (halved t.counter + t.priority) % 2 ^ 32 ≡ t.counter / 2 + t.priority =
      omega (arith, e, a, b) in
    ((a, omega (arith, sum, a, b)), omega (arith, sum))

recharge_body-at :
    (i p : ℕ) (s : Tasks)
    → ((recharge_body i s).struct_at p ≡ s.struct_at p)
      ⊎ ((recharge_body i s).struct_at p ≡ recharge_task (s.struct_at p))
unfolding recharge_body
recharge_body-at i p s = elim (ℕ_discrete (s.task i) 0) [
  | yes z ↦ inl (ground (arith, z))
  | no live ↦ elim (ℕ_discrete p (s.task i)) [
    | yes e ↦ inr (ground (arith, live, e))
    | no ne ↦ inl (ground (arith, live, ne))
  ]
]

recharge_body_self :
    (i : ℕ) (s : Tasks)
    → s.task i ≢ 0
    → (recharge_body i s).struct_at (s.task i) ≡ recharge_task (s.struct_at (s.task i))
unfolding recharge_body
recharge_body_self i s live = ground (arith, live)

pub recharge_body-InRange :
    (i p : ℕ) (s : Tasks) → InRange (s.struct_at p) → InRange ((recharge_body i s).struct_at p)
recharge_body-InRange i p s h = elim (recharge_body-at i p s) [
  | inl e ↦ rw e h
  | inr e ↦ rw e (recharge_task-IsFull (s.struct_at p) h).0
]

recharge_body-keeps :
    (i p : ℕ) (s : Tasks) → IsFull (s.struct_at p) → IsFull ((recharge_body i s).struct_at p)
recharge_body-keeps i p s h = elim (recharge_body-at i p s) [
  | inl e ↦ rw e h
  | inr e ↦ rw e (recharge_task-IsFull (s.struct_at p) h.0)
]

recharge_body-reaches :
    (i : ℕ) (s : Tasks)
    → s.task i ≢ 0
    → InRange (s.struct_at (s.task i))
    → IsFull ((recharge_body i s).struct_at (s.task i))
recharge_body-reaches i s live h =
    let e : (recharge_body i s).struct_at (s.task i) ≡ recharge_task (s.struct_at (s.task i)) =
      recharge_body_self i s live in
    rw e (recharge_task-IsFull (s.struct_at (s.task i)) h)

recharge_loop-IsRecharged :
    (k : ℕ) (s s' : Tasks) → IsRecharged s s' → IsRecharged s (for_down k recharge_body s')
recharge_loop-IsRecharged k s s' h =
    for_down_inv (IsRecharged s) recharge_body (λ i t r. recharge_body-IsRecharged i s t r) k s' h

recharge_loop-keeps :
    (k p : ℕ) (s : Tasks)
    → IsFull (s.struct_at p)
    → IsFull ((for_down k recharge_body s).struct_at p)
recharge_loop-keeps k p s h =
    for_down_inv (λ s'. IsFull (s'.struct_at p)) recharge_body
      (λ i t r. recharge_body-keeps i p t r) k s h

IsRecharged-refl : (s : Tasks) → IsRecharged s s
IsRecharged-refl s = record {
  same_task = λ j. refl;
  same_state = λ p. refl;
  same_priority = λ p. refl;
}

recharge_loop-reaches :
    (k i : ℕ) (s : Tasks)
    → 1 ≤ i
    → i ≤ k
    → s.task i ≢ 0
    → InRange (s.struct_at (s.task i))
    → IsFull ((for_down k recharge_body s).struct_at (s.task i))
unfolding for_down
recharge_loop-reaches zero i s l u live b = absurd (omega arith)
recharge_loop-reaches (suc k) i s l u live b = elim (ℕ_discrete i (suc k)) [
  | yes e ↦
      recharge_loop-keeps k (s.task i) (recharge_body (suc k) s)
        (rw (← e) (recharge_body-reaches i s live b))
  | no ne ↦
      let same = (recharge_body-IsRecharged (suc k) s s (IsRecharged-refl s)).same_task i in
      rw (← same) (
        recharge_loop-reaches k i (recharge_body (suc k) s) l (omega arith) (rw same live)
          (rw same (recharge_body-InRange (suc k) (s.task i) s b)))
]

pub recharge-IsRecharged : (s : Tasks) → IsRecharged s (recharge s)
unfolding recharge
recharge-IsRecharged s = recharge_loop-IsRecharged last_slot s s (IsRecharged-refl s)

-- Every task that could run has a positive priority, and is in range.
abbrev pub HavePriority : Tasks → Type 0
HavePriority s =
    (i : ℕ)
    → IsRunnable s i
    → (0 < (s.struct_at (s.task i)).priority) × InRange (s.struct_at (s.task i))

recharge-reaches :
    (s : Tasks) (i : ℕ)
    → 1 ≤ i
    → i ≤ last_slot
    → s.task i ≢ 0
    → InRange (s.struct_at (s.task i))
    → IsFull ((recharge s).struct_at (s.task i))
unfolding recharge
recharge-reaches s i l u live b = recharge_loop-reaches last_slot i s l u live b

recharge-IsRunnable : (s : Tasks) (i : ℕ) → IsRunnable (recharge s) i → IsRunnable s i
recharge-IsRunnable s i (l, u, live, run) =
    let r = recharge-IsRecharged s in
    let e = r.same_task i in (l, u, rw e at live, rw (r.same_state (s.task i)) at (rw e at run))

-- After a recharge no task that could run is without time.
recharge-counter :
    (s : Tasks)
    → HavePriority s
    → (i : ℕ) → IsRunnable (recharge s) i
    → (0 < counter_of (recharge s) i) × (counter_of (recharge s) i < 2 ^ 31)
recharge-counter s h i r =
    let same = recharge-IsRecharged s in
    let e = same.same_task i in
    let r' = recharge-IsRunnable s i r in
    let ((a, b), full) = recharge-reaches s i r'.0 r'.1 r'.2 (h i r').1 in
    rw (e, counter_of) (omega (arith, full, same.same_priority (s.task i), (h i r').0), b)

-- The slot that `schedule` switches to, in the state in which it does so.
pub record IsChoice (next : ℕ) (s : Tasks) : Type 0 where
  pub idle : next ≡ 0 → (i : ℕ) → ¬ IsRunnable s i
  pub busy :
      next ≢ 0
      → IsRunnable s next
        × (0 < counter_of s next)
        × ((i : ℕ) → IsRunnable s i → counter_of s i ≤ counter_of s next)

IsBest-none : (s : Tasks) (next : ℕ) → IsBest s (none, next) → IsChoice next s
IsBest-none s next b = record {
  idle = λ e. (b.none_found refl).1;
  busy = λ ne. absurd (ne (b.none_found refl).0);
}

IsBest-some : (s : Tasks) (k next : ℕ) → IsBest s (some (suc k), next) → IsChoice next s
IsBest-some s k next b = record {
  idle = λ e. absurd (omega (arith, (b.some_found (suc k) refl).0.0));
  busy = λ ne.
      let f = b.some_found (suc k) refl in (f.0, omega (arith, f.1), λ i r. rw (← f.1) (f.2 i r));
}

-- One round of the loop ends it, unless the largest counter is 0.
choose_round :
    (fuel : ℕ) (s : Tasks) (found : Option ℕ × ℕ)
    → find_next s ≡ found
    → IsBest s found
    → ((found.0 ≡ some 0) × (choose (suc fuel) s ≡ choose fuel (recharge s)))
      ⊎ (IsChoice found.1 s × (choose (suc fuel) s ≡ returns (found.1, s)))
unfolding choose
choose_round fuel s (none, next) e b =
    inr (IsBest-none s next b, rw (e, choose) (ap (λ a. returns (a.1, s)) e))
choose_round fuel s (some zero, next) e b = inl (refl, rw (e, choose))
choose_round fuel s (some (suc k), next) e b =
    inr (IsBest-some s k next b, rw (e, choose) (ap (λ a. returns (a.1, s)) e))

-- With positive priorities the loop ends after at most one recharge, at the right task.
pub choose-IsChoice :
    (s : Tasks) → HavePriority s → Returns (λ (next, s'). IsChoice next s') (choose 2 s)
choose-IsChoice s h =
    elim (choose_round 1 s (find_next s) refl (find_next-IsBest s (λ i r. (h i r).1.1))) [
      | inr (c, e) ↦ rw e c
      | inl (z, e) ↦
          elim (choose_round 0 (recharge s) (find_next (recharge s)) refl
            (find_next-IsBest (recharge s) (λ i r. (recharge-counter s h i r).1))) [
              | inr (c, e') ↦ rw (e, e') c
              | inl (z', e') ↦
                  let b =
                    (find_next-IsBest (recharge s) (λ i r. (recharge-counter s h i r).1)).some_found
                      0 z' in
                  absurd
                    (omega (arith, b.1, (recharge-counter s h (find_next (recharge s)).1 b.0).0))
            ]
    ]

-- Every task in the table has a priority from 1 to 2^30 and no negative counter.
abbrev pub AllHavePriority : Tasks → Type 0
AllHavePriority s =
    (i : ℕ)
    → s.task i ≢ 0
    → (0 < (s.struct_at (s.task i)).priority) × InRange (s.struct_at (s.task i))

priority-wake_on_signal : (j : ℕ) (t : Task) → (wake_on_signal j t).priority ≡ t.priority
unfolding wake_on_signal
priority-wake_on_signal j t = ground arith

counter-wake_on_signal : (j : ℕ) (t : Task) → (wake_on_signal j t).counter ≡ t.counter
unfolding wake_on_signal
counter-wake_on_signal j t = ground arith

pub record IsSignalled (s s' : Tasks) : Type 0 where
  pub same_task : (i : ℕ) → s'.task i ≡ s.task i
  pub same_priority : (p : ℕ) → (s'.struct_at p).priority ≡ (s.struct_at p).priority
  pub same_counter : (p : ℕ) → (s'.struct_at p).counter ≡ (s.struct_at p).counter

signal_body-IsSignalled :
    (i : ℕ) (s s' : Tasks) → IsSignalled s s' → IsSignalled s (signal_body i s')
unfolding signal_body
signal_body-IsSignalled i s s' h = record {
  same_task = λ j. ground (arith, h.same_task j);
  same_priority = λ p. ground (
    arith,
    h.same_priority p,
    h.same_priority (s'.task i),
    priority-wake_on_signal s'.jiffies (s'.struct_at (s'.task i)),
  );
  same_counter = λ p. ground (
    arith,
    h.same_counter p,
    h.same_counter (s'.task i),
    counter-wake_on_signal s'.jiffies (s'.struct_at (s'.task i)),
  );
}

pub check_signals-IsSignalled : (s : Tasks) → IsSignalled s (check_signals s)
unfolding check_signals
check_signals-IsSignalled s =
    for_down_inv (IsSignalled s) signal_body (λ i t r. signal_body-IsSignalled i s t r) last_slot s
      (record { same_task = λ j. refl; same_priority = λ p. refl; same_counter = λ p. refl })

pub check_signals-HavePriority : (s : Tasks) → AllHavePriority s → HavePriority (check_signals s)
check_signals-HavePriority s h i r =
    let same = check_signals-IsSignalled s in
    let e = same.same_task i in
    rw e (rw (same.same_priority (s.task i), same.same_counter (s.task i)) (h i (rw e at r.2)))

switched :
    (found : ℕ × Tasks)
    → IsChoice found.0 found.1
    → Returns
        (λ s'. (next : ℕ) × (s'.current ≡ s'.task next) × IsChoice next s')
        (returns (switch_to found.0 found.1))
unfolding switch_to
switched (next, s) c = (next, refl, record { idle = c.idle; busy = c.busy })

-- If every task in the table has a priority from 1 to 2^30 and no negative counter, `schedule`
-- returns, and it has switched to a runnable task with time left and the largest counter of all
-- runnable tasks, or to the idle task if nothing is runnable.
pub schedule-IsChoice :
    (s : Tasks)
    → AllHavePriority s
    → Returns (λ s'. (next : ℕ) × (s'.current ≡ s'.task next) × IsChoice next s') (schedule s)
unfolding schedule
schedule-IsChoice s h =
    Returns->>= (λ (next, s'). IsChoice next s')
      (λ s'. (next : ℕ) × (s'.current ≡ s'.task next) × IsChoice next s')
      (choose 2 (check_signals s)) (λ (next, s'). returns (switch_to next s'))
      (choose-IsChoice (check_signals s) (check_signals-HavePriority s h)) switched
