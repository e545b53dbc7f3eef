-- ===== src/Kernel/Fork/Pid.antt =====
-- Process numbers: `find_empty_process` ends, with a number that no task has.
use linux.Base.{
  ℕ, zero, suc, ◌+◌, ◌-◌, ◌^◌, ◌≤◌, ◌<◌, ◌≡◌, ◌≢◌, ◌⊎◌, inl, inr, refl, arith, ltb, ◌==◌,
  if◌then◌else◌, Bool, true, false, Bool-cases, returns, Returns, ==_iff, ltb→lt, Returns->>=,
}
use native.Mathlib.Decide.{ℕ_discrete}
use linux.Base.Int.{ℤ, pos, neg}
use linux.Base.Loops.{find_up, find_up_passes, find_up_least, find_up_bounds}
use linux.Base.Pigeon.{pigeonhole}
use linux.Kernel.Task.{Tasks, nr_tasks}
use linux.Kernel.Fork.{next_pid, has_number, free_pid, find_empty_process, eagain}

-- The number after `k` steps from `n`.
abbrev pid_after : ℕ → ℕ → ℕ
pid_after n k = if ltb (n + k) (2 ^ 31) then n + k else n + k - (2 ^ 31 - 1)

next_pid-pid_after :
    (n k : ℕ) → n < 2 ^ 31 → k < 100 → next_pid (pid_after n k) ≡ pid_after n (suc k)
next_pid-pid_after n k h l = ground arith

pid_after_injective :
    (n i j : ℕ) → n < 2 ^ 31 → 1 ≤ i → i < j → j < 100 → pid_after n i ≢ pid_after n j
pid_after_injective n i j h l m u e = ground arith

-- The slot of the task with a number; 64 if there is none.
abbrev slot_of : Tasks → ℕ → ℕ
slot_of s n = find_up 0 nr_tasks (has_number s n)

-- A number that the call may give.
abbrev pub IsFreeNumber : Tasks → ℕ → Type 0
IsFreeNumber s n = (1 ≤ n) × (n < 2 ^ 31) × ((i : ℕ) → i < nr_tasks → has_number s n i ≡ false)

free_number : (s : Tasks) (n : ℕ) → 1 ≤ n → n < 2 ^ 31 → nr_tasks ≤ slot_of s n → IsFreeNumber s n
free_number s n l u full =
    (l, u, λ i b. find_up_least 0 nr_tasks i (has_number s n) (omega arith) (omega arith))

free_pid-taken :
    (fuel k n : ℕ) (s : Tasks)
    → n < 2 ^ 31
    → k + fuel < 100
    → Returns (IsFreeNumber s) (free_pid fuel (pid_after n k) s)
      ⊎ ((i : ℕ) → k < i → i ≤ k + fuel → slot_of s (pid_after n i) < nr_tasks)
unfolding free_pid
free_pid-taken zero k n s h b = inr (λ i l u. absurd (omega arith))
free_pid-taken (suc fuel) k n s h b =
    let e = next_pid-pid_after n k h (omega arith) in
    elim (Bool-cases (ltb (slot_of s (pid_after n (suc k))) nr_tasks)) [
      | inl taken ↦
          rw (e, taken)
            (elim (free_pid-taken fuel (suc k) n s h (omega arith)) [
              | inl r ↦ inl r
              | inr all ↦ inr (λ i l u. elim (ℕ_discrete i (suc k)) [
                | yes is ↦ rw is (ltb→lt _ _ taken)
                | no ne ↦ all i (omega arith) (omega arith)
              ])
            ])
      | inr free ↦
          rw (e, free)
            (inl (free_number s (pid_after n (suc k)) (ground arith) (ground arith) (ground arith)))
    ]

same_number : (s : Tasks) (i a b : ℕ) → has_number s a i ≡ true → has_number s b i ≡ true → a ≡ b
same_number s i a b p q = ground arith

numbers_of_slots :
    (s : Tasks) (a b : ℕ) → slot_of s a < nr_tasks → slot_of s a ≡ slot_of s b → a ≡ b
numbers_of_slots s a b l e =
    same_number s (slot_of s a) a b (find_up_passes 0 nr_tasks (has_number s a) (omega arith))
      (rw e (find_up_passes 0 nr_tasks (has_number s b) (omega arith)))

pub free_pid-IsFreeNumber :
    (n : ℕ) (s : Tasks) → n < 2 ^ 31 → Returns (IsFreeNumber s) (free_pid 65 n s)
free_pid-IsFreeNumber n s h =
    let start : pid_after n 0 ≡ n = ground arith in
    elim (free_pid-taken 65 0 n s h (omega arith)) [
      | inl r ↦ rw start at r
      | inr all ↦
          let (i, j, lt, le, e) =
            pigeonhole 64 (λ i. slot_of s (pid_after n (suc i)))
              (λ i l. all (suc i) (omega arith) (omega arith)) in
          absurd (
            pid_after_injective n (suc i) (suc j) h (omega arith) (omega arith) (omega arith)
              (numbers_of_slots s _ _ (all (suc i) (omega arith) (omega arith)) e))
    ]

-- What `find_empty_process` finds: a number that no task has, and the first empty slot except slot
-- 0; or -EAGAIN, and then those 63 slots are all in use.
abbrev pub FindsSlot : Tasks → ℤ × Tasks → Type 0
FindsSlot s (r, s') =
    IsFreeNumber s s'.last_pid
    × (((i : ℕ) × (r ≡ pos i) × (1 ≤ i) × (i < nr_tasks) × (s.task i ≡ 0))
        ⊎ ((r ≡ neg (pos eagain)) × ((i : ℕ) → 1 ≤ i → i < nr_tasks → s.task i ≢ 0)))

finds_slot :
    (s : Tasks) (n : ℕ)
    → IsFreeNumber s n
    → Returns (FindsSlot s) (
        returns (
          if ltb (find_up 1 63 (λ i. s.task i == 0)) nr_tasks
              then pos (find_up 1 63 (λ i. s.task i == 0))
              else neg (pos eagain),
          record s { last_pid = n },
        ))
finds_slot s n f =
    let test : ℕ → Bool = λ i. s.task i == 0 in
    let k = find_up 1 63 test in
    elim (Bool-cases (ltb k nr_tasks)) [
      | inl l ↦ rw l (
        f,
        inl (
          k,
          refl,
          (find_up_bounds 1 63 test).0,
          ltb→lt _ _ l,
          (==_iff _ _).0 (find_up_passes 1 63 test (ltb→lt _ _ l)),
        ),
      )
      | inr g ↦
          rw g
            (f, inr (refl, λ i b u z. ground (arith, find_up_least 1 63 i test b (ground arith))))
    ]

-- From a `last_pid` that is not negative as a 32-bit number, `find_empty_process` always ends,
-- after at most 65 numbers tried: it sets `last_pid` to a positive
-- number that no task of the table has, and returns an empty slot other than slot 0, or -EAGAIN if
-- there is none.
pub find_empty_process-FindsSlot :
    (s : Tasks) → s.last_pid < 2 ^ 31 → Returns (FindsSlot s) (find_empty_process 65 s)
unfolding find_empty_process
find_empty_process-FindsSlot s h =
    Returns->>= (IsFreeNumber s) (FindsSlot s) _ _ (free_pid-IsFreeNumber s.last_pid s h)
      (λ n f. finds_slot s n f)
