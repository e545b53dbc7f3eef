-- ===== src/Kernel/Exit/Kill.antt =====
-- `sys_kill`: who gets the signal, and what the call returns.
use linux.Base.{ℕ, zero, suc, ◌-◌, ◌≤◌, ◌<◌, ◌≡◌, refl, sym, ap, ◌∙◌, ◌≢◌, true, false, arith}
use mathlib.Core.Path.{subst}
use native.Mathlib.Decide.{ℕ_discrete}
use linux.Base.Loops.{for_down}
use linux.Base.Bits.{bit, bit-bit_or, bit-le_one, bit-pow_self}
use linux.Base.Int.{ℤ, pos, negsuc, eqb_ℤ, pos_part}
use linux.Kernel.Task.{Tasks, last_slot, current_task, sig_bit}
use linux.Kernel.Exit.{kill_body, sys_kill}

-- A failure that is noted is not forgotten.
kill_body-keeps :
    (pid sig : ℤ) (i : ℕ) (acc : ℤ × Tasks) → acc.0 ≢ pos 0 → (kill_body pid sig i acc).0 ≢ pos 0
unfolding kill_body
kill_body-keeps pid sig i acc h e = ground arith

task-kill_body :
    (pid sig : ℤ) (i j : ℕ) (acc : ℤ × Tasks) → (kill_body pid sig i acc).1.task j ≡ acc.1.task j
unfolding kill_body
task-kill_body pid sig i j acc = ground arith

kill_body-empty :
    (sig : ℤ) (i : ℕ) (acc : ℤ × Tasks)
    → acc.1.task i ≡ 0
    → (kill_body (negsuc 0) sig i acc).0 ≢ pos 0
unfolding kill_body
kill_body-empty sig i acc h e = ground arith

kill_loop-keeps :
    (pid sig : ℤ) (n : ℕ) (acc : ℤ × Tasks)
    → acc.0 ≢ pos 0
    → (for_down n (kill_body pid sig) acc).0 ≢ pos 0
unfolding for_down
kill_loop-keeps pid sig zero acc h = h
kill_loop-keeps pid sig (suc n) acc h =
    kill_loop-keeps pid sig n (kill_body pid sig (suc n) acc)
      (kill_body-keeps pid sig (suc n) acc h)

kill_loop-empty :
    (sig : ℤ) (n i : ℕ) (acc : ℤ × Tasks)
    → 1 ≤ i
    → i ≤ n
    → acc.1.task i ≡ 0
    → (for_down n (kill_body (negsuc 0) sig) acc).0 ≢ pos 0
unfolding for_down
kill_loop-empty sig zero i acc l u e = absurd (omega arith)
kill_loop-empty sig (suc n) i acc l u e = elim (ℕ_discrete i (suc n)) [
  | yes h ↦
      kill_loop-keeps (negsuc 0) sig n (kill_body (negsuc 0) sig (suc n) acc)
        (kill_body-empty sig (suc n) acc (rw (← h) e))
  | no h ↦
      kill_loop-empty sig n i (kill_body (negsuc 0) sig (suc n) acc) l (omega arith)
        (task-kill_body (negsuc 0) sig (suc n) i acc ∙ e)
]

-- `kill(-1, sig)` sends to NULL for every empty slot, and so fails, whatever it has sent, as long as
-- one of the slots 1 to 63 is empty.
pub sys_kill-minus_one :
    (sig : ℤ) (i : ℕ) (s : Tasks)
    → 1 ≤ i
    → i ≤ last_slot
    → s.task i ≡ 0
    → (sys_kill (negsuc 0) sig s).0 ≢ pos 0
unfolding sys_kill
sys_kill-minus_one sig i s l u e = kill_loop-empty sig last_slot i (pos 0, s) l u e

-- A task of one number.
abbrev pub IsTarget : ℤ → Tasks → ℕ → Type 0
IsTarget pid s p = (p ≢ 0) × (eqb_ℤ (s.struct_at p).pid pid ≡ true)

-- The sender may send to every task.
abbrev pub MaySend : Tasks → Type 0
MaySend s = (current_task s).euid ≡ 0

record IsKept (s s' : Tasks) : Type 0 where
  task : (i : ℕ) → s'.task i ≡ s.task i
  pid : (p : ℕ) → (s'.struct_at p).pid ≡ (s.struct_at p).pid
  euid : (p : ℕ) → (s'.struct_at p).euid ≡ (s.struct_at p).euid
  current : s'.current ≡ s.current

kill_body-IsKept :
    (pid sig : ℤ) (i : ℕ) (s : Tasks) (acc : ℤ × Tasks)
    → IsKept s acc.1
    → IsKept s (kill_body pid sig i acc).1
unfolding kill_body
kill_body-IsKept pid sig i s acc k = record {
  task = λ j. ground (arith, k.task j);
  pid = λ p. ground (arith, k.pid p, k.pid (acc.1.task i));
  euid = λ p. ground (arith, k.euid p, k.euid (acc.1.task i));
  current = ground (arith, k.current);
}

-- Bits are only ever added.
kill_body-bit :
    (pid sig : ℤ) (i n p : ℕ) (acc : ℤ × Tasks)
    → bit n (acc.1.struct_at p).signal ≡ 1
    → bit n ((kill_body pid sig i acc).1.struct_at p).signal ≡ 1
unfolding kill_body
kill_body-bit pid sig i n p acc h = ground (
  arith,
  bit-bit_or n (acc.1.struct_at p).signal (sig_bit (pos_part sig)),
  bit-le_one n (sig_bit (pos_part sig)),
)

bit-sig_bit : (n : ℕ) → bit n (sig_bit (suc n)) ≡ 1
bit-sig_bit n = let e : suc n - 1 ≡ n = omega arith in rw e (bit-pow_self n)

kill_body-sends :
    (pid n : ℕ) (i : ℕ) (acc : ℤ × Tasks)
    → 0 < pid
    → n < 32
    → MaySend acc.1
    → IsTarget (pos pid) acc.1 (acc.1.task i)
    → bit n ((kill_body (pos pid) (pos (suc n)) i acc).1.struct_at (acc.1.task i)).signal ≡ 1
unfolding kill_body
kill_body-sends pid n i acc hp l may t = ground (
  arith,
  bit-bit_or n (acc.1.struct_at (acc.1.task i)).signal (sig_bit (suc n)),
  bit-le_one n (acc.1.struct_at (acc.1.task i)).signal,
  bit-sig_bit n,
)

IsKept-refl : (s : Tasks) → IsKept s s
IsKept-refl s = record { task = λ i. refl; pid = λ p. refl; euid = λ p. refl; current = refl }

kill_loop-bit :
    (pid sig : ℤ) (k n p : ℕ) (acc : ℤ × Tasks)
    → bit n (acc.1.struct_at p).signal ≡ 1
    → bit n ((for_down k (kill_body pid sig) acc).1.struct_at p).signal ≡ 1
unfolding for_down
kill_loop-bit pid sig zero n p acc h = h
kill_loop-bit pid sig (suc k) n p acc h =
    kill_loop-bit pid sig k n p (kill_body pid sig (suc k) acc)
      (kill_body-bit pid sig (suc k) n p acc h)

kill_loop-sends :
    (pid n k i : ℕ) (acc : ℤ × Tasks)
    → 0 < pid
    → n < 32
    → MaySend acc.1
    → 1 ≤ i
    → i ≤ k
    → IsTarget (pos pid) acc.1 (acc.1.task i)
    → bit n ((for_down k (kill_body (pos pid) (pos (suc n))) acc).1.struct_at (acc.1.task i)).signal
      ≡ 1
unfolding for_down
kill_loop-sends pid n zero i acc hp hn may l u t = absurd (omega arith)
kill_loop-sends pid n (suc k) i acc hp hn may l u t =
    let body = kill_body (pos pid) (pos (suc n)) in
    let next = body (suc k) acc in
    let kept = kill_body-IsKept (pos pid) (pos (suc n)) (suc k) acc.1 acc (IsKept-refl acc.1) in
    elim (ℕ_discrete i (suc k)) [
      | yes e ↦
          kill_loop-bit (pos pid) (pos (suc n)) k n (acc.1.task i) next
            (rw e (kill_body-sends pid n (suc k) acc hp hn may (rw (← e) t)))
      | no ne ↦
          let same = kept.task i in
          let may' : MaySend next.1 =
            ap (λ c. (next.1.struct_at c).euid) kept.current ∙ kept.euid acc.1.current ∙ may in
          let pid' : eqb_ℤ (next.1.struct_at (acc.1.task i)).pid (pos pid) ≡ true =
            ap (λ q. eqb_ℤ q (pos pid)) (kept.pid (acc.1.task i)) ∙ t.1 in
          subst (λ p. bit n ((for_down k body next).1.struct_at p).signal ≡ 1) same
            (kill_loop-sends pid n k i next hp hn may' l (omega arith)
              (subst (IsTarget (pos pid) next.1) (sym same) (t.0, pid')))
    ]

kill_body-other :
    (pid i p : ℕ) (sig : ℤ) (acc : ℤ × Tasks)
    → 0 < pid
    → eqb_ℤ (acc.1.struct_at p).pid (pos pid) ≡ false
    → ((kill_body (pos pid) sig i acc).1.struct_at p).signal ≡ (acc.1.struct_at p).signal
unfolding kill_body
kill_body-other pid i p sig acc hp h = ground arith

kill_loop-other :
    (pid k p : ℕ) (sig : ℤ) (acc : ℤ × Tasks)
    → 0 < pid
    → eqb_ℤ (acc.1.struct_at p).pid (pos pid) ≡ false
    → ((for_down k (kill_body (pos pid) sig) acc).1.struct_at p).signal ≡ (acc.1.struct_at p).signal
unfolding for_down
kill_loop-other pid zero p sig acc hp h = refl
kill_loop-other pid (suc k) p sig acc hp h =
    let kept = kill_body-IsKept (pos pid) sig (suc k) acc.1 acc (IsKept-refl acc.1) in
    kill_loop-other pid k p sig (kill_body (pos pid) sig (suc k) acc) hp (rw (kept.pid p) h)
    ∙ kill_body-other pid (suc k) p sig acc hp h

-- `sys_kill` by the superuser to a positive number: every task of the table with this number, the
-- idle task's slot excepted, has the signal pending afterwards.
pub sys_kill-sends :
    (pid n i : ℕ) (s : Tasks)
    → 0 < pid
    → n < 32
    → MaySend s
    → 1 ≤ i
    → i ≤ last_slot
    → IsTarget (pos pid) s (s.task i)
    → bit n ((sys_kill (pos pid) (pos (suc n)) s).1.struct_at (s.task i)).signal ≡ 1
unfolding sys_kill
sys_kill-sends pid n i s hp hn may l u t =
    kill_loop-sends pid n last_slot i (pos 0, s) hp hn may l u t

-- `sys_kill` to a positive number, of any signal and by anyone, does not change the pending signals
-- of a task with another number.
sys_kill-other :
    (pid p : ℕ) (sig : ℤ) (s : Tasks)
    → 0 < pid
    → eqb_ℤ (s.struct_at p).pid (pos pid) ≡ false
    → ((sys_kill (pos pid) sig s).1.struct_at p).signal ≡ (s.struct_at p).signal
unfolding sys_kill
sys_kill-other pid p sig s hp h = kill_loop-other pid last_slot p sig (pos 0, s) hp h
