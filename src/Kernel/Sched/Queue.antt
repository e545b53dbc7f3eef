-- ===== src/Kernel/Sched/Queue.antt =====
-- The wait queues: a queue variable holds the last task that went to sleep, and each sleeper keeps
-- the one before it in its `tmp`.
use linux.Base.{
  ℕ, ◌≡◌, refl, ◌∙◌, ◌≢◌, List, [], ◌∷◌, arith, All, Outcome, returns, panics, exits, hangs,
  Returns, Returns->>=, ◌>>=◌,
}
use linux.Kernel.Task.{Tasks, TaskState, running, uninterruptible}
use linux.Kernel.Sched.{make_running, enqueue, wake_up, sleep_on, schedule}
use linux.Kernel.Sched.Pick.{AllHavePriority}
use linux.Kernel.Sched.Kept.{IsKept, schedule-IsKept}

abbrev state_of : Tasks → ℕ → TaskState
state_of s p = (s.struct_at p).state

-- What a function leaves, if it returns.
abbrev left_by : Tasks → Outcome Tasks → Tasks
left_by s (returns s') = s'
left_by s panics = s
left_by s (exits c) = s
left_by s hangs = s

-- The tasks of the list go to sleep on `q` by `sleep_on`, one after the other. While the first one
-- sleeps, the others do, then there is a `wake_up`, and those that slept later run the end of their
-- `sleep_on` first, since each of them is made runnable by the one that slept after it.
pub sleep_in_turn : (q : ℕ) → List ℕ → Tasks → Outcome Tasks
sleep_in_turn q [] s = returns (wake_up q s)
sleep_in_turn q (p ∷ ps) s =
    sleep_on (λ s'. left_by s' (sleep_in_turn q ps s')) q (record s { current = p })

-- What holds of the state that a function returns.
left_by-holds : (P : Tasks → Type 0) (s : Tasks) (o : Outcome Tasks) → Returns P o → P (left_by s o)
left_by-holds P s (returns s') h = h
left_by-holds P s panics h = absurd h
left_by-holds P s (exits c) h = absurd h
left_by-holds P s hangs h = absurd h

make_running-keeps :
    (tmp p : ℕ) (s : Tasks) → state_of s p ≡ running → state_of (make_running tmp s) p ≡ running
make_running-keeps tmp p s h = ground arith

make_running-All :
    (tmp : ℕ) (ps : List ℕ) (s : Tasks)
    → All (λ x. state_of s x ≡ running) ps
    → All (λ x. state_of (make_running tmp s) x ≡ running) ps
make_running-All tmp [] s h = h
make_running-All tmp (p ∷ ps) s (h, hs) =
    (make_running-keeps tmp p s h, make_running-All tmp ps s hs)

make_running_self : (p : ℕ) (s : Tasks) → p ≢ 0 → state_of (make_running p s) p ≡ running
make_running_self p s h = ground (arith, h)

wake_up-head :
    (q : ℕ) (s : Tasks) → q ≢ 0 → s.queue q ≢ 0 → state_of (wake_up q s) (s.queue q) ≡ running
unfolding wake_up
wake_up-head q s nq np = ground (arith, nq, np)

-- A task that is there and is not the idle task.
abbrev pub CanSleep : Tasks → ℕ → Type 0
CanSleep s x = (x ≢ 0) × (x ≢ s.init_task)

CanSleep-kept :
    (s s' : Tasks) (ps : List ℕ)
    → s'.init_task ≡ s.init_task
    → All (CanSleep s) ps
    → All (CanSleep s') ps
CanSleep-kept s s' [] e h = h
CanSleep-kept s s' (p ∷ ps) e ((a, b), h) = ((a, λ z. b (z ∙ e)), CanSleep-kept s s' ps e h)

enqueue-AllHavePriority :
    (q p : ℕ) (s : Tasks)
    → AllHavePriority s
    → AllHavePriority (enqueue uninterruptible q (record s { current = p }))
unfolding enqueue
enqueue-AllHavePriority q p s h i live = ground (arith, h i live)

-- The state in which a task calls `schedule`.
asleep : (q p : ℕ) → Tasks → Tasks
asleep q p s = enqueue uninterruptible q (record s { current = p })

asleep-queue : (q p : ℕ) (s : Tasks) → (asleep q p s).queue q ≡ p
unfolding asleep enqueue
asleep-queue q p s = ground arith

asleep-idle : (q p : ℕ) (s : Tasks) → (asleep q p s).init_task ≡ s.init_task
unfolding asleep enqueue
asleep-idle q p s = refl

sleep_on-steps :
    (resume : Tasks → Tasks) (q p : ℕ) (s : Tasks)
    → q ≢ 0
    → p ≢ s.init_task
    → sleep_on resume q (record s { current = p })
      ≡ (schedule (asleep q p s) >>= λ s'. returns (make_running (s.queue q) (resume s')))
unfolding sleep_on asleep
sleep_on-steps resume q p s nq ni = ground (arith, nq, ni)

-- The sleeper that was in the queue before is awake, and so are the tasks of the list.
abbrev pub AreAwake : (before : ℕ) → List ℕ → Tasks → Type 0
AreAwake before ps t =
    (before ≢ 0 → (t.struct_at before).state ≡ running)
    × All (λ x. (t.struct_at x).state ≡ running) ps

woken_again :
    (before p : ℕ) (ps : List ℕ) (t : Tasks)
    → p ≢ 0
    → AreAwake p ps t
    → AreAwake before (p ∷ ps) (make_running before t)
woken_again before p ps t np (first, rest) = (
  make_running_self before t,
  (make_running-keeps before p t (first np), make_running-All before ps t rest),
)

-- Whatever tasks go to sleep on a queue by `sleep_on`, one after the other, a single `wake_up` is
-- enough for all of them, and for the sleeper that was in the queue before: each, when it goes on,
-- makes the one before it runnable, and every `sleep_on` returns. The tasks of the table have
-- priorities from 1 to 2^30 and no negative counters, and the idle task is not among the sleepers.
pub sleep_in_turn-AreAwake :
    (q : ℕ) (ps : List ℕ) (s : Tasks)
    → q ≢ 0
    → AllHavePriority s
    → All (CanSleep s) ps
    → Returns (AreAwake (s.queue q) ps) (sleep_in_turn q ps s)
unfolding sleep_in_turn asleep enqueue
sleep_in_turn-AreAwake q [] s nq h can = (wake_up-head q s nq, can)
sleep_in_turn-AreAwake q (p ∷ ps) s nq h ((np, ni), can) =
    let resume = λ (s' : Tasks). left_by s' (sleep_in_turn q ps s') in
    rw (sleep_on-steps resume q p s nq ni) (
      Returns->>= (IsKept (asleep q p s)) (AreAwake (s.queue q) (p ∷ ps)) (schedule (asleep q p s))
        (λ s'. returns (make_running (s.queue q) (resume s')))
        (schedule-IsKept (asleep q p s) (enqueue-AllHavePriority q p s h))
        (λ s' kept.
          let e : s'.queue q ≡ p = kept.same_queue q ∙ asleep-queue q p s in
          let idle = kept.same_idle ∙ asleep-idle q p s in
          let inner =
            sleep_in_turn-AreAwake q ps s' nq kept.priorities (CanSleep-kept s s' ps idle can) in
          let awake = left_by-holds (AreAwake (s'.queue q) ps) s' (sleep_in_turn q ps s') inner in
          woken_again (s.queue q) p ps (resume s') np (rw e at awake)))
