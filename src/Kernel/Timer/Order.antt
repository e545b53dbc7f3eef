-- ===== src/Kernel/Timer/Order.antt =====
-- The list of timers as a list of delays, and where `add_timer` puts a new one.
use linux.Base.{
  ℕ, zero, suc, ◌-◌, ◌≤◌, ◌<◌, ◌≡◌, ◌≢◌, refl, sym, ap, ◌∙◌, List, [], ◌∷◌, map, ltb, ◌==◌, update,
  All, arith, length, true, false, Bool-cases, inl, inr,
}
use linux.Kernel.Timer.Delays.{insert_delay, IsDue, insert_delay-IsDue}
use linux.Kernel.Timer.{Timer, Timers, time_requests, swap_timers, sink, put_timer}

-- The `next` pointers lead from `p` through the entries of the list to NULL.
abbrev pub Links : (ℕ → Timer) → ℕ → List ℕ → Type 0
Links t p [] = p ≡ 0
Links t p (x ∷ xs) = (p ≡ x) × (x ≢ 0) × Links t (t x).next xs

abbrev pub NotIn : ℕ → List ℕ → Type 0
NotIn p xs = All (λ x. x ≢ p) xs

abbrev pub AllDistinct : List ℕ → Type 0
AllDistinct [] = Unit
AllDistinct (x ∷ xs) = NotIn x xs × AllDistinct xs

-- The delays and functions along the list.
abbrev pub contents : (ℕ → Timer) → List ℕ → List (ℕ × ℕ)
contents t ps = map (λ p. ((t p).jiffies, (t p).fn)) ps

next-sink : (fuel p q : ℕ) (t : ℕ → Timer) → (sink fuel p t q).next ≡ (t q).next
unfolding sink
next-sink zero p q t = refl
next-sink (suc fuel) p q t = ground (arith, next-sink fuel (t p).next q (swap_timers p t))

next-swap : (p q : ℕ) (t : ℕ → Timer) → (swap_timers p t q).next ≡ (t q).next
next-swap p q t = ground arith

other-swap : (p q : ℕ) (t : ℕ → Timer) → q ≢ p → q ≢ (t p).next → swap_timers p t q ≡ t q
other-swap p q t h k = ground arith

Links-of_next :
    (t t' : ℕ → Timer) (p : ℕ) (xs : List ℕ)
    → ((q : ℕ) → (t' q).next ≡ (t q).next)
    → Links t p xs
    → Links t' p xs
Links-of_next t t' p [] e l = l
Links-of_next t t' p (x ∷ xs) e (i, nz, l) =
    (i, nz, Links-of_next t t' (t' x).next xs e (rw (e x) l))

sink-last : (fuel p : ℕ) (t : ℕ → Timer) → (t p).next ≡ 0 → sink (suc fuel) p t ≡ t
unfolding sink
sink-last fuel p t h = rw h refl

sink-on :
    (fuel p n : ℕ) (t : ℕ → Timer)
    → (t p).next ≡ n
    → n ≢ 0
    → ltb (t n).jiffies (t p).jiffies ≡ true
    → sink (suc fuel) p t ≡ sink fuel n (swap_timers p t)
unfolding sink
sink-on fuel p n t e nz h =
    let some_next : (n == 0) ≡ false = ground arith in rw (e, some_next, h) refl

sink-stop :
    (fuel p n : ℕ) (t : ℕ → Timer)
    → (t p).next ≡ n
    → n ≢ 0
    → ltb (t n).jiffies (t p).jiffies ≡ false
    → sink (suc fuel) p t ≡ t
unfolding sink
sink-stop fuel p n t e nz h =
    let some_next : (n == 0) ≡ false = ground arith in rw (e, some_next, h) refl

sink-zero : (p q : ℕ) (t : ℕ → Timer) → sink zero p t q ≡ t q
unfolding sink
sink-zero p q t = refl

-- What is not in the list behind `p`, and is not `p`, is not touched.
sink-other :
    (fuel p q : ℕ) (ps : List ℕ) (t : ℕ → Timer)
    → Links t (t p).next ps
    → q ≢ p
    → NotIn q ps
    → sink fuel p t q ≡ t q
sink-other zero p q ps t l ne a = sink-zero p q t
sink-other (suc fuel) p q [] t l ne a = rw (sink-last fuel p t l) refl
sink-other (suc fuel) p q (n ∷ ns) t (e, nz, l) ne (an, a) =
    elim (Bool-cases (ltb (t n).jiffies (t p).jiffies)) [
      | inl less ↦
          let qn : q ≢ n = λ z. an (sym z) in
          rw (sink-on fuel p n t e nz less) (
            sink-other fuel n q ns (swap_timers p t)
              (Links-of_next t (swap_timers p t) (swap_timers p t n).next ns (λ x. next-swap p x t)
                (rw (next-swap p n t) l))
              qn a
            ∙ other-swap p q t ne (λ z. qn (z ∙ e)))
      | inr stop ↦ rw (sink-stop fuel p n t e nz stop) refl
    ]

contents-eq :
    (t t' : ℕ → Timer) (ps : List ℕ) → All (λ x. t' x ≡ t x) ps → contents t' ps ≡ contents t ps
contents-eq t t' [] a = refl
contents-eq t t' (x ∷ xs) (e, a) = rw (e, contents-eq t t' xs a) refl

All-other_swap :
    (p n : ℕ) (ns : List ℕ) (t : ℕ → Timer)
    → (t p).next ≡ n
    → NotIn p ns
    → NotIn n ns
    → All (λ x. swap_timers p t x ≡ t x) ns
All-other_swap p n [] t e a b = a
All-other_swap p n (x ∷ xs) t e (ap', a) (bn, b) =
    (other-swap p x t ap' (λ z. bn (z ∙ e)), All-other_swap p n xs t e a b)

swapped :
    (p n : ℕ) (t : ℕ → Timer)
    → (t p).next ≡ n
    → p ≢ n
    → let t' = swap_timers p t in
      ((t' p).jiffies ≡ (t n).jiffies)
      × ((t' p).fn ≡ (t n).fn)
      × ((t' n).jiffies ≡ (t p).jiffies - (t n).jiffies)
      × ((t' n).fn ≡ (t p).fn)
swapped p n t e ne = (ground arith, ground arith, ground arith, ground arith)

contents-swap :
    (fuel p n : ℕ) (ns : List ℕ) (t : ℕ → Timer)
    → (t p).next ≡ n
    → p ≢ n
    → NotIn p ns
    → NotIn n ns
    → Links t (t n).next ns
    → contents (sink fuel n (swap_timers p t)) (n ∷ ns)
      ≡ insert_delay
          (swap_timers p t n).jiffies
          (swap_timers p t n).fn
          (contents (swap_timers p t) ns)
    → contents (sink fuel n (swap_timers p t)) (p ∷ n ∷ ns)
      ≡ ((t n).jiffies, (t n).fn)
        ∷ insert_delay ((t p).jiffies - (t n).jiffies) (t p).fn (contents t ns)
contents-swap fuel p n ns t e pn ap' an l h =
    let t' = swap_timers p t in
    let (j, f, j', f') = swapped p n t e pn in
    let here =
      sink-other fuel n p ns t'
        (Links-of_next t t' (t' n).next ns (λ x. next-swap p x t) (rw (next-swap p n t) l)) pn
        ap' in
    let same = contents-eq t t' ns (All-other_swap p n ns t e ap' an) in
    rw (here, j, f) (ap (λ r. ((t n).jiffies, (t n).fn) ∷ r) (rw (j', f', same) at h))

sink-contents :
    (fuel p : ℕ) (ps : List ℕ) (t : ℕ → Timer)
    → Links t (t p).next ps
    → length ps < fuel
    → NotIn p ps
    → AllDistinct ps
    → contents (sink fuel p t) (p ∷ ps) ≡ insert_delay (t p).jiffies (t p).fn (contents t ps)
sink-contents zero p ps t l b a d = absurd (omega arith)
sink-contents (suc fuel) p [] t l b a d = rw (sink-last fuel p t l) refl
sink-contents (suc fuel) p (n ∷ ns) t (e, nz, l) b (np, a) (dn, d) =
    elim (Bool-cases (ltb (t n).jiffies (t p).jiffies)) [
      | inl less ↦
          let t' = swap_timers p t in
          rw less (
            ap (λ f. contents f (p ∷ n ∷ ns)) (sink-on fuel p n t e nz less)
            ∙ contents-swap fuel p n ns t e (λ z. np (sym z)) a dn l
                (sink-contents fuel n ns t'
                  (Links-of_next t t' (t' n).next ns (λ x. next-swap p x t)
                    (rw (next-swap p n t) l))
                  (omega arith) dn d))
      | inr stop ↦ rw stop (ap (λ f. contents f (p ∷ n ∷ ns)) (sink-stop fuel p n t e nz stop))
    ]

-- A free entry `p` of the table, and the entries of the list.
pub record IsFree (p : ℕ) (ps : List ℕ) (s : Timers) : Type 0 where
  pub not_null : p ≢ 0
  pub not_in : NotIn p ps
  pub distinct : AllDistinct ps
  pub size : length ps < time_requests
  pub links : Links s.timer s.next_timer ps

-- What `put_timer` does to the list of the entries `ps`.
pub record IsPut (p jiffies fn : ℕ) (ps : List ℕ) (s s' : Timers) : Type 0 where
  pub links : Links s'.timer s'.next_timer (p ∷ ps)
  pub due : IsDue jiffies fn (contents s.timer ps) (contents s'.timer (p ∷ ps))

new_timer : (jiffies fn : ℕ) (p : ℕ) (s : Timers) → ℕ → Timer
new_timer jiffies fn p s =
    update s.timer p record { jiffies = jiffies; fn = fn; next = s.next_timer }

All-other_new :
    (jiffies fn p : ℕ) (ps : List ℕ) (s : Timers)
    → NotIn p ps
    → All (λ x. new_timer jiffies fn p s x ≡ s.timer x) ps
unfolding new_timer
All-other_new jiffies fn p [] s a = a
All-other_new jiffies fn p (x ∷ xs) s (ne, a) = (ground arith, All-other_new jiffies fn p xs s a)

Links-kept :
    (t t' : ℕ → Timer) (p : ℕ) (ps : List ℕ)
    → All (λ x. t' x ≡ t x) ps
    → Links t p ps
    → Links t' p ps
Links-kept t t' p [] a l = l
Links-kept t t' p (x ∷ xs) (e, a) (i, nz, l) = (i, nz, Links-kept t t' (t' x).next xs a (rw e l))

new_timer_self :
    (jiffies fn p : ℕ) (s : Timers)
    → new_timer jiffies fn p s p ≡ record { jiffies = jiffies; fn = fn; next = s.next_timer }
unfolding new_timer
new_timer_self jiffies fn p s = ground arith

sink-IsDue :
    (fuel p jiffies fn next : ℕ) (ps : List ℕ) (old : List (ℕ × ℕ)) (t : ℕ → Timer)
    → 1 ≤ jiffies
    → t p ≡ record { jiffies = jiffies; fn = fn; next = next }
    → contents t ps ≡ old
    → contents (sink fuel p t) (p ∷ ps) ≡ insert_delay (t p).jiffies (t p).fn (contents t ps)
    → IsDue jiffies fn old (contents (sink fuel p t) (p ∷ ps))
sink-IsDue fuel p jiffies fn next ps old t h self same c =
    let c' : contents (sink fuel p t) (p ∷ ps) ≡ insert_delay jiffies fn old =
      c ∙ rw (self, same) refl in
    rw c' (insert_delay-IsDue jiffies fn old h)

-- The part of `add_timer` that puts a timer of a positive number of ticks into the list: the list is
-- then the old entries behind the new one; the function is due after exactly that number of ticks,
-- behind all that are due sooner and before the others, and the other delays are as they were, each
-- counted from the end of the one before it. (So every timer that comes after the new one is due later
-- than it was.)
pub put_timer-IsPut :
    (p jiffies fn : ℕ) (ps : List ℕ) (s : Timers)
    → 1 ≤ jiffies
    → IsFree p ps s
    → IsPut p jiffies fn ps s (put_timer p jiffies fn s)
unfolding new_timer put_timer
put_timer-IsPut p jiffies fn ps s h free =
    let t = new_timer jiffies fn p s in
    let self = new_timer_self jiffies fn p s in
    let other = All-other_new jiffies fn p ps s free.not_in in
    let same = contents-eq s.timer t ps other in
    let linked : Links t (t p).next ps =
      rw self (Links-kept s.timer t s.next_timer ps other free.links) in
    let c = sink-contents time_requests p ps t linked free.size free.not_in free.distinct in
    record {
      links = (
        refl,
        free.not_null,
        Links-of_next t (sink time_requests p t) (sink time_requests p t p).next ps
            (λ q. next-sink time_requests p q t) (rw (next-sink time_requests p p t) linked),
      );
      due =
          sink-IsDue time_requests p jiffies fn s.next_timer ps (contents s.timer ps) t h self same
            c;
    }
