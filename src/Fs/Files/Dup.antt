-- ===== src/Fs/Files/Dup.antt =====
-- Duplicating and closing descriptors.
use linux.Base.{
  ℕ, ◌+◌, ◌-◌, ◌%◌, ◌^◌, ◌≤◌, ◌<◌, ◌≡◌, ◌≢◌, refl, sym, ◌∙◌, ap, arith, Bool, true, ltb, ltb→lt,
  ==_iff, ◌==◌, Outcome, returns, Returns, bit_and,
}
use native.Mathlib.Decide.{ℕ_discrete}
use linux.Base.Bits.{bit, bit_not, bit-bit_and, bit-bit_not, bit-pow_self}
use linux.Base.Int.{pos, neg}
use linux.Base.Loops.{
  find_up, find_up_bounds, find_up_passes, find_up_least, holds_below, holds_below_at,
}
use linux.Kernel.Task.{current_task}
use linux.Fs.Files.{
  Files, File, nr_open, filp_of, free_fd, dupfd, sys_close, emfile, with_file, set_filp,
  with_current, clear_close_on_exec,
}

-- The descriptor `new` leads to the file of `fd`: it was the lowest free one from `arg` on.
pub record IsDup (fd arg new : ℕ) (s s' : Files) : Type 0 where
  pub in_range : (arg ≤ new) × (new < nr_open)
  pub was_free : filp_of s new ≡ 0
  pub lowest : (i : ℕ) → arg ≤ i → i < new → filp_of s i ≢ 0
  pub same_file : filp_of s' new ≡ filp_of s fd
  pub users : (s'.file (filp_of s fd)).f_count ≡ ((s.file (filp_of s fd)).f_count + 1) % 2 ^ 16
  pub not_closed_on_exec : bit new (current_task s'.tasks).close_on_exec ≡ 0
  pub other_fds : (i : ℕ) → i ≢ new → filp_of s' i ≡ filp_of s i
  pub other_files : (p : ℕ) → p ≢ filp_of s fd → s'.file p ≡ s.file p

small_powers : holds_below (λ n. ltb (2 ^ n) (2 ^ 32)) 20 ≡ true
small_powers = refl

bit-clear : (n x : ℕ) → n < 20 → bit n (bit_and x (bit_not (2 ^ n))) ≡ 0
bit-clear n x l =
    let b : 2 ^ n < 2 ^ 32 =
      ltb→lt _ _ (holds_below_at (λ n. ltb (2 ^ n) (2 ^ 32)) 20 n l small_powers) in
    omega (
      arith,
      bit-bit_and n x (bit_not (2 ^ n)),
      bit-bit_not n (2 ^ n) (omega arith) b,
      bit-pow_self n,
    )

-- `dupfd` that returns a descriptor: see `IsDup`.
pub dupfd-IsDup :
    (fd arg new : ℕ) (s : Files)
    → (dupfd fd arg s).0 ≡ pos new
    → IsDup fd arg new s (dupfd fd arg s).1
unfolding dupfd
dupfd-IsDup fd arg new s h =
    let test : ℕ → Bool = λ fd. filp_of s fd == 0 in
    let e : free_fd arg s ≡ new = ground arith in
    let below : new < nr_open = ground arith in
    let from : arg ≤ new = omega (arith, e, find_up_bounds arg (nr_open - arg) test) in
    let at : find_up arg (nr_open - arg) test < arg + (nr_open - arg) = omega (arith, e) in
    let free : filp_of s new ≡ 0 =
      (==_iff _ _).0 (rw (← e) (find_up_passes arg (nr_open - arg) test at)) in
    record {
      in_range = (from, below);
      was_free = free;
      lowest =
          λ i l u z. ground (arith, find_up_least arg (nr_open - arg) i test l (omega (arith, e)));
      same_file = ground arith;
      users = ground arith;
      not_closed_on_exec = ground (arith, bit-clear new (current_task s.tasks).close_on_exec below);
      other_fds = λ i ne. ground arith;
      other_files = λ p ne. ground arith;
    }

-- `dupfd` of an open descriptor fails with EMFILE only if every descriptor from `arg` on is in use.
dupfd-emfile :
    (fd arg : ℕ) (s : Files)
    → (dupfd fd arg s).0 ≡ neg (pos emfile)
    → (i : ℕ) → arg ≤ i
    → i < nr_open
    → filp_of s i ≢ 0
unfolding dupfd
dupfd-emfile fd arg s h i l u z =
    let test : ℕ → Bool = λ fd. filp_of s fd == 0 in
    let full : nr_open ≤ find_up arg (nr_open - arg) test = ground arith in
    ground (arith, find_up_least arg (nr_open - arg) i test l (omega (arith, full)))

abbrev closed : ℕ → Files → Files
closed fd s =
    with_file (filp_of s fd) (λ f. record f { f_count = f.f_count - 1 })
      (set_filp fd 0 (with_current (clear_close_on_exec fd) s))

sys_close-shared :
    (iput : ℕ → Files → Outcome Files) (fd : ℕ) (s : Files)
    → fd < nr_open
    → filp_of s fd ≢ 0
    → 2 ≤ (s.file (filp_of s fd)).f_count
    → sys_close iput fd s ≡ returns (pos 0, closed fd s)
unfolding sys_close
sys_close-shared iput fd s l h u = ground arith

dupfd-open : (fd arg new : ℕ) (s : Files) → (dupfd fd arg s).0 ≡ pos new → filp_of s fd ≢ 0
unfolding dupfd
dupfd-open fd arg new s h z = ground arith

filp_of-closed :
    (fd arg new i : ℕ) (s s' : Files)
    → IsDup fd arg new s s'
    → filp_of (closed new s') i ≡ filp_of s i
filp_of-closed fd arg new i s s' d = elim (ℕ_discrete i new) [
  | yes e ↦ ground (arith, d.was_free, e)
  | no ne ↦ ground (arith, d.other_fds i ne)
]

count-closed :
    (fd arg new p : ℕ) (s s' : Files)
    → IsDup fd arg new s s'
    → (s.file (filp_of s fd)).f_count < 2 ^ 16 - 1
    → ((closed new s').file p).f_count ≡ (s.file p).f_count
count-closed fd arg new p s s' d small = elim (ℕ_discrete p (filp_of s fd)) [
  | yes e ↦ ground (arith, d.same_file, d.users, e)
  | no ne ↦ ground (arith, d.same_file, ap File.f_count (d.other_files p ne))
]

-- A duplicate of a descriptor of a file that has users, fewer than 65535, that is closed again:
-- `sys_close` succeeds, and the descriptors and the users of every file are as they were.
pub sys_close-dupfd :
    (iput : ℕ → Files → Outcome Files) (fd arg new : ℕ) (s : Files)
    → (dupfd fd arg s).0 ≡ pos new
    → (s.file (filp_of s fd)).f_count ≢ 0
    → (s.file (filp_of s fd)).f_count < 2 ^ 16 - 1
    → Returns
        (λ (r, s'').
          (r ≡ pos 0)
          × ((i : ℕ) → filp_of s'' i ≡ filp_of s i)
          × ((p : ℕ) → (s''.file p).f_count ≡ (s.file p).f_count))
        (sys_close iput new (dupfd fd arg s).1)
sys_close-dupfd iput fd arg new s h used small =
    let d = dupfd-IsDup fd arg new s h in
    let s' = (dupfd fd arg s).1 in
    let open_file : filp_of s' new ≢ 0 = λ z. dupfd-open fd arg new s h (sym d.same_file ∙ z) in
    let shared : 2 ≤ (s'.file (filp_of s' new)).f_count = rw d.same_file (omega (arith, d.users)) in
    rw (sys_close-shared iput new s' d.in_range.1 open_file shared) (
      refl,
      (λ i. filp_of-closed fd arg new i s s' d),
      (λ p. count-closed fd arg new p s s' d small),
    )
