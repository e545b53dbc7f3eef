-- ===== src/Fs/Files.antt =====
-- fs/fcntl.c, `sys_close` of fs/open.c and `sys_pipe` of fs/pipe.c: the descriptors of a task and the
-- table of open files. The pointer to entry `i` of `file_table` is `i + 1`, and NULL is 0.
pub mod Dup
use linux.Base.{
  ℕ, zero, suc, ◌+◌, ◌-◌, ◌*◌, ◌/◌, ◌%◌, ◌^◌, Bool, true, false, Option, none, some, bit_and,
  bit_or, ltb, leb, ◌==◌, not, ◌&&◌, ◌||◌, if◌then◌else◌, update, Outcome, returns, panics, ◌>>=◌,
}
use linux.Base.Bits.{bit, bit_not}
use linux.Base.Int.{ℤ, pos, negsuc, neg}
use linux.Base.Loops.{find_up}
use linux.Kernel.Task.{Task, Tasks, current_task, modify}

pub record File : Type 0 where
  pub f_mode : ℕ
  pub f_flags : ℕ
  pub f_count : ℕ
  pub f_inode : ℕ
  pub f_pos : ℕ

-- The tasks and the open files, by their pointers.
pub record Files : Type 0 where
  pub tasks : Tasks
  pub file : ℕ → File

abbrev pub nr_open : ℕ
nr_open = 20

abbrev pub nr_file : ℕ
nr_file = 64

abbrev pub ebadf : ℕ
ebadf = 9

abbrev pub einval : ℕ
einval = 22

abbrev pub emfile : ℕ
emfile = 24

-- `current->filp[fd]`
abbrev pub filp_of : Files → ℕ → ℕ
filp_of s fd = (current_task s.tasks).filp fd

abbrev pub with_current : (Task → Task) → Files → Files
with_current f s = record s { tasks = modify s.tasks.current f s.tasks }

abbrev pub set_filp : ℕ → ℕ → Files → Files
set_filp fd p = with_current (λ t. record t { filp = update t.filp fd p })

abbrev pub with_file : ℕ → (File → File) → Files → Files
with_file p f s = record s { file = update s.file p (f (s.file p)) }

abbrev pub clear_close_on_exec : ℕ → Task → Task
clear_close_on_exec fd t = record t { close_on_exec = bit_and t.close_on_exec (bit_not (2 ^ fd)) }

abbrev pub set_close_on_exec : ℕ → Task → Task
set_close_on_exec fd t = record t { close_on_exec = bit_or t.close_on_exec (2 ^ fd) }

-- `f_count++` of an unsigned short
abbrev pub add_user : File → File
add_user f = record f { f_count = (f.f_count + 1) % 2 ^ 16 }

-- The lowest free descriptor from `arg` on; `nr_open` if there is none.
abbrev pub free_fd : ℕ → Files → ℕ
free_fd arg s = find_up arg (nr_open - arg) (λ fd. filp_of s fd == 0)

unfoldable pub dupfd : ℕ → ℕ → Files → ℤ × Files
dupfd fd arg s =
    let new = free_fd arg s in
    if leb nr_open fd || filp_of s fd == 0
    then (neg (pos ebadf), s)
    else if leb nr_open arg
    then (neg (pos einval), s)
    else if leb nr_open new
    then (neg (pos emfile), s)
    else (
      pos new,
      with_file (filp_of s fd) add_user
          (set_filp new (filp_of s fd) (with_current (clear_close_on_exec new) s)),
    )

-- `iput` of fs/inode.c gets the inode of a file that nobody has open any more.
unfoldable pub sys_close : (iput : ℕ → Files → Outcome Files) → ℕ → Files → Outcome (ℤ × Files)
sys_close iput fd s =
    let p = filp_of s fd in
    let s₁ = with_current (clear_close_on_exec fd) s in
    let s₂ = set_filp fd 0 s₁ in
    let s₃ = with_file p (λ f. record f { f_count = f.f_count - 1 }) s₂ in
    if leb nr_open fd
    then returns (neg (pos einval), s)
    else if p == 0
    then returns (neg (pos einval), s₁)
    else if (s₂.file p).f_count == 0
    then panics
    else if not ((s₃.file p).f_count == 0)
    then returns (pos 0, s₃)
    else (iput (s₃.file p).f_inode s₃ >>= λ s₄. returns (pos 0, s₄))

unfoldable pub sys_dup2 :
    (iput : ℕ → Files → Outcome Files) → (oldfd newfd : ℕ) → Files → Outcome (ℤ × Files)
unfolding sys_close dupfd
sys_dup2 iput oldfd newfd s = sys_close iput newfd s >>= λ (_, s'). returns (dupfd oldfd newfd s')

unfoldable pub sys_dup : ℕ → Files → ℤ × Files
unfolding dupfd
sys_dup fildes = dupfd fildes 0

-- `O_APPEND | O_NONBLOCK`
abbrev pub settable_flags : ℕ
settable_flags = 0o6000

-- The commands 0 to 4 are F_DUPFD, F_GETFD, F_SETFD, F_GETFL and F_SETFL.
unfoldable pub sys_fcntl : (fd cmd arg : ℕ) → Files → ℤ × Files
unfolding dupfd bit
sys_fcntl fd cmd arg s =
    let filp = filp_of s fd in
    let set_flags = λ (f : File). record f {
      f_flags = bit_or (bit_and f.f_flags (bit_not settable_flags)) (bit_and arg settable_flags);
    } in
    if leb nr_open fd || filp == 0
    then (neg (pos ebadf), s)
    else if cmd == 0
    then dupfd fd arg s
    else if cmd == 1
    then (pos (bit fd (current_task s.tasks).close_on_exec), s)
    else if cmd == 2
    then (
      pos 0,
      (if bit_and arg 1 == 0
          then with_current (clear_close_on_exec fd) s
          else with_current (set_close_on_exec fd) s),
    )
    else if cmd == 3
    then (pos (s.file filp).f_flags, s)
    else if cmd == 4
    then (pos 0, with_file filp set_flags s)
    else (negsuc 0, s)

abbrev free_file : ℕ → Files → ℕ
free_file from s = find_up from (nr_file - from) (λ i. (s.file (i + 1)).f_count == 0)

-- Two free entries of `file_table`, each then with one user. With one free entry alone nothing
-- changes in the end.
unfoldable pub two_files : Files → Option (ℕ × ℕ × Files)
two_files s =
    let i = free_file 0 s in
    let j = free_file (i + 1) s in
    if leb nr_file i || leb nr_file j
    then none
    else some (i + 1, j + 1, with_file (j + 1) add_user (with_file (i + 1) add_user s))

-- Two free descriptors, which lead to the two files.
unfoldable pub two_fds : (f₀ f₁ : ℕ) → Files → Option (ℕ × ℕ × Files)
two_fds f₀ f₁ s =
    let i = free_fd 0 s in
    let j = free_fd (i + 1) s in
    if leb nr_open i || leb nr_open j then none else some (i, j, set_filp j f₁ (set_filp i f₀ s))

abbrev pub end_of_pipe : (inode mode : ℕ) → File → File
end_of_pipe inode mode f = record f { f_inode = inode; f_pos = 0; f_mode = mode }

abbrev unused : File → File
unused f = record f { f_count = 0 }

-- `get_pipe_inode` of fs/inode.c gives the inode, or NULL. The descriptors of the result are what
-- goes through `fildes`.
unfoldable pub sys_pipe : (get_pipe_inode : Files → ℕ × Files) → Files → ℤ × Option (ℕ × ℕ) × Files
unfolding two_files two_fds
sys_pipe get_pipe_inode s = elim (two_files s) [
  | none ↦ (negsuc 0, none, s)
  | some (f₀, f₁, s₁) ↦ elim (two_fds f₀ f₁ s₁) [
    | none ↦ (negsuc 0, none, with_file f₁ unused (with_file f₀ unused s₁))
    | some (fd₀, fd₁, s₂) ↦
        let (inode, s₃) = get_pipe_inode s₂ in
        if inode == 0
        then (
          negsuc 0,
          none,
          with_file f₁ unused (with_file f₀ unused (set_filp fd₁ 0 (set_filp fd₀ 0 s₃))),
        )
        else (
          pos 0,
          some (fd₀, fd₁),
          with_file f₁ (end_of_pipe inode 2) (with_file f₀ (end_of_pipe inode 1) s₃),
        )
  ]
]
