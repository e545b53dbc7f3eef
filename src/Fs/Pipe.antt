-- ===== src/Fs/Pipe.antt =====
-- fs/pipe.c: reading and writing the ring of a pipe, which lies in one page.
-- `PIPE_HEAD` and `PIPE_TAIL` are below 4096, since each store of one masks it.
pub mod Ring
pub mod Fifo
pub mod Write
use linux.Base.{
  ℕ, zero, suc, ◌+◌, ◌-◌, ◌%◌, ◌^◌, min, Bool, true, false, bit_or, ltb, ◌==◌, not, if◌then◌else◌,
  update, Outcome, returns, hangs,
}
use linux.Base.Int.{ℤ, pos, negsuc}
use linux.Base.Loops.{for_up}
use linux.Kernel.Task.{Task, Tasks, modify, sig_bit}
use linux.Kernel.Sched.{wake_up}

abbrev pub page_size : ℕ
page_size = 4096

-- The inode of a pipe: the page that `i_size` leads to, the two indices in `i_zone`, the users, and
-- the address of its wait queue.
pub record Pipe : Type 0 where
  pub page : ℕ → ℕ
  pub pipe_head : ℕ
  pub pipe_tail : ℕ
  pub i_count : ℕ
  pub i_wait : ℕ

-- The pipe, the tasks and the memory of the calling process.
pub record PipeSystem : Type 0 where
  pub inode : Pipe
  pub tasks : Tasks
  pub user : ℕ → ℕ

-- `PIPE_SIZE`, of unsigned shorts
abbrev pub pipe_size : Pipe → ℕ
pipe_size p = (p.pipe_head + 2 ^ 16 - p.pipe_tail) % page_size

abbrev pub wake : PipeSystem → PipeSystem
wake s = record s { tasks = wake_up s.inode.i_wait s.tasks }

-- `chars` bytes from the tail of the ring to `buf`.
unfoldable pub read_chunk : ℕ → ℕ → PipeSystem → PipeSystem
read_chunk chars buf s =
    let size = s.inode.pipe_tail in
    let inode' = record s.inode { pipe_tail = (size + chars) % page_size } in
    record s {
      inode = inode';
      user = for_up 0 chars (λ i user. update user (buf + i) (s.inode.page (size + i))) s.user;
    }

-- `chars` bytes from `buf` to the head of the ring.
unfoldable pub write_chunk : ℕ → ℕ → PipeSystem → PipeSystem
write_chunk chars buf s =
    let size = s.inode.pipe_head in
    let page' = for_up 0 chars (λ i page. update page (size + i) (s.user (buf + i))) s.inode.page in
    let inode' = record s.inode { pipe_head = (size + chars) % page_size; page = page' } in
    record s { inode = inode' }

-- The loops of `read_pipe`, on fuel for the rounds of both. `resume` is what happens while the
-- reader sleeps, at each fuel.
unfoldable pub read_from :
    ℕ → (ℕ → PipeSystem → PipeSystem) → (buf count read : ℕ) → PipeSystem → Outcome (ℕ × PipeSystem)
unfolding read_chunk
read_from zero resume buf count read s = hangs
read_from (suc fuel) resume buf count read s =
    let size = pipe_size s.inode in
    let chars = min (min (page_size - s.inode.pipe_tail) count) size in
    let slept = read_from fuel resume buf count read (resume fuel (wake s)) in
    let rest =
      read_from fuel resume (buf + chars) (count - chars) (read + chars) (read_chunk chars buf s) in
    if count == 0
    then returns (read, wake s)
    else if size == 0
    then (if s.inode.i_count == 2 then slept else returns (read, wake s))
    else rest

unfoldable pub read_pipe :
    ℕ → (ℕ → PipeSystem → PipeSystem) → (buf count : ℕ) → PipeSystem → Outcome (ℕ × PipeSystem)
unfolding read_from
read_pipe fuel resume buf count s = read_from fuel resume buf count 0 s

abbrev pub sigpipe : ℕ
sigpipe = 13

abbrev pub broken_pipe : Task → Task
broken_pipe t = record t { signal = bit_or t.signal (sig_bit sigpipe) }

abbrev pub signal_current : PipeSystem → PipeSystem
signal_current s = record s { tasks = modify s.tasks.current broken_pipe s.tasks }

-- The loops of `write_pipe`.
unfoldable pub write_to :
    ℕ
    → (ℕ → PipeSystem → PipeSystem)
    → (buf count written : ℕ) → PipeSystem
    → Outcome (ℤ × PipeSystem)
unfolding write_chunk
write_to zero resume buf count written s = hangs
write_to (suc fuel) resume buf count written s =
    let size = page_size - 1 - pipe_size s.inode in
    let chars = min (min (page_size - s.inode.pipe_head) count) size in
    let slept = write_to fuel resume buf count written (resume fuel (wake s)) in
    let rest =
      write_to fuel resume (buf + chars) (count - chars) (written + chars)
        (write_chunk chars buf s) in
    if count == 0
    then returns (pos written, wake s)
    else if size == 0
    then (if s.inode.i_count == 2
        then slept
        else returns (if written == 0 then negsuc 0 else pos written, signal_current (wake s)))
    else rest

unfoldable pub write_pipe :
    ℕ → (ℕ → PipeSystem → PipeSystem) → (buf count : ℕ) → PipeSystem → Outcome (ℤ × PipeSystem)
unfolding write_to
write_pipe fuel resume buf count s = write_to fuel resume buf count 0 s
