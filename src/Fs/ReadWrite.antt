-- ===== src/Fs/ReadWrite.antt =====
-- fs/read_write.c and fs/char_dev.c: `lseek`, `read` and `write` of a descriptor, and the character
-- devices. Pipes and terminals, which have states of their own (Fs/Pipe, Kernel/Tty), the ports
-- and `verify_area` are an interface.
pub mod Seek
use linux.Base.{
  Option, none, some, ℕ, zero, suc, ◌+◌, ◌-◌, ◌*◌, ◌/◌, ◌%◌, ◌^◌, ◌==◌, ltb, leb, not, ◌&&◌, ◌||◌,
  if◌then◌else◌, Bool, true, false, update,
}
use linux.Base.Int.{bits_of, long_of, ℤ, pos, negsuc, neg, ltb_ℤ, ◌-ℤ◌}
use linux.Kernel.Task.{Task}
use linux.Fs.Structs.{Inode, is_reg, is_dir, is_chr, is_blk}
use linux.Fs.Files.{File}
use linux.Fs.Buffer.{Rw, read, write}
use linux.Fs.State.{
  M, pure, ◌>>=◌, ◌>>◌, gets, inode, current, get_fs_byte, set_user, set_file, World,
}
use linux.Fs.Data.{eio, file_read, file_write, block_read, block_write}
use linux.Fs.Namei.Open.{fail, eperm}

abbrev pub nr_open : ℕ
nr_open = 20

abbrev pub ebadf : ℕ
ebadf = 9

abbrev pub einval : ℕ
einval = 22

abbrev pub enodev : ℕ
enodev = 19

abbrev pub espipe : ℕ
espipe = 29

-- The other parts of the kernel that the calls on descriptors use.
pub record Devices : Type 0 where
  pub read_pipe : (p buf count : ℕ) → M ℤ
  pub write_pipe : (p buf count : ℕ) → M ℤ
  pub tty_read : (minor buf count : ℕ) → M ℤ
  pub tty_write : (minor buf count : ℕ) → M ℤ
  pub inb : (port : ℕ) → M ℕ
  pub outb : (value port : ℕ) → M (Unit {0})
  pub verify_area : (addr size : ℕ) → M (Unit {0})
  pub check_disk_change : (dev : ℕ) → M (Unit {0})
  pub set_tty_pgrp : (tty : ℤ) → (pgrp : ℤ) → M (Unit {0})
  pub wait_for_keypress : M (Unit {0})

abbrev pub major : ℕ → ℕ
major dev = dev / 256

abbrev pub minor_of : ℕ → ℕ
minor_of dev = dev % 256

-- The sum of a number and an offset, as the processor forms it.
unfoldable pub wrap_add : (base : ℕ) → (offset : ℤ) → ℤ
wrap_add base offset = long_of ((base + bits_of offset) % 2 ^ 32)

-- The position that `lseek` takes, before the test that it is not negative; `origin` is 0, 1 or 2.
unfoldable pub seek_target : (f_pos i_size : ℕ) → (offset : ℤ) → (origin : ℕ) → Option ℤ
seek_target f_pos i_size offset origin =
    if origin == 0
    then some offset
    else if origin == 1
    then some (wrap_add f_pos offset)
    else if origin == 2
    then some (wrap_add i_size offset)
    else none

-- A target below 0, or none, is refused.
abbrev pub seek_to : (filp : ℕ) → Option ℤ → M ℤ
seek_to filp none = fail einval
seek_to filp (some (negsuc n)) = fail einval
seek_to filp (some (pos n)) = set_file filp (λ f. record f { f_pos = n }) >> pure (pos n)

-- `IS_SEEKABLE`
abbrev pub is_seekable : (major : ℕ) → Bool
is_seekable m = leb 1 m && leb m 3

unfoldable pub sys_lseek : (fd : ℕ) → (offset : ℤ) → (origin : ℕ) → M ℤ
unfolding seek_target
sys_lseek fd offset origin = do
  t ← current
  let filp = t.filp fd
  f ← gets (λ s. s.file filp)
  i ← inode f.f_inode
  let bad = leb nr_open fd || filp == 0 || f.f_inode == 0 || not (is_seekable (major i.i_dev))
  if bad
      then fail ebadf
      else if i.i_pipe
      then fail espipe
      else seek_to filp (seek_target f.f_pos i.i_size offset origin)

module _ (w : World) (d : Devices) where
  unfoldable pub rw_ttyx : (rw : Bool) → (minor buf count : ℕ) → M ℤ
  rw_ttyx is_read minor buf count =
      if is_read then d.tty_read minor buf count else d.tty_write minor buf count

  unfoldable pub rw_tty : (rw : Bool) → (buf count : ℕ) → M ℤ
  unfolding rw_ttyx
  rw_tty is_read buf count = do
    t ← current
    elim t.tty [ negsuc n ↦ fail eperm | pos tty ↦ rw_ttyx is_read tty buf count ]

  -- The loop of `rw_port`; the result is `i`.
  unfoldable pub rw_port_from : ℕ → (rw : Bool) → (buf i : ℕ) → M ℕ
  rw_port_from zero is_read buf i = pure i
  rw_port_from (suc count) is_read buf i =
      let rest = rw_port_from count is_read (buf + 1) (i + 1) in
      let one = (do
        c ← get_fs_byte buf
        if is_read then (d.inb i >>= λ v. set_user (λ user. update user buf v)) else d.outb c i) in
      if ltb i 65536 then one >> rest else pure i

  unfoldable pub rw_port : (rw : Bool) → (filp buf count : ℕ) → M ℤ
  unfolding rw_port_from
  rw_port is_read filp buf count = do
    at ← gets (λ s. (s.file filp).f_pos)
    i ← rw_port_from count is_read buf at
    set_file filp (λ f. record f { f_pos = f.f_pos + (i - at) })
    pure (pos (i - at))

  -- /dev/mem and its kin; `null` is minor device 3.
  unfoldable pub rw_memory : (rw : Bool) → (minor filp buf count : ℕ) → M ℤ
  unfolding rw_port
  rw_memory is_read minor filp buf count =
      if minor == 3
      then pure (pos (if is_read then 0 else count))
      else if minor == 4
      then rw_port is_read filp buf count
      else fail eio

  -- The position goes through the file, which is where all callers keep it.
  unfoldable pub rw_char : (rw : Bool) → (dev filp buf count : ℕ) → M ℤ
  unfolding rw_memory rw_ttyx rw_tty
  rw_char is_read dev filp buf count =
      let major = major dev in
      if major == 1
      then rw_memory is_read (minor_of dev) filp buf count
      else if major == 4
      then rw_ttyx is_read (minor_of dev) buf count
      else if major == 5
      then rw_tty is_read buf count
      else fail enodev

  -- A read of a file or a directory ends at its size.
  unfoldable pub read_file : (p filp buf count : ℕ) → M ℤ
  unfolding file_read
  read_file p filp buf count = do
    i ← inode p
    f ← gets (λ s. s.file filp)
    let count = if ltb i.i_size (count + f.f_pos) then pos i.i_size -ℤ pos f.f_pos else pos count
    elim count [
      | negsuc n ↦ pure (pos 0)
      | pos n ↦ if n == 0 then pure (pos 0) else file_read w p filp buf n
    ]

  unfoldable pub read_from_file : (filp buf count : ℕ) → M ℤ
  unfolding rw_char read_file block_read
  read_from_file filp buf count = do
    f ← gets (λ s. s.file filp)
    i ← inode f.f_inode
    if i.i_pipe
        then (if f.f_mode % 2 == 1 then d.read_pipe f.f_inode buf count else fail eio)
        else if is_chr i.i_mode
        then rw_char true (i.i_zone 0) filp buf count
        else if is_blk i.i_mode
        then block_read w (i.i_zone 0) filp buf count
        else if is_dir i.i_mode || is_reg i.i_mode
        then read_file f.f_inode filp buf count
        else fail einval

  unfoldable pub sys_read : (fd buf : ℕ) → (count : ℤ) → M ℤ
  unfolding read_from_file
  sys_read fd buf (negsuc n) = fail einval
  sys_read fd buf (pos count) = do
    t ← current
    let filp = t.filp fd
    if leb nr_open fd || filp == 0
        then fail einval
        else if count == 0
        then pure (pos 0)
        else d.verify_area buf count >> read_from_file filp buf count

  unfoldable pub write_to_file : (filp buf count : ℕ) → M ℤ
  unfolding rw_char file_write block_write
  write_to_file filp buf count = do
    f ← gets (λ s. s.file filp)
    i ← inode f.f_inode
    if i.i_pipe
        then (if f.f_mode / 2 % 2 == 1 then d.write_pipe f.f_inode buf count else fail eio)
        else if is_chr i.i_mode
        then rw_char false (i.i_zone 0) filp buf count
        else if is_blk i.i_mode
        then block_write w (i.i_zone 0) filp buf count
        else if is_reg i.i_mode
        then file_write w f.f_inode filp buf count
        else fail einval

  unfoldable pub sys_write : (fd buf : ℕ) → (count : ℤ) → M ℤ
  unfolding write_to_file
  sys_write fd buf (negsuc n) = fail einval
  sys_write fd buf (pos count) = do
    t ← current
    let filp = t.filp fd
    if leb nr_open fd || filp == 0
        then fail einval
        else if count == 0
        then pure (pos 0)
        else write_to_file filp buf count
