-- ===== src/Fs/Open.antt =====
-- fs/open.c and fs/stat.c: the calls that open a file or change or report what an inode says.
-- `sys_close` is in Fs/Files.
pub mod Mode
use linux.Base.{
  ℕ, zero, suc, ◌+◌, ◌-◌, ◌*◌, ◌/◌, ◌%◌, ◌^◌, ◌==◌, ltb, leb, not, ◌&&◌, ◌||◌, if◌then◌else◌, Bool,
  true, false, update, bit_and, bit_or,
}
use linux.Base.Bits.{bit_not}
use linux.Base.Int.{ℤ, pos, negsuc, neg, ltb_ℤ}
use linux.Base.Loops.{find_up}
use linux.Kernel.Task.{Task}
use linux.Kernel.Sys.{suser, enosys}
use linux.Fs.Structs.{Inode, is_dir, is_chr, is_blk}
use linux.Fs.Files.{File, nr_file, clear_close_on_exec}
use linux.Fs.State.{
  M, pure, ◌>>=◌, ◌>>◌, when, gets, inode, set_inode, current, set_current, now, set_user, set_file,
  World,
}
use linux.Fs.Inode.{read32}
use linux.Fs.Inode.Table.{iput}
use linux.Fs.Namei.Open.{fail, enoent, eacces, eperm, o_creat, o_trunc, open_namei}
use linux.Fs.Namei.Remove.{enotdir}
use linux.Fs.Namei.Walk.{namei}
use linux.Fs.ReadWrite.{Devices, nr_open, einval, ebadf, major, minor_of}

unfoldable pub sys_ustat : (dev ubuf : ℕ) → M ℤ
sys_ustat dev ubuf = fail enosys

-- `(mode & 07777) | (inode->i_mode & ~07777)`
abbrev pub changed_mode : (mode i_mode : ℕ) → ℕ
changed_mode mode i_mode = bit_or (bit_and mode 0o7777) (bit_and i_mode (0o177777 - 0o7777))

-- The test of `sys_access`. For the group the code shifts by 6, too.
unfoldable pub may_access : Task → Inode → (i_mode mode : ℕ) → Bool
may_access t i i_mode mode =
    let res = if t.uid == i.i_uid || t.gid == i.i_gid then i_mode / 64 else i_mode in
    bit_and (bit_and res 7) mode == mode
    || t.uid == 0 && (bit_and mode 1 == 0 || not (bit_and i_mode 0o111 == 0))

abbrev pub set_filp : (fd p : ℕ) → Task → Task
set_filp fd p t = record t { filp = update t.filp fd p }

-- The first free entry of `file_table`, by its pointer; 65 if there is none.
abbrev pub free_file : (ℕ → File) → ℕ
free_file file = find_up 1 nr_file (λ p. (file p).f_count == 0)

module _ (w : World) (d : Devices) where
  -- What the calls on a path name begin with: the inode, or the error.
  unfoldable pub with_path : (filename e : ℕ) → (ℕ → M ℤ) → M ℤ
  unfolding namei
  with_path filename e act = do p ← namei w filename; if p == 0 then fail e else act p

  -- `times` is where the two times lie, access first, or 0.
  unfoldable pub sys_utime : (filename times : ℕ) → M ℤ
  unfolding with_path iput
  sys_utime filename times = with_path filename enoent (λ p. do
    time ← now
    user ← gets (λ s. s.user)
    let actime = if times == 0 then time else read32 user times
    let modtime = if times == 0 then time else read32 user (times + 4)
    set_inode p (λ i. record i { i_atime = actime; i_mtime = modtime; i_dirt = true })
    iput w p
    pure (pos 0))

  unfoldable pub sys_access : (filename mode : ℕ) → M ℤ
  unfolding with_path iput may_access
  sys_access filename mode = with_path filename eacces (λ p. do
    before ← inode p
    iput w p
    i ← inode p
    t ← current
    if may_access t i (bit_and before.i_mode 0o777) (bit_and mode 7)
        then pure (pos 0)
        else fail eacces)

  unfoldable pub change_dir : (filename : ℕ) → (old : Task → ℕ) → (new : ℕ → Task → Task) → M ℤ
  unfolding with_path iput
  change_dir filename old new = with_path filename enoent (λ p. do
    i ← inode p
    t ← current
    let go = do iput w (old t); set_current (new p); pure (pos 0)
    if not (is_dir i.i_mode) then iput w p >> fail enotdir else go)

  unfoldable pub sys_chdir : (filename : ℕ) → M ℤ
  unfolding change_dir
  sys_chdir filename = change_dir filename (λ t. t.pwd) (λ p t. record t { pwd = p })

  unfoldable pub sys_chroot : (filename : ℕ) → M ℤ
  unfolding change_dir
  sys_chroot filename = change_dir filename (λ t. t.root) (λ p t. record t { root = p })

  unfoldable pub sys_chmod : (filename mode : ℕ) → M ℤ
  unfolding with_path iput
  sys_chmod filename mode = with_path filename enoent (λ p. do
    i ← inode p
    t ← current
    let change = do
      set_inode p (λ i. record i { i_mode = changed_mode mode i.i_mode; i_dirt = true })
      iput w p
      pure (pos 0)
    if not (t.euid == i.i_uid) && not (suser t) then iput w p >> fail eacces else change)

  unfoldable pub sys_chown : (filename uid gid : ℕ) → M ℤ
  unfolding with_path iput
  sys_chown filename uid gid = with_path filename enoent (λ p. do
    t ← current
    let change = do
      set_inode p (λ i. record i { i_uid = uid % 2 ^ 16; i_gid = gid % 2 ^ 8; i_dirt = true })
      iput w p
      pure (pos 0)
    if not (suser t) then iput w p >> fail eacces else change)

  -- A failed open gives the descriptor and the file back.
  unfoldable pub undo_open : (fd f : ℕ) → M (Unit {0})
  undo_open fd f = do set_current (set_filp fd 0); set_file f (λ file. record file { f_count = 0 })

  -- A terminal becomes the controlling one of a session leader that has none.
  unfoldable pub take_tty : (i : Inode) → M (Unit {0})
  take_tty i = do
    t ← current
    let tty = pos (minor_of (i.i_zone 0))
    let take = do set_current (λ t. record t { tty = tty }); d.set_tty_pgrp tty t.pgrp
    when (t.leader && ltb_ℤ t.tty (pos 0)) take

  -- The file is entered: the end of `sys_open`.
  unfoldable pub finish_open : (fd f p flag : ℕ) → M ℤ
  finish_open fd f p flag = do
    i ← inode p
    when (is_blk i.i_mode) (d.check_disk_change (i.i_zone 0))
    i ← inode p
    set_file f (λ file. record file {
      f_mode = i.i_mode;
      f_flags = flag % 2 ^ 16;
      f_count = 1;
      f_inode = p;
      f_pos = 0;
    })
    pure (pos fd)

  -- `sys_open` from `open_namei` on, with the descriptor and the file that it has taken.
  unfoldable pub open_file : (filename flag mode fd f : ℕ) → M ℤ
  unfolding open_namei iput undo_open take_tty finish_open
  open_file filename flag mode fd f = do
    (result, p) ← open_namei w filename flag mode
    i ← inode p
    t ← current
    let number = major (i.i_zone 0)
    let no_tty = is_chr i.i_mode && number == 5 && ltb_ℤ t.tty (pos 0)
    let refuse = do iput w p; undo_open fd f; fail eperm
    let go_on = do when (is_chr i.i_mode && number == 4) (take_tty i); finish_open fd f p flag
    if ltb_ℤ result (pos 0) then undo_open fd f >> pure result else if no_tty then refuse else go_on

  unfoldable pub sys_open : (filename flag mode : ℕ) → M ℤ
  unfolding open_file
  sys_open filename flag mode = do
    t ← current
    file ← gets (λ s. s.file)
    let fd = find_up 0 nr_open (λ fd. t.filp fd == 0)
    let f = free_file file
    let take = do
      set_current (set_filp fd f)
      set_file f (λ file. record file { f_count = (file.f_count + 1) % 2 ^ 16 })
      open_file filename flag (bit_and mode (bit_and 0o777 (bit_not t.umask))) fd f
    if leb nr_open fd
        then fail einval
        else set_current (clear_close_on_exec fd) >> (if ltb nr_file f then fail einval else take)

  unfoldable pub sys_creat : (pathname mode : ℕ) → M ℤ
  unfolding sys_open
  sys_creat pathname mode = sys_open pathname (o_creat + o_trunc) mode
