-- ===== src/Fs/Ioctl.antt =====
-- fs/ioctl.c: `sys_ioctl`. Of its table of functions only `tty_ioctl` is there, for the terminals; it
-- is an argument.
use linux.Base.{ℕ, ◌==◌, leb, not, ◌&&◌, ◌||◌, if◌then◌else◌, Bool}
use linux.Base.Int.{ℤ}
use linux.Fs.Structs.{is_chr, is_blk}
use linux.Fs.State.{M, ◌>>=◌, gets, inode, current}
use linux.Fs.Namei.Open.{fail}
use linux.Fs.ReadWrite.{nr_open, ebadf, einval, enodev, major}

abbrev pub enotty : ℕ
enotty = 25

-- `NRDEVS`
abbrev pub nr_devs : ℕ
nr_devs = 8

-- `ioctl_table[n]` is not NULL
abbrev pub has_ioctl : ℕ → Bool
has_ioctl n = n == 4 || n == 5

unfoldable pub sys_ioctl : (tty_ioctl : (dev cmd arg : ℕ) → M ℤ) (fd cmd arg : ℕ) → M ℤ
sys_ioctl tty_ioctl fd cmd arg = do
  t ← current
  let filp = t.filp fd
  file ← gets (λ s. s.file filp)
  i ← inode file.f_inode
  let dev = i.i_zone 0
  if leb nr_open fd || filp == 0
      then fail ebadf
      else if not (is_chr i.i_mode) && not (is_blk i.i_mode)
      then fail einval
      else if leb nr_devs (major dev)
      then fail enodev
      else if not (has_ioctl (major dev))
      then fail enotty
      else tty_ioctl dev cmd arg
