-- ===== src/Fs/Stat.antt =====
-- fs/stat.c: what an inode says, as the bytes of `struct stat`.
use linux.Base.{ℕ, ◌+◌, ◌-◌, ◌==◌, ltb, leb, ◌&&◌, ◌||◌, if◌then◌else◌}
use linux.Base.Int.{ℤ, pos}
use linux.Fs.Structs.{Inode}
use linux.Fs.State.{M, pure, ◌>>=◌, ◌>>◌, gets, inode, current, set_user, World}
use linux.Fs.Inode.{byte_of}
use linux.Fs.Inode.Table.{iput}
use linux.Fs.Namei.Open.{fail, enoent}
use linux.Fs.Namei.Walk.{namei}
use linux.Fs.ReadWrite.{Devices, nr_open, ebadf}

-- `sizeof (struct stat)`
abbrev pub stat_size : ℕ
stat_size = 32

-- Byte `k` of `tmp`. The fields are aligned to their sizes; `stack` is what the bytes between them
-- hold, which nothing sets.
unfoldable pub stat_byte : (stack : ℕ → ℕ) → Inode → (k : ℕ) → ℕ
stat_byte stack i k =
    if ltb k 2
    then byte_of i.i_dev k
    else if ltb k 4
    then byte_of i.i_num (k - 2)
    else if ltb k 6
    then byte_of i.i_mode (k - 4)
    else if k == 6
    then byte_of i.i_nlinks 0
    else if k == 7
    then stack k
    else if ltb k 10
    then byte_of i.i_uid (k - 8)
    else if k == 10
    then byte_of i.i_gid 0
    else if k == 11
    then stack k
    else if ltb k 14
    then byte_of (i.i_zone 0) (k - 12)
    else if ltb k 16
    then stack k
    else if ltb k 20
    then byte_of i.i_size (k - 16)
    else if ltb k 24
    then byte_of i.i_atime (k - 20)
    else if ltb k 28
    then byte_of i.i_mtime (k - 24)
    else byte_of i.i_ctime (k - 28)

module _ (w : World) (d : Devices) (stack : ℕ → ℕ) where
  unfoldable pub cp_stat : (p statbuf : ℕ) → M (Unit {0})
  unfolding stat_byte
  cp_stat p statbuf = do
    d.verify_area statbuf stat_size
    i ← inode p
    set_user (λ user a.
        if leb statbuf a && ltb a (statbuf + stat_size)
        then stat_byte stack i (a - statbuf)
        else user a)

  unfoldable pub sys_stat : (filename statbuf : ℕ) → M ℤ
  unfolding namei cp_stat iput
  sys_stat filename statbuf = do
    p ← namei w filename
    let copy = do cp_stat p statbuf; iput w p; pure (pos 0)
    if p == 0 then fail enoent else copy

  unfoldable pub sys_fstat : (fd statbuf : ℕ) → M ℤ
  unfolding cp_stat
  sys_fstat fd statbuf = do
    t ← current
    f ← gets (λ s. s.file (t.filp fd))
    if leb nr_open fd || t.filp fd == 0 || f.f_inode == 0
        then fail ebadf
        else cp_stat f.f_inode statbuf >> pure (pos 0)
