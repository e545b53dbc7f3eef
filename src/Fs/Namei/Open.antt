-- ===== src/Fs/Namei/Open.antt =====
-- fs/namei.c: `open_namei`, which opens or creates a file by its name.
use linux.Base.{ℕ, ◌+◌, ◌%◌, ◌^◌, ◌==◌, not, ◌&&◌, ◌||◌, if◌then◌else◌, Bool, true, bit_and, bit_or}
use linux.Base.Bits.{bit_not}
use linux.Base.Int.{ℤ, pos, neg}
use linux.Fs.Structs.{is_dir}
use linux.Fs.State.{
  M, pure, ◌>>=◌, ◌>>◌, when, inode, set_inode, buffer, set_buffer, current, now, dec8, World,
  brelse,
}
use linux.Fs.Truncate.{truncate}
use linux.Fs.Inode.Table.{iput, iget, new_inode}
use linux.Fs.Namei.{may_write, acc_mode, permission, entry_inode, enter_inode}
use linux.Fs.Namei.Entry.{find_entry, add_entry}
use linux.Fs.Namei.Walk.{dir_namei}

abbrev pub o_accmode : ℕ
o_accmode = 3

abbrev pub o_creat : ℕ
o_creat = 0o100

abbrev pub o_excl : ℕ
o_excl = 0o200

abbrev pub o_trunc : ℕ
o_trunc = 0o1000

abbrev pub enoent : ℕ
enoent = 2

abbrev pub eacces : ℕ
eacces = 13

abbrev pub eexist : ℕ
eexist = 17

abbrev pub eisdir : ℕ
eisdir = 21

abbrev pub enospc : ℕ
enospc = 28

abbrev pub eperm : ℕ
eperm = 1

-- `flag & bits`, as a condition
abbrev pub has : (flag bits : ℕ) → Bool
has flag bits = not (bit_and flag bits == 0)

-- `return -e;`
abbrev pub fail : (e : ℕ) → M ℤ
fail e = pure (neg (pos e))

-- The same for `open_namei`, which leaves `*res_inode` alone.
abbrev pub fail_open : (e : ℕ) → M (ℤ × ℕ)
fail_open e = pure (neg (pos e), 0)

-- Truncation needs permission to write.
abbrev pub open_flag : (flag : ℕ) → ℕ
open_flag flag = if has flag o_trunc && not (has flag o_accmode) then bit_or flag 1 else flag

-- The mode of a new file.
abbrev pub create_mode : (mode umask : ℕ) → ℕ
create_mode mode umask = bit_or (bit_and mode (bit_and 0o777 (bit_not umask))) 0o100000

module _ (w : World) where
  -- The name is new: the result and `*res_inode`.
  unfoldable pub open_new : (flag mode dir basename namelen : ℕ) → M (ℤ × ℕ)
  unfolding permission new_inode add_entry iput brelse
  open_new flag mode dir basename namelen = do
    d ← inode dir
    t ← current
    let refuse = λ (e : ℕ). iput w dir >> fail_open e
    let enter = λ (p : ℕ). do
      set_inode p (λ i. record i { i_uid = t.euid; i_mode = mode % 2 ^ 16; i_dirt = true })
      (bh, k) ← add_entry w dir basename namelen
      i ← inode p
      let full = do
        set_inode p (λ i. record i { i_nlinks = dec8 i.i_nlinks })
        iput w p
        refuse enospc
      let done = do set_buffer bh (enter_inode k i.i_num); brelse w bh; iput w dir; pure (pos 0, p)
      if bh == 0 then full else done
    let create = do p ← new_inode w d.i_dev; if p == 0 then refuse enospc else enter p
    if not (has flag o_creat)
        then refuse enoent
        else if not (permission t d may_write)
        then refuse eacces
        else create

  -- The name was found.
  unfoldable pub open_old : (flag dir bh k : ℕ) → M (ℤ × ℕ)
  unfolding brelse iput iget permission truncate
  open_old flag dir bh k = do
    b ← buffer bh
    d ← inode dir
    brelse w bh
    iput w dir
    let opened = λ (p : ℕ). do
      time ← now
      set_inode p (λ i. record i { i_atime = time })
      when (has flag o_trunc) (truncate w p)
      pure (pos 0, p)
    let get = do
      p ← iget w d.i_dev (entry_inode b.b_data k)
      i ← inode p
      t ← current
      let not_allowed =
          is_dir i.i_mode && has flag o_accmode || not (permission t i (acc_mode flag))
      if p == 0
          then fail_open eacces
          else if not_allowed
          then iput w p >> fail_open eperm
          else opened p
    if has flag o_excl then fail_open eexist else get

  unfoldable pub open_namei : (pathname flag mode : ℕ) → M (ℤ × ℕ)
  unfolding dir_namei find_entry iput open_new open_old
  open_namei pathname flag mode = do
    t ← current
    (dir, namelen, basename) ← dir_namei w pathname
    let flag = open_flag flag
    let directory =
        if has flag (o_accmode + o_creat + o_trunc)
        then iput w dir >> fail_open eisdir
        else pure (pos 0, dir)
    let look = do
      (bh, k, dir) ← find_entry w dir basename namelen
      if bh == 0
          then open_new flag (create_mode mode t.umask) dir basename namelen
          else open_old flag dir bh k
    if dir == 0 then fail_open enoent else if namelen == 0 then directory else look
