-- ===== src/Fs/Namei/Make.antt =====
-- fs/namei.c: `sys_mknod`, `sys_mkdir` and `sys_link`, which enter new names.
use linux.Base.{ℕ, ◌%◌, ◌^◌, ◌==◌, not, ◌||◌, if◌then◌else◌, update, true, bit_and, bit_or}
use linux.Base.Bits.{bit_not}
use linux.Base.Int.{ℤ, pos}
use linux.Kernel.Sys.{suser}
use linux.Fs.Structs.{is_dir, is_blk, is_chr, s_ifdir}
use linux.Fs.State.{
  M, pure, ◌>>=◌, ◌>>◌, inode, set_inode, set_buffer, current, now, inc8, dec8, write16, World,
  bread, brelse, new_block, free_block,
}
use linux.Fs.Inode.Table.{iput, new_inode}
use linux.Fs.Namei.{may_write, permission, enter_inode}
use linux.Fs.Namei.Entry.{find_entry, add_entry, dot}
use linux.Fs.Namei.Walk.{dir_namei, namei}
use linux.Fs.Namei.Open.{fail, enoent, eacces, eexist, enospc, eperm}

abbrev pub exdev : ℕ
exdev = 18

-- `ERROR`
abbrev pub error : ℕ
error = 99

-- The entries `.` and `..` at the beginning of a block.
abbrev pub with_dots : (self parent : ℕ) → (ℕ → ℕ) → ℕ → ℕ
with_dots self parent f =
    let f₁ = update (update (write16 0 self f) 2 dot) 3 0 in
    update (update (update (write16 16 parent f₁) 18 dot) 19 dot) 20 0

module _ (w : World) where
  -- What `sys_mknod` and `sys_mkdir` begin with: the directory must be there, be writable and not
  -- have the name. Then `make` is called with the directory, the name and its length.
  unfoldable pub with_new_name : (path : ℕ) → (make : ℕ → ℕ → ℕ → M ℤ) → M ℤ
  unfolding dir_namei iput permission find_entry brelse
  with_new_name path make = do
    t ← current
    let begin = do
      (dir, namelen, basename) ← dir_namei w path
      d ← inode dir
      t ← current
      let search = do
        (bh, k, dir) ← find_entry w dir basename namelen
        if bh == 0 then make dir basename namelen else brelse w bh >> iput w dir >> fail eexist
      if dir == 0
          then fail enoent
          else if namelen == 0
          then iput w dir >> fail enoent
          else if not (permission t d may_write)
          then iput w dir >> fail eperm
          else search
    if not (suser t) then fail eperm else begin

  unfoldable pub make_node : (mode dev dir basename namelen : ℕ) → M ℤ
  unfolding new_inode add_entry iput brelse
  make_node mode dev dir basename namelen = do
    d ← inode dir
    p ← new_inode w d.i_dev
    time ← now
    let enter = do
      set_inode p (λ i. record i {
        i_mode = mode % 2 ^ 16;
        i_zone = if is_blk mode || is_chr mode then update i.i_zone 0 (dev % 2 ^ 16) else i.i_zone;
        i_mtime = time;
        i_atime = time;
        i_dirt = true;
      })
      (bh, k) ← add_entry w dir basename namelen
      i ← inode p
      let full = do iput w dir; set_inode p (λ i. record i { i_nlinks = 0 }); iput w p; fail enospc
      let done = do
        set_buffer bh (enter_inode k i.i_num)
        iput w dir
        iput w p
        brelse w bh
        pure (pos 0)
      if bh == 0 then full else done
    if p == 0 then iput w dir >> fail enospc else enter

  unfoldable pub sys_mknod : (filename mode dev : ℕ) → M ℤ
  unfolding with_new_name make_node
  sys_mknod filename mode dev = with_new_name filename (make_node mode dev)

  -- The name of the new directory `p` goes into `dir`.
  unfoldable pub enter_dir : (dir p basename namelen : ℕ) → M ℤ
  unfolding add_entry iput free_block brelse
  enter_dir dir p basename namelen = do
    (bh, k) ← add_entry w dir basename namelen
    i ← inode p
    let full = do
      iput w dir
      free_block w i.i_dev (i.i_zone 0)
      set_inode p (λ i. record i { i_nlinks = 0 })
      iput w p
      fail enospc
    let done = do
      set_buffer bh (enter_inode k i.i_num)
      set_inode dir (λ d. record d { i_nlinks = inc8 d.i_nlinks; i_dirt = true })
      iput w dir
      iput w p
      brelse w bh
      pure (pos 0)
    if bh == 0 then full else done

  -- The block of the new directory has been made: it is read and filled.
  unfoldable pub fill_dir : (mode dir p basename namelen : ℕ) → M ℤ
  unfolding bread iput free_block brelse enter_dir
  fill_dir mode dir p basename namelen = do
    i ← inode p
    bh ← bread w i.i_dev (i.i_zone 0)
    t ← current
    d ← inode dir
    let unreadable = do
      iput w dir
      free_block w i.i_dev (i.i_zone 0)
      set_inode p (λ i. record i { i_nlinks = dec8 i.i_nlinks })
      iput w p
      fail error
    let fill = do
      set_buffer bh (λ b. record b { b_data = with_dots i.i_num d.i_num b.b_data; b_dirt = true })
      set_inode p (λ i. record i { i_nlinks = 2 })
      brelse w bh
      set_inode p (λ i. record i {
        i_mode = bit_or s_ifdir (bit_and mode (bit_and 0o777 (bit_not t.umask)));
        i_dirt = true;
      })
      enter_dir dir p basename namelen
    if bh == 0 then unreadable else fill

  unfoldable pub make_dir : (mode dir basename namelen : ℕ) → M ℤ
  unfolding new_inode new_block iput fill_dir
  make_dir mode dir basename namelen = do
    d ← inode dir
    p ← new_inode w d.i_dev
    time ← now
    let make = do
      set_inode p (λ i. record i { i_size = 32; i_dirt = true; i_mtime = time; i_atime = time })
      i ← inode p
      nr ← new_block w i.i_dev
      let zone = nr % 2 ^ 16
      set_inode p (λ i. record i { i_zone = update i.i_zone 0 zone })
      let full = do
        iput w dir
        set_inode p (λ i. record i { i_nlinks = dec8 i.i_nlinks })
        iput w p
        fail enospc
      let go_on = do
        set_inode p (λ i. record i { i_dirt = true })
        fill_dir mode dir p basename namelen
      if zone == 0 then full else go_on
    if p == 0 then iput w dir >> fail enospc else make

  unfoldable pub sys_mkdir : (pathname mode : ℕ) → M ℤ
  unfolding with_new_name make_dir
  sys_mkdir pathname mode = with_new_name pathname (make_dir mode)

  -- The new name of `p` goes into `dir`.
  unfoldable pub enter_link : (p dir basename namelen : ℕ) → M ℤ
  unfolding find_entry add_entry iput brelse
  enter_link p dir basename namelen = do
    (bh, k, dir) ← find_entry w dir basename namelen
    let add = do
      (bh, k) ← add_entry w dir basename namelen
      i ← inode p
      let done = do
        set_buffer bh (enter_inode k i.i_num)
        brelse w bh
        iput w dir
        time ← now
        set_inode p (λ i. record i { i_nlinks = inc8 i.i_nlinks; i_ctime = time; i_dirt = true })
        iput w p
        pure (pos 0)
      if bh == 0 then iput w dir >> iput w p >> fail enospc else done
    if bh == 0 then add else brelse w bh >> iput w dir >> iput w p >> fail eexist

  unfoldable pub sys_link : (oldname newname : ℕ) → M ℤ
  unfolding namei dir_namei iput permission enter_link
  sys_link oldname newname = do
    p ← namei w oldname
    i ← inode p
    let find_dir = do
      (dir, namelen, basename) ← dir_namei w newname
      d ← inode dir
      old ← inode p
      t ← current
      if dir == 0
          then iput w p >> fail eacces
          else if namelen == 0
          then iput w p >> iput w dir >> fail eperm
          else if not (d.i_dev == old.i_dev)
          then iput w dir >> iput w p >> fail exdev
          else if not (permission t d may_write)
          then iput w dir >> iput w p >> fail eacces
          else enter_link p dir basename namelen
    if p == 0 then fail enoent else if is_dir i.i_mode then iput w p >> fail eperm else find_dir
