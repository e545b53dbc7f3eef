-- ===== src/Fs/Namei/Remove.antt =====
-- fs/namei.c: `sys_rmdir` and `sys_unlink`, which remove names. `printk` is left out.
use linux.Base.{
  ℕ, zero, suc, ◌+◌, ◌/◌, ◌==◌, not, ltb, leb, ◌&&◌, ◌||◌, if◌then◌else◌, Bool, true, false,
}
use linux.Base.Int.{ℤ, pos}
use linux.Kernel.Sys.{suser}
use linux.Fs.Structs.{is_dir, s_isvtx}
use linux.Fs.State.{
  M, pure, ◌>>=◌, ◌>>◌, inode, set_inode, buffer, set_buffer, current, now, dec8, World, bread,
  brelse,
}
use linux.Fs.Inode.{bmap}
use linux.Fs.Inode.Table.{iput, iget}
use linux.Fs.Namei.{
  may_write, dir_entries_per_block, permission, entry_inode, entry_name, enter_inode,
}
use linux.Fs.Namei.Entry.{find_entry, dot}
use linux.Fs.Namei.Walk.{dir_namei}
use linux.Fs.Namei.Open.{fail, has, enoent, eperm}

abbrev pub enotdir : ℕ
enotdir = 20

abbrev pub enotempty : ℕ
enotempty = 39

-- `strcmp(".", de[0].name)` and `strcmp("..", de[1].name)` find no difference, and the entries are
-- those of a directory.
abbrev pub has_dots : (num : ℕ) → (block : ℕ → ℕ) → Bool
has_dots num block =
    entry_inode block 0 == num
    && not (entry_inode block 1 == 0)
    && entry_name block 0 0 == dot
    && entry_name block 0 1 == 0
    && entry_name block 1 0 == dot
    && entry_name block 1 1 == dot
    && entry_name block 1 2 == 0

module _ (w : World) where
  -- The loop of `empty_dir`; `bh` stays what it is when a block is missing.
  unfoldable pub empty_from : ℕ → (p len nr bh k : ℕ) → M Bool
  unfolding brelse bmap bread
  empty_from zero p len nr bh k = brelse w bh >> pure true
  empty_from (suc fuel) p len nr bh k =
      let go = λ (next : ℕ × ℕ × ℕ). empty_from fuel p len next.0 next.1 next.2 in
      let look = λ (at : ℕ × ℕ). (do
        b ← buffer at.0
        if entry_inode b.b_data at.1 == 0
            then go (nr + 1, at.0, at.1 + 1)
            else brelse w at.0 >> pure false) in
      let turn = (do
        brelse w bh
        block ← bmap w p (pos (nr / dir_entries_per_block))
        i ← inode p
        let read_next = do
          next ← bread w i.i_dev block
          if next == 0 then pure false else look (next, 0)
        if block == 0 then go (nr + dir_entries_per_block, bh, k) else read_next) in
      if leb len nr
      then brelse w bh >> pure true
      else if leb dir_entries_per_block k
      then turn
      else look (bh, k)

  unfoldable pub empty_dir : (p : ℕ) → M Bool
  unfolding bread empty_from
  empty_dir p = do
    i ← inode p
    let len = i.i_size / 16
    let read_first = do
      bh ← bread w i.i_dev (i.i_zone 0)
      b ← buffer bh
      if bh == 0
          then pure false
          else if not (has_dots i.i_num b.b_data)
          then pure false
          else empty_from len p len 2 bh 2
    if ltb len 2 || i.i_zone 0 == 0 then pure false else read_first

  -- What both calls begin with, after the check of the user: the directory must be there, be
  -- writable and have the name. `remove` gets the directory, the buffer and the index of the entry.
  unfoldable pub with_old_name : (path : ℕ) → (remove : ℕ → ℕ → ℕ → M ℤ) → M ℤ
  unfolding dir_namei iput permission find_entry
  with_old_name path remove = do
    (dir, namelen, basename) ← dir_namei w path
    d ← inode dir
    t ← current
    let search = do
      (bh, k, dir) ← find_entry w dir basename namelen
      if bh == 0 then iput w dir >> fail enoent else remove dir bh k
    if dir == 0
        then fail enoent
        else if namelen == 0
        then iput w dir >> fail enoent
        else if not (permission t d may_write)
        then iput w dir >> fail eperm
        else search

  -- `de->inode = 0` and what goes with it
  unfoldable pub clear_entry : (bh k : ℕ) → M (Unit {0})
  unfolding brelse
  clear_entry bh k = set_buffer bh (enter_inode k 0) >> brelse w bh

  -- Nothing stands against it: the directory `p` goes.
  unfoldable pub remove_dir : (dir p bh k : ℕ) → M ℤ
  unfolding clear_entry iput
  remove_dir dir p bh k = do
    clear_entry bh k
    set_inode p (λ i. record i { i_nlinks = 0; i_dirt = true })
    time ← now
    set_inode dir (λ d. record d {
      i_nlinks = dec8 d.i_nlinks;
      i_ctime = time;
      i_mtime = time;
      i_dirt = true;
    })
    iput w dir
    iput w p
    pure (pos 0)

  unfoldable pub rmdir_at : (dir bh k : ℕ) → M ℤ
  unfolding iget iput brelse empty_dir remove_dir
  rmdir_at dir bh k = do
    b ← buffer bh
    d ← inode dir
    p ← iget w d.i_dev (entry_inode b.b_data k)
    d ← inode dir
    i ← inode p
    t ← current
    let refuse = λ (what : ℕ × ℕ × ℕ). (do iput w what.0; iput w what.1; brelse w bh; fail what.2)
    let check = do
      empty ← empty_dir p
      if empty then remove_dir dir p bh k else refuse (p, dir, enotempty)
    let sticky = has d.i_mode s_isvtx && not (t.euid == 0) && not (i.i_uid == t.euid)
    if p == 0
        then iput w dir >> brelse w bh >> fail eperm
        else if sticky || not (i.i_dev == d.i_dev) || ltb 1 i.i_count
        then refuse (dir, p, eperm)
        else if p == dir
        then refuse (p, dir, eperm)
        else if not (is_dir i.i_mode)
        then refuse (p, dir, enotdir)
        else check

  unfoldable pub sys_rmdir : (name : ℕ) → M ℤ
  unfolding with_old_name rmdir_at
  sys_rmdir name = do t ← current; if not (suser t) then fail eperm else with_old_name name rmdir_at

  -- Nothing stands against it: the name goes.
  unfoldable pub remove_name : (dir p bh k : ℕ) → M ℤ
  unfolding clear_entry iput
  remove_name dir p bh k = do
    set_inode p (λ i. record i { i_nlinks = if i.i_nlinks == 0 then 1 else i.i_nlinks })
    clear_entry bh k
    time ← now
    set_inode p (λ i. record i { i_nlinks = dec8 i.i_nlinks; i_dirt = true; i_ctime = time })
    iput w p
    iput w dir
    pure (pos 0)

  unfoldable pub unlink_at : (dir bh k : ℕ) → M ℤ
  unfolding iget iput brelse remove_name
  unlink_at dir bh k = do
    b ← buffer bh
    d ← inode dir
    p ← iget w d.i_dev (entry_inode b.b_data k)
    d ← inode dir
    i ← inode p
    t ← current
    let sticky =
        has d.i_mode s_isvtx && not (suser t) && not (t.euid == i.i_uid) && not (t.euid == d.i_uid)
    if p == 0
        then iput w dir >> brelse w bh >> fail enoent
        else if sticky
        then iput w dir >> iput w p >> brelse w bh >> fail eperm
        else if is_dir i.i_mode
        then iput w p >> iput w dir >> brelse w bh >> fail eperm
        else remove_name dir p bh k

  unfoldable pub sys_unlink : (name : ℕ) → M ℤ
  unfolding with_old_name unlink_at
  sys_unlink name = with_old_name name unlink_at
