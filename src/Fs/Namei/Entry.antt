-- ===== src/Fs/Namei/Entry.antt =====
-- fs/namei.c: `find_entry` and `add_entry`. A result of 0 for the buffer is NULL.
-- After a block that cannot be read, the source compares `de` with `BLOCK_SIZE + bh->b_data` for a
-- `bh` of NULL. The word at address 0 is an entry of the page directory and lies below every buffer,
-- so that the test passes and the next block is tried; here a `bh` of 0 passes the test.
use linux.Base.{ℕ, zero, suc, ◌+◌, ◌*◌, ◌/◌, ◌==◌, leb, not, ◌&&◌, ◌||◌, if◌then◌else◌, Bool, true}
use linux.Base.Int.{pos}
use linux.Fs.Structs.{Inode}
use linux.Fs.State.{
  M, pure, ◌>>=◌, ◌>>◌, when, never, gets, inode, set_inode, buffer, set_buffer, current, now,
  get_fs_byte, World, bread, brelse, get_super,
}
use linux.Fs.Inode.{bmap, create_block}
use linux.Fs.Inode.Table.{iput, add_user}
use linux.Fs.Namei.{
  root_ino, dir_entries_per_block, entry_inode, match, with_entry_inode, with_entry_name, cut,
}

-- The name at an address, in the memory of the process.
abbrev pub name_at : (a : ℕ) → M (ℕ → ℕ)
name_at a = gets (λ s j. s.user (a + j))

abbrev pub dot : ℕ
dot = 46

-- The new size of a directory that grows; it stays below 2^32, since a file has at most 262663
-- blocks.
abbrev pub grown : (i time : ℕ) → Inode → Inode
grown i time d = record d { i_size = (i + 1) * 16; i_dirt = true; i_ctime = time }

abbrev pub past_end : (bh k : ℕ) → Bool
past_end bh k = bh == 0 || leb dir_entries_per_block k

module _ (w : World) where
  -- What `..` means in the root of the process, and in the root of a file system that is mounted:
  -- the length to look for, and the directory.
  unfoldable pub dot_dot : (dir name len : ℕ) → M (ℕ × ℕ)
  unfolding get_super iput
  dot_dot dir name len = do
    a ← get_fs_byte name
    b ← get_fs_byte (name + 1)
    t ← current
    d ← inode dir
    let cross = do
      sb ← get_super w d.i_dev
      covered ← gets (λ s. (s.super_at sb).s_imount)
      let exchange = do iput w dir; set_inode covered add_user; pure (len, covered)
      if covered == 0 then pure (len, dir) else exchange
    if not (len == 2 && a == dot && b == dot)
        then pure (len, dir)
        else if dir == t.root
        then pure (1, dir)
        else if d.i_num == root_ino
        then cross
        else pure (len, dir)

  -- The buffer of the next block of a directory, 0 if there is none.
  unfoldable pub next_block : (dir i : ℕ) → M ℕ
  unfolding bmap bread
  next_block dir i = do
    block ← bmap w dir (pos (i / dir_entries_per_block))
    d ← inode dir
    if block == 0 then pure 0 else bread w d.i_dev block

  -- The loop of `find_entry`: entry `i` of the directory is entry `k` in `bh`. Each round adds to
  -- `i`, so that as many rounds as there are entries are enough.
  unfoldable pub find_entry_from : ℕ → (dir entries name len i bh k : ℕ) → M (ℕ × ℕ)
  unfolding brelse next_block match
  find_entry_from zero dir entries name len i bh k = brelse w bh >> pure (0, 0)
  find_entry_from (suc fuel) dir entries name len i bh k =
      let go =
        λ (next : ℕ × ℕ × ℕ). find_entry_from fuel dir entries name len next.0 next.1 next.2 in
      let look = (λ (at : ℕ × ℕ). do
        b ← buffer at.0
        text ← name_at name
        if match len text b.b_data at.1 then pure at else go (i + 1, at.0, at.1 + 1)) in
      let turn = (do
        brelse w bh
        next ← next_block dir i
        if next == 0 then go (i + dir_entries_per_block, 0, k) else look (next, 0)) in
      if leb entries i
      then brelse w bh >> pure (0, 0)
      else if past_end bh k
      then turn
      else look (bh, k)

  -- The buffer and the index of the entry, and what has become of `*dir`.
  unfoldable pub find_entry : (dir name namelen : ℕ) → M (ℕ × ℕ × ℕ)
  unfolding dot_dot bread find_entry_from
  find_entry dir name namelen = do
    entries ← gets (λ s. (s.inode_at dir).i_size / 16)
    let search = do
      (len, dir') ← dot_dot dir name (cut namelen)
      d ← inode dir'
      let scan = do
        bh ← bread w d.i_dev (d.i_zone 0)
        (found, k) ←
            if bh == 0 then pure (0, 0) else find_entry_from entries dir' entries name len 0 bh 0
        pure (found, k, dir')
      if d.i_zone 0 == 0 then pure (0, 0, dir') else scan
    if cut namelen == 0 then pure (0, 0, dir) else search

  -- An entry beyond the end is made a free one.
  unfoldable pub extend_dir : (dir i bh k : ℕ) → M (Unit {0})
  extend_dir dir i bh k = do
    d ← inode dir
    time ← now
    when (leb d.i_size (i * 16)) do
      set_buffer bh (λ b. record b { b_data = with_entry_inode k 0 b.b_data })
      set_inode dir (grown i time)

  unfoldable pub fill_name : (dir name len bh k : ℕ) → M (Unit {0})
  fill_name dir name len bh k = do
    time ← now
    set_inode dir (λ d. record d { i_mtime = time })
    text ← name_at name
    set_buffer bh (λ b. record b { b_data = with_entry_name k len text b.b_data; b_dirt = true })

  -- The loop of `add_entry`.
  unfoldable pub add_entry_from : ℕ → (dir name len i bh k : ℕ) → M (ℕ × ℕ)
  unfolding brelse create_block bread extend_dir fill_name
  add_entry_from zero dir name len i bh k = never
  add_entry_from (suc fuel) dir name len i bh k =
      let go = λ (next : ℕ × ℕ × ℕ). add_entry_from fuel dir name len next.0 next.1 next.2 in
      let fill = (λ (at : ℕ × ℕ). do
        extend_dir dir i at.0 at.1
        b ← buffer at.0
        if entry_inode b.b_data at.1 == 0
            then fill_name dir name len at.0 at.1 >> pure at
            else go (i + 1, at.0, at.1 + 1)) in
      let turn = (do
        brelse w bh
        block ← create_block w dir (pos (i / dir_entries_per_block))
        d ← inode dir
        next ← if block == 0 then pure 0 else bread w d.i_dev block
        if block == 0
            then pure (0, 0)
            else if next == 0
            then go (i + dir_entries_per_block, 0, k)
            else fill (next, 0)) in
      if past_end bh k then turn else fill (bh, k)

  unfoldable pub add_entry : (dir name namelen : ℕ) → M (ℕ × ℕ)
  unfolding bread add_entry_from
  add_entry dir name namelen = do
    d ← inode dir
    let add = do
      bh ← bread w d.i_dev (d.i_zone 0)
      if bh == 0 then pure (0, 0) else add_entry_from w.fuel dir name (cut namelen) 0 bh 0
    if cut namelen == 0 || d.i_zone 0 == 0 then pure (0, 0) else add
