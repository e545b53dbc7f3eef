-- ===== src/Fs/Namei/Walk.antt =====
-- fs/namei.c: from a path name to an inode. A result of 0 for the inode is NULL.
use linux.Base.{ℕ, zero, suc, ◌+◌, ◌-◌, ◌==◌, not, ◌||◌, if◌then◌else◌, Bool, true}
use linux.Fs.Structs.{Inode, is_dir}
use linux.Fs.State.{
  M, pure, ◌>>=◌, ◌>>◌, panic, never, inode, set_inode, buffer, current, now, get_fs_byte, World,
  brelse,
}
use linux.Fs.Inode.Table.{iput, iget, add_user}
use linux.Fs.Namei.{may_exec, permission, entry_inode}
use linux.Fs.Namei.Entry.{find_entry}

abbrev pub slash : ℕ
slash = 47

module _ (w : World) where
  -- How many bytes from `pathname` on there are before a slash or the end.
  unfoldable pub component : ℕ → (pathname : ℕ) → M ℕ
  component zero pathname = never
  component (suc fuel) pathname =
      let rest = component fuel (pathname + 1) in
      do
        c ← get_fs_byte pathname
        if c == 0 || c == slash then pure 0 else (rest >>= λ n. pure (n + 1))

  -- The inode of an entry that was found in the directory, which is put.
  unfoldable pub follow : (dir bh k : ℕ) → M ℕ
  unfolding brelse iput iget
  follow dir bh k = do
    b ← buffer bh
    d ← inode dir
    brelse w bh
    iput w dir
    iget w d.i_dev (entry_inode b.b_data k)

  -- The loop of `get_dir`.
  unfoldable pub get_dir_from : ℕ → (p pathname : ℕ) → M ℕ
  unfolding component permission find_entry iput follow
  get_dir_from zero p pathname = never
  get_dir_from (suc fuel) p pathname =
      let go = λ (next : ℕ × ℕ). get_dir_from fuel next.0 next.1 in
      do
        i ← inode p
        t ← current
        let step = do
          namelen ← component w.fuel pathname
          c ← get_fs_byte (pathname + namelen)
          let descend = do
            (bh, k, dir) ← find_entry w p pathname namelen
            let enter = do
              next ← follow dir bh k
              if next == 0 then pure 0 else go (next, pathname + namelen + 1)
            if bh == 0 then iput w dir >> pure 0 else enter
          if c == 0 then pure p else descend
        if not (is_dir i.i_mode) || not (permission t i may_exec) then iput w p >> pure 0 else step

  -- A pointer that is NULL or leads to an inode without users
  abbrev is_unused : (p : ℕ) → Inode → Bool
  is_unused p i = p == 0 || i.i_count == 0

  unfoldable pub get_dir : (pathname : ℕ) → M ℕ
  unfolding get_dir_from
  get_dir pathname = do
    t ← current
    root ← inode t.root
    pwd ← inode t.pwd
    c ← get_fs_byte pathname
    let start = λ (from : ℕ × ℕ). set_inode from.0 add_user >> get_dir_from w.fuel from.0 from.1
    if is_unused t.root root || is_unused t.pwd pwd
        then panic
        else if c == slash
        then start (t.root, pathname + 1)
        else if c == 0
        then pure 0
        else start (t.pwd, pathname)

  -- The last component of a path name: its length and its address.
  unfoldable pub last_component : ℕ → (pathname basename : ℕ) → M (ℕ × ℕ)
  last_component zero pathname basename = never
  last_component (suc fuel) pathname basename =
      let go = λ (base : ℕ). last_component fuel (pathname + 1) base in
      do
        c ← get_fs_byte pathname
        if c == 0
            then pure (pathname - basename, basename)
            else go (if c == slash then pathname + 1 else basename)

  -- The directory, the length of the name in it and the name's address.
  unfoldable pub dir_namei : (pathname : ℕ) → M (ℕ × ℕ × ℕ)
  unfolding get_dir last_component
  dir_namei pathname = do
    dir ← get_dir pathname
    let split = do
      (namelen, name) ← last_component w.fuel pathname pathname
      pure (dir, namelen, name)
    if dir == 0 then pure (0, 0, 0) else split

  unfoldable pub namei : (pathname : ℕ) → M ℕ
  unfolding dir_namei find_entry iput follow
  namei pathname = do
    (dir, namelen, basename) ← dir_namei pathname
    let look = do
      (bh, k, dir) ← find_entry w dir basename namelen
      let enter = do
        p ← follow dir bh k
        time ← now
        let touched = λ (i : Inode). record i { i_atime = time; i_dirt = true }
        if p == 0 then pure 0 else set_inode p touched >> pure p
      if bh == 0 then iput w dir >> pure 0 else enter
    if dir == 0 then pure 0 else if namelen == 0 then pure dir else look
