-- ===== src/Fs/Super.antt =====
-- fs/super.c: super blocks and mounts. `get_super` is in Fs/State; `printk` is left out, and so is
-- the waking of those who wait for a super block.
use linux.Base.{
  ℕ, zero, suc, ◌+◌, ◌/◌, ◌%◌, ◌==◌, ltb, leb, not, ◌&&◌, ◌||◌, if◌then◌else◌, Bool, true, false,
  update, bit_or,
}
use linux.Base.Int.{ℤ, pos}
use linux.Base.Loops.{find_up}
use linux.Fs.Structs.{SuperBlock, is_dir, is_blk}
use linux.Fs.Buffer.{BufferHead, sync_dev as sync_dev_cache}
use linux.Fs.Bitmap.{test_bit}
use linux.Fs.State.{
  FileSystem, M, pure, ◌>>=◌, ◌>>◌, when, panic, gets, puts, inode, set_inode, set_super, set_file,
  set_current, buffer, set_buffer, each, read16, World, wait_on_super, get_super, bread, brelse,
}
use linux.Fs.Inode.{nr_inode, read32}
use linux.Fs.Inode.Table.{iput, iget}
use linux.Fs.Namei.{root_ino}
use linux.Fs.Namei.Open.{fail, enoent, eperm}
use linux.Fs.Namei.Walk.{namei}
use linux.Fs.ReadWrite.{Devices, major}

abbrev pub super_magic : ℕ
super_magic = 0x137f

abbrev pub enotblk : ℕ
enotblk = 15

abbrev pub ebusy : ℕ
ebusy = 16

abbrev pub super_at : ℕ → M SuperBlock
super_at p = gets (λ s. s.super_at p)

-- `*((struct d_super_block *) s) = *((struct d_super_block *) data)`
unfoldable pub load_d_super : (ℕ → ℕ) → SuperBlock → SuperBlock
load_d_super f s = record s {
  s_ninodes = read16 f 0;
  s_nzones = read16 f 2;
  s_imap_blocks = read16 f 4;
  s_zmap_blocks = read16 f 6;
  s_firstdatazone = read16 f 8;
  s_log_zone_size = read16 f 10;
  s_max_size = read32 f 12;
  s_magic = read16 f 16;
}

-- The lock taken and given back.
abbrev pub super_locked : Bool → SuperBlock → SuperBlock
super_locked b s = record s { s_lock = b }

abbrev pub free_super : ℕ → M (Unit {0})
free_super p = set_super p (super_locked false)

-- `b_data[0] |= 1`
abbrev pub set_first_bit : BufferHead → BufferHead
set_first_bit b = record b { b_data = update b.b_data 0 (bit_or (b.b_data 0) 1) }

-- The loop of `mount_root` that counts the free ones of the numbers below `n`.
unfoldable pub count_free : (n : ℕ) → (maps : ℕ → ℕ) → FileSystem → ℕ
count_free zero maps s = 0
count_free (suc n) maps s =
    (if test_bit (n % 8192) (s.cache.head (maps (n / 8192))).b_data then 0 else 1)
    + count_free n maps s

module _ (w : World) where
  unfoldable pub lock_super : ℕ → M (Unit {0})
  unfolding wait_on_super
  lock_super p = wait_on_super w p >> set_super p (super_locked true)

  -- The buffers of both maps are released.
  unfoldable pub release_maps : ℕ → M (Unit {0})
  unfolding each brelse
  release_maps p = do
    each 0 8 (λ i. super_at p >>= λ s. brelse w (s.s_imap i))
    each 0 8 (λ i. super_at p >>= λ s. brelse w (s.s_zmap i))

  unfoldable pub put_super : (dev : ℕ) → M (Unit {0})
  unfolding get_super lock_super release_maps
  put_super dev = do
    root_dev ← gets (λ s. s.root_dev)
    let put = do
      p ← get_super w dev
      s ← super_at p
      let drop = do
        lock_super p
        set_super p (λ s. record s { s_dev = 0 })
        release_maps p
        free_super p
      when (not (p == 0) && s.s_imount == 0) drop
    when (not (dev == root_dev)) put

  -- The loops that read the maps, from block `block` on: each stops at the first block that cannot
  -- be read. The source does not bound the counts, which come from the disk, by the 8 slots.
  unfoldable pub read_maps : ℕ → (dev i block : ℕ) → (store : ℕ → ℕ → M (Unit {0})) → M ℕ
  unfolding bread
  read_maps zero dev i block store = pure block
  read_maps (suc n) dev i block store =
      let rest = read_maps n dev (i + 1) (block + 1) store in
      do bh ← bread w dev block; store i bh; if bh == 0 then pure block else rest

  -- The super block could not be read.
  unfoldable pub give_up : ℕ → M ℕ
  give_up p = do set_super p (λ s. record s { s_dev = 0 }); free_super p; pure 0

  abbrev pub store_imap : (p : ℕ) → ℕ → ℕ → M (Unit {0})
  store_imap p i bh = set_super p (λ s. record s { s_imap = update s.s_imap i bh })

  abbrev pub store_zmap : (p : ℕ) → ℕ → ℕ → M (Unit {0})
  store_zmap p i bh = set_super p (λ s. record s { s_zmap = update s.s_zmap i bh })

  -- The maps of a super block that has been read.
  unfoldable pub load_maps : (dev p : ℕ) → M ℕ
  unfolding each read_maps release_maps give_up
  load_maps dev p = do
    each 0 8 (λ i. store_imap p i 0)
    each 0 8 (λ i. store_zmap p i 0)
    s ← super_at p
    block ← read_maps s.s_imap_blocks dev 0 2 (store_imap p)
    block ← read_maps s.s_zmap_blocks dev 0 block (store_zmap p)
    t ← super_at p
    let ready = do
      set_buffer (t.s_imap 0) set_first_bit
      set_buffer (t.s_zmap 0) set_first_bit
      free_super p
      pure p
    if block == 2 + s.s_imap_blocks + s.s_zmap_blocks then ready else release_maps p >> give_up p

  -- The super block of `dev` is read into the free entry `p`.
  unfoldable pub fill_super : (dev p : ℕ) → M ℕ
  unfolding lock_super bread brelse load_d_super give_up load_maps
  fill_super dev p = do
    set_super p (λ s. record s {
      s_dev = dev;
      s_isup = 0;
      s_imount = 0;
      s_time = 0;
      s_rd_only = false;
      s_dirt = false;
    })
    lock_super p
    bh ← bread w dev 1
    b ← buffer bh
    let load = do
      set_super p (load_d_super b.b_data)
      brelse w bh
      s ← super_at p
      if s.s_magic == super_magic then load_maps dev p else give_up p
    if bh == 0 then give_up p else load

  module _ (d : Devices) where
    unfoldable pub read_super : (dev : ℕ) → M ℕ
    unfolding get_super fill_super
    read_super dev = do
      let read = do
        d.check_disk_change dev
        found ← get_super w dev
        free ← gets (λ s. find_up 1 8 (λ p. (s.super_at p).s_dev == 0))
        if not (found == 0) then pure found else if ltb 8 free then pure 0 else fill_super dev free
      if dev == 0 then pure 0 else read

    -- Whether an inode of the device is in use.
    abbrev pub is_busy : (dev : ℕ) → FileSystem → Bool
    is_busy dev s =
        leb
          (find_up 1 nr_inode
            (λ p. (s.inode_at p).i_dev == dev && not ((s.inode_at p).i_count == 0)))
          nr_inode

    -- The file system of the super block `sb` leaves its place.
    unfoldable pub unmount : (dev sb : ℕ) → M ℤ
    unfolding iput put_super sync_dev_cache
    unmount dev sb = do
      s ← super_at sb
      set_inode s.s_imount (λ i. record i { i_mount = false })
      iput w s.s_imount
      set_super sb (λ s. record s { s_imount = 0 })
      s ← super_at sb
      iput w s.s_isup
      set_super sb (λ s. record s { s_isup = 0 })
      put_super dev
      puts (λ s. record s { cache = sync_dev_cache w.driver dev s.cache })
      pure (pos 0)

    unfoldable pub sys_umount : (dev_name : ℕ) → M ℤ
    unfolding namei iput get_super unmount
    sys_umount dev_name = do
      p ← namei w dev_name
      i ← inode p
      let dev = i.i_zone 0
      let go = do
        iput w p
        root_dev ← gets (λ s. s.root_dev)
        let find = do
          sb ← get_super w dev
          s ← super_at sb
          busy ← gets (is_busy dev)
          if sb == 0 || s.s_imount == 0
              then fail enoent
              else if busy
              then fail ebusy
              else unmount dev sb
        if dev == root_dev then fail ebusy else find
      if p == 0 then fail enoent else if not (is_blk i.i_mode) then iput w p >> fail enotblk else go

    -- The device `dev` is mounted at the directory `dir`.
    unfoldable pub mount_at : (dev dir : ℕ) → M ℤ
    unfolding iput read_super
    mount_at dev dir = do
      i ← inode dir
      let read = do
        sb ← read_super dev
        s ← super_at sb
        i ← inode dir
        let attach = do
          set_super sb (λ s. record s { s_imount = dir })
          set_inode dir (λ i. record i { i_mount = true; i_dirt = true })
          pure (pos 0)
        if sb == 0 || not (s.s_imount == 0)
            then iput w dir >> fail ebusy
            else if i.i_mount
            then iput w dir >> fail eperm
            else attach
      if not (i.i_count == 1) || i.i_num == root_ino
          then iput w dir >> fail ebusy
          else if not (is_dir i.i_mode)
          then iput w dir >> fail eperm
          else read

    unfoldable pub sys_mount : (dev_name dir_name rw_flag : ℕ) → M ℤ
    unfolding namei iput mount_at
    sys_mount dev_name dir_name rw_flag = do
      p ← namei w dev_name
      i ← inode p
      let go = do
        iput w p
        dir ← namei w dir_name
        if dir == 0 then fail enoent else mount_at (i.i_zone 0) dir
      if p == 0 then fail enoent else if not (is_blk i.i_mode) then iput w p >> fail eperm else go

    -- The root inode has been read: it is used four times. The result counts the free blocks and
    -- inodes, which are printed.
    unfoldable pub enter_root : (sb root : ℕ) → M (ℕ × ℕ)
    unfolding count_free
    enter_root sb root = do
      set_inode root (λ i. record i { i_count = (i.i_count + 3) % 65536 })
      set_super sb (λ s. record s { s_isup = root; s_imount = root })
      set_current (λ t. record t { pwd = root; root = root })
      s ← super_at sb
      blocks ← gets (count_free s.s_nzones s.s_zmap)
      inodes ← gets (count_free (s.s_ninodes + 1) s.s_imap)
      pure {A = ℕ × ℕ} (blocks, inodes)

    unfoldable pub mount_root : M (ℕ × ℕ)
    unfolding each read_super iget enter_root
    mount_root = do
      each 1 64 (λ p. set_file p (λ f. record f { f_count = 0 }))
      root_dev ← gets (λ s. s.root_dev)
      when (major root_dev == 2) d.wait_for_keypress
      each 1 8 (λ p. set_super p (λ s. record s { s_dev = 0; s_lock = false }))
      sb ← read_super root_dev
      let enter = do
        root ← iget w root_dev root_ino
        if root == 0 then panic else enter_root sb root
      if sb == 0 then panic else enter
