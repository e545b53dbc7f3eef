-- ===== src/Fs/Inode.antt =====
-- fs/inode.c: inodes on disk, and the map from the blocks of a file to blocks of its device.
pub mod Table
pub mod Disk
pub mod Scan
pub mod Blocks
use linux.Base.{
  ℕ, zero, suc, ◌+◌, ◌-◌, ◌*◌, ◌/◌, ◌%◌, ◌^◌, Bool, true, false, ◌==◌, ltb, leb, not, ◌&&◌, ◌||◌,
  if◌then◌else◌, update, Outcome, returns,
}
use linux.Base.Int.{ℤ, pos, negsuc}
use linux.Fs.Structs.{Inode}
use linux.Fs.Buffer.{BufferHead}
use linux.Fs.State.{
  M, pure, ◌>>=◌, ◌>>◌, when, panic, gets, puts, inode, set_inode, set_buffer, buffer, now, each,
  read16, write16, World, bread, brelse, get_super, new_block,
}

abbrev pub nr_inode : ℕ
nr_inode = 32

abbrev pub inodes_per_block : ℕ
inodes_per_block = 32

-- Byte `k` of a number that is stored with its lowest byte first.
abbrev pub byte_of : ℕ → ℕ → ℕ
byte_of v k =
    if k == 0
    then v % 256
    else if k == 1
    then v / 256 % 256
    else if k == 2
    then v / 65536 % 256
    else v / 16777216 % 256

-- The bytes of `struct d_inode`, with which `struct m_inode` begins.
unfoldable pub d_inode_byte : Inode → ℕ → ℕ
d_inode_byte i k =
    if ltb k 2
    then byte_of i.i_mode k
    else if ltb k 4
    then byte_of i.i_uid (k - 2)
    else if ltb k 8
    then byte_of i.i_size (k - 4)
    else if ltb k 12
    then byte_of i.i_mtime (k - 8)
    else if k == 12
    then i.i_gid % 256
    else if k == 13
    then i.i_nlinks % 256
    else byte_of (i.i_zone ((k - 14) / 2)) ((k - 14) % 2)

abbrev pub read32 : (ℕ → ℕ) → ℕ → ℕ
read32 f a = f a + 256 * f (a + 1) + 65536 * f (a + 2) + 16777216 * f (a + 3)

-- `((struct d_inode *) data)[index] = *(struct d_inode *) inode`
unfoldable pub store_d_inode : (index : ℕ) → Inode → (ℕ → ℕ) → ℕ → ℕ
store_d_inode index i f a = if a / 32 == index then d_inode_byte i (a % 32) else f a

-- `*(struct d_inode *) inode = ((struct d_inode *) data)[index]`
unfoldable pub load_d_inode : (index : ℕ) → (ℕ → ℕ) → Inode → Inode
load_d_inode index f i =
    let at = index * 32 in
    record i {
      i_mode = read16 f at;
      i_uid = read16 f (at + 2);
      i_size = read32 f (at + 4);
      i_mtime = read32 f (at + 8);
      i_gid = f (at + 12);
      i_nlinks = f (at + 13);
      i_zone = λ k. if ltb k 9 then read16 f (at + 14 + k * 2) else i.i_zone k;
    }

-- `block` of `read_inode` and `write_inode`; the numbers of inodes begin at 1, and for 0 the
-- division of -1 by 32 gives 0.
abbrev pub inode_block : (imap_blocks zmap_blocks num : ℕ) → ℕ
inode_block imap_blocks zmap_blocks num =
    2 + imap_blocks + zmap_blocks + (num - 1) / inodes_per_block

abbrev pub locked : Bool → Inode → Inode
locked b i = record i { i_lock = b }

abbrev pub with_zone : (k nr time : ℕ) → Inode → Inode
with_zone k nr time i = record i { i_zone = update i.i_zone k nr; i_ctime = time; i_dirt = true }

module _ (w : World) where
  unfoldable pub wait_on_inode : (p : ℕ) → M (Unit {0})
  wait_on_inode p s = returns (tt, if (s.inode_at p).i_lock then w.until_inode_unlocked p s else s)

  unfoldable pub lock_inode : (p : ℕ) → M (Unit {0})
  unfolding wait_on_inode
  lock_inode p = wait_on_inode p >> set_inode p (locked true)

  abbrev pub unlock_inode : (p : ℕ) → M (Unit {0})
  unlock_inode p = set_inode p (locked false)

  -- `printk` is left out.
  unfoldable pub invalidate_inodes : (dev : ℕ) → M (Unit {0})
  unfolding each wait_on_inode
  invalidate_inodes dev = each 1 nr_inode (λ p. do
    wait_on_inode p
    i ← inode p
    when (i.i_dev == dev) (set_inode p (λ i. record i { i_dev = 0; i_dirt = false })))

  -- Where `read_inode` and `write_inode` find an inode: the buffer.
  unfoldable pub inode_buffer : (p : ℕ) → M ℕ
  unfolding get_super bread
  inode_buffer p = do
    i ← inode p
    sb ← get_super w i.i_dev
    let found = do
      s ← gets (λ s. s.super_at sb)
      bh ← bread w i.i_dev (inode_block s.s_imap_blocks s.s_zmap_blocks i.i_num)
      if bh == 0 then panic else pure bh
    if sb == 0 then panic else found

  unfoldable pub read_inode : (p : ℕ) → M (Unit {0})
  unfolding lock_inode inode_buffer load_d_inode brelse
  read_inode p = do
    lock_inode p
    bh ← inode_buffer p
    b ← buffer bh
    i ← inode p
    set_inode p (load_d_inode ((i.i_num - 1) % inodes_per_block) b.b_data)
    brelse w bh
    unlock_inode p

  unfoldable pub write_inode : (p : ℕ) → M (Unit {0})
  unfolding lock_inode inode_buffer store_d_inode brelse
  write_inode p = do
    lock_inode p
    i ← inode p
    let store = do
      bh ← inode_buffer p
      i ← inode p
      set_buffer bh (λ b. record b {
        b_data = store_d_inode ((i.i_num - 1) % inodes_per_block) i b.b_data;
        b_dirt = true;
      })
      set_inode p (λ i. record i { i_dirt = false })
      brelse w bh
      unlock_inode p
    if not i.i_dirt || i.i_dev == 0 then unlock_inode p else store

  unfoldable pub sync_inodes : M (Unit {0})
  unfolding each wait_on_inode write_inode
  sync_inodes =
      each 1 nr_inode
        (λ p. do wait_on_inode p; i ← inode p; when (i.i_dirt && not i.i_pipe) (write_inode p))

  -- One block number in the inode, as `_bmap` looks it up, or makes it.
  unfoldable pub bmap_zone : (p k : ℕ) (create : Bool) → M ℕ
  unfolding new_block
  bmap_zone p k create = do
    i ← inode p
    let make = do
      nr ← new_block w i.i_dev
      time ← now
      let zone = nr % 2 ^ 16
      when (not (zone == 0)) (set_inode p (with_zone k zone time))
      pure zone
    if create && i.i_zone k == 0 then make else pure (i.i_zone k)

  -- One block number in a block of block numbers.
  unfoldable pub bmap_entry : (dev zone index : ℕ) (create : Bool) → M ℕ
  unfolding bread new_block brelse
  bmap_entry dev zone index create = do
    bh ← bread w dev zone
    b ← buffer bh
    let entry = read16 b.b_data (2 * index)
    let make = do
      nr ← new_block w dev
      let filled =
          λ (b : BufferHead). record b { b_data = write16 (2 * index) nr b.b_data; b_dirt = true }
      when (not (nr == 0)) (set_buffer bh filled)
      brelse w bh
      pure nr
    if bh == 0 then pure 0 else if create && entry == 0 then make else brelse w bh >> pure entry

  -- `_bmap`
  unfoldable pub map_block : (p : ℕ) (block : ℤ) (create : Bool) → M ℕ
  unfolding bmap_zone bmap_entry
  map_block p (negsuc n) create = panic
  map_block p (pos block) create = do
    dev ← gets (λ s. (s.inode_at p).i_dev)
    let single = do
      zone ← bmap_zone p 7 create
      if zone == 0 then pure 0 else bmap_entry dev zone (block - 7) create
    let twice = do
      zone ← bmap_zone p 8 create
      outer ← if zone == 0 then pure 0 else bmap_entry dev zone ((block - 519) / 512) create
      if outer == 0 then pure 0 else bmap_entry dev outer ((block - 519) % 512) create
    if leb (7 + 512 + 512 * 512) block
        then panic
        else if ltb block 7
        then bmap_zone p block create
        else if ltb block 519
        then single
        else twice

  unfoldable pub bmap : (p : ℕ) (block : ℤ) → M ℕ
  unfolding map_block
  bmap p block = map_block p block false

  unfoldable pub create_block : (p : ℕ) (block : ℤ) → M ℕ
  unfolding map_block
  create_block p block = map_block p block true
