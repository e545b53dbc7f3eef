-- ===== src/Fs/Inode/Table.antt =====
-- fs/inode.c: the table of inodes in memory, from which inodes are taken and to which they go back;
-- `free_inode` and `new_inode` of fs/bitmap.c with it. `wake_up` of those who wait for an inode is
-- left to `World`.
use linux.Base.{
  ℕ, zero, suc, ◌+◌, ◌==◌, ltb, leb, not, ◌&&◌, if◌then◌else◌, update, true, false, none, some,
}
use linux.Base.Loops.{find_up}
use linux.Kernel.Task.{current_task}
use linux.Kernel.Sys.{current_time}
use linux.Mm.{get_free_page, free_page}
use linux.Fs.Structs.{Inode, no_inode, is_blk}
use linux.Fs.Buffer.{sync_dev as sync_dev_cache}
use linux.Fs.Bitmap.{Owner, free_inode as free_inode_cache, new_inode as new_inode_cache}
use linux.Fs.State.{
  FileSystem, M, pure, ◌>>=◌, ◌>>◌, when, panic, never, gets, puts, inode, set_inode, inc16, dec16,
  World, super_of, on_cache,
}
use linux.Base.{returns, panics, exits, hangs}
use linux.Fs.Truncate.{truncate}
use linux.Fs.Inode.{nr_inode, wait_on_inode, read_inode, write_inode}

abbrev pub drop_user : Inode → Inode
drop_user i = record i { i_count = dec16 i.i_count }

abbrev pub add_user : Inode → Inode
add_user i = record i { i_count = inc16 i.i_count }

abbrev pub free_pipe_page : (addr : ℕ) → M (Unit {0})
free_pipe_page addr s = elim (free_page addr s.mm) [
  | returns m ↦ returns (tt, record s { mm = m })
  | panics ↦ panics
  | exits c ↦ exits c
  | hangs ↦ hangs
]

-- The inner loop of `get_empty_inode`, with `n` rounds left: where it leaves `last_inode`, and the
-- last free inode it saw, the first that is clean and unlocked.
unfoldable pub scan_inodes : ℕ → FileSystem → (last best : ℕ) → ℕ × ℕ
scan_inodes zero s last best = (last, best)
scan_inodes (suc n) s last best =
    let next = if leb nr_inode last then 1 else last + 1 in
    let i = s.inode_at next in
    let best' = if i.i_count == 0 then next else best in
    let rest = scan_inodes n s next best' in
    if i.i_count == 0 && not i.i_dirt && not i.i_lock then (next, next) else rest

-- Who asks for a new inode, and when.
abbrev pub owner : FileSystem → Owner
owner s = record {
  euid = (current_task s.tasks).euid;
  egid = (current_task s.tasks).egid;
  now = current_time s.tasks;
}

module _ (w : World) where
  unfoldable pub free_inode : (p : ℕ) → M (Unit {0})
  unfolding super_of free_inode_cache
  free_inode p = do
    i ← inode p
    sb ← super_of w i.i_dev
    i ← inode p
    left ← on_cache (free_inode_cache sb (some i))
    elim left [ none ↦ pure tt | some i' ↦ set_inode p (λ i. i') ]

  -- From `repeat:` on.
  unfoldable pub put_from : ℕ → (p : ℕ) → M (Unit {0})
  unfolding truncate free_inode write_inode wait_on_inode
  put_from zero p = never
  put_from (suc fuel) p =
      let again = put_from fuel p in
      do
        i ← inode p
        if ltb 1 i.i_count
            then set_inode p drop_user
            else if i.i_nlinks == 0
            then truncate w p >> free_inode p
            else if i.i_dirt
            then write_inode w p >> wait_on_inode w p >> again
            else set_inode p drop_user

  unfoldable pub put_pipe : (p : ℕ) → M (Unit {0})
  put_pipe p = do
    set_inode p drop_user
    i ← inode p
    let close = do
      free_pipe_page i.i_size
      set_inode p (λ i. record i { i_count = 0; i_dirt = false; i_pipe = false })
    if not (i.i_count == 0) then pure tt else close

  -- `sync_dev` of a block device with its open inode
  unfoldable pub sync_block_dev : (p : ℕ) → M (Unit {0})
  unfolding sync_dev_cache wait_on_inode
  sync_block_dev p = do
    i ← inode p
    when (is_blk i.i_mode) do
      puts (λ s. record s { cache = sync_dev_cache w.driver (i.i_zone 0) s.cache })
      wait_on_inode w p

  unfoldable pub iput : (p : ℕ) → M (Unit {0})
  unfolding wait_on_inode put_pipe sync_block_dev put_from
  iput p = when (not (p == 0)) do
    wait_on_inode w p
    i ← inode p
    if i.i_count == 0
        then panic
        else if i.i_pipe
        then put_pipe p
        else if i.i_dev == 0
        then set_inode p drop_user
        else sync_block_dev p >> put_from w.fuel p

  -- `while (inode->i_dirt)`
  unfoldable pub clean_inode : ℕ → (p : ℕ) → M (Unit {0})
  unfolding write_inode wait_on_inode
  clean_inode zero p = never
  clean_inode (suc fuel) p =
      let rest = clean_inode fuel p in
      do i ← inode p; when i.i_dirt (write_inode w p >> wait_on_inode w p >> rest)

  -- `do … while (inode->i_count)`
  unfoldable pub get_empty_from : ℕ → M ℕ
  unfolding scan_inodes wait_on_inode clean_inode
  get_empty_from zero = never
  get_empty_from (suc fuel) =
      let again = get_empty_from fuel in
      do
        (last, p) ← gets (λ s. scan_inodes nr_inode s s.last_inode 0)
        puts (λ s. record s { last_inode = last })
        let take = do
          wait_on_inode w p
          clean_inode (suc fuel) p
          i ← inode p
          if i.i_count == 0
              then set_inode p (λ i. record no_inode { i_count = 1 }) >> pure p
              else again
        if p == 0 then panic else take

  unfoldable pub get_empty_inode : M ℕ
  unfolding get_empty_from
  get_empty_inode = get_empty_from w.fuel

  -- A new inode is asked for first; if the bitmap has none, it is put back.
  unfoldable pub new_inode : (dev : ℕ) → M ℕ
  unfolding get_empty_inode super_of new_inode_cache iput
  new_inode dev = do
    p ← get_empty_inode
    sb ← super_of w dev
    o ← gets owner
    i ← inode p
    made ← on_cache (new_inode_cache dev o sb (some i))
    elim made [ none ↦ iput p >> pure 0 | some i' ↦ set_inode p (λ i. i') >> pure p ]

  unfoldable pub get_pipe_inode : M ℕ
  unfolding get_empty_inode get_free_page
  get_pipe_inode = do
    p ← get_empty_inode
    (page, m) ← gets (λ s. get_free_page s.mm)
    puts (λ s. record s { mm = m })
    set_inode p (λ i. record i { i_size = page })
    let ready = do
      set_inode p
          (λ i. record i { i_count = 2; i_zone = update (update i.i_zone 1 0) 0 0; i_pipe = true })
      pure p
    if p == 0
        then pure 0
        else if page == 0
        then set_inode p (λ i. record i { i_count = 0 }) >> pure 0
        else ready

  -- The end of `iget`: nobody has the inode in memory.
  unfoldable pub read_in : (dev nr empty : ℕ) → M ℕ
  unfolding read_inode
  read_in dev nr empty = do
    let fill = do
      set_inode empty (λ i. record i { i_dev = dev; i_num = nr })
      read_inode w empty
      pure empty
    if empty == 0 then pure 0 else fill

  -- The loop of `iget` at the inode `p`.
  unfoldable pub iget_from : ℕ → (dev nr empty p : ℕ) → M ℕ
  unfolding wait_on_inode iput read_in
  iget_from zero dev nr empty p = never
  iget_from (suc fuel) dev nr empty p =
      let go = λ (where_to : ℕ × ℕ × ℕ). iget_from fuel where_to.0 where_to.1 empty where_to.2 in
      do
        i ← inode p
        let is_it = λ (i : Inode). i.i_dev == dev && i.i_num == nr
        let mounted = do
          k ← gets (λ s. find_up 1 8 (λ k. (s.super_at k).s_imount == p))
          let cross = do iput p; dev' ← gets (λ s. (s.super_at k).s_dev); go (dev', 1, 1)
          if ltb 8 k then iput empty >> pure p else cross
        let here = do
          set_inode p add_user
          i ← inode p
          if i.i_mount then mounted else iput empty >> pure p
        let check = do wait_on_inode w p; i ← inode p; if is_it i then here else go (dev, nr, 1)
        if ltb nr_inode p
            then read_in dev nr empty
            else if is_it i
            then check
            else go (dev, nr, p + 1)

  unfoldable pub iget : (dev nr : ℕ) → M ℕ
  unfolding get_empty_inode iget_from
  iget dev nr = do
    let get = do empty ← get_empty_inode; iget_from w.fuel dev nr empty 1
    if dev == 0 then panic else get
