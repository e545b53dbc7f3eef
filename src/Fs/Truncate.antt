-- ===== src/Fs/Truncate.antt =====
-- fs/truncate.c: all blocks of an inode are given back. `sleep` is left to `World`.
use linux.Base.{ℕ, ◌*◌, ◌==◌, not, ◌||◌, update, true}
use linux.Fs.Structs.{Inode, is_reg, is_dir}
use linux.Fs.State.{
  M, ◌>>=◌, ◌>>◌, when, inode, set_inode, buffer, now, each, read16, World, bread, brelse,
  free_block,
}

abbrev pub no_zone : ℕ → Inode → Inode
no_zone k i = record i { i_zone = update i.i_zone k 0 }

-- The end of `truncate`.
abbrev pub emptied : ℕ → Inode → Inode
emptied time i = record i {
  i_zone = update (update i.i_zone 8 0) 7 0;
  i_size = 0;
  i_dirt = true;
  i_mtime = time;
  i_ctime = time;
}

module _ (w : World) where
  -- The loops over the block numbers in `bh`.
  unfoldable pub each_block : (bh : ℕ) → (ℕ → M (Unit {0})) → M (Unit {0})
  unfolding each
  each_block bh free = each 0 512 (λ i. do
    b ← buffer bh
    let zone = read16 b.b_data (2 * i)
    when (not (zone == 0)) (free zone))

  unfoldable pub free_ind : (dev block : ℕ) → M (Unit {0})
  unfolding bread brelse free_block each_block
  free_ind dev block = when (not (block == 0)) do
    bh ← bread w dev block
    when (not (bh == 0)) (each_block bh (free_block w dev) >> brelse w bh)
    free_block w dev block

  unfoldable pub free_dind : (dev block : ℕ) → M (Unit {0})
  unfolding bread brelse free_block each_block free_ind
  free_dind dev block = when (not (block == 0)) do
    bh ← bread w dev block
    when (not (bh == 0)) (each_block bh (free_ind dev) >> brelse w bh)
    free_block w dev block

  unfoldable pub free_direct : (p k : ℕ) → M (Unit {0})
  unfolding free_block
  free_direct p k = do
    i ← inode p
    when (not (i.i_zone k == 0)) (free_block w i.i_dev (i.i_zone k) >> set_inode p (no_zone k))

  unfoldable pub truncate : (p : ℕ) → M (Unit {0})
  unfolding each free_direct free_ind free_dind
  truncate p = do
    i ← inode p
    let body = do
      each 0 7 (free_direct p)
      a ← inode p
      free_ind a.i_dev (a.i_zone 7)
      b ← inode p
      free_dind b.i_dev (b.i_zone 8)
      time ← now
      set_inode p (emptied time)
    when (is_reg i.i_mode || is_dir i.i_mode) body
