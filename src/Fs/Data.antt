-- ===== src/Fs/Data.antt =====
-- fs/file_dev.c and fs/block_dev.c: bytes between the memory of a process and the blocks of a file
-- or of a device. Each round of a loop moves at least one byte, so that the bytes that are left are
-- enough fuel.
use linux.Base.{
  ℕ, zero, suc, ◌+◌, ◌-◌, ◌/◌, ◌%◌, min, ◌==◌, ltb, leb, not, ◌&&◌, if◌then◌else◌, Bool, true, [],
  ◌∷◌, bit_and,
}
use linux.Base.Int.{ℤ, pos, neg}
use linux.Fs.Structs.{Inode}
use linux.Fs.Files.{File}
use linux.Fs.Buffer.Get.{getblk}
use linux.Fs.Buffer.Read.{breada}
use linux.Fs.State.{
  M, pure, ◌>>=◌, ◌>>◌, when, gets, inode, set_inode, buffer, set_buffer, now, set_user, set_file,
  on_cache, World, bread, brelse,
}
use linux.Fs.Inode.{bmap, create_block}

abbrev pub block_size : ℕ
block_size = 1024

abbrev pub eio : ℕ
eio = 5

-- `chars` bytes from index `from` of one memory to index `to` of another.
abbrev pub move : (from : ℕ → ℕ) → (at to chars : ℕ) → (ℕ → ℕ) → ℕ → ℕ
move from at to chars f a = if leb to a && ltb a (to + chars) then from (at + (a - to)) else f a

abbrev pub o_append : ℕ
o_append = 0o2000

abbrev pub appends : File → Bool
appends f = not (bit_and f.f_flags o_append == 0)

module _ (w : World) where
  -- `chars` bytes of the buffer go to `buf`; of no buffer, zeros do.
  unfoldable pub give_bytes : (bh offset buf chars : ℕ) → M (Unit {0})
  unfolding brelse
  give_bytes bh offset buf chars = do
    b ← buffer bh
    let copy = set_user (move b.b_data offset buf chars) >> brelse w bh
    if bh == 0 then set_user (move (λ a. 0) 0 buf chars) else copy

  -- `chars` bytes at `buf` go into the buffer.
  unfoldable pub take_bytes : (bh offset buf chars : ℕ) → M (Unit {0})
  unfolding brelse
  take_bytes bh offset buf chars = do
    user ← gets (λ s. s.user)
    set_buffer bh (λ b. record b { b_data = move user buf offset chars b.b_data; b_dirt = true })
    brelse w bh

  -- The loop of `file_read`; the result is `left`.
  unfoldable pub file_read_from : ℕ → (p filp buf left : ℕ) → M ℕ
  unfolding bmap bread give_bytes
  file_read_from zero p filp buf left = pure left
  file_read_from (suc fuel) p filp buf left =
      let go = λ (chars : ℕ). file_read_from fuel p filp (buf + chars) (left - chars) in
      do
        f_pos ← gets (λ s. (s.file filp).f_pos)
        let offset = f_pos % block_size
        let chars = min (block_size - offset) left
        let round = do
          nr ← bmap w p (pos (f_pos / block_size))
          i ← inode p
          bh ← if nr == 0 then pure 0 else bread w i.i_dev nr
          let give = do
            set_file filp (λ f. record f { f_pos = f.f_pos + chars })
            give_bytes bh offset buf chars
            go chars
          if not (nr == 0) && bh == 0 then pure left else give
        if left == 0 then pure 0 else round

  unfoldable pub file_read : (p filp buf count : ℕ) → M ℤ
  unfolding file_read_from
  file_read p filp buf count = do
    let read = do
      left ← file_read_from count p filp buf count
      time ← now
      set_inode p (λ i. record i { i_atime = time })
      pure (if count - left == 0 then neg (pos 99) else pos (count - left))
    if count == 0 then pure (pos 0) else read

  -- The loop of `file_write`; the result is `pos` and `i`.
  unfoldable pub file_write_from : ℕ → (p buf at i count : ℕ) → M (ℕ × ℕ)
  unfolding create_block bread take_bytes
  file_write_from zero p buf at i count = pure (at, i)
  file_write_from (suc fuel) p buf at i count =
      let go = λ (c : ℕ). file_write_from fuel p (buf + c) (at + c) (i + c) count in
      do
        let offset = at % block_size
        let c = min (block_size - offset) (count - i)
        let grow = λ (i : Inode).
            if ltb i.i_size (at + c) then record i { i_size = at + c; i_dirt = true } else i
        let round = do
          block ← create_block w p (pos (at / block_size))
          d ← inode p
          bh ← if block == 0 then pure 0 else bread w d.i_dev block
          let take = do set_inode p grow; take_bytes bh offset buf c; go c
          if bh == 0 then pure (at, i) else take
        if leb count i then pure (at, i) else round

  unfoldable pub file_write : (p filp buf count : ℕ) → M ℤ
  unfolding file_write_from
  file_write p filp buf count = do
    f ← gets (λ s. s.file filp)
    d ← inode p
    (at, i) ← file_write_from count p buf (if appends f then d.i_size else f.f_pos) 0 count
    time ← now
    set_inode p (λ i. record i { i_mtime = time })
    let keep = do
      set_file filp (λ f. record f { f_pos = at })
      set_inode p (λ i. record i { i_ctime = time })
    when (not (appends f)) keep
    pure (if i == 0 then neg (pos 1) else pos i)

  -- The block and the two after it.
  unfoldable pub read_ahead_two : (dev block : ℕ) → M ℕ
  unfolding breada
  read_ahead_two dev block =
      on_cache (breada w.fuel w.driver dev block ((block + 1) ∷ (block + 2) ∷ []))

  -- The loop of `block_read`; the file's position is `*pos`.
  unfoldable pub block_read_from : ℕ → (dev filp block offset buf count read : ℕ) → M ℤ
  unfolding read_ahead_two give_bytes
  block_read_from zero dev filp block offset buf count read = pure (pos read)
  block_read_from (suc fuel) dev filp block offset buf count read =
      let go = λ (chars : ℕ).
        block_read_from fuel dev filp (block + 1) 0 (buf + chars) (count - chars) (read + chars) in
      do
        let chars = min (block_size - offset) count
        let round = do
          bh ← read_ahead_two dev block
          let give = do
            set_file filp (λ f. record f { f_pos = f.f_pos + chars })
            give_bytes bh offset buf chars
            go chars
          if bh == 0 then pure (if read == 0 then neg (pos eio) else pos read) else give
        if count == 0 then pure (pos read) else round

  unfoldable pub block_read : (dev filp buf count : ℕ) → M ℤ
  unfolding block_read_from
  block_read dev filp buf count = do
    at ← gets (λ s. (s.file filp).f_pos)
    block_read_from count dev filp (at / block_size) (at % block_size) buf count 0

  -- The loop of `block_write`. A whole block is not read first.
  unfoldable pub block_write_from : ℕ → (dev filp block offset buf count written : ℕ) → M ℤ
  unfolding getblk read_ahead_two take_bytes
  block_write_from zero dev filp block offset buf count written = pure (pos written)
  block_write_from (suc fuel) dev filp block offset buf count written =
      let go = λ (chars : ℕ).
        block_write_from fuel dev filp (block + 1) 0 (buf + chars) (count - chars)
          (written + chars) in
      do
        let chars = min (block_size - offset) count
        let round = do
          bh ←
              if chars == block_size
              then on_cache (getblk w.fuel w.driver dev block)
              else read_ahead_two dev block
          let take = do
            set_file filp (λ f. record f { f_pos = f.f_pos + chars })
            take_bytes bh offset buf chars
            go chars
          if bh == 0 then pure (if written == 0 then neg (pos eio) else pos written) else take
        if count == 0 then pure (pos written) else round

  unfoldable pub block_write : (dev filp buf count : ℕ) → M ℤ
  unfolding block_write_from
  block_write dev filp buf count = do
    at ← gets (λ s. (s.file filp).f_pos)
    block_write_from count dev filp (at / block_size) (at % block_size) buf count 0
