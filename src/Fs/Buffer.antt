-- ===== src/Fs/Buffer.antt =====
-- fs/buffer.c: the buffer cache, its hash queues and its free list.
-- A buffer head is named by its address, and NULL is 0; `head` is the memory behind the addresses,
-- also behind NULL, where the code writes once. Sleeping and the block driver are an interface.
pub mod Get
pub mod Read
pub mod Links
pub mod Lookup
pub mod Choose
use linux.Base.{
  ℕ, zero, suc, ◌+◌, ◌-◌, ◌*◌, ◌%◌, Bool, true, false, Option, none, some, List, [], ◌∷◌, bit_xor,
  ltb, ◌==◌, not, ◌&&◌, ◌||◌, if◌then◌else◌, update, Outcome, returns, panics, hangs, ◌>>=◌,
}

pub record BufferHead : Type 0 where
  pub b_data : ℕ → ℕ
  pub b_blocknr : ℕ
  pub b_dev : ℕ
  pub b_uptodate : Bool
  pub b_dirt : Bool
  pub b_count : ℕ
  pub b_lock : Bool
  pub b_prev : ℕ
  pub b_next : ℕ
  pub b_prev_free : ℕ
  pub b_next_free : ℕ

pub record Cache : Type 0 where
  pub head : ℕ → BufferHead
  pub hash_table : ℕ → ℕ
  pub free_list : ℕ
  -- the address of the first buffer head; the others follow it
  pub start_buffer : ℕ
  pub nr_buffers : ℕ

abbrev pub nr_hash : ℕ
nr_hash = 307

pub data Rw : Type 0 where
  read write reada writea : Rw

-- What the cache asks of the rest of the kernel. `until_unlocked` is all that happens while
-- `wait_on_buffer` sleeps on a locked buffer; `until_free` what happens while `getblk` waits for a
-- buffer; `sync_inodes` and `ll_rw_block` are those of fs/inode.c and kernel/blk_drv/ll_rw_blk.c.
pub record Driver : Type 0 where
  pub until_unlocked : ℕ → Cache → Cache
  pub until_free : Cache → Cache
  pub ll_rw_block : Rw → ℕ → Cache → Cache
  pub sync_inodes : Cache → Cache

abbrev pub with_head : ℕ → (BufferHead → BufferHead) → Cache → Cache
with_head bh f c = record c { head = update c.head bh (f (c.head bh)) }

-- `_hashfn`
abbrev pub hashfn : ℕ → ℕ → ℕ
hashfn dev block = bit_xor dev block % nr_hash

unfoldable pub wait_on_buffer : Driver → ℕ → Cache → Cache
wait_on_buffer d bh c = if (c.head bh).b_lock then d.until_unlocked bh c else c

-- The buffers at `bh`, `bh + 1`, … in turn, `n` of them: those that the test passes when they are
-- unlocked are written.
unfoldable pub write_from : Driver → (BufferHead → Bool) → ℕ → ℕ → Cache → Cache
unfolding wait_on_buffer
write_from d test bh zero c = c
write_from d test bh (suc n) c =
    let c' = if test (c.head bh) then wait_on_buffer d bh c else c in
    let b = c'.head bh in
    write_from d test (bh + 1) n
      (if test (c.head bh) && test b && b.b_dirt then d.ll_rw_block write bh c' else c')

unfoldable pub sys_sync : Driver → Cache → Cache
unfolding write_from
sys_sync d c = let c' = d.sync_inodes c in write_from d (λ _. true) c'.start_buffer c'.nr_buffers c'

unfoldable pub sync_dev : Driver → ℕ → Cache → Cache
unfolding write_from
sync_dev d dev c =
    let on_dev = λ (b : BufferHead). b.b_dev == dev in
    let c' = write_from d on_dev c.start_buffer c.nr_buffers c in
    let c'' = d.sync_inodes c' in write_from d on_dev c''.start_buffer c''.nr_buffers c''

abbrev pub forget : BufferHead → BufferHead
forget b = record b { b_uptodate = false; b_dirt = false }

-- The loop of `invalidate_buffers`.
unfoldable pub invalidate_from : Driver → ℕ → ℕ → ℕ → Cache → Cache
unfolding wait_on_buffer
invalidate_from d dev bh zero c = c
invalidate_from d dev bh (suc n) c =
    let c' = if (c.head bh).b_dev == dev then wait_on_buffer d bh c else c in
    invalidate_from d dev (bh + 1) n
      (if (c.head bh).b_dev == dev && (c'.head bh).b_dev == dev then with_head bh forget c' else c')

unfoldable pub invalidate_buffers : Driver → ℕ → Cache → Cache
unfolding invalidate_from
invalidate_buffers d dev c = invalidate_from d dev c.start_buffer c.nr_buffers c

-- Out of the hash queue.
unfoldable pub unhash : ℕ → Cache → Cache
unhash bh c =
    let b = c.head bh in
    let c₁ =
      if b.b_next == 0 then c else with_head b.b_next (λ n. record n { b_prev = b.b_prev }) c in
    let c₂ =
      if b.b_prev == 0 then c₁ else with_head b.b_prev (λ p. record p { b_next = b.b_next }) c₁ in
    let h = hashfn b.b_dev b.b_blocknr in
    if c₂.hash_table h == bh then record c₂ { hash_table = update c₂.hash_table h b.b_next } else c₂

-- Out of the free list.
unfoldable pub unfree : ℕ → Cache → Outcome Cache
unfree bh c =
    let b = c.head bh in
    if b.b_prev_free == 0 || b.b_next_free == 0
    then panics
    else (let c₁ = with_head b.b_prev_free (λ p. record p { b_next_free = b.b_next_free }) c in
        let c₂ = with_head b.b_next_free (λ n. record n { b_prev_free = b.b_prev_free }) c₁ in
        returns (if c₂.free_list == bh then record c₂ { free_list = b.b_next_free } else c₂))

unfoldable pub remove_from_queues : ℕ → Cache → Outcome Cache
unfolding unhash unfree
remove_from_queues bh c = unfree bh (unhash bh c)

-- At the end of the free list.
unfoldable pub put_last : ℕ → Cache → Cache
put_last bh c =
    let first = c.free_list in
    let last = (c.head first).b_prev_free in
    let c₁ = with_head bh (λ b. record b { b_next_free = first; b_prev_free = last }) c in
    let c₂ = with_head (c₁.head first).b_prev_free (λ b. record b { b_next_free = bh }) c₁ in
    with_head first (λ b. record b { b_prev_free = bh }) c₂

-- In the hash queue of its device and block, if it has a device. The last assignment goes through
-- `b_next` also when that is NULL.
unfoldable pub put_hashed : ℕ → Cache → Cache
put_hashed bh c =
    let c₁ = with_head bh (λ b. record b { b_prev = 0; b_next = 0 }) c in
    let b = c₁.head bh in
    let h = hashfn b.b_dev b.b_blocknr in
    let c₂ = with_head bh (λ b. record b { b_next = c₁.hash_table h }) c₁ in
    let c₃ = record c₂ { hash_table = update c₂.hash_table h bh } in
    if b.b_dev == 0 then c₁ else with_head (c₃.head bh).b_next (λ n. record n { b_prev = bh }) c₃

unfoldable pub insert_into_queues : ℕ → Cache → Cache
unfolding put_last put_hashed
insert_into_queues bh c = put_hashed bh (put_last bh c)

abbrev pub is_block : ℕ → ℕ → BufferHead → Bool
is_block dev block b = b.b_dev == dev && b.b_blocknr == block

-- The walk along a hash queue, which has at most all the buffers.
unfoldable pub find_from : ℕ → ℕ → ℕ → Cache → ℕ → ℕ
find_from zero dev block c tmp = 0
find_from (suc fuel) dev block c tmp =
    let rest = find_from fuel dev block c (c.head tmp).b_next in
    if tmp == 0 then 0 else if is_block dev block (c.head tmp) then tmp else rest

unfoldable pub find_buffer : ℕ → ℕ → Cache → ℕ
unfolding find_from
find_buffer dev block c = find_from (c.nr_buffers + 1) dev block c (c.hash_table (hashfn dev block))

abbrev pub add_user : BufferHead → BufferHead
add_user b = record b { b_count = (b.b_count + 1) % 256 }

abbrev pub drop_user : BufferHead → BufferHead
drop_user b = record b { b_count = (b.b_count + 255) % 256 }
