-- ===== src/Fs/Bitmap.antt =====
-- fs/bitmap.c: the bitmaps of the blocks and the inodes of a file system, in buffers of the cache.
-- The super block of a device, which `get_super` of fs/super.c looks up, is an argument; NULL is
-- `none`. Fs/State looks it up. `printk` is left out.
pub mod Bit
pub mod Claim
use linux.Base.{
  ℕ, zero, suc, ◌+◌, ◌-◌, ◌*◌, ◌/◌, ◌%◌, ◌^◌, Bool, true, false, Option, none, some, bit_and,
  bit_or, ltb, leb, ◌==◌, not, ◌&&◌, ◌||◌, if◌then◌else◌, update, Outcome, returns, panics, ◌>>=◌,
}
use linux.Base.Bits.{bit}
use linux.Base.Loops.{find_up}
use linux.Fs.Structs.{SuperBlock, Inode, no_inode}
use linux.Fs.Buffer.{BufferHead, Cache, Driver, with_head}
use linux.Fs.Buffer.Get.{get_hash_table, getblk, brelse}

-- The bits in a block: bit `nr` is digit `nr % 8` of byte `nr / 8`.
abbrev pub test_bit : ℕ → (ℕ → ℕ) → Bool
test_bit nr bits = bit (nr % 8) (bits (nr / 8)) == 1

abbrev pub put_bit : ℕ → Bool → (ℕ → ℕ) → ℕ → ℕ
put_bit nr b bits =
    let byte = bits (nr / 8) in
    let power = 2 ^ (nr % 8) in
    update bits (nr / 8) (
      if test_bit nr bits
      then (if b then byte else byte - power)
      else if b
      then byte + power
      else byte)

-- `set_bit` gives what the bit was.
unfoldable pub set_bit : ℕ → (ℕ → ℕ) → Bool × (ℕ → ℕ)
set_bit nr bits = (test_bit nr bits, put_bit nr true bits)

-- `clear_bit` gives whether the bit was clear.
unfoldable pub clear_bit : ℕ → (ℕ → ℕ) → Bool × (ℕ → ℕ)
clear_bit nr bits = (not (test_bit nr bits), put_bit nr false bits)

-- 8192 if there is none.
unfoldable pub find_first_zero : (ℕ → ℕ) → ℕ
find_first_zero bits = find_up 0 8192 (λ nr. not (test_bit nr bits))

abbrev pub set_data : (ℕ → ℕ) → BufferHead → BufferHead
set_data bits b = record b { b_data = bits; b_dirt = true }

-- The map, of the eight, that the loop of `new_block` or `new_inode` stops at, and the bit in it:
-- the first map that there is and that is not full.
unfoldable pub find_map : (ℕ → ℕ) → Cache → ℕ
unfolding find_first_zero
find_map maps c =
    find_up 0 8 (λ i. not (maps i == 0) && ltb (find_first_zero (c.head (maps i)).b_data) 8192)

-- The bit that the loop finds, as its number in all the maps, and the cache with the bit set. `none`
-- if there is none.
unfoldable pub claim_bit : (ℕ → ℕ) → Cache → Outcome (Option ℕ × Cache)
unfolding find_map set_bit find_first_zero
claim_bit maps c =
    let i = find_map maps c in
    let bh = maps i in
    let j = find_first_zero (c.head bh).b_data in
    let (was_set, bits) = set_bit j (c.head bh).b_data in
    if leb 8 i
    then returns (none, c)
    else if was_set
    then panics
    else returns (some (j + i * 8192), with_head bh (set_data bits) c)

abbrev pub forget : BufferHead → BufferHead
forget b = record b { b_dirt = false; b_uptodate = false }

-- The end of `free_block`.
unfoldable pub clear_zone : SuperBlock → ℕ → Cache → Outcome Cache
unfolding clear_bit
clear_zone sb block c =
    let nr = block + 1 - sb.s_firstdatazone in
    let bh = sb.s_zmap (nr / 8192) in
    let (was_clear, bits) = clear_bit (nr % 8192) (c.head bh).b_data in
    if was_clear then panics else returns (with_head bh (set_data bits) c)

unfoldable pub free_block :
    ℕ → Driver → (dev : ℕ) → Option SuperBlock → (block : ℕ) → Cache → Outcome Cache
unfolding get_hash_table brelse clear_zone
free_block fuel d dev none block c = panics
free_block fuel d dev (some sb) block c =
    if ltb block sb.s_firstdatazone || leb sb.s_nzones block
    then panics
    else (get_hash_table fuel d dev block c >>= λ (bh, c₁).
        if bh == 0
        then clear_zone sb block c₁
        else if not ((c₁.head bh).b_count == 1)
        then returns c₁
        else (brelse d bh (with_head bh forget c₁) >>= clear_zone sb block))

-- `clear_block`
abbrev pub fresh : BufferHead → BufferHead
fresh b = record b {
  b_data = λ i. if ltb i 1024 then 0 else b.b_data i;
  b_uptodate = true;
  b_dirt = true;
}

-- The result is the block's number, or 0.
unfoldable pub new_block : ℕ → Driver → (dev : ℕ) → Option SuperBlock → Cache → Outcome (ℕ × Cache)
unfolding claim_bit getblk brelse
new_block fuel d dev none c = panics
new_block fuel d dev (some sb) c = claim_bit sb.s_zmap c >>= λ (claimed, c₁). elim claimed [
  | none ↦ returns (0, c₁)
  | some nr ↦
      let j = nr + sb.s_firstdatazone - 1 in
      if leb sb.s_nzones j
      then returns (0, c₁)
      else (getblk fuel d dev j c₁ >>= λ (bh, c₂).
          if bh == 0
          then panics
          else if not ((c₂.head bh).b_count == 1)
          then panics
          else (brelse d bh (with_head bh fresh c₂) >>= λ c₃. returns (j, c₃)))
]

-- The inode that the argument points to; `none` is NULL.
unfoldable pub free_inode :
    Option SuperBlock → Option Inode → Cache → Outcome (Option Inode × Cache)
unfolding clear_bit
free_inode sb none c = returns (none, c)
free_inode none (some inode) c = if inode.i_dev == 0 then returns (some no_inode, c) else panics
free_inode (some sb) (some inode) c =
    let bh = sb.s_imap (inode.i_num / 8192) in
    let (was_clear, bits) = clear_bit (inode.i_num % 8192) (c.head bh).b_data in
    if inode.i_dev == 0
    then returns (some no_inode, c)
    else if ltb 1 inode.i_count
    then panics
    else if not (inode.i_nlinks == 0)
    then panics
    else if ltb inode.i_num 1 || ltb sb.s_ninodes inode.i_num
    then panics
    else if bh == 0
    then panics
    else returns (some no_inode, with_head bh (set_data bits) c)

-- Who asks, and when.
pub record Owner : Type 0 where
  pub euid : ℕ
  pub egid : ℕ
  pub now : ℕ

-- `inode` is what `get_empty_inode` gave; for `none` the inode has been put back, or there was none.
-- `bh` in the test after the loop is the last map looked at, which is not NULL if a bit was found.
unfoldable pub new_inode :
    (dev : ℕ) → Owner → Option SuperBlock → Option Inode → Cache → Outcome (Option Inode × Cache)
unfolding find_map set_bit find_first_zero
new_inode dev o sb none c = returns (none, c)
new_inode dev o none (some inode) c = panics
new_inode dev o (some sb) (some inode) c =
    let i = find_map sb.s_imap c in
    let bh = sb.s_imap i in
    let j = find_first_zero (c.head bh).b_data in
    let (was_set, bits) = set_bit j (c.head bh).b_data in
    if leb 8 i || ltb sb.s_ninodes (j + i * 8192)
    then returns (none, c)
    else if was_set
    then panics
    else returns (
      some (record inode {
        i_count = 1;
        i_nlinks = 1;
        i_dev = dev;
        i_uid = o.euid;
        i_gid = o.egid % 256;
        i_dirt = true;
        i_num = (j + i * 8192) % 2 ^ 16;
        i_mtime = o.now;
        i_atime = o.now;
        i_ctime = o.now;
      }),
      with_head bh (set_data bits) c,
    )
