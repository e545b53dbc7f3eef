-- ===== src/Fs/Buffer/Get.antt =====
-- fs/buffer.c: `getblk` and `brelse`, which hand buffers out and take them back.
use linux.Base.{
  ℕ, zero, suc, ◌+◌, Bool, true, false, ltb, ◌==◌, not, ◌&&◌, ◌||◌, if◌then◌else◌, Outcome, returns,
  panics, hangs, ◌>>=◌,
}
use linux.Fs.Buffer.{
  BufferHead, Cache, Driver, with_head, wait_on_buffer, sync_dev, remove_from_queues,
  insert_into_queues, is_block, find_buffer, add_user, drop_user,
}

-- `for (;;)`: a buffer that has changed hands during the wait is given up and looked for again.
unfoldable pub get_hash_table : ℕ → Driver → ℕ → ℕ → Cache → Outcome (ℕ × Cache)
unfolding find_buffer wait_on_buffer
get_hash_table zero d dev block c = hangs
get_hash_table (suc fuel) d dev block c =
    let bh = find_buffer dev block c in
    let c' = wait_on_buffer d bh (with_head bh add_user c) in
    let again = get_hash_table fuel d dev block (with_head bh drop_user c') in
    if bh == 0
    then returns (0, c)
    else if is_block dev block (c'.head bh)
    then returns (bh, c')
    else again

-- `BADNESS`
abbrev pub badness : BufferHead → ℕ
badness b = (if b.b_dirt then 2 else 0) + (if b.b_lock then 1 else 0)

-- The loop over the free list: `tmp` goes once round it, `bh` is the best so far.
unfoldable pub choose_free : ℕ → Cache → ℕ → ℕ → Outcome ℕ
choose_free zero c tmp bh = hangs
choose_free (suc fuel) c tmp bh =
    let t = c.head tmp in
    let better = bh == 0 || ltb (badness t) (badness (c.head bh)) in
    let bh' = if t.b_count == 0 && better then tmp else bh in
    let rest = choose_free fuel c t.b_next_free bh' in
    if t.b_count == 0 && better && badness t == 0
    then returns tmp
    else if t.b_next_free == c.free_list
    then returns bh'
    else rest

-- `while (bh->b_dirt)`; `none` is `goto repeat`.
unfoldable pub clean : ℕ → Driver → ℕ → Cache → Outcome (Bool × Cache)
unfolding sync_dev wait_on_buffer
clean zero d bh c = hangs
clean (suc fuel) d bh c =
    let c' = wait_on_buffer d bh (sync_dev d (c.head bh).b_dev c) in
    let rest = clean fuel d bh c' in
    if not (c.head bh).b_dirt
    then returns (true, c)
    else if (c'.head bh).b_count == 0
    then rest
    else returns (false, c')

-- The end of `getblk`: the buffer changes hands. A device number has 16 bits where it comes from (the
-- inode, the super block, the request), so `b_dev` takes it whole.
unfoldable pub take_over : ℕ → ℕ → ℕ → Cache → Outcome (ℕ × Cache)
unfolding remove_from_queues insert_into_queues
take_over dev block bh c =
    remove_from_queues bh
      (with_head bh (λ b. record b { b_count = 1; b_dirt = false; b_uptodate = false }) c)
    >>= λ c'. returns (
      bh,
      insert_into_queues bh (with_head bh (λ b. record b { b_dev = dev; b_blocknr = block }) c'),
    )

-- `repeat:` on fuel.
unfoldable pub getblk : ℕ → Driver → ℕ → ℕ → Cache → Outcome (ℕ × Cache)
unfolding get_hash_table choose_free clean take_over
getblk zero d dev block c = hangs
getblk (suc fuel) d dev block c = get_hash_table (suc fuel) d dev block c >>= λ (found, c₁).
    if not (found == 0)
    then returns (found, c₁)
    else (choose_free (c₁.nr_buffers + 1) c₁ c₁.free_list 0 >>= λ bh.
        let c₂ = wait_on_buffer d bh c₁ in
        if bh == 0
        then getblk fuel d dev block (d.until_free c₁)
        else if not ((c₂.head bh).b_count == 0)
        then getblk fuel d dev block c₂
        else (clean (suc fuel) d bh c₂ >>= λ (ok, c₃).
            if not ok || not (find_buffer dev block c₃ == 0)
            then getblk fuel d dev block c₃
            else take_over dev block bh c₃))

unfoldable pub brelse : Driver → ℕ → Cache → Outcome Cache
unfolding wait_on_buffer
brelse d buf c =
    let c' = wait_on_buffer d buf c in
    if buf == 0
    then returns c
    else if (c'.head buf).b_count == 0
    then panics
    else returns (with_head buf drop_user c')
