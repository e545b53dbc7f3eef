-- ===== src/Fs/Buffer/Lookup.antt =====
-- The hash queues: a buffer that is put in is found.
use linux.Base.{
  ℕ, zero, suc, ◌+◌, ◌≡◌, ◌≢◌, refl, ◌∙◌, ap, arith, true, false, returns, Returns, inl, ◌⊎◌,
}
use linux.Fs.Buffer.{
  BufferHead, Cache, with_head, hashfn, is_block, find_from, find_buffer, put_last, put_hashed,
  insert_into_queues, remove_from_queues, unhash, unfree,
}
use linux.Fs.Buffer.Links.{
  put_last-KeepsNames, insert-KeepsNames, unhash-KeepsNames, unlinked, unlinked-KeepsNames,
}
use linux.Fs.Buffer.Get.{take_over}

-- What `find_buffer` returns is NULL or a buffer of the device and block.
pub find_from-is_block :
    (fuel dev block tmp : ℕ) (c : Cache)
    → let bh = find_from fuel dev block c tmp in
      (bh ≡ 0) ⊎ ((bh ≢ 0) × (is_block dev block (c.head bh) ≡ true))
unfolding find_from
find_from-is_block zero dev block tmp c = inl refl
find_from-is_block (suc fuel) dev block tmp c =
    ground (arith, find_from-is_block fuel dev block (c.head tmp).b_next c)

put_hashed-first :
    (bh dev block : ℕ) (c : Cache)
    → (c.head bh).b_dev ≡ dev
    → (c.head bh).b_blocknr ≡ block
    → dev ≢ 0
    → (put_hashed bh c).hash_table (hashfn dev block) ≡ bh
unfolding put_hashed
put_hashed-first bh dev block c d b h = ground arith

find_from-first :
    (fuel dev block tmp : ℕ) (c : Cache)
    → tmp ≢ 0
    → is_block dev block (c.head tmp) ≡ true
    → find_from (fuel + 1) dev block c tmp ≡ tmp
unfolding find_from
find_from-first fuel dev block tmp c h e =
    let s : fuel + 1 ≡ suc fuel = omega arith in rw s (ground arith)

find_buffer-first :
    (dev block bh : ℕ) (c : Cache)
    → c.hash_table (hashfn dev block) ≡ bh
    → bh ≢ 0
    → (c.head bh).b_dev ≡ dev
    → (c.head bh).b_blocknr ≡ block
    → find_buffer dev block c ≡ bh
unfolding find_buffer
find_buffer-first dev block bh c first nz d b =
    rw first (find_from-first c.nr_buffers dev block bh c nz (ground arith))

insert-first :
    (dev block bh : ℕ) (c : Cache)
    → dev ≢ 0
    → (c.head bh).b_dev ≡ dev
    → (c.head bh).b_blocknr ≡ block
    → (insert_into_queues bh c).hash_table (hashfn dev block) ≡ bh
unfolding insert_into_queues
insert-first dev block bh c h d b =
    put_hashed-first bh dev block (put_last bh c) ((put_last-KeepsNames bh c bh).dev ∙ d)
      ((put_last-KeepsNames bh c bh).blocknr ∙ b) h

-- A buffer with a device that is put into the queues is what `find_buffer` then finds for its device
-- and block, whatever was in the hash queue before.
find_buffer-insert_into_queues :
    (dev block bh : ℕ) (c : Cache)
    → bh ≢ 0
    → dev ≢ 0
    → (c.head bh).b_dev ≡ dev
    → (c.head bh).b_blocknr ≡ block
    → find_buffer dev block (insert_into_queues bh c) ≡ bh
find_buffer-insert_into_queues dev block bh c nz nd d b =
    let k = insert-KeepsNames bh c bh in
    find_buffer-first dev block bh (insert_into_queues bh c) (insert-first dev block bh c nd d b) nz
      (k.dev ∙ d) (k.blocknr ∙ b)

-- The buffer that `getblk` hands out for a block that was not cached.
pub record IsHandedOut (dev block bh : ℕ) (out : ℕ × Cache) : Type 0 where
  pub result : out.0 ≡ bh
  pub device : (out.1.head bh).b_dev ≡ dev
  pub number : (out.1.head bh).b_blocknr ≡ block
  pub users : (out.1.head bh).b_count ≡ 1
  pub clean : (out.1.head bh).b_dirt ≡ false
  pub not_read : (out.1.head bh).b_uptodate ≡ false
  pub found : find_buffer dev block out.1 ≡ bh

-- A buffer in the free list, whose neighbours there are linked to it.
abbrev pub IsLinked : ℕ → Cache → Type 0
IsLinked bh c = ((c.head bh).b_prev_free ≢ 0) × ((c.head bh).b_next_free ≢ 0)

unhash-links :
    (bh p : ℕ) (c : Cache)
    → (((unhash bh c).head p).b_prev_free ≡ (c.head p).b_prev_free)
      × (((unhash bh c).head p).b_next_free ≡ (c.head p).b_next_free)
unfolding unhash
unhash-links bh p c = (ground arith, ground arith)

unfree-linked : (bh : ℕ) (c : Cache) → IsLinked bh c → unfree bh c ≡ returns (unlinked bh c)
unfolding unfree
unfree-linked bh c l = ground arith

remove-linked :
    (bh : ℕ) (c : Cache)
    → IsLinked bh c
    → remove_from_queues bh c ≡ returns (unlinked bh (unhash bh c))
unfolding remove_from_queues
remove-linked bh c l =
    let (p, n) = unhash-links bh bh c in unfree-linked bh (unhash bh c) (rw p l.0, rw n l.1)

-- The two assignments of `take_over`.
abbrev reset : BufferHead → BufferHead
reset b = record b { b_count = 1; b_dirt = false; b_uptodate = false }

abbrev named : ℕ → ℕ → BufferHead → BufferHead
named dev block b = record b { b_dev = dev; b_blocknr = block }

handed_out :
    (dev block bh : ℕ) (c : Cache)
    → bh ≢ 0
    → dev ≢ 0
    → (c.head bh).b_count ≡ 1
    → (c.head bh).b_dirt ≡ false
    → (c.head bh).b_uptodate ≡ false
    → IsHandedOut dev block bh (bh, insert_into_queues bh (with_head bh (named dev block) c))
handed_out dev block bh c nz nd u d r =
    let c₁ = with_head bh (named dev block) c in
    let k = insert-KeepsNames bh c₁ bh in
    let here : c₁.head bh ≡ named dev block (c.head bh) = ground arith in
    record {
      result = refl;
      device = k.dev ∙ ap BufferHead.b_dev here;
      number = k.blocknr ∙ ap BufferHead.b_blocknr here;
      users = k.count ∙ ap BufferHead.b_count here ∙ u;
      clean = k.dirt ∙ ap BufferHead.b_dirt here ∙ d;
      not_read = k.uptodate ∙ ap BufferHead.b_uptodate here ∙ r;
      found =
          find_buffer-insert_into_queues dev block bh c₁ nz nd (ap BufferHead.b_dev here)
            (ap BufferHead.b_blocknr here);
    }

-- The end of `getblk`, for a buffer in the free list and a device other than 0: it does not panic; the buffer has the device
-- and the block, one user, and no content yet; and `find_buffer` finds it.
pub take_over-IsHandedOut :
    (dev block bh : ℕ) (c : Cache)
    → bh ≢ 0
    → dev ≢ 0
    → IsLinked bh c
    → Returns (IsHandedOut dev block bh) (take_over dev block bh c)
unfolding take_over
take_over-IsHandedOut dev block bh c nz nd l =
    let c₁ = with_head bh reset c in
    let here : c₁.head bh ≡ reset (c.head bh) = ground arith in
    let linked : IsLinked bh c₁ = rw here l in
    let u = unhash-KeepsNames bh c₁ bh in
    let k = unlinked-KeepsNames bh (unhash bh c₁) bh in
    rw (remove-linked bh c₁ linked) (
      handed_out dev block bh (unlinked bh (unhash bh c₁)) nz nd
        (k.count ∙ u.count ∙ ap BufferHead.b_count here)
        (k.dirt ∙ u.dirt ∙ ap BufferHead.b_dirt here)
        (k.uptodate ∙ u.uptodate ∙ ap BufferHead.b_uptodate here))
