-- ===== src/Fs/Buffer/Read.antt =====
-- fs/buffer.c: `bread`, `breada` and `bread_page`, which read blocks into buffers.
use linux.Base.{
  ℕ, ◌+◌, ◌-◌, List, [], ◌∷◌, ltb, ◌==◌, ◌||◌, if◌then◌else◌, Outcome, returns, panics, ◌>>=◌,
}
use linux.Fs.Buffer.{BufferHead, Cache, Driver, read, reada, with_head, wait_on_buffer, drop_user}
use linux.Fs.Buffer.Get.{getblk, brelse}

-- NULL, as 0, if the block cannot be read.
unfoldable pub bread : ℕ → Driver → ℕ → ℕ → Cache → Outcome (ℕ × Cache)
unfolding getblk brelse
bread fuel d dev block c = getblk fuel d dev block c >>= λ (bh, c₁).
    let c₂ = wait_on_buffer d bh (d.ll_rw_block read bh c₁) in
    if bh == 0
    then panics
    else if (c₁.head bh).b_uptodate
    then returns (bh, c₁)
    else if (c₂.head bh).b_uptodate
    then returns (bh, c₂)
    else (brelse d bh c₂ >>= λ c₃. returns (0, c₃))

-- The other blocks of `breada`. The read that the loop starts is that of `bh`, the first block.
unfoldable pub read_ahead : ℕ → Driver → ℕ → ℕ → List ℕ → Cache → Outcome Cache
unfolding getblk
read_ahead fuel d dev bh [] c = returns c
read_ahead fuel d dev bh (first ∷ rest) c = getblk fuel d dev first c >>= λ (tmp, c₁).
    let c₂ = if (c₁.head tmp).b_uptodate then c₁ else d.ll_rw_block reada bh c₁ in
    read_ahead fuel d dev bh rest (if tmp == 0 then c₁ else with_head tmp drop_user c₂)

unfoldable pub breada : ℕ → Driver → ℕ → ℕ → List ℕ → Cache → Outcome (ℕ × Cache)
unfolding read_ahead
breada fuel d dev first others c = getblk fuel d dev first c >>= λ (bh, c₁).
    let c₂ = if (c₁.head bh).b_uptodate then c₁ else d.ll_rw_block read bh c₁ in
    if bh == 0
    then panics
    else (read_ahead fuel d dev bh others c₂ >>= λ c₃.
        let c₄ = wait_on_buffer d bh c₃ in
        if (c₄.head bh).b_uptodate
        then returns (bh, c₄)
        else (brelse d bh c₄ >>= λ c₅. returns (0, c₅)))

-- The first loop of `bread_page`: the buffers of the blocks from `i` on, 0 for block 0.
unfoldable pub get_buffers : ℕ → Driver → (dev : ℕ) → List ℕ → Cache → Outcome (List ℕ × Cache)
unfolding getblk
get_buffers fuel d dev [] c = returns ([], c)
get_buffers fuel d dev (b ∷ bs) c =
    let skipped = get_buffers fuel d dev bs c >>= λ (bhs, c₁). returns (0 ∷ bhs, c₁) in
    let got = getblk fuel d dev b c >>= λ (bh, c₁).
    let ready = bh == 0 || (c₁.head bh).b_uptodate in
    get_buffers fuel d dev bs (if ready then c₁ else d.ll_rw_block read bh c₁) >>= λ (bhs, c₂).
    returns (bh ∷ bhs, c₂) in
    if b == 0 then skipped else got

-- `COPYBLK`, to an address of the memory
abbrev pub copy_block : BufferHead → ℕ → (ℕ → ℕ) → ℕ → ℕ
copy_block b address memory a =
    if ltb a address
    then memory a
    else if ltb a (address + 1024)
    then b.b_data (a - address)
    else memory a

-- The second loop: what is read goes to `address` and on, a kilobyte for each block.
unfoldable pub copy_buffers :
    Driver → List ℕ → (address : ℕ) → (memory : ℕ → ℕ) → Cache → Outcome ((ℕ → ℕ) × Cache)
unfolding wait_on_buffer brelse
copy_buffers d [] address memory c = returns (memory, c)
copy_buffers d (bh ∷ bhs) address memory c =
    let c₁ = wait_on_buffer d bh c in
    let b = c₁.head bh in
    let copied = if b.b_uptodate then copy_block b address memory else memory in
    let next = brelse d bh c₁ >>= λ c₂. copy_buffers d bhs (address + 1024) copied c₂ in
    let skipped = copy_buffers d bhs (address + 1024) memory c in if bh == 0 then skipped else next

-- The list has the four blocks.
unfoldable pub bread_page :
    ℕ → Driver → (address dev : ℕ) → List ℕ → (memory : ℕ → ℕ) → Cache → Outcome ((ℕ → ℕ) × Cache)
unfolding get_buffers copy_buffers
bread_page fuel d address dev b memory c =
    get_buffers fuel d dev b c >>= λ (bhs, c₁). copy_buffers d bhs address memory c₁
