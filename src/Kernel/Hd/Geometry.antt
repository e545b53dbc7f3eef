-- ===== src/Kernel/Hd/Geometry.antt =====
-- kernel/blk_drv/hd.c: the sector, head and cylinder of `do_hd_request` name one sector each.
use linux.Base.{ℕ, ◌+◌, ◌*◌, ◌-◌, ◌/◌, ◌<◌, ◌≤◌, ◌≡◌, arith}
use native.Mathlib.Nat.{div-add-mod, mod-lt, div-lt_iff_lt-mul}
use linux.Kernel.Hd.{HdInfo, sector_number, head_number, cylinder_number}

-- The number of a sector from its place, as a disk counts: along a track, then by the heads, then by
-- the cylinders.
abbrev pub sector_at : HdInfo → (sec head cyl : ℕ) → ℕ
sector_at i sec head cyl = i.sect * (i.head * cyl + head) + (sec - 1)

-- For a disk with heads and sectors, `do_hd_request` computes a place on the disk: the sector counts
-- from 1, the head is one of the disk's, the place is that of the block, and the cylinder is one of
-- the disk's if the block is.
pub place_lem :
    (i : HdInfo) (block : ℕ)
    → 1 ≤ i.sect
    → 1 ≤ i.head
    → (1 ≤ sector_number i block)
      × (sector_number i block ≤ i.sect)
      × (head_number i block < i.head)
      × (sector_at i (sector_number i block) (head_number i block) (cylinder_number i block)
          ≡ block)
      × (block < i.cyl * i.head * i.sect → cylinder_number i block < i.cyl)
unfolding sector_number head_number cylinder_number
place_lem i block s h = (
  omega arith,
  omega (arith, mod-lt block s),
  mod-lt (block / i.sect) h,
  rw (div-add-mod (block / i.sect) i.head) (omega (arith, div-add-mod block i.sect)),
  λ l. (div-lt_iff_lt-mul h).1 ((div-lt_iff_lt-mul s).1 l),
)
