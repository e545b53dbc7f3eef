-- ===== src/Fs/Inode/Disk.antt =====
-- fs/inode.c: an inode that `write_inode` has stored in a block is the one that `read_inode` loads.
use linux.Base.{ℕ, ◌+◌, ◌*◌, ◌-◌, ◌/◌, ◌%◌, ◌^◌, ◌<◌, ◌≡◌, ◌≢◌, refl, sym, ◌∙◌, ap, arith, lt→ltb}
use linux.Fs.Structs.{Inode}
use linux.Fs.State.{read16}
use linux.Fs.Inode.{byte_of, d_inode_byte, read32, store_d_inode, load_d_inode}

-- The fields that are on disk have the widths of `struct d_inode`.
pub record Fits (i : Inode) : Type 0 where
  pub mode : i.i_mode < 2 ^ 16
  pub uid : i.i_uid < 2 ^ 16
  pub size : i.i_size < 2 ^ 32
  pub mtime : i.i_mtime < 2 ^ 32
  pub gid : i.i_gid < 2 ^ 8
  pub nlinks : i.i_nlinks < 2 ^ 8
  pub zone : (k : ℕ) → k < 9 → i.i_zone k < 2 ^ 16

-- Two inodes that are the same on disk.
pub record SameOnDisk (i j : Inode) : Type 0 where
  pub mode : i.i_mode ≡ j.i_mode
  pub uid : i.i_uid ≡ j.i_uid
  pub size : i.i_size ≡ j.i_size
  pub mtime : i.i_mtime ≡ j.i_mtime
  pub gid : i.i_gid ≡ j.i_gid
  pub nlinks : i.i_nlinks ≡ j.i_nlinks
  pub zone : (k : ℕ) → k < 9 → i.i_zone k ≡ j.i_zone k

module _ (index : ℕ) (i : Inode) (f : ℕ → ℕ) where
  stored_byte : (k : ℕ) → k < 32 → store_d_inode index i f (index * 32 + k) ≡ d_inode_byte i k
  unfolding store_d_inode
  stored_byte k h =
      let q : (index * 32 + k) / 32 ≡ index = omega arith in
      let r : (index * 32 + k) % 32 ≡ k = omega arith in rw (q, r) (ground arith)

  stored_other :
      (other k : ℕ)
      → k < 32
      → other ≢ index
      → store_d_inode index i f (other * 32 + k) ≡ f (other * 32 + k)
  unfolding store_d_inode
  stored_other other k h ne =
      let q : (other * 32 + k) / 32 ≡ other = omega arith in rw q (ground (arith, ne))

byte_pair : (v : ℕ) → v < 2 ^ 16 → byte_of v 0 + 256 * byte_of v 1 ≡ v
byte_pair v h = omega arith

byte_quad :
    (v : ℕ)
    → v < 2 ^ 32
    → byte_of v 0 + 256 * byte_of v 1 + 65536 * byte_of v 2 + 16777216 * byte_of v 3 ≡ v
byte_quad v h = omega arith

zone_bytes :
    (i : Inode) (k : ℕ)
    → k < 9
    → i.i_zone k < 2 ^ 16
    → d_inode_byte i (14 + k * 2) + 256 * d_inode_byte i (14 + k * 2 + 1) ≡ i.i_zone k
unfolding d_inode_byte
zone_bytes i k h l =
    let a : (14 + k * 2 - 14) / 2 ≡ k = omega arith in
    let b : (14 + k * 2 + 1 - 14) / 2 ≡ k = omega arith in
    let c : (14 + k * 2 - 14) % 2 ≡ 0 = omega arith in
    let d : (14 + k * 2 + 1 - 14) % 2 ≡ 1 = omega arith in ground (arith, a, b, c, d)

module _ (index : ℕ) (i : Inode) (f : ℕ → ℕ) where
  stored_at : (a k : ℕ) → k < 32 → a ≡ index * 32 + k → store_d_inode index i f a ≡ d_inode_byte i k
  stored_at a k h e = ap (store_d_inode index i f) e ∙ stored_byte index i f k h

  stored_16 :
      (a k : ℕ)
      → k + 1 < 32
      → a ≡ index * 32 + k
      → read16 (store_d_inode index i f) a ≡ d_inode_byte i k + 256 * d_inode_byte i (k + 1)
  stored_16 a k h e =
      omega (
        arith,
        stored_at a k (omega arith) e,
        stored_at (a + 1) (k + 1) (omega arith) (omega arith),
      )

  stored_32 :
      (a k : ℕ)
      → k + 3 < 32
      → a ≡ index * 32 + k
      → read32 (store_d_inode index i f) a
        ≡ d_inode_byte i k
          + 256 * d_inode_byte i (k + 1)
          + 65536 * d_inode_byte i (k + 2)
          + 16777216 * d_inode_byte i (k + 3)
  stored_32 a k h e = omega (
    arith,
    stored_at a k (omega arith) e,
    stored_at (a + 1) (k + 1) (omega arith) (omega arith),
    stored_at (a + 2) (k + 2) (omega arith) (omega arith),
    stored_at (a + 3) (k + 3) (omega arith) (omega arith),
  )

  stored_zone :
      (k : ℕ)
      → k < 9
      → i.i_zone k < 2 ^ 16
      → read16 (store_d_inode index i f) (index * 32 + 14 + k * 2) ≡ i.i_zone k
  stored_zone k h l =
      stored_16 (index * 32 + 14 + k * 2) (14 + k * 2) (omega arith) (omega arith)
      ∙ zone_bytes i k h l

  load_d_inode-store_self :
      (j : Inode) → Fits i → SameOnDisk (load_d_inode index (store_d_inode index i f) j) i
  unfolding load_d_inode d_inode_byte
  load_d_inode-store_self j fits = record {
    mode = stored_16 (index * 32) 0 (omega arith) (omega arith) ∙ byte_pair i.i_mode fits.mode;
    uid = stored_16 (index * 32 + 2) 2 (omega arith) refl ∙ byte_pair i.i_uid fits.uid;
    size = stored_32 (index * 32 + 4) 4 (omega arith) refl ∙ byte_quad i.i_size fits.size;
    mtime = stored_32 (index * 32 + 8) 8 (omega arith) refl ∙ byte_quad i.i_mtime fits.mtime;
    gid = omega (arith, stored_at (index * 32 + 12) 12 (omega arith) refl, fits.gid);
    nlinks = omega (arith, stored_at (index * 32 + 13) 13 (omega arith) refl, fits.nlinks);
    zone = λ k h. rw (lt→ltb k 9 h) (stored_zone k h (fits.zone k h));
  }

  module _ (other : ℕ) (ne : other ≢ index) where
    same_at : (a k : ℕ) → k < 32 → a ≡ other * 32 + k → store_d_inode index i f a ≡ f a
    same_at a k h e =
        ap (store_d_inode index i f) e ∙ stored_other index i f other k h ne ∙ ap f (sym e)

    same_16 :
        (a k : ℕ)
        → k + 1 < 32
        → a ≡ other * 32 + k
        → read16 (store_d_inode index i f) a ≡ read16 f a
    same_16 a k h e =
        omega
          (arith, same_at a k (omega arith) e, same_at (a + 1) (k + 1) (omega arith) (omega arith))

    same_32 :
        (a k : ℕ)
        → k + 3 < 32
        → a ≡ other * 32 + k
        → read32 (store_d_inode index i f) a ≡ read32 f a
    same_32 a k h e = omega (
      arith,
      same_at a k (omega arith) e,
      same_at (a + 1) (k + 1) (omega arith) (omega arith),
      same_at (a + 2) (k + 2) (omega arith) (omega arith),
      same_at (a + 3) (k + 3) (omega arith) (omega arith),
    )

    same_zone :
        (k : ℕ)
        → k < 9
        → read16 (store_d_inode index i f) (other * 32 + 14 + k * 2)
          ≡ read16 f (other * 32 + 14 + k * 2)
    same_zone k h = same_16 (other * 32 + 14 + k * 2) (14 + k * 2) (omega arith) (omega arith)

    load_d_inode-store_other :
        (j : Inode)
        → SameOnDisk (load_d_inode other (store_d_inode index i f) j) (load_d_inode other f j)
    unfolding load_d_inode
    load_d_inode-store_other j = record {
      mode = same_16 (other * 32) 0 (omega arith) (omega arith);
      uid = same_16 (other * 32 + 2) 2 (omega arith) refl;
      size = same_32 (other * 32 + 4) 4 (omega arith) refl;
      mtime = same_32 (other * 32 + 8) 8 (omega arith) refl;
      gid = same_at (other * 32 + 12) 12 (omega arith) refl;
      nlinks = same_at (other * 32 + 13) 13 (omega arith) refl;
      zone = λ k h. rw (lt→ltb k 9 h) (same_zone k h);
    }

  -- An inode whose fields have the widths of `struct d_inode`, stored at an index of a block, is
  -- loaded from there as it was, and the inodes at the other indices of the block are loaded as
  -- before.
  pub load_d_inode-store_d_inode :
      (j : Inode)
      → Fits i
      → SameOnDisk (load_d_inode index (store_d_inode index i f) j) i
        × ((other : ℕ)
            → other ≢ index
            → SameOnDisk (load_d_inode other (store_d_inode index i f) j) (load_d_inode other f j))
  load_d_inode-store_d_inode j fits =
      (load_d_inode-store_self j fits, λ other ne. load_d_inode-store_other other ne j)
