-- ===== src/Fs/Structs.antt =====
-- include/linux/fs.h: inodes and super blocks, and the file types and modes of include/sys/stat.h.
-- The queues of those who wait for an inode or a super block are left out: what happens during a
-- wait is given by `World` of Fs/State.
use linux.Base.{ℕ, ◌==◌, Bool, false, bit_and}

-- `struct m_inode`; the fields are numbers below the power of two that their C type holds.
pub record Inode : Type 0 where
  pub i_mode : ℕ
  pub i_uid : ℕ
  pub i_size : ℕ
  pub i_mtime : ℕ
  pub i_gid : ℕ
  pub i_nlinks : ℕ
  pub i_zone : ℕ → ℕ
  pub i_atime : ℕ
  pub i_ctime : ℕ
  pub i_dev : ℕ
  pub i_num : ℕ
  pub i_count : ℕ
  pub i_lock : Bool
  pub i_dirt : Bool
  pub i_pipe : Bool
  pub i_mount : Bool
  pub i_seek : Bool
  pub i_update : Bool

-- `memset(inode, 0, sizeof(*inode))`
abbrev pub no_inode : Inode
no_inode = record {
  i_mode = 0;
  i_uid = 0;
  i_size = 0;
  i_mtime = 0;
  i_gid = 0;
  i_nlinks = 0;
  i_zone = λ i. 0;
  i_atime = 0;
  i_ctime = 0;
  i_dev = 0;
  i_num = 0;
  i_count = 0;
  i_lock = false;
  i_dirt = false;
  i_pipe = false;
  i_mount = false;
  i_seek = false;
  i_update = false;
}

-- `struct super_block`; the maps hold the addresses of buffers, `s_isup` and `s_imount` pointers to
-- inodes.
pub record SuperBlock : Type 0 where
  pub s_ninodes : ℕ
  pub s_nzones : ℕ
  pub s_imap_blocks : ℕ
  pub s_zmap_blocks : ℕ
  pub s_firstdatazone : ℕ
  pub s_log_zone_size : ℕ
  pub s_max_size : ℕ
  pub s_magic : ℕ
  pub s_imap : ℕ → ℕ
  pub s_zmap : ℕ → ℕ
  pub s_dev : ℕ
  pub s_isup : ℕ
  pub s_imount : ℕ
  pub s_time : ℕ
  pub s_lock : Bool
  pub s_rd_only : Bool
  pub s_dirt : Bool

-- A super block of zeros.
abbrev pub no_super : SuperBlock
no_super = record {
  s_ninodes = 0;
  s_nzones = 0;
  s_imap_blocks = 0;
  s_zmap_blocks = 0;
  s_firstdatazone = 0;
  s_log_zone_size = 0;
  s_max_size = 0;
  s_magic = 0;
  s_imap = λ i. 0;
  s_zmap = λ i. 0;
  s_dev = 0;
  s_isup = 0;
  s_imount = 0;
  s_time = 0;
  s_lock = false;
  s_rd_only = false;
  s_dirt = false;
}

abbrev pub s_ifmt : ℕ
s_ifmt = 0o170000

abbrev pub s_ifdir : ℕ
s_ifdir = 0o040000

abbrev pub s_isvtx : ℕ
s_isvtx = 0o001000

-- `S_ISREG` and its kin
abbrev pub is_reg : ℕ → Bool
is_reg m = bit_and m s_ifmt == 0o100000

abbrev pub is_dir : ℕ → Bool
is_dir m = bit_and m s_ifmt == s_ifdir

abbrev pub is_chr : ℕ → Bool
is_chr m = bit_and m s_ifmt == 0o020000

abbrev pub is_blk : ℕ → Bool
is_blk m = bit_and m s_ifmt == 0o060000
