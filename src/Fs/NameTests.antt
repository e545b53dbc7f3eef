-- ===== src/Fs/NameTests.antt =====
-- Names, permissions, inodes and positions at small examples.
use linux.Base.{
  exits, panics, hangs, ℕ, ◌≡◌, ◌≢◌, ◌↔◌, refl, arith, ◌==◌, if◌then◌else◌, true, false, ◌<◌,
  returns, Outcome,
}
use linux.Base.Int.{ℤ, pos, negsuc, ◌+ℤ◌}
use linux.Kernel.Task.{modify}
use linux.Kernel.Examples.{some_task, three_tasks}
use linux.Fs.Structs.{Inode, no_inode, no_super}
use linux.Fs.Buffer.{Cache}
use linux.Fs.State.{new_block, with_inode, FileSystem, World}
use linux.Fs.Namei.{permission, match}
use linux.Fs.Namei.Match.{filled, match_iff}
use linux.Fs.Namei.Access.{MayUse, permission_iff}
use linux.Kernel.Sys.{current_time}
use linux.Base.Loops.{find_up}
use linux.Base.Bits.{bit}
use linux.Fs.Inode.{with_zone, store_d_inode, load_d_inode, create_block, bmap}
use linux.Fs.Inode.Disk.{Fits, SameOnDisk, load_d_inode-store_d_inode}
use linux.Fs.Inode.Blocks.{bmap-create_block}
use linux.Fs.Inode.Table.{scan_inodes}
use linux.Fs.Inode.Scan.{scan_inodes-IsFree}
use linux.Fs.ReadWrite.{sys_lseek}
use linux.Fs.ReadWrite.Seek.{IsLong, CanSeek, place, moved, sys_lseek-moved}

-- `bin` and `bit`
abbrev name_bin : ℕ → ℕ
name_bin j = if j == 0 then 98 else if j == 1 then 105 else 110

abbrev name_bit : ℕ → ℕ
name_bit j = if j == 0 then 98 else if j == 1 then 105 else 116

abbrev blank : ℕ → ℕ
blank a = 0

match_iff_example :
    (match 3 name_bit (filled 5 77 3 name_bin blank) 5 ≡ true)
    ↔ ((◌≡◌ {A = ℕ} 3 3) × ((j : ℕ) → j < 3 → name_bin j ≡ name_bit j))
match_iff_example =
    match_iff 5 77 3 3 name_bin name_bit blank (omega arith) (omega arith) (λ j l. ground arith)
      (λ j l. ground arith)

-- rwxr-x--- of another user, in the group of the task
abbrev group_file : Inode
group_file = record no_inode {
  i_mode = 0o100750;
  i_uid = 7;
  i_gid = some_task.egid;
  i_dev = 0x301;
  i_nlinks = 1;
  i_count = 1;
  i_num = 12;
  i_size = 3000;
  i_zone = λ k. if k == 0 then 500 else if k == 1 then 501 else 502;
}

permission_iff_example : (permission some_task group_file 5 ≡ true) ↔ MayUse some_task group_file 5
permission_iff_example = permission_iff some_task group_file 5 (omega arith)

group_file-Fits : Fits group_file
group_file-Fits = record {
  mode = omega arith;
  uid = omega arith;
  size = omega arith;
  mtime = omega arith;
  gid = omega arith;
  nlinks = omega arith;
  zone = λ k h. ground arith;
}

load_d_inode-store_d_inode_example :
    SameOnDisk (load_d_inode 11 (store_d_inode 11 group_file blank) no_inode) group_file
    × ((other : ℕ)
        → other ≢ 11
        → SameOnDisk
            (load_d_inode other (store_d_inode 11 group_file blank) no_inode)
            (load_d_inode other blank no_inode))
load_d_inode-store_d_inode_example =
    load_d_inode-store_d_inode 11 group_file blank no_inode group_file-Fits

abbrev no_buffers : Cache
no_buffers = record {
  head = λ p. record {
    b_data = blank;
    b_blocknr = 0;
    b_dev = 0;
    b_uptodate = false;
    b_dirt = false;
    b_count = 0;
    b_lock = false;
    b_prev = 0;
    b_next = 0;
    b_prev_free = 0;
    b_next_free = 0;
  };
  hash_table = λ h. 0;
  free_list = 0;
  start_buffer = 0;
  nr_buffers = 0;
}

-- Every inode is in use but the last.
abbrev small_system : FileSystem
small_system = record {
  cache = no_buffers;
  inode_at = λ p. if p == 32 then no_inode else group_file;
  last_inode = 1;
  super_at = λ p. no_super;
  root_dev = 0x301;
  tasks = three_tasks;
  file = λ p. record { f_mode = 0; f_flags = 0; f_count = 0; f_inode = 0; f_pos = 0 };
  mm = record { mem_map = λ i. 0; high_memory = 0x1000000; word = λ a. 0 };
  user = blank;
}

abbrev quiet_world : World
quiet_world = record {
  fuel = 10;
  driver = record {
    until_unlocked = λ bh c. c;
    until_free = λ c. c;
    ll_rw_block = λ rw bh c. c;
    sync_inodes = λ c. c;
  };
  until_inode_unlocked = λ p s. s;
  until_super_unlocked = λ p s. s;
}

-- Three buffers that nobody uses; the first holds the map of zones, in which bits 0 to 2 are set.
abbrev spare_buffers : Cache
spare_buffers = record no_buffers {
  head = λ p. record (no_buffers.head p) {
    b_data = λ a. if a == 0 then 7 else 0;
    b_count = if p == 100 then 1 else 0;
    b_prev_free = if p == 100 then 102 else if p == 101 then 100 else 101;
    b_next_free = if p == 100 then 101 else if p == 101 then 102 else 100;
  };
  free_list = 100;
  start_buffer = 100;
  nr_buffers = 3;
}

-- A file without blocks, on a device with one map of zones.
abbrev growing_system : FileSystem
growing_system = record small_system {
  cache = spare_buffers;
  inode_at = λ p. record group_file { i_zone = λ k. 0 };
  super_at = λ p. record no_super {
    s_dev = 0x301;
    s_nzones = 1000;
    s_firstdatazone = 20;
    s_zmap = λ i. if i == 0 then 100 else 0;
  };
}

abbrev state_after : Outcome (ℕ × FileSystem) → FileSystem
state_after (returns (n, s)) = s
state_after panics = small_system
state_after (exits c) = small_system
state_after hangs = small_system

abbrev grown_system : FileSystem
unfolding new_block
grown_system = state_after (new_block quiet_world 0x301 growing_system)

zone_found :
    ◌≡◌ {A = Outcome (ℕ × FileSystem)}
      (new_block quiet_world 0x301 growing_system)
      (returns (22, grown_system))
unfolding new_block grown_system find_up bit
zone_found = refl

bmap-create_block_example :
    let s' = with_inode 3 (with_zone 1 22 (current_time grown_system.tasks)) grown_system in
    ◌≡◌ {A = Outcome (ℕ × FileSystem)}
      (create_block quiet_world 3 (pos 1) growing_system)
      (returns (22, s'))
    × ◌≡◌ {A = Outcome (ℕ × FileSystem)} (bmap quiet_world 3 (pos 1) s') (returns (22, s'))
    × ((s'.inode_at 3).i_dirt ≡ true)
bmap-create_block_example =
    bmap-create_block quiet_world 3 1 22 growing_system grown_system (omega arith) refl zone_found
      (omega arith) (omega arith)

scan_inodes-IsFree_example :
    let (_, found) = scan_inodes 32 small_system 1 0 in
    (found ≢ 0) × ((small_system.inode_at found).i_count ≡ 0)
scan_inodes-IsFree_example =
    scan_inodes-IsFree small_system 32 (omega arith) (omega arith) (omega arith) (omega arith) refl

in_range : IsLong (pos 100 +ℤ negsuc 19)
unfolding ◌+ℤ◌
in_range = (omega arith, omega arith)

past_end : IsLong (pos 3000 +ℤ negsuc 19)
unfolding ◌+ℤ◌
past_end = (omega arith, omega arith)

-- The file of descriptor 0, at position 100 of 3000 bytes.
abbrev open_system : FileSystem
open_system = record small_system {
  file = λ p. record { f_mode = 0; f_flags = 0; f_count = 1; f_inode = 3; f_pos = 100 };
  tasks = modify 1000 (λ t. record t { filp = λ fd. 5 }) three_tasks;
}

open_system-CanSeek : CanSeek 0 (negsuc 19) open_system
open_system-CanSeek = record {
  in_table = omega arith;
  is_open = omega arith;
  with_inode = omega arith;
  seekable = refl;
  no_pipe = refl;
  position = omega arith;
  size = omega arith;
  long_offset = (omega arith, omega arith);
  from_position = in_range;
  from_end = past_end;
}

-- 20 back from the position
sys_lseek-moved_example :
    ◌≡◌ {A = Outcome (ℤ × FileSystem)}
      (sys_lseek 0 (negsuc 19) 1 open_system)
      (returns (moved 5 (place 100 3000 (negsuc 19) 1) open_system))
sys_lseek-moved_example = sys_lseek-moved 0 1 (negsuc 19) open_system open_system-CanSeek
