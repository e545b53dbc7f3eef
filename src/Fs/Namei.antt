-- ===== src/Fs/Namei.antt =====
-- fs/namei.c: who may do what with an inode, and the entries of a directory.
-- A `struct dir_entry` is given by the block it lies in and its index there.
pub mod Entry
pub mod Access
pub mod Match
pub mod Walk
pub mod Open
pub mod Make
pub mod Remove
use linux.Base.{
  ℕ, ◌+◌, ◌*◌, ◌-◌, ◌/◌, ◌==◌, ltb, leb, not, ◌&&◌, ◌||◌, if◌then◌else◌, update, Bool, true, false,
  bit_and,
}
use linux.Base.Loops.{find_up}
use linux.Kernel.Task.{Task}
use linux.Kernel.Sys.{suser}
use linux.Fs.Structs.{Inode}
use linux.Fs.Buffer.{BufferHead}
use linux.Fs.State.{read16, write16}

abbrev pub name_len : ℕ
name_len = 14

abbrev pub root_ino : ℕ
root_ino = 1

abbrev pub dir_entries_per_block : ℕ
dir_entries_per_block = 64

abbrev pub may_exec : ℕ
may_exec = 1

abbrev pub may_write : ℕ
may_write = 2

-- `ACC_MODE`; the last one is a mask that no mode passes.
abbrev pub acc_mode : (flag : ℕ) → ℕ
acc_mode flag =
    let access = bit_and flag 3 in
    if access == 0 then 4 else if access == 1 then 2 else if access == 2 then 6 else 255

-- The three bits of the mode that count for the task, as the lowest of a number.
abbrev pub mode_for : Task → Inode → ℕ
mode_for t i =
    if t.euid == i.i_uid
    then i.i_mode / 64
    else if t.egid == i.i_gid
    then i.i_mode / 8
    else i.i_mode

unfoldable pub permission : Task → Inode → (mask : ℕ) → Bool
permission t i mask =
    if not (i.i_dev == 0) && i.i_nlinks == 0
    then false
    else bit_and (bit_and (mode_for t i) mask) 7 == mask || suser t

-- The inode number and the bytes of the name of entry `k` in a block.
abbrev pub entry_inode : (ℕ → ℕ) → (k : ℕ) → ℕ
entry_inode block k = read16 block (16 * k)

abbrev pub entry_name : (ℕ → ℕ) → (k : ℕ) → ℕ → ℕ
entry_name block k j = block (16 * k + 2 + j)

-- The name is `len` bytes of the memory of the process, `len` not 0 (the comparison of no bytes
-- would leave the result to an earlier instruction).
unfoldable pub match : (len : ℕ) → (name : ℕ → ℕ) → (block : ℕ → ℕ) → (k : ℕ) → Bool
match len name block k =
    if entry_inode block k == 0 || ltb name_len len
    then false
    else if ltb len name_len && not (entry_name block k len == 0)
    then false
    else find_up 0 len (λ j. not (name j == entry_name block k j)) == len

-- `de->inode = nr`
abbrev pub with_entry_inode : (k nr : ℕ) → (ℕ → ℕ) → ℕ → ℕ
with_entry_inode k nr block = write16 (16 * k) nr block

-- The loop over `de->name` in `add_entry`.
abbrev pub with_entry_name : (k len : ℕ) → (name : ℕ → ℕ) → (ℕ → ℕ) → ℕ → ℕ
with_entry_name k len name block a =
    if leb (16 * k + 2) a && ltb a (16 * k + 16)
    then (if ltb (a - (16 * k + 2)) len then name (a - (16 * k + 2)) else 0)
    else block a

-- `de->inode = nr; bh->b_dirt = 1;`
abbrev pub enter_inode : (k nr : ℕ) → BufferHead → BufferHead
enter_inode k nr b = record b { b_data = with_entry_inode k nr b.b_data; b_dirt = true }

-- Longer names are cut.
abbrev pub cut : ℕ → ℕ
cut namelen = if ltb name_len namelen then name_len else namelen
