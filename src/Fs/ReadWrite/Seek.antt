-- ===== src/Fs/ReadWrite/Seek.antt =====
-- fs/read_write.c: where `sys_lseek` goes.
use linux.Base.{
  ℕ, zero, suc, ◌^◌, ◌<◌, ◌≤◌, ◌≡◌, ◌≢◌, ◌∙◌, ap, arith, true, false, refl, Option, none, some,
  update, returns,
}
use linux.Base.Int.{ℤ, pos, negsuc, ◌+ℤ◌, pos_part, neg_part, neg}
use linux.Fs.ReadWrite.{
  wrap_add, seek_target, seek_to, sys_lseek, nr_open, einval, is_seekable, major,
}
use linux.Kernel.Task.{current_task}
use linux.Fs.Structs.{Inode}
use linux.Fs.Files.{File}
use linux.Fs.State.{FileSystem}

-- The values of a 32-bit `long`.
abbrev pub IsLong : ℤ → Type 0
IsLong n = (pos_part n < 2 ^ 31) × (neg_part n ≤ 2 ^ 31)

wrap_add-exact :
    (base : ℕ) (offset : ℤ)
    → base < 2 ^ 31
    → IsLong offset
    → IsLong (pos base +ℤ offset)
    → wrap_add base offset ≡ pos base +ℤ offset
unfolding wrap_add ◌+ℤ◌
wrap_add-exact base (pos n) b (p, q) s = ground (arith, s)
wrap_add-exact base (negsuc n) b (p, q) s = ground (arith, s)

-- Where `lseek` shall go, as an integer: from the beginning, from the position or from the end of the
-- file; there is no other origin.
abbrev pub place : (f_pos i_size : ℕ) → (offset : ℤ) → (origin : ℕ) → Option ℤ
place f_pos i_size offset zero = some offset
place f_pos i_size offset (suc zero) = some (pos f_pos +ℤ offset)
place f_pos i_size offset (suc (suc zero)) = some (pos i_size +ℤ offset)
place f_pos i_size offset (suc (suc (suc _))) = none

-- What `lseek` makes of it: the file is there, and this is the result; or there is no such place in a
-- file, the result is an error and nothing has changed.
abbrev pub moved : (filp : ℕ) → Option ℤ → FileSystem → ℤ × FileSystem
moved filp (some (pos n)) s =
    (pos n, record s { file = update s.file filp (record (s.file filp) { f_pos = n }) })
moved filp (some (negsuc n)) s = (neg (pos einval), s)
moved filp none s = (neg (pos einval), s)

abbrev pub file_of : (fd : ℕ) → FileSystem → File
file_of fd s = s.file ((current_task s.tasks).filp fd)

abbrev pub inode_of : (fd : ℕ) → FileSystem → Inode
inode_of fd s = s.inode_at (file_of fd s).f_inode

-- A descriptor of a file that can be positioned, with values that fit a `long`.
pub record CanSeek (fd : ℕ) (offset : ℤ) (s : FileSystem) : Type 0 where
  pub in_table : fd < nr_open
  pub is_open : (current_task s.tasks).filp fd ≢ 0
  pub with_inode : (file_of fd s).f_inode ≢ 0
  pub seekable : is_seekable (major (inode_of fd s).i_dev) ≡ true
  pub no_pipe : (inode_of fd s).i_pipe ≡ false
  pub position : (file_of fd s).f_pos < 2 ^ 31
  pub size : (inode_of fd s).i_size < 2 ^ 31
  pub long_offset : IsLong offset
  pub from_position : IsLong (pos (file_of fd s).f_pos +ℤ offset)
  pub from_end : IsLong (pos (inode_of fd s).i_size +ℤ offset)

seek_target-place :
    (f_pos i_size : ℕ) (offset : ℤ) (origin : ℕ)
    → f_pos < 2 ^ 31
    → i_size < 2 ^ 31
    → IsLong offset
    → IsLong (pos f_pos +ℤ offset)
    → IsLong (pos i_size +ℤ offset)
    → seek_target f_pos i_size offset origin ≡ place f_pos i_size offset origin
unfolding seek_target
seek_target-place f_pos i_size offset zero p q h a b = refl
seek_target-place f_pos i_size offset (suc zero) p q h a b =
    ap some (wrap_add-exact f_pos offset p h a)
seek_target-place f_pos i_size offset (suc (suc zero)) p q h a b =
    ap some (wrap_add-exact i_size offset q h b)
seek_target-place f_pos i_size offset (suc (suc (suc n))) p q h a b = ground arith

seek_to-moved :
    (filp : ℕ) (target : Option ℤ) (s : FileSystem)
    → seek_to filp target s ≡ returns (moved filp target s)
seek_to-moved filp none s = refl
seek_to-moved filp (some (pos n)) s = refl
seek_to-moved filp (some (negsuc n)) s = refl

lseek_seeks :
    (fd origin : ℕ) (offset : ℤ) (s : FileSystem)
    → CanSeek fd offset s
    → sys_lseek fd offset origin s
      ≡ seek_to
          ((current_task s.tasks).filp fd)
          (seek_target (file_of fd s).f_pos (inode_of fd s).i_size offset origin)
          s
unfolding sys_lseek
lseek_seeks fd origin offset s h =
    ground (arith, h.in_table, h.is_open, h.with_inode, h.seekable, h.no_pipe)

-- `lseek` on a file that can be positioned, with values that fit a `long`, moves it to the offset from
-- its beginning, its position or its end, and returns where it is; if this is below 0, or the origin
-- is another one, it returns -EINVAL and changes nothing.
pub sys_lseek-moved :
    (fd origin : ℕ) (offset : ℤ) (s : FileSystem)
    → CanSeek fd offset s
    → sys_lseek fd offset origin s
      ≡ returns (
          moved
            ((current_task s.tasks).filp fd)
            (place (file_of fd s).f_pos (inode_of fd s).i_size offset origin)
            s)
sys_lseek-moved fd origin offset s h =
    lseek_seeks fd origin offset s h
    ∙ ap (λ target. seek_to ((current_task s.tasks).filp fd) target s)
        (seek_target-place (file_of fd s).f_pos (inode_of fd s).i_size offset origin h.position
          h.size h.long_offset h.from_position h.from_end)
    ∙ seek_to-moved ((current_task s.tasks).filp fd)
        (place (file_of fd s).f_pos (inode_of fd s).i_size offset origin) s
