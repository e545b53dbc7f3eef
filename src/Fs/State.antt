-- ===== src/Fs/State.antt =====
-- The state that the files of fs/ share, and their commands: functions of the state that end as an
-- `Outcome` says. Pointers into `inode_table` and `super_block` are indices plus one; NULL is 0.
-- Also get_super of fs/super.c, and the calls of the buffer cache and the bitmaps as commands.
use linux.Base.{
  ℕ, zero, suc, ◌+◌, ◌-◌, ◌*◌, ◌/◌, ◌%◌, ◌^◌, Bool, Option, none, some, ◌==◌, ltb, if◌then◌else◌,
  update, Outcome, returns, panics, hangs, exits,
}
use linux.Base.Loops.{find_up}
use linux.Kernel.Task.{Task, Tasks, current_task, modify}
use linux.Kernel.Sys.{current_time}
use linux.Mm.{Mm}
use linux.Fs.Structs.{Inode, SuperBlock}
use linux.Fs.Buffer.{BufferHead, Cache, Driver, with_head}
use linux.Fs.Buffer.Get.{brelse as brelse_cache}
use linux.Fs.Buffer.Read.{bread as bread_cache}
use linux.Fs.Files.{File}
use linux.Fs.Bitmap.{new_block as new_block_cache, free_block as free_block_cache}

pub record FileSystem : Type 0 where
  pub cache : Cache
  pub inode_at : ℕ → Inode
  -- the static variable of `get_empty_inode`
  pub last_inode : ℕ
  pub super_at : ℕ → SuperBlock
  pub root_dev : ℕ
  pub tasks : Tasks
  -- the open files, by their pointers
  pub file : ℕ → File
  pub mm : Mm
  -- the memory of the calling process, a byte at each address
  pub user : ℕ → ℕ

abbrev pub M : Type 0 → Type 0
M A = FileSystem → Outcome (A × FileSystem)

abbrev pub pure : {A : Type 0} → A → M A
pure a s = returns (a, s)

infixl 5 ◌>>=◌ ◌>>◌
abbrev pub ◌>>=◌ : {A B : Type 0} → M A → (A → M B) → M B
◌>>=◌ m f s = elim (m s) [
  | returns p ↦ f p.0 p.1
  | panics ↦ panics
  | exits c ↦ exits c
  | hangs ↦ hangs
]

abbrev pub ◌>>◌ : {B : Type 0} → M (Unit {0}) → M B → M B
m >> k = m >>= λ _. k

abbrev pub panic : {A : Type 0} → M A
panic s = panics

abbrev pub never : {A : Type 0} → M A
never s = hangs

-- `if (b) m;`
abbrev pub when : Bool → M (Unit {0}) → M (Unit {0})
when b m = if b then m else pure tt

abbrev pub gets : {A : Type 0} → (FileSystem → A) → M A
gets f s = returns (f s, s)

abbrev pub puts : (FileSystem → FileSystem) → M (Unit {0})
puts f s = returns (tt, f s)

abbrev pub inode : ℕ → M Inode
inode p = gets (λ s. s.inode_at p)

abbrev pub with_inode : ℕ → (Inode → Inode) → FileSystem → FileSystem
with_inode p f s = record s { inode_at = update s.inode_at p (f (s.inode_at p)) }

abbrev pub set_inode : ℕ → (Inode → Inode) → M (Unit {0})
set_inode p f = puts (with_inode p f)

abbrev pub set_super : ℕ → (SuperBlock → SuperBlock) → M (Unit {0})
set_super p f = puts (λ s. record s { super_at = update s.super_at p (f (s.super_at p)) })

abbrev pub buffer : ℕ → M BufferHead
buffer bh = gets (λ s. s.cache.head bh)

abbrev pub set_buffer : ℕ → (BufferHead → BufferHead) → M (Unit {0})
set_buffer bh f = puts (λ s. record s { cache = with_head bh f s.cache })

-- `*current`
abbrev pub current : M Task
current = gets (λ s. current_task s.tasks)

abbrev pub now : M ℕ
now = gets (λ s. current_time s.tasks)

-- Loads and stores in the memory of the calling process.
abbrev pub get_fs_byte : ℕ → M ℕ
get_fs_byte a = gets (λ s. s.user a)

abbrev pub set_user : ((ℕ → ℕ) → ℕ → ℕ) → M (Unit {0})
set_user f = puts (λ s. record s { user = f s.user })

abbrev pub set_current : (Task → Task) → M (Unit {0})
set_current f = puts (λ s. record s { tasks = modify s.tasks.current f s.tasks })

abbrev pub set_file : ℕ → (File → File) → M (Unit {0})
set_file p f = puts (λ s. record s { file = update s.file p (f (s.file p)) })

-- A call of the buffer cache.
abbrev pub on_cache : {A : Type 0} → (Cache → Outcome (A × Cache)) → M A
on_cache f s = elim (f s.cache) [
  | returns p ↦ returns (p.0, record s { cache = p.1 })
  | panics ↦ panics
  | exits c ↦ exits c
  | hangs ↦ hangs
]

abbrev pub on_cache_only : (Cache → Outcome Cache) → M (Unit {0})
on_cache_only f s = elim (f s.cache) [
  | returns c ↦ returns (tt, record s { cache = c })
  | panics ↦ panics
  | exits c ↦ exits c
  | hangs ↦ hangs
]

-- `for (i = from ; i < from + n ; i++) body(i);`
unfoldable pub each : ℕ → ℕ → (ℕ → M (Unit {0})) → M (Unit {0})
each from zero body = pure tt
each from (suc n) body = body from >> each (suc from) n body

-- A little-endian `unsigned short` at an address.
abbrev pub read16 : (ℕ → ℕ) → ℕ → ℕ
read16 f a = f a + 256 * f (a + 1)

abbrev pub write16 : ℕ → ℕ → (ℕ → ℕ) → ℕ → ℕ
write16 a v f = update (update f a (v % 256)) (a + 1) (v / 256 % 256)

-- `i_count` and its kin are unsigned shorts, `i_nlinks` an unsigned char.
abbrev pub inc16 : ℕ → ℕ
inc16 n = (n + 1) % 2 ^ 16

abbrev pub dec16 : ℕ → ℕ
dec16 n = (n + (2 ^ 16 - 1)) % 2 ^ 16

abbrev pub inc8 : ℕ → ℕ
inc8 n = (n + 1) % 2 ^ 8

abbrev pub dec8 : ℕ → ℕ
dec8 n = (n + (2 ^ 8 - 1)) % 2 ^ 8

-- What the commands ask of the rest of the kernel, and the fuel for each loop. The two functions
-- stand for all that happens while the caller sleeps on a locked inode or super block.
pub record World : Type 0 where
  pub fuel : ℕ
  pub driver : Driver
  pub until_inode_unlocked : ℕ → FileSystem → FileSystem
  pub until_super_unlocked : ℕ → FileSystem → FileSystem

module _ (w : World) where
  unfoldable pub wait_on_super : ℕ → M (Unit {0})
  wait_on_super p s = returns (tt, if (s.super_at p).s_lock then w.until_super_unlocked p s else s)

  -- The loop of `get_super` from the first super block on: a found one that has another device after
  -- the wait sends the search back.
  unfoldable pub get_super_from : ℕ → (dev : ℕ) → M ℕ
  unfolding wait_on_super
  get_super_from zero dev = never
  get_super_from (suc fuel) dev =
      let again = get_super_from fuel dev in
      do
        p ← gets (λ s. find_up 1 8 (λ p. (s.super_at p).s_dev == dev))
        let check = do
          wait_on_super p
          s_dev ← gets (λ s. (s.super_at p).s_dev)
          if s_dev == dev then pure p else again
        if ltb 8 p then pure 0 else check

  unfoldable pub get_super : (dev : ℕ) → M ℕ
  unfolding get_super_from
  get_super dev = if dev == 0 then pure 0 else get_super_from w.fuel dev

  -- `get_super`, with the super block itself for the bitmaps
  unfoldable pub super_of : (dev : ℕ) → M (Option SuperBlock)
  unfolding get_super
  super_of dev = do p ← get_super dev; gets (λ s. if p == 0 then none else some (s.super_at p))

  unfoldable pub bread : (dev block : ℕ) → M ℕ
  unfolding bread_cache
  bread dev block = on_cache (bread_cache w.fuel w.driver dev block)

  unfoldable pub brelse : (bh : ℕ) → M (Unit {0})
  unfolding brelse_cache
  brelse bh = on_cache_only (brelse_cache w.driver bh)

  unfoldable pub new_block : (dev : ℕ) → M ℕ
  unfolding super_of new_block_cache
  new_block dev = do sb ← super_of dev; on_cache (new_block_cache w.fuel w.driver dev sb)

  unfoldable pub free_block : (dev block : ℕ) → M (Unit {0})
  unfolding super_of free_block_cache
  free_block dev block = do
    sb ← super_of dev
    on_cache_only (free_block_cache w.fuel w.driver dev sb block)
