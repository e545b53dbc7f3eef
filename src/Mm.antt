-- ===== src/Mm.antt =====
-- mm/memory.c: physical pages with reference counts, page tables, copy on write.
-- `word` is the physical memory, a 32-bit word at each address that is divisible by 4; the page
-- directory stands at address 0. `invalidate()` flushes the TLB and changes nothing here.
pub mod Pages
pub mod CopyOnWrite
pub mod Fork
mod Tests
use linux.Base.{
  ℕ, zero, suc, ◌+◌, ◌-◌, ◌*◌, ◌/◌, ◌%◌, ◌^◌, Bool, true, false, Option, none, some, ltb, leb, ◌==◌,
  not, ◌&&◌, ◌||◌, if◌then◌else◌, update, Outcome, returns, panics, exits, ◌>>=◌,
}
use linux.Base.Int.{ℤ, pos, negsuc}
use linux.Base.Loops.{for_up, each_up, find_down}

pub record Mm : Type 0 where
  pub mem_map : ℕ → ℕ
  pub high_memory : ℕ
  pub word : ℕ → ℕ

-- 1M
abbrev pub low_mem : ℕ
low_mem = 0x100000

-- 15M of 4K pages
abbrev pub paging_pages : ℕ
paging_pages = 3840

abbrev pub map_nr : ℕ → ℕ
map_nr addr = (addr - low_mem) / 4096

abbrev pub used : ℕ
used = 100

abbrev pub sigsegv : ℕ
sigsegv = 11

-- Words are 32 bits wide: `0xfffff000 & x`
abbrev pub page_of : ℕ → ℕ
page_of x = x / 4096 * 4096

-- `x | 7`
abbrev pub or_seven : ℕ → ℕ
or_seven x = x / 8 * 8 + 7

-- `x | 2`
abbrev pub set_write : ℕ → ℕ
set_write x = x / 4 * 4 + 2 + x % 2

-- `x & ~2`
abbrev pub clear_write : ℕ → ℕ
clear_write x = x / 4 * 4 + x % 2

-- `1 & x`
abbrev pub is_present : ℕ → Bool
is_present x = x % 2 == 1

-- `(address>>20) & 0xffc`: the directory entry of a linear address.
abbrev pub dir_entry : ℕ → ℕ
dir_entry address = address / 2 ^ 22 % 1024 * 4

-- `(address>>10) & 0xffc`: the offset of its entry in the page table.
abbrev pub table_offset : ℕ → ℕ
table_offset address = address / 2 ^ 12 % 1024 * 4

abbrev pub set_word : ℕ → ℕ → Mm → Mm
set_word a v m = record m { word = update m.word a v }

abbrev pub set_count : ℕ → ℕ → Mm → Mm
set_count i v m = record m { mem_map = update m.mem_map i v }

-- Whether a word lies in the page that begins at `page`.
abbrev pub is_in_page : ℕ → ℕ → Bool
is_in_page page a = leb page a && ltb a (page + 4096)

-- `rep ; stosl` over 1024 words
abbrev pub clear_page : ℕ → (ℕ → ℕ) → ℕ → ℕ
clear_page page word a = if is_in_page page a then 0 else word a

-- `copy_page`
abbrev pub copy_page : ℕ → ℕ → (ℕ → ℕ) → ℕ → ℕ
copy_page from to word a = if is_in_page to a then word (from + (a - to)) else word a

-- The page at index `i` of `mem_map` is marked used and cleared.
unfoldable pub take_page : Option ℕ → Mm → ℕ × Mm
take_page none m = (0, m)
take_page (some i) m = (
  low_mem + 4096 * i,
  record m { mem_map = update m.mem_map i 1; word = clear_page (low_mem + 4096 * i) m.word },
)

-- `mem_map` is searched from its end; the page is 0 if there is none.
unfoldable pub get_free_page : Mm → ℕ × Mm
unfolding take_page
get_free_page m = take_page (find_down paging_pages (λ i. m.mem_map i == 0)) m

unfoldable pub free_page : ℕ → Mm → Outcome Mm
free_page addr m =
    if ltb addr low_mem
    then returns m
    else if leb m.high_memory addr
    then panics
    else (let i = map_nr addr in
        if m.mem_map i == 0 then panics else returns (set_count i (m.mem_map i - 1) m))

-- One page-table entry of `free_page_tables`; its address is `entry`.
unfoldable pub free_entry : ℕ → Mm → Outcome Mm
unfolding free_page
free_entry entry m =
    let e = m.word entry in
    (if is_present e then free_page (page_of e) m else returns m) >>= λ m'.
    returns (set_word entry 0 m')

-- One directory entry, at `dir`.
unfoldable pub free_table : ℕ → Mm → Outcome Mm
unfolding free_entry
free_table dir m =
    if not (is_present (m.word dir))
    then returns m
    else (each_up 0 1024 (λ nr. free_entry (page_of (m.word dir) + 4 * nr)) m >>= λ m'.
        free_page (page_of (m'.word dir)) m' >>= λ m''. returns (set_word dir 0 m''))

-- The number of directory entries that `size` bytes take: 32-bit arithmetic.
abbrev pub dir_count : ℕ → ℕ
dir_count size = (size + 0x3fffff) % 2 ^ 32 / 2 ^ 22

unfoldable pub free_page_tables : ℕ → ℕ → Mm → Outcome (ℤ × Mm)
unfolding free_table
free_page_tables from size m =
    if not (from % 2 ^ 22 == 0)
    then panics
    else if from == 0
    then panics
    else (each_up 0 (dir_count size) (λ n. free_table (dir_entry from + 4 * n)) m >>= λ m'.
        returns (pos 0, m'))

-- One entry of `copy_page_tables`: `from` and `to` are the addresses of the two entries. Pages below
-- 1M are shared and not counted. `mem_map` has one byte for a page.
unfoldable pub copy_entry : ℕ → ℕ → Mm → Mm
copy_entry from to m =
    let this_page = m.word from in
    if not (is_present this_page)
    then m
    else (let this_page' = clear_write this_page in
        let m' = set_word to this_page' m in
        if ltb low_mem this_page'
        then (let i = map_nr this_page' in
            set_count i ((m'.mem_map i + 1) % 256) (set_word from this_page' m'))
        else m')

unfoldable pub copy_table : ℕ → ℕ → ℕ → Mm → Mm
unfolding copy_entry
copy_table nr from to = for_up 0 nr (λ k. copy_entry (from + 4 * k) (to + 4 * k))

-- The loop over directory entries; `nr` is the number of entries to copy in each table.
unfoldable pub copy_dirs : ℕ → ℕ → ℕ → ℕ → Mm → Outcome (ℤ × Mm)
unfolding copy_table get_free_page
copy_dirs zero nr from_dir to_dir m = returns (pos 0, m)
copy_dirs (suc size) nr from_dir to_dir m =
    let rest = copy_dirs size nr (from_dir + 4) (to_dir + 4) in
    if is_present (m.word to_dir)
    then panics
    else if not (is_present (m.word from_dir))
    then rest m
    else (let (to_page_table, m') = get_free_page m in
        if to_page_table == 0
        then returns (negsuc 0, m')
        else rest (
            copy_table nr (page_of (m.word from_dir)) to_page_table
              (set_word to_dir (or_seven to_page_table) m')))

unfoldable pub copy_page_tables : ℕ → ℕ → ℕ → Mm → Outcome (ℤ × Mm)
unfolding copy_dirs
copy_page_tables from to size m =
    if not (from % 2 ^ 22 == 0) || not (to % 2 ^ 22 == 0)
    then panics
    else copy_dirs (dir_count size) (if from == 0 then 0xa0 else 1024) (dir_entry from)
        (dir_entry to) m

-- The two `printk` warnings are left out.
unfoldable pub put_page : ℕ → ℕ → Mm → ℕ × Mm
unfolding get_free_page
put_page page address m =
    let dir = dir_entry address in
    if is_present (m.word dir)
    then (page, set_word (page_of (m.word dir) + table_offset address) (or_seven page) m)
    else (let (tmp, m') = get_free_page m in
        if tmp == 0 then (0, m') else (
          page,
          set_word (tmp + table_offset address) (or_seven page) (set_word dir (or_seven tmp) m'),
        ))

-- The end of `un_wp_page`: the entry is pointed at the new page, and the old page is copied into it.
unfoldable pub copy_shared : ℕ → ℕ → ℕ → Mm → Mm
copy_shared table_entry old_page new_page m =
    let i = map_nr old_page in
    let dropped = if leb low_mem old_page then set_count i ((m.mem_map i + 255) % 256) m else m in
    let mapped = set_word table_entry (or_seven new_page) dropped in
    record mapped { word = copy_page old_page new_page mapped.word }

-- `table_entry` is the address of the entry. Out of memory the task exits.
unfoldable pub un_wp_page : ℕ → Mm → Outcome Mm
unfolding get_free_page copy_shared
un_wp_page table_entry m =
    let old_page = page_of (m.word table_entry) in
    if leb low_mem old_page && m.mem_map (map_nr old_page) == 1
    then returns (set_word table_entry (set_write (m.word table_entry)) m)
    else (let (new_page, m') = get_free_page m in
        if new_page == 0
        then exits sigsegv
        else returns (copy_shared table_entry old_page new_page m'))

unfoldable pub do_wp_page : ℕ → Mm → Outcome Mm
unfolding un_wp_page
do_wp_page address m = un_wp_page (table_offset address + page_of (m.word (dir_entry address))) m

unfoldable pub write_verify : ℕ → Mm → Outcome Mm
unfolding un_wp_page
write_verify address m =
    let dir = m.word (dir_entry address) in
    let entry = page_of dir + table_offset address in
    if not (is_present dir)
    then returns m
    else if m.word entry % 4 == 1
    then un_wp_page entry m
    else returns m

unfoldable pub get_empty_page : ℕ → Mm → Outcome Mm
unfolding get_free_page put_page free_page
get_empty_page address m =
    let (tmp, m') = get_free_page m in
    if tmp == 0
    then (free_page tmp m' >>= λ _. exits sigsegv)
    else (let (page, m'') = put_page tmp address m' in
        if page == 0 then (free_page tmp m'' >>= λ _. exits sigsegv) else returns m'')

-- `mem_map[i++] = 0`, `n` times.
unfoldable pub free_from : ℕ → ℕ → (ℕ → ℕ) → ℕ → ℕ
free_from i n = for_up i n (λ j map. update map j 0)

unfoldable pub mem_init : ℕ → ℕ → Mm → Mm
unfolding free_from
mem_init start_mem end_mem m =
    let all_used = for_up 0 paging_pages (λ i map. update map i used) m.mem_map in
    record m {
      high_memory = end_mem;
      mem_map = free_from (map_nr start_mem) ((end_mem - start_mem) / 4096) all_used;
    }
