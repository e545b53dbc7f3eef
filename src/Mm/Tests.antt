-- ===== src/Mm/Tests.antt =====
-- mm/memory.c at a small memory: page 5 has two users, and page 7 is free.
use linux.Base.{ℕ, ◌<◌, ◌≡◌, refl, ◌≢◌, ◌⊎◌, inl, inr, arith, ◌==◌, if◌then◌else◌, exits, Returns}
use linux.Base.Loops.{find_down}
use linux.Mm.{Mm, paging_pages, get_free_page, mem_init, un_wp_page, copy_table, sigsegv}
use linux.Mm.Pages.{GetsPage, get_free_page-GetsPage, mem_init-free}
use linux.Mm.CopyOnWrite.{IsShared, IsSplit, un_wp_page-IsSplit}
use linux.Mm.Fork.{IsForked, copy_table-IsForked}

-- The entry at 0x2000 maps page 5, present and not writable.
abbrev small : Mm
small = record {
  mem_map = λ i. if i == 5 then 2 else if i == 7 then 0 else 1;
  high_memory = 0x1000000;
  word = λ a. if a == 0x2000 then 0x105005 else a;
}

first_free : (get_free_page small).0 ≡ 0x107000
unfolding get_free_page find_down
first_free = refl

small-IsShared : IsShared small 0x2000
small-IsShared = record {
  managed = omega arith;
  users = omega arith;
  byte = omega arith;
  in_use = inl (omega arith);
  apart = inl (omega arith);
}

get_free_page-GetsPage_example : let (p, m') = get_free_page small in GetsPage small p m'
get_free_page-GetsPage_example = get_free_page-GetsPage small

-- 2M of main memory, of which the last page is handed out first.
abbrev booted : Mm
booted = mem_init 0x400000 0x600000 small

booted-is_free : booted.mem_map 1279 ≡ 0
booted-is_free = mem_init-free 0x400000 0x600000 small 1279 (omega arith)

booted-has_page : (get_free_page booted).0 ≢ 0
booted-has_page e = elim (get_free_page-GetsPage booted) [
  | inl n ↦ n.2 1279 (omega arith) booted-is_free
  | inr f ↦ f.0 e
]

un_wp_page-IsSplit_example :
    ((un_wp_page 0x2000 small ≡ exits sigsegv) × ((i : ℕ) → i < paging_pages → small.mem_map i ≢ 0))
    ⊎ Returns (IsSplit small 0x2000 (get_free_page small).0) (un_wp_page 0x2000 small)
un_wp_page-IsSplit_example = un_wp_page-IsSplit small 0x2000 small-IsShared

copy_table-IsForked_example :
    IsForked 0x2000 0x3000 1024 small (copy_table 1024 0x2000 0x3000 small)
copy_table-IsForked_example = copy_table-IsForked 1024 0x2000 0x3000 small (inl (omega arith))
