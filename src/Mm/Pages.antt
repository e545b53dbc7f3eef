-- ===== src/Mm/Pages.antt =====
-- `get_free_page`, `free_page` and `mem_init`: the reference counts.
use linux.Base.{
  ℕ, ◌+◌, ◌-◌, ◌*◌, ◌/◌, ◌%◌, ◌≤◌, ◌<◌, ◌≡◌, refl, ◌≢◌, ◌⊎◌, inl, inr, Option, none, some, ltb, leb,
  ◌&&◌, if◌then◌else◌, arith, ◌==◌, returns, panics, Returns,
}
use linux.Base.Loops.{find_down, find_down_passes, find_down-none, for_up-update}
use linux.Mm.{
  Mm, take_page, low_mem, paging_pages, map_nr, set_count, used, get_free_page, free_page,
  free_from, mem_init,
}

-- The page `p` was free in `m`; in `m'` it is used once and cleared, and nothing else is changed.
pub record IsFresh (m : Mm) (p : ℕ) (m' : Mm) : Type 0 where
  pub aligned : p ≡ low_mem + 4096 * map_nr p
  pub in_map : map_nr p < paging_pages
  pub was_free : m.mem_map (map_nr p) ≡ 0
  pub now_used : m'.mem_map (map_nr p) ≡ 1
  pub others : (i : ℕ) → i ≢ map_nr p → m'.mem_map i ≡ m.mem_map i
  pub cleared : (a : ℕ) → p ≤ a → a < p + 4096 → m'.word a ≡ 0
  pub kept : (a : ℕ) → (a < p) ⊎ (p + 4096 ≤ a) → m'.word a ≡ m.word a
  pub same_limit : m'.high_memory ≡ m.high_memory

-- What `get_free_page` does: it finds a free page, or none is free.
abbrev pub GetsPage : Mm → ℕ → Mm → Type 0
GetsPage m p m' =
    ((p ≡ 0) × (m' ≡ m) × ((i : ℕ) → i < paging_pages → m.mem_map i ≢ 0))
    ⊎ ((p ≢ 0) × IsFresh m p m')

map_nr-page : (i : ℕ) → map_nr (low_mem + 4096 * i) ≡ i
map_nr-page i = omega arith

take_page-IsFresh :
    (m : Mm) (i : ℕ)
    → i < paging_pages
    → m.mem_map i ≡ 0
    → let (p, m') = take_page (some i) m in IsFresh m p m'
unfolding take_page
take_page-IsFresh m i l e = record {
  aligned = omega arith;
  in_map = omega arith;
  was_free = rw (map_nr-page i) e;
  now_used = rw (map_nr-page i) (ground arith);
  others = λ j ne. ground (arith, map_nr-page i);
  cleared = λ a lo hi. ground arith;
  kept = λ a out. ground arith;
  same_limit = refl;
}

take_page-GetsPage :
    (m : Mm) (found : Option ℕ)
    → find_down paging_pages (λ i. m.mem_map i == 0) ≡ found
    → let (p, m') = take_page found m in GetsPage m p m'
unfolding take_page
take_page-GetsPage m none e =
    inl (
      refl,
      refl,
      λ i l h. ground (arith, find_down-none paging_pages i (λ j. m.mem_map j == 0) e l),
    )
take_page-GetsPage m (some i) e =
    let f = find_down_passes paging_pages i (λ j. m.mem_map j == 0) e in
    inr (omega arith, take_page-IsFresh m i f.0 (ground (arith, f.1)))

-- `get_free_page` returns a page that was free and is now used once and cleared, and it changes
-- nothing else; or it returns 0 and changes nothing, and then no page was free.
pub get_free_page-GetsPage : (m : Mm) → let (p, m') = get_free_page m in GetsPage m p m'
unfolding get_free_page
get_free_page-GetsPage m =
    take_page-GetsPage m (find_down paging_pages (λ i. m.mem_map i == 0)) refl

free_page-eq :
    (addr : ℕ) (m : Mm)
    → low_mem ≤ addr
    → addr < m.high_memory
    → m.mem_map (map_nr addr) ≢ 0
    → free_page addr m ≡ returns (set_count (map_nr addr) (m.mem_map (map_nr addr) - 1) m)
unfolding free_page
free_page-eq addr m l h n = ground arith

free_page-IsFresh :
    (m m' : Mm) (p : ℕ)
    → IsFresh m p m'
    → p < m.high_memory
    → Returns (λ m''. (i : ℕ) → m''.mem_map i ≡ m.mem_map i) (free_page p m')
free_page-IsFresh m m' p f h =
    rw
      (free_page-eq p m' (omega (arith, f.aligned)) (omega (arith, f.same_limit))
        (omega (arith, f.now_used)))
      (λ i. ground (arith, f.others i, f.now_used, f.was_free))

-- A page that `get_free_page` has returned, below the end of memory, can be freed without a panic,
-- which gives all counts back.
free_page-get_free_page :
    (m : Mm)
    → (get_free_page m).0 ≢ 0
    → (get_free_page m).0 < m.high_memory
    → let (p, m') = get_free_page m in
      Returns (λ m''. (i : ℕ) → m''.mem_map i ≡ m.mem_map i) (free_page p m')
free_page-get_free_page m nz h = elim (get_free_page-GetsPage m) [
  | inl n ↦ absurd (nz n.0)
  | inr f ↦ free_page-IsFresh m (get_free_page m).1 (get_free_page m).0 f.1 h
]

-- The branches of `free_page`: below 1M nothing happens; above the memory, and at a page that is
-- free already, the kernel panics; else one reference is dropped.
pub free_page_lem :
    (addr : ℕ) (m : Mm)
    → (addr < low_mem → free_page addr m ≡ returns m)
      × (low_mem ≤ addr → m.high_memory ≤ addr → free_page addr m ≡ panics)
      × (low_mem ≤ addr → m.mem_map (map_nr addr) ≡ 0 → free_page addr m ≡ panics)
      × (low_mem ≤ addr
          → addr < m.high_memory
          → m.mem_map (map_nr addr) ≢ 0
          → Returns
              (λ m'. m'.mem_map (map_nr addr) + 1 ≡ m.mem_map (map_nr addr))
              (free_page addr m))
unfolding free_page
free_page_lem addr m =
    (λ h. ground arith, λ l h. ground arith, λ l h. ground arith, λ l h n. ground arith)

free_from_lem :
    (i n j : ℕ) (map : ℕ → ℕ)
    → free_from i n map j ≡ (if leb i j && ltb j (i + n) then 0 else map j)
unfolding free_from
free_from_lem i n j map = for_up-update i n 0 map j

-- After `mem_init` exactly the whole pages from `start_mem` to `end_mem` are free.
pub mem_init-free :
    (start_mem end_mem : ℕ) (m : Mm) (i : ℕ)
    → i < paging_pages
    → let first = map_nr start_mem in
      let count = (end_mem - start_mem) / 4096 in
      (mem_init start_mem end_mem m).mem_map i
      ≡ (if leb first i && ltb i (first + count) then 0 else used)
unfolding mem_init
mem_init-free start_mem end_mem m i l =
    rw
      (
        free_from_lem (map_nr start_mem) ((end_mem - start_mem) / 4096) i,
        for_up-update 0 paging_pages used m.mem_map i,
      )
      (ground arith)

high_memory-mem_init :
    (start_mem end_mem : ℕ) (m : Mm) → (mem_init start_mem end_mem m).high_memory ≡ end_mem
unfolding mem_init
high_memory-mem_init start_mem end_mem m = refl

-- After `mem_init` with a page-aligned start above 1M, the first page that is handed out, if one is,
-- lies between the start and the end of main memory, and `high_memory` is that end.
get_free_page-mem_init :
    (start_mem end_mem : ℕ) (m : Mm)
    → low_mem ≤ start_mem
    → start_mem % 4096 ≡ 0
    → (get_free_page (mem_init start_mem end_mem m)).0 ≢ 0
    → let m' = mem_init start_mem end_mem m in
      let p = (get_free_page m').0 in
      (start_mem ≤ p) × (p + 4096 ≤ end_mem) × (m'.high_memory ≡ end_mem)
get_free_page-mem_init start_mem end_mem m l al nz =
    elim (get_free_page-GetsPage (mem_init start_mem end_mem m)) [
      | inl n ↦ absurd (nz n.0)
      | inr f ↦
          let fresh = f.1 in
          let i = map_nr (get_free_page (mem_init start_mem end_mem m)).0 in
          let range : (map_nr start_mem ≤ i)
              × (i < map_nr start_mem + (end_mem - start_mem) / 4096) =
            ground (arith, fresh.was_free, mem_init-free start_mem end_mem m i fresh.in_map) in
          (
            omega (arith, fresh.aligned, range),
            omega (arith, fresh.aligned, range),
            high_memory-mem_init start_mem end_mem m,
          )
    ]
