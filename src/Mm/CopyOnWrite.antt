-- ===== src/Mm/CopyOnWrite.antt =====
-- `un_wp_page`: a write to a shared page.
use linux.Base.{
  ℕ, ◌+◌, ◌%◌, ◌≤◌, ◌<◌, ◌≡◌, refl, ap, ◌∙◌, ◌≢◌, ◌⊎◌, inl, inr, arith, returns, exits, Returns,
}
use native.Mathlib.Decide.{dec_lt}
use linux.Mm.{
  Mm, low_mem, map_nr, page_of, copy_shared, un_wp_page, get_free_page, sigsegv, paging_pages,
}
use linux.Mm.Pages.{IsFresh, get_free_page-GetsPage}

abbrev pub page_at : Mm → ℕ → ℕ
page_at m entry = page_of (m.word entry)

-- The entry maps a page of the managed memory that has other users, and the entry itself lies in a
-- page table: neither in a free page nor in the page that it maps.
pub record IsShared (m : Mm) (entry : ℕ) : Type 0 where
  pub managed : low_mem ≤ page_at m entry
  pub users : 1 < m.mem_map (map_nr (page_at m entry))
  pub byte : m.mem_map (map_nr (page_at m entry)) < 256
  pub in_use : (entry < low_mem) ⊎ (m.mem_map (map_nr entry) ≢ 0)
  pub apart : (entry < page_at m entry) ⊎ (page_at m entry + 4096 ≤ entry)

-- The writer has a page of its own with the old content, and the other users keep theirs.
pub record IsSplit (m : Mm) (entry new : ℕ) (m' : Mm) : Type 0 where
  pub mapped : m'.word entry ≡ new + 7
  pub own : m'.mem_map (map_nr new) ≡ 1
  pub dropped : m'.mem_map (map_nr (page_at m entry)) + 1 ≡ m.mem_map (map_nr (page_at m entry))
  pub copied : (a : ℕ) → a < 4096 → m'.word (new + a) ≡ m.word (page_at m entry + a)
  pub old_kept : (a : ℕ) → a < 4096 → m'.word (page_at m entry + a) ≡ m.word (page_at m entry + a)

-- Pages with different counts are different pages.
map_nr-ne :
    (m m' : Mm) (a new : ℕ) → IsFresh m new m' → m.mem_map (map_nr a) ≢ 0 → map_nr a ≢ map_nr new
map_nr-ne m m' a new f ne e = ne (ap m.mem_map e ∙ f.was_free)

below_or_above :
    (a new : ℕ)
    → new % 4096 ≡ 0
    → low_mem ≤ new
    → low_mem ≤ a
    → map_nr a ≢ map_nr new
    → (a < new) ⊎ (new + 4096 ≤ a)
below_or_above a new al l la ne = elim (dec_lt a new) [ yes h ↦ inl h | no h ↦ inr (omega arith) ]

-- The new page is not the page of the entry.
entry_apart :
    (m m' : Mm) (entry new : ℕ)
    → (entry < low_mem) ⊎ (m.mem_map (map_nr entry) ≢ 0)
    → IsFresh m new m'
    → (entry < new) ⊎ (new + 4096 ≤ entry)
entry_apart m m' entry new (inl h) f = inl (omega (arith, f.aligned))
entry_apart m m' entry new (inr h) f = elim (dec_lt entry low_mem) [
  | yes lt ↦ inl (omega (arith, f.aligned))
  | no ge ↦
      below_or_above entry new (omega (arith, f.aligned)) (omega (arith, f.aligned)) (omega arith)
        (map_nr-ne m m' entry new f h)
]

-- Nor is it the shared page.
page_apart :
    (m m' : Mm) (entry new : ℕ)
    → IsShared m entry
    → IsFresh m new m'
    → (page_at m entry + 4096 ≤ new) ⊎ (new + 4096 ≤ page_at m entry)
page_apart m m' entry new s f =
    let ne = map_nr-ne m m' (page_at m entry) new f (omega (arith, s.users)) in
    elim (below_or_above (page_at m entry) new (omega (arith, f.aligned)) (omega (arith, f.aligned))
      s.managed ne) [ inl h ↦ inl (omega (arith, f.aligned)) | inr h ↦ inr h ]

module _ (m m' : Mm) (entry new : ℕ) (s : IsShared m entry) (f : IsFresh m new m') where
  ne : map_nr (page_at m entry) ≢ map_nr new
  ne = map_nr-ne m m' (page_at m entry) new f (omega (arith, s.users))

  result : Mm
  result = copy_shared entry (page_at m entry) new m'

  mapped : result.word entry ≡ new + 7
  unfolding result copy_shared
  mapped = ground (arith, entry_apart m m' entry new s.in_use f, f.aligned)

  own : result.mem_map (map_nr new) ≡ 1
  unfolding result copy_shared
  own = ground (arith, ne, s.managed, f.now_used)

  dropped : result.mem_map (map_nr (page_at m entry)) + 1 ≡ m.mem_map (map_nr (page_at m entry))
  unfolding result copy_shared
  dropped = ground (arith, s.managed, s.users, s.byte, f.others (map_nr (page_at m entry)), ne)

  old_word : (a : ℕ) → a < 4096 → m'.word (page_at m entry + a) ≡ m.word (page_at m entry + a)
  old_word a l = elim (page_apart m m' entry new s f) [
    | inl h ↦ f.kept (page_at m entry + a) (inl (omega arith))
    | inr h ↦ f.kept (page_at m entry + a) (inr (omega arith))
  ]

  copied : (a : ℕ) → a < 4096 → result.word (new + a) ≡ m.word (page_at m entry + a)
  unfolding result copy_shared
  copied a l = ground (arith, old_word a l, s.apart, page_apart m m' entry new s f)

  old_kept : (a : ℕ) → a < 4096 → result.word (page_at m entry + a) ≡ m.word (page_at m entry + a)
  unfolding result copy_shared
  old_kept a l = ground (arith, old_word a l, s.apart, page_apart m m' entry new s f)

  copy_shared-IsSplit : IsSplit m entry new (copy_shared entry (page_at m entry) new m')
  unfolding result
  copy_shared-IsSplit = record {
    mapped = mapped;
    own = own;
    dropped = dropped;
    copied = copied;
    old_kept = old_kept;
  }

un_wp_page-shared :
    (m : Mm) (entry new : ℕ) (m' : Mm)
    → IsShared m entry
    → get_free_page m ≡ (new, m')
    → new ≢ 0
    → un_wp_page entry m ≡ returns (copy_shared entry (page_at m entry) new m')
unfolding un_wp_page
un_wp_page-shared m entry new m' s e nz = ground (arith, s.users, e)

un_wp_page-exits :
    (m : Mm) (entry : ℕ) (m' : Mm)
    → IsShared m entry
    → get_free_page m ≡ (0, m')
    → un_wp_page entry m ≡ exits sigsegv
unfolding un_wp_page
un_wp_page-exits m entry m' s e = ground (arith, s.users, e)

-- A write to a shared page gives the writer a page of its own with the old content, mapped writable
-- and used once; the old page keeps its content and loses one user. Only if no page is free does
-- the writer exit instead, by SIGSEGV.
pub un_wp_page-IsSplit :
    (m : Mm) (entry : ℕ)
    → IsShared m entry
    → ((un_wp_page entry m ≡ exits sigsegv) × ((i : ℕ) → i < paging_pages → m.mem_map i ≢ 0))
      ⊎ Returns (IsSplit m entry (get_free_page m).0) (un_wp_page entry m)
un_wp_page-IsSplit m entry s = elim (get_free_page-GetsPage m) [
  | inl n ↦
      inl (
        un_wp_page-exits m entry (get_free_page m).1 s (ap (λ p. (p, (get_free_page m).1)) n.0),
        n.2,
      )
  | inr f ↦ inr (
      rw (un_wp_page-shared m entry (get_free_page m).0 (get_free_page m).1 s refl f.0)
        (copy_shared-IsSplit m (get_free_page m).1 entry (get_free_page m).0 s f.1))
]
