-- ===== src/Kernel/Malloc.antt =====
-- lib/malloc.c: the kernel's memory in buckets of one size each. The descriptors are given by their
-- addresses; the chain of free objects goes through the words of the page itself.
pub mod Chain
use linux.Base.{
  ℕ, zero, suc, ◌+◌, ◌-◌, ◌*◌, ◌/◌, ◌%◌, ◌^◌, ◌==◌, ltb, leb, not, ◌&&◌, ◌||◌, if◌then◌else◌, Bool,
  true, false, update, Outcome, returns, panics, hangs, ◌>>=◌,
}
use linux.Base.Loops.{find_up, for_up}
use linux.Mm.{Mm, get_free_page, free_page, page_of, set_word}

pub record BucketDesc : Type 0 where
  pub page : ℕ
  pub next : ℕ
  pub freeptr : ℕ
  pub refcnt : ℕ
  pub bucket_size : ℕ

-- `chain` is that of `bucket_dir`, by the index of the bucket.
pub record Heap : Type 0 where
  pub mm : Mm
  pub desc : ℕ → BucketDesc
  pub chain : ℕ → ℕ
  pub free_bucket_desc : ℕ

abbrev pub nr_buckets : ℕ
nr_buckets = 9

-- The sizes in `bucket_dir`.
abbrev pub size_of : ℕ → ℕ
size_of i = 16 * 2 ^ i

abbrev pub with_desc : ℕ → (BucketDesc → BucketDesc) → Heap → Heap
with_desc d f h = record h { desc = update h.desc d (f (h.desc d)) }

abbrev pub set_chain : (i d : ℕ) → Heap → Heap
set_chain i d h = record h { chain = update h.chain i d }

-- A page of 256 descriptors of 16 bytes, linked in turn.
unfoldable pub init_bucket_desc : Heap → Outcome Heap
unfolding get_free_page for_up
init_bucket_desc h =
    let (first, m) = get_free_page h.mm in
    let linked =
      for_up 0 255 (λ i. with_desc (first + 16 * i) (λ d. record d { next = first + 16 * (i + 1) }))
        (record h { mm = m }) in
    let last = with_desc (first + 16 * 255) (λ d. record d { next = h.free_bucket_desc }) linked in
    if first == 0 then panics else returns (record last { free_bucket_desc = first })

-- The loop that chains the objects in a new page, the last of which is marked by 0.
unfoldable pub chain_page : (page size : ℕ) → Mm → Mm
unfolding for_up
chain_page page size m =
    let count = 4096 / size in
    let linked = for_up 0 (count - 1) (λ i. set_word (page + i * size) (page + (i + 1) * size)) m in
    set_word (page + (count - 1) * size) 0 linked

-- The first descriptor of a chain that the test passes; 0 if none does. On fuel, of which the number
-- of descriptors is enough.
unfoldable pub find_desc : ℕ → (BucketDesc → Bool) → Heap → ℕ → Outcome ℕ
find_desc zero test h d = hangs
find_desc (suc fuel) test h d =
    let rest = find_desc fuel test h (h.desc d).next in
    if d == 0 then returns 0 else if test (h.desc d) then returns d else rest

-- A descriptor with a new page, for the bucket `i`.
unfoldable pub new_bucket : (i : ℕ) → Heap → Outcome (ℕ × Heap)
unfolding init_bucket_desc get_free_page chain_page
new_bucket i h = (if h.free_bucket_desc == 0 then init_bucket_desc h else returns h) >>= λ h₁.
    let d = h₁.free_bucket_desc in
    let (page, m) = get_free_page h₁.mm in
    let taken = record h₁ {
      free_bucket_desc = (h₁.desc d).next;
      mm = chain_page page (size_of i) m;
    } in
    let filled =
      with_desc d
        (λ b. record b {
          page = page;
          next = h₁.chain i;
          freeptr = page;
          refcnt = 0;
          bucket_size = size_of i;
        })
        taken in
    if page == 0 then panics else returns (d, set_chain i d filled)

-- The first free object of a descriptor.
unfoldable pub take_object : (d : ℕ) → Heap → ℕ × Heap
take_object d h =
    let object = (h.desc d).freeptr in
    let taken = λ (b : BucketDesc). record b {
      freeptr = h.mm.word object;
      refcnt = (b.refcnt + 1) % 2 ^ 16;
    } in
    (object, with_desc d taken h)

abbrev pub bucket_for : (len : ℕ) → ℕ
bucket_for len = find_up 0 nr_buckets (λ i. leb len (size_of i))

unfoldable pub malloc : ℕ → (len : ℕ) → Heap → Outcome (ℕ × Heap)
unfolding find_desc new_bucket take_object
malloc fuel len h =
    let i = bucket_for len in
    if leb nr_buckets i
    then panics
    else (find_desc fuel (λ b. not (b.freeptr == 0)) h (h.chain i) >>= λ found.
        (if found == 0 then new_bucket i h else returns (found, h)) >>= λ (d, h₁).
        returns (take_object d h₁))

-- The descriptor before `d` in a chain; 0 if `d` is its first one.
unfoldable pub before : ℕ → (d : ℕ) → Heap → ℕ → Outcome ℕ
before zero d h p = hangs
before (suc fuel) d h p =
    let next = (h.desc p).next in
    let rest = before fuel d h next in
    if p == 0 || p == d then returns 0 else if next == d then returns p else rest

-- The search of `free_s` through the buckets from `i` on, `n` of them: the bucket and the
-- descriptor of the page. Buckets smaller than `size` are passed over.
unfoldable pub find_page : ℕ → (size page i n : ℕ) → Heap → Outcome (ℕ × ℕ)
unfolding find_desc
find_page fuel size page i zero h = panics
find_page fuel size page i (suc n) h =
    let rest = find_page fuel size page (i + 1) n h in
    if ltb (size_of i) size
    then rest
    else (find_desc fuel (λ b. b.page == page) h (h.chain i) >>= λ d. elim d [
      | zero ↦ rest
      | suc d' ↦ returns (i, suc d')
    ])

-- The object becomes the first free one.
unfoldable pub give_object : (obj d : ℕ) → Heap → Heap
give_object obj d h =
    let linked = record h { mm = set_word obj (h.desc d).freeptr h.mm } in
    with_desc d (λ b. record b { freeptr = obj; refcnt = (b.refcnt + (2 ^ 16 - 1)) % 2 ^ 16 })
      linked

-- A descriptor without users leaves the bucket `i`, and its page is freed.
unfoldable pub drop_desc : ℕ → (i d : ℕ) → Heap → Outcome Heap
unfolding before free_page
drop_desc fuel i d h = before fuel d h (h.chain i) >>= λ prev.
    let next = (h.desc d).next in
    let unlinked =
      if prev == 0 then set_chain i next h else with_desc prev (λ b. record b { next = next }) h in
    if prev == 0 && not (h.chain i == d)
    then panics
    else (free_page (h.desc d).page unlinked.mm >>= λ m.
        let freed = with_desc d (λ b. record b { next = h.free_bucket_desc }) unlinked in
        returns (record freed { mm = m; free_bucket_desc = d }))

-- `prev` of the search is looked up again where it is needed: nothing runs in between.
unfoldable pub free_s : ℕ → (obj size : ℕ) → Heap → Outcome Heap
unfolding find_page give_object drop_desc
free_s fuel obj size h = find_page fuel size (page_of obj) 0 nr_buckets h >>= λ (i, d).
    let h₁ = give_object obj d h in
    if (h₁.desc d).refcnt == 0 then drop_desc fuel i d h₁ else returns h₁
