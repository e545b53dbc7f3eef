-- ===== src/Kernel/Malloc/Chain.antt =====
-- lib/malloc.c: the objects of a new page, what is taken from them and given back.
use linux.Base.{
  ℕ, zero, suc, ◌+◌, ◌*◌, ◌-◌, ◌/◌, ◌^◌, ◌<◌, ◌≤◌, ◌≡◌, ◌≢◌, refl, sym, ◌∙◌, ap, arith, leb, leb→le,
}
use native.Mathlib.Nat.{mul-div_cancel, div-lt_iff_lt-mul}
use native.Mathlib.Decide.{ℕ_discrete}
use linux.Base.Loops.{for_up, find_up_least, find_up_passes}
use linux.Mm.{Mm, set_word}
use linux.Kernel.Malloc.{
  Heap, nr_buckets, size_of, bucket_for, chain_page, take_object, give_object,
}

-- A request gets the smallest bucket that it fits in; none is too large for 4096 bytes.
pub bucket_for_lem :
    (len : ℕ)
    → bucket_for len < nr_buckets
    → (len ≤ size_of (bucket_for len)) × ((i : ℕ) → i < bucket_for len → size_of i < len)
bucket_for_lem len h =
    let big_enough = λ (i : ℕ). leb len (size_of i) in
    let passes = find_up_passes 0 nr_buckets big_enough h in
    (
      leb→le len (size_of (bucket_for len)) passes,
      λ i l.
          let fails = find_up_least 0 nr_buckets i big_enough (omega arith) l in
          ground (arith, fails),
    )

-- An object that has been taken from a descriptor and is given back leaves the memory, the chain of
-- free objects and the count of users as they were.
give_object-take_object :
    (d : ℕ) (h : Heap)
    → (h.desc d).refcnt < 2 ^ 16 - 1
    → let (object, h₁) = take_object d h in
      let h₂ = give_object object d h₁ in
      ((h₂.desc d).freeptr ≡ (h.desc d).freeptr)
      × ((h₂.desc d).refcnt ≡ (h.desc d).refcnt)
      × ((a : ℕ) → h₂.mm.word a ≡ h.mm.word a)
unfolding take_object give_object
give_object-take_object d h l = (ground arith, ground arith, λ a. ground arith)

-- The words that the loop of a new page has stored.
module _ (page size : ℕ) (is_size : 1 ≤ size) where
  abbrev link : ℕ → Mm → Mm
  link i = set_word (page + i * size) (page + (i + 1) * size)

  apart : (i j : ℕ) → i ≢ j → page + i * size ≢ page + j * size
  apart i j ne e =
      let same : i * size ≡ j * size = omega (arith, e) in
      ne (sym (mul-div_cancel i is_size) ∙ ap (λ x. x / size) same ∙ mul-div_cancel j is_size)

  links_before :
      (from n j : ℕ) (m : Mm)
      → j < from
      → (for_up from n link m).word (page + j * size) ≡ m.word (page + j * size)
  unfolding for_up
  links_before from zero j m l = refl
  links_before from (suc n) j m l =
      let ne = apart j from (omega arith) in
      links_before (suc from) n j (link from m) (omega arith) ∙ ground (arith, ne)

  links :
      (from n j : ℕ) (m : Mm)
      → from ≤ j
      → j < from + n
      → (for_up from n link m).word (page + j * size) ≡ page + (j + 1) * size
  unfolding for_up
  links from zero j m a b = absurd (omega arith)
  links from (suc n) j m a b = elim (ℕ_discrete from j) [
    | yes e ↦ rw (sym e) (links_before (suc from) n from (link from m) (omega arith) ∙ ground arith)
    | no ne ↦ links (suc from) n j (link from m) (omega arith) (omega arith)
  ]

  chain_page-link :
      (j : ℕ) (m : Mm)
      → j + 1 < 4096 / size
      → (chain_page page size m).word (page + j * size) ≡ page + (j + 1) * size
  unfolding chain_page
  chain_page-link j m l =
      let count = 4096 / size in
      let ne = apart j (count - 1) (omega arith) in
      let other = links 0 (count - 1) j m (omega arith) (omega arith) in ground (arith, ne, other)

  chain_page-last : (m : Mm) → (chain_page page size m).word (page + (4096 / size - 1) * size) ≡ 0
  unfolding chain_page
  chain_page-last m = ground arith

  count-pos : size ≤ 4096 → 1 ≤ 4096 / size
  count-pos l = elim (ℕ_discrete (4096 / size) 0) [
    | yes none ↦ absurd (
        omega (
          arith,
          (div-lt_iff_lt-mul {k = size} {x = 4096} {y = 1} is_size).0 (omega (arith, none)),
          l,
        ))
    | no more ↦ omega arith
  ]

-- `n` steps along the chain from an address.
abbrev pub walk : (word : ℕ → ℕ) → (a n : ℕ) → ℕ
walk word a zero = a
walk word a (suc n) = word (walk word a n)

walk-links :
    (page size count n : ℕ) (word : ℕ → ℕ)
    → ((j : ℕ) → j + 1 < count → word (page + j * size) ≡ page + (j + 1) * size)
    → n < count
    → walk word page n ≡ page + n * size
walk-links page size count zero word linked l = omega arith
walk-links page size count (suc n) word linked l =
    let e : n + 1 ≡ suc n = omega arith in
    ap word (walk-links page size count n word linked (omega arith))
    ∙ linked n (omega arith)
    ∙ ap (λ k. page + k * size) e

-- The chain of a new page leads from its beginning through all the objects of the size that it has
-- room for, in turn, and ends with the last of them.
pub chain_page-walk :
    (page size : ℕ) (m : Mm)
    → 1 ≤ size
    → size ≤ 4096
    → let word = (chain_page page size m).word in
      ((n : ℕ) → n < 4096 / size → walk word page n ≡ page + n * size)
      × (word (walk word page (4096 / size - 1)) ≡ 0)
chain_page-walk page size m s l =
    let count = 4096 / size in
    let word = (chain_page page size m).word in
    let linked = λ (j : ℕ) (h : j + 1 < count). chain_page-link page size s j m h in
    let at_last =
      walk-links page size count (count - 1) word linked (omega (arith, count-pos page size s l)) in
    (
      λ n h. walk-links page size count n word linked h,
      ap word at_last ∙ chain_page-last page size s m,
    )
