-- ===== src/Mm/Fork.antt =====
-- `copy_page_tables`: what `fork` leaves in one pair of page tables.
use linux.Base.{
  ℕ, zero, suc, ◌+◌, ◌*◌, ◌%◌, ◌≤◌, ◌<◌, ◌≡◌, refl, sym, ap, ◌∙◌, ◌≢◌, ◌⊎◌, inl, inr, Bool, ltb,
  ◌&&◌, if◌then◌else◌, arith, ◌==◌,
}
use mathlib.Core.Path.{ap₂}
use native.Mathlib.Decide.{ℕ_discrete}
use linux.Base.Loops.{for_up}
use linux.Mm.{Mm, low_mem, map_nr, clear_write, is_present, copy_entry, copy_table}

-- The entry in the parent's and in the child's table after the copy of an entry `e`.
abbrev pub parent_entry : ℕ → ℕ
parent_entry e = if is_present e && ltb low_mem (clear_write e) then clear_write e else e

abbrev pub child_entry : ℕ → ℕ → ℕ
child_entry e old = if is_present e then clear_write e else old

copy_entry-word :
    (from to a : ℕ) (m : Mm) → a ≢ from → a ≢ to → (copy_entry from to m).word a ≡ m.word a
unfolding copy_entry
copy_entry-word from to a m nf nt = ground arith

copy_entry-parent :
    (from to : ℕ) (m : Mm)
    → from ≢ to
    → (copy_entry from to m).word from ≡ parent_entry (m.word from)
unfolding copy_entry
copy_entry-parent from to m ne = ground arith

copy_entry-child :
    (from to : ℕ) (m : Mm)
    → from ≢ to
    → (copy_entry from to m).word to ≡ child_entry (m.word from) (m.word to)
unfolding copy_entry
copy_entry-child from to m ne = ground arith

abbrev pub is_counted : ℕ → ℕ → Bool
is_counted e i = is_present e && ltb low_mem (clear_write e) && map_nr (clear_write e) == i

-- How many of the entries `j`, …, `j + n - 1` of the table at `from` map the managed page `i`.
abbrev pub references : (ℕ → ℕ) → ℕ → ℕ → ℕ → ℕ → ℕ
references word i from j zero = 0
references word i from j (suc n) =
    (if is_counted (word (from + 4 * j)) i then 1 else 0) + references word i from (suc j) n

module _ (from to : ℕ) where
  copy_at : ℕ → Mm → Mm
  copy_at k = copy_entry (from + 4 * k) (to + 4 * k)

  -- Two tables of `n` entries have no word in common.
  abbrev AreApart : ℕ → Type 0
  AreApart n = (from + 4 * n ≤ to) ⊎ (to + 4 * n ≤ from)

  entries-ne : (n i k : ℕ) → AreApart n → i < n → k < n → from + 4 * i ≢ to + 4 * k
  entries-ne n i k (inl h) li lk e = omega arith
  entries-ne n i k (inr h) li lk e = omega arith

  -- Rounds `j`, …, `j + n - 1` leave other words alone.
  loop-word :
      (j n a : ℕ) (m : Mm)
      → ((k : ℕ) → j ≤ k → k < j + n → (a ≢ from + 4 * k) × (a ≢ to + 4 * k))
      → (for_up j n copy_at m).word a ≡ m.word a
  unfolding for_up copy_at
  loop-word j zero a m h = refl
  loop-word j (suc n) a m h =
      let here = h j (omega arith) (omega arith) in
      loop-word (suc j) n a (copy_at j m) (λ k l u. h k (omega arith) (omega arith))
      ∙ copy_entry-word (from + 4 * j) (to + 4 * j) a m here.0 here.1

  -- Both entries of index `k`, as the copy leaves them.
  abbrev AreCopied : Mm → ℕ → Mm → Type 0
  AreCopied m k m' =
      (m'.word (from + 4 * k) ≡ parent_entry (m.word (from + 4 * k)))
      × (m'.word (to + 4 * k) ≡ child_entry (m.word (from + 4 * k)) (m.word (to + 4 * k)))

  loop-here :
      (size j n : ℕ) (m : Mm)
      → AreApart size
      → j + suc n ≤ size
      → AreCopied m j (for_up (suc j) n copy_at (copy_at j m))
  unfolding copy_at
  loop-here size j n m disj l =
      let ne = entries-ne size j j disj (omega arith) (omega arith) in
      (
        loop-word (suc j) n (from + 4 * j) (copy_at j m)
              (λ k lo hi. (omega arith, entries-ne size j k disj (omega arith) (omega arith)))
            ∙ copy_entry-parent (from + 4 * j) (to + 4 * j) m ne,
        loop-word (suc j) n (to + 4 * j) (copy_at j m) (λ k lo hi.
              ((λ e. entries-ne size k j disj (omega arith) (omega arith) (sym e)), omega arith))
            ∙ copy_entry-child (from + 4 * j) (to + 4 * j) m ne,
      )

  loop-copies :
      (size j n k : ℕ) (m : Mm)
      → AreApart size
      → j + n ≤ size
      → j ≤ k
      → k < j + n
      → AreCopied m k (for_up j n copy_at m)
  unfolding for_up
  loop-copies size j zero k m h b l u = absurd (omega arith)
  loop-copies size j (suc n) k m h b l u = elim (ℕ_discrete k j) [
    | yes e ↦ rw e (loop-here size j n m h b)
    | no ne ↦
        let rest =
          loop-copies size (suc j) n k (copy_at j m) h (omega arith) (omega arith) (omega arith) in
        let f : (copy_at j m).word (from + 4 * k) ≡ m.word (from + 4 * k) =
          unfold copy_at in
          copy_entry-word (from + 4 * j) (to + 4 * j) (from + 4 * k) m (omega arith)
            (entries-ne size k j h (omega arith) (omega arith)) in
        let t : (copy_at j m).word (to + 4 * k) ≡ m.word (to + 4 * k) =
          unfold copy_at in
          copy_entry-word (from + 4 * j) (to + 4 * j) (to + 4 * k) m
            (λ e. entries-ne size j k h (omega arith) (omega arith) (sym e)) (omega arith) in
        (rest.0 ∙ ap parent_entry f, rest.1 ∙ ap₂ child_entry f t)
  ]

  copy_at-count :
      (j i : ℕ) (m : Mm)
      → from + 4 * j ≢ to + 4 * j
      → (m.mem_map i < 256)
      → (copy_at j m).mem_map i
        ≡ (m.mem_map i + (if is_counted (m.word (from + 4 * j)) i then 1 else 0)) % 256
  unfolding copy_at copy_entry
  copy_at-count j i m ne b = ground arith

  references-cong :
      (word word' : ℕ → ℕ) (i j n : ℕ)
      → ((k : ℕ) → j ≤ k → k < j + n → word (from + 4 * k) ≡ word' (from + 4 * k))
      → references word i from j n ≡ references word' i from j n
  references-cong word word' i j zero h = refl
  references-cong word word' i j (suc n) h =
      ap₂ (λ e r. (if is_counted e i then 1 else 0) + r) (h j (omega arith) (omega arith))
        (references-cong word word' i (suc j) n (λ k l u. h k (omega arith) (omega arith)))

  loop-count :
      (size j n i : ℕ) (m : Mm)
      → AreApart size
      → j + n ≤ size
      → m.mem_map i < 256
      → (for_up j n copy_at m).mem_map i ≡ (m.mem_map i + references m.word i from j n) % 256
  unfolding for_up
  loop-count size j zero i m h l b = omega arith
  loop-count size j (suc n) i m h l b =
      let ne = entries-ne size j j h (omega arith) (omega arith) in
      let here = copy_at-count j i m ne b in
      let kept = references-cong (copy_at j m).word m.word i (suc j) n (λ k lo hi.
        unfold copy_at in
        copy_entry-word (from + 4 * j) (to + 4 * j) (from + 4 * k) m (omega arith)
          (entries-ne size k j h (omega arith) (omega arith))) in
      omega (
        arith,
        loop-count size (suc j) n i (copy_at j m) h (omega arith) (omega (arith, here)),
        here,
        kept,
      )

-- After `nr` entries have been copied between two tables that do not overlap: every entry that was
-- present is in both tables with its write bit cleared (in the parent's only if it maps a page above
-- 1M); absent entries are as they were; and the count of each page has grown, modulo 256, by the
-- number of present entries that map it.
pub record IsForked (from to nr : ℕ) (m m' : Mm) : Type 0 where
  pub parent : (k : ℕ) → k < nr → m'.word (from + 4 * k) ≡ parent_entry (m.word (from + 4 * k))
  pub child :
      (k : ℕ)
      → k < nr
      → m'.word (to + 4 * k) ≡ child_entry (m.word (from + 4 * k)) (m.word (to + 4 * k))
  pub counts :
      (i : ℕ)
      → m.mem_map i < 256
      → m'.mem_map i ≡ (m.mem_map i + references m.word i from 0 nr) % 256

-- After `nr` entries are copied between two page tables that do not overlap, each present entry is in
-- both with its write bit cleared (in the parent's only for a page above 1M), the absent ones are as
-- they were, and the count of each page has grown, modulo 256, by the number of present entries that
-- map it.
pub copy_table-IsForked :
    (nr from to : ℕ) (m : Mm)
    → (from + 4 * nr ≤ to) ⊎ (to + 4 * nr ≤ from)
    → IsForked from to nr m (copy_table nr from to m)
unfolding copy_table copy_at
copy_table-IsForked nr from to m h = record {
  parent = λ k l. (loop-copies from to nr 0 nr k m h (omega arith) (omega arith) (omega arith)).0;
  child = λ k l. (loop-copies from to nr 0 nr k m h (omega arith) (omega arith) (omega arith)).1;
  counts = λ i b. loop-count from to nr 0 nr i m h (omega arith) b;
}
