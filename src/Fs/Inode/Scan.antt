-- ===== src/Fs/Inode/Scan.antt =====
-- fs/inode.c: the search of `get_empty_inode` goes once round the table.
use linux.Base.{
  ℕ, zero, suc, ◌+◌, ◌<◌, ◌≤◌, ◌≡◌, ◌≢◌, ◌⊎◌, inl, inr, refl, arith, ◌==◌, leb, not, ◌&&◌,
  if◌then◌else◌, false, Bool-cases,
}
use native.Mathlib.Decide.{ℕ_discrete}
use linux.Fs.State.{FileSystem}
use linux.Fs.Inode.{nr_inode}
use linux.Fs.Inode.Table.{scan_inodes}

module _ (s : FileSystem) where
  abbrev IsFree : ℕ → Type 0
  IsFree p = (s.inode_at p).i_count ≡ 0

  abbrev next_of : ℕ → ℕ
  next_of last = if leb nr_inode last then 1 else last + 1

  next_of-step :
      (last : ℕ)
      → last ≤ nr_inode
      → (last < nr_inode → next_of last ≡ last + 1) × (nr_inode ≤ last → next_of last ≡ 1)
  next_of-step last h = (λ l. ground arith, λ l. ground arith)

  next_of-bounds : (last : ℕ) → last ≤ nr_inode → (next_of last ≢ 0) × (next_of last ≤ nr_inode)
  next_of-bounds last h = (ground arith, ground arith)

  -- One round: the search ends at a free inode, goes on with it, or goes on with what it had.
  scan-suc :
      (n last best : ℕ)
      → (IsFree (next_of last) × (scan_inodes (suc n) s last best ≡ (next_of last, next_of last)))
        ⊎ ((IsFree (next_of last)
              × (scan_inodes (suc n) s last best ≡ scan_inodes n s (next_of last) (next_of last)))
            ⊎ ((IsFree (next_of last) → ⊥)
                × (scan_inodes (suc n) s last best ≡ scan_inodes n s (next_of last) best)))
  unfolding scan_inodes
  scan-suc n last best = elim (ℕ_discrete (s.inode_at (next_of last)).i_count 0) [
    | yes free ↦
        elim (Bool-cases
          (not (s.inode_at (next_of last)).i_dirt && not (s.inode_at (next_of last)).i_lock)) [
            | inl clean ↦ inl (free, rw (free, clean) refl)
            | inr busy ↦ inr (inl (free, rw (free, busy) refl))
          ]
    | no used ↦
        let e : ((s.inode_at (next_of last)).i_count == 0) ≡ false = ground (arith, used) in
        inr (inr (used, rw e refl))
  ]

  -- What the search finds is free, if anything is found.
  scan-IsFree :
      (n last best : ℕ)
      → ((best ≡ 0) ⊎ IsFree best)
      → let (_, p) = scan_inodes n s last best in (p ≡ 0) ⊎ IsFree p
  unfolding scan_inodes
  scan-IsFree zero last best h = h
  scan-IsFree (suc n) last best h = elim (scan-suc n last best) [
    | inl (free, e) ↦ rw e (inr free)
    | inr (inl (free, e)) ↦ rw e (scan-IsFree n (next_of last) (next_of last) (inr free))
    | inr (inr (used, e)) ↦ rw e (scan-IsFree n (next_of last) best h)
  ]

  -- `n` rounds after `last` come to `p`.
  abbrev Visits : (n last p : ℕ) → Type 0
  Visits n last p = ((last < p) × (p ≤ last + n)) ⊎ ((p ≤ last) × (p + nr_inode ≤ last + n))

  scan-found : (n last best : ℕ) → last ≤ nr_inode → best ≢ 0 → (scan_inodes n s last best).1 ≢ 0
  unfolding scan_inodes
  scan-found zero last best b h = h
  scan-found (suc n) last best b h =
      let (up, round) = next_of-step last b in
      let (low, high) = next_of-bounds last b in
      elim (scan-suc n last best) [
        | inl (free, e) ↦ rw e low
        | inr (inl (free, e)) ↦ rw e (scan-found n (next_of last) (next_of last) high low)
        | inr (inr (used, e)) ↦ rw e (scan-found n (next_of last) best high h)
      ]

  Visits-next :
      (n last p : ℕ)
      → last ≤ nr_inode
      → p ≤ nr_inode
      → 1 ≤ p
      → Visits (suc n) last p
      → p ≢ next_of last
      → Visits n (next_of last) p
  Visits-next n last p b d c v ne =
      let (up, round) = next_of-step last b in
      elim (ℕ_discrete last nr_inode) [
        | yes full ↦ let one = round (omega arith) in ground (arith, v, ne, one)
        | no less ↦ let more = up (omega arith) in ground (arith, v, ne, more)
      ]

  scan-Visits :
      (n last best p : ℕ)
      → last ≤ nr_inode
      → p ≤ nr_inode
      → 1 ≤ p
      → Visits n last p
      → IsFree p
      → (scan_inodes n s last best).1 ≢ 0
  unfolding scan_inodes
  scan-Visits zero last best p b d c v f = absurd (omega (arith, v))
  scan-Visits (suc n) last best p b d c v f =
      let (low, high) = next_of-bounds last b in
      let later = Visits-next n last p b d c v in
      elim (scan-suc n last best) [
        | inl (free, e) ↦ rw e low
        | inr (inl (free, e)) ↦ rw e (scan-found n (next_of last) (next_of last) high low)
        | inr (inr (used, e)) ↦
            rw e
              (scan-Visits n (next_of last) best p high d c (later λ same. used (rw same at f)) f)
      ]

-- If there is an inode without users, the search of `get_empty_inode` finds one, wherever the last
-- search has left off.
pub scan_inodes-IsFree :
    (s : FileSystem) (p : ℕ)
    → 1 ≤ s.last_inode
    → s.last_inode ≤ nr_inode
    → 1 ≤ p
    → p ≤ nr_inode
    → (s.inode_at p).i_count ≡ 0
    → let (_, found) = scan_inodes nr_inode s s.last_inode 0 in
      (found ≢ 0) × ((s.inode_at found).i_count ≡ 0)
scan_inodes-IsFree s p a b c d free =
    let found = scan-Visits s nr_inode s.last_inode 0 p b d c (ground arith) free in
    (
      found,
      elim (scan-IsFree s nr_inode s.last_inode 0 (inl refl)) [
        | inl none ↦ absurd (found none)
        | inr is_free ↦ is_free
      ],
    )
