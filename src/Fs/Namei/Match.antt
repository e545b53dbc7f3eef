-- ===== src/Fs/Namei/Match.antt =====
-- fs/namei.c: which names `match` takes for the name of an entry that `add_entry` has filled.
use linux.Base.{
  ℕ, ◌+◌, ◌*◌, ◌-◌, ◌%◌, ◌^◌, ◌<◌, ◌≤◌, ◌≡◌, ◌≢◌, ◌↔◌, sym, ◌∙◌, arith, ◌==◌, not, ltb,
  if◌then◌else◌, Bool, true,
}
use native.Mathlib.Decide.{ℕ_discrete}
use linux.Base.Loops.{find_up, find_up_bounds, find_up_least, find_up_passes}
use linux.Fs.Namei.{entry_inode, entry_name, match, with_entry_inode, with_entry_name}

-- An entry with its name and its inode.
abbrev pub filled : (k nr len : ℕ) → (name block : ℕ → ℕ) → ℕ → ℕ
filled k nr len name block = with_entry_inode k nr (with_entry_name k len name block)

filled-inode :
    (k nr len : ℕ) (name block : ℕ → ℕ) → entry_inode (filled k nr len name block) k ≡ nr % 2 ^ 16
filled-inode k nr len name block = ground arith

filled-name :
    (k nr len j : ℕ) (name block : ℕ → ℕ)
    → j < 14
    → entry_name (filled k nr len name block) k j ≡ (if ltb j len then name j else 0)
filled-name k nr len j name block h =
    let e : 16 * k + 2 + j - (16 * k + 2) ≡ j = omega arith in ground (arith, e)

-- The comparison of `len` bytes.
abbrev same_text : (len : ℕ) → (name other : ℕ → ℕ) → Bool
same_text len name other = find_up 0 len (λ j. not (name j == other j)) == len

same_text-eq :
    (len : ℕ) (name other : ℕ → ℕ)
    → same_text len name other ≡ true
    → (j : ℕ) → j < len
    → name j ≡ other j
same_text-eq len name other e j h =
    let differs = λ (j : ℕ). not (name j == other j) in
    let all = find_up_least 0 len j differs (omega arith) (ground arith) in ground (arith, all)

eq-same_text :
    (len : ℕ) (name other : ℕ → ℕ)
    → ((j : ℕ) → j < len → name j ≡ other j)
    → same_text len name other ≡ true
eq-same_text len name other same =
    let differs = λ (j : ℕ). not (name j == other j) in
    let found = find_up 0 len differs in
    elim (ℕ_discrete found len) [
      | yes e ↦ ground (arith, e)
      | no ne ↦
          let (low, high) = find_up_bounds 0 len differs in
          let less : found < len = omega arith in
          let stop = find_up_passes 0 len differs (omega arith) in
          ground (arith, stop, same found less)
    ]

-- No byte of the name is NUL.
abbrev pub NoNul : (len : ℕ) → (ℕ → ℕ) → Type 0
NoNul len name = (j : ℕ) → j < len → name j ≢ 0

match-parts :
    (len : ℕ) (name block : ℕ → ℕ) (k : ℕ)
    → match len name block k ≡ true
    → (entry_inode block k ≢ 0)
      × (len ≤ 14)
      × (len < 14 → entry_name block k len ≡ 0)
      × (same_text len name (entry_name block k) ≡ true)
unfolding match
match-parts len name block k e = (ground arith, ground arith, λ l. ground arith, ground arith)

parts-match :
    (len : ℕ) (name block : ℕ → ℕ) (k : ℕ)
    → entry_inode block k ≢ 0
    → len ≤ 14
    → (len < 14 → entry_name block k len ≡ 0)
    → same_text len name (entry_name block k) ≡ true
    → match len name block k ≡ true
unfolding match
parts-match len name block k used short end same = elim (ℕ_discrete len 14) [
  | yes e ↦ ground (arith, e)
  | no ne ↦ let nul = end (omega arith) in ground (arith, ne, nul)
]

-- The entry was filled for a name of `len` bytes; another of `len'` bytes is looked for.
module _ (k nr len len' : ℕ) (name name' block : ℕ → ℕ) (is_used : nr % 2 ^ 16 ≢ 0)
    (short : len ≤ 14) (no_nul : NoNul len name) (no_nul' : NoNul len' name') where
  abbrev entry : ℕ → ℕ
  entry = filled k nr len name block

  abbrev SameName : Type 0
  SameName = (len ≡ len') × ((j : ℕ) → j < len → name j ≡ name' j)

  name_in : (j : ℕ) → j < len → entry_name entry k j ≡ name j
  name_in j h = filled-name k nr len j name block (omega arith) ∙ ground arith

  name_end : (j : ℕ) → len ≤ j → j < 14 → entry_name entry k j ≡ 0
  name_end j h l = filled-name k nr len j name block l ∙ ground arith

  not_longer : (len' ≤ 14) → ((j : ℕ) → j < len' → name' j ≡ entry_name entry k j) → len' ≤ len
  not_longer short' text = elim (ℕ_discrete (len' - len) 0) [
    | yes e ↦ omega arith
    | no ne ↦
        let l : len < len' = omega arith in
        absurd (no_nul' len l (text len l ∙ name_end len (omega arith) (omega arith)))
  ]

  not_shorter : (len' < 14 → entry_name entry k len' ≡ 0) → len ≤ len'
  not_shorter end = elim (ℕ_discrete (len - len') 0) [
    | yes e ↦ omega arith
    | no ne ↦
        let l : len' < len = omega arith in
        absurd (no_nul len' l (sym (name_in len' l) ∙ end (omega arith)))
  ]

  match-SameName : match len' name' entry k ≡ true → SameName
  match-SameName e =
      let (used, short', end, same) = match-parts len' name' entry k e in
      let text = same_text-eq len' name' (entry_name entry k) same in
      let shorter = not_longer short' text in
      let longer = not_shorter end in
      (omega arith, λ j l. sym (name_in j l) ∙ sym (text j (omega arith)))

  SameName-match : SameName → match len' name' entry k ≡ true
  SameName-match (e, same) =
      parts-match len' name' entry k (λ z. is_used (sym (filled-inode k nr len name block) ∙ z))
        (omega arith) (λ l. name_end len' (omega arith) l)
        (eq-same_text len' name' (entry_name entry k)
          (λ j l. sym (same j (omega arith)) ∙ sym (name_in j (omega arith))))

  -- `match` finds the name that the entry was filled for, and takes no other name for it: an entry
  -- filled for a name of at most 14 bytes matches a name exactly if the two are equal, where neither
  -- has a NUL and the number of the inode is not 0 as an unsigned short.
  pub match_iff : (match len' name' entry k ≡ true) ↔ SameName
  match_iff = (match-SameName, SameName-match)
