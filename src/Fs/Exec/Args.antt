-- ===== src/Fs/Exec/Args.antt =====
-- fs/exec.c: a loop of `create_tables` makes a table of pointers to strings.
use linux.Base.{
  ℕ, zero, suc, ◌+◌, ◌-◌, ◌*◌, ◌^◌, ◌<◌, ◌≤◌, ◌≡◌, ◌≢◌, ◌⊎◌, inl, inr, refl, sym, ◌∙◌, ap, arith,
  ◌==◌, true, false, returns, Returns, Returns-weaken,
}
use native.Mathlib.Decide.{ℕ_discrete}
use linux.Fs.Inode.{byte_of, read32}
use linux.Fs.Exec.{put_fs_long, string_end, put_pointers}

-- A string with its NUL at the end.
pub record IsString (mem : ℕ → ℕ) (from to : ℕ) : Type 0 where
  pub not_empty : from < to
  pub ends : mem (to - 1) ≡ 0
  pub inside : (a : ℕ) → from ≤ a → a + 1 < to → mem a ≢ 0

string_end-IsString :
    (fuel : ℕ) (mem : ℕ → ℕ) (from to : ℕ)
    → IsString mem from to
    → to - from ≤ fuel
    → string_end fuel mem from ≡ returns to
unfolding string_end
string_end-IsString zero mem from to h l = absurd (omega (arith, h.not_empty))
string_end-IsString (suc fuel) mem from to h l = elim (ℕ_discrete (from + 1) to) [
  | yes e ↦
      let at_end : mem from ≡ 0 = ap mem {x = from} {y = to - 1} (omega arith) ∙ h.ends in
      let test : (mem from == 0) ≡ true = ground (arith, at_end) in rw test (ap returns e)
  | no ne ↦
      let more : from + 1 < to = omega (arith, h.not_empty) in
      let char = h.inside from (omega arith) more in
      let test : (mem from == 0) ≡ false = ground (arith, char) in
      let h' : IsString mem (from + 1) to = record {
        not_empty = more;
        ends = h.ends;
        inside = λ a b c. h.inside a (omega arith) c;
      } in
      rw test (string_end-IsString fuel mem (from + 1) to h' (omega arith))
]

pub put_fs_long-outside :
    (v at a : ℕ) (mem : ℕ → ℕ) → (a < at) ⊎ (at + 4 ≤ a) → put_fs_long v at mem a ≡ mem a
put_fs_long-outside v at a mem (inl h) = ground (arith, h)
put_fs_long-outside v at a mem (inr h) = ground (arith, h)

pub read32-put_fs_long :
    (v at : ℕ) (mem : ℕ → ℕ) → v < 2 ^ 32 → read32 (put_fs_long v at mem) at ≡ v
read32-put_fs_long v at mem h =
    let a : put_fs_long v at mem at ≡ byte_of v 0 = ground arith in
    let b : put_fs_long v at mem (at + 1) ≡ byte_of v 1 = ground arith in
    let c : put_fs_long v at mem (at + 2) ≡ byte_of v 2 = ground arith in
    let d : put_fs_long v at mem (at + 3) ≡ byte_of v 3 = ground arith in
    rw (a, b, c, d) (omega (arith, h))

pub read32-same :
    (mem mem' : ℕ → ℕ) (at : ℕ)
    → ((a : ℕ) → at ≤ a → a < at + 4 → mem' a ≡ mem a)
    → read32 mem' at ≡ read32 mem at
read32-same mem mem' at same =
    rw
      (
        same at (omega arith) (omega arith),
        same (at + 1) (omega arith) (omega arith),
        same (at + 2) (omega arith) (omega arith),
        same (at + 3) (omega arith) (omega arith),
      )
      refl

-- `n` strings one behind the other, from `start 0` on.
abbrev pub AreStrings : (mem : ℕ → ℕ) (n : ℕ) (start : ℕ → ℕ) → Type 0
AreStrings mem n start = (i : ℕ) → i < n → IsString mem (start i) (start (suc i))

-- A table of pointers to strings, and nothing else has changed.
pub record IsTable (mem : ℕ → ℕ) (n at : ℕ) (start mem' : ℕ → ℕ) : Type 0 where
  pub pointers : (i : ℕ) → i < n → read32 mem' (at + 4 * i) ≡ start i
  pub kept : (a : ℕ) → (a < at) ⊎ (at + 4 * n ≤ a) → mem' a ≡ mem a

pub starts_ascend :
    (mem : ℕ → ℕ) (n : ℕ) (start : ℕ → ℕ) → AreStrings mem n start → start 0 ≤ start n
starts_ascend mem zero start h = omega arith
starts_ascend mem (suc n) start h =
    let first = (h n (omega arith)).not_empty in
    let before = starts_ascend mem n start (λ i l. h i (omega arith)) in
    omega (arith, first, before)

IsString-kept :
    (mem mem' : ℕ → ℕ) (from to : ℕ)
    → ((a : ℕ) → from ≤ a → mem' a ≡ mem a)
    → IsString mem from to
    → IsString mem' from to
IsString-kept mem mem' from to same h = record {
  not_empty = h.not_empty;
  ends = same (to - 1) (omega (arith, h.not_empty)) ∙ h.ends;
  inside = λ a b c. λ z. h.inside a b c (sym (same a b) ∙ z);
}

pub AreStrings-kept :
    (mem mem' : ℕ → ℕ) (n : ℕ) (start : ℕ → ℕ)
    → ((a : ℕ) → start 0 ≤ a → mem' a ≡ mem a)
    → AreStrings mem n start
    → AreStrings mem' n start
AreStrings-kept mem mem' n start same h i l =
    let above = starts_ascend mem i start (λ j m. h j (omega arith)) in
    IsString-kept mem mem' (start i) (start (suc i)) (λ a b. same a (omega (arith, above))) (h i l)

-- A table with a pointer before it.
IsTable-before :
    (mem : ℕ → ℕ) (n at : ℕ) (start mem' : ℕ → ℕ)
    → start 0 < 2 ^ 32
    → IsTable (put_fs_long (start 0) at mem) n (at + 4) (λ i. start (suc i)) mem'
    → IsTable mem (suc n) at start mem'
IsTable-before mem n at start mem' small h = record {
  pointers = λ i l. elim (ℕ_discrete i 0) [
    | yes e ↦
        let first : read32 mem' at ≡ start 0 =
          read32-same (put_fs_long (start 0) at mem) mem' at (λ a b c. h.kept a (inl c))
          ∙ read32-put_fs_long (start 0) at mem small in
        rw e (ap (read32 mem') (omega arith) ∙ first)
    | no ne ↦
        let next : suc (i - 1) ≡ i = omega (arith, ne) in
        ap (read32 mem') {x = at + 4 * i} {y = at + 4 + 4 * (i - 1)} (omega (arith, ne))
        ∙ h.pointers (i - 1) (omega (arith, ne))
        ∙ ap start next
  ];
  kept = λ a l.
      h.kept a (ground (arith, l)) ∙ put_fs_long-outside (start 0) at a mem (ground (arith, l));
}

-- The strings from number `m` on.
pub AreStrings-from :
    (mem : ℕ → ℕ) (m n : ℕ) (start : ℕ → ℕ)
    → AreStrings mem (m + n) start
    → AreStrings mem n (λ i. start (m + i))
AreStrings-from mem m n start h i l =
    let next : m + suc i ≡ suc (m + i) = omega arith in rw next (h (m + i) (omega arith))

module _ (fuel : ℕ) where
  pub put_pointers-IsTable :
      (n at : ℕ) (mem start : ℕ → ℕ)
      → AreStrings mem n start
      → at + 4 * n ≤ start 0
      → start n < 2 ^ 32
      → start n - start 0 ≤ fuel
      → Returns
          (λ (p', at', mem'). (p' ≡ start n) × (at' ≡ at + 4 * n) × IsTable mem n at start mem')
          (put_pointers fuel n (start 0) at mem)
  unfolding put_pointers
  put_pointers-IsTable zero at mem start h room small enough =
      (refl, omega arith, record { pointers = λ i l. absurd (omega arith); kept = λ a l. refl })
  put_pointers-IsTable (suc n) at mem start h room small enough =
      let mem₁ = put_fs_long (start 0) at mem in
      let same =
        λ (a : ℕ) (l : start 0 ≤ a). put_fs_long-outside (start 0) at a mem (inr (omega arith)) in
      let h₁ = AreStrings-kept mem mem₁ (suc n) start same h in
      let first = h₁ 0 (omega arith) in
      let rest = λ (i : ℕ) (l : i < n). h₁ (suc i) (omega arith) in
      let above = starts_ascend mem₁ n (λ i. start (suc i)) rest in
      let longer = first.not_empty in
      rw (string_end-IsString fuel mem₁ (start 0) (start 1) first (omega (arith, above, longer))) (
        Returns-weaken
          (λ (p', at', mem') (e, f, table). (
            e,
            f ∙ omega arith,
            IsTable-before mem n at start mem' (omega (arith, above, longer)) table,
          ))
          (put_pointers fuel n (start 1) (at + 4) mem₁)
          (put_pointers-IsTable n (at + 4) mem₁ (λ i. start (suc i)) rest (omega (arith, longer))
            small (omega (arith, longer))))
