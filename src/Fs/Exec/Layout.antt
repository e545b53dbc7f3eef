-- ===== src/Fs/Exec/Layout.antt =====
-- fs/exec.c: the tables that `create_tables` makes lead to the strings of the arguments.
use linux.Base.{
  ℕ, ◌+◌, ◌-◌, ◌*◌, ◌/◌, ◌%◌, ◌^◌, ◌<◌, ◌≤◌, ◌≡◌, inl, inr, refl, sym, ◌∙◌, ap, arith, returns,
  ◌>>=◌, Returns, Returns-weaken, Returns->>=,
}
use linux.Fs.Inode.{read32}
use linux.Fs.Exec.{put_fs_long, below, put_pointers, make_tables, create_tables}
use linux.Fs.Exec.Args.{
  AreStrings, IsTable, starts_ascend, put_fs_long-outside, read32-put_fs_long, read32-same,
  AreStrings-kept, AreStrings-from, put_pointers-IsTable,
}

-- The stack of a new program: at `sp` the number of arguments and the two tables, which lead to the
-- strings in turn and end with 0; the strings are as they were.
pub record IsLaidOut (mem : ℕ → ℕ) (argc envc : ℕ) (start : ℕ → ℕ) (sp : ℕ) (mem' : ℕ → ℕ)
    : Type 0 where
  pub argc_at : read32 mem' sp ≡ argc
  pub argv_at : read32 mem' (sp + 4) ≡ sp + 12
  pub envp_at : read32 mem' (sp + 8) ≡ sp + 16 + 4 * argc
  pub arguments : (i : ℕ) → i < argc → read32 mem' (sp + 12 + 4 * i) ≡ start i
  pub arguments_end : read32 mem' (sp + 12 + 4 * argc) ≡ 0
  pub environment : (i : ℕ) → i < envc → read32 mem' (sp + 16 + 4 * argc + 4 * i) ≡ start (argc + i)
  pub environment_end : read32 mem' (sp + 16 + 4 * argc + 4 * envc) ≡ 0
  pub strings : (a : ℕ) → start 0 ≤ a → mem' a ≡ mem a

module _ (argc envc sp : ℕ) (mem start : ℕ → ℕ)
    (room : sp + 20 + 4 * argc + 4 * envc ≤ start 0) where
  -- The first three words.
  abbrev with_envp : ℕ → ℕ
  with_envp = put_fs_long (sp + 16 + 4 * argc) (sp + 8) mem

  abbrev with_argv : ℕ → ℕ
  with_argv = put_fs_long (sp + 12) (sp + 4) with_envp

  abbrev head : ℕ → ℕ
  head = put_fs_long argc sp with_argv

  head-above : (a : ℕ) → sp + 12 ≤ a → head a ≡ mem a
  head-above a h =
      put_fs_long-outside argc sp a with_argv (inr (omega arith))
      ∙ put_fs_long-outside (sp + 12) (sp + 4) a with_envp (inr (omega arith))
      ∙ put_fs_long-outside (sp + 16 + 4 * argc) (sp + 8) a mem (inr (omega arith))

  module _ (mem₄ mem₆ : ℕ → ℕ) (small : start 0 < 2 ^ 32)
      (first : IsTable head argc (sp + 12) start mem₄)
      (second : IsTable
        (put_fs_long 0 (sp + 12 + 4 * argc) mem₄)
        envc
        (sp + 16 + 4 * argc)
        (λ i. start (argc + i))
        mem₆) where
    abbrev laid : ℕ → ℕ
    laid = put_fs_long 0 (sp + 16 + 4 * argc + 4 * envc) mem₆

    -- What lies before the second table.
    laid-before :
        (a : ℕ) → a < sp + 16 + 4 * argc → laid a ≡ put_fs_long 0 (sp + 12 + 4 * argc) mem₄ a
    laid-before a h =
        put_fs_long-outside 0 (sp + 16 + 4 * argc + 4 * envc) a mem₆ (inl (omega arith))
        ∙ second.kept a (inl h)

    laid-arguments : (a : ℕ) → a < sp + 12 + 4 * argc → laid a ≡ mem₄ a
    laid-arguments a h =
        laid-before a (omega arith) ∙ put_fs_long-outside 0 (sp + 12 + 4 * argc) a mem₄ (inl h)

    laid-head : (a : ℕ) → a < sp + 12 → laid a ≡ head a
    laid-head a h = laid-arguments a (omega arith) ∙ first.kept a (inl h)

    laid-IsLaidOut : IsLaidOut mem argc envc start sp laid
    laid-IsLaidOut = record {
      argc_at =
          read32-same head laid sp (λ a b c. laid-head a (omega arith))
          ∙ read32-put_fs_long argc sp with_argv (omega arith);
      argv_at =
          read32-same with_argv laid (sp + 4) (λ a b c.
            laid-head a (omega arith) ∙ put_fs_long-outside argc sp a with_argv (inr (omega arith)))
          ∙ read32-put_fs_long (sp + 12) (sp + 4) with_envp (omega arith);
      envp_at =
          read32-same with_envp laid (sp + 8) (λ a b c.
            laid-head a (omega arith)
            ∙ put_fs_long-outside argc sp a with_argv (inr (omega arith))
            ∙ put_fs_long-outside (sp + 12) (sp + 4) a with_envp (inr (omega arith)))
          ∙ read32-put_fs_long (sp + 16 + 4 * argc) (sp + 8) mem (omega arith);
      arguments = λ i l.
          read32-same mem₄ laid (sp + 12 + 4 * i) (λ a b c. laid-arguments a (omega arith))
          ∙ first.pointers i l;
      arguments_end =
          read32-same (put_fs_long 0 (sp + 12 + 4 * argc) mem₄) laid (sp + 12 + 4 * argc)
            (λ a b c. laid-before a (omega arith))
          ∙ read32-put_fs_long 0 (sp + 12 + 4 * argc) mem₄ (omega arith);
      environment = λ i l.
          read32-same mem₆ laid (sp + 16 + 4 * argc + 4 * i) (λ a b c.
            put_fs_long-outside 0 (sp + 16 + 4 * argc + 4 * envc) a mem₆ (inl (omega arith)))
          ∙ second.pointers i l;
      environment_end = read32-put_fs_long 0 (sp + 16 + 4 * argc + 4 * envc) mem₆ (omega arith);
      strings = λ a l.
          put_fs_long-outside 0 (sp + 16 + 4 * argc + 4 * envc) a mem₆ (inr (omega arith))
          ∙ second.kept a (inr (omega arith))
          ∙ put_fs_long-outside 0 (sp + 12 + 4 * argc) a mem₄ (inr (omega arith))
          ∙ first.kept a (inr (omega arith))
          ∙ head-above a (omega arith);
    }

  -- The second loop, from the end of the first on.
  second_loop :
      (fuel : ℕ) (mem₄ : ℕ → ℕ)
      → AreStrings mem (argc + envc) start
      → start (argc + envc) < 2 ^ 32
      → start (argc + envc) - start 0 ≤ fuel
      → IsTable head argc (sp + 12) start mem₄
      → Returns
          (λ (sp', mem'). (sp' ≡ sp) × IsLaidOut mem argc envc start sp mem')
          (put_pointers fuel envc
              (start argc)
              (sp + 16 + 4 * argc)
              (put_fs_long 0 (sp + 12 + 4 * argc) mem₄)
            >>= λ (p₂, envp', mem₆). returns (sp, put_fs_long 0 envp' mem₆))
  second_loop fuel mem₄ h small enough first =
      let mem₅ = put_fs_long 0 (sp + 12 + 4 * argc) mem₄ in
      let middle = starts_ascend mem argc start (λ i l. h i (omega arith)) in
      let z : start (argc + 0) ≡ start argc = ap start (omega arith) in
      let same = λ (a : ℕ) (l : start (argc + 0) ≤ a).
        (put_fs_long-outside 0 (sp + 12 + 4 * argc) a mem₄ (inr (omega (arith, middle, z)))
          ∙ first.kept a (inr (omega (arith, middle, z)))
          ∙ head-above a (omega (arith, middle, z))) in
      let after = AreStrings-from mem argc envc start h in
      let strings = AreStrings-kept mem mem₅ envc (λ i. start (argc + i)) same after in
      let end = starts_ascend mem envc (λ i. start (argc + i)) after in
      Returns->>=
        (λ (p', at', mem').
          (p' ≡ start (argc + envc))
          × (at' ≡ sp + 16 + 4 * argc + 4 * envc)
          × IsTable mem₅ envc (sp + 16 + 4 * argc) (λ i. start (argc + i)) mem')
        (λ (sp', mem'). (sp' ≡ sp) × IsLaidOut mem argc envc start sp mem')
        (put_pointers fuel envc (start argc) (sp + 16 + 4 * argc) mem₅)
        (λ (p₂, envp', mem₆). returns (sp, put_fs_long 0 envp' mem₆))
        (rw (sym z) (
          put_pointers-IsTable fuel envc (sp + 16 + 4 * argc) mem₅ (λ i. start (argc + i)) strings
            (omega (arith, middle, z)) small (omega (arith, middle, end, z))))
        (λ (p₂, envp', mem₆) (e, f, second).
          rw f (refl, laid-IsLaidOut mem₄ mem₆ (omega (arith, middle, end, z)) first second))

below-le : (n a : ℕ) → n ≤ a → a < 2 ^ 32 → below n a ≡ a - n
unfolding below
below-le n a h l = omega arith

below-sum : (n a b : ℕ) → a ≡ b + n → a < 2 ^ 32 → below n a ≡ b
below-sum n a b e l = below-le n a (omega (arith, e)) l ∙ omega (arith, e)

-- `create_tables` behind its first two subtractions.
make_tables-IsLaidOut :
    (fuel argc envc sp : ℕ) (mem start : ℕ → ℕ)
    → AreStrings mem (argc + envc) start
    → start (argc + envc) < 2 ^ 32
    → start (argc + envc) - start 0 ≤ fuel
    → sp + 20 + 4 * argc + 4 * envc ≤ start 0
    → Returns
        (λ (sp', mem'). (sp' ≡ sp) × IsLaidOut mem argc envc start sp mem')
        (make_tables fuel (start 0) argc envc (sp + 12) (sp + 16 + 4 * argc) mem)
unfolding make_tables
make_tables-IsLaidOut fuel argc envc sp mem start h small enough room =
    let all = starts_ascend mem (argc + envc) start h in
    let first = λ (i : ℕ) (l : i < argc). h i (omega arith) in
    let middle = starts_ascend mem argc start first in
    let after =
      starts_ascend mem envc (λ i. start (argc + i)) (AreStrings-from mem argc envc start h) in
    let z : start (argc + 0) ≡ start argc = ap start (omega arith) in
    let mem₃ = head argc envc sp mem start room in
    let kept =
      λ (a : ℕ) (l : start 0 ≤ a). head-above argc envc sp mem start room a (omega arith) in
    let s₁ = below-sum 4 (sp + 12) (sp + 8) (omega arith) (omega (arith, all)) in
    let s₂ = below-sum 8 (sp + 12) (sp + 4) (omega arith) (omega (arith, all)) in
    let s₃ = below-sum 12 (sp + 12) sp (omega arith) (omega (arith, all)) in
    rw (s₁, s₂, s₃)
      (Returns->>=
        (λ (p', at', mem').
          (p' ≡ start argc) × (at' ≡ sp + 12 + 4 * argc) × IsTable mem₃ argc (sp + 12) start mem')
        (λ (sp', mem'). (sp' ≡ sp) × IsLaidOut mem argc envc start sp mem')
        (put_pointers fuel argc (start 0) (sp + 12) mem₃)
        (λ (p', argv', mem₄).
          put_pointers fuel envc p' (sp + 16 + 4 * argc) (put_fs_long 0 argv' mem₄)
          >>= λ (p₂, envp', mem₆). returns (sp, put_fs_long 0 envp' mem₆))
        (put_pointers-IsTable fuel argc (sp + 12) mem₃ start
          (AreStrings-kept mem mem₃ argc start kept first) (omega arith) (omega (arith, after, z))
          (omega (arith, after, z, middle)))
        (λ (p', argv', mem₄) (e, f, table).
          rw (e, f) (second_loop argc envc sp mem start room fuel mem₄ h small enough table)))

-- The strings of the arguments and then of the environment, one behind the other at `p`, are found
-- through the tables that `create_tables` makes, with 0 at their ends and the strings as they were;
-- it returns the address of the new stack, which is divisible by 4, if it is given a round for each
-- character and there is room for the tables.
pub create_tables-IsLaidOut :
    (fuel argc envc : ℕ) (mem start : ℕ → ℕ)
    → AreStrings mem (argc + envc) start
    → start (argc + envc) < 2 ^ 32
    → start (argc + envc) - start 0 ≤ fuel
    → 20 + 4 * argc + 4 * envc ≤ start 0
    → Returns
        (λ (sp, mem'). (sp % 4 ≡ 0) × IsLaidOut mem argc envc start sp mem')
        (create_tables fuel (start 0) argc envc mem)
unfolding create_tables
create_tables-IsLaidOut fuel argc envc mem start h small enough room =
    let sp = start 0 / 4 * 4 - (20 + 4 * argc + 4 * envc) in
    let all = starts_ascend mem (argc + envc) start h in
    let e =
      below-sum (4 * (envc + 1)) (start 0 / 4 * 4) (sp + 16 + 4 * argc) (omega (arith, room))
        (omega (arith, all)) in
    let a =
      below-sum (4 * (argc + 1)) (sp + 16 + 4 * argc) (sp + 12) (omega arith)
        (omega (arith, all, room)) in
    let fits : sp + 20 + 4 * argc + 4 * envc ≤ start 0 = omega (arith, room) in
    let aligned : sp % 4 ≡ 0 = omega (arith, room) in
    rw (e, a)
      (Returns-weaken (λ (sp', mem') (same, laid). rw same (aligned, laid))
        (make_tables fuel (start 0) argc envc (sp + 12) (sp + 16 + 4 * argc) mem)
        (make_tables-IsLaidOut fuel argc envc sp mem start h small enough fits))
