-- ===== src/Fs/Exec.antt =====
-- fs/exec.c: the arguments of a new program. `copy_strings` copies their strings to new pages, from the
-- end of the argument area down, and `create_tables` puts the pointers to them below.
-- The addresses of a string do not wrap around, which the limit of the segment sees to.
pub mod Args
pub mod Layout
mod Tests
use linux.Base.{
  ℕ, zero, suc, ◌+◌, ◌-◌, ◌*◌, ◌/◌, ◌%◌, ◌^◌, ◌==◌, if◌then◌else◌, Bool, true, false, update,
  Outcome, returns, panics, hangs, ◌>>=◌,
}
use linux.Mm.{Mm, get_free_page}
use linux.Fs.Inode.{byte_of, read32}

-- `put_fs_long`, in the memory of the new program.
abbrev pub put_fs_long : (value addr : ℕ) → (ℕ → ℕ) → ℕ → ℕ
put_fs_long value addr mem =
    update
      (update (update (update mem addr (byte_of value 0)) (addr + 1) (byte_of value 1)) (addr + 2)
        (byte_of value 2))
      (addr + 3) (byte_of value 3)

-- An address some bytes below another, as 32 bits.
unfoldable pub below : (n addr : ℕ) → ℕ
below n addr = (addr + 2 ^ 32 - n) % 2 ^ 32

-- `while (get_fs_byte(p++)) ;`: the address behind the NUL, on fuel.
unfoldable pub string_end : ℕ → (ℕ → ℕ) → ℕ → Outcome ℕ
string_end zero mem p = hangs
string_end (suc fuel) mem p =
    let rest = string_end fuel mem (p + 1) in if mem p == 0 then returns (p + 1) else rest

-- A loop of `create_tables`: `n` pointers to the strings from `p` on. It returns the string and the
-- pointer that come next.
unfoldable pub put_pointers : (fuel : ℕ) → (n p at : ℕ) → (ℕ → ℕ) → Outcome (ℕ × ℕ × (ℕ → ℕ))
unfolding string_end
put_pointers fuel zero p at mem = returns (p, at, mem)
put_pointers fuel (suc n) p at mem =
    let mem' = put_fs_long p at mem in
    string_end fuel mem' p >>= λ p'. put_pointers fuel n p' (at + 4) mem'

-- `create_tables` from the pointers to the two tables on.
unfoldable pub make_tables :
    (fuel : ℕ) → (p argc envc argv envp : ℕ) → (ℕ → ℕ) → Outcome (ℕ × (ℕ → ℕ))
unfolding put_pointers below
make_tables fuel p argc envc argv envp mem =
    let sp = below 12 argv in
    let mem₁ = put_fs_long envp (below 4 argv) mem in
    let mem₂ = put_fs_long argv (below 8 argv) mem₁ in
    let mem₃ = put_fs_long argc sp mem₂ in
    put_pointers fuel argc p argv mem₃ >>= λ (p', argv', mem₄).
    let mem₅ = put_fs_long 0 argv' mem₄ in
    put_pointers fuel envc p' envp mem₅ >>= λ (p₂, envp', mem₆).
    returns (sp, put_fs_long 0 envp' mem₆)

unfoldable pub create_tables : (fuel : ℕ) → (p argc envc : ℕ) → (ℕ → ℕ) → Outcome (ℕ × (ℕ → ℕ))
unfolding below make_tables
create_tables fuel p argc envc mem =
    let envp = below (4 * (envc + 1)) (p / 4 * 4) in
    make_tables fuel p argc envc (below (4 * (argc + 1)) envp) envp mem

-- The loop of `count`, on fuel.
unfoldable pub count_from : ℕ → (ℕ → ℕ) → (tmp i : ℕ) → Outcome ℕ
count_from zero mem tmp i = hangs
count_from (suc fuel) mem tmp i =
    let rest = count_from fuel mem (tmp + 4) (i + 1) in
    if read32 mem tmp == 0 then returns i else rest

unfoldable pub count : ℕ → (ℕ → ℕ) → (argv : ℕ) → Outcome ℕ
unfolding count_from
count fuel mem argv = if argv == 0 then returns 0 else count_from fuel mem argv 0

-- What `copy_strings` reads and writes: the bytes of the user and of the kernel, the pages of the
-- arguments, and the memory manager, whose free pages are bytes of the kernel.
pub record Arguments : Type 0 where
  pub user : ℕ → ℕ
  pub kernel : ℕ → ℕ
  pub page : ℕ → ℕ
  pub mm : Mm

-- The array of pointers is in the kernel unless `from_kmem` is 0, the strings only if it is 2.
abbrev pub pointers_in : (from_kmem : ℕ) → Arguments → ℕ → ℕ
pointers_in from_kmem s = if from_kmem == 0 then s.user else s.kernel

abbrev pub strings_in : (from_kmem : ℕ) → Arguments → ℕ → ℕ
strings_in from_kmem s = if from_kmem == 2 then s.kernel else s.user

-- `page[p/PAGE_SIZE]`, or else a free page, whose bytes are 0; 0 if there is none.
unfoldable pub page_for : (p : ℕ) → Arguments → ℕ × Arguments
unfolding get_free_page
page_for p s =
    let (new, mm) = get_free_page s.mm in
    let taken = record s {
      page = update s.page (p / 4096) new;
      mm = mm;
      kernel = λ a. if a / 4096 == new / 4096 then 0 else s.kernel a;
    } in
    let full = record s { mm = mm; page = update s.page (p / 4096) 0 } in
    if s.page (p / 4096) == 0
    then (new, (if new == 0 then full else taken))
    else (s.page (p / 4096), s)

-- The loop over the `len` characters that end before `tmp`; `pag` and `offset` are those of the last
-- character. It returns whether there was a page for all, and `p` and these.
unfoldable pub copy_chars :
    (from_kmem len : ℕ) → (tmp p pag offset : ℕ) → Arguments → Bool × ℕ × ℕ × ℕ × Arguments
unfolding page_for below
copy_chars from_kmem zero tmp p pag offset s = (true, p, pag, offset, s)
copy_chars from_kmem (suc len) tmp p pag offset s =
    let p' = below 1 p in
    let (pag₁, s₁) = if offset == 0 then page_for p' s else (pag, s) in
    let offset₁ = if offset == 0 then p' % 4096 else offset - 1 in
    let s₂ = record s₁ {
      kernel = update s₁.kernel (pag₁ + offset₁) (strings_in from_kmem s₁ (tmp - 1));
    } in
    let rest = copy_chars from_kmem len (tmp - 1) p' pag₁ offset₁ s₂ in
    if pag₁ == 0 then (false, p', pag₁, offset₁, s₁) else rest

-- The strings `argc - 1` down to 0 of an array; 0 if a page is missing. `p - len < 0` is false, since
-- `p` has no sign, so that nothing checks whether a string has room.
unfoldable pub copy_each :
    (fuel : ℕ)
    → (argc : ℕ) → (argv from_kmem p pag offset : ℕ) → Arguments
    → Outcome (ℕ × Arguments)
unfolding string_end copy_chars
copy_each fuel zero argv from_kmem p pag offset s = returns (p, s)
copy_each fuel (suc argc) argv from_kmem p pag offset s =
    let tmp = read32 (pointers_in from_kmem s) (argv + 4 * argc) in
    let next = string_end fuel (strings_in from_kmem s) tmp >>= λ end.
    let (all, p', pag', offset', s') = copy_chars from_kmem (end - tmp) end p pag offset s in
    let rest = copy_each fuel argc argv from_kmem p' pag' offset' s' in
    if all then rest else returns (0, s') in
    if tmp == 0 then panics else next

unfoldable pub copy_strings :
    (fuel : ℕ) → (argc argv p from_kmem : ℕ) → Arguments → Outcome (ℕ × Arguments)
unfolding copy_each
copy_strings fuel argc argv p from_kmem s =
    if p == 0 then returns (0, s) else copy_each fuel argc argv from_kmem p 0 0 s
