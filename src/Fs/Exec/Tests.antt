-- ===== src/Fs/Exec/Tests.antt =====
-- The arguments `ls`, `a` and the environment `x`.
use linux.Base.{ℕ, ◌≡◌, ◌%◌, ◌==◌, if◌then◌else◌, refl, arith, Returns, returns}
use native.Mathlib.Decide.{ℕ_discrete}
use linux.Fs.Exec.{create_tables, string_end}
use linux.Fs.Exec.Args.{IsString, AreStrings}
use linux.Fs.Exec.Layout.{IsLaidOut, create_tables-IsLaidOut}

abbrev strings : ℕ → ℕ
strings a =
    if a == 1000
    then 108
    else if a == 1001
    then 115
    else if a == 1003
    then 97
    else if a == 1005
    then 120
    else 0

abbrev places : ℕ → ℕ
places i = if i == 0 then 1000 else if i == 1 then 1003 else if i == 2 then 1005 else 1007

ls-IsString : IsString strings 1000 1003
ls-IsString = record {
  not_empty = omega arith;
  ends = refl;
  inside = λ a b c. ground (arith, b, c);
}

a-IsString : IsString strings 1003 1005
a-IsString = record { not_empty = omega arith; ends = refl; inside = λ a b c. ground (arith, b, c) }

x-IsString : IsString strings 1005 1007
x-IsString = record { not_empty = omega arith; ends = refl; inside = λ a b c. ground (arith, b, c) }

places-AreStrings : AreStrings strings 3 places
places-AreStrings i l = elim (ℕ_discrete i 0) [
  | yes e ↦ rw e ls-IsString
  | no n₀ ↦ elim (ℕ_discrete i 1) [
    | yes e ↦ rw e a-IsString
    | no n₁ ↦ let e : i ≡ 2 = omega arith in rw e x-IsString
  ]
]

create_tables-IsLaidOut_example :
    Returns
      (λ (sp, mem'). (sp % 4 ≡ 0) × IsLaidOut strings 2 1 places sp mem')
      (create_tables 7 (places 0) 2 1 strings)
create_tables-IsLaidOut_example =
    create_tables-IsLaidOut 7 2 1 strings places places-AreStrings (omega arith) (omega arith)
      (omega arith)

string_end_found : string_end 9 strings 1000 ≡ returns 1003
unfolding string_end
string_end_found = refl
