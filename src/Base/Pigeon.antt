-- ===== src/Base/Pigeon.antt =====
-- More numbers than places.
use linux.Base.{
  ℕ, zero, suc, ◌+◌, ◌-◌, ◌≤◌, ◌<◌, ◌≡◌, ◌≢◌, arith, ◌==◌, ==_iff, if◌then◌else◌, Bool,
}
use native.Mathlib.Decide.{ℕ_discrete}
use linux.Base.Loops.{find_up, find_up_passes, find_up_least}

-- Two of the places `f 0`, …, `f n` are the same.
abbrev pub Meets : ℕ → (ℕ → ℕ) → Type 0
Meets n f = (i : ℕ) × (j : ℕ) × (i < j) × (j ≤ n) × (f i ≡ f j)

-- The place `n` is given up: who has it takes `top`.
abbrev moved : ℕ → ℕ → ℕ → ℕ
moved n top x = if x == n then top else x

moved_eq : (n top x y : ℕ) → x ≢ top → y ≢ top → moved n top x ≡ moved n top y → x ≡ y
moved_eq n top x y hx hy e = ground arith

moved_bound : (n top x : ℕ) → x < suc n → top < suc n → x ≢ top → moved n top x < n
moved_bound n top x hx ht h = ground arith

pub pigeonhole : (n : ℕ) (f : ℕ → ℕ) → ((i : ℕ) → i ≤ n → f i < n) → Meets n f
pigeonhole zero f h = absurd (omega (arith, h 0 (omega arith)))
pigeonhole (suc n) f h =
    let top = f (suc n) in
    let test : ℕ → Bool = λ i. f i == top in
    let k = find_up 0 (suc n) test in
    elim (ℕ_discrete (k - n) 0) [
      | yes e ↦
          let found : k < 0 + suc n = omega arith in
          (k, suc n, omega arith, omega arith, (==_iff _ _).0 (find_up_passes 0 (suc n) test found))
      | no ne ↦
          let apart : (i : ℕ) → i ≤ n → f i ≢ top =
            λ i l e. ground (arith, find_up_least 0 (suc n) i test (omega arith) (omega arith)) in
          let (i, j, lt, le, e) =
            pigeonhole n (λ i. moved n top (f i))
              (λ i l.
                moved_bound n top (f i) (h i (omega arith)) (h (suc n) (omega arith))
                  (apart i l)) in
          (i, j, lt, omega arith, moved_eq n top (f i) (f j) (apart i (omega arith)) (apart j le) e)
    ]
