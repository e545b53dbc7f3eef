-- ===== src/Kernel/Timer/Delays.antt =====
-- Lists of delays, each counted from the end of the one before it.
use linux.Base.{
  ℕ, ◌+◌, ◌-◌, ◌≤◌, ◌<◌, ◌≡◌, refl, ap, List, [], ◌∷◌, ◌++◌, ltb, if◌then◌else◌, arith, Bool-cases,
  inl, inr, ltb→lt,
}

-- A delay goes behind those that end before it, less what they take.
abbrev pub insert_delay : ℕ → ℕ → List (ℕ × ℕ) → List (ℕ × ℕ)
insert_delay j f [] = (j, f) ∷ []
insert_delay j f ((d, g) ∷ rest) =
    let later = insert_delay (j - d) f rest in
    if ltb d j then (d, g) ∷ later else (j, f) ∷ (d, g) ∷ rest

-- The ticks until the last of the delays ends.
abbrev pub total : List (ℕ × ℕ) → ℕ
total [] = 0
total ((d, g) ∷ rest) = d + total rest

-- The first of the delays, if there is one, lasts at least as long.
abbrev pub NotSooner : (delay : ℕ) → List (ℕ × ℕ) → Type 0
NotSooner delay [] = Unit
NotSooner delay ((d, g) ∷ rest) = delay ≤ d

-- The function `f` is in the list after exactly `j` ticks, behind the delays `before`, all of which
-- end sooner, and before those that do not; the other delays are as they were.
pub record IsDue (j f : ℕ) (old new : List (ℕ × ℕ)) : Type 0 where
  pub before : List (ℕ × ℕ)
  pub after : List (ℕ × ℕ)
  pub delay : ℕ
  pub old_list : old ≡ before ++ after
  pub new_list : new ≡ before ++ ((delay, f) ∷ after)
  pub due : total before + delay ≡ j
  pub positive : 1 ≤ delay
  pub not_sooner : NotSooner delay after

IsDue-suc :
    (d g j f : ℕ) (old new : List (ℕ × ℕ))
    → d < j
    → IsDue (j - d) f old new
    → IsDue j f ((d, g) ∷ old) ((d, g) ∷ new)
IsDue-suc d g j f old new l i = record {
  before = (d, g) ∷ i.before;
  after = i.after;
  delay = i.delay;
  old_list = ap (λ r. (d, g) ∷ r) i.old_list;
  new_list = ap (λ r. (d, g) ∷ r) i.new_list;
  due = omega (arith, i.due);
  positive = i.positive;
  not_sooner = i.not_sooner;
}

pub insert_delay-IsDue :
    (j f : ℕ) (old : List (ℕ × ℕ)) → 1 ≤ j → IsDue j f old (insert_delay j f old)
insert_delay-IsDue j f [] h = record {
  before = [];
  after = [];
  delay = j;
  old_list = refl;
  new_list = refl;
  due = omega arith;
  positive = h;
  not_sooner = tt;
}
insert_delay-IsDue j f ((d, g) ∷ old) h = elim (Bool-cases (ltb d j)) [
  | inl less ↦
      let l : d < j = ltb→lt d j less in
      rw less (
        IsDue-suc d g j f old (insert_delay (j - d) f old) l
          (insert_delay-IsDue (j - d) f old (omega arith)))
  | inr stop ↦ rw stop record {
    before = [];
    after = (d, g) ∷ old;
    delay = j;
    old_list = refl;
    new_list = refl;
    due = omega arith;
    positive = h;
    not_sooner = ground (arith, stop);
  }
]
