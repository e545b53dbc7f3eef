-- ===== src/Kernel/Tty/Drained.antt =====
-- kernel/chr_drv/tty_io.c: `copy_to_cooked` goes on until there is no input or no room.
use linux.Base.{
  ℕ, zero, suc, ◌≤◌, ◌<◌, ◌≡◌, ◌≢◌, ◌∙◌, inl, inr, refl, arith, false, Bool-cases, Option-cases,
  returns, Returns, Returns->>=, Returns-weaken, ◌&&◌, ap,
}
use linux.Kernel.Sched.{wake_up}
use linux.Kernel.Tty.{
  TtyQueue, TtyStruct, is_empty, chars, getch, drop_last, has, is_canon, is_char, kill_char,
  erase_char, stop_char, start_char, intr_char, quit_char, isig,
}
use linux.Kernel.Tty.Queue.{IsQueue, getch-IsQueue, putch-IsQueue, drop_last-IsQueue}
use linux.Kernel.Tty.Cooked.{
  Line, with_tty, count_line, translate, at_line_start, rub_out, kill_line, echo_char, keep_char,
  tty_intr, edit, cook_one, can_cook, cook, copy_to_cooked,
}

-- The indices of the read queue and of the secondary queue are in their buffers.
abbrev pub AreQueues : TtyStruct → Type 0
AreQueues t = IsQueue t.read_q × IsQueue t.secondary

-- Only the write queue, and what the tasks do, depends on `write`.
abbrev pub Leaves : (Line → Line) → Type 0
Leaves write =
    (s : Line) → ((write s).tty.read_q ≡ s.tty.read_q) × ((write s).tty.secondary ≡ s.tty.secondary)

-- The read queue is a given one, and the secondary queue is in order.
abbrev HasRead : TtyQueue → Line → Type 0
HasRead q s = (s.tty.read_q ≡ q) × IsQueue s.tty.secondary

getch-chars : (q : TtyQueue) → IsQueue q → is_empty q ≡ false → suc (chars (getch q).1) ≡ chars q
unfolding getch
getch-chars q h filled =
    let ne : q.head ≢ q.tail = ground (arith, filled) in omega (arith, ne, h.head_lt, h.tail_lt)

drop_last-chars :
    (q : TtyQueue) → IsQueue q → is_empty q ≡ false → suc (chars (drop_last q)) ≡ chars q
unfolding drop_last
drop_last-chars q h filled =
    let ne : q.head ≢ q.tail = ground (arith, filled) in omega (arith, ne, h.head_lt, h.tail_lt)

count_line-IsQueue :
    (c : ℕ) (t : TtyStruct) → IsQueue t.secondary → IsQueue (count_line c t).secondary
count_line-IsQueue c t h = record {
  head_lt = ground (arith, h.head_lt);
  tail_lt = ground (arith, h.tail_lt);
}

not_at_start : (t : TtyStruct) → at_line_start t ≡ false → is_empty t.secondary ≡ false
unfolding at_line_start
not_at_start t h = ground (arith, h)

tty_intr-tty : (mask : ℕ) (s : Line) → (tty_intr mask s).tty ≡ s.tty
unfolding tty_intr
tty_intr-tty mask s = ground arith

module _ (write : Line → Line) (fuel : ℕ) (leaves : Leaves write) where
  rub_out-read_q : (s : Line) → (rub_out write fuel s).tty.read_q ≡ s.tty.read_q
  unfolding rub_out
  rub_out-read_q s = elim (Bool-cases (has s.tty.c_lflag 8)) [
    | inl e ↦ rw e ((leaves _).0 ∙ ground arith)
    | inr e ↦ rw e refl
  ]

  rub_out-secondary : (s : Line) → (rub_out write fuel s).tty.secondary ≡ drop_last s.tty.secondary
  unfolding rub_out
  rub_out-secondary s = elim (Bool-cases (has s.tty.c_lflag 8)) [
    | inl e ↦ rw e (ap drop_last ((leaves _).1 ∙ ground arith))
    | inr e ↦ rw e refl
  ]

  echo_char-read_q : (c : ℕ) (s : Line) → (echo_char write fuel c s).tty.read_q ≡ s.tty.read_q
  unfolding echo_char
  echo_char-read_q c s = (leaves _).0 ∙ ground arith

  echo_char-secondary :
      (c : ℕ) (s : Line) → (echo_char write fuel c s).tty.secondary ≡ s.tty.secondary
  unfolding echo_char
  echo_char-secondary c s = (leaves _).1 ∙ ground arith

  keep_char-HasRead :
      (c : ℕ) (s : Line) → IsQueue s.tty.secondary → HasRead s.tty.read_q (keep_char write fuel c s)
  unfolding keep_char
  keep_char-HasRead c s h =
      let counted = with_tty (count_line c) s in
      let q = count_line-IsQueue c s.tty h in
      elim (Bool-cases (has s.tty.c_lflag 8)) [
        | inl e ↦ rw e (
          echo_char-read_q c counted ∙ ground arith,
          rw (echo_char-secondary c counted) (putch-IsQueue c (count_line c s.tty).secondary q),
        )
        | inr e ↦ rw e (ground arith, putch-IsQueue c (count_line c s.tty).secondary q)
      ]

  rub_out-HasRead :
      (s : Line) → IsQueue s.tty.secondary → HasRead s.tty.read_q (rub_out write fuel s)
  rub_out-HasRead s h =
      (rub_out-read_q s, rw (rub_out-secondary s) (drop_last-IsQueue s.tty.secondary h))

  kill_line-HasRead :
      (n : ℕ) (s : Line)
      → IsQueue s.tty.secondary
      → chars s.tty.secondary < n
      → Returns (HasRead s.tty.read_q) (kill_line write fuel n s)
  unfolding kill_line
  kill_line-HasRead zero s h l = absurd (omega arith)
  kill_line-HasRead (suc n) s h l = elim (Bool-cases (at_line_start s.tty)) [
    | inl stop ↦ rw stop (refl, h)
    | inr go ↦
        let filled : is_empty s.tty.secondary ≡ false = not_at_start s.tty go in
        let (same, h') = rub_out-HasRead s h in
        let fewer : chars (rub_out write fuel s).tty.secondary < n =
          rw (rub_out-secondary s) (omega (arith, drop_last-chars s.tty.secondary h filled, l)) in
        rw go (
          Returns-weaken (λ s' (e, q). (e ∙ same, q))
            (kill_line write fuel n (rub_out write fuel s))
            (kill_line-HasRead n (rub_out write fuel s) h' fewer))
  ]

  intr-HasRead :
      (mask : ℕ) (s : Line) → IsQueue s.tty.secondary → HasRead s.tty.read_q (tty_intr mask s)
  intr-HasRead mask s h = rw (tty_intr-tty mask s) (refl, h)

  edit-HasRead :
      (c : ℕ) (s : Line)
      → IsQueue s.tty.secondary
      → 1024 ≤ fuel
      → Returns (HasRead s.tty.read_q) (edit write fuel c s)
  unfolding edit
  edit-HasRead c s h l =
      let t = s.tty in
      elim (Bool-cases (is_canon t && is_char c (kill_char t))) [
        | inl e ↦ rw e (kill_line-HasRead fuel s h (omega (arith, l)))
        | inr e₁ ↦ elim (Bool-cases (is_canon t && is_char c (erase_char t))) [
          | inl e ↦ elim (Bool-cases (at_line_start t)) [
            | inl stop ↦ rw (e₁, e, stop) (refl, h)
            | inr go ↦ rw (e₁, e, go) (rub_out-HasRead s h)
          ]
          | inr e₂ ↦ elim (Bool-cases (is_canon t && is_char c (stop_char t))) [
            | inl e ↦ rw (e₁, e₂, e) (refl, h)
            | inr e₃ ↦ elim (Bool-cases (is_canon t && is_char c (start_char t))) [
              | inl e ↦ rw (e₁, e₂, e₃, e) (refl, h)
              | inr e₄ ↦ elim (Bool-cases (has t.c_lflag isig && is_char c (intr_char t))) [
                | inl e ↦ rw (e₁, e₂, e₃, e₄, e) (intr-HasRead _ s h)
                | inr e₅ ↦ elim (Bool-cases (has t.c_lflag isig && is_char c (quit_char t))) [
                  | inl e ↦ rw (e₁, e₂, e₃, e₄, e₅, e) (intr-HasRead _ s h)
                  | inr e₆ ↦ rw (e₁, e₂, e₃, e₄, e₅, e₆) (keep_char-HasRead c s h)
                ]
              ]
            ]
          ]
        ]
      ]

  cook_one-HasRead :
      (s : Line)
      → IsQueue s.tty.secondary
      → 1024 ≤ fuel
      → Returns (HasRead (getch s.tty.read_q).1) (cook_one write fuel s)
  unfolding cook_one
  cook_one-HasRead s h l = elim (Option-cases (translate s.tty (getch s.tty.read_q).0)) [
    | inl dropped ↦ rw (cook_one, dropped) (refl, h)
    | inr (c, kept) ↦
        rw (cook_one, kept)
          (edit-HasRead c (with_tty (λ t. record t { read_q = (getch s.tty.read_q).1 }) s) h l)
  ]

  cook-ends :
      (n : ℕ) (s : Line)
      → AreQueues s.tty
      → chars s.tty.read_q < n
      → 1024 ≤ fuel
      → Returns (λ s'. AreQueues s'.tty × (can_cook s'.tty ≡ false)) (cook write fuel n s)
  unfolding cook
  cook-ends zero s h l f = absurd (omega arith)
  cook-ends (suc n) s (r, q) l f = elim (Bool-cases (can_cook s.tty)) [
    | inl more ↦
        let filled : is_empty s.tty.read_q ≡ false = ground (arith, more) in
        let fewer : chars (getch s.tty.read_q).1 < n =
          omega (arith, getch-chars s.tty.read_q r filled, l) in
        rw more (
          Returns->>= (HasRead (getch s.tty.read_q).1)
            (λ s'. AreQueues s'.tty × (can_cook s'.tty ≡ false)) (cook_one write fuel s)
            (λ s'. cook write fuel n s') (cook_one-HasRead s q f)
            (λ s' (e, q'). cook-ends n s' (rw e (getch-IsQueue s.tty.read_q r), q') (rw e fewer) f))
    | inr done ↦ rw done ((r, q), done)
  ]

  -- For a terminal whose `write` leaves its read queue and its secondary queue alone, as that of the
  -- serial lines does, `copy_to_cooked` returns after at most 1024 rounds of each of its loops: it has
  -- taken characters until none is left in the read queue or the secondary queue is full, and the
  -- indices of both queues are in their buffers, as they were before.
  pub copy_to_cooked-ends :
      (s : Line)
      → AreQueues s.tty
      → 1024 ≤ fuel
      → Returns (λ s'. AreQueues s'.tty × (can_cook s'.tty ≡ false)) (copy_to_cooked write fuel s)
  unfolding copy_to_cooked
  copy_to_cooked-ends s h f =
      Returns->>= (λ s'. AreQueues s'.tty × (can_cook s'.tty ≡ false))
        (λ s'. AreQueues s'.tty × (can_cook s'.tty ≡ false)) (cook write fuel fuel s)
        (λ s'. returns (record s' { tasks = wake_up s'.tty.secondary.proc_list s'.tasks }))
        (cook-ends fuel s h (omega (arith, f)) f) (λ s' done. done)
