-- ===== src/Kernel/Tty/Queue.antt =====
-- include/linux/tty.h: the ring of a queue holds a sequence of characters; GETCH takes its first
-- one, PUTCH adds a last one, DEC of the head takes the last one away.
use linux.Base.{
  ℕ, zero, suc, ◌+◌, ◌-◌, ◌%◌, ◌^◌, ◌<◌, ◌≡◌, ◌≢◌, refl, sym, ◌∙◌, ap, arith, ◌==◌, update, false,
  List, [], ◌∷◌, ◌++◌,
}
use linux.Kernel.Tty.{TtyQueue, is_empty, is_full, chars, left, last, getch, putch, drop_last}

-- The indices of a queue are in its buffer.
pub record IsQueue (q : TtyQueue) : Type 0 where
  pub head_lt : q.head < 1024
  pub tail_lt : q.tail < 1024

-- `n` characters of a ring from index `a` on.
abbrev pub window : (buf : ℕ → ℕ) → (a n : ℕ) → List ℕ
window buf a zero = []
window buf a (suc n) = buf (a % 1024) ∷ window buf (a + 1) n

-- The sequence that a queue stands for.
abbrev pub contents : TtyQueue → List ℕ
contents q = window q.buf q.tail (chars q)

window-snoc :
    (buf : ℕ → ℕ) (a n : ℕ) → window buf a (suc n) ≡ window buf a n ++ (buf ((a + n) % 1024) ∷ [])
window-snoc buf a zero = let e : a ≡ a + 0 = omega arith in ap (λ i. buf (i % 1024) ∷ []) e
window-snoc buf a (suc n) =
    let e : a + 1 + n ≡ a + suc n = omega arith in
    ap (λ xs. buf (a % 1024) ∷ xs) (window-snoc buf (a + 1) n)
    ∙ ap (λ i. buf (a % 1024) ∷ (window buf (a + 1) n ++ (buf (i % 1024) ∷ []))) e

window-mod : (buf : ℕ → ℕ) (a n : ℕ) → window buf (a % 1024) n ≡ window buf a n
window-mod buf a zero = refl
window-mod buf a (suc n) =
    let e : a % 1024 % 1024 ≡ a % 1024 = omega arith in
    let f : (a % 1024 + 1) % 1024 ≡ (a + 1) % 1024 = omega arith in
    rw e (
      ap (λ xs. buf (a % 1024) ∷ xs)
        (sym (window-mod buf (a % 1024 + 1) n)
          ∙ ap (λ i. window buf i n) f
          ∙ window-mod buf (a + 1) n))

window-update :
    (buf : ℕ → ℕ) (h c a n : ℕ)
    → ((i : ℕ) → i < n → (a + i) % 1024 ≢ h)
    → window (update buf h c) a n ≡ window buf a n
window-update buf h c a zero apart = refl
window-update buf h c a (suc n) apart =
    let ne : a % 1024 ≢ h = λ e. apart 0 (omega arith) (omega (arith, e)) in
    let here : (a % 1024 == h) ≡ false = ground (arith, ne) in
    let later =
      window-update buf h c (a + 1) n (λ i l e. apart (suc i) (omega arith) (omega (arith, e))) in
    rw here (ap (λ xs. buf (a % 1024) ∷ xs) later)

-- The characters of a queue with room lie before its head.
before_head : (q : TtyQueue) → IsQueue q → (i : ℕ) → i < chars q → (q.tail + i) % 1024 ≢ q.head
before_head q h i l e = omega (arith, l, e, h.head_lt, h.tail_lt)

at_head : (q : TtyQueue) → IsQueue q → (q.tail + chars q) % 1024 ≡ q.head
at_head q h = omega (arith, h.head_lt, h.tail_lt)

putch-chars : (c : ℕ) (q : TtyQueue) → IsQueue q → left q ≢ 0 → chars (putch c q) ≡ suc (chars q)
unfolding putch
putch-chars c q h room = omega (arith, room, h.head_lt, h.tail_lt)

put_at : (buf : ℕ → ℕ) (i h c : ℕ) → i ≡ h → update buf h c i ≡ c
put_at buf i h c e = ground (arith, e)

putch-contents :
    (c : ℕ) (q : TtyQueue)
    → IsQueue q
    → is_full q ≡ false
    → contents (putch c q) ≡ contents q ++ (c ∷ [])
unfolding putch
putch-contents c q h full =
    let room : left q ≢ 0 = ground (arith, full) in
    ap (window (update q.buf q.head c) q.tail) (putch-chars c q h room)
    ∙ window-snoc (update q.buf q.head c) q.tail (chars q)
    ∙ ap (λ xs. xs ++ (update q.buf q.head c ((q.tail + chars q) % 1024) ∷ []))
        (window-update q.buf q.head c q.tail (chars q) (before_head q h))
    ∙ ap (λ d. contents q ++ (d ∷ []))
        (put_at q.buf ((q.tail + chars q) % 1024) q.head c (at_head q h))

getch-contents :
    (q : TtyQueue)
    → IsQueue q
    → is_empty q ≡ false
    → let (c, q') = getch q in contents q ≡ c ∷ contents q'
unfolding getch
getch-contents q h some =
    let ne : q.head ≢ q.tail = ground (arith, some) in
    let e : chars q ≡ suc (chars (getch q).1) = omega (arith, ne, h.head_lt, h.tail_lt) in
    let t : q.tail % 1024 ≡ q.tail = omega (arith, h.tail_lt) in
    ap (window q.buf q.tail) e
    ∙ ap (λ i. q.buf i ∷ window q.buf (q.tail + 1) (chars (getch q).1)) t
    ∙ ap (λ xs. q.buf q.tail ∷ xs) (sym (window-mod q.buf (q.tail + 1) (chars (getch q).1)))

drop_last-contents :
    (q : TtyQueue)
    → IsQueue q
    → is_empty q ≡ false
    → contents q ≡ contents (drop_last q) ++ (last q ∷ [])
unfolding drop_last last
drop_last-contents q h some =
    let ne : q.head ≢ q.tail = ground (arith, some) in
    let e : chars q ≡ suc (chars (drop_last q)) = omega (arith, ne, h.head_lt, h.tail_lt) in
    let t : (q.tail + chars (drop_last q)) % 1024 ≡ (q.head + 2 ^ 32 - 1) % 1024 =
      omega (arith, ne, h.head_lt, h.tail_lt) in
    ap (window q.buf q.tail) e
    ∙ window-snoc q.buf q.tail (chars (drop_last q))
    ∙ ap (λ i. contents (drop_last q) ++ (q.buf i ∷ [])) t

pub putch-IsQueue : (c : ℕ) (q : TtyQueue) → IsQueue q → IsQueue (putch c q)
unfolding putch
putch-IsQueue c q h = record { head_lt = omega arith; tail_lt = h.tail_lt }

pub getch-IsQueue : (q : TtyQueue) → IsQueue q → IsQueue (getch q).1
unfolding getch
getch-IsQueue q h = record { head_lt = h.head_lt; tail_lt = omega arith }

pub drop_last-IsQueue : (q : TtyQueue) → IsQueue q → IsQueue (drop_last q)
unfolding drop_last
drop_last-IsQueue q h = record { head_lt = omega arith; tail_lt = h.tail_lt }

-- A queue with indices in its buffer implements a sequence of characters that is taken from at both
-- ends: PUTCH into a queue with room adds a last character, GETCH from one that is not empty takes
-- the first, and DEC of its head takes the last, which LAST reads. The indices stay in the buffer.
pub IsQueue-Refines :
    (c : ℕ) (q : TtyQueue)
    → IsQueue q
    → (is_full q ≡ false → IsQueue (putch c q) × (contents (putch c q) ≡ contents q ++ (c ∷ [])))
      × (is_empty q ≡ false
          → let (first, q') = getch q in IsQueue q' × (contents q ≡ first ∷ contents q'))
      × (is_empty q ≡ false
          → IsQueue (drop_last q) × (contents q ≡ contents (drop_last q) ++ (last q ∷ [])))
IsQueue-Refines c q h = (
  λ room. (putch-IsQueue c q h, putch-contents c q h room),
  λ some. (getch-IsQueue q h, getch-contents q h some),
  λ some. (drop_last-IsQueue q h, drop_last-contents q h some),
)
