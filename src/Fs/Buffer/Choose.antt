-- ===== src/Fs/Buffer/Choose.antt =====
-- The choice of `getblk` among the buffers of the free list.
use linux.Base.{
  returns, Returns, Returns-weaken, ℕ, zero, suc, ◌+◌, ◌≤◌, ◌<◌, ◌≡◌, ◌≢◌, refl, sym, ◌∙◌, inl, inr,
  arith, Bool, Bool-cases, true, false, ltb, ◌==◌, ◌&&◌, ◌||◌, if◌then◌else◌,
}
use native.Mathlib.Decide.{ℕ_discrete}
use linux.Fs.Buffer.{Cache}
use linux.Fs.Buffer.Get.{badness, choose_free}

-- The buffer `k` places on in the free list.
unfoldable pub walk : ℕ → Cache → ℕ → ℕ
walk zero c tmp = tmp
walk (suc k) c tmp = walk k c (c.head tmp).b_next_free

-- The `n` places from `tmp` on are buffers, and after them comes the head of the list, for the first
-- time.
pub record IsRound (c : Cache) (tmp n : ℕ) : Type 0 where
  pub buffers : (k : ℕ) → k < n → walk k c tmp ≢ 0
  pub closed : walk n c tmp ≡ c.free_list
  pub first : (k : ℕ) → 1 ≤ k → k < n → walk k c tmp ≢ c.free_list

-- The best of `bh` and the unused buffers among `n` from `tmp` on; NULL only if there is none.
pub record IsBest (c : Cache) (tmp n bh best : ℕ) : Type 0 where
  pub unused : bh ≢ best → (best ≢ 0) × ((c.head best).b_count ≡ 0)
  pub no_worse : bh ≢ 0 → (best ≢ 0) × (badness (c.head best) ≤ badness (c.head bh))
  pub least :
      (k : ℕ)
      → k < n
      → (c.head (walk k c tmp)).b_count ≡ 0
      → (best ≢ 0) × (badness (c.head best) ≤ badness (c.head (walk k c tmp)))

IsRound-next :
    (c : Cache) (tmp n : ℕ)
    → IsRound c tmp (suc n)
    → (c.head tmp).b_next_free ≢ c.free_list
    → IsRound c (c.head tmp).b_next_free n
unfolding walk
IsRound-next c tmp n r h = record {
  buffers = λ k l. r.buffers (suc k) (omega arith);
  closed = r.closed;
  first = λ k l u. r.first (suc k) (omega arith) (omega arith);
}

round_ends :
    (c : Cache) (tmp n : ℕ) → IsRound c tmp (suc n) → (c.head tmp).b_next_free ≡ c.free_list → n ≡ 0
unfolding walk
round_ends c tmp zero r h = refl
round_ends c tmp (suc n) r h = absurd (r.first 1 (omega arith) (omega arith) h)

round_goes_on : (c : Cache) (tmp : ℕ) → IsRound c tmp 1 → (c.head tmp).b_next_free ≡ c.free_list
unfolding walk
round_goes_on c tmp r = r.closed

-- The better of the best so far and the buffer at hand.
abbrev pick : Cache → ℕ → ℕ → ℕ
pick c tmp bh =
    let t = c.head tmp in
    if t.b_count == 0 && (bh == 0 || ltb (badness t) (badness (c.head bh))) then tmp else bh

-- The loop stops early at a buffer of badness 0.
abbrev stops : Cache → ℕ → ℕ → Bool
stops c tmp bh =
    let t = c.head tmp in
    t.b_count == 0 && (bh == 0 || ltb (badness t) (badness (c.head bh))) && badness t == 0

pick-IsBest : (c : Cache) (tmp bh : ℕ) → tmp ≢ 0 → IsBest c tmp 1 bh (pick c tmp bh)
unfolding walk
pick-IsBest c tmp bh nz = record {
  unused = λ ne. (ground arith, ground arith);
  no_worse = λ h. (ground arith, ground arith);
  least = λ k l u.
      let z : k ≡ 0 = omega arith in
      let u' : (c.head tmp).b_count ≡ 0 = rw z at u in rw z (ground arith, ground arith);
}

IsBest-stop : (c : Cache) (tmp n bh : ℕ) → tmp ≢ 0 → stops c tmp bh ≡ true → IsBest c tmp n bh tmp
IsBest-stop c tmp n bh nz h = record {
  unused = λ ne. (nz, ground arith);
  no_worse = λ o. (nz, ground arith);
  least = λ k l u. (nz, ground arith);
}

least_suc :
    (k : ℕ) (c : Cache) (tmp n bh bh' best : ℕ)
    → IsBest c tmp 1 bh bh'
    → IsBest c (c.head tmp).b_next_free n bh' best
    → k < suc n
    → (c.head (walk k c tmp)).b_count ≡ 0
    → (best ≢ 0) × (badness (c.head best) ≤ badness (c.head (walk k c tmp)))
unfolding walk
least_suc zero c tmp n bh bh' best p q l u =
    let (nz, b) = p.least 0 (omega arith) u in
    let (nb, b') = q.no_worse nz in (nb, omega (arith, b, b'))
least_suc (suc k) c tmp n bh bh' best p q l u = q.least k (omega arith) u

IsBest-suc :
    (c : Cache) (tmp n bh bh' best : ℕ)
    → IsBest c tmp 1 bh bh'
    → IsBest c (c.head tmp).b_next_free n bh' best
    → IsBest c tmp (suc n) bh best
IsBest-suc c tmp n bh bh' best p q = record {
  unused = λ ne. elim (ℕ_discrete bh' best) [
    | yes e ↦ rw e at (p.unused (λ o. ne (o ∙ e)))
    | no o ↦ q.unused o
  ];
  no_worse =
      λ h. let (nz, l) = p.no_worse h in let (nb, l') = q.no_worse nz in (nb, omega (arith, l, l'));
  least = λ k l u. least_suc k c tmp n bh bh' best p q l u;
}

choose_free-stop :
    (fuel tmp bh : ℕ) (c : Cache)
    → stops c tmp bh ≡ true
    → choose_free (suc fuel) c tmp bh ≡ returns tmp
unfolding choose_free
choose_free-stop fuel tmp bh c h = ground arith

choose_free-last :
    (fuel tmp bh : ℕ) (c : Cache)
    → (c.head tmp).b_next_free ≡ c.free_list
    → choose_free (suc fuel) c tmp bh ≡ returns (pick c tmp bh)
unfolding choose_free
choose_free-last fuel tmp bh c h = ground arith

choose_free-next :
    (fuel tmp bh : ℕ) (c : Cache)
    → stops c tmp bh ≡ false
    → (c.head tmp).b_next_free ≢ c.free_list
    → choose_free (suc fuel) c tmp bh ≡ choose_free fuel c (c.head tmp).b_next_free (pick c tmp bh)
unfolding choose_free
choose_free-next fuel tmp bh c h e = ground arith

start_there : (c : Cache) (tmp n : ℕ) → IsRound c tmp (suc n) → tmp ≢ 0
unfolding walk
start_there c tmp n r = r.buffers 0 (omega arith)

choose_next :
    (fuel tmp n bh : ℕ) (c : Cache)
    → IsRound c tmp (suc n)
    → n < suc fuel
    → (c.head tmp).b_next_free ≢ c.free_list
    → ((tmp n bh : ℕ) (c : Cache)
        → IsRound c tmp (suc n)
        → n < fuel
        → Returns (IsBest c tmp (suc n) bh) (choose_free fuel c tmp bh))
    → Returns
        (IsBest c tmp (suc n) bh)
        (choose_free fuel c (c.head tmp).b_next_free (pick c tmp bh))
choose_next fuel tmp zero bh c r l ne rest = absurd (ne (round_goes_on c tmp r))
choose_next fuel tmp (suc n) bh c r l ne rest =
    Returns-weaken
      (λ best q.
        IsBest-suc c tmp (suc n) bh (pick c tmp bh) best
          (pick-IsBest c tmp bh (start_there c tmp (suc n) r)) q)
      (choose_free fuel c (c.head tmp).b_next_free (pick c tmp bh))
      (rest (c.head tmp).b_next_free n (pick c tmp bh) c (IsRound-next c tmp (suc n) r ne)
        (omega arith))

choose_from-IsBest :
    (fuel tmp n bh : ℕ) (c : Cache)
    → IsRound c tmp (suc n)
    → n < fuel
    → Returns (IsBest c tmp (suc n) bh) (choose_free fuel c tmp bh)
choose_from-IsBest zero tmp n bh c r l = absurd (omega arith)
choose_from-IsBest (suc fuel) tmp n bh c r l = elim (Bool-cases (stops c tmp bh)) [
  | inl stop ↦
      rw (choose_free-stop fuel tmp bh c stop)
        (IsBest-stop c tmp (suc n) bh (start_there c tmp n r) stop)
  | inr go ↦ elim (ℕ_discrete (c.head tmp).b_next_free c.free_list) [
    | yes e ↦
        rw (round_ends c tmp n r e, choose_free-last fuel tmp bh c e)
          (pick-IsBest c tmp bh (start_there c tmp n r))
    | no ne ↦
        rw (choose_free-next fuel tmp bh c go ne)
          (choose_next fuel tmp n bh c r l ne (choose_from-IsBest fuel))
  ]
]

-- What `getblk` chooses from a free list of `n` buffers: NULL only if all are in use, and otherwise
-- a buffer that is not, whose badness is the least of all that are not.
pub record IsChosen (c : Cache) (n best : ℕ) : Type 0 where
  pub unused : best ≢ 0 → (c.head best).b_count ≡ 0
  pub least :
      (k : ℕ)
      → k < n
      → (c.head (walk k c c.free_list)).b_count ≡ 0
      → (best ≢ 0) × (badness (c.head best) ≤ badness (c.head (walk k c c.free_list)))

-- The loop of `getblk` over a circular free list, of at most as many buffers as there are, ends after
-- one round with an unused buffer of the least badness (a dirty buffer is worse than a locked one),
-- or with NULL if all are in use.
pub choose_free-IsChosen :
    (n : ℕ) (c : Cache)
    → IsRound c c.free_list (suc n)
    → n ≤ c.nr_buffers
    → Returns (IsChosen c (suc n)) (choose_free (c.nr_buffers + 1) c c.free_list 0)
choose_free-IsChosen n c r l =
    let e : c.nr_buffers + 1 ≡ suc c.nr_buffers = omega arith in
    let best = choose_from-IsBest (suc c.nr_buffers) c.free_list n 0 c r (omega arith) in
    rw e (
      Returns-weaken
        (λ p b. record { unused = λ h. (b.unused (λ e. h (sym e))).1; least = b.least })
        (choose_free (suc c.nr_buffers) c c.free_list 0) best)
