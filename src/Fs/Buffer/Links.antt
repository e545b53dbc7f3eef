-- ===== src/Fs/Buffer/Links.antt =====
-- What the work on the queues leaves alone: names, users and state of every buffer.
use linux.Base.{ℕ, ◌≡◌, refl, ◌∙◌, arith, Bool, true, false, ◌==◌, if◌then◌else◌, update}
use native.Mathlib.Decide.{ℕ_discrete}
use linux.Fs.Buffer.{
  BufferHead, Cache, with_head, hashfn, put_last, put_hashed, insert_into_queues, unhash,
}

-- The fields other than the links of the queues.
pub record SameBuffer (b b' : BufferHead) : Type 0 where
  pub dev : b'.b_dev ≡ b.b_dev
  pub blocknr : b'.b_blocknr ≡ b.b_blocknr
  pub count : b'.b_count ≡ b.b_count
  pub dirt : b'.b_dirt ≡ b.b_dirt
  pub uptodate : b'.b_uptodate ≡ b.b_uptodate

SameBuffer-refl : (b : BufferHead) → SameBuffer b b
SameBuffer-refl b = record {
  dev = refl;
  blocknr = refl;
  count = refl;
  dirt = refl;
  uptodate = refl;
}

SameBuffer-trans : (a b c : BufferHead) → SameBuffer a b → SameBuffer b c → SameBuffer a c
SameBuffer-trans a b c p q = record {
  dev = q.dev ∙ p.dev;
  blocknr = q.blocknr ∙ p.blocknr;
  count = q.count ∙ p.count;
  dirt = q.dirt ∙ p.dirt;
  uptodate = q.uptodate ∙ p.uptodate;
}

-- Only links and queues have changed.
abbrev pub KeepsNames : Cache → Cache → Type 0
KeepsNames c c' = (p : ℕ) → SameBuffer (c.head p) (c'.head p)

-- Links that are set keep the rest.
abbrev SetsLinks : (BufferHead → BufferHead) → Type 0
SetsLinks f = (b : BufferHead) → SameBuffer b (f b)

SameBuffer-with_head :
    (bh p : ℕ) (f : BufferHead → BufferHead) (c : Cache)
    → SetsLinks f
    → SameBuffer (c.head p) ((with_head bh f c).head p)
SameBuffer-with_head bh p f c h = elim (ℕ_discrete p bh) [
  | yes e ↦
      let here : (with_head bh f c).head p ≡ f (c.head p) = ground (arith, e) in
      rw here (h (c.head p))
  | no ne ↦
      let there : (with_head bh f c).head p ≡ c.head p = ground arith in
      rw there (SameBuffer-refl (c.head p))
]

KeepsNames-refl : (c : Cache) → KeepsNames c c
KeepsNames-refl c p = SameBuffer-refl (c.head p)

pub KeepsNames-trans : (a b c : Cache) → KeepsNames a b → KeepsNames b c → KeepsNames a c
KeepsNames-trans a b c h k p = SameBuffer-trans (a.head p) (b.head p) (c.head p) (h p) (k p)

-- One more assignment to a link.
KeepsNames-then :
    (bh : ℕ) (f : BufferHead → BufferHead) (a b : Cache)
    → SetsLinks f
    → KeepsNames a b
    → KeepsNames a (with_head bh f b)
KeepsNames-then bh f a b h k p =
    SameBuffer-trans (a.head p) (b.head p) ((with_head bh f b).head p) (k p)
      (SameBuffer-with_head bh p f b h)

KeepsNames-if :
    (t : Bool) (a b c : Cache) → KeepsNames a b → KeepsNames a c → KeepsNames a (if t then b else c)
KeepsNames-if true a b c h k = h
KeepsNames-if false a b c h k = k

set_prev-SetsLinks : (q : ℕ) → SetsLinks (λ b. record b { b_prev = q })
set_prev-SetsLinks q b = record {
  dev = refl;
  blocknr = refl;
  count = refl;
  dirt = refl;
  uptodate = refl;
}

set_next-SetsLinks : (q : ℕ) → SetsLinks (λ b. record b { b_next = q })
set_next-SetsLinks q b = record {
  dev = refl;
  blocknr = refl;
  count = refl;
  dirt = refl;
  uptodate = refl;
}

set_both-SetsLinks : (q r : ℕ) → SetsLinks (λ b. record b { b_prev = q; b_next = r })
set_both-SetsLinks q r b = record {
  dev = refl;
  blocknr = refl;
  count = refl;
  dirt = refl;
  uptodate = refl;
}

set_prev_free-SetsLinks : (q : ℕ) → SetsLinks (λ b. record b { b_prev_free = q })
set_prev_free-SetsLinks q b = record {
  dev = refl;
  blocknr = refl;
  count = refl;
  dirt = refl;
  uptodate = refl;
}

set_next_free-SetsLinks : (q : ℕ) → SetsLinks (λ b. record b { b_next_free = q })
set_next_free-SetsLinks q b = record {
  dev = refl;
  blocknr = refl;
  count = refl;
  dirt = refl;
  uptodate = refl;
}

set_free-SetsLinks : (q r : ℕ) → SetsLinks (λ b. record b { b_next_free = q; b_prev_free = r })
set_free-SetsLinks q r b = record {
  dev = refl;
  blocknr = refl;
  count = refl;
  dirt = refl;
  uptodate = refl;
}

pub put_last-KeepsNames : (bh : ℕ) (c : Cache) → KeepsNames c (put_last bh c)
unfolding put_last
put_last-KeepsNames bh c =
    let first = c.free_list in
    let last = (c.head first).b_prev_free in
    let c₁ = with_head bh (λ b. record b { b_next_free = first; b_prev_free = last }) c in
    let p = (c₁.head first).b_prev_free in
    let c₂ = with_head p (λ b. record b { b_next_free = bh }) c₁ in
    KeepsNames-then first (λ b. record b { b_prev_free = bh }) c c₂ (set_prev_free-SetsLinks bh)
      (KeepsNames-then p (λ b. record b { b_next_free = bh }) c c₁ (set_next_free-SetsLinks bh)
        (KeepsNames-then bh (λ b. record b { b_next_free = first; b_prev_free = last }) c c
          (set_free-SetsLinks first last) (KeepsNames-refl c)))

put_hashed-KeepsNames : (bh : ℕ) (c : Cache) → KeepsNames c (put_hashed bh c)
unfolding put_hashed
put_hashed-KeepsNames bh c =
    let c₁ = with_head bh (λ b. record b { b_prev = 0; b_next = 0 }) c in
    let b = c₁.head bh in
    let h = hashfn b.b_dev b.b_blocknr in
    let next = c₁.hash_table h in
    let c₂ = with_head bh (λ b. record b { b_next = next }) c₁ in
    let c₃ = record c₂ { hash_table = update c₂.hash_table h bh } in
    let cleared =
      KeepsNames-then bh (λ b. record b { b_prev = 0; b_next = 0 }) c c (set_both-SetsLinks 0 0)
        (KeepsNames-refl c) in
    let linked =
      KeepsNames-then bh (λ b. record b { b_next = next }) c c₁ (set_next-SetsLinks next) cleared in
    KeepsNames-if (b.b_dev == 0) c c₁
      (with_head (c₃.head bh).b_next (λ n. record n { b_prev = bh }) c₃) cleared
      (KeepsNames-then (c₃.head bh).b_next (λ n. record n { b_prev = bh }) c c₃
        (set_prev-SetsLinks bh) linked)

pub insert-KeepsNames : (bh : ℕ) (c : Cache) → KeepsNames c (insert_into_queues bh c)
unfolding insert_into_queues
insert-KeepsNames bh c =
    KeepsNames-trans c (put_last bh c) (put_hashed bh (put_last bh c)) (put_last-KeepsNames bh c)
      (put_hashed-KeepsNames bh (put_last bh c))

pub unhash-KeepsNames : (bh : ℕ) (c : Cache) → KeepsNames c (unhash bh c)
unfolding unhash
unhash-KeepsNames bh c =
    let b = c.head bh in
    let c₁' = with_head b.b_next (λ n. record n { b_prev = b.b_prev }) c in
    let c₁ = if b.b_next == 0 then c else c₁' in
    let c₂' = with_head b.b_prev (λ p. record p { b_next = b.b_next }) c₁ in
    let c₂ = if b.b_prev == 0 then c₁ else c₂' in
    let h = hashfn b.b_dev b.b_blocknr in
    let k₁ = KeepsNames-if (b.b_next == 0) c c c₁' (KeepsNames-refl c) (
      KeepsNames-then b.b_next (λ n. record n { b_prev = b.b_prev }) c c
        (set_prev-SetsLinks b.b_prev) (KeepsNames-refl c)) in
    let k₂ = KeepsNames-if (b.b_prev == 0) c c₁ c₂' k₁ (
      KeepsNames-then b.b_prev (λ p. record p { b_next = b.b_next }) c c₁
        (set_next-SetsLinks b.b_next) k₁) in
    KeepsNames-if (c₂.hash_table h == bh) c
      (record c₂ { hash_table = update c₂.hash_table h b.b_next }) c₂ k₂ k₂

-- The cache that `unfree` returns.
abbrev pub unlinked : ℕ → Cache → Cache
unlinked bh c =
    let b = c.head bh in
    let c₁ = with_head b.b_prev_free (λ p. record p { b_next_free = b.b_next_free }) c in
    let c₂ = with_head b.b_next_free (λ n. record n { b_prev_free = b.b_prev_free }) c₁ in
    if c₂.free_list == bh then record c₂ { free_list = b.b_next_free } else c₂

pub unlinked-KeepsNames : (bh : ℕ) (c : Cache) → KeepsNames c (unlinked bh c)
unlinked-KeepsNames bh c =
    let b = c.head bh in
    let f = λ (p : BufferHead). record p { b_next_free = b.b_next_free } in
    let g = λ (n : BufferHead). record n { b_prev_free = b.b_prev_free } in
    let c₁ = with_head b.b_prev_free f c in
    let c₂ = with_head b.b_next_free g c₁ in
    let k = KeepsNames-then b.b_next_free g c c₁ (set_prev_free-SetsLinks b.b_prev_free) (
      KeepsNames-then b.b_prev_free f c c (set_next_free-SetsLinks b.b_next_free)
        (KeepsNames-refl c)) in
    KeepsNames-if (c₂.free_list == bh) c (record c₂ { free_list = b.b_next_free }) c₂ k k
