-- ===== src/Fs/Pipe/Fifo.antt =====
-- `read_pipe` and `write_pipe` when they need not wait.
use linux.Base.{
  ℕ, zero, suc, ◌+◌, ◌-◌, ◌≤◌, ◌<◌, ◌≡◌, ◌≢◌, ◌⊎◌, inl, inr, refl, ◌∙◌, ap, min, arith, Returns,
  Returns-weaken, returns,
}
use native.Mathlib.Decide.{ℕ_discrete}
use linux.Fs.Pipe.{PipeSystem, page_size, pipe_size, wake, read_chunk, read_from, read_pipe}
use linux.Fs.Pipe.Ring.{IsPipe, IsRead, byte_at, read_chunk-IsRead}

IsRead-zero : (buf : ℕ) (s : PipeSystem) → IsPipe s.inode → IsRead buf 0 s (wake s)
IsRead-zero buf s p = record {
  pipe = p;
  length = omega arith;
  taken = λ i h. absurd (omega arith);
  left = λ i. let e : i ≡ 0 + i = omega arith in ap (byte_at s.inode) e;
  others = λ a h. refl;
  users = refl;
}

taken-split :
    (a b buf i : ℕ) (s s₁ s₂ : PipeSystem)
    → IsRead buf a s s₁
    → IsRead (buf + a) b s₁ s₂
    → i < a + b
    → s₂.user (buf + i) ≡ byte_at s.inode i
taken-split a b buf i s s₁ s₂ r q h = elim (ℕ_discrete (suc i - a) 0) [
  | yes e ↦ q.others (buf + i) (omega arith) ∙ r.taken i (omega arith)
  | no ne ↦
      let here : buf + i ≡ buf + a + (i - a) = omega arith in
      let there : a + (i - a) ≡ i = omega arith in
      ap s₂.user here ∙ q.taken (i - a) (omega arith) ∙ r.left (i - a) ∙ ap (byte_at s.inode) there
]

IsRead-trans :
    (a b buf : ℕ) (s s₁ s₂ : PipeSystem)
    → IsRead buf a s s₁
    → IsRead (buf + a) b s₁ s₂
    → IsRead buf (a + b) s s₂
IsRead-trans a b buf s s₁ s₂ r q = record {
  pipe = q.pipe;
  length = omega (arith, r.length, q.length);
  taken = λ i h. taken-split a b buf i s s₁ s₂ r q h;
  left = λ i.
      let e : a + (b + i) ≡ (a + b) + i = omega arith in
      q.left i ∙ r.left (b + i) ∙ ap (byte_at s.inode) e;
  others = λ x h. q.others x (omega arith) ∙ r.others x h;
  users = q.users ∙ r.users;
}

abbrev chunk_read : PipeSystem → ℕ → ℕ
chunk_read s count = min (min (page_size - s.inode.pipe_tail) count) (pipe_size s.inode)

read_from-chunk :
    (fuel buf count read : ℕ) (resume : ℕ → PipeSystem → PipeSystem) (s : PipeSystem)
    → count ≢ 0
    → pipe_size s.inode ≢ 0
    → let chars = chunk_read s count in
      read_from (suc fuel) resume buf count read s
      ≡ read_from fuel resume (buf + chars) (count - chars) (read + chars) (read_chunk chars buf s)
unfolding read_from
read_from-chunk fuel buf count read resume s nc ns = ground arith

read_from-end :
    (fuel buf count read : ℕ) (resume : ℕ → PipeSystem → PipeSystem) (s : PipeSystem)
    → (count ≡ 0) ⊎ ((pipe_size s.inode ≡ 0) × (s.inode.i_count ≢ 2))
    → read_from (suc fuel) resume buf count read s ≡ returns (read, wake s)
unfolding read_from
read_from-end fuel buf count read resume s (inl e) = ground arith
read_from-end fuel buf count read resume s (inr e) = ground arith

-- The result of a read that does not wait.
abbrev pub HasRead : (buf count read : ℕ) → PipeSystem → ℕ × PipeSystem → Type 0
HasRead buf count read s (r, s') =
    let n = min count (pipe_size s.inode) in (r ≡ read + n) × IsRead buf n s s'

-- A read does not wait if the ring has enough bytes or the pipe has no writer.
abbrev pub NeedsNoWriter : ℕ → PipeSystem → Type 0
NeedsNoWriter count s = (count ≤ pipe_size s.inode) ⊎ (s.inode.i_count ≢ 2)

HasRead-end :
    (buf count read : ℕ) (s : PipeSystem)
    → IsPipe s.inode
    → (count ≡ 0) ⊎ (pipe_size s.inode ≡ 0)
    → HasRead buf count read s (read, wake s)
HasRead-end buf count read s p o =
    let z : min count (pipe_size s.inode) ≡ 0 = omega arith in
    (omega (arith, z), rw z (IsRead-zero buf s p))

HasRead-chunk :
    (chars buf count read : ℕ) (s s₁ : PipeSystem) (out : ℕ × PipeSystem)
    → chars ≤ count
    → chars ≤ pipe_size s.inode
    → IsRead buf chars s s₁
    → HasRead (buf + chars) (count - chars) (read + chars) s₁ out
    → HasRead buf count read s out
HasRead-chunk chars buf count read s s₁ (r, s') lc ls rd (e, q) =
    let n : chars + min (count - chars) (pipe_size s₁.inode) ≡ min count (pipe_size s.inode) =
      omega (arith, rd.length) in
    (omega (arith, e, n), rw (← n) (IsRead-trans chars _ buf s s₁ s' rd q))

NeedsNoWriter-after :
    (chars buf count : ℕ) (s s₁ : PipeSystem)
    → IsRead buf chars s s₁
    → NeedsNoWriter count s
    → NeedsNoWriter (count - chars) s₁
NeedsNoWriter-after chars buf count s s₁ rd (inl l) = inl (omega (arith, rd.length))
NeedsNoWriter-after chars buf count s s₁ rd (inr w) = inr (rw rd.users w)

read_from-HasRead :
    (fuel buf count read : ℕ) (resume : ℕ → PipeSystem → PipeSystem) (s : PipeSystem)
    → IsPipe s.inode
    → NeedsNoWriter count s
    → count < fuel
    → Returns (HasRead buf count read s) (read_from fuel resume buf count read s)
read_from-HasRead zero buf count read resume s p w h = absurd (omega arith)
read_from-HasRead (suc fuel) buf count read resume s p w h = elim (ℕ_discrete count 0) [
  | yes zc ↦
      rw (read_from-end fuel buf count read resume s (inl zc))
        (HasRead-end buf count read s p (inl zc))
  | no nc ↦ elim (ℕ_discrete (pipe_size s.inode) 0) [
    | yes zs ↦
        let no_writer : s.inode.i_count ≢ 2 = elim w [ inl l ↦ absurd (omega arith) | inr n ↦ n ] in
        rw (read_from-end fuel buf count read resume s (inr (zs, no_writer)))
          (HasRead-end buf count read s p (inr zs))
    | no ns ↦
        let chars = chunk_read s count in
        let s₁ = read_chunk chars buf s in
        let rd = read_chunk-IsRead chars buf s p (omega arith) (omega arith) in
        rw (read_from-chunk fuel buf count read resume s nc ns) (
          Returns-weaken
            (λ out q. HasRead-chunk chars buf count read s s₁ out (omega arith) (omega arith) rd q)
            _
            (read_from-HasRead fuel (buf + chars) (count - chars) (read + chars) resume s₁ rd.pipe
              (NeedsNoWriter-after chars buf count s s₁ rd w) (omega (arith, p.tail_in))))
  ]
]

-- `read_pipe` that need not wait, since the pipe holds `count` bytes or has no writer left, returns
-- the smaller of `count` and the number of bytes in the pipe; the buffer holds the oldest bytes in
-- order, and they are gone from the pipe, which keeps the others in order. `count + 1` rounds are
-- enough.
pub read_pipe-HasRead :
    (buf count : ℕ) (resume : ℕ → PipeSystem → PipeSystem) (s : PipeSystem)
    → IsPipe s.inode
    → NeedsNoWriter count s
    → Returns (HasRead buf count 0 s) (read_pipe (suc count) resume buf count s)
unfolding read_pipe
read_pipe-HasRead buf count resume s p w =
    read_from-HasRead (suc count) buf count 0 resume s p w (omega arith)
