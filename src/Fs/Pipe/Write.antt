-- ===== src/Fs/Pipe/Write.antt =====
-- `write_pipe` when there is room, and the round trip through a pipe.
use linux.Base.{
  ℕ, zero, suc, ◌+◌, ◌-◌, ◌≤◌, ◌<◌, ◌≡◌, ◌≢◌, inl, refl, ◌∙◌, ap, min, arith, Returns,
  Returns-weaken, Returns->>=, Outcome, ◌>>=◌, returns,
}
use native.Mathlib.Decide.{ℕ_discrete}
use linux.Base.Int.{ℤ, pos}
use linux.Fs.Pipe.{
  PipeSystem, page_size, pipe_size, wake, write_chunk, write_to, write_pipe, read_pipe,
}
use linux.Fs.Pipe.Ring.{IsPipe, IsWritten, byte_at, write_chunk-IsWritten}
use linux.Fs.Pipe.Fifo.{HasRead, read_pipe-HasRead}

IsWritten-zero : (buf : ℕ) (s : PipeSystem) → IsPipe s.inode → IsWritten buf 0 s (wake s)
IsWritten-zero buf s p = record {
  pipe = p;
  length = omega arith;
  kept = λ i h. refl;
  added = λ i h. absurd (omega arith);
  user = λ a. refl;
}

added-split :
    (a b buf i : ℕ) (s s₁ s₂ : PipeSystem)
    → IsWritten buf a s s₁
    → IsWritten (buf + a) b s₁ s₂
    → i < a + b
    → byte_at s₂.inode (pipe_size s.inode + i) ≡ s.user (buf + i)
added-split a b buf i s s₁ s₂ r q h = elim (ℕ_discrete (suc i - a) 0) [
  | yes e ↦ q.kept (pipe_size s.inode + i) (omega (arith, r.length)) ∙ r.added i (omega arith)
  | no ne ↦
      let here : pipe_size s.inode + i ≡ pipe_size s₁.inode + (i - a) = omega (arith, r.length) in
      let there : buf + a + (i - a) ≡ buf + i = omega arith in
      ap (byte_at s₂.inode) here
      ∙ q.added (i - a) (omega arith)
      ∙ r.user (buf + a + (i - a))
      ∙ ap s.user there
]

IsWritten-trans :
    (a b buf : ℕ) (s s₁ s₂ : PipeSystem)
    → IsWritten buf a s s₁
    → IsWritten (buf + a) b s₁ s₂
    → IsWritten buf (a + b) s s₂
IsWritten-trans a b buf s s₁ s₂ r q = record {
  pipe = q.pipe;
  length = omega (arith, r.length, q.length);
  kept = λ i h. q.kept i (omega (arith, r.length)) ∙ r.kept i h;
  added = λ i h. added-split a b buf i s s₁ s₂ r q h;
  user = λ x. q.user x ∙ r.user x;
}

abbrev chunk_written : PipeSystem → ℕ → ℕ
chunk_written s count =
    min (min (page_size - s.inode.pipe_head) count) (page_size - 1 - pipe_size s.inode)

write_to-chunk :
    (fuel buf count written : ℕ) (resume : ℕ → PipeSystem → PipeSystem) (s : PipeSystem)
    → count ≢ 0
    → page_size - 1 - pipe_size s.inode ≢ 0
    → let chars = chunk_written s count in
      write_to (suc fuel) resume buf count written s
      ≡ write_to fuel resume
          (buf + chars)
          (count - chars)
          (written + chars)
          (write_chunk chars buf s)
unfolding write_to
write_to-chunk fuel buf count written resume s nc ns = ground arith

write_to-end :
    (fuel buf count written : ℕ) (resume : ℕ → PipeSystem → PipeSystem) (s : PipeSystem)
    → count ≡ 0
    → write_to (suc fuel) resume buf count written s ≡ returns (pos written, wake s)
unfolding write_to
write_to-end fuel buf count written resume s e = ground arith

abbrev pub HasWritten : (buf count written : ℕ) → PipeSystem → ℤ × PipeSystem → Type 0
HasWritten buf count written s (r, s') = (r ≡ pos (written + count)) × IsWritten buf count s s'

HasWritten-chunk :
    (chars buf count written : ℕ) (s s₁ : PipeSystem) (out : ℤ × PipeSystem)
    → chars ≤ count
    → IsWritten buf chars s s₁
    → HasWritten (buf + chars) (count - chars) (written + chars) s₁ out
    → HasWritten buf count written s out
HasWritten-chunk chars buf count written s s₁ (r, s') lc w (e, q) =
    let n : chars + (count - chars) ≡ count = omega arith in
    let m : written + chars + (count - chars) ≡ written + count = omega arith in
    (e ∙ ap pos m, rw n at (IsWritten-trans chars _ buf s s₁ s' w q))

write_to-HasWritten :
    (fuel buf count written : ℕ) (resume : ℕ → PipeSystem → PipeSystem) (s : PipeSystem)
    → IsPipe s.inode
    → count + pipe_size s.inode < page_size
    → count < fuel
    → Returns (HasWritten buf count written s) (write_to fuel resume buf count written s)
write_to-HasWritten zero buf count written resume s p l h = absurd (omega arith)
write_to-HasWritten (suc fuel) buf count written resume s p l h = elim (ℕ_discrete count 0) [
  | yes zc ↦
      let e : written ≡ written + 0 = omega arith in
      rw (write_to-end fuel buf count written resume s zc)
        (rw zc (ap pos e, IsWritten-zero buf s p))
  | no nc ↦
      let chars = chunk_written s count in
      let s₁ = write_chunk chars buf s in
      let w = write_chunk-IsWritten chars buf s p (omega arith) (omega arith) in
      rw (write_to-chunk fuel buf count written resume s nc (omega arith)) (
        Returns-weaken
          (λ out q. HasWritten-chunk chars buf count written s s₁ out (omega arith) w q) _
          (write_to-HasWritten fuel (buf + chars) (count - chars) (written + chars) resume s₁ w.pipe
            (omega (arith, w.length)) (omega (arith, p.head_in))))
]

-- `write_pipe` of no more bytes than fit returns their number; the pipe then holds the bytes it held
-- and after them those of the buffer, in order. `count + 1` rounds are enough.
pub write_pipe-HasWritten :
    (buf count : ℕ) (resume : ℕ → PipeSystem → PipeSystem) (s : PipeSystem)
    → IsPipe s.inode
    → count + pipe_size s.inode < page_size
    → Returns (HasWritten buf count 0 s) (write_pipe (suc count) resume buf count s)
unfolding write_pipe
write_pipe-HasWritten buf count resume s p l =
    write_to-HasWritten (suc count) buf count 0 resume s p l (omega arith)

-- A write and then a read through the pipe.
abbrev pub through_pipe :
    (resume : ℕ → PipeSystem → PipeSystem) (from to count : ℕ)
    → PipeSystem
    → Outcome (ℕ × PipeSystem)
through_pipe resume from to count s = write_pipe (suc count) resume from count s >>= λ (r, s₁).
    read_pipe (suc count) resume to count s₁

through_pipe_read :
    (from to count : ℕ) (s : PipeSystem) (r₁ : ℤ) (s₁ : PipeSystem) (out : ℕ × PipeSystem)
    → pipe_size s.inode ≡ 0
    → HasWritten from count 0 s (r₁, s₁)
    → HasRead to count 0 s₁ out
    → (out.0 ≡ count)
      × (pipe_size out.1.inode ≡ 0)
      × ((i : ℕ) → i < count → out.1.user (to + i) ≡ s.user (from + i))
through_pipe_read from to count s r₁ s₁ (r, s₂) z (e, w) (e', q) = (
  omega (arith, e', w.length),
  omega (arith, q.length, w.length),
  λ i l.
      let j : i ≡ pipe_size s.inode + i = omega arith in
      q.taken i (omega (arith, w.length)) ∙ ap (byte_at s₁.inode) j ∙ w.added i l,
)

-- What is written to an empty pipe, up to 4095 bytes, is what is then read from it: the same number
-- of bytes, the same bytes in order, and the pipe is empty again.
pub write_pipe-read_pipe :
    (from to count : ℕ) (resume : ℕ → PipeSystem → PipeSystem) (s : PipeSystem)
    → IsPipe s.inode
    → pipe_size s.inode ≡ 0
    → count < page_size
    → Returns
        (λ (r, s₂).
          (r ≡ count)
          × (pipe_size s₂.inode ≡ 0)
          × ((i : ℕ) → i < count → s₂.user (to + i) ≡ s.user (from + i)))
        (through_pipe resume from to count s)
write_pipe-read_pipe from to count resume s p z l =
    Returns->>= (HasWritten from count 0 s) _ _ _
      (write_pipe-HasWritten from count resume s p (omega arith))
      (λ (r₁, s₁) h.
        Returns-weaken (λ out q. through_pipe_read from to count s r₁ s₁ out z h q) _
          (read_pipe-HasRead to count resume s₁ h.1.pipe (inl (omega (arith, h.1.length)))))
