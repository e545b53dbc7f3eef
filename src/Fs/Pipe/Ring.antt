-- ===== src/Fs/Pipe/Ring.antt =====
-- The ring of a pipe as a queue: its length and its bytes, oldest first.
use linux.Base.{
  ℕ, zero, suc, ◌+◌, ◌-◌, ◌%◌, ◌≤◌, ◌<◌, ◌≡◌, arith, leb, ltb, ◌&&◌, if◌then◌else◌, update, refl,
}
use linux.Base.Loops.{for_up}
use linux.Fs.Pipe.{Pipe, PipeSystem, page_size, pipe_size, read_chunk, write_chunk}

-- Both indices are in the page.
pub record IsPipe (p : Pipe) : Type 0 where
  pub head_in : p.pipe_head < page_size
  pub tail_in : p.pipe_tail < page_size

-- The byte that will be read `i` bytes from now.
abbrev pub byte_at : Pipe → ℕ → ℕ
byte_at p i = p.page ((p.pipe_tail + i) % page_size)

-- A loop that copies consecutive cells.
copy_cells :
    (from n to source : ℕ) (src dst : ℕ → ℕ) (j : ℕ)
    → for_up from n (λ i d. update d (to + i) (src (source + i))) dst j
      ≡ (if leb (to + from) j && ltb j (to + from + n) then src (source + (j - to)) else dst j)
unfolding for_up
copy_cells from zero to source src dst j = ground arith
copy_cells from (suc n) to source src dst j =
    ground (
      arith,
      copy_cells (suc from) n to source src (update dst (to + from) (src (source + from))) j,
    )

-- What a chunk that is read does: the first `chars` bytes go to the buffer, the others move up.
pub record IsRead (buf n : ℕ) (s s' : PipeSystem) : Type 0 where
  pub pipe : IsPipe s'.inode
  pub length : pipe_size s'.inode + n ≡ pipe_size s.inode
  pub taken : (i : ℕ) → i < n → s'.user (buf + i) ≡ byte_at s.inode i
  pub left : (i : ℕ) → byte_at s'.inode i ≡ byte_at s.inode (n + i)
  pub others : (a : ℕ) → a < buf → s'.user a ≡ s.user a
  pub users : s'.inode.i_count ≡ s.inode.i_count

pub read_chunk-IsRead :
    (chars buf : ℕ) (s : PipeSystem)
    → IsPipe s.inode
    → chars ≤ pipe_size s.inode
    → chars ≤ page_size - s.inode.pipe_tail
    → IsRead buf chars s (read_chunk chars buf s)
unfolding read_chunk
read_chunk-IsRead chars buf s p l l' = record {
  pipe = record { head_in = p.head_in; tail_in = omega arith };
  length = omega (arith, p.head_in, p.tail_in);
  taken = λ i h.
      ground
        (arith, copy_cells 0 chars buf s.inode.pipe_tail s.inode.page s.user (buf + i), p.tail_in);
  left = λ i.
      let e : ((s.inode.pipe_tail + chars) % 4096 + i) % 4096
          ≡ (s.inode.pipe_tail + (chars + i)) % 4096 =
        omega arith in
      rw e refl;
  others = λ a h. ground (arith, copy_cells 0 chars buf s.inode.pipe_tail s.inode.page s.user a);
  users = refl;
}

-- What a chunk that is written does: the ring has the bytes of the buffer at its end.
pub record IsWritten (buf n : ℕ) (s s' : PipeSystem) : Type 0 where
  pub pipe : IsPipe s'.inode
  pub length : pipe_size s'.inode ≡ pipe_size s.inode + n
  pub kept : (i : ℕ) → i < pipe_size s.inode → byte_at s'.inode i ≡ byte_at s.inode i
  pub added : (i : ℕ) → i < n → byte_at s'.inode (pipe_size s.inode + i) ≡ s.user (buf + i)
  pub user : (a : ℕ) → s'.user a ≡ s.user a

pub write_chunk-IsWritten :
    (chars buf : ℕ) (s : PipeSystem)
    → IsPipe s.inode
    → chars + pipe_size s.inode < page_size
    → chars ≤ page_size - s.inode.pipe_head
    → IsWritten buf chars s (write_chunk chars buf s)
unfolding write_chunk
write_chunk-IsWritten chars buf s p l l' = record {
  pipe = record { head_in = omega arith; tail_in = p.tail_in };
  length = omega (arith, p.head_in, p.tail_in);
  kept = λ i h. ground (
    arith,
    copy_cells 0 chars s.inode.pipe_head buf s.user s.inode.page ((s.inode.pipe_tail + i) % 4096),
    p.head_in,
    p.tail_in,
  );
  added = λ i h.
      let e : (s.inode.pipe_tail + (pipe_size s.inode + i)) % 4096 ≡ s.inode.pipe_head + i =
        omega (arith, p.head_in, p.tail_in) in
      ground (
        arith,
        e,
        copy_cells 0 chars s.inode.pipe_head buf s.user s.inode.page (s.inode.pipe_head + i),
      );
  user = λ a. refl;
}
