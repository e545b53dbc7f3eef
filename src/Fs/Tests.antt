-- ===== src/Fs/Tests.antt =====
-- The parts of fs/ at small examples.
use linux.Base.{
  ℕ, zero, suc, ◌+◌, ◌-◌, ◌%◌, ◌≤◌, ◌≡◌, ◌≢◌, ◌<◌, refl, arith, true, false, some, ◌==◌,
  if◌then◌else◌, returns, Returns, inl,
}
use linux.Base.Bits.{bit}
use linux.Base.Loops.{find_up}
use linux.Base.Int.{pos, neg}
use linux.Kernel.Task.{modify}
use linux.Kernel.Examples.{three_tasks}
use linux.Fs.Buffer.{BufferHead, Cache, with_head}
use linux.Fs.Buffer.Get.{choose_free, take_over}
use linux.Fs.Buffer.Choose.{IsRound, IsChosen, walk, choose_free-IsChosen}
use linux.Fs.Buffer.Lookup.{IsHandedOut, take_over-IsHandedOut}
use linux.Fs.Pipe.{PipeSystem, read_pipe, write_pipe}
use linux.Fs.Pipe.Fifo.{HasRead, read_pipe-HasRead}
use linux.Fs.Pipe.Write.{HasWritten, write_pipe-HasWritten, through_pipe, write_pipe-read_pipe}
use linux.Fs.Files.{Files, filp_of, dupfd, sys_close, emfile}
use linux.Fs.Files.Dup.{IsDup, dupfd-IsDup, sys_close-dupfd}
use linux.Fs.Structs.{SuperBlock, no_super}
use linux.Fs.Bitmap.{
  test_bit, set_bit, claim_bit, clear_zone, find_first_zero, find_map, put_bit, set_data,
}
use linux.Fs.Bitmap.Claim.{Claims, claim_bit-Claims, clear_zone-claim_bit}

-- A pipe whose indices are close to the end of the page, with no byte in it.
abbrev empty_pipe : PipeSystem
empty_pipe = record {
  inode = record {
    page = λ i. i + 1;
    pipe_head = 4090;
    pipe_tail = 4090;
    i_count = 2;
    i_wait = 77;
  };
  tasks = three_tasks;
  user = λ a. a + 5;
}

-- The same with the bytes of most of the page in it.
abbrev long_pipe : PipeSystem
long_pipe = record empty_pipe { inode = record empty_pipe.inode { pipe_head = 4000 } }

write_pipe-read_pipe_example :
    Returns
      (λ (r, s₂).
        (r ≡ 100)
        × ((s₂.inode.pipe_head + 65536 - s₂.inode.pipe_tail) % 4096 ≡ 0)
        × ((i : ℕ) → i < 100 → s₂.user (9000 + i) ≡ empty_pipe.user (1000 + i)))
      (through_pipe (λ _ s. s) 1000 9000 100 empty_pipe)
write_pipe-read_pipe_example =
    write_pipe-read_pipe 1000 9000 100 (λ _ s. s) empty_pipe
      record { head_in = omega arith; tail_in = omega arith } refl (omega arith)

write_pipe-HasWritten_example :
    Returns (HasWritten 1000 50 0 long_pipe) (write_pipe 51 (λ _ s. s) 1000 50 long_pipe)
write_pipe-HasWritten_example =
    write_pipe-HasWritten 1000 50 (λ _ s. s) long_pipe
      record { head_in = omega arith; tail_in = omega arith } (omega arith)

read_pipe-HasRead_example :
    Returns (HasRead 1000 50 0 long_pipe) (read_pipe 51 (λ _ s. s) 1000 50 long_pipe)
read_pipe-HasRead_example =
    read_pipe-HasRead 1000 50 (λ _ s. s) long_pipe
      record { head_in = omega arith; tail_in = omega arith } (inl (omega arith))

-- The current task has the descriptors 0 to 2, all for one file.
abbrev three_fds : Files
three_fds = record {
  tasks =
      modify 1000
        (λ t. record t {
          filp = λ i. if i == 0 then 4 else if i == 1 then 4 else if i == 2 then 4 else 0;
        })
        three_tasks;
  file = λ p. record { f_mode = 3; f_flags = 0; f_count = 3; f_inode = 1; f_pos = 0 };
}

duplicate : (dupfd 1 0 three_fds).0 ≡ pos 3
unfolding dupfd find_up
duplicate = refl

dupfd-IsDup_example : IsDup 1 0 3 three_fds (dupfd 1 0 three_fds).1
dupfd-IsDup_example = dupfd-IsDup 1 0 3 three_fds duplicate

sys_close-dupfd_example :
    Returns
      (λ (r, s'').
        (r ≡ pos 0)
        × ((i : ℕ) → filp_of s'' i ≡ filp_of three_fds i)
        × ((p : ℕ) → (s''.file p).f_count ≡ (three_fds.file p).f_count))
      (sys_close (λ _ s. returns s) 3 (dupfd 1 0 three_fds).1)
sys_close-dupfd_example =
    sys_close-dupfd (λ _ s. returns s) 1 0 3 three_fds duplicate (omega arith) (omega arith)

abbrev all_fds : Files
all_fds = record three_fds { tasks = modify 1000 (λ t. record t { filp = λ _. 4 }) three_tasks }

no_descriptor : (dupfd 1 0 all_fds).0 ≡ neg (pos emfile)
unfolding dupfd find_up
no_descriptor = refl

-- Three buffers in a circle, the first in use, the second dirty.
abbrev some_head : BufferHead
some_head = record {
  b_data = λ i. if i == 0 then 7 else 0;
  b_blocknr = 40;
  b_dev = 0x301;
  b_uptodate = true;
  b_dirt = false;
  b_count = 0;
  b_lock = false;
  b_prev = 0;
  b_next = 0;
  b_prev_free = 102;
  b_next_free = 101;
}

abbrev three_buffers : Cache
three_buffers = record {
  head = λ p.
      if p == 100
      then record some_head { b_count = 1 }
      else if p == 101
      then record some_head { b_dirt = true; b_prev_free = 100; b_next_free = 102 }
      else record some_head { b_prev_free = 101; b_next_free = 100 };
  hash_table = λ _. 0;
  free_list = 100;
  start_buffer = 100;
  nr_buffers = 3;
}

three-buffers : (k : ℕ) → k < 3 → walk k three_buffers 100 ≢ 0
unfolding walk
three-buffers zero l = omega arith
three-buffers (suc zero) l = omega arith
three-buffers (suc (suc zero)) l = omega arith
three-buffers (suc (suc (suc k))) l = absurd (omega arith)

others-not_first : (k : ℕ) → 1 ≤ k → k < 3 → walk k three_buffers 100 ≢ 100
unfolding walk
others-not_first zero l u = absurd (omega arith)
others-not_first (suc zero) l u = omega arith
others-not_first (suc (suc zero)) l u = omega arith
others-not_first (suc (suc (suc k))) l u = absurd (omega arith)

three_buffers-IsRound : IsRound three_buffers 100 3
unfolding walk
three_buffers-IsRound = record { buffers = three-buffers; closed = refl; first = others-not_first }

choose_free-IsChosen_example :
    Returns (IsChosen three_buffers 3) (choose_free 4 three_buffers 100 0)
choose_free-IsChosen_example =
    choose_free-IsChosen 2 three_buffers three_buffers-IsRound (omega arith)

take_over-IsHandedOut_example :
    Returns (IsHandedOut 0x302 9 102) (take_over 0x302 9 102 three_buffers)
take_over-IsHandedOut_example =
    take_over-IsHandedOut 0x302 9 102 three_buffers (omega arith) (omega arith)
      ((omega arith), (omega arith))

-- The map of zones is buffer 100, with the bits 0 to 2 set.
abbrev one_map : ℕ → ℕ
one_map i = if i == 0 then 100 else 0

claim_bit-Claims_example : Returns (Claims one_map three_buffers) (claim_bit one_map three_buffers)
claim_bit-Claims_example = claim_bit-Claims one_map three_buffers

abbrev file_system : SuperBlock
file_system = record no_super {
  s_ninodes = 100;
  s_nzones = 1000;
  s_firstdatazone = 20;
  s_imap = one_map;
  s_zmap = one_map;
}

-- Bit 3 is set.
abbrev after_claim : Cache
after_claim =
    with_head 100 (set_data (put_bit 3 true (three_buffers.head 100).b_data)) three_buffers

zone_claimed : claim_bit one_map three_buffers ≡ returns (some 3, after_claim)
unfolding claim_bit find_map find_first_zero set_bit find_up bit
zone_claimed = refl

clear_zone-claim_bit_example :
    Returns
      (λ c''. (p k : ℕ) → test_bit k (c''.head p).b_data ≡ test_bit k (three_buffers.head p).b_data)
      (clear_zone file_system 22 after_claim)
clear_zone-claim_bit_example =
    clear_zone-claim_bit file_system 3 22 three_buffers after_claim zone_claimed (omega arith)

bit_eleven : test_bit 11 (λ _. 7) ≡ false
unfolding bit
bit_eleven = refl
