-- ===== src/Kernel/Block.antt =====
-- kernel/blk_drv/ll_rw_blk.c and blk.h: the requests to block devices and their order.
-- The pointer to entry `i` of `request` is `i + 1`, and NULL is 0. Messages are left out.
pub mod Elevator
use linux.Base.{
  ℕ, zero, suc, ◌+◌, ◌-◌, ◌*◌, ◌/◌, ◌%◌, ◌^◌, Bool, true, false, Option, none, some, ltb, leb, ◌==◌,
  not, ◌&&◌, ◌||◌, if◌then◌else◌, update, Outcome, returns, panics, hangs, ◌>>=◌,
}
use linux.Base.Int.{ℤ, pos, negsuc, ltb_ℤ, eqb_ℤ}
use linux.Base.Loops.{for_up, find_down}
use linux.Fs.Buffer.{BufferHead, Cache, Rw, read, write, reada, writea, with_head}

abbrev pub nr_request : ℕ
nr_request = 32

abbrev pub nr_blk_dev : ℕ
nr_blk_dev = 7

-- `dev` is -1 in an entry that is free. `cmd` is 0 for READ and 1 for WRITE.
pub record Request : Type 0 where
  pub dev : ℤ
  pub cmd : ℕ
  pub errors : ℕ
  pub sector : ℕ
  pub nr_sectors : ℕ
  -- how far into the data of `bh` the transfer has got
  pub buffer : ℕ
  pub waiting : ℕ
  pub bh : ℕ
  pub next : ℕ

-- The table of requests, by their pointers, the queue of each device and whether the device has a
-- driver, and the buffers.
pub record Blocks : Type 0 where
  pub request : ℕ → Request
  pub current_request : ℕ → ℕ
  pub has_driver : ℕ → Bool
  pub cache : Cache

-- What the rest of the kernel does: the driver's `request_fn`, which is called when its queue was
-- empty; all that happens during a sleep on a locked buffer and on the table of requests.
pub record Devices : Type 0 where
  pub request_fn : ℕ → Blocks → Blocks
  pub until_unlocked : ℕ → Blocks → Blocks
  pub until_request : ℕ → Blocks → Blocks

-- `IN_ORDER`
abbrev pub in_order : Request → Request → Bool
in_order s1 s2 =
    ltb s1.cmd s2.cmd
    || (s1.cmd == s2.cmd
        && (ltb_ℤ s1.dev s2.dev || (eqb_ℤ s1.dev s2.dev && ltb s1.sector s2.sector)))

abbrev pub with_bh : ℕ → (BufferHead → BufferHead) → Blocks → Blocks
with_bh bh f b = record b { cache = with_head bh f b.cache }

abbrev pub with_request : ℕ → (Request → Request) → Blocks → Blocks
with_request p f b = record b { request = update b.request p (f (b.request p)) }

-- The place for `req` between `tmp` and what follows it.
abbrev pub fits : Request → Request → Request → Bool
fits tmp req next = (in_order tmp req || not (in_order tmp next)) && in_order req next

-- The loop of `add_request`: the request that `req` goes behind. A queue has at most all the
-- requests.
unfoldable pub find_place : ℕ → (ℕ → Request) → (req tmp : ℕ) → ℕ
find_place zero request req tmp = tmp
find_place (suc fuel) request req tmp =
    let next = (request tmp).next in
    let rest = find_place fuel request req next in
    if next == 0 then tmp else if fits (request tmp) (request req) (request next) then tmp else rest

-- `req->next = tmp->next; tmp->next = req`
unfoldable pub link_behind : (tmp req : ℕ) → (ℕ → Request) → ℕ → Request
link_behind tmp req request =
    let request' = update request req (record (request req) { next = (request tmp).next }) in
    update request' tmp (record (request' tmp) { next = req })

-- `req->next = NULL; if (req->bh) req->bh->b_dirt = 0`
unfoldable pub clear_dirt : (req : ℕ) → Blocks → Blocks
clear_dirt req b =
    let bh = (b.request req).bh in
    let b₁ = with_request req (λ r. record r { next = 0 }) b in
    if bh == 0 then b₁ else with_bh bh (λ h. record h { b_dirt = false }) b₁

unfoldable pub enqueue : Devices → (major req : ℕ) → Blocks → Blocks
unfolding find_place link_behind
enqueue d major req b =
    let head = b.current_request major in
    if head == 0
    then d.request_fn major (record b { current_request = update b.current_request major req })
    else record b { request = link_behind (find_place nr_request b.request req head) req b.request }

unfoldable pub add_request : Devices → (major req : ℕ) → Blocks → Blocks
unfolding clear_dirt enqueue
add_request d major req b = enqueue d major req (clear_dirt req b)

-- A sleep lasts until the buffer is unlocked.
abbrev pub lock_buffer : Devices → ℕ → Blocks → Blocks
lock_buffer d bh b =
    let b' = if (b.cache.head bh).b_lock then d.until_unlocked bh b else b in
    with_bh bh (λ h. record h { b_lock = true }) b'

-- The wake-up of those who wait for the buffer is what `until_unlocked` stands for.
abbrev pub unlock_buffer : ℕ → Blocks → Blocks
unlock_buffer bh = with_bh bh (λ h. record h { b_lock = false })

-- `repeat:`, on fuel: the last free entry of those that the command may use. Writes leave the last
-- third to reads. `none` is a read ahead that is given up.
unfoldable pub get_request :
    ℕ → Devices → (is_read ahead : Bool) → Blocks → Outcome (Option ℕ × Blocks)
get_request zero d is_read ahead b = hangs
get_request (suc fuel) d is_read ahead b =
    let n = if is_read then nr_request else nr_request * 2 / 3 in
    let again = get_request fuel d is_read ahead (d.until_request fuel b) in
    elim (find_down n (λ i. ltb_ℤ (b.request (i + 1)).dev (pos 0))) [
      | some i ↦ returns (some (i + 1), b)
      | none ↦ if ahead then returns (none, b) else again
    ]

abbrev pub is_ahead : Rw → Bool
is_ahead reada = true
is_ahead writea = true
is_ahead _ = false

abbrev pub is_read : Rw → Bool
is_read read = true
is_read reada = true
is_read _ = false

abbrev pub request_for : (is_read : Bool) → (bh : ℕ) → BufferHead → Request
request_for is_read bh h = record {
  dev = pos h.b_dev;
  cmd = if is_read then 0 else 1;
  errors = 0;
  sector = h.b_blocknr * 2 % 2 ^ 32;
  nr_sectors = 2;
  buffer = 0;
  waiting = 0;
  bh = bh;
  next = 0;
}

unfoldable pub make_request : ℕ → Devices → ℕ → Rw → ℕ → Blocks → Outcome Blocks
unfolding get_request add_request
make_request fuel d major rw' bh b =
    let b₁ = lock_buffer d bh b in
    let h = b₁.cache.head bh in
    if is_ahead rw' && (b.cache.head bh).b_lock
    then returns b
    else if (not (is_read rw') && not h.b_dirt) || (is_read rw' && h.b_uptodate)
    then returns (unlock_buffer bh b₁)
    else (get_request fuel d (is_read rw') (is_ahead rw') b₁ >>= λ (found, b₂).
        returns (elim found [
          | none ↦ unlock_buffer bh b₂
          | some req ↦
              add_request d major req
                (with_request req (λ _. request_for (is_read rw') bh (b₂.cache.head bh)) b₂)
        ]))

-- `MAJOR` of include/linux/fs.h
abbrev pub major_of : ℕ → ℕ
major_of dev = dev / 256

unfoldable pub ll_rw_block : ℕ → Devices → Rw → ℕ → Blocks → Outcome Blocks
unfolding make_request
ll_rw_block fuel d rw' bh b =
    let major = major_of (b.cache.head bh).b_dev in
    if leb nr_blk_dev major || not (b.has_driver major)
    then returns b
    else make_request fuel d major rw' bh b

unfoldable pub blk_dev_init : Blocks → Blocks
blk_dev_init =
    for_up 0 nr_request (λ i. with_request (i + 1) (λ r. record r { dev = negsuc 0; next = 0 }))

-- The driver of `major` is done with the first request of its queue. The wake-ups of those who wait
-- for the request or for a free entry are what the sleeps of `Devices` stand for.
unfoldable pub end_request : ℕ → (uptodate : Bool) → Blocks → Blocks
end_request major uptodate b =
    let p = b.current_request major in
    let bh = (b.request p).bh in
    let b₁ =
      if bh == 0
      then b
      else with_bh bh (λ h. record h { b_uptodate = uptodate; b_lock = false }) b in
    let b₂ = with_request p (λ r. record r { dev = negsuc 0 }) b₁ in
    record b₂ { current_request = update b₂.current_request major (b₂.request p).next }
